-- ===== src/Multilateral/Adaptive.antt =====
-- One round of the search over participant counts.
pub mod Largest
use mathlib.Core.Path.{subst}
use agon_protocol.Base.{no_executable_candidate}
use agon_protocol.Base.{
  ℕ, zero, suc, ◌+◌, ◌-◌, ◌≤◌, ◌<◌, min, max, Bool, true, false, ◌||◌, ltb, leb, ◌==◌, Option, none,
  some, List, length, length-take, take, Outcome, ok, throw, Fault, Bool-cases, Option-cases, inl,
  inr, ◌⊎◌, ◌≡◌, refl, sym, ap, ◌∙◌, arith,
}
use agon_protocol.Multilateral.{
  Candidate, Evaluation, SearchResult, executes, find_largest_simulated_candidate,
  is_better_max_channels_evaluation,
}
use agon_protocol.Multilateral.Search.{evaluate, find_largest_simulated_candidate_lem}
use agon_protocol.Multilateral.Edges.{Scenario}
use agon_protocol.Multilateral.Submit.{
  SearchContext, BestEvaluation, AdaptiveState, best_attempt, next_channel_count, is_covered,
  channel_upper_bound, channel_scenario, error_or, submit_largest_live_multilateral_scenario,
  search_channels, adaptive_step, adaptive_loop, no_evaluation, Submission,
  run_adaptive_max_channels_scenario,
}

-- The channels of the best evaluation so far.
abbrev pub best_channels : Option BestEvaluation → ℕ
best_channels none = 0
best_channels (some b) = b.result.best.candidate.channel_count

pub next_le :
    (best : Option BestEvaluation) (count : ℕ)
    → max count (next_channel_count best count) ≤ max count (best_channels best + 1)
next_le none count = omega arith
next_le (some b) count = omega arith

pub next_above :
    (best : Option BestEvaluation) (count : ℕ)
    → 0 < count
    → best_channels best < max count (next_channel_count best count)
next_above none count h = omega arith
next_above (some b) count h = omega arith

pub covered :
    (best : Option BestEvaluation) (upper : ℕ)
    → is_covered best upper ≡ true
    → upper ≤ best_channels best
covered none upper h = cc
covered (some b) upper h = ground arith

is_better :
    (best : Option BestEvaluation) (e : Evaluation)
    → best_channels best < e.candidate.channel_count
    → is_better_max_channels_evaluation (best_attempt best) e ≡ true
unfolding is_better_max_channels_evaluation
is_better none e h = refl
is_better (some b) e h = ground arith

module _ (context : SearchContext) (scenario_id : List ℕ) (evaluation : ℕ → ℕ → Evaluation)
    (limit : ℕ → ℕ) where
  abbrev pub by_counts : Scenario → ℕ → Outcome Evaluation
  by_counts definition channels = ok (evaluation (length definition.full_participant_set) channels)

  -- A round that the context has participants and channels for.
  abbrev pub InRange : ℕ → ℕ → Type 0
  InRange participants channels =
      (3 ≤ participants)
      × (participants ≤ length context.full_participants)
      × (participants ≤ channels)
      × (channels ≤ channel_upper_bound context participants)

  -- The evaluations are of the counts asked for, and for each participant count, those with fewer
  -- channels than the limit execute.
  pub record Oracle : Type 0 where
    pub counted :
        (n c : ℕ) → (evaluation n c).candidate ≡ record { participant_count = n; channel_count = c }
    pub limited : (n c : ℕ) → InRange n c → executes (evaluation n c) ≡ ltb c (limit n)

  -- The best evaluation is of a round that executes.
  abbrev pub Found : Option BestEvaluation → Type 0
  Found none = Unit
  Found (some b) = (n c : ℕ) × InRange n c × (c < limit n) × (b.result.best ≡ evaluation n c)

  module _ (oracle : Oracle) where
    abbrev pub Better : ℕ → AdaptiveState → AdaptiveState → Type 0
    Better count state state' =
        (best_channels state.best ≤ best_channels state'.best)
        × ((c : ℕ) → InRange count c → c < limit count → c ≤ best_channels state'.best)
        × (Found state.best → Found state'.best)

    module _ (count lower : ℕ) (state : AdaptiveState) where
      abbrev search : Outcome SearchResult
      search =
          find_largest_simulated_candidate (evaluate (evaluation count)) lower
            (channel_upper_bound context count)

      abbrev definition : Scenario
      definition = channel_scenario context scenario_id count lower

      searched :
          count ≤ length context.full_participants
          → find_largest_simulated_candidate (by_counts definition) lower definition.upper_bound
            ≡ search
      unfolding channel_scenario
      searched high =
          ap
            (λ (n : ℕ).
              find_largest_simulated_candidate (evaluate (evaluation n)) lower
                (channel_upper_bound context count))
            (omega (arith, length-take count context.full_participants))

      search_channels_fails :
          (fault : Fault)
          → count ≤ length context.full_participants
          → search ≡ throw fault
          → search_channels by_counts context scenario_id count lower state
            ≡ record state { last_error = some fault }
      unfolding search_channels
      search_channels_fails fault high run = let same = searched high in cc

      search_channels_finds :
          (result : SearchResult)
          → count ≤ length context.full_participants
          → search ≡ ok result
          → is_better_max_channels_evaluation (best_attempt state.best) result.best ≡ true
          → search_channels by_counts context scenario_id count lower state
            ≡ record state { best = some (record { definition = definition; result = result }) }
      unfolding search_channels
      search_channels_finds result high run better = let same = searched high in cc

    clamp :
        (c lower bound upper : ℕ)
        → lower ≤ c
        → c < upper + 1
        → ltb c bound ≡ ltb c (max lower (min bound (upper + 1)))
    clamp c lower bound upper from to = ground arith

    pub search_channels-Better :
        (count lower : ℕ) (state : AdaptiveState)
        → 3 ≤ count
        → count ≤ length context.full_participants
        → lower ≡ max count (next_channel_count state.best count)
        → lower ≤ channel_upper_bound context count
        → Better count state (search_channels by_counts context scenario_id count lower state)
    search_channels-Better count lower state low high is_lower has_room =
        let upper = channel_upper_bound context count in
        let above_best = next_above state.best count (omega arith) in
        let not_above = next_le state.best count in
        elim (find_largest_simulated_candidate_lem (evaluation count) lower upper
          (max lower (min (limit count) (upper + 1))) (omega arith) (omega arith)
          (λ c from to.
            oracle.limited count c (low, high, omega arith, omega arith)
            ∙ clamp c lower (limit count) upper from to)) [
              | inl (at_lower, run) ↦
                  subst (Better count state)
                    (sym (search_channels_fails count lower state no_executable_candidate high run))
                    (
                      omega arith,
                      λ c in_range below. omega (arith, in_range.2, in_range.3),
                      λ found. found,
                    )
              | inr (above, result, run, is_best) ↦
                  let c = max lower (min (limit count) (upper + 1)) - 1 in
                  let channels : result.best.candidate.channel_count ≡ c =
                    ap (λ (e : Evaluation). e.candidate.channel_count) is_best
                    ∙ ap (λ (k : Candidate). k.channel_count) (oracle.counted count c) in
                  subst (Better count state)
                    (sym (
                      search_channels_finds count lower state result high run
                        (is_better state.best result.best (omega arith))))
                    (
                      omega arith,
                      λ c' in_range below. omega (arith, in_range.3),
                      λ found.
                          (count, c, (low, high, omega arith, omega arith), omega arith, is_best),
                    )
            ]
