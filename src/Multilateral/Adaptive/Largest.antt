-- ===== src/Multilateral/Adaptive/Largest.antt =====
-- The search over participant counts misses no larger round.
use mathlib.Core.Path.{subst}
use agon_protocol.Base.{
  ℕ, zero, suc, ◌+◌, ◌-◌, ◌≤◌, ◌<◌, max, Bool, true, false, ◌||◌, ltb, List, length, throw,
  no_executable_candidate, Fault, Bool-cases, Option-cases, inl, inr, ◌⊎◌, ◌≡◌, refl, sym, ap, ◌∙◌,
  arith, ltb→lt, ◌==◌, ==_iff,
}
use agon_protocol.Multilateral.{Candidate, Evaluation}
use agon_protocol.Multilateral.Submit.{
  SearchContext, BestEvaluation, AdaptiveState, next_channel_count, is_covered, channel_upper_bound,
  submit_largest_live_multilateral_scenario, search_channels, adaptive_step, adaptive_loop,
  no_evaluation, Submission, run_adaptive_max_channels_scenario, error_or,
}
use agon_protocol.Multilateral.Edges.{Scenario}
use agon_protocol.Multilateral.Adaptive.{
  best_channels, covered, next_le, by_counts, InRange, Oracle, Found, Better,
  search_channels-Better,
}

no_room :
    (upper count lower : ℕ) (is_covered : Bool)
    → is_covered ≡ false
    → (ltb upper count || is_covered || ltb upper lower) ≡ true
    → upper < max count lower
no_room upper count lower is_covered uncovered h = ground arith

has_room :
    (upper count lower : ℕ) (is_covered : Bool)
    → (ltb upper count || is_covered || ltb upper lower) ≡ false
    → lower ≤ upper
has_room upper count lower true h = ground arith
has_room upper count lower false h = ground arith

module _ (context : SearchContext) (scenario_id : List ℕ) (evaluation : ℕ → ℕ → Evaluation)
    (limit : ℕ → ℕ) (oracle : Oracle context scenario_id evaluation limit) where
  abbrev step : ℕ → AdaptiveState → AdaptiveState
  step = adaptive_step (by_counts context scenario_id evaluation limit) context scenario_id

  abbrev is_skipped : ℕ → AdaptiveState → Bool
  is_skipped count state =
      ltb (channel_upper_bound context count) count
      || is_covered state.best (channel_upper_bound context count)
      || ltb (channel_upper_bound context count) (max count (next_channel_count state.best count))

  skipped_step :
      (count : ℕ) (state : AdaptiveState) → is_skipped count state ≡ true → step count state ≡ state
  unfolding adaptive_step
  skipped_step count state h = rw h refl

  searched_step :
      (count : ℕ) (state : AdaptiveState)
      → is_skipped count state ≡ false
      → step count state
        ≡ search_channels
            (by_counts context scenario_id evaluation limit)
            context
            scenario_id
            count
            (max count (next_channel_count state.best count))
            state
  unfolding adaptive_step
  searched_step count state h = rw h refl

  too_few :
      (count : ℕ) (state : AdaptiveState)
      → is_skipped count state ≡ true
      → (c : ℕ) → count ≤ c
      → c ≤ channel_upper_bound context count
      → c ≤ best_channels state.best
  too_few count state h c from to =
      let bound = next_le state.best count in
      elim (Bool-cases (is_covered state.best (channel_upper_bound context count))) [
        | inl is_covered ↦ omega (arith, covered state.best _ is_covered)
        | inr uncovered ↦
            let narrow =
              no_room (channel_upper_bound context count) count
                (max count (next_channel_count state.best count))
                (is_covered state.best (channel_upper_bound context count)) uncovered h in
            omega arith
      ]

  step-Better :
      (count : ℕ) (state : AdaptiveState)
      → 3 ≤ count
      → count ≤ length context.full_participants
      → Better context scenario_id evaluation limit oracle count state (step count state)
  step-Better count state low high = elim (Bool-cases (is_skipped count state)) [
    | inl skipped ↦
        subst (Better context scenario_id evaluation limit oracle count state)
          (sym (skipped_step count state skipped))
          (
            omega arith,
            λ c in_range below. too_few count state skipped c in_range.2 in_range.3,
            λ found. found,
          )
    | inr searched ↦
        subst (Better context scenario_id evaluation limit oracle count state)
          (sym (searched_step count state searched))
          (search_channels-Better context scenario_id evaluation limit oracle count
            (max count (next_channel_count state.best count)) state low high refl
            (has_room (channel_upper_bound context count) count
              (max count (next_channel_count state.best count))
              (is_covered state.best (channel_upper_bound context count)) searched))
  ]

  abbrev loop : ℕ → AdaptiveState → AdaptiveState
  loop = adaptive_loop (by_counts context scenario_id evaluation limit) context scenario_id

  -- What is executed by more than `done` participants does not have more channels.
  abbrev Covers : ℕ → AdaptiveState → Type 0
  Covers done state =
      (n c : ℕ)
      → done < n
      → InRange context scenario_id evaluation limit n c
      → c < limit n
      → c ≤ best_channels state.best

  loop-Covers :
      (counts : ℕ) (state : AdaptiveState)
      → counts + 2 ≤ length context.full_participants
      → Covers (counts + 2) state
      → Found context scenario_id evaluation limit state.best
      → Covers 2 (loop counts state)
        × Found context scenario_id evaluation limit (loop counts state).best
  unfolding adaptive_loop
  loop-Covers zero state bound covers found = (covers, found)
  loop-Covers (suc counts) state bound covers found =
      let (grows, covers_here, finds) =
        step-Better (counts + 3) state (omega arith) (omega arith) in
      loop-Covers counts (step (counts + 3) state) (omega arith)
        (λ n c above in_range below. elim (Bool-cases (n == counts + 3)) [
          | inl here ↦
              let same = (==_iff n (counts + 3)).0 here in
              covers_here c
                (subst (λ (m : ℕ). InRange context scenario_id evaluation limit m c) same in_range)
                (subst (λ (m : ℕ). c < limit m) same below)
          | inr there ↦ omega (arith, covers n c (ground arith) in_range below)
        ])
        (finds found)

  nothing_done :
      length context.full_participants < 3
      → Covers 2 (loop 0 no_evaluation)
        × Found context scenario_id evaluation limit (loop 0 no_evaluation).best
  unfolding adaptive_loop
  nothing_done few =
      (λ n c above in_range below. absurd (omega (arith, in_range.0, in_range.1)), tt)

  searched_all :
      Covers 2 (loop (length context.full_participants - 2) no_evaluation)
      × Found context scenario_id evaluation limit
          (loop (length context.full_participants - 2) no_evaluation).best
  searched_all = elim (Bool-cases (ltb (length context.full_participants) 3)) [
    | inl few ↦
        subst
          (λ (k : ℕ).
            Covers 2 (loop k no_evaluation)
            × Found context scenario_id evaluation limit (loop k no_evaluation).best)
          (ground arith) (nothing_done (ground arith))
    | inr enough ↦
        loop-Covers (length context.full_participants - 2) no_evaluation (ground arith)
          (λ n c above in_range below. absurd (omega (arith, in_range.1))) tt
  ]

  -- Where each candidate is evaluated for its counts, and for each participant count those below a
  -- limit execute, the search over all participant counts from 3 on finds a round with the most
  -- channels of all that execute, and submits it. If none executes, it throws.
  pub run_adaptive_max_channels_scenario_lem :
      {R : Type 0} (submit : Scenario → Evaluation → Submission R)
      → ((fault : Fault) × (run_adaptive_max_channels_scenario
              (by_counts context scenario_id evaluation limit)
              context
              submit
              scenario_id
            ≡ throw fault)
          × ((n c : ℕ) → InRange context scenario_id evaluation limit n c → limit n ≤ c))
        ⊎ ((best : BestEvaluation) × (n c : ℕ) × (run_adaptive_max_channels_scenario
                (by_counts context scenario_id evaluation limit)
                context
                submit
                scenario_id
              ≡ submit_largest_live_multilateral_scenario submit best.definition best.result)
            × (best.result.best ≡ evaluation n c)
            × InRange context scenario_id evaluation limit n c
            × (c < limit n)
            × ((n' c' : ℕ)
                → InRange context scenario_id evaluation limit n' c'
                → c' < limit n'
                → c' ≤ c))
  unfolding run_adaptive_max_channels_scenario
  run_adaptive_max_channels_scenario_lem submit =
      let last = loop (length context.full_participants - 2) no_evaluation in
      let (covers, found) = searched_all in
      elim (Option-cases last.best) [
        | inl nothing ↦ inl (
          error_or last.last_error no_executable_candidate,
          cc,
          λ n c in_range. elim (Bool-cases (ltb c (limit n))) [
            | inl below ↦ absurd (
                omega (
                  arith,
                  covers n c in_range.0 in_range (ltb→lt c (limit n) below),
                  ap best_channels nothing,
                  in_range.0,
                  in_range.2,
                ))
            | inr beyond ↦ ground arith
          ],
        )
        | inr (best, is_best) ↦
            let (n, c, in_range, below, is_evaluation) =
              subst (Found context scenario_id evaluation limit) is_best found in
            let channels : best.result.best.candidate.channel_count ≡ c =
              ap (λ (e : Evaluation). e.candidate.channel_count) is_evaluation
              ∙ ap (λ (k : Candidate). k.channel_count) (oracle.counted n c) in
            inr (
              best,
              n,
              c,
              cc,
              is_evaluation,
              in_range,
              below,
              λ n' c' in_range' below'.
                  omega
                    (arith, covers n' c' in_range'.0 in_range' below', ap best_channels is_best),
            )
      ]
