-- ===== src/Multilateral/Search.antt =====
-- The binary search finds the largest candidate that executes.
use mathlib.Core.Path.{subst}
use agon_protocol.Base.{
  ℕ, zero, suc, ◌+◌, ◌-◌, ◌/◌, ◌≤◌, ◌<◌, true, false, ltb, Option, none, some, List, [], ◌∷◌, ◌++◌,
  Outcome, ok, throw, ◌≡◌, refl, sym, ap, ◌∙◌, arith, Bool-cases, inl, inr, ◌⊎◌, le→ltb_false,
  ltb→lt, no_executable_candidate,
}
use agon_protocol.Base.Sorting.{sort}
use agon_protocol.Multilateral.{
  Evaluation, SearchResult, executes, comes_before, search_loop, find_largest_simulated_candidate,
}

module _ (evaluation : ℕ → Evaluation) where
  abbrev pub evaluate : ℕ → Outcome Evaluation
  evaluate n = ok (evaluation n)

  round_executes :
      (rounds low above : ℕ) (best : Option Evaluation) (successful : List Evaluation)
      → ltb low above ≡ true
      → executes (evaluation ((low + (above - 1)) / 2)) ≡ true
      → search_loop evaluate (suc rounds) low above best successful
        ≡ search_loop evaluate rounds
            ((low + (above - 1)) / 2 + 1)
            above
            (some (evaluation ((low + (above - 1)) / 2)))
            (successful ++ (evaluation ((low + (above - 1)) / 2) ∷ []))
  unfolding search_loop
  round_executes rounds low above best successful h e = cc

  round_fails :
      (rounds low above : ℕ) (best : Option Evaluation) (successful : List Evaluation)
      → ltb low above ≡ true
      → executes (evaluation ((low + (above - 1)) / 2)) ≡ false
      → search_loop evaluate (suc rounds) low above best successful
        ≡ search_loop evaluate rounds low ((low + (above - 1)) / 2) best successful
  unfolding search_loop
  round_fails rounds low above best successful h e = cc

  round_ends :
      (rounds low above : ℕ) (best : Option Evaluation) (successful : List Evaluation)
      → ltb low above ≡ false
      → search_loop evaluate rounds low above best successful ≡ ok (best, successful)
  unfolding search_loop
  round_ends zero low above best successful h = refl
  round_ends (suc rounds) low above best successful h = rw (h, search_loop) refl

  -- `limit` is the first candidate above the ones that execute; the best so far is the one below `low`.
  module _ (lower limit : ℕ) where
    abbrev Best : ℕ → Option Evaluation → Type 0
    Best low none = low ≡ lower
    Best low (some e) = (lower < low) × (e ≡ evaluation (low - 1))

    search_loop_lem :
        (rounds low above : ℕ) (best : Option Evaluation) (successful : List Evaluation)
        → lower ≤ low
        → low ≤ limit
        → limit ≤ above
        → above ≤ low + rounds
        → ((n : ℕ) → lower ≤ n → n < above → executes (evaluation n) ≡ ltb n limit)
        → Best low best
        → (best' : Option Evaluation) × (successful' : List Evaluation) × (search_loop evaluate
              rounds low above best successful
            ≡ ok (best', successful'))
          × Best limit best'
    search_loop_lem zero low above best successful hl hlow habove fuel oracle known =
        let here : low ≡ limit = omega arith in
        (
          best,
          successful,
          round_ends zero low above best successful (le→ltb_false above low (omega arith)),
          subst (λ t. Best t best) here known,
        )
    search_loop_lem (suc rounds) low above best successful hl hlow habove fuel oracle known =
        let middle = (low + (above - 1)) / 2 in
        elim (Bool-cases (ltb low above)) [
          | inr ended ↦
              let here : low ≡ limit = ground arith in
              (
                best,
                successful,
                round_ends (suc rounds) low above best successful ended,
                subst (λ t. Best t best) here known,
              )
          | inl going ↦
              let less : low < above = ltb→lt low above going in
              let asked = oracle middle (omega arith) (omega arith) in
              elim (Bool-cases (executes (evaluation middle))) [
                | inl good ↦
                    let under : middle < limit = ltb→lt middle limit (sym asked ∙ good) in
                    let below : middle ≡ middle + 1 - 1 = omega arith in
                    let (best', successful', run, known') =
                      search_loop_lem rounds (middle + 1) above (some (evaluation middle))
                        (successful ++ (evaluation middle ∷ [])) (omega arith) (omega arith) habove
                        (omega arith) oracle (omega arith, ap evaluation below) in
                    (
                      best',
                      successful',
                      round_executes rounds low above best successful going good ∙ run,
                      known',
                    )
                | inr bad ↦
                    let over : limit ≤ middle = not_below middle limit (sym asked ∙ bad) in
                    let (best', successful', run, known') =
                      search_loop_lem rounds low middle best successful hl hlow over (omega arith)
                        (λ n from to. oracle n from (omega arith)) known in
                    (
                      best',
                      successful',
                      round_fails rounds low above best successful going bad ∙ run,
                      known',
                    )
              ]
        ]
      where
        not_below : (n m : ℕ) → ltb n m ≡ false → m ≤ n
        not_below n m h = ground arith

-- Where the candidates that execute are those below `limit`, of all from `lower_bound` to
-- `upper_bound`, the search ends: it returns the evaluation of the largest candidate that executes,
-- and fails exactly if none does.
pub find_largest_simulated_candidate_lem :
    (evaluation : ℕ → Evaluation) (lower_bound upper_bound limit : ℕ)
    → lower_bound ≤ limit
    → limit ≤ upper_bound + 1
    → ((n : ℕ) → lower_bound ≤ n → n < upper_bound + 1 → executes (evaluation n) ≡ ltb n limit)
    → ((lower_bound ≡ limit)
        × (find_largest_simulated_candidate (evaluate evaluation) lower_bound upper_bound
            ≡ throw no_executable_candidate))
      ⊎ ((lower_bound < limit)
          × (result : SearchResult) × (find_largest_simulated_candidate
                (evaluate evaluation)
                lower_bound
                upper_bound
              ≡ ok result)
          × (result.best ≡ evaluation (limit - 1)))
unfolding find_largest_simulated_candidate
find_largest_simulated_candidate_lem evaluation lower_bound upper_bound limit low high oracle =
    let rounds = upper_bound + 1 - lower_bound in
    let (best, successful, run, known) =
      search_loop_lem evaluation lower_bound limit rounds lower_bound (upper_bound + 1) none []
        (omega arith) low high (omega arith) oracle refl in
    finish best successful run known
  where
    finish :
        (best : Option Evaluation) (successful : List Evaluation)
        → search_loop
            (evaluate evaluation)
            (upper_bound + 1 - lower_bound)
            lower_bound
            (upper_bound + 1)
            none
            []
          ≡ ok (best, successful)
        → Best evaluation lower_bound limit limit best
        → ((lower_bound ≡ limit)
            × (find_largest_simulated_candidate (evaluate evaluation) lower_bound upper_bound
                ≡ throw no_executable_candidate))
          ⊎ ((lower_bound < limit)
              × (result : SearchResult) × (find_largest_simulated_candidate
                    (evaluate evaluation)
                    lower_bound
                    upper_bound
                  ≡ ok result)
              × (result.best ≡ evaluation (limit - 1)))
    finish none successful run known = inl (sym known, rw run refl)
    finish (some best) successful run known = inr (
      known.0,
      record { best = best; successful_candidates = sort comes_before successful },
      rw run refl,
      known.1,
    )
