-- ===== src/Rpc/Retry.antt =====
-- Calls that are retried.
use mathlib.Core.Path.{subst}
use agon_protocol.Base.{
  ℕ, zero, suc, ◌+◌, ◌*◌, ◌≤◌, ◌<◌, true, false, ◌||◌, not, ◌==◌, List, [], ◌∷◌, Bool-cases, ==_iff,
  inl, inr, ◌⊎◌, ◌≡◌, refl, sym, ap, arith,
}
use agon_protocol.Rpc.{
  Text, Attempt, returned, raised, is_transient_rpc_error, RetryEnd, succeeded, rethrown, Retried,
  retry_loop, with_rpc_retry,
}

-- The delays after so many attempts from a number on.
abbrev pub delays_from : ℕ → ℕ → List ℕ
delays_from attempt zero = []
delays_from attempt (suc count) = 400 * attempt ∷ delays_from (attempt + 1) count

pub Attempt-cases :
    {A : Type 0} (r : Attempt A)
    → ((a : A) × (r ≡ returned a)) ⊎ ((error : Text) × (r ≡ raised error))
Attempt-cases (returned a) = inl (a, refl)
Attempt-cases (raised error) = inr (error, refl)

module _ {A : Type 0} (operation : ℕ → Attempt A) (max_attempts : ℕ) where
  abbrev pub FailsTransiently : ℕ → Type 0
  FailsTransiently n =
      (error : Text) × (operation n ≡ raised error) × (is_transient_rpc_error error ≡ true)

  -- The attempt that decides: it returns, or its error is final.
  abbrev pub Decides : ℕ → RetryEnd A → Type 0
  Decides n end =
      ((value : A) × (operation n ≡ returned value) × (end ≡ succeeded value))
      ⊎ ((error : Text) × (operation n ≡ raised error)
          × (end ≡ rethrown error)
          × ((is_transient_rpc_error error ≡ false) ⊎ (n ≡ max_attempts)))

  -- From an attempt on, some fail transiently and the next one decides.
  abbrev Runs : ℕ → ℕ → Retried A → Type 0
  Runs attempt left result =
      (count : ℕ) × (count < left)
      × ((n : ℕ) → attempt ≤ n → n < attempt + count → FailsTransiently n)
      × (result.delays ≡ delays_from attempt count)
      × Decides (attempt + count) result.end

  goes_on :
      (attempt left : ℕ) (result : Retried A)
      → FailsTransiently attempt
      → Runs (attempt + 1) left result
      → Runs attempt (suc left) (record result { delays = 400 * attempt ∷ result.delays })
  goes_on attempt left result here (count, few, before, delays, decides) = (
    suc count,
    omega arith,
    λ n from to. elim (Bool-cases (attempt == n)) [
      | inl same ↦ subst FailsTransiently ((==_iff attempt n).0 same) here
      | inr other ↦ before n (ground arith) (omega arith)
    ],
    ap (◌∷◌ (400 * attempt)) delays,
    subst (λ (n : ℕ). Decides n result.end) (omega arith) decides,
  )

  stops :
      (attempt left : ℕ) (end : RetryEnd A)
      → Decides attempt end
      → Runs attempt (suc left) (record { end = end; delays = [] })
  stops attempt left end decides = (
    0,
    omega arith,
    λ n from to. absurd (omega arith),
    refl,
    subst (λ (n : ℕ). Decides n end) (omega arith) decides,
  )

  loop_returns :
      (left attempt : ℕ) (value : A)
      → operation attempt ≡ returned value
      → retry_loop operation max_attempts (suc left) attempt
        ≡ record { end = succeeded value; delays = [] }
  unfolding retry_loop
  loop_returns left attempt value h = cc

  loop_rethrows :
      (left attempt : ℕ) (error : Text)
      → operation attempt ≡ raised error
      → (not (is_transient_rpc_error error) || attempt == max_attempts) ≡ true
      → retry_loop operation max_attempts (suc left) attempt
        ≡ record { end = rethrown error; delays = [] }
  unfolding retry_loop
  loop_rethrows left attempt error h final = cc

  loop_retries :
      (left attempt : ℕ) (error : Text)
      → operation attempt ≡ raised error
      → (not (is_transient_rpc_error error) || attempt == max_attempts) ≡ false
      → retry_loop operation max_attempts (suc left) attempt ≡ (
          let rest = retry_loop operation max_attempts left (attempt + 1) in
          record rest { delays = 400 * attempt ∷ rest.delays })
  unfolding retry_loop
  loop_retries left attempt error h again = cc

  lasting_error :
      (left attempt : ℕ) (error : Text)
      → operation attempt ≡ raised error
      → is_transient_rpc_error error ≡ false
      → Runs attempt (suc left) (retry_loop operation max_attempts (suc left) attempt)
  lasting_error left attempt error eq lasting =
      subst (Runs attempt (suc left)) (sym (loop_rethrows left attempt error eq (rw lasting refl)))
        (stops attempt left (rethrown error) (inr (error, eq, refl, inl lasting)))

  -- An attempt, given what happens when it fails transiently.
  by_attempt :
      (left attempt : ℕ)
      → ((error : Text)
          → operation attempt ≡ raised error
          → is_transient_rpc_error error ≡ true
          → Runs attempt (suc left) (retry_loop operation max_attempts (suc left) attempt))
      → Runs attempt (suc left) (retry_loop operation max_attempts (suc left) attempt)
  by_attempt left attempt transient_error = elim (Attempt-cases (operation attempt)) [
    | inl (value, eq) ↦
        subst (Runs attempt (suc left)) (sym (loop_returns left attempt value eq))
          (stops attempt left (succeeded value) (inl (value, eq, refl)))
    | inr (error, eq) ↦ elim (Bool-cases (is_transient_rpc_error error)) [
      | inr lasting ↦ lasting_error left attempt error eq lasting
      | inl transient ↦ transient_error error eq transient
    ]
  ]

  retry_loop-Runs :
      (left attempt : ℕ)
      → 0 < left
      → attempt + left ≡ max_attempts + 1
      → Runs attempt left (retry_loop operation max_attempts left attempt)
  retry_loop-Runs zero attempt some_left bound = absurd (omega arith)
  retry_loop-Runs (suc zero) attempt some_left bound = by_attempt 0 attempt (λ error eq transient.
      subst (Runs attempt 1)
        (sym (
          loop_rethrows 0 attempt error eq
            (rw (transient, (==_iff attempt max_attempts).1 (omega arith)) refl)))
        (stops attempt 0 (rethrown error) (inr (error, eq, refl, inr (omega arith)))))
  retry_loop-Runs (suc (suc left)) attempt some_left bound =
      by_attempt (suc left) attempt (λ error eq transient.
        subst (Runs attempt (suc (suc left)))
          (sym (loop_retries (suc left) attempt error eq (rw transient (ground arith))))
          (goes_on attempt (suc left) (retry_loop operation max_attempts (suc left) (attempt + 1))
            (error, eq, transient)
            (retry_loop-Runs (suc left) (attempt + 1) (omega arith) (omega arith))))

  -- A call with at least one attempt ends at an attempt that returns, whose value is the result, or
  -- that fails for good or is the last, whose error is thrown. All attempts before it failed
  -- transiently, and each was followed by a delay of 400 ms times its number.
  pub with_rpc_retry_lem :
      0 < max_attempts
      → (count : ℕ) × (count < max_attempts)
        × ((n : ℕ) → 1 ≤ n → n < 1 + count → FailsTransiently n)
        × ((with_rpc_retry operation max_attempts).delays ≡ delays_from 1 count)
        × Decides (1 + count) (with_rpc_retry operation max_attempts).end
  unfolding with_rpc_retry
  with_rpc_retry_lem some_attempt = retry_loop-Runs max_attempts 1 some_attempt (omega arith)
