-- ===== src/Yield/Rounding.antt =====
-- What is lost when amounts are rounded to shares.
use native.Mathlib.Decide.{dec_lt}
use native.Mathlib.Nat.{div-mul-le_self, lt-div-mul-add, mul-le-mul_right, zero-div}
use agon_protocol.Base.{
  ℕ, ◌+◌, ◌*◌, ◌/◌, ◌≤◌, ◌<◌, ◌==◌, ok, ◌≡◌, refl, arith, Bool-cases, inl, inr, sym, ap, ◌∙◌,
  ==_iff,
}
use agon_protocol.Yield.{
  YieldStrategySnapshot, q64, usdc_to_ag_shares, ag_shares_to_usdc, next_commitment_amount_usd,
}

-- The shares of an amount, for an index that is set.
abbrev shares_of : YieldStrategySnapshot → ℕ → ℕ
shares_of strategy usdc = usdc * q64 / strategy.user_index_q64

no_amount : (usdc index : ℕ) → usdc ≡ 0 → 0 ≡ usdc * q64 / index
no_amount usdc index e =
    let none_left : usdc * q64 ≡ 0 = omega arith in
    sym (ap (λ (t : ℕ). t / index) none_left ∙ zero-div index)

usdc_to_ag_shares_lem :
    (strategy : YieldStrategySnapshot) (usdc : ℕ)
    → 0 < strategy.user_index_q64
    → usdc_to_ag_shares strategy usdc ≡ ok (shares_of strategy usdc)
unfolding usdc_to_ag_shares
usdc_to_ag_shares_lem strategy usdc h = elim (Bool-cases (usdc == 0)) [
  | inl none_given ↦
      rw none_given (ap ok (no_amount usdc strategy.user_index_q64 ((==_iff usdc 0).0 none_given)))
  | inr some_given ↦ rw some_given (ground arith)
]

ag_shares_to_usdc_lem :
    (strategy : YieldStrategySnapshot) (shares : ℕ)
    → ag_shares_to_usdc strategy shares ≡ shares * strategy.user_index_q64 / q64
unfolding ag_shares_to_usdc
ag_shares_to_usdc_lem strategy shares = elim (Bool-cases (shares == 0)) [
  | inl none_given ↦
      let e : shares ≡ 0 = (==_iff shares 0).0 none_given in
      let none_left : shares * strategy.user_index_q64 ≡ 0 =
        ap (λ (t : ℕ). t * strategy.user_index_q64) e ∙ omega arith in
      rw (none_given, none_left) refl
  | inr some_given ↦ rw some_given refl
]

-- A quotient, as a bound from both sides.
floor : (x d : ℕ) → 0 < d → (x / d * d ≤ x) × (x < x / d * d + d)
floor x d h = (div-mul-le_self x d, lt-div-mul-add {a = x} {b = d} h)

-- Under an index that is set, an amount that is turned into shares and back is never larger than it
-- was, and what is lost, beyond the first unit, is less than one share is worth:
-- `usdc - back - 1 < index / 2^64`.
pub ag_shares_to_usdc-usdc_to_ag_shares :
    (strategy : YieldStrategySnapshot) (usdc : ℕ)
    → 0 < strategy.user_index_q64
    → (shares : ℕ) × (usdc_to_ag_shares strategy usdc ≡ ok shares)
      × (ag_shares_to_usdc strategy shares ≤ usdc)
      × (usdc * q64 < (ag_shares_to_usdc strategy shares + 1) * q64 + strategy.user_index_q64)
ag_shares_to_usdc-usdc_to_ag_shares strategy usdc h =
    let shares = shares_of strategy usdc in
    let given = floor (usdc * q64) strategy.user_index_q64 h in
    let back = floor (shares * strategy.user_index_q64) q64 (omega arith) in
    let value = ag_shares_to_usdc_lem strategy shares in
    (
      shares,
      usdc_to_ag_shares_lem strategy usdc h,
      omega (arith, given.0, back.0, value),
      omega (arith, given.1, back.1, value),
    )

not_more : (sa sb sc i x : ℕ) → (sa + sb) * i ≤ x → x < sc * i + i → sa + sb ≤ sc
not_more sa sb sc i x h k = elim (dec_lt sc (sa + sb)) [
  | yes more ↦
      let above : sc + 1 ≤ sa + sb = omega arith in absurd (omega (arith, mul-le-mul_right i above))
  | no fine ↦ omega arith
]

not_fewer : (sa sb sc i x : ℕ) → sc * i ≤ x → x < (sa + sb) * i + 2 * i → sc ≤ sa + sb + 1
not_fewer sa sb sc i x h k = elim (dec_lt (sa + sb + 1) sc) [
  | yes more ↦
      let above : sa + sb + 2 ≤ sc = omega arith in absurd (omega (arith, mul-le-mul_right i above))
  | no fine ↦ omega arith
]

-- Two commitments for parts of an amount come to as many shares as one for the whole, or to one share
-- fewer, and never to more: with `nextCommitmentAmountUsd` from `settled` on, by `a` and then by `b`.
pub next_commitment_amount_usd_split :
    (strategy : YieldStrategySnapshot) (settled a b : ℕ)
    → 0 < strategy.user_index_q64
    → (first : ℕ) × (second : ℕ) × (whole : ℕ) × (next_commitment_amount_usd settled a strategy
        ≡ ok first)
      × (next_commitment_amount_usd first b strategy ≡ ok second)
      × (next_commitment_amount_usd settled (a + b) strategy ≡ ok whole)
      × (settled ≤ first)
      × (first ≤ second)
      × (second ≤ whole)
      × (whole ≤ second + 1)
unfolding next_commitment_amount_usd
next_commitment_amount_usd_split strategy settled a b h =
    let i = strategy.user_index_q64 in
    let sa = shares_of strategy a in
    let sb = shares_of strategy b in
    let sc = shares_of strategy (a + b) in
    let fa = floor (a * q64) i h in
    let fb = floor (b * q64) i h in
    let fc = floor ((a + b) * q64) i h in
    let low : sa + sb ≤ sc =
      not_more sa sb sc i ((a + b) * q64) (omega (arith, fa.0, fb.0)) (omega (arith, fc.1)) in
    let high : sc ≤ sa + sb + 1 =
      not_fewer sa sb sc i ((a + b) * q64) (omega (arith, fc.0)) (omega (arith, fa.1, fb.1)) in
    (
      settled + sa,
      settled + sa + sb,
      settled + sc,
      rw (usdc_to_ag_shares_lem strategy a h) refl,
      rw (usdc_to_ag_shares_lem strategy b h) refl,
      rw (usdc_to_ag_shares_lem strategy (a + b) h) refl,
      omega arith,
      omega arith,
      omega arith,
      omega arith,
    )
