-- ===== src/Multilateral/Obligation.antt =====
-- The amount that a channel of a round owes: `deterministicRawChannelAmount` of
-- scripts/ryvo-protocol-demo.ts. SHA-256 is a parameter. The two bounds are raw amounts, as
-- `toRawAmount` rounds them.
use native.Mathlib.Nat.{mod-lt}
use agon_protocol.Base.{
  ℕ, zero, suc, ◌+◌, ◌-◌, ◌/◌, ◌%◌, ◌≤◌, ◌<◌, ltb, leb, if◌then◌else◌, max, List, [], ◌∷◌, ◌++◌,
  take, false, Bool-cases, inl, inr, arith, ◌≡◌,
}
use agon_protocol.Bls.{be_loop}
use agon_protocol.Multilateral.Edges.{Edge}

-- `String(value)`, in front of what follows: at most one round for each digit.
unfoldable pub decimal_loop : ℕ → ℕ → List ℕ → List ℕ
decimal_loop zero value digits = digits
decimal_loop (suc rounds) value digits =
    let rest = decimal_loop rounds (value / 10) ((48 + value % 10) ∷ digits) in
    if ltb value 10 then (48 + value) ∷ digits else rest

abbrev pub decimal : ℕ → List ℕ
decimal value = decimal_loop (value + 1) value []

pub record AmountParams : Type 0 where
  pub seed : List ℕ
  pub scenario_id : List ℕ
  pub min_raw : ℕ
  pub max_raw : ℕ

-- What is hashed: `seed:scenarioId:payer->payee`.
unfoldable pub amount_text : AmountParams → Edge → List ℕ
amount_text params edge =
    params.seed
    ++ (b':'
        ∷ (params.scenario_id
            ++ (b':'
                ∷ (decimal edge.payer.participant_id
                    ++ (b'-' ∷ b'>' ∷ decimal edge.payee.participant_id)))))

within :
    (low high offset : ℕ)
    → leb high low ≡ false
    → offset < high - low + 1
    → low + offset ≤ max low high
within low high offset proper h = ground arith

module _ (sha256 : List ℕ → List ℕ) where
  unfoldable pub deterministic_raw_channel_amount : AmountParams → Edge → ℕ
  deterministic_raw_channel_amount params edge =
      let span = params.max_raw - params.min_raw + 1 in
      let offset = be_loop 0 (take 8 (sha256 (amount_text params edge))) % span in
      if leb params.max_raw params.min_raw then params.min_raw else params.min_raw + offset

  -- Whatever the hash is, the amount lies between the two bounds; where they are in the wrong order, it
  -- is the first one.
  pub deterministic_raw_channel_amount_bounds :
      (params : AmountParams) (edge : Edge)
      → (params.min_raw ≤ deterministic_raw_channel_amount params edge)
        × (deterministic_raw_channel_amount params edge ≤ max params.min_raw params.max_raw)
  unfolding deterministic_raw_channel_amount
  deterministic_raw_channel_amount_bounds params edge =
      let offset_lt =
        mod-lt (be_loop 0 (take 8 (sha256 (amount_text params edge))))
          {m = params.max_raw - params.min_raw + 1} (omega arith) in
      elim (Bool-cases (leb params.max_raw params.min_raw)) [
        | inl reversed ↦ rw reversed (omega arith, omega arith)
        | inr proper ↦
            rw proper (omega arith, within params.min_raw params.max_raw _ proper offset_lt)
      ]
