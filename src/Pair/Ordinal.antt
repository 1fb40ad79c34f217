-- ===== src/Pair/Ordinal.antt =====
-- The slots of the channel buckets: one for each pair, and none is skipped.
use native.Mathlib.Decide.{dec_lt}
use native.Mathlib.Nat.{mul-le-mul}
use agon_protocol.Base.{
  ℕ, zero, suc, ◌+◌, ◌-◌, ◌*◌, ◌/◌, ◌%◌, ◌^◌, ◌≤◌, ◌<◌, min, max, ◌≡◌, ◌≢◌, refl, sym, ap, ap₂, ◌∙◌,
  ◌↔◌, arith,
}
use agon_protocol.Base.Number.{as_number, as_number_safe}
use agon_protocol.Pair.{
  CanonicalPair, canonical_participants, pair_ordinal, channel_bucket_id, channel_bucket_slot_index,
}

-- The number of pairs whose higher participant is below `n`.
triangle : ℕ → ℕ
triangle zero = 0
triangle (suc n) = triangle n + n

double_triangle-suc : (n : ℕ) → suc n * n ≡ 2 * triangle (suc n)
unfolding triangle
double_triangle-suc zero = refl
double_triangle-suc (suc n) = omega (arith, double_triangle-suc n)

double_triangle : (n : ℕ) → n * (n - 1) ≡ 2 * triangle n
double_triangle zero = unfold triangle in refl
double_triangle (suc n) = let less : suc n - 1 ≡ n = omega arith in rw less (double_triangle-suc n)

pair_ordinal-triangle : (lower higher : ℕ) → pair_ordinal lower higher ≡ triangle higher + lower
unfolding pair_ordinal
pair_ordinal-triangle lower higher = omega (arith, double_triangle higher)

triangle-lt : (m n : ℕ) → m < n → triangle m + m ≤ triangle n
unfolding triangle
triangle-lt m zero h = absurd (omega arith)
triangle-lt m (suc n) h = elim (dec_lt m n) [
  | yes below ↦ omega (arith, triangle-lt m n below)
  | no top ↦ let e : m ≡ n = omega arith in rw e (omega arith)
]

-- A number below the square fixes the pair.
pair_ordinal-injective :
    (l h l' h' : ℕ) → l < h → l' < h' → pair_ordinal l h ≡ pair_ordinal l' h' → (l ≡ l') × (h ≡ h')
pair_ordinal-injective l h l' h' hl hl' e =
    let same : triangle h + l ≡ triangle h' + l' =
      sym (pair_ordinal-triangle l h) ∙ e ∙ pair_ordinal-triangle l' h' in
    elim (dec_lt h h') [
      | yes less ↦ absurd (omega (arith, triangle-lt h h' less))
      | no not_less ↦ elim (dec_lt h' h) [
        | yes more ↦ absurd (omega (arith, triangle-lt h' h more))
        | no not_more ↦
            let eq : h ≡ h' = omega arith in
            let tri : triangle h ≡ triangle h' = ap triangle eq in (omega arith, eq)
      ]
    ]

-- Every number is the ordinal of a pair.
pair_of_ordinal :
    (n : ℕ) → (lower : ℕ) × (higher : ℕ) × (lower < higher) × (triangle higher + lower ≡ n)
unfolding triangle
pair_of_ordinal zero = (0, 1, omega arith, refl)
pair_of_ordinal (suc n) =
    let (lower, higher, less, e) = pair_of_ordinal n in
    elim (dec_lt (lower + 1) higher) [
      | yes more ↦ (lower + 1, higher, more, omega arith)
      | no last ↦ (0, suc higher, omega arith, omega arith)
    ]

-- The bucket of two participants that are small enough is a safe number.
bucket_exact :
    (lower higher : ℕ)
    → lower ≤ higher
    → higher ≤ 910_000_000
    → as_number (pair_ordinal lower higher / 46) ≡ pair_ordinal lower higher / 46
unfolding pair_ordinal
bucket_exact lower higher below small =
    let product : higher * (higher - 1) ≤ 910_000_000 * 910_000_000 =
      mul-le-mul {n₁ = higher} {m₁ = higher - 1} {n₂ = 910_000_000} {m₂ = 910_000_000} small
        (omega arith) in
    as_number_safe ((higher * (higher - 1) / 2 + lower) / 46) (omega arith)

module _ (payer payee payer' payee' : ℕ) (distinct : payer ≢ payee) (distinct' : payer' ≢ payee')
    (small : max payer payee ≤ 910_000_000) (small' : max payer' payee' ≤ 910_000_000) where
  same_ordinal :
      channel_bucket_id payer payee ≡ channel_bucket_id payer' payee'
      → channel_bucket_slot_index payer payee ≡ channel_bucket_slot_index payer' payee'
      → pair_ordinal (min payer payee) (max payer payee)
        ≡ pair_ordinal (min payer' payee') (max payer' payee')
  unfolding channel_bucket_id channel_bucket_slot_index
  same_ordinal hb hs =
      let exact = bucket_exact (min payer payee) (max payer payee) (omega arith) small in
      let exact' = bucket_exact (min payer' payee') (max payer' payee') (omega arith) small' in
      omega arith

  same_pair :
      channel_bucket_id payer payee ≡ channel_bucket_id payer' payee'
      → channel_bucket_slot_index payer payee ≡ channel_bucket_slot_index payer' payee'
      → canonical_participants payer payee ≡ canonical_participants payer' payee'
  unfolding canonical_participants
  same_pair hb hs =
      let (lower, higher) =
        pair_ordinal-injective (min payer payee) (max payer payee) (min payer' payee')
          (max payer' payee') (omega arith) (omega arith) (same_ordinal hb hs) in
      cc

same_slot :
    (payer payee payer' payee' : ℕ)
    → canonical_participants payer payee ≡ canonical_participants payer' payee'
    → (channel_bucket_id payer payee ≡ channel_bucket_id payer' payee')
      × (channel_bucket_slot_index payer payee ≡ channel_bucket_slot_index payer' payee')
unfolding channel_bucket_id channel_bucket_slot_index
same_slot payer payee payer' payee' e = (
  ap
      (λ (p : CanonicalPair).
        as_number (pair_ordinal p.lower_participant_id p.higher_participant_id / 46))
      e,
  ap (λ (p : CanonicalPair). pair_ordinal p.lower_participant_id p.higher_participant_id % 46) e,
)

-- Two channels between distinct participants, whose ids are at most 910,000,000, share a bucket and a
-- slot exactly when they connect the same two participants, in either direction.
pub channel_slot_iff :
    (payer payee payer' payee' : ℕ)
    → payer ≢ payee
    → payer' ≢ payee'
    → max payer payee ≤ 910_000_000
    → max payer' payee' ≤ 910_000_000
    → ((channel_bucket_id payer payee ≡ channel_bucket_id payer' payee')
        × (channel_bucket_slot_index payer payee ≡ channel_bucket_slot_index payer' payee'))
      ↔ (canonical_participants payer payee ≡ canonical_participants payer' payee')
channel_slot_iff payer payee payer' payee' d d' small small' = (
  λ h. same_pair payer payee payer' payee' d d' small small' h.0 h.1,
  same_slot payer payee payer' payee',
)

-- The order of the two participants does not matter, and the slot lies inside its bucket.
pub channel_slot_symmetric :
    (payer payee : ℕ)
    → (channel_bucket_id payer payee ≡ channel_bucket_id payee payer)
      × (channel_bucket_slot_index payer payee ≡ channel_bucket_slot_index payee payer)
      × (channel_bucket_slot_index payer payee < 46)
unfolding channel_bucket_id channel_bucket_slot_index
channel_slot_symmetric payer payee =
    let low : min payer payee ≡ min payee payer = omega arith in
    let high : max payer payee ≡ max payee payer = omega arith in
    (
      ap₂ (λ (l h : ℕ). as_number (pair_ordinal l h / 46)) low high,
      ap₂ (λ (l h : ℕ). pair_ordinal l h % 46) low high,
      omega arith,
    )

-- No slot is wasted: each of the 46 slots of every bucket with a safe number, below 2 ^ 53, belongs to
-- a pair of participants.
pub channel_slot_filled :
    (bucket slot : ℕ)
    → bucket < 2 ^ 53
    → slot < 46
    → (lower : ℕ) × (higher : ℕ) × (lower < higher)
      × (channel_bucket_id lower higher ≡ bucket)
      × (channel_bucket_slot_index lower higher ≡ slot)
unfolding channel_bucket_id channel_bucket_slot_index
channel_slot_filled bucket slot safe h =
    let (lower, higher, less, e) = pair_of_ordinal (bucket * 46 + slot) in
    let low : min lower higher ≡ lower = omega arith in
    let high : max lower higher ≡ higher = omega arith in
    let at = pair_ordinal-triangle lower higher in
    let quotient : pair_ordinal lower higher / 46 ≡ bucket = omega arith in
    (
      lower,
      higher,
      less,
      rw (low, high, quotient) (as_number_safe bucket safe),
      rw (low, high) (omega arith),
    )
