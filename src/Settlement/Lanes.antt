-- ===== src/Settlement/Lanes.antt =====
-- Lanes that are found after one was written.
use mathlib.Core.Path.{subst}
use agon_protocol.Base.{
  ℕ, ◌≤◌, ◌<◌, true, false, List, [], ◌∷◌, ok, Bool-cases, inl, inr, ◌≡◌, refl, sym, ap, ◌∙◌, arith,
}
use agon_protocol.Settlement.{ChannelLane, is_lane, find_lane}
use agon_protocol.Settlement.Routes.{set_lane, settled_lane, cap_pending_unlock}

-- The lane from one participant to another, if it is there, has settled at least so much.
abbrev pub AtLeast : ℕ → ℕ → ℕ → List ChannelLane → Type 0
AtLeast payer payee amount lanes =
    (lane : ChannelLane) → find_lane payer payee lanes ≡ ok lane → amount ≤ lane.settled_cumulative

-- The lane from one participant to another is there, and has settled at least so much.
abbrev pub Reaches : ℕ → ℕ → ℕ → List ChannelLane → Type 0
Reaches payer payee amount lanes =
    (lane : ChannelLane) × (find_lane payer payee lanes ≡ ok lane)
    × (amount ≤ lane.settled_cumulative)

is_lane-find_lane :
    (payer payee : ℕ) (lanes : List ChannelLane) (lane : ChannelLane)
    → find_lane payer payee lanes ≡ ok lane
    → is_lane payer payee lane ≡ true
unfolding find_lane
is_lane-find_lane payer payee [] lane h = cc
is_lane-find_lane payer payee (l ∷ ls) lane h = elim (Bool-cases (is_lane payer payee l)) [
  | inl found ↦ elim (Bool-cases l.initialized) [
    | inl ready ↦
        let same : l ≡ lane = cc in
        subst (λ (k : ChannelLane). is_lane payer payee k ≡ true) same found
    | inr not_ready ↦ cc
  ]
  | inr other ↦ is_lane-find_lane payer payee ls lane cc
]

is_lane-settled_lane :
    (payer payee target consumed : ℕ) (lane : ChannelLane)
    → is_lane payer payee lane ≡ true
    → is_lane payer payee (settled_lane target consumed lane) ≡ true
unfolding settled_lane cap_pending_unlock is_lane
is_lane-settled_lane payer payee target consumed lane h = ground arith

is_lane_ids :
    (payer payee : ℕ) (lane : ChannelLane)
    → is_lane payer payee lane ≡ true
    → (lane.payer_id ≡ payer) × (lane.payee_id ≡ payee)
unfolding is_lane
is_lane_ids payer payee lane h = ground arith

is_lane_same :
    (payer payee : ℕ) (a b : ChannelLane)
    → a.payer_id ≡ b.payer_id
    → a.payee_id ≡ b.payee_id
    → is_lane payer payee a ≡ is_lane payer payee b
unfolding is_lane
is_lane_same payer payee a b h k = rw (h, k) refl

find_lane-initialized :
    (payer payee : ℕ) (lanes : List ChannelLane) (lane : ChannelLane)
    → find_lane payer payee lanes ≡ ok lane
    → lane.initialized ≡ true
unfolding find_lane
find_lane-initialized payer payee [] lane h = cc
find_lane-initialized payer payee (l ∷ ls) lane h = elim (Bool-cases (is_lane payer payee l)) [
  | inl found ↦ elim (Bool-cases l.initialized) [
    | inl ready ↦
        let same : l ≡ lane = cc in subst (λ (k : ChannelLane). k.initialized ≡ true) same ready
    | inr not_ready ↦ cc
  ]
  | inr other ↦ find_lane-initialized payer payee ls lane cc
]

-- A lane that is written is found, if there was one.
find_lane_written :
    (payer payee : ℕ) (new old : ChannelLane) (lanes : List ChannelLane)
    → is_lane payer payee new ≡ true
    → new.initialized ≡ true
    → find_lane payer payee lanes ≡ ok old
    → find_lane payer payee (set_lane payer payee new lanes) ≡ ok new
unfolding find_lane set_lane
find_lane_written payer payee new old [] is_new ready h = cc
find_lane_written payer payee new old (l ∷ ls) is_new ready h =
    elim (Bool-cases (is_lane payer payee l)) [
      | inl written ↦ cc
      | inr kept ↦ let rest = find_lane_written payer payee new old ls is_new ready cc in cc
    ]

-- Another lane is found as before.
find_lane_other :
    (payer payee payer' payee' : ℕ) (new : ChannelLane) (lanes : List ChannelLane)
    → is_lane payer' payee' new ≡ true
    → is_lane payer payee new ≡ false
    → find_lane payer payee (set_lane payer' payee' new lanes) ≡ find_lane payer payee lanes
unfolding find_lane set_lane
find_lane_other payer payee payer' payee' new [] is_new elsewhere = refl
find_lane_other payer payee payer' payee' new (l ∷ ls) is_new elsewhere =
    elim (Bool-cases (is_lane payer' payee' l)) [
      | inl written ↦
          let (a, b) = is_lane_ids payer' payee' new is_new in
          let (c, d) = is_lane_ids payer' payee' l written in
          let not_here = is_lane_same payer payee l new (c ∙ sym a) (d ∙ sym b) in cc
      | inr kept ↦
          let rest = find_lane_other payer payee payer' payee' new ls is_new elsewhere in cc
    ]

settled_cumulative-settled_lane :
    (target consumed : ℕ) (lane : ChannelLane)
    → (settled_lane target consumed lane).settled_cumulative ≡ target
unfolding settled_lane
settled_cumulative-settled_lane target consumed lane = refl

initialized-settled_lane :
    (target consumed : ℕ) (lane : ChannelLane)
    → (settled_lane target consumed lane).initialized ≡ lane.initialized
unfolding settled_lane cap_pending_unlock
initialized-settled_lane target consumed lane = ground arith

module _ (payer payee target consumed : ℕ) (old : ChannelLane) (lanes : List ChannelLane)
    (at_old : find_lane payer payee lanes ≡ ok old)
    (increases : old.settled_cumulative < target) where
  abbrev written : List ChannelLane
  written = set_lane payer payee (settled_lane target consumed old) lanes

  is_written : is_lane payer payee (settled_lane target consumed old) ≡ true
  is_written =
      is_lane-settled_lane payer payee target consumed old
        (is_lane-find_lane payer payee lanes old at_old)

  found_written : find_lane payer payee written ≡ ok (settled_lane target consumed old)
  found_written =
      find_lane_written payer payee (settled_lane target consumed old) old lanes is_written
        (initialized-settled_lane target consumed old
          ∙ find_lane-initialized payer payee lanes old at_old)
        at_old

  pub set_lane_raised : Reaches payer payee target written
  set_lane_raised = (
    settled_lane target consumed old,
    found_written,
    omega (arith, settled_cumulative-settled_lane target consumed old),
  )

  pub set_lane-Reaches : (p q amount : ℕ) → Reaches p q amount lanes → Reaches p q amount written
  set_lane-Reaches p q amount (lane, found, reached) =
      elim (Bool-cases (is_lane p q (settled_lane target consumed old))) [
        | inl here ↦
            let (a, b) = is_lane_ids p q (settled_lane target consumed old) here in
            let (c, d) = is_lane_ids payer payee (settled_lane target consumed old) is_written in
            let same : lane ≡ old = cc in
            let now = found_written in
            (
              settled_lane target consumed old,
              cc,
              omega (
                arith,
                ap (λ (l : ChannelLane). l.settled_cumulative) same,
                settled_cumulative-settled_lane target consumed old,
              ),
            )
        | inr elsewhere ↦ (
          lane,
          find_lane_other p q payer payee (settled_lane target consumed old) lanes is_written
                elsewhere
              ∙ found,
          reached,
        )
      ]
