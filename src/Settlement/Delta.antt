-- ===== src/Settlement/Delta.antt =====
-- Positions as what is earned and what is owed, and their sums.
use agon_protocol.Base.{
  ℕ, zero, suc, ◌+◌, ◌-◌, ◌^◌, ltb, leb, List, [], ◌∷◌, ok, Bool-cases, inl, inr, ◌≡◌, ap, arith,
}
use agon_protocol.Base.Int.{ℤ, pos, negsuc}
use agon_protocol.Base.Reordered.{sum_of}
use agon_protocol.Settlement.{
  ChannelLane, ParticipantRoundState, checked_add_u64, add_u64, subtract_u64, in_i128, checked_i128,
  is_lane, find_lane,
}
use agon_protocol.Settlement.Routes.{
  set_position, state_at, set_lane, cap_pending_unlock, settled_lane,
}

abbrev pub earned : ℤ → ℕ
earned (pos n) = n
earned (negsuc n) = 0

abbrev pub owed : ℤ → ℕ
owed (pos n) = 0
owed (negsuc n) = n + 1

pub earned-add_u64 :
    (z : ℤ) (amount : ℕ)
    → earned (add_u64 z amount) + owed z ≡ earned z + owed (add_u64 z amount) + amount
unfolding add_u64
earned-add_u64 (pos n) amount = omega arith
earned-add_u64 (negsuc n) amount = elim (Bool-cases (leb (n + 1) amount)) [
  | inl covers ↦ rw covers (ground arith)
  | inr short ↦ rw short (ground arith)
]

pub earned-subtract_u64 :
    (z : ℤ) (amount : ℕ)
    → earned (subtract_u64 z amount) + owed z + amount ≡ earned z + owed (subtract_u64 z amount)
unfolding subtract_u64
earned-subtract_u64 (pos n) amount = elim (Bool-cases (leb amount n)) [
  | inl covers ↦ rw covers (ground arith)
  | inr short ↦ rw short (ground arith)
]
earned-subtract_u64 (negsuc n) amount = omega arith

pub checked_i128-ok : (z z' : ℤ) → checked_i128 z ≡ ok z' → z ≡ z'
unfolding checked_i128
checked_i128-ok z z' h = elim (Bool-cases (in_i128 z)) [ inl fits ↦ cc | inr too_large ↦ cc ]

pub checked_add_u64-ok : (a b c : ℕ) → checked_add_u64 a b ≡ ok c → a + b ≡ c
unfolding checked_add_u64
checked_add_u64-ok a b c h = elim (Bool-cases (ltb (a + b) (2 ^ 64))) [
  | inl fits ↦ cc
  | inr too_large ↦ cc
]

-- What a position is read as, over all participants.
abbrev pub total_of : (ℤ → ℕ) → List ParticipantRoundState → ℕ
total_of f states = sum_of (λ s. f s.net_position) states

pub total_of-set_position :
    (f : ℤ → ℕ) (states : List ParticipantRoundState) (i : ℕ) (z : ℤ) (s : ParticipantRoundState)
    → state_at states i ≡ ok s
    → total_of f (set_position i z states) + f s.net_position ≡ total_of f states + f z
unfolding set_position
total_of-set_position f [] i z s h = cc
total_of-set_position f (x ∷ xs) zero z s h =
    let same : x ≡ s = cc in
    omega (arith, ap (λ (y : ParticipantRoundState). f y.net_position) same)
total_of-set_position f (x ∷ xs) (suc i) z s h = omega (arith, total_of-set_position f xs i z s h)

abbrev pub locked_in : List ChannelLane → ℕ
locked_in lanes = sum_of (λ l. l.locked_balance) lanes

pub locked_balance-settled_lane :
    (target consumed : ℕ) (lane : ChannelLane)
    → (settled_lane target consumed lane).locked_balance ≡ lane.locked_balance - consumed
unfolding settled_lane cap_pending_unlock
locked_balance-settled_lane target consumed lane = ground arith

pub locked_in-set_lane :
    (payer payee : ℕ) (new lane : ChannelLane) (lanes : List ChannelLane)
    → find_lane payer payee lanes ≡ ok lane
    → locked_in (set_lane payer payee new lanes) + lane.locked_balance
      ≡ locked_in lanes + new.locked_balance
unfolding find_lane set_lane
locked_in-set_lane payer payee new lane [] h = cc
locked_in-set_lane payer payee new lane (l ∷ ls) h = elim (Bool-cases (is_lane payer payee l)) [
  | inl found ↦ elim (Bool-cases l.initialized) [
    | inl ready ↦
        let same : l ≡ lane = cc in
        rw found (omega (arith, ap (λ (k : ChannelLane). k.locked_balance) same))
    | inr not_ready ↦ cc
  ]
  | inr other ↦ rw other (omega (arith, locked_in-set_lane payer payee new lane ls cc))
]
