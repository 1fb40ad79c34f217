-- ===== src/Settlement/Held.antt =====
-- What the slots hold changes by the positions that are applied.
use agon_protocol.Base.{
  ℕ, zero, suc, ◌+◌, ◌-◌, ◌^◌, true, ltb, leb, ◌==◌, none, some, List, [], ◌∷◌, ok, throw, ◌>>=◌,
  Option, bind-ok, require-ok, ok-injective, insufficient_balance, math_overflow, Option-cases,
  Bool-cases, inl, inr, ◌≡◌, refl, sym, ap, ◌∙◌, arith,
}
use agon_protocol.Base.Int.{ℤ, pos, negsuc}
use agon_protocol.Base.Reordered.{sum_of}
use agon_protocol.Settlement.{TokenEntry, Slot, ParticipantRoundState, checked_add_u64}
use agon_protocol.Settlement.Positions.{
  entry_or_new, debit, apply_token_delta, apply_to_slot, is_zero, apply_position, apply_positions,
}
use agon_protocol.Settlement.Delta.{earned, owed, checked_add_u64-ok, total_of}

-- What a slot holds.
abbrev token_held : Option TokenEntry → ℕ
token_held none = 0
token_held (some entry) = entry.available + entry.withdrawing

abbrev pub held : Slot → ℕ
held slot = token_held slot.token

held-debit :
    (amount : ℕ) (entry entry' : TokenEntry)
    → debit amount entry ≡ ok entry'
    → entry'.available + entry'.withdrawing + amount ≡ entry.available + entry.withdrawing
unfolding debit
held-debit amount entry entry' h =
    let (total, counted, h₁) =
      bind-ok (checked_add_u64 entry.available entry.withdrawing) _ entry' h in
    let (covered, h₂) = require-ok (leb amount total) insufficient_balance _ entry' h₁ in
    let is_total = checked_add_u64-ok entry.available entry.withdrawing total counted in
    elim (Bool-cases (leb amount entry.available)) [
      | inl enough ↦
          let same : record entry { available = entry.available - amount } ≡ entry' = cc in
          rw (sym same) (ground arith)
      | inr short ↦
          let same : record {
            available = 0;
            withdrawing = entry.withdrawing - (amount - entry.available);
          }
              ≡ entry' =
            cc in
          rw (sym same) (ground arith)
    ]

held-entry_or_new :
    (slot : Slot) (entry : TokenEntry)
    → entry_or_new slot ≡ ok entry
    → held slot ≡ entry.available + entry.withdrawing
unfolding entry_or_new
held-entry_or_new slot entry h = elim (Option-cases slot.token) [
  | inr (entry', eq) ↦ let same : some entry' ≡ some entry = cc in ap token_held (eq ∙ same)
  | inl eq ↦ elim (Bool-cases slot.has_room) [
    | inl room ↦
        let new : TokenEntry = record { available = 0; withdrawing = 0 } in
        let same : new ≡ entry = cc in
        ap token_held eq ∙ ap (λ (e : TokenEntry). e.available + e.withdrawing) same
    | inr full ↦ cc
  ]
]

debited_from :
    (n : ℕ) (slot slot' : Slot) (entry : TokenEntry)
    → slot.token ≡ some entry
    → (elim slot.token [
      | none ↦ throw insufficient_balance
      | some entry' ↦ debit (n + 1) entry' >>= λ debited. ok (record slot { token = some debited })
    ])
      ≡ ok slot'
    → (debited : TokenEntry) × (debit (n + 1) entry ≡ ok debited)
      × (record slot { token = some debited } ≡ slot')
debited_from n slot slot' entry eq h =
    let (debited, taken, h₁) =
      bind-ok (debit (n + 1) entry) (λ d. ok (record slot { token = some d })) slot' cc in
    (debited, taken, ok-injective h₁)

-- A change of a slot changes what it holds by the position.
held-apply_token_delta :
    (z : ℤ) (slot slot' : Slot)
    → apply_token_delta z slot ≡ ok slot'
    → held slot' + owed z ≡ held slot + earned z
unfolding apply_token_delta
held-apply_token_delta (pos zero) slot slot' h = omega (arith, ap held (ok-injective h))
held-apply_token_delta (pos (suc n)) slot slot' h =
    let (_, h₁) = require-ok (ltb (suc n) (2 ^ 64)) math_overflow _ slot' h in
    let (entry, found, h₂) = bind-ok (entry_or_new slot) _ slot' h₁ in
    let (available, added, h₃) = bind-ok (checked_add_u64 entry.available (suc n)) _ slot' h₂ in
    omega (
      arith,
      held-entry_or_new slot entry found,
      checked_add_u64-ok entry.available (suc n) available added,
      ap held (ok-injective h₃),
    )
held-apply_token_delta (negsuc n) slot slot' h =
    let (_, h₁) = require-ok (ltb (n + 1) (2 ^ 64)) math_overflow _ slot' h in
    elim (Option-cases slot.token) [
      | inl eq ↦ cc
      | inr (entry, eq) ↦
          let (debited, taken, h₂) = debited_from n slot slot' entry eq h₁ in
          omega (arith, held-debit (n + 1) entry debited taken, ap token_held eq, ap held h₂)
    ]

-- The slots' holdings change by the positions.
abbrev pub held_in : List Slot → ℕ
held_in slots = sum_of held slots

held_in-apply_to_slot :
    (id : ℕ) (z : ℤ) (slots slots' : List Slot)
    → apply_to_slot id z slots ≡ ok slots'
    → held_in slots' + owed z ≡ held_in slots + earned z
unfolding apply_to_slot
held_in-apply_to_slot id z [] slots' h = cc
held_in-apply_to_slot id z (s ∷ ss) slots' h = elim (Bool-cases (s.participant_id == id)) [
  | inl here ↦
      let (s', changed, h₁) = bind-ok (apply_token_delta z s) (λ t. ok (t ∷ ss)) slots' cc in
      omega (arith, held-apply_token_delta z s s' changed, ap held_in (ok-injective h₁))
  | inr other ↦
      let (ss', changed, h₁) = bind-ok (apply_to_slot id z ss) (λ ts. ok (s ∷ ts)) slots' cc in
      omega (arith, held_in-apply_to_slot id z ss ss' changed, ap held_in (ok-injective h₁))
]

zero_position : (z : ℤ) → is_zero z ≡ true → z ≡ pos 0
unfolding is_zero
zero_position (pos zero) h = refl
zero_position (pos (suc n)) h = cc
zero_position (negsuc n) h = cc

held_in-apply_position :
    (slots slots' : List Slot) (s : ParticipantRoundState)
    → apply_position slots s ≡ ok slots'
    → held_in slots' + owed s.net_position ≡ held_in slots + earned s.net_position
unfolding apply_position
held_in-apply_position slots slots' s h = elim (Bool-cases (is_zero s.net_position)) [
  | inl nothing ↦
      let none_left = zero_position s.net_position nothing in
      let same : slots ≡ slots' = cc in
      omega (arith, ap held_in same, ap owed none_left, ap earned none_left)
  | inr some_left ↦ held_in-apply_to_slot s.participant_id s.net_position slots slots' cc
]

pub held_in-apply_positions :
    (states : List ParticipantRoundState) (slots slots' : List Slot)
    → apply_positions slots states ≡ ok slots'
    → held_in slots' + total_of owed states ≡ held_in slots + total_of earned states
unfolding apply_positions
held_in-apply_positions [] slots slots' h = omega (arith, ap held_in (ok-injective h))
held_in-apply_positions (s ∷ ss) slots slots' h =
    let (between, first, rest) =
      bind-ok (apply_position slots s) (λ t. apply_positions t ss) slots' h in
    omega (
      arith,
      held_in-apply_position slots between s first,
      held_in-apply_positions ss between slots' rest,
    )
