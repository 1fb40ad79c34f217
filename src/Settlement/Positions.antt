-- ===== src/Settlement/Positions.antt =====
-- The last step of a settlement: the net positions of the participants are applied to their slots.
use agon_protocol.Base.{
  ℕ, zero, suc, ◌+◌, ◌-◌, ◌^◌, Bool, true, false, ltb, leb, ◌==◌, if◌then◌else◌, none, some, List,
  [], ◌∷◌, Outcome, ok, throw, ◌>>=◌, ◌>>◌, require, participant_not_found, math_overflow,
  insufficient_balance, too_many_token_balances,
}
use agon_protocol.Base.Int.{ℤ, pos, negsuc}
use agon_protocol.Settlement.{TokenEntry, Slot, ParticipantRoundState, checked_add_u64}

-- The check of the positions, which gives `total_net_adjusted`.
unfoldable pub check_position : ℕ → ParticipantRoundState → Outcome ℕ
check_position total state = elim state.net_position [
  | negsuc n ↦ do
    require (ltb (n + 1) (2 ^ 64)) math_overflow
    require (leb (n + 1) state.token_total_balance) insufficient_balance
    ok total
  | pos n ↦ do require (ltb n (2 ^ 64)) math_overflow; checked_add_u64 total n
]

unfoldable pub check_positions : ℕ → List ParticipantRoundState → Outcome ℕ
check_positions total [] = ok total
check_positions total (s ∷ ss) = check_position total s >>= λ total'. check_positions total' ss

-- `find_or_create_token_entry_offset`.
unfoldable pub entry_or_new : Slot → Outcome TokenEntry
entry_or_new slot = elim slot.token [
  | some entry ↦ ok entry
  | none ↦
      if slot.has_room
      then ok (record { available = 0; withdrawing = 0 })
      else throw too_many_token_balances
]

-- A debit takes what is available first, then what is being withdrawn.
unfoldable pub debit : ℕ → TokenEntry → Outcome TokenEntry
debit amount entry = do
  total ← checked_add_u64 entry.available entry.withdrawing
  require (leb amount total) insufficient_balance
  if leb amount entry.available
      then ok (record entry { available = entry.available - amount })
      else ok
          (record { available = 0; withdrawing = entry.withdrawing - (amount - entry.available) })

-- `apply_token_delta_in_data`.
unfoldable pub apply_token_delta : ℤ → Slot → Outcome Slot
apply_token_delta (pos zero) slot = ok slot
apply_token_delta (pos (suc n)) slot = do
  require (ltb (suc n) (2 ^ 64)) math_overflow
  entry ← entry_or_new slot
  available ← checked_add_u64 entry.available (suc n)
  ok (record slot { token = some (record entry { available = available }) })
apply_token_delta (negsuc n) slot = do
  require (ltb (n + 1) (2 ^ 64)) math_overflow
  elim slot.token [
    | none ↦ throw insufficient_balance
    | some entry ↦ do debited ← debit (n + 1) entry; ok (record slot { token = some debited })
  ]

unfoldable pub apply_to_slot : ℕ → ℤ → List Slot → Outcome (List Slot)
apply_to_slot id delta [] = throw participant_not_found
apply_to_slot id delta (s ∷ ss) = elim (s.participant_id == id) [
  | true ↦ do s' ← apply_token_delta delta s; ok (s' ∷ ss)
  | false ↦ do ss' ← apply_to_slot id delta ss; ok (s ∷ ss')
]

unfoldable pub is_zero : ℤ → Bool
is_zero (pos zero) = true
is_zero (pos (suc n)) = false
is_zero (negsuc n) = false

-- A position of 0 is passed over.
unfoldable pub apply_position : List Slot → ParticipantRoundState → Outcome (List Slot)
apply_position slots s = elim (is_zero s.net_position) [
  | true ↦ ok slots
  | false ↦ apply_to_slot s.participant_id s.net_position slots
]

unfoldable pub apply_positions : List Slot → List ParticipantRoundState → Outcome (List Slot)
apply_positions slots [] = ok slots
apply_positions slots (s ∷ ss) = apply_position slots s >>= λ slots'. apply_positions slots' ss
