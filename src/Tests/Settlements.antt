-- ===== src/Tests/Settlements.antt =====
-- A round of two participants that the program settles.
use agon_protocol.Base.{
  Bool-cases, inl, inr, ap, arith, false, ◌==◌, ◌&&◌, ℕ, ◌+◌, true, some, List, [], ◌∷◌, ok, throw,
  Fault, ◌≡◌, refl,
}
use agon_protocol.Base.Bytes.{eq_bytes, from_le}
use agon_protocol.Compact.{read_varint_u64, read_varint_u32, read_loop, read_round}
use agon_protocol.Message.Program.{
  read_clearing_round, parse_clearing_round_layout, parse_clearing_round_header, parse_blocks,
  parse_entries, parse_channel_entry, read_byte, reread_blocks,
}
use agon_protocol.Keys.{is_seen}
use agon_protocol.Pair.{participant_bucket_id, pair_ordinal}
use agon_protocol.Settlement.{
  Store, Slot, ChannelLane, Account, participant_bucket, channel_bucket, checked_add_u64, in_i128,
  add_u64, subtract_u64, checked_i128, find_slot, token_total, is_lane, find_lane,
}
use agon_protocol.Settlement.Handler.{Settled, settle_clearing_round}
use agon_protocol.Settlement.Positions.{
  check_position, check_positions, entry_or_new, debit, apply_token_delta, apply_to_slot, is_zero,
  apply_position, apply_positions,
}
use agon_protocol.Settlement.Routes.{
  bucket_id_for_pair, set_position, cap_pending_unlock, settled_lane, set_lane, move_amount,
  route_entry, settle_entry, settle_entries, settle_blocks,
}
use agon_protocol.Settlement.Registration.{
  Bls, is_account, bind_account, add_key, register_block, register_blocks,
}
use agon_protocol.Settlement.Delta.{locked_in}
use agon_protocol.Settlement.Held.{held_in}
use agon_protocol.Settlement.Conserved.{settle_clearing_round-conserved}
use agon_protocol.Settlement.Once.{NotLowered, settle_clearing_round_once}

abbrev bls : Bls (Unit {0})
bls = record { aggregate = λ key added. ok tt; verify = λ message signature key. ok tt }

abbrev domain : List ℕ
domain = 0 ∷ 1 ∷ 2 ∷ 3 ∷ 4 ∷ 5 ∷ 6 ∷ 7 ∷ 8 ∷ 9 ∷ 10 ∷ 11 ∷ 12 ∷ 13 ∷ 14 ∷ 15 ∷ []

-- Participant 4 pays participant 5 up to a total of 30.
abbrev message : List ℕ
message =
    2 ∷ 5 ∷ 0 ∷ 1 ∷ 2 ∷ 3 ∷ 4 ∷ 5 ∷ 6 ∷ 7 ∷ 8 ∷ 9 ∷ 10 ∷ 11 ∷ 12 ∷ 13 ∷ 14 ∷ 15 ∷ 1 ∷ 0 ∷ 2 ∷ 4 ∷ 1
    ∷ 1 ∷ 30 ∷ 5 ∷ 0 ∷ []

abbrev slot : ℕ → ℕ → ℕ → Slot
slot id available withdrawing = record {
  participant_id = id;
  has_owner = true;
  bls_scheme_version = 1;
  bls_pubkey = [];
  token = some (record { available = available; withdrawing = withdrawing });
  has_room = true;
}

abbrev lane : ℕ → ℕ → ChannelLane
lane settled locked = record {
  payer_id = 4;
  payee_id = 5;
  initialized = true;
  settled_cumulative = settled;
  locked_balance = locked;
  pending_unlock_amount = 0;
  unlock_requested_at = 0;
}

abbrev before : Store
before = record { slots = slot 4 6 7 ∷ slot 5 0 0 ∷ []; lanes = lane 10 8 ∷ [] }

-- The lane covers 8 of the 20, and the payer's balances the rest.
abbrev settled : Settled
settled = record {
  store = record { slots = slot 4 0 1 ∷ slot 5 20 0 ∷ []; lanes = lane 30 0 ∷ [] };
  total_gross = 20;
  total_net_adjusted = 20;
}

abbrev accounts : List Account
accounts = participant_bucket 0 ∷ channel_bucket 0 ∷ []

settles : settle_clearing_round bls domain before accounts message [] ≡ ok settled
unfolding settle_clearing_round read_clearing_round parse_clearing_round_layout
    parse_clearing_round_header parse_blocks parse_entries parse_channel_entry read_byte
    reread_blocks eq_bytes from_le read_varint_u64 read_varint_u32 read_loop read_round is_seen
    participant_bucket_id bucket_id_for_pair pair_ordinal checked_add_u64 in_i128 add_u64
    subtract_u64 checked_i128 find_slot token_total is_lane find_lane is_account bind_account
    add_key register_block register_blocks set_position cap_pending_unlock settled_lane set_lane
    move_amount route_entry settle_entry settle_entries settle_blocks check_position check_positions
    entry_or_new debit apply_token_delta apply_to_slot is_zero apply_position apply_positions
settles = refl

settle_clearing_round-conserved_example :
    held_in settled.store.slots + locked_in settled.store.lanes
    ≡ held_in before.slots + locked_in before.lanes
settle_clearing_round-conserved_example =
    settle_clearing_round-conserved bls domain before accounts message [] settled settles

-- After the round the channel has settled 5 more, and participant 6 has opened one.
abbrev opened : ChannelLane
opened = record (lane 0 50) { payer_id = 6 }

abbrev later : Store
later = record settled.store { lanes = opened ∷ lane 35 3 ∷ [] }

later-NotLowered : NotLowered settled.store.lanes later.lanes
unfolding find_lane is_lane
later-NotLowered p q l l' found found' = elim (Bool-cases ((4 == p) && (5 == q))) [
  | inl here ↦
      let not_opened : ((6 == p) && (5 == q)) ≡ false = ground arith in
      let now : lane 30 0 ≡ l = cc in
      let after : lane 35 3 ≡ l' = cc in
      omega (
        arith,
        ap (λ (k : ChannelLane). k.settled_cumulative) now,
        ap (λ (k : ChannelLane). k.settled_cumulative) after,
      )
  | inr elsewhere ↦ cc
]

settle_clearing_round_once_example :
    (fault : Fault) × (settle_clearing_round bls domain later accounts message [] ≡ throw fault)
settle_clearing_round_once_example =
    settle_clearing_round_once bls domain before later accounts accounts message [] [] settled
      settles later-NotLowered
