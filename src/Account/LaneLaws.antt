-- ===== src/Account/LaneLaws.antt =====
-- The readers of a channel bucket agree, and read nothing out of bounds.
use agon_protocol.Base.{
  ℕ, ◌+◌, ◌≤◌, List, Option, none, length, ltb, if◌then◌else◌, Outcome, ok, throw, ◌>>=◌, ◌>>◌,
  require, ◌≡◌, ◌≢◌, inl, inr, arith, Bool-cases, slot_not_initialized, pair_mismatch,
  out_of_bounds,
}
use agon_protocol.Base.Bytes.{slice, from_le}
use agon_protocol.Account.Buffer.{is_set, read_pubkey, signed64, read_le_inside, read_i64_inside}
use agon_protocol.Pair.{canonical_participants, channel_bucket_id}
use agon_protocol.Pair.Ordinal.{channel_slot_symmetric}
use agon_protocol.Channel.{PairChannel, joins, get_directional_lane_state}
use agon_protocol.Account.Lane.{
  Lane, Balances, slot_offset, verify_raw_channel_bucket_header, read_raw_directional_lane_state,
  read_raw_channel_bucket_state, read_raw_channel_bucket_lane_state,
}

-- A header that is accepted stands before all the slots.
header_long :
    (buffer : List ℕ) (bucket : ℕ) (expected : Option ℕ) (token : ℕ)
    → verify_raw_channel_bucket_header buffer bucket expected ≡ ok token
    → 10093 ≤ length buffer
unfolding verify_raw_channel_bucket_header
header_long buffer bucket expected token h = ground arith

pub slot_inside : (payer payee : ℕ) → slot_offset payer payee + 219 ≤ 10093
unfolding slot_offset
slot_inside payer payee = omega (arith, (channel_slot_symmetric payer payee).2)

unfoldable pub field : ℕ → List ℕ → ℕ → ℕ
field size buffer offset = from_le (slice offset (offset + size) buffer)

-- The lane that `readRawDirectionalLaneState` gives inside the buffer.
unfoldable pub lane_at : List ℕ → ℕ → Lane
lane_at buffer offset = record {
  initialized = is_set buffer offset;
  settled_cumulative = field 8 buffer (offset + 1);
  locked_balance = field 8 buffer (offset + 9);
  authorized_signer = read_pubkey buffer (offset + 17);
  pending_unlock_amount = field 8 buffer (offset + 49);
  unlock_requested_at = signed64 (field 8 buffer (offset + 57));
  pending_authorized_signer = read_pubkey buffer (offset + 65);
  authorized_signer_update_requested_at = signed64 (field 8 buffer (offset + 97));
}

pub read_lane_inside :
    (buffer : List ℕ) (offset : ℕ)
    → offset + 105 ≤ length buffer
    → read_raw_directional_lane_state buffer offset ≡ ok (lane_at buffer offset)
unfolding read_raw_directional_lane_state lane_at field
read_lane_inside buffer offset h = rw (
  read_le_inside 8 buffer (offset + 1) (omega arith),
  read_le_inside 8 buffer (offset + 9) (omega arith),
  read_le_inside 8 buffer (offset + 49) (omega arith),
  read_i64_inside buffer (offset + 57) (omega arith),
  read_i64_inside buffer (offset + 97) (omega arith),
)

abbrev pub balances_of : Lane → Balances
balances_of lane = record {
  settled_cumulative = lane.settled_cumulative;
  locked_balance = lane.locked_balance;
}

module _ (buffer : List ℕ) (payer payee : ℕ) where
  unfoldable pub pair_lower : ℕ
  pair_lower = field 4 buffer (slot_offset payer payee + 1)

  unfoldable pub pair_higher : ℕ
  pair_higher = field 4 buffer (slot_offset payer payee + 5)

  -- The two checks of a slot, and what the reader gives behind them.
  unfoldable pub checked_pair : {A : Type 0} → A → Outcome A
  checked_pair x = do
    require (is_set buffer (slot_offset payer payee)) slot_not_initialized
    require (joins pair_lower pair_higher (canonical_participants payer payee)) pair_mismatch
    ok x

  pub checked_pair_bind :
      {A B : Type 0} {y : B} (x : A) (k : A → Outcome B)
      → k x ≡ ok y
      → (checked_pair x >>= k) ≡ checked_pair y
  unfolding checked_pair
  checked_pair_bind x k h = elim (Bool-cases (is_set buffer (slot_offset payer payee))) [
    | inr clear ↦ rw clear
    | inl set ↦
        rw set
          (elim (Bool-cases (joins pair_lower pair_higher (canonical_participants payer payee))) [
            | inr other ↦ rw other
            | inl same ↦ rw same h
          ])
  ]

  pub checked_pair_fault : {A : Type 0} (x : A) → checked_pair x ≢ throw out_of_bounds
  unfolding checked_pair
  checked_pair_fault x = elim (Bool-cases (is_set buffer (slot_offset payer payee))) [
    | inr clear ↦ rw clear (λ e. cc)
    | inl set ↦
        rw set
          (elim (Bool-cases (joins pair_lower pair_higher (canonical_participants payer payee))) [
            | inr other ↦ rw other (λ e. cc)
            | inl same ↦ rw same (λ e. cc)
          ])
  ]

  -- The channel of a slot that is accepted, under an accepted header.
  unfoldable pub channel_at : ℕ → PairChannel Lane
  channel_at token = record {
    token_id = token;
    lower_participant_id = (canonical_participants payer payee).lower_participant_id;
    higher_participant_id = (canonical_participants payer payee).higher_participant_id;
    lower_to_higher = lane_at buffer (slot_offset payer payee + 9);
    higher_to_lower = lane_at buffer (slot_offset payer payee + 114);
  }

  module _ (token : ℕ)
      (header : verify_raw_channel_bucket_header buffer (channel_bucket_id payer payee) none
        ≡ ok token) where
    pub room : slot_offset payer payee + 219 ≤ length buffer
    room = omega (arith, slot_inside payer payee, header_long buffer _ none token header)

    pub state_under_header :
        read_raw_channel_bucket_state buffer payer payee ≡ checked_pair (channel_at token)
    unfolding read_raw_channel_bucket_state checked_pair channel_at pair_lower pair_higher field
    state_under_header = rw (
      header,
      read_le_inside 4 buffer (slot_offset payer payee + 1) (omega (arith, room)),
      read_le_inside 4 buffer (slot_offset payer payee + 5) (omega (arith, room)),
      read_lane_inside buffer (slot_offset payer payee + 9) (omega (arith, room)),
      read_lane_inside buffer (slot_offset payer payee + 114) (omega (arith, room)),
    )

    pub balances_under_header :
        read_raw_channel_bucket_lane_state buffer payer payee
        ≡ checked_pair (
            balances_of
              (lane_at buffer (slot_offset payer payee + (if ltb payer payee then 9 else 114))))
    unfolding read_raw_channel_bucket_lane_state checked_pair pair_lower pair_higher field lane_at
    balances_under_header =
        let offset = slot_offset payer payee + (if ltb payer payee then 9 else 114) in
        let inside : offset + 105 ≤ length buffer = ground (arith, room) in
        rw (
          header,
          read_le_inside 4 buffer (slot_offset payer payee + 1) (omega (arith, room)),
          read_le_inside 4 buffer (slot_offset payer payee + 5) (omega (arith, room)),
          read_le_inside 8 buffer (offset + 1) (omega arith),
          read_le_inside 8 buffer (offset + 9) (omega arith),
        )

    pub lane_of_channel :
        payer ≢ payee
        → get_directional_lane_state (channel_at token) payer payee
          ≡ ok (lane_at buffer (slot_offset payer payee + (if ltb payer payee then 9 else 114)))
    unfolding get_directional_lane_state channel_at
    lane_of_channel distinct = ground arith
