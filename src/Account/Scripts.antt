-- ===== src/Account/Scripts.antt =====
-- The balance readers of the setup and drain scripts against the decoder of the demo.
use agon_protocol.Base.{
  ℕ, ◌+◌, ◌≤◌, List, Bool, true, false, ◌&&◌, Option, none, some, length, ltb, ◌==◌, if◌then◌else◌,
  Outcome, ok, throw, ◌>>=◌, ◌>>◌, require, ◌≡◌, ◌≢◌, refl, ap, ◌∙◌, arith, Fault,
  slot_not_initialized, pair_mismatch,
}
use agon_protocol.Base.Bytes.{slice, eq_bytes}
use agon_protocol.Channel.{joins, get_directional_lane_state}
use agon_protocol.Pair.{canonical_participants, channel_bucket_id}
use agon_protocol.Account.Buffer.{read_le_inside, is_set-flag, IsFlag}
use agon_protocol.Account.Lane.{
  Lane, LockedView, no_lane, lane_start, slot_offset, reads_one, reads_u32, or_zero,
  read_locked_slot, channel_bucket_discriminator, read_directional_locked_balance,
  read_locked_balance, read_raw_channel_bucket_state, verify_raw_channel_bucket_header,
}
use agon_protocol.Account.LaneLaws.{
  field, lane_at, pair_lower, pair_higher, channel_at, checked_pair, checked_pair_bind,
  state_under_header, lane_of_channel, room,
}

-- What the setup script would report of the lane that the demo finds.
abbrev pub view : Outcome Lane → LockedView
view (ok lane) =
    if lane.initialized
    then record {
      initialized = true;
      locked_balance = lane.locked_balance;
      settled_cumulative = lane.settled_cumulative;
    }
    else no_lane
view (throw e) = no_lane

header_discriminator :
    (buffer : List ℕ) (bucket : ℕ) (expected : Option ℕ) (token : ℕ)
    → verify_raw_channel_bucket_header buffer bucket expected ≡ ok token
    → eq_bytes (slice 0 8 buffer) channel_bucket_discriminator ≡ true
unfolding verify_raw_channel_bucket_header
header_discriminator buffer bucket expected token h = ground arith

one_inside :
    (buffer : List ℕ) (offset : ℕ)
    → offset + 1 ≤ length buffer
    → reads_one buffer offset ≡ ok (field 1 buffer offset == 1)
unfolding reads_one field
one_inside buffer offset h = rw (read_le_inside 1 buffer offset h)

u32_inside :
    (buffer : List ℕ) (offset expected : ℕ)
    → offset + 4 ≤ length buffer
    → reads_u32 buffer offset expected ≡ ok (field 4 buffer offset == expected)
unfolding reads_u32 field
u32_inside buffer offset expected h = rw (read_le_inside 4 buffer offset h)

-- `payerId === lower` and `payerId < payeeId` choose the same lane.
lane_start-ltb :
    (payer payee : ℕ)
    → payer ≢ payee
    → lane_start payer (canonical_participants payer payee).lower_participant_id
      ≡ (if ltb payer payee then 9 else 114)
unfolding canonical_participants
lane_start-ltb payer payee distinct = ground arith

agree_on_bits :
    (slot pair set : Bool) (lane : Lane) (e f : Fault)
    → lane.initialized ≡ set
    → (if slot && pair
        then (if set
            then ok (record {
              initialized = true;
              locked_balance = lane.locked_balance;
              settled_cumulative = lane.settled_cumulative;
            })
            else ok no_lane)
        else ok no_lane)
      ≡ ok (view (require slot e >> (require pair f >> ok lane)))
agree_on_bits true true true lane e f h = rw h
agree_on_bits true true false lane e f h = rw h
agree_on_bits true false set lane e f h = refl
agree_on_bits false pair set lane e f h = refl

agree_on_zero :
    (slot lower higher set : Bool) (lane : Lane) (e f : Fault)
    → lane.initialized ≡ set
    → or_zero
        (ok slot)
        (or_zero (ok lower) (or_zero (ok higher) (or_zero (ok set) (ok lane.locked_balance))))
      ≡ ok (view (require slot e >> (require (lower && higher) f >> ok lane))).locked_balance
agree_on_zero true true true true lane e f h = rw h
agree_on_zero true true true false lane e f h = rw h
agree_on_zero true true false set lane e f h = refl
agree_on_zero true false higher set lane e f h = refl
agree_on_zero false lower higher set lane e f h = refl

module _ (buffer : List ℕ) (payer payee token : ℕ) (distinct : payer ≢ payee)
    (header : verify_raw_channel_bucket_header buffer (channel_bucket_id payer payee) none
      ≡ ok token) where
  lane_offset : ℕ
  lane_offset = slot_offset payer payee + (if ltb payer payee then 9 else 114)

  lane_inside : lane_offset + 105 ≤ length buffer
  unfolding lane_offset
  lane_inside = ground (arith, room buffer payer payee token header)

  found : Outcome Lane
  found = do
    channel ← read_raw_channel_bucket_state buffer payer payee
    get_directional_lane_state channel payer payee

  found-checked : found ≡ checked_pair buffer payer payee (lane_at buffer lane_offset)
  unfolding found lane_offset
  found-checked =
      ap (λ r. r >>= λ channel. get_directional_lane_state channel payer payee)
        (state_under_header buffer payer payee token header)
      ∙ checked_pair_bind buffer payer payee (channel_at buffer payer payee token)
          (λ channel. get_directional_lane_state channel payer payee)
          (lane_of_channel buffer payer payee token header distinct)

  module _ (slot_flag : IsFlag buffer (slot_offset payer payee))
      (lane_flag : IsFlag buffer lane_offset) where
    locked_slot-view : read_locked_slot buffer payer payee ≡ ok (view found)
    unfolding read_locked_slot lane_offset checked_pair lane_at field pair_lower pair_higher
    locked_slot-view =
        let inside = room buffer payer payee token header in
        let slot = slot_offset payer payee in
        let fits = lane_inside in
        rw
          (
            found-checked,
            lane_start-ltb payer payee distinct,
            one_inside buffer slot (omega arith),
            read_le_inside 4 buffer (slot + 1) (omega arith),
            read_le_inside 4 buffer (slot + 5) (omega arith),
            one_inside buffer lane_offset (omega arith),
            read_le_inside 8 buffer (lane_offset + 1) (omega arith),
            read_le_inside 8 buffer (lane_offset + 9) (omega arith),
            is_set-flag buffer slot (omega arith) slot_flag,
          )
          (agree_on_bits (field 1 buffer slot == 1)
            (joins (field 4 buffer (slot + 1)) (field 4 buffer (slot + 5))
              (canonical_participants payer payee))
            (field 1 buffer lane_offset == 1) (lane_at buffer lane_offset) slot_not_initialized
            pair_mismatch (is_set-flag buffer lane_offset (omega arith) lane_flag))

    directional-view : read_directional_locked_balance (some buffer) payer payee ≡ ok (view found)
    unfolding read_directional_locked_balance
    directional-view = ground (
      arith,
      header_discriminator buffer _ none token header,
      room buffer payer payee token header,
      locked_slot-view,
    )

    locked_balance-view :
        read_locked_balance (some buffer) payer payee ≡ ok (view found).locked_balance
    unfolding read_locked_balance lane_offset checked_pair lane_at field pair_lower pair_higher
    locked_balance-view =
        let inside = room buffer payer payee token header in
        let slot = slot_offset payer payee in
        let fits = lane_inside in
        let pair = canonical_participants payer payee in
        rw
          (
            found-checked,
            header_discriminator buffer _ none token header,
            lane_start-ltb payer payee distinct,
            one_inside buffer slot (omega arith),
            u32_inside buffer (slot + 1) pair.lower_participant_id (omega arith),
            u32_inside buffer (slot + 5) pair.higher_participant_id (omega arith),
            one_inside buffer lane_offset (omega arith),
            read_le_inside 8 buffer (lane_offset + 1) (omega arith),
            read_le_inside 8 buffer (lane_offset + 9) (omega arith),
            is_set-flag buffer slot (omega arith) slot_flag,
          )
          (agree_on_zero (field 1 buffer slot == 1)
            (field 4 buffer (slot + 1) == pair.lower_participant_id)
            (field 4 buffer (slot + 5) == pair.higher_participant_id)
            (field 1 buffer lane_offset == 1) (lane_at buffer lane_offset) slot_not_initialized
            pair_mismatch (is_set-flag buffer lane_offset (omega arith) lane_flag))

-- On a channel bucket that passes the header check of the demo, with flag bytes that are 0 or 1, the
-- three scripts see the same lane between two distinct participants: the setup script reports the
-- balances that the demo's decoder finds if the slot belongs to the pair and the lane is
-- initialized, and an empty lane if not; the drain script reports the locked balance of the same.
pub scripts_agree :
    (buffer : List ℕ) (payer payee token : ℕ)
    → payer ≢ payee
    → verify_raw_channel_bucket_header buffer (channel_bucket_id payer payee) none ≡ ok token
    → IsFlag buffer (slot_offset payer payee)
    → IsFlag buffer (slot_offset payer payee + (if ltb payer payee then 9 else 114))
    → (read_directional_locked_balance (some buffer) payer payee
        ≡ ok (
            view (do
              channel ← read_raw_channel_bucket_state buffer payer payee
              get_directional_lane_state channel payer payee)))
      × (read_locked_balance (some buffer) payer payee
          ≡ ok
              (view (do
                channel ← read_raw_channel_bucket_state buffer payer payee
                get_directional_lane_state channel payer payee)).locked_balance)
unfolding found lane_offset
scripts_agree buffer payer payee token distinct header slot_flag lane_flag = (
  directional-view buffer payer payee token distinct header slot_flag lane_flag,
  locked_balance-view buffer payer payee token distinct header slot_flag lane_flag,
)
