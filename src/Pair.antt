-- ===== src/Pair.antt =====
-- Where a participant and a pair of participants are stored: `participantBucketIdForParticipantId`,
-- `participantBucketSlotIndex`, `pairOrdinal`, `channelBucketIdForPair` and
-- `channelBucketSlotIndexForPair` of scripts/ryvo-protocol-demo.ts, and
-- `getCanonicalChannelParticipants` of shared/channel-bucket-state.ts.
pub mod Ordinal
use agon_protocol.Base.Number.{as_number}
use agon_protocol.Base.{ℕ, ◌+◌, ◌-◌, ◌*◌, ◌/◌, ◌%◌, min, max}

abbrev pub participant_bucket_slot_count : ℕ
participant_bucket_slot_count = 9

abbrev pub channel_bucket_slot_count : ℕ
channel_bucket_slot_count = 46

unfoldable pub participant_bucket_id : ℕ → ℕ
participant_bucket_id participant_id = participant_id / participant_bucket_slot_count

unfoldable pub participant_bucket_slot_index : ℕ → ℕ
participant_bucket_slot_index participant_id = participant_id % participant_bucket_slot_count

pub record CanonicalPair : Type 0 where
  pub lower_participant_id : ℕ
  pub higher_participant_id : ℕ

unfoldable pub canonical_participants : ℕ → ℕ → CanonicalPair
canonical_participants payer_id payee_id = record {
  lower_participant_id = min payer_id payee_id;
  higher_participant_id = max payer_id payee_id;
}

-- `(higher * (higher - 1n)) / 2n + BigInt(lower)`. At `higher = 0` the product is 0 in both.
unfoldable pub pair_ordinal : ℕ → ℕ → ℕ
pair_ordinal lower higher = higher * (higher - 1) / 2 + lower

-- `Number(…)` of a bigint rounds it above 2 ^ 53.
unfoldable pub channel_bucket_id : ℕ → ℕ → ℕ
unfolding canonical_participants
channel_bucket_id payer_id payee_id =
    let pair = canonical_participants payer_id payee_id in
    as_number (
      pair_ordinal pair.lower_participant_id pair.higher_participant_id / channel_bucket_slot_count)

unfoldable pub channel_bucket_slot_index : ℕ → ℕ → ℕ
unfolding canonical_participants
channel_bucket_slot_index payer_id payee_id =
    let pair = canonical_participants payer_id payee_id in
    pair_ordinal pair.lower_participant_id pair.higher_participant_id % channel_bucket_slot_count
