-- ===== src/Tests/Channels.antt =====
-- Pairs of participants, their slots and lanes.
use agon_protocol.Base.{
  ◌+◌, ◌^◌, ℕ, ◌<◌, true, false, [], ◌∷◌, some, get_elem?, ok, throw, ◌≡◌, ◌↔◌, ◌⊎◌, refl, arith,
  self_channel,
}
use agon_protocol.Base.Number.{as_number, spacing_loop, nearest_multiple}
use agon_protocol.Pair.{
  canonical_participants, pair_ordinal, channel_bucket_id, channel_bucket_slot_index,
}
use agon_protocol.Pair.Ordinal.{channel_slot_iff, channel_slot_filled}
use agon_protocol.Channel.{
  PairChannel, ChannelSlot, ChannelBucket, get_directional_lane_state,
  normalize_channel_bucket_state,
}
use agon_protocol.Channel.Lanes.{get_directional_lane_state_iff, directional_of_bucket}

-- 2 ^ 53 + 1 is between two doubles, and so are 2 ^ 53 + 3 and 2 ^ 54 + 3.
rounded : as_number (2 ^ 53 + 1) ≡ 2 ^ 53
unfolding as_number spacing_loop nearest_multiple
rounded = refl

rounded_up : as_number (2 ^ 53 + 3) ≡ 2 ^ 53 + 4
unfolding as_number spacing_loop nearest_multiple
rounded_up = refl

rounded_near : as_number (2 ^ 54 + 3) ≡ 2 ^ 54 + 4
unfolding as_number spacing_loop nearest_multiple
rounded_near = refl

bucket_of_11_and_2 : channel_bucket_id 11 2 ≡ 1
unfolding channel_bucket_id pair_ordinal canonical_participants as_number
bucket_of_11_and_2 = refl

-- Above 2 ^ 53 the bucket is rounded, and two pairs share a slot.
shared_bucket :
    (channel_bucket_id 14 4_000_000_000 ≡ 173_913_043_434_782_624)
    × (channel_bucket_id 60 4_000_000_000 ≡ 173_913_043_434_782_624)
    × (channel_bucket_slot_index 14 4_000_000_000 ≡ 0)
    × (channel_bucket_slot_index 60 4_000_000_000 ≡ 0)
unfolding channel_bucket_id channel_bucket_slot_index pair_ordinal canonical_participants as_number
    spacing_loop nearest_multiple
shared_bucket = (refl, refl, refl, refl)

channel_slot_iff_example :
    ((channel_bucket_id 2 11 ≡ channel_bucket_id 11 2)
      × (channel_bucket_slot_index 2 11 ≡ channel_bucket_slot_index 11 2))
    ↔ (canonical_participants 2 11 ≡ canonical_participants 11 2)
channel_slot_iff_example =
    channel_slot_iff 2 11 11 2 (λ h. omega arith) (λ h. omega arith) (omega arith) (omega arith)

channel_slot_filled_example :
    (lower : ℕ) × (higher : ℕ) × (lower < higher)
    × (channel_bucket_id lower higher ≡ 3)
    × (channel_bucket_slot_index lower higher ≡ 45)
channel_slot_filled_example = channel_slot_filled 3 45 (omega arith) (omega arith)

-- A lane is a number here.
abbrev channel : PairChannel ℕ
channel = record {
  token_id = 7;
  lower_participant_id = 2;
  higher_participant_id = 11;
  lower_to_higher = 100;
  higher_to_lower = 200;
}

read_to_itself : get_directional_lane_state channel 2 2 ≡ throw self_channel
unfolding get_directional_lane_state
read_to_itself = refl

get_directional_lane_state_iff_example : (get_directional_lane_state channel 11 2 ≡ ok 200) ↔ (
    ((11 < 2)
      × (channel.lower_participant_id ≡ 11)
      × (channel.higher_participant_id ≡ 2)
      × (channel.lower_to_higher ≡ 200))
    ⊎ ((2 < 11)
        × (channel.lower_participant_id ≡ 2)
        × (channel.higher_participant_id ≡ 11)
        × (channel.higher_to_lower ≡ 200)))
get_directional_lane_state_iff_example = get_directional_lane_state_iff channel 11 2 200

abbrev slot : ChannelSlot ℕ
slot = record {
  initialized = true;
  lower_participant_id = 2;
  higher_participant_id = 11;
  lower_to_higher = 100;
  higher_to_lower = 200;
}

abbrev bucket : ChannelBucket ℕ
bucket = record { token_id = 7; slots = record slot { initialized = false } ∷ slot ∷ [] }

abbrev second : ℕ → ℕ → ℕ
second payer payee = 1

bucket-channel : normalize_channel_bucket_state bucket 2 11 second ≡ ok channel
unfolding normalize_channel_bucket_state
bucket-channel = refl

directional_of_bucket_example :
    (s : ChannelSlot ℕ) × (get_elem? bucket.slots 1 ≡ some s)
    × (s.initialized ≡ true)
    × (s.lower_participant_id ≡ 2)
    × (s.higher_participant_id ≡ 11)
    × (get_directional_lane_state channel 2 11 ≡ ok s.lower_to_higher)
    × (get_directional_lane_state channel 11 2 ≡ ok s.higher_to_lower)
    × (channel.token_id ≡ bucket.token_id)
directional_of_bucket_example =
    directional_of_bucket bucket 2 11 second channel (omega arith) bucket-channel
