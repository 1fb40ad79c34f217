-- ===== src/Channel/Lanes.antt =====
-- Which lane a direction reads, and when the readers refuse.
use agon_protocol.Base.{
  ℕ, ◌≢◌, min, max, ltb, if◌then◌else◌, ◌<◌, true, some, get_elem?, ok, ◌≡◌, ◌↔◌, ◌⊎◌, inl, inr,
  arith, Option-cases,
}
use agon_protocol.Pair.{canonical_participants}
use agon_protocol.Channel.{
  checked_slot, PairChannel, ChannelSlot, ChannelBucket, get_directional_lane_state,
  normalize_channel_bucket_state,
}

module _ {L : Type 0} where
  -- A direction reads a lane exactly when the slot joins its two participants, which are distinct:
  -- the lane `lowerToHigher` if the payer is the lower one, and `higherToLower` if it is the higher.
  pub get_directional_lane_state_iff :
      (channel : PairChannel L) (payer payee : ℕ) (lane : L)
      → (get_directional_lane_state channel payer payee ≡ ok lane) ↔ (
          ((payer < payee)
            × (channel.lower_participant_id ≡ payer)
            × (channel.higher_participant_id ≡ payee)
            × (channel.lower_to_higher ≡ lane))
          ⊎ ((payee < payer)
              × (channel.lower_participant_id ≡ payee)
              × (channel.higher_participant_id ≡ payer)
              × (channel.higher_to_lower ≡ lane)))
  unfolding get_directional_lane_state
  get_directional_lane_state_iff channel payer payee lane = ground arith

  -- The slot that `normalizeChannelBucketState` accepts is the initialized one at the index of the
  -- pair, and joins the lower to the higher of the two participants. From its result the direction that
  -- was asked for, between two distinct participants, gives the lane from the payer to the payee, and
  -- the reverse direction the lane back.
  pub directional_of_bucket :
      (bucket : ChannelBucket L) (payer payee : ℕ) (index : ℕ → ℕ → ℕ) (channel : PairChannel L)
      → payer ≢ payee
      → normalize_channel_bucket_state bucket payer payee index ≡ ok channel
      → (slot : ChannelSlot L) × (get_elem? bucket.slots (index payer payee) ≡ some slot)
        × (slot.initialized ≡ true)
        × (slot.lower_participant_id ≡ min payer payee)
        × (slot.higher_participant_id ≡ max payer payee)
        × (get_directional_lane_state channel payer payee
            ≡ ok (if ltb payer payee then slot.lower_to_higher else slot.higher_to_lower))
        × (get_directional_lane_state channel payee payer
            ≡ ok (if ltb payer payee then slot.higher_to_lower else slot.lower_to_higher))
        × (channel.token_id ≡ bucket.token_id)
  unfolding normalize_channel_bucket_state get_directional_lane_state checked_slot
      canonical_participants
  directional_of_bucket bucket payer payee index channel distinct h =
      elim (Option-cases (get_elem? bucket.slots (index payer payee))) [
        | inl missing ↦ absurd (ground arith)
        | inr (slot, found) ↦ (
          slot,
          found,
          ground arith,
          ground arith,
          ground arith,
          ground arith,
          ground arith,
          ground arith,
        )
      ]
