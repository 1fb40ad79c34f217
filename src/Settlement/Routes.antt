-- ===== src/Settlement/Routes.antt =====
-- The second pass of a settlement: each entry moves an amount from its payer to its payee.
use agon_protocol.Base.{
  ◌/◌, max, ℕ, zero, suc, ◌+◌, ◌-◌, min, not, ltb, leb, ◌==◌, if◌then◌else◌, none, some, List, [],
  ◌∷◌, get_elem?, Outcome, ok, throw, ◌>>=◌, ◌>>◌, require, invalid_clearing_round_message,
  commitment_amount_must_increase, self_channel,
}
use agon_protocol.Base.Int.{ℤ}
use agon_protocol.Keys.{is_seen}
use agon_protocol.Message.Program.{ChannelEntry}
use agon_protocol.Pair.{pair_ordinal}
use agon_protocol.Settlement.Registration.{bind_account}
use agon_protocol.Settlement.{
  ChannelLane, Account, channel_bucket, ParticipantRoundState, checked_add_u64, add_u64,
  subtract_u64, checked_i128, is_lane, find_lane,
}

-- A write at an index of a vector.
unfoldable pub set_position : ℕ → ℤ → List ParticipantRoundState → List ParticipantRoundState
set_position i z [] = []
set_position zero z (s ∷ ss) = record s { net_position = z } ∷ ss
set_position (suc i) z (s ∷ ss) = s ∷ set_position i z ss

-- `cap_pending_unlock_at_lane_offset_in_data`.
unfoldable pub cap_pending_unlock : ℕ → ChannelLane → ChannelLane
cap_pending_unlock most lane =
    if lane.pending_unlock_amount == 0
    then record lane { unlock_requested_at = 0 }
    else if leb lane.pending_unlock_amount most
    then lane
    else if most == 0
    then record lane { pending_unlock_amount = most; unlock_requested_at = 0 }
    else record lane { pending_unlock_amount = most }

-- `apply_lane_settlement_at_offset_in_data`, of at most the locked balance.
unfoldable pub settled_lane : ℕ → ℕ → ChannelLane → ChannelLane
settled_lane target consumed lane =
    let next_locked = lane.locked_balance - consumed in
    record (cap_pending_unlock next_locked (record lane { locked_balance = next_locked })) {
      settled_cumulative = target;
    }

unfoldable pub set_lane : ℕ → ℕ → ChannelLane → List ChannelLane → List ChannelLane
set_lane payer payee new [] = []
set_lane payer payee new (l ∷ ls) =
    let rest = set_lane payer payee new ls in if is_lane payer payee l then new ∷ ls else l ∷ rest

-- What the second loop works on.
pub record Routing : Type 0 where
  pub states : List ParticipantRoundState
  pub lanes : List ChannelLane
  pub channel_buckets : List ℕ
  pub total_gross : ℕ

abbrev pub state_at : List ParticipantRoundState → ℕ → Outcome ParticipantRoundState
state_at states i = elim (get_elem? states i) [
  | none ↦ throw invalid_clearing_round_message
  | some state ↦ ok state
]

-- An entry's payer and payee, the channel buckets with its own, and the lane before it is settled.
pub record Route : Type 0 where
  pub payer : ParticipantRoundState
  pub payee_id : ℕ
  pub channel_buckets : List ℕ
  pub lane : ChannelLane

-- The positions and the lane after an entry; the payee's position is read after the payer's is written.
unfoldable pub move_amount : ℕ → ChannelEntry → Route → Routing → Outcome Routing
move_amount block_index entry route r = do
  let delta = entry.target_cumulative - route.lane.settled_cumulative
  gross ← checked_add_u64 r.total_gross delta
  let consumed = min route.lane.locked_balance delta
  debited ← checked_i128 (subtract_u64 route.payer.net_position (delta - consumed))
  let states = set_position block_index debited r.states
  payee ← state_at states entry.payee_ref
  credited ← checked_i128 (add_u64 payee.net_position delta)
  ok (record {
    states = set_position entry.payee_ref credited states;
    lanes =
        set_lane route.payer.participant_id route.payee_id
          (settled_lane entry.target_cumulative consumed route.lane) r.lanes;
    channel_buckets = route.channel_buckets;
    total_gross = gross;
  })

-- `canonicalize` and `ChannelBucket::bucket_id_for_pair`, in 64 bits, which 32-bit ids do not exceed.
unfoldable pub bucket_id_for_pair : ℕ → ℕ → ℕ
bucket_id_for_pair payer_id payee_id =
    pair_ordinal (min payer_id payee_id) (max payer_id payee_id) / 46

module _ (remaining : List Account) (participant_buckets : ℕ) where
  -- The checks of an entry of the block with the index; the payees that the block has named before are
  -- seen.
  unfoldable pub route_entry : ℕ → List ℕ → Routing → ChannelEntry → Outcome Route
  route_entry block_index seen_payees r entry = do
    payee ← state_at r.states entry.payee_ref
    require (not (is_seen entry.payee_ref seen_payees)) invalid_clearing_round_message
    payer ← state_at r.states block_index
    require (not (payer.participant_id == payee.participant_id)) self_channel
    buckets ←
        bind_account remaining channel_bucket participant_buckets
          (bucket_id_for_pair payer.participant_id payee.participant_id) r.channel_buckets
    lane ← find_lane payer.participant_id payee.participant_id r.lanes
    require (ltb lane.settled_cumulative entry.target_cumulative) commitment_amount_must_increase
    ok (record {
      payer = payer;
      payee_id = payee.participant_id;
      channel_buckets = buckets;
      lane = lane;
    })

  unfoldable pub settle_entry : ℕ → List ℕ → Routing → ChannelEntry → Outcome Routing
  settle_entry block_index seen_payees r entry =
      route_entry block_index seen_payees r entry >>= λ route. move_amount block_index entry route r

  unfoldable pub settle_entries : ℕ → List ℕ → Routing → List ChannelEntry → Outcome Routing
  settle_entries block_index seen_payees r [] = ok r
  settle_entries block_index seen_payees r (e ∷ es) =
      settle_entry block_index seen_payees r e >>= λ r'.
      settle_entries block_index (e.payee_ref ∷ seen_payees) r' es

  unfoldable pub settle_blocks : ℕ → Routing → List (ℕ × List ChannelEntry) → Outcome Routing
  settle_blocks block_index r [] = ok r
  settle_blocks block_index r ((id, entries) ∷ bs) =
      settle_entries block_index [] r entries >>= λ r'. settle_blocks (block_index + 1) r' bs
