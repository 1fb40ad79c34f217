-- ===== src/Channel.antt =====
-- shared/channel-bucket-state.ts: the two lanes of a channel slot, and the slot of a participant.
-- The lane is a parameter: the code passes it on as `any`.
pub mod Lanes
use agon_protocol.Base.{
  ℕ, Bool, true, false, ◌&&◌, List, [], ◌∷◌, Option, none, some, get_elem?, ltb, ◌==◌,
  if◌then◌else◌, Outcome, ok, throw, ◌>>=◌, self_channel, pair_mismatch, slot_not_initialized,
}
use agon_protocol.Base.Int.{ℤ}
use agon_protocol.Pair.{CanonicalPair, canonical_participants}

pub record PairChannel (L : Type 0) : Type 0 where
  pub token_id : ℕ
  pub lower_participant_id : ℕ
  pub higher_participant_id : ℕ
  pub lower_to_higher : L
  pub higher_to_lower : L

pub record ChannelSlot (L : Type 0) : Type 0 where
  pub initialized : Bool
  pub lower_participant_id : ℕ
  pub higher_participant_id : ℕ
  pub lower_to_higher : L
  pub higher_to_lower : L

pub record ChannelBucket (L : Type 0) : Type 0 where
  pub token_id : ℕ
  pub slots : List (ChannelSlot L)

-- The result of `normalizeDirectionalChannelState`; the fields of the lane stay together.
pub record DirectionalChannel (L : Type 0) : Type 0 where
  pub payer_id : ℕ
  pub payee_id : ℕ
  pub token_id : ℕ
  pub lane : L

-- `x.lowerParticipantId === lower && x.higherParticipantId === higher`.
abbrev pub joins : ℕ → ℕ → CanonicalPair → Bool
joins lower higher pair = lower == pair.lower_participant_id && higher == pair.higher_participant_id

module _ {L : Type 0} where
  -- The slot of a pair, if it is one that the pair has initialized.
  unfoldable pub checked_slot : Option (ChannelSlot L) → CanonicalPair → Outcome (ChannelSlot L)
  checked_slot none pair = throw slot_not_initialized
  checked_slot (some slot) pair =
      if slot.initialized && joins slot.lower_participant_id slot.higher_participant_id pair
      then ok slot
      else throw slot_not_initialized

  unfoldable pub normalize_channel_bucket_state :
      ChannelBucket L → ℕ → ℕ → (ℕ → ℕ → ℕ) → Outcome (PairChannel L)
  unfolding checked_slot canonical_participants
  normalize_channel_bucket_state bucket payer_id payee_id slot_index_for_pair = do
    let pair = canonical_participants payer_id payee_id
    slot ← checked_slot (get_elem? bucket.slots (slot_index_for_pair payer_id payee_id)) pair
    ok (record {
      token_id = bucket.token_id;
      lower_participant_id = pair.lower_participant_id;
      higher_participant_id = pair.higher_participant_id;
      lower_to_higher = slot.lower_to_higher;
      higher_to_lower = slot.higher_to_lower;
    })

  unfoldable pub get_directional_lane_state : PairChannel L → ℕ → ℕ → Outcome L
  unfolding canonical_participants
  get_directional_lane_state channel payer_id payee_id =
      if payer_id == payee_id
      then throw self_channel
      else if joins channel.lower_participant_id channel.higher_participant_id
          (canonical_participants payer_id payee_id)
      then ok (if ltb payer_id payee_id then channel.lower_to_higher else channel.higher_to_lower)
      else throw pair_mismatch

  unfoldable pub normalize_directional_channel_state :
      PairChannel L → ℕ → ℕ → Outcome (DirectionalChannel L)
  normalize_directional_channel_state channel payer_id payee_id = do
    lane ← get_directional_lane_state channel payer_id payee_id
    ok (record {
      payer_id = payer_id;
      payee_id = payee_id;
      token_id = channel.token_id;
      lane = lane;
    })

pub record BalanceEntry : Type 0 where
  pub initialized : Bool
  pub token_id : ℕ
  pub available_balance : ℕ
  pub withdrawing_balance : ℕ
  pub withdrawal_unlock_at : ℤ
  pub withdrawal_destination : List ℕ

-- The slot as the account client decodes it. `tokenBalances` may be missing.
pub record RawSlot : Type 0 where
  pub owner : List ℕ
  pub participant_id : ℕ
  pub token_balances : Option (List BalanceEntry)
  pub inbound_channel_policy : ℕ
  pub bls_scheme_version : ℕ
  pub bls_pubkey_compressed : List ℕ

pub record TokenBalance : Type 0 where
  pub token_id : ℕ
  pub available_balance : ℕ
  pub withdrawing_balance : ℕ
  pub withdrawal_unlock_at : ℤ
  pub withdrawal_destination : List ℕ

pub record Participant : Type 0 where
  pub owner : List ℕ
  pub participant_id : ℕ
  pub token_balances : List TokenBalance
  pub bump : ℕ
  pub inbound_channel_policy : ℕ
  pub bls_scheme_version : ℕ
  pub bls_pubkey_compressed : List ℕ

-- `.filter((balance) => balance.initialized).map(…)`.
unfoldable pub normalize_balances : List BalanceEntry → List TokenBalance
normalize_balances [] = []
normalize_balances (b ∷ bs) =
    let rest = normalize_balances bs in
    if b.initialized
    then record {
      token_id = b.token_id;
      available_balance = b.available_balance;
      withdrawing_balance = b.withdrawing_balance;
      withdrawal_unlock_at = b.withdrawal_unlock_at;
      withdrawal_destination = b.withdrawal_destination;
    }
      ∷ rest
    else rest

abbrev pub balances_or_none : Option (List BalanceEntry) → List BalanceEntry
balances_or_none none = []
balances_or_none (some balances) = balances

unfoldable pub normalize_participant_bucket_slot : RawSlot → Participant
normalize_participant_bucket_slot slot = record {
  owner = slot.owner;
  participant_id = slot.participant_id;
  token_balances = normalize_balances (balances_or_none slot.token_balances);
  bump = 0;
  inbound_channel_policy = slot.inbound_channel_policy;
  bls_scheme_version = slot.bls_scheme_version;
  bls_pubkey_compressed = slot.bls_pubkey_compressed;
}
