-- ===== src/Account/Lane.antt =====
-- The channel bucket account: `verifyRawChannelBucketHeader`, `readRawDirectionalLaneState`,
-- `readRawChannelBucketState` and `readRawChannelBucketLaneState` of scripts/ryvo-protocol-demo.ts,
-- `readDirectionalLockedBalance` of scripts/colosseum-channels-setup.ts, and `readLockedBalance` of
-- scripts/colosseum-drain-current.ts.
use agon_protocol.Base.{
  ℕ, ◌+◌, ◌*◌, List, [], ◌∷◌, Bool, true, false, ◌&&◌, not, Option, none, some, length, ltb, ◌==◌,
  if◌then◌else◌, Outcome, ok, ◌>>=◌, ◌>>◌, require, account_too_short, bad_discriminator,
  bucket_id_mismatch, token_mismatch, slot_not_initialized, pair_mismatch,
}
use agon_protocol.Base.Bytes.{slice, eq_bytes}
use agon_protocol.Base.Int.{ℤ}
use agon_protocol.Account.Buffer.{read_le, read_i64, is_set, read_pubkey}
use agon_protocol.Pair.{canonical_participants, channel_bucket_id, channel_bucket_slot_index}
use agon_protocol.Channel.{PairChannel, joins}

abbrev pub channel_bucket_discriminator : List ℕ
channel_bucket_discriminator = 171 ∷ 219 ∷ 130 ∷ 228 ∷ 148 ∷ 242 ∷ 103 ∷ 148 ∷ []

abbrev pub channel_bucket_space : ℕ
channel_bucket_space = 19 + 46 * 219

pub record Lane : Type 0 where
  pub initialized : Bool
  pub settled_cumulative : ℕ
  pub locked_balance : ℕ
  pub authorized_signer : List ℕ
  pub pending_unlock_amount : ℕ
  pub unlock_requested_at : ℤ
  pub pending_authorized_signer : List ℕ
  pub authorized_signer_update_requested_at : ℤ

-- `expectedTokenId !== undefined && actualTokenId !== expectedTokenId` does not hold.
abbrev token_matches : ℕ → Option ℕ → Bool
token_matches actual none = true
token_matches actual (some expected) = actual == expected

-- The token of the bucket.
unfoldable pub verify_raw_channel_bucket_header : List ℕ → ℕ → Option ℕ → Outcome ℕ
verify_raw_channel_bucket_header buffer expected_bucket_id expected_token_id = do
  require (not (ltb (length buffer) channel_bucket_space)) account_too_short
  require (eq_bytes (slice 0 8 buffer) channel_bucket_discriminator) bad_discriminator
  actual_token_id ← read_le 2 buffer 8
  actual_bucket_id ← read_le 8 buffer 10
  require (actual_bucket_id == expected_bucket_id) bucket_id_mismatch
  require (token_matches actual_token_id expected_token_id) token_mismatch
  ok actual_token_id

unfoldable pub read_raw_directional_lane_state : List ℕ → ℕ → Outcome Lane
read_raw_directional_lane_state buffer lane_offset = do
  settled ← read_le 8 buffer (lane_offset + 1)
  locked ← read_le 8 buffer (lane_offset + 9)
  pending ← read_le 8 buffer (lane_offset + 49)
  requested_at ← read_i64 buffer (lane_offset + 57)
  update_at ← read_i64 buffer (lane_offset + 97)
  ok (record {
    initialized = is_set buffer lane_offset;
    settled_cumulative = settled;
    locked_balance = locked;
    authorized_signer = read_pubkey buffer (lane_offset + 17);
    pending_unlock_amount = pending;
    unlock_requested_at = requested_at;
    pending_authorized_signer = read_pubkey buffer (lane_offset + 65);
    authorized_signer_update_requested_at = update_at;
  })

-- Where the slot of a pair begins.
unfoldable pub slot_offset : ℕ → ℕ → ℕ
slot_offset payer_id payee_id = 19 + channel_bucket_slot_index payer_id payee_id * 219

unfoldable pub read_raw_channel_bucket_state : List ℕ → ℕ → ℕ → Outcome (PairChannel Lane)
unfolding canonical_participants
read_raw_channel_bucket_state buffer payer_id payee_id = do
  let pair = canonical_participants payer_id payee_id
  token_id ← verify_raw_channel_bucket_header buffer (channel_bucket_id payer_id payee_id) none
  let slot = slot_offset payer_id payee_id
  lower ← read_le 4 buffer (slot + 1)
  higher ← read_le 4 buffer (slot + 5)
  require (is_set buffer slot) slot_not_initialized
  require (joins lower higher pair) pair_mismatch
  lower_to_higher ← read_raw_directional_lane_state buffer (slot + 9)
  higher_to_lower ← read_raw_directional_lane_state buffer (slot + 114)
  ok (record {
    token_id = token_id;
    lower_participant_id = pair.lower_participant_id;
    higher_participant_id = pair.higher_participant_id;
    lower_to_higher = lower_to_higher;
    higher_to_lower = higher_to_lower;
  })

pub record Balances : Type 0 where
  pub settled_cumulative : ℕ
  pub locked_balance : ℕ

unfoldable pub read_raw_channel_bucket_lane_state : List ℕ → ℕ → ℕ → Outcome Balances
unfolding canonical_participants
read_raw_channel_bucket_lane_state buffer payer_id payee_id = do
  let pair = canonical_participants payer_id payee_id
  token_id ← verify_raw_channel_bucket_header buffer (channel_bucket_id payer_id payee_id) none
  let slot = slot_offset payer_id payee_id
  lower ← read_le 4 buffer (slot + 1)
  higher ← read_le 4 buffer (slot + 5)
  require (is_set buffer slot) slot_not_initialized
  require (joins lower higher pair) pair_mismatch
  let lane = slot + (if ltb payer_id payee_id then 9 else 114)
  settled ← read_le 8 buffer (lane + 1)
  locked ← read_le 8 buffer (lane + 9)
  ok (record { settled_cumulative = settled; locked_balance = locked })

pub record LockedView : Type 0 where
  pub initialized : Bool
  pub locked_balance : ℕ
  pub settled_cumulative : ℕ

abbrev pub no_lane : LockedView
no_lane = record { initialized = false; locked_balance = 0; settled_cumulative = 0 }

-- `buffer.readUInt8(offset) === 1`.
unfoldable pub reads_one : List ℕ → ℕ → Outcome Bool
reads_one buffer offset = do byte ← read_le 1 buffer offset; ok (byte == 1)

-- `payerId === lower ? … : …`.
abbrev pub lane_start : ℕ → ℕ → ℕ
lane_start payer_id lower = if payer_id == lower then 9 else 114

-- The part of `readDirectionalLockedBalance` behind the checks of the account.
unfoldable pub read_locked_slot : List ℕ → ℕ → ℕ → Outcome LockedView
unfolding canonical_participants
read_locked_slot buffer payer_id payee_id = do
  let pair = canonical_participants payer_id payee_id
  let slot = slot_offset payer_id payee_id
  slot_initialized ← reads_one buffer slot
  lower ← read_le 4 buffer (slot + 1)
  higher ← read_le 4 buffer (slot + 5)
  let lane = slot + lane_start payer_id pair.lower_participant_id
  if slot_initialized && joins lower higher pair
      then (do
        lane_initialized ← reads_one buffer lane
        if lane_initialized
            then (do
              settled ← read_le 8 buffer (lane + 1)
              locked ← read_le 8 buffer (lane + 9)
              ok (record {
                initialized = true;
                locked_balance = locked;
                settled_cumulative = settled;
              }))
            else ok no_lane)
      else ok no_lane

-- `readDirectionalLockedBalance`, on the data of the account, if there is one.
unfoldable pub read_directional_locked_balance : Option (List ℕ) → ℕ → ℕ → Outcome LockedView
read_directional_locked_balance none payer_id payee_id = ok no_lane
read_directional_locked_balance (some buffer) payer_id payee_id =
    if not (eq_bytes (slice 0 8 buffer) channel_bucket_discriminator)
    then ok no_lane
    else if ltb (length buffer) (slot_offset payer_id payee_id + 219)
    then ok no_lane
    else read_locked_slot buffer payer_id payee_id

-- `if (test) …; return 0n`: a test that may throw, and is not made twice.
abbrev pub or_zero : Outcome Bool → Outcome ℕ → Outcome ℕ
or_zero test continue = do passed ← test; if passed then continue else ok 0

-- `buffer.readUInt32LE(offset) === expected`.
unfoldable pub reads_u32 : List ℕ → ℕ → ℕ → Outcome Bool
reads_u32 buffer offset expected = do value ← read_le 4 buffer offset; ok (value == expected)

-- `readLockedBalance`, which does not check the length, and reads `settledCumulative` to no use.
unfoldable pub read_locked_balance : Option (List ℕ) → ℕ → ℕ → Outcome ℕ
unfolding canonical_participants
read_locked_balance none payer_id payee_id = ok 0
read_locked_balance (some buffer) payer_id payee_id =
    let pair = canonical_participants payer_id payee_id in
    let slot = slot_offset payer_id payee_id in
    let lane = slot + lane_start payer_id pair.lower_participant_id in
    if not (eq_bytes (slice 0 8 buffer) channel_bucket_discriminator)
    then ok 0
    else or_zero (reads_one buffer slot) (
        or_zero (reads_u32 buffer (slot + 1) pair.lower_participant_id) (
          or_zero (reads_u32 buffer (slot + 5) pair.higher_participant_id) (
            or_zero (reads_one buffer lane)
              (do settled ← read_le 8 buffer (lane + 1); read_le 8 buffer (lane + 9)))))
