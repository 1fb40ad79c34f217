-- ===== src/Account/Participant.antt =====
-- The participant bucket account: `readRawParticipantBucketTokenBalance` of
-- scripts/ryvo-protocol-demo.ts, `readParticipantSlot` of scripts/colosseum-channels-setup.ts, and
-- `readParticipantBalance` of scripts/colosseum-drain-current.ts.
use agon_protocol.Base.{
  ℕ, zero, suc, ◌+◌, ◌*◌, List, [], ◌∷◌, Bool, ◌&&◌, not, Option, none, some, length, ltb, ◌==◌,
  if◌then◌else◌, Outcome, ok, ◌>>=◌, ◌>>◌, require, account_too_short, bad_discriminator,
  bucket_id_mismatch, participant_not_initialized,
}
use agon_protocol.Base.Bytes.{slice, eq_bytes}
use agon_protocol.Base.Int.{ℤ, pos}
use agon_protocol.Account.Buffer.{read_le, read_i64, is_set, read_pubkey}
use agon_protocol.Account.Lane.{reads_one}
use agon_protocol.Pair.{participant_bucket_id, participant_bucket_slot_index}

abbrev pub participant_bucket_discriminator : List ℕ
participant_bucket_discriminator = 107 ∷ 145 ∷ 82 ∷ 194 ∷ 47 ∷ 231 ∷ 201 ∷ 105 ∷ []

-- Where the slot of a participant begins.
unfoldable pub participant_slot_offset : ℕ → ℕ
participant_slot_offset participant_id = 13 + participant_bucket_slot_index participant_id * 1079

pub record TokenBalanceView : Type 0 where
  pub available : ℕ
  pub withdrawing : ℕ

-- The loop over the token balances of a slot, on `rounds` more of them, in the demo.
unfoldable pub token_balance_loop : ℕ → ℕ → ℕ → List ℕ → Outcome TokenBalanceView
token_balance_loop zero cursor token_id buffer = ok (record { available = 0; withdrawing = 0 })
token_balance_loop (suc rounds) cursor token_id buffer = do
  entry_token_id ← read_le 2 buffer (cursor + 1)
  let rest = token_balance_loop rounds (cursor + 59) token_id buffer
  if is_set buffer cursor && entry_token_id == token_id
      then (do
        available ← read_le 8 buffer (cursor + 3)
        withdrawing ← read_le 8 buffer (cursor + 11)
        ok (record { available = available; withdrawing = withdrawing }))
      else rest

unfoldable pub read_raw_participant_bucket_token_balance : List ℕ → ℕ → ℕ → Outcome TokenBalanceView
read_raw_participant_bucket_token_balance buffer participant_id token_id = do
  bucket_id ← read_le 4 buffer 8
  require (bucket_id == participant_bucket_id participant_id) bucket_id_mismatch
  let slot = participant_slot_offset participant_id
  actual ← read_le 4 buffer (slot + 33)
  require (is_set buffer slot && actual == participant_id) participant_not_initialized
  token_balance_loop 16 (slot + 135) token_id buffer

pub record ParticipantSlot : Type 0 where
  pub initialized : Bool
  pub owner : List ℕ
  pub participant_id : ℕ
  pub bls_scheme_version : ℕ
  pub bls_pubkey_compressed : List ℕ
  pub token_available_balance : ℕ

-- The loop of the setup script, which leaves at the first entry of the token.
unfoldable pub available_loop : ℕ → ℕ → ℕ → List ℕ → Outcome ℕ
available_loop zero cursor token_id buffer = ok 0
available_loop (suc rounds) cursor token_id buffer = do
  set ← reads_one buffer cursor
  let rest = available_loop rounds (cursor + 59) token_id buffer
  if set
      then (do
        entry_token_id ← read_le 2 buffer (cursor + 1)
        if entry_token_id == token_id then read_le 8 buffer (cursor + 3) else rest)
      else rest

unfoldable pub read_participant_slot : Option (List ℕ) → ℕ → ℕ → Outcome (Option ParticipantSlot)
read_participant_slot none participant_id token_id = ok none
read_participant_slot (some buffer) participant_id token_id = do
  require (eq_bytes (slice 0 8 buffer) participant_bucket_discriminator) bad_discriminator
  let slot = participant_slot_offset participant_id
  require (not (ltb (length buffer) (slot + 1079))) account_too_short
  set ← reads_one buffer slot
  actual ← read_le 4 buffer (slot + 33)
  scheme ← read_le 1 buffer (slot + 38)
  available ← (if set then available_loop 16 (slot + 135) token_id buffer else ok 0)
  ok (
      some (record {
        initialized = set;
        owner = read_pubkey buffer (slot + 1);
        participant_id = actual;
        bls_scheme_version = scheme;
        bls_pubkey_compressed = slice (slot + 39) (slot + 39 + 96) buffer;
        token_available_balance = available;
      }))

pub record ParticipantBalance : Type 0 where
  pub available : ℕ
  pub withdrawing : ℕ
  pub withdrawal_unlock_at : ℤ
  pub withdrawal_destination : List ℕ

-- `PublicKey.default`.
unfoldable pub zero_bytes : ℕ → List ℕ
zero_bytes zero = []
zero_bytes (suc n) = 0 ∷ zero_bytes n

abbrev pub no_balance : ParticipantBalance
no_balance = record {
  available = 0;
  withdrawing = 0;
  withdrawal_unlock_at = pos 0;
  withdrawal_destination = zero_bytes 32;
}

-- The loop of the drain script.
unfoldable pub balance_loop : ℕ → ℕ → ℕ → List ℕ → Outcome ParticipantBalance
balance_loop zero cursor token_id buffer = ok no_balance
balance_loop (suc rounds) cursor token_id buffer = do
  set ← reads_one buffer cursor
  let rest = balance_loop rounds (cursor + 59) token_id buffer
  if not set then rest else (do
    entry_token_id ← read_le 2 buffer (cursor + 1)
    if not (entry_token_id == token_id) then rest else (do
      available ← read_le 8 buffer (cursor + 3)
      withdrawing ← read_le 8 buffer (cursor + 11)
      unlock_at ← read_i64 buffer (cursor + 19)
      ok (record {
        available = available;
        withdrawing = withdrawing;
        withdrawal_unlock_at = unlock_at;
        withdrawal_destination = read_pubkey buffer (cursor + 27);
      })))

-- `readParticipantBalance` checks the discriminator, but not the slot.
unfoldable pub read_participant_balance : Option (List ℕ) → ℕ → ℕ → Outcome ParticipantBalance
read_participant_balance none participant_id token_id = ok no_balance
read_participant_balance (some buffer) participant_id token_id = do
  require (eq_bytes (slice 0 8 buffer) participant_bucket_discriminator) bad_discriminator
  balance_loop 16 (participant_slot_offset participant_id + 135) token_id buffer
