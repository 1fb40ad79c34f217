-- ===== src/Account/Bucket.antt =====
-- The participant bucket reader of scripts/yield-bearing-demo.ts, `readBucketBalanceForToken`.
use agon_protocol.Base.{
  ℕ, zero, suc, ◌+◌, List, not, Option, none, some, length, ltb, ◌==◌, if◌then◌else◌, Outcome, ok,
  ◌>>=◌,
}
use agon_protocol.Base.Int.{ℤ, pos}
use agon_protocol.Account.Buffer.{read_le, read_i64}
use agon_protocol.Account.Lane.{reads_one}
use agon_protocol.Account.Participant.{participant_slot_offset}

pub record BucketBalance : Type 0 where
  pub available : ℕ
  pub withdrawing : ℕ
  pub withdrawal_unlock_at : ℤ

abbrev pub no_bucket_balance : BucketBalance
no_bucket_balance = record { available = 0; withdrawing = 0; withdrawal_unlock_at = pos 0 }

-- The loop over the token balances of the slot, on `rounds` more of them.
unfoldable pub bucket_loop : ℕ → ℕ → ℕ → List ℕ → Outcome BucketBalance
bucket_loop zero cursor token_id buffer = ok no_bucket_balance
bucket_loop (suc rounds) cursor token_id buffer = do
  set ← reads_one buffer cursor
  let rest = bucket_loop rounds (cursor + 59) token_id buffer
  if not set then rest else (do
    entry_token_id ← read_le 2 buffer (cursor + 1)
    if not (entry_token_id == token_id) then rest else (do
      available ← read_le 8 buffer (cursor + 3)
      withdrawing ← read_le 8 buffer (cursor + 11)
      unlock_at ← read_i64 buffer (cursor + 19)
      ok (record {
        available = available;
        withdrawing = withdrawing;
        withdrawal_unlock_at = unlock_at;
      })))

-- The account is absent or too short, or its slot is not in use: nothing is available.
unfoldable pub read_bucket_balance_for_token : Option (List ℕ) → ℕ → ℕ → Outcome BucketBalance
read_bucket_balance_for_token none participant_id token_id = ok no_bucket_balance
read_bucket_balance_for_token (some buffer) participant_id token_id =
    let slot = participant_slot_offset participant_id in
    if ltb (length buffer) (slot + 1079) then ok no_bucket_balance else (do
      set ← reads_one buffer slot
      if not set then ok no_bucket_balance else bucket_loop 16 (slot + 135) token_id buffer)
