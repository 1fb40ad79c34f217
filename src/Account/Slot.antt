-- ===== src/Account/Slot.antt =====
-- The slot of a participant as scripts/ryvo-protocol-demo.ts reads it, `readRawParticipantBucketSlot`, and
-- the balance that `getParticipantTokenBalance` takes from it.
use agon_protocol.Base.{
  ℕ, zero, suc, ◌+◌, ◌^◌, ◌<◌, List, [], ◌∷◌, ◌&&◌, Option, none, some, ◌==◌, if◌then◌else◌,
  Outcome, ok, ◌>>=◌, ◌>>◌, require, participant_not_initialized, ◌≡◌,
}
use agon_protocol.Base.Bytes.{byte_at, slice}
use agon_protocol.Account.Buffer.{read_le, read_i64, is_set, read_pubkey}
use agon_protocol.Account.Participant.{participant_slot_offset, TokenBalanceView}
use agon_protocol.Channel.{
  BalanceEntry, RawSlot, TokenBalance, Participant, normalize_participant_bucket_slot,
}

-- `toNumber` of bn.js, which gives the numbers below 2 ^ 53.
pub record BigToNumber : Type 0 where
  pub to_number : ℕ → Outcome ℕ
  pub safe : (value : ℕ) → value < 2 ^ 53 → to_number value ≡ ok value

-- The token balances of a slot, from a cursor on.
unfoldable pub read_balance_entries : ℕ → ℕ → List ℕ → Outcome (List BalanceEntry)
read_balance_entries zero cursor buffer = ok []
read_balance_entries (suc rounds) cursor buffer = do
  token_id ← read_le 2 buffer (cursor + 1)
  available ← read_le 8 buffer (cursor + 3)
  withdrawing ← read_le 8 buffer (cursor + 11)
  unlock_at ← read_i64 buffer (cursor + 19)
  rest ← read_balance_entries rounds (cursor + 59) buffer
  ok (
      record {
        initialized = is_set buffer cursor;
        token_id = token_id;
        available_balance = available;
        withdrawing_balance = withdrawing;
        withdrawal_unlock_at = unlock_at;
        withdrawal_destination = read_pubkey buffer (cursor + 27);
      }
      ∷ rest)

unfoldable pub read_raw_participant_bucket_slot : List ℕ → ℕ → Outcome RawSlot
read_raw_participant_bucket_slot buffer participant_id = do
  let slot = participant_slot_offset participant_id
  actual ← read_le 4 buffer (slot + 33)
  require (is_set buffer slot && actual == participant_id) participant_not_initialized
  balances ← read_balance_entries 16 (slot + 135) buffer
  ok (record {
    owner = read_pubkey buffer (slot + 1);
    participant_id = actual;
    token_balances = some balances;
    inbound_channel_policy = byte_at buffer (slot + 37);
    bls_scheme_version = byte_at buffer (slot + 38);
    bls_pubkey_compressed = slice (slot + 39) (slot + 135) buffer;
  })

-- `participant.tokenBalances.find((entry) => entry.tokenId === tokenId)`.
unfoldable pub find_balance : ℕ → List TokenBalance → Option TokenBalance
find_balance token_id [] = none
find_balance token_id (b ∷ bs) =
    let rest = find_balance token_id bs in if b.token_id == token_id then some b else rest

module _ (bn : BigToNumber) where
  abbrev pub number_view : Option TokenBalance → Outcome TokenBalanceView
  number_view none = ok (record { available = 0; withdrawing = 0 })
  number_view (some b) = do
    available ← bn.to_number b.available_balance
    withdrawing ← bn.to_number b.withdrawing_balance
    ok (record { available = available; withdrawing = withdrawing })

  unfoldable pub get_participant_token_balance : Participant → ℕ → Outcome TokenBalanceView
  get_participant_token_balance participant token_id =
      number_view (find_balance token_id participant.token_balances)

  -- `fetchParticipantById`, on the data of the account, and the balance of a token.
  unfoldable pub fetch_participant_balance : List ℕ → ℕ → ℕ → Outcome TokenBalanceView
  fetch_participant_balance buffer participant_id token_id = do
    slot ← read_raw_participant_bucket_slot buffer participant_id
    get_participant_token_balance (normalize_participant_bucket_slot slot) token_id
