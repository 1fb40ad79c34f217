-- ===== src/Capacity/Measure.antt =====
-- `measureClearingRoundCapacity` and the searches of scripts/lib/clearing-round-capacity.ts, with the
-- bundle search of scripts/lib/unilateral-settlement-capacity.ts.
use agon_protocol.Base.{
  ℕ, zero, suc, ◌+◌, ◌-◌, ◌*◌, ◌/◌, ◌%◌, ◌^◌, Bool, true, false, ltb, leb, if◌then◌else◌, Option,
  none, some, List, length, Outcome, ok, ◌>>=◌,
}
use agon_protocol.Base.Int.{ℤ, sub_ℕ}
use agon_protocol.Capacity.Round.{SyntheticRound, build_synthetic_round, create_synthetic_message}

pub data CapacityMode : Type 0 where
  bls bls_v0_alt hypothetical_bls hypothetical_bls_v0_alt : CapacityMode

-- @solana/web3.js: the length of what it serializes for one instruction with so many bytes of data
-- and these writable accounts. `none` is a throw, as for a transaction that is too large.
pub record Web3 : Type 0 where
  pub legacy_message_length : ℕ → List ℕ → List ℕ → Option ℕ
  pub v0_transaction_length : ℕ → List ℕ → List ℕ → Option ℕ

-- `Number.MAX_SAFE_INTEGER`.
abbrev pub max_safe_integer : ℕ
max_safe_integer = 2 ^ 53 - 1

-- The `do … while (remaining > 0)` loop of `shortvecLength`; five rounds use up 32 bits.
unfoldable pub shortvec_loop : ℕ → ℕ → ℕ → ℕ
shortvec_loop zero remaining size = size
shortvec_loop (suc rounds) remaining size =
    let rest = shortvec_loop rounds (remaining / 128) (size + 1) in
    if ltb 0 (remaining / 128) then rest else size + 1

unfoldable pub shortvec_length : ℕ → ℕ
shortvec_length value = shortvec_loop 5 (value % 2 ^ 32) 0

pub record Measurement : Type 0 where
  pub mode : CapacityMode
  pub participant_count : ℕ
  pub channel_count : ℕ
  pub message_bytes : ℕ
  pub auth_envelope_bytes : ℕ
  pub serialized_tx_bytes : ℕ
  pub remaining_bytes : ℤ
  pub participant_bucket_count : ℕ
  pub channel_bucket_count : ℕ
  pub dynamic_writable_account_count : ℕ
  pub fits : Bool

abbrev pub uses_v0_alt : CapacityMode → Bool
uses_v0_alt bls = false
uses_v0_alt bls_v0_alt = true
uses_v0_alt hypothetical_bls = false
uses_v0_alt hypothetical_bls_v0_alt = true

-- `params.x ?? fallback`.
abbrev pub given_or : Option ℕ → ℕ → ℕ
given_or none fallback = fallback
given_or (some value) fallback = value

module _ (web3 : Web3) where
  unfoldable pub estimate_legacy_size : ℕ → SyntheticRound → ℕ → ℕ
  estimate_legacy_size data_length round required_signatures =
      elim (web3.legacy_message_length data_length round.participant_buckets
        round.channel_buckets) [
          | none ↦ max_safe_integer
          | some size ↦ shortvec_length required_signatures + 64 * required_signatures + size
        ]

  unfoldable pub estimate_v0_alt_size : ℕ → SyntheticRound → ℕ
  estimate_v0_alt_size data_length round =
      elim (web3.v0_transaction_length data_length round.participant_buckets
        round.channel_buckets) [ none ↦ max_safe_integer | some size ↦ size ]

  -- The measurement of a round that was built.
  unfoldable pub measure_round :
      CapacityMode → ℕ → ℕ → Option ℕ → Option ℕ → SyntheticRound → Measurement
  measure_round mode participant_count channel_count packet_size signature_size round =
      let packet = given_or packet_size 1232 in
      let signature = given_or signature_size 48 in
      let message_length = length (create_synthetic_message round.blocks 0x05) in
      let data_length = 8 + 4 + message_length + signature in
      let tx_bytes =
        if uses_v0_alt mode
        then estimate_v0_alt_size data_length round
        else estimate_legacy_size data_length round 1 in
      record {
        mode = mode;
        participant_count = participant_count;
        channel_count = channel_count;
        message_bytes = message_length;
        auth_envelope_bytes = 4 + message_length + signature;
        serialized_tx_bytes = tx_bytes;
        remaining_bytes = sub_ℕ packet tx_bytes;
        participant_bucket_count = length round.participant_buckets;
        channel_bucket_count = length round.channel_buckets;
        dynamic_writable_account_count =
            length round.participant_buckets + length round.channel_buckets;
        fits = leb tx_bytes packet;
      }

  unfoldable pub measure_clearing_round_capacity :
      CapacityMode → ℕ → ℕ → Option ℕ → Option ℕ → Outcome Measurement
  measure_clearing_round_capacity mode participant_count channel_count packet_size signature_size =
      do
        round ← build_synthetic_round participant_count channel_count
        ok (measure_round mode participant_count channel_count packet_size signature_size round)
