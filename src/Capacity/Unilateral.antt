-- ===== src/Capacity/Unilateral.antt =====
-- scripts/lib/unilateral-settlement-capacity.ts: how many commitments fit a settlement transaction.
-- The accounts of a bundle, `uniquePublicKey(seed)`, are their seeds.
pub mod Bundle
use agon_protocol.Base.{
  ℕ, zero, suc, ◌+◌, ◌-◌, ◌*◌, Bool, true, false, leb, if◌then◌else◌, Option, none, some, List, [],
  ◌∷◌, Outcome, ok, ◌>>=◌,
}
use agon_protocol.Base.Int.{ℤ, sub_ℕ}
use agon_protocol.Capacity.Measure.{given_or, max_safe_integer, shortvec_length}
use agon_protocol.Capacity.Search.{grow}

-- @solana/web3.js: the length of the message, or of the signed transaction, of an Ed25519 instruction
-- with so many bytes of data and a settlement of these accounts. `none` is a throw.
pub record SettlementWeb3 : Type 0 where
  pub individual_message_length : ℕ → List ℕ → Option ℕ
  pub bundle_transaction_length : ℕ → ℕ → List ℕ → List ℕ → Option ℕ

pub record IndividualMeasurement : Type 0 where
  pub message_bytes : ℕ
  pub serialized_tx_bytes : ℕ
  pub remaining_bytes : ℤ
  pub fits : Bool

pub record BundleMeasurement : Type 0 where
  pub message_bytes : ℕ
  pub entry_count : ℕ
  pub auth_envelope_bytes : ℕ
  pub serialized_tx_bytes : ℕ
  pub remaining_bytes : ℤ
  pub fits : Bool

-- The length of the data of `createSyntheticEd25519Instruction`.
unfoldable pub synthetic_ed25519_length : ℕ → ℕ → Bool → ℕ
synthetic_ed25519_length signature_count message_bytes shared_message =
    2
    + 14 * signature_count
    + signature_count * (32 + 64)
    + (if shared_message then message_bytes else signature_count * message_bytes)

-- `Array.from({ length: count }, (_, index) => uniquePublicKey(first + index))`.
unfoldable pub account_seeds : ℕ → ℕ → List ℕ
account_seeds zero first = []
account_seeds (suc count) first = first ∷ account_seeds count (first + 1)

-- What the estimates make of a length, where a throw is caught.
abbrev pub size_or_max : Option ℕ → ℕ
size_or_max none = max_safe_integer
size_or_max (some size) = size

abbrev pub legacy_size : ℕ → Option ℕ → ℕ
legacy_size required_signatures none = max_safe_integer
legacy_size required_signatures (some size) =
    shortvec_length required_signatures + 64 * required_signatures + size

module _ (web3 : SettlementWeb3) where
  unfoldable pub measure_individual_settlement_capacity : ℕ → Option ℕ → IndividualMeasurement
  measure_individual_settlement_capacity message_bytes packet_size =
      let packet = given_or packet_size 1232 in
      let data_length = synthetic_ed25519_length 1 message_bytes true in
      let tx_bytes =
        legacy_size 1 (web3.individual_message_length data_length (1_000 ∷ 1_001 ∷ 1_002 ∷ [])) in
      record {
        message_bytes = message_bytes;
        serialized_tx_bytes = tx_bytes;
        remaining_bytes = sub_ℕ packet tx_bytes;
        fits = leb tx_bytes packet;
      }

  unfoldable pub measure_bundle_settlement_capacity : ℕ → Option ℕ → ℕ → BundleMeasurement
  measure_bundle_settlement_capacity message_bytes packet_size entry_count =
      let packet = given_or packet_size 1232 in
      let data_length = synthetic_ed25519_length entry_count message_bytes false in
      let tx_bytes = size_or_max (
        web3.bundle_transaction_length data_length 2_000 (account_seeds entry_count 2_100)
          (account_seeds entry_count 3_100)) in
      record {
        message_bytes = message_bytes;
        entry_count = entry_count;
        auth_envelope_bytes = data_length;
        serialized_tx_bytes = tx_bytes;
        remaining_bytes = sub_ℕ packet tx_bytes;
        fits = leb tx_bytes packet;
      }

  -- The loop is `grow`, on counts from 2 on; a measurement does not throw.
  unfoldable pub find_largest_bundle_settlement_entry_count :
      ℕ → Option ℕ → Option ℕ → Outcome BundleMeasurement
  find_largest_bundle_settlement_entry_count message_bytes max_entries packet_size =
      grow (λ (count : ℕ). ok (measure_bundle_settlement_capacity message_bytes packet_size count))
        (λ (m : BundleMeasurement). m.fits) (given_or max_entries 32 - 1) 2
        (measure_bundle_settlement_capacity message_bytes packet_size 1)
