-- ===== src/Ed25519/Bundle.antt =====
-- Bundles of commitments: the entries that scripts/ryvo-protocol-demo.ts signs for
-- `settleCommitmentBundle`, and the loop of
-- programs/ryvo-protocol/src/instructions/settle_commitment_bundle.rs that reads them.
use agon_protocol.Base.{
  ℕ, zero, suc, ◌+◌, List, [], ◌∷◌, Option, none, some, ◌==◌, Bool, true, Outcome, ok, ◌>>=◌, ◌>>◌,
  require, invalid_commitment_message, account_id_mismatch,
}
use agon_protocol.Message.Client.{BigNumber, CommitmentParams, create_commitment_message}
use agon_protocol.Message.Program.{Commitment, parse_commitment_message}
use agon_protocol.Ed25519.{
  Signer, SignedEntry, create_multi_message_ed25519_instruction, parse_ed25519_offsets,
  extract_pubkey, extract_message,
}

-- A channel of a chunk: who signs for its payer, and what is committed.
pub record BundleChannel : Type 0 where
  pub signer : Signer
  pub params : CommitmentParams

module _ (bn : BigNumber) where
  unfoldable pub bundle_entries : List BundleChannel → Outcome (List SignedEntry)
  bundle_entries [] = ok []
  bundle_entries (c ∷ cs) = do
    message ← create_commitment_message bn c.params
    rest ← bundle_entries cs
    ok (record { signer = c.signer; message = message } ∷ rest)

  -- The data of the Ed25519 instruction of a chunk.
  unfoldable pub bundle_instruction : List BundleChannel → Outcome (List ℕ)
  bundle_instruction chunk =
      bundle_entries chunk >>= λ entries. create_multi_message_ed25519_instruction entries

pub record BundleCommitment : Type 0 where
  pub parsed : Commitment
  pub signer_pubkey : List ℕ

-- What an entry must have in common with those before it, which is none at the first.
abbrev pub agrees : Option ℕ → ℕ → Bool
agrees none value = true
agrees (some existing) value = existing == value

module _ (message_domain ix_data : List ℕ) where
  unfoldable pub parse_bundle_entry : ℕ → Outcome BundleCommitment
  parse_bundle_entry i = do
    offsets ← parse_ed25519_offsets ix_data i
    signer_pubkey ← extract_pubkey ix_data offsets
    message ← extract_message ix_data offsets
    parsed ← parse_commitment_message message message_domain
    ok (record { parsed = parsed; signer_pubkey = signer_pubkey })

  -- The loop over the entries from an index on, without the buckets that it collects.
  unfoldable pub parse_bundle : ℕ → ℕ → Option ℕ → Option ℕ → Outcome (List BundleCommitment)
  parse_bundle zero i token_id payee_id = ok []
  parse_bundle (suc count) i token_id payee_id = do
    entry ← parse_bundle_entry i
    require (agrees token_id entry.parsed.token_id) invalid_commitment_message
    require (agrees payee_id entry.parsed.payee_id) account_id_mismatch
    rest ← parse_bundle count (i + 1) (some entry.parsed.token_id) (some entry.parsed.payee_id)
    ok (entry ∷ rest)
