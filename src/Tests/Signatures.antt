-- ===== src/Tests/Signatures.antt =====
-- Two entries of an instruction for the Ed25519 program.
use agon_protocol.Base.{
  map, none, some, ◌>>=◌, ltb→lt, ℕ, List, [], ◌∷◌, ◌++◌, length, ok, ◌≡◌, refl, arith,
}
use agon_protocol.Base.Bytes.{le_bytes}
use agon_protocol.Bls.{zero_buffer}
use agon_protocol.Ed25519.{
  Signer, SignedEntry, cursor_after, create_multi_message_ed25519_instruction,
}
use agon_protocol.Base.Int.{pos}
use agon_protocol.Compact.{encode_bytes, encode_loop}
use agon_protocol.Message.Client.{CommitmentParams, chosen_amount}
use agon_protocol.Message.Commitments.{CommitmentFits}
use agon_protocol.Tests.Messages.{node_bn, domain, commitment, commitment-CommitmentFits}
use agon_protocol.Ed25519.Bundle.{BundleChannel, bundle_instruction, parse_bundle}
use agon_protocol.Ed25519.BundleRead.{read_of, parse_bundle-bundle_instruction}
use agon_protocol.Ed25519.RoundTrip.{Carries, create_multi_message_ed25519_instruction-Carries}

-- A signer whose signatures end in the length of the message.
abbrev signer : ℕ → Signer
signer mark = record {
  public_key = zero_buffer 31 ++ (mark ∷ []);
  sign = λ message. zero_buffer 63 ++ (length message ∷ []);
}

abbrev first_entry : SignedEntry
first_entry = record { signer = signer 7; message = 1 ∷ 2 ∷ 3 ∷ [] }

abbrev second_entry : SignedEntry
second_entry = record { signer = signer 9; message = 4 ∷ 5 ∷ [] }

create_multi_message_ed25519_instruction-Carries_example :
    (ix_data : List ℕ) × (create_multi_message_ed25519_instruction (first_entry ∷ second_entry ∷ [])
      ≡ ok ix_data)
    × Carries ix_data 1 second_entry
unfolding cursor_after zero_buffer
create_multi_message_ed25519_instruction-Carries_example =
    create_multi_message_ed25519_instruction-Carries (first_entry ∷ second_entry ∷ []) 1
      second_entry (omega arith) (omega arith) ((refl, refl), ((refl, refl), tt)) refl

-- Another payer of the same payee.
abbrev other_commitment : CommitmentParams
other_commitment = record commitment { payer_id = pos 5; amount = some (pos 70) }

other_commitment-CommitmentFits : CommitmentFits other_commitment (pos 70)
unfolding chosen_amount
other_commitment-CommitmentFits = record {
  chosen = refl;
  payer = omega arith;
  payee = omega arith;
  amount = omega arith;
  token = omega arith;
  domain = refl;
}

abbrev chunk : List BundleChannel
chunk =
    record { signer = signer 7; params = commitment }
    ∷ record { signer = signer 9; params = other_commitment }
    ∷ []

parse_bundle-bundle_instruction_example :
    (bundle_instruction node_bn chunk >>= λ ix_data. parse_bundle domain ix_data 2 0 none none)
    ≡ ok (map read_of chunk)
unfolding cursor_after zero_buffer encode_bytes encode_loop le_bytes
parse_bundle-bundle_instruction_example =
    parse_bundle-bundle_instruction node_bn domain 7 (pos 400) chunk
      (
        (commitment-CommitmentFits, refl, refl, refl, (refl, refl)),
        ((other_commitment-CommitmentFits, refl, refl, refl, (refl, refl)), tt),
      )
      (omega arith) (ltb→lt _ _ refl)
