-- ===== src/Tests/Messages.antt =====
-- Messages written by the client and read by the program, and compact numbers.
use agon_protocol.Base.{
  ◌≢◌, ◌⊎◌, invalid_clearing_round_message, ℕ, ◌+◌, ◌^◌, List, [], ◌∷◌, ◌++◌, none, some, ltb,
  lt→ltb, if◌then◌else◌, ok, throw, ◌≡◌, refl, arith, length, map, bn_too_long, compact_negative,
  invalid_commitment_message,
}
use agon_protocol.Base.Bytes.{le_bytes}
use agon_protocol.Base.Int.{pos, negsuc}
use agon_protocol.Compact.{
  encode_bytes, encode_loop, encode_compact_u64, read_varint_u64, read_loop, read_round,
}
use agon_protocol.Compact.Decode.{read_varint_u64-encode_compact_u64}
use agon_protocol.Message.Client.{
  version_byte, BigNumber, RoundParams, CommitmentParams, create_clearing_round_message,
  create_commitment_message, chosen_amount,
}
use agon_protocol.Message.Program.{
  Layout, read_clearing_round, parse_clearing_round_layout, parse_commitment_message,
}
use agon_protocol.Message.Rounds.{block_of, channels_of}
use agon_protocol.Message.Settled.{RoundFits, read_clearing_round-create_clearing_round_message}
use agon_protocol.Message.Commitments.{
  CommitmentFits, commitment_of, parse_commitment_message-create_commitment_message,
}

encode_300 : encode_compact_u64 (pos 300) ≡ ok (172 ∷ 2 ∷ [])
unfolding encode_compact_u64 encode_bytes encode_loop
encode_300 = refl

encode_negative : encode_compact_u64 (negsuc 0) ≡ throw compact_negative
unfolding encode_compact_u64
encode_negative = refl

-- An eleventh byte, or a tenth above 1, is refused.
read_too_large :
    read_varint_u64 invalid_commitment_message
      (record { offset = 0; rest = 255 ∷ 255 ∷ 255 ∷ 255 ∷ 255 ∷ 255 ∷ 255 ∷ 255 ∷ 255 ∷ 2 ∷ [] })
    ≡ throw invalid_commitment_message
unfolding read_varint_u64 read_loop read_round
read_too_large = refl

read_varint_u64-encode_compact_u64_example :
    (bytes : List ℕ) × (encode_compact_u64 (pos 300) ≡ ok bytes)
    × (read_varint_u64 invalid_commitment_message (record { offset = 19; rest = bytes ++ (7 ∷ []) })
        ≡ ok (300, record { offset = 19 + length bytes; rest = 7 ∷ [] }))
read_varint_u64-encode_compact_u64_example =
    read_varint_u64-encode_compact_u64 300 19 (7 ∷ []) invalid_commitment_message (omega arith)

abbrev pub node_bn : BigNumber
node_bn = record {
  to_array_like =
      λ value size. if ltb value (256 ^ size) then ok (le_bytes size value) else throw bn_too_long;
  fits = λ value size h. rw (lt→ltb value (256 ^ size) h);
}

abbrev pub domain : List ℕ
domain = 1 ∷ 2 ∷ 3 ∷ 4 ∷ 5 ∷ 6 ∷ 7 ∷ 8 ∷ 9 ∷ 10 ∷ 11 ∷ 12 ∷ 13 ∷ 14 ∷ 15 ∷ 16 ∷ []

-- Two payers, who pay each other and a third.
abbrev round : RoundParams
round = record {
  token_id = 7;
  message_domain = domain;
  blocks =
      record {
        participant_id = pos 3;
        entries =
            record { payee_ref = 1; target_cumulative = pos 1_000_000 }
            ∷ record { payee_ref = 2; target_cumulative = pos 5 }
            ∷ [];
      }
      ∷ record {
        participant_id = pos 400;
        entries = record { payee_ref = 0; target_cumulative = pos 250 } ∷ [];
      }
      ∷ [];
  version = some 5;
}

round-RoundFits : RoundFits round
round-RoundFits = record {
  token = omega arith;
  domain = refl;
  some_block = omega arith;
  few_blocks = omega arith;
  blocks = (
    (omega arith, omega arith, ((omega arith, omega arith), ((omega arith, omega arith), tt))),
    ((omega arith, omega arith, ((omega arith, omega arith), tt)), tt),
  );
}

read_clearing_round-create_clearing_round_message_example :
    (msg : List ℕ) × (create_clearing_round_message node_bn round ≡ ok msg)
    × (((version_byte round.version ≡ 0x05)
          × (read_clearing_round msg domain ≡ ok (7, map block_of round.blocks))
          × (layout : Layout) × (parse_clearing_round_layout msg domain 0x05 ≡ ok layout)
          × (layout.channel_count ≡ channels_of round.blocks))
        ⊎ ((version_byte round.version ≢ 0x05)
            × (read_clearing_round msg domain ≡ throw invalid_clearing_round_message)))
read_clearing_round-create_clearing_round_message_example =
    read_clearing_round-create_clearing_round_message node_bn round round-RoundFits

abbrev pub commitment : CommitmentParams
commitment = record {
  payer_id = pos 3;
  payee_id = pos 400;
  committed_amount = none;
  amount = some (pos 1_000_000);
  token_id = 7;
  message_domain = domain;
}

pub commitment-CommitmentFits : CommitmentFits commitment (pos 1_000_000)
unfolding chosen_amount
commitment-CommitmentFits = record {
  chosen = refl;
  payer = omega arith;
  payee = omega arith;
  amount = omega arith;
  token = omega arith;
  domain = refl;
}

parse_commitment_message-create_commitment_message_example :
    (msg : List ℕ) × (create_commitment_message node_bn commitment ≡ ok msg)
    × (parse_commitment_message msg domain ≡ ok (commitment_of commitment (pos 1_000_000)))
parse_commitment_message-create_commitment_message_example =
    parse_commitment_message-create_commitment_message node_bn commitment (pos 1_000_000)
      commitment-CommitmentFits
