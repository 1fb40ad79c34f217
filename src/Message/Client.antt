-- ===== src/Message/Client.antt =====
-- The messages as the client writes them: `createClearingRoundMessage` and
-- `createCommitmentMessage` of scripts/ryvo-protocol-demo.ts.
use Prim.Native.Nat.{bit_and}
use agon_protocol.Base.{
  ℕ, ◌%◌, ◌^◌, ◌<◌, List, [], ◌∷◌, ◌++◌, Option, none, some, Outcome, ok, throw, ◌>>=◌, ◌≡◌, length,
  commitment_amount_missing,
}
use agon_protocol.Base.Bytes.{le_bytes}
use agon_protocol.Base.Int.{ℤ}
use agon_protocol.Compact.{encode_compact_u64}

-- bn.js: `new BN(value).toArrayLike(Buffer, "le", size)`. A value that fits the size is written as
-- its little-endian bytes.
pub record BigNumber : Type 0 where
  pub to_array_like : ℕ → ℕ → Outcome (List ℕ)
  pub fits :
      (value size : ℕ) → value < 256 ^ size → to_array_like value size ≡ ok (le_bytes size value)

pub record Entry : Type 0 where
  pub payee_ref : ℕ
  pub target_cumulative : ℤ

pub record Block : Type 0 where
  pub participant_id : ℤ
  pub entries : List Entry

pub record RoundParams : Type 0 where
  pub token_id : ℕ
  pub message_domain : List ℕ
  pub blocks : List Block
  pub version : Option ℕ

unfoldable pub encode_entries : List Entry → Outcome (List ℕ)
encode_entries [] = ok []
encode_entries (e ∷ es) = do
  amount ← encode_compact_u64 e.target_cumulative
  rest ← encode_entries es
  ok (bit_and e.payee_ref 0xff ∷ (amount ++ rest))

unfoldable pub encode_blocks : List Block → Outcome (List ℕ)
encode_blocks [] = ok []
encode_blocks (b ∷ bs) = do
  id ← encode_compact_u64 b.participant_id
  entries ← encode_entries b.entries
  rest ← encode_blocks bs
  ok (id ++ (bit_and (length b.entries) 0xff ∷ (entries ++ rest)))

-- `params.version ?? 0x04`, as the byte that `Buffer.from` keeps.
abbrev pub version_byte : Option ℕ → ℕ
version_byte none = 0x04
version_byte (some version) = version % 256

pub record CommitmentParams : Type 0 where
  pub payer_id : ℤ
  pub payee_id : ℤ
  pub committed_amount : Option ℤ
  pub amount : Option ℤ
  pub token_id : ℕ
  pub message_domain : List ℕ

-- `params.committedAmount ?? params.amount`, which must be given.
unfoldable pub chosen_amount : Option ℤ → Option ℤ → Outcome ℤ
chosen_amount (some committed) amount = ok committed
chosen_amount none (some amount) = ok amount
chosen_amount none none = throw commitment_amount_missing

module _ (bn : BigNumber) where
  unfoldable pub create_clearing_round_message : RoundParams → Outcome (List ℕ)
  create_clearing_round_message p = do
    dynamic ← encode_blocks p.blocks
    token ← bn.to_array_like p.token_id 2
    ok (
        0x02
        ∷ version_byte p.version
        ∷ (p.message_domain ++ (token ++ (bit_and (length p.blocks) 0xff ∷ dynamic))))

  unfoldable pub create_commitment_message : CommitmentParams → Outcome (List ℕ)
  create_commitment_message p = do
    committed ← chosen_amount p.committed_amount p.amount
    payer ← encode_compact_u64 p.payer_id
    payee ← encode_compact_u64 p.payee_id
    token ← bn.to_array_like p.token_id 2
    amount ← encode_compact_u64 committed
    ok (0x01 ∷ 0x05 ∷ (p.message_domain ++ (0x00 ∷ (payer ++ (payee ++ (token ++ amount))))))
