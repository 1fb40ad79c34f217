-- ===== src/Message/Program.antt =====
-- The messages as the program reads them: instructions/clearing_round_message.rs, the two passes of
-- instructions/settle_clearing_round.rs over a round, and `parse_commitment_message` of
-- instructions/settle_individual.rs.
use Prim.Native.Nat.{bit_and}
use agon_protocol.Base.{
  ℕ, zero, suc, ◌+◌, List, [], ◌∷◌, ◌&&◌, Option, none, some, ltb, leb, ◌==◌, Outcome, ok, throw,
  ◌>>=◌, ◌>>◌, require, Fault, length, drop, if◌then◌else◌, invalid_clearing_round_message,
  invalid_message_domain, invalid_commitment_message,
}
use agon_protocol.Base.Bytes.{byte_at, slice, eq_bytes, from_le}
use agon_protocol.Compact.{Cursor, read_varint_u64, read_varint_u32}

pub record BlockMeta : Type 0 where
  pub participant_id : ℕ
  pub entry_count : ℕ
  pub entries_offset : ℕ

pub record ChannelEntry : Type 0 where
  pub payee_ref : ℕ
  pub target_cumulative : ℕ

pub record Layout : Type 0 where
  pub token_id : ℕ
  pub blocks : List BlockMeta
  pub channel_count : ℕ

-- `require!(*offset < msg.len()); msg[*offset]; *offset += 1`.
unfoldable pub read_byte : Fault → Cursor → Outcome (ℕ × Cursor)
read_byte e c = elim c.rest [
  | [] ↦ throw e
  | b ∷ rest ↦ ok (b, record { offset = c.offset + 1; rest = rest })
]

unfoldable pub parse_channel_entry : Cursor → Outcome (ChannelEntry × Cursor)
parse_channel_entry c = do
  (payee_ref, c₁) ← read_byte invalid_clearing_round_message c
  (target, c₂) ← read_varint_u64 invalid_clearing_round_message c₁
  ok (record { payee_ref = payee_ref; target_cumulative = target }, c₂)

-- `for _ in 0..entry_count { parse_channel_entry(msg, &mut offset)? }`.
unfoldable pub parse_entries : ℕ → Cursor → Outcome (List ChannelEntry × Cursor)
parse_entries zero c = ok ([], c)
parse_entries (suc n) c = do
  (entry, c₁) ← parse_channel_entry c
  (entries, c₂) ← parse_entries n c₁
  ok (entry ∷ entries, c₂)

-- `for _ in 0..participant_count { … }`, with the running `channel_count`.
unfoldable pub parse_blocks : ℕ → ℕ → Cursor → Outcome (List BlockMeta × ℕ × Cursor)
parse_blocks zero channel_count c = ok ([], channel_count, c)
parse_blocks (suc n) channel_count c = do
  (id, c₁) ← read_varint_u32 invalid_clearing_round_message c
  (entry_count, c₂) ← read_byte invalid_clearing_round_message c₁
  (entries, c₃) ← parse_entries entry_count c₂
  (blocks, total, c₄) ← parse_blocks n (channel_count + entry_count) c₃
  ok (
    record { participant_id = id; entry_count = entry_count; entries_offset = c₂.offset } ∷ blocks,
    total,
    c₄,
  )

-- `msg[offset..]`.
abbrev pub cursor_at : List ℕ → ℕ → Cursor
cursor_at msg offset = record { offset = offset; rest = drop offset msg }

-- The token and the number of participants.
unfoldable pub parse_clearing_round_header : List ℕ → List ℕ → ℕ → Outcome (ℕ × ℕ)
parse_clearing_round_header msg domain version = do
  require (leb 21 (length msg)) invalid_clearing_round_message
  require (byte_at msg 0 == 0x02 && byte_at msg 1 == version) invalid_clearing_round_message
  require (eq_bytes (slice 2 18 msg) domain) invalid_message_domain
  require (ltb 0 (byte_at msg 20)) invalid_clearing_round_message
  ok (from_le (slice 18 20 msg), byte_at msg 20)

unfoldable pub parse_clearing_round_layout : List ℕ → List ℕ → ℕ → Outcome Layout
parse_clearing_round_layout msg domain version = do
  (token_id, participant_count) ← parse_clearing_round_header msg domain version
  (blocks, channel_count, c) ← parse_blocks participant_count 0 (cursor_at msg 21)
  require (c.offset == length msg) invalid_clearing_round_message
  ok (record { token_id = token_id; blocks = blocks; channel_count = channel_count })

-- The second pass of `settle_clearing_round`: the entries of each block are read again at the
-- offset that the layout recorded.
unfoldable pub reread_blocks : List ℕ → List BlockMeta → Outcome (List (ℕ × List ChannelEntry))
reread_blocks msg [] = ok []
reread_blocks msg (m ∷ ms) = do
  (entries, c) ← parse_entries m.entry_count (cursor_at msg m.entries_offset)
  rest ← reread_blocks msg ms
  ok ((m.participant_id, entries) ∷ rest)

-- `BLS_CLEARING_ROUND_MESSAGE_VERSION`.
abbrev pub bls_clearing_round_message_version : ℕ
bls_clearing_round_message_version = 0x05

-- What `settle_clearing_round` takes from a message: token, and each payer with its entries.
unfoldable pub read_clearing_round : List ℕ → List ℕ → Outcome (ℕ × List (ℕ × List ChannelEntry))
read_clearing_round msg domain = do
  layout ← parse_clearing_round_layout msg domain bls_clearing_round_message_version
  blocks ← reread_blocks msg layout.blocks
  ok (layout.token_id, blocks)

pub record Commitment : Type 0 where
  pub payer_id : ℕ
  pub payee_id : ℕ
  pub token_id : ℕ
  pub committed_amount : ℕ
  pub authorized_settler : Option (List ℕ)

-- `authorized_settler`, if the flag is set: the next 32 bytes.
unfoldable pub read_settler : ℕ → List ℕ → ℕ → Outcome (Option (List ℕ) × ℕ)
read_settler flags msg offset =
    if bit_and flags 1 == 0
    then ok (none, offset)
    else if leb (offset + 32) (length msg)
    then ok (some (slice offset (offset + 32) msg), offset + 32)
    else throw invalid_commitment_message

unfoldable pub parse_commitment_message : List ℕ → List ℕ → Outcome Commitment
parse_commitment_message msg domain = do
  require (leb 24 (length msg)) invalid_commitment_message
  require (byte_at msg 0 == 0x01 && byte_at msg 1 == 0x05) invalid_commitment_message
  require (eq_bytes (slice 2 18 msg) domain) invalid_message_domain
  let flags = byte_at msg 18
  require (bit_and flags 0xfe == 0) invalid_commitment_message
  (payer_id, c₁) ← read_varint_u32 invalid_commitment_message (cursor_at msg 19)
  (payee_id, c₂) ← read_varint_u32 invalid_commitment_message c₁
  require (leb (c₂.offset + 2) (length msg)) invalid_commitment_message
  let token_id = from_le (slice c₂.offset (c₂.offset + 2) msg)
  (amount, c₃) ← read_varint_u64 invalid_commitment_message (cursor_at msg (c₂.offset + 2))
  (settler, end) ← read_settler flags msg c₃.offset
  require (end == length msg) invalid_commitment_message
  ok (record {
    payer_id = payer_id;
    payee_id = payee_id;
    token_id = token_id;
    committed_amount = amount;
    authorized_settler = settler;
  })
