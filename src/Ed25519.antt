-- ===== src/Ed25519.antt =====
-- Instructions for the Ed25519 program: `createMultiMessageEd25519Instruction` of
-- scripts/ryvo-protocol-demo.ts writes them, and programs/ryvo-protocol/src/ed25519.rs reads them. A key
-- is the list of its bytes, and what a signer signs is a parameter.
pub mod Written
pub mod Layout
pub mod RoundTrip
pub mod Bundle
pub mod BundleRead
use agon_protocol.Base.{
  ℕ, ◌+◌, ◌-◌, ◌*◌, ◌%◌, ◌&&◌, ltb, leb, ◌==◌, if◌then◌else◌, List, [], ◌∷◌, ◌++◌, length, take,
  drop, Outcome, ok, throw, ◌>>=◌, ◌>>◌, require, value_out_of_range, invalid_ed25519_data,
}
use agon_protocol.Base.Bytes.{byte_at, slice, le_bytes, from_le}
use agon_protocol.Bls.{zero_buffer}

pub record Signer : Type 0 where
  pub public_key : List ℕ
  pub sign : List ℕ → List ℕ

pub record SignedEntry : Type 0 where
  pub signer : Signer
  pub message : List ℕ

pub record Row : Type 0 where
  pub signature_offset : ℕ
  pub public_key_offset : ℕ
  pub message_offset : ℕ
  pub message_length : ℕ

-- `bytes.copy(data, offset)`: what reaches beyond the end is not copied.
unfoldable pub copy_into : ℕ → List ℕ → List ℕ → List ℕ
copy_into offset bytes whole =
    take offset whole ++ (take (length whole - offset) bytes ++ drop (offset + length bytes) whole)

-- `data.writeUInt16LE(value, offset)`.
unfoldable pub write_u16 : ℕ → ℕ → List ℕ → Outcome (List ℕ)
write_u16 value offset whole =
    if ltb value 65536 && leb (offset + 2) (length whole)
    then ok (copy_into offset (le_bytes 2 value) whole)
    else throw value_out_of_range

-- Values that are written one behind the other.
unfoldable pub write_u16s : ℕ → List ℕ → List ℕ → Outcome (List ℕ)
write_u16s offset [] whole = ok whole
write_u16s offset (value ∷ values) whole =
    write_u16 value offset whole >>= λ part. write_u16s (offset + 2) values part

-- The row of an entry whose key stands at a position.
abbrev pub row_of : ℕ → SignedEntry → Row
row_of cursor e = record {
  signature_offset = cursor + 32;
  public_key_offset = cursor;
  message_offset = cursor + 32 + 64;
  message_length = length e.message;
}

-- What the loop over the entries collects, from a cursor on.
unfoldable pub rows_from : ℕ → List SignedEntry → List Row
rows_from cursor [] = []
rows_from cursor (e ∷ es) = row_of cursor e ∷ rows_from (cursor + 32 + 64 + length e.message) es

unfoldable pub buffers_of : List SignedEntry → List (List ℕ)
buffers_of [] = []
buffers_of (e ∷ es) = e.signer.public_key ∷ e.signer.sign e.message ∷ e.message ∷ buffers_of es

unfoldable pub cursor_after : ℕ → List SignedEntry → ℕ
cursor_after cursor [] = cursor
cursor_after cursor (e ∷ es) = cursor_after (cursor + 32 + 64 + length e.message) es

-- The values at `headerOffset`, 2, 4, … behind it.
abbrev pub row_values : Row → List ℕ
row_values row =
    row.signature_offset ∷ 0xffff ∷ row.public_key_offset ∷ 0xffff ∷ row.message_offset
    ∷ row.message_length ∷ 0xffff ∷ []

unfoldable pub write_rows : ℕ → List Row → List ℕ → Outcome (List ℕ)
write_rows index [] whole = ok whole
write_rows index (row ∷ rows) whole =
    write_u16s (2 + index * 14) (row_values row) whole >>= λ part. write_rows (index + 1) rows part

unfoldable pub write_buffers : ℕ → List (List ℕ) → List ℕ → List ℕ
write_buffers offset [] whole = whole
write_buffers offset (buffer ∷ buffers) whole =
    write_buffers (offset + length buffer) buffers (copy_into offset buffer whole)

-- The data of the instruction.
unfoldable pub create_multi_message_ed25519_instruction : List SignedEntry → Outcome (List ℕ)
create_multi_message_ed25519_instruction entries =
    let header_size = 2 + 14 * length entries in
    let whole = zero_buffer (cursor_after header_size entries) in
    let counted = copy_into 1 (0 ∷ []) (copy_into 0 (length entries % 256 ∷ []) whole) in
    write_rows 0 (rows_from header_size entries) counted >>= λ headed.
    ok (write_buffers header_size (buffers_of entries) headed)

pub record SignatureOffsets : Type 0 where
  pub signature_offset : ℕ
  pub signature_instruction_index : ℕ
  pub public_key_offset : ℕ
  pub public_key_instruction_index : ℕ
  pub message_data_offset : ℕ
  pub message_data_size : ℕ
  pub message_instruction_index : ℕ

unfoldable pub require_self_contained_offsets : SignatureOffsets → Outcome (Unit {0})
require_self_contained_offsets offsets =
    require
      (offsets.signature_instruction_index == 0xffff
        && offsets.public_key_instruction_index == 0xffff
        && offsets.message_instruction_index == 0xffff)
      invalid_ed25519_data

-- The number at an index of a header, of two bytes.
abbrev pub u16_at : List ℕ → ℕ → ℕ
u16_at whole index = from_le (byte_at whole index ∷ byte_at whole (index + 1) ∷ [])

unfoldable pub offsets_of : List ℕ → SignatureOffsets
offsets_of whole = record {
  signature_offset = u16_at whole 0;
  signature_instruction_index = u16_at whole 2;
  public_key_offset = u16_at whole 4;
  public_key_instruction_index = u16_at whole 6;
  message_data_offset = u16_at whole 8;
  message_data_size = u16_at whole 10;
  message_instruction_index = u16_at whole 12;
}

unfoldable pub parse_ed25519_offsets : List ℕ → ℕ → Outcome SignatureOffsets
parse_ed25519_offsets ix_data sig_index = do
  require (leb 2 (length ix_data)) invalid_ed25519_data
  let num_sigs = byte_at ix_data 0
  require (ltb 0 num_sigs && ltb sig_index num_sigs) invalid_ed25519_data
  let header_start = 2 + sig_index * 14
  require (leb (header_start + 14) (length ix_data)) invalid_ed25519_data
  let offsets = offsets_of (slice header_start (header_start + 14) ix_data)
  require_self_contained_offsets offsets
  ok offsets

unfoldable pub extract_pubkey : List ℕ → SignatureOffsets → Outcome (List ℕ)
extract_pubkey ix_data offsets = do
  require (leb (offsets.public_key_offset + 32) (length ix_data)) invalid_ed25519_data
  ok (slice offsets.public_key_offset (offsets.public_key_offset + 32) ix_data)

unfoldable pub extract_message : List ℕ → SignatureOffsets → Outcome (List ℕ)
extract_message ix_data offsets = do
  require (leb (offsets.message_data_offset + offsets.message_data_size) (length ix_data))
      invalid_ed25519_data
  ok (
      slice offsets.message_data_offset (offsets.message_data_offset + offsets.message_data_size)
        ix_data)
