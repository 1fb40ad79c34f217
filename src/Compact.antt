-- ===== src/Compact.antt =====
-- Compact numbers: `encodeCompactU64` of scripts/ryvo-protocol-demo.ts, which writes seven bits to a
-- byte, lowest first, and `read_varint_u64` of programs/ryvo-protocol, which reads them back.
pub mod Encode
pub mod Decode
use Prim.Native.Nat.{bit_and, bit_or}
use agon_protocol.Base.{
  ℕ, zero, suc, ◌+◌, ◌*◌, ◌/◌, ◌%◌, ◌^◌, ◌<◌, List, [], ◌∷◌, ◌&&◌, ltb, leb, ◌==◌, if◌then◌else◌,
  Outcome, ok, throw, ◌>>=◌, ◌>>◌, require, Fault, compact_negative, invalid_clearing_round_message,
}
use agon_protocol.Base.Int.{ℤ, pos, negsuc}

-- The body of the `do … while (remaining > 0n)` loop. The count is of the rounds that are allowed;
-- `encode_loop-enough` shows that `value + 1` of them are never used up.
unfoldable pub encode_loop : ℕ → ℕ → List ℕ
encode_loop zero remaining = []
encode_loop (suc rounds) remaining =
    let byte = bit_and remaining 0x7f in
    let rest = encode_loop rounds (remaining / 128) in
    if ltb 0 (remaining / 128) then bit_or byte 0x80 ∷ rest else byte ∷ []

-- `encodeCompactU64` on a value that is not negative.
unfoldable pub encode_bytes : ℕ → List ℕ
encode_bytes value = encode_loop (suc value) value

unfoldable pub encode_compact_u64 : ℤ → Outcome (List ℕ)
encode_compact_u64 (negsuc n) = throw compact_negative
encode_compact_u64 (pos value) = ok (encode_bytes value)

-- What is left of a message, with the offset at which it begins: `rest` is `msg[offset..]`.
pub record Cursor : Type 0 where
  pub offset : ℕ
  pub rest : List ℕ

-- One round of the loop of `read_varint_u64`, on the byte that it read. `chunk << shift` is
-- computed in 64 bits; `shift` is below 64, so `checked_shl` always gives a value.
pub data Round : Type 0 where
  done : ℕ → Round
  more : ℕ → Round
  refused : Round

unfoldable pub read_round : ℕ → ℕ → ℕ → Round
read_round byte shift value =
    let chunk = bit_and byte 0x7f in
    let value' = bit_or value (chunk * 2 ^ shift % 2 ^ 64) in
    if ltb 1 chunk && shift == 63
    then refused
    else if bit_and byte 0x80 == 0
    then done value'
    else if ltb (shift + 7) 64
    then more value'
    else refused

-- The loop, on the bytes that are left. It stops on every input: each round takes a byte.
unfoldable pub read_loop : List ℕ → ℕ → ℕ → ℕ → Fault → Outcome (ℕ × Cursor)
read_loop [] offset shift value e = throw e
read_loop (byte ∷ rest) offset shift value e = elim (read_round byte shift value) [
  | done v ↦ ok (v, record { offset = offset + 1; rest = rest })
  | more v ↦ read_loop rest (offset + 1) (shift + 7) v e
  | refused ↦ throw e
]

-- `read_varint_u64(msg, &mut offset)`: the number, and the cursor behind it. The two copies of the
-- routine differ in the error alone.
unfoldable pub read_varint_u64 : Fault → Cursor → Outcome (ℕ × Cursor)
read_varint_u64 e c = read_loop c.rest c.offset 0 0 e

unfoldable pub read_varint_u32 : Fault → Cursor → Outcome (ℕ × Cursor)
read_varint_u32 e c = do
  (value, c') ← read_varint_u64 e c
  require (leb value 0xffff_ffff) e
  ok (value, c')
