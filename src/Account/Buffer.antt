-- ===== src/Account/Buffer.antt =====
-- Reads from a Node `Buffer`. A typed read out of range throws; an index out of range gives
-- `undefined`, which is not `0`.
use agon_protocol.Base.{
  ℕ, zero, suc, [], ◌∷◌, take, drop, ap, arith, ◌+◌, ◌-◌, ◌^◌, ◌≤◌, List, Bool, true, not, none,
  some, get_elem?, length, ltb, leb, ◌==◌, if◌then◌else◌, Outcome, ok, throw, out_of_bounds, ◌≡◌,
  le→leb,
}
use agon_protocol.Base.Bytes.{slice, from_le}
use agon_protocol.Base.Int.{ℤ, pos, negsuc}

-- `readUInt8`, `readUInt16LE`, `readUInt32LE` and `readBigUInt64LE`, by the size of the field.
unfoldable pub read_le : ℕ → List ℕ → ℕ → Outcome ℕ
read_le size buffer offset =
    if leb (offset + size) (length buffer)
    then ok (from_le (slice offset (offset + size) buffer))
    else throw out_of_bounds

-- A 64-bit pattern as a signed number.
unfoldable pub signed64 : ℕ → ℤ
signed64 word = if ltb word (2 ^ 63) then pos word else negsuc (2 ^ 64 - word - 1)

-- `readBigInt64LE`.
unfoldable pub read_i64 : List ℕ → ℕ → Outcome ℤ
unfolding read_le signed64
read_i64 buffer offset =
    if leb (offset + 8) (length buffer)
    then ok (signed64 (from_le (slice offset (offset + 8) buffer)))
    else throw out_of_bounds

-- `data[offset] !== 0`.
unfoldable pub is_set : List ℕ → ℕ → Bool
is_set buffer offset = elim (get_elem? buffer offset) [ none ↦ true | some byte ↦ not (byte == 0) ]

-- `new PublicKey(data.subarray(offset, offset + 32))`, kept as its bytes.
abbrev pub read_pubkey : List ℕ → ℕ → List ℕ
read_pubkey buffer offset = slice offset (offset + 32) buffer

-- A field inside the buffer is read.
pub read_le_inside :
    (size : ℕ) (buffer : List ℕ) (offset : ℕ)
    → offset + size ≤ length buffer
    → read_le size buffer offset ≡ ok (from_le (slice offset (offset + size) buffer))
unfolding read_le
read_le_inside size buffer offset h = rw (le→leb _ _ h)

pub read_i64_inside :
    (buffer : List ℕ) (offset : ℕ)
    → offset + 8 ≤ length buffer
    → read_i64 buffer offset ≡ ok (signed64 (from_le (slice offset (offset + 8) buffer)))
unfolding read_i64
read_i64_inside buffer offset h = rw (le→leb _ _ h)

-- One byte, read in the two ways.
pub byte_inside :
    (buffer : List ℕ) (offset : ℕ)
    → offset + 1 ≤ length buffer
    → get_elem? buffer offset ≡ some (from_le (slice offset (offset + 1) buffer))
unfolding from_le
byte_inside buffer offset h =
    let one : offset + 1 - offset ≡ 1 = omega arith in rw one (drop_head buffer offset h)
  where
    drop_head :
        (bytes : List ℕ) (n : ℕ)
        → n + 1 ≤ length bytes
        → get_elem? bytes n ≡ some (from_le (take 1 (drop n bytes)))
    drop_head [] n p = absurd (omega arith)
    drop_head (b ∷ bs) zero p = ap some (omega arith)
    drop_head (b ∷ bs) (suc n) p = drop_head bs n (omega arith)

-- A flag is a byte that is 0 or 1. `=== 1` and `!== 0` agree on it.
abbrev pub IsFlag : List ℕ → ℕ → Type 0
IsFlag buffer offset = from_le (slice offset (offset + 1) buffer) ≤ 1

pub is_set-flag :
    (buffer : List ℕ) (offset : ℕ)
    → offset + 1 ≤ length buffer
    → IsFlag buffer offset
    → is_set buffer offset ≡ (from_le (slice offset (offset + 1) buffer) == 1)
unfolding is_set
is_set-flag buffer offset h flag = rw (byte_inside buffer offset h, is_set) (ground arith)
