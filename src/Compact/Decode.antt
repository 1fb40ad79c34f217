-- ===== src/Compact/Decode.antt =====
-- The program reads back the numbers that the client writes.
use Prim.Native.Nat.{bit_and}
use native.Mathlib.Nat.{div-add-mod, mul-le-mul_left, mul-le-mul_right, pow-le-pow_right}
use native.Mathlib.Decide.{dec_lt}
use agon_protocol.Base.{
  ℕ, zero, suc, ◌+◌, ◌-◌, ◌*◌, ◌/◌, ◌%◌, ◌^◌, ◌≤◌, ◌<◌, List, ◌∷◌, ◌++◌, ltb, ◌≡◌, refl, arith,
  length, Bool-cases, inl, inr, le→leb, Outcome, ok, Fault, ap, sym, ◌∙◌, ap₂,
}
use agon_protocol.Base.Bits.{and_mask7, and_top, or_above}
use agon_protocol.Base.Powers.{pow-add}
use agon_protocol.Compact.{
  encode_bytes, Cursor, done, more, read_round, read_loop, read_varint_u64, read_varint_u32,
  encode_compact_u64,
}
use agon_protocol.Base.Int.{pos}
use agon_protocol.Compact.Encode.{encode_bytes_last, encode_bytes_more}

-- What a number below 2 ^ b occupies, shifted so that it fits 64 bits.
shifted-lt : (s b w : ℕ) → s + b ≡ 64 → w < 2 ^ b → w * 2 ^ s + 2 ^ s ≤ 2 ^ 64
shifted-lt s b w e h =
    let whole : 2 ^ s * 2 ^ b ≡ 2 ^ 64 = sym (pow-add s b) ∙ ap (λ (t : ℕ). 2 ^ t) e in
    omega (arith, mul-le-mul_left (2 ^ s) h)

round_last :
    (s b w acc : ℕ)
    → s + b ≡ 64
    → w < 2 ^ b
    → w < 128
    → acc < 2 ^ s
    → read_round w s acc ≡ done (acc + w * 2 ^ s)
unfolding read_round
round_last s b w acc e hw small ha =
    ground (arith, and_mask7 w, and_top w, shifted-lt s b w e hw, or_above s acc w)

-- A number that takes a second byte leaves room for it.
second_byte : (b w : ℕ) → w < 2 ^ b → 128 ≤ w → 7 < b
second_byte b w hw large = elim (dec_lt 7 b) [
  | yes h ↦ h
  | no h ↦
      let small : 2 ^ b ≤ 2 ^ 7 = pow-le-pow_right {n = 2} (omega arith) {j = 7} (omega arith) in
      absurd (omega arith)
]

round_more :
    (s b w acc : ℕ)
    → s + b ≡ 64
    → w < 2 ^ b
    → 128 ≤ w
    → acc < 2 ^ s
    → read_round (w % 128 + 128) s acc ≡ more (acc + w % 128 * 2 ^ s)
unfolding read_round
round_more s b w acc e hw large ha =
    let chunk : bit_and (w % 128 + 128) 127 ≡ w % 128 = omega (arith, and_mask7 (w % 128 + 128)) in
    let top : bit_and (w % 128 + 128) 128 ≡ 128 = omega (arith, and_top (w % 128 + 128)) in
    let low : w % 128 * 2 ^ s ≤ w * 2 ^ s = mul-le-mul_right (2 ^ s) (omega arith) in
    rw (chunk, top)
      (ground (arith, second_byte b w hw large, shifted-lt s b w e hw, or_above s acc (w % 128)))

pow_seven : (a : ℕ) → 2 ^ (a + 7) ≡ 128 * 2 ^ a
pow_seven a = omega (arith, pow-add a 7)

-- The lowest seven bits of `w` and the rest, both in their places.
two_parts : (s w : ℕ) → w % 128 * 2 ^ s + w / 128 * 2 ^ (s + 7) ≡ w * 2 ^ s
two_parts s w = omega (
  arith,
  ap (λ (t : ℕ). w / 128 * t) (pow_seven s),
  ap (λ (t : ℕ). t * 2 ^ s) (div-add-mod w 128),
)

group-lt : (s w acc : ℕ) → acc < 2 ^ s → acc + w % 128 * 2 ^ s < 2 ^ (s + 7)
group-lt s w acc h =
    let low : w % 128 ≤ 127 = omega arith in
    omega (arith, pow_seven s, mul-le-mul_right (2 ^ s) low)

quotient-lt : (b w : ℕ) → 7 < b → w < 2 ^ b → w / 128 < 2 ^ (b - 7)
quotient-lt b w hb hw =
    let whole : 2 ^ b ≡ 2 ^ (b - 7 + 7) = ap (λ (t : ℕ). 2 ^ t) (omega arith) in
    omega (arith, pow_seven (b - 7))

abbrev read : ℕ → ℕ → List ℕ → Outcome (ℕ × Cursor)
read value offset rest = ok (value, record { offset = offset; rest = rest })

module _ (byte s acc v offset : ℕ) (rest : List ℕ) (e : Fault) where
  read_loop_done :
      read_round byte s acc ≡ done v
      → read_loop (byte ∷ rest) offset s acc e ≡ read v (offset + 1) rest
  unfolding read_loop
  read_loop_done h = rw (h, read_loop)

  read_loop_more :
      read_round byte s acc ≡ more v
      → read_loop (byte ∷ rest) offset s acc e ≡ read_loop rest (offset + 1) (s + 7) v e
  unfolding read_loop
  read_loop_more h = rw (h, read_loop)

-- `w` is what is still to be read, and it counts from bit `s` on.
read_loop-encode_bytes :
    (n w s b acc offset : ℕ) (rest : List ℕ) (e : Fault)
    → w < n
    → s + b ≡ 64
    → w < 2 ^ b
    → acc < 2 ^ s
    → read_loop (encode_bytes w ++ rest) offset s acc e
      ≡ read (acc + w * 2 ^ s) (offset + length (encode_bytes w)) rest
read_loop-encode_bytes zero w s b acc offset rest e hn hs hw ha = absurd (omega arith)
read_loop-encode_bytes (suc n) w s b acc offset rest e hn hs hw ha = elim (Bool-cases (ltb w 128)) [
  | inl small ↦
      let last = round_last s b w acc hs hw (ground arith) ha in
      rw (encode_bytes_last w (ground arith))
        (read_loop_done w s acc (acc + w * 2 ^ s) offset rest e last)
  | inr large ↦
      let big : 128 ≤ w = ground arith in
      let room = second_byte b w hw big in
      let acc' = acc + w % 128 * 2 ^ s in
      let ih =
        read_loop-encode_bytes n (w / 128) (s + 7) (b - 7) acc' (offset + 1) rest e (omega arith)
          (omega arith) (quotient-lt b w room hw) (group-lt s w acc ha) in
      rw (encode_bytes_more w big) (
        read_loop_more (w % 128 + 128) s acc acc' offset (encode_bytes (w / 128) ++ rest) e
          (round_more s b w acc hs hw big ha)
        ∙ ih
        ∙ ap₂ (λ (v o : ℕ). read v o rest) (omega (arith, two_parts s w)) (omega arith))
]

pub read_varint_u64-encode_bytes :
    (v offset : ℕ) (rest : List ℕ) (e : Fault)
    → v < 2 ^ 64
    → read_varint_u64 e (record { offset = offset; rest = encode_bytes v ++ rest })
      ≡ read v (offset + length (encode_bytes v)) rest
unfolding read_varint_u64
read_varint_u64-encode_bytes v offset rest e h =
    let end = offset + length (encode_bytes v) in
    read_loop-encode_bytes (suc v) v 0 64 0 offset rest e (omega arith) refl h (omega arith)
    ∙ ap (λ (n : ℕ). read n end rest) (omega arith)

pub read_varint_u32-encode_bytes :
    (v offset : ℕ) (rest : List ℕ) (e : Fault)
    → v < 2 ^ 32
    → read_varint_u32 e (record { offset = offset; rest = encode_bytes v ++ rest })
      ≡ read v (offset + length (encode_bytes v)) rest
unfolding read_varint_u32
read_varint_u32-encode_bytes v offset rest e h =
    rw (
      read_varint_u64-encode_bytes v offset rest e (omega arith),
      le→leb v 0xffff_ffff (omega arith),
    )

-- On every 64-bit number the client's `encodeCompactU64` succeeds, the program's `read_varint_u64`
-- reads the number back from what it wrote, and it stops right behind those bytes.
pub read_varint_u64-encode_compact_u64 :
    (v offset : ℕ) (rest : List ℕ) (e : Fault)
    → v < 2 ^ 64
    → (bytes : List ℕ) × (encode_compact_u64 (pos v) ≡ ok bytes)
      × (read_varint_u64 e (record { offset = offset; rest = bytes ++ rest })
          ≡ ok (v, record { offset = offset + length bytes; rest = rest }))
unfolding encode_compact_u64
read_varint_u64-encode_compact_u64 v offset rest e h =
    (encode_bytes v, refl, read_varint_u64-encode_bytes v offset rest e h)
