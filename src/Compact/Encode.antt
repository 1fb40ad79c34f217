-- ===== src/Compact/Encode.antt =====
-- What `encodeCompactU64` writes, in plain arithmetic.
use native.Mathlib.Nat.{pow-suc}
use agon_protocol.Base.{
  ℕ, zero, suc, ◌+◌, ◌/◌, ◌%◌, ◌^◌, ◌≤◌, ◌<◌, [], ◌∷◌, ltb, ◌≡◌, arith, length, All, Bool-cases,
  inl, inr, tests,
}
use agon_protocol.Base.Bits.{and_mask7, or_top}
use agon_protocol.Compact.{encode_loop, encode_bytes}

abbrev pub IsByte : ℕ → Type 0
IsByte b = b < 256

loop_last : (rounds v : ℕ) → v < 128 → encode_loop (suc rounds) v ≡ v ∷ []
unfolding encode_loop
loop_last rounds v h = ground (arith, and_mask7 v)

loop_more :
    (rounds v : ℕ)
    → 128 ≤ v
    → encode_loop (suc rounds) v ≡ (v % 128 + 128) ∷ encode_loop rounds (v / 128)
unfolding encode_loop
loop_more rounds v h = ground (arith, and_mask7 v, or_top (v % 128))

-- The count of rounds does not matter, once it is above the value.
encode_loop-enough : (m n v : ℕ) → v < m → v < n → encode_loop m v ≡ encode_loop n v
encode_loop-enough zero n v hm hn = absurd (omega arith)
encode_loop-enough (suc m) zero v hm hn = absurd (omega arith)
encode_loop-enough (suc m) (suc n) v hm hn = ground (
  arith,
  loop_last m v,
  loop_last n v,
  loop_more m v,
  loop_more n v,
  encode_loop-enough m n (v / 128),
)

pub encode_bytes_last : (v : ℕ) → v < 128 → encode_bytes v ≡ v ∷ []
unfolding encode_bytes
encode_bytes_last v h = loop_last v v h

pub encode_bytes_more :
    (v : ℕ) → 128 ≤ v → encode_bytes v ≡ (v % 128 + 128) ∷ encode_bytes (v / 128)
unfolding encode_bytes
encode_bytes_more v h =
    ground (arith, loop_more v v h, encode_loop-enough v (suc (v / 128)) (v / 128))

-- A number below 128 ^ (k + 1) takes at most k + 1 bytes.
pub encode_bytes_shape :
    (k v : ℕ)
    → v < 128 ^ suc k
    → All IsByte (encode_bytes v)
      × (1 ≤ length (encode_bytes v))
      × (length (encode_bytes v) ≤ suc k)
encode_bytes_shape zero v h = rw (encode_bytes_last v (omega arith)) (omega arith)
encode_bytes_shape (suc k) v h = elim (Bool-cases (ltb v 128)) [
  | inl small ↦ rw (encode_bytes_last v (ground arith)) (omega tests)
  | inr large ↦
      let (bytes, lower, upper) =
        encode_bytes_shape k (v / 128) (omega (arith, pow-suc 128 (suc k))) in
      rw (encode_bytes_more v (ground arith)) ((omega arith, bytes), omega arith, omega arith)
]
