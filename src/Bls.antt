-- ===== src/Bls.antt =====
-- shared/protocol-bls.ts: the scalars that keys and messages are hashed to, and the message that
-- registers a key. SHA-256 is a parameter; the curve operations are left out.
pub mod Scalars
use agon_protocol.Base.{
  ℕ, zero, suc, ◌+◌, ◌-◌, ◌*◌, ◌/◌, ◌%◌, ◌^◌, List, [], ◌∷◌, ◌++◌, leb, ltb, if◌then◌else◌, Outcome,
  ok, throw, ◌>>=◌, ◌>>◌, require, bad_hex, out_of_range,
}
use agon_protocol.Base.Bytes.{eq_bytes, le_bytes}

-- `BigInt("0x…")` of the hexadecimal digits of a buffer: its bytes, highest first.
unfoldable pub be_loop : ℕ → List ℕ → ℕ
be_loop value [] = value
be_loop value (b ∷ bs) = be_loop (value * 256 + b) bs

-- `value.toString(16).padStart(2 * size, "0")`, as bytes, for a value that fits.
unfoldable pub be_bytes : ℕ → ℕ → List ℕ
be_bytes zero value = []
be_bytes (suc size) value = be_bytes size (value / 256) ++ (value % 256 ∷ [])

-- `Buffer.alloc(size)`.
unfoldable pub zero_buffer : ℕ → List ℕ
zero_buffer zero = []
zero_buffer (suc size) = 0 ∷ zero_buffer size

-- `BLS_SCALAR_MODULUS`.
abbrev pub scalar_modulus : ℕ
scalar_modulus = 0x73eda753299d7d483339d80809a1d80553bda402fffe5bfeffffffff00000001

-- The loop `while (value >= BLS_SCALAR_MODULUS)`, with the rounds that are allowed.
unfoldable pub reduce_loop : ℕ → ℕ → ℕ
reduce_loop zero value = value
reduce_loop (suc rounds) value =
    let rest = reduce_loop rounds (value - scalar_modulus) in
    if leb scalar_modulus value then rest else value

-- `BigInt("0x")`, of no bytes, throws.
unfoldable pub reduce_bls_scalar_bytes : List ℕ → Outcome (List ℕ)
reduce_bls_scalar_bytes [] = throw bad_hex
reduce_bls_scalar_bytes (b ∷ bs) =
    let value = be_loop 0 (b ∷ bs) in ok (be_bytes 32 (reduce_loop (value / scalar_modulus) value))

unfoldable pub normalize_zero_scalar : List ℕ → List ℕ
normalize_zero_scalar bytes =
    if eq_bytes bytes (zero_buffer 32) then zero_buffer 31 ++ (1 ∷ []) else bytes

-- The bytes of "ryvo-bls-signing-point-v1".
abbrev pub signing_point_tag : List ℕ
signing_point_tag =
    b'r' ∷ b'y' ∷ b'v' ∷ b'o' ∷ b'-' ∷ b'b' ∷ b'l' ∷ b's' ∷ b'-' ∷ b's' ∷ b'i' ∷ b'g' ∷ b'n' ∷ b'i'
    ∷ b'n' ∷ b'g' ∷ b'-' ∷ b'p' ∷ b'o' ∷ b'i' ∷ b'n' ∷ b't' ∷ b'-' ∷ b'v' ∷ b'1' ∷ []

module _ (sha256 : List ℕ → List ℕ) where
  -- The `secretScalar` of `createBlsKeypairFromSeed`.
  unfoldable pub create_bls_secret_scalar : List ℕ → Outcome ℕ
  create_bls_secret_scalar seed = do
    scalar_bytes ← reduce_bls_scalar_bytes (sha256 seed)
    ok (be_loop 0 (normalize_zero_scalar scalar_bytes))

  unfoldable pub hash_message_to_bls_scalar : List ℕ → Outcome ℕ
  hash_message_to_bls_scalar message = do
    scalar_bytes ← reduce_bls_scalar_bytes (sha256 (signing_point_tag ++ message))
    if eq_bytes scalar_bytes (zero_buffer 32)
        then (do
          again ← reduce_bls_scalar_bytes (sha256 (signing_point_tag ++ (message ++ (1 ∷ []))))
          ok (be_loop 0 (normalize_zero_scalar again)))
        else ok (be_loop 0 scalar_bytes)

-- `writeUInt32LE` throws on a number of more than 32 bits.
unfoldable pub create_bls_registration_message : ℕ → List ℕ → List ℕ → List ℕ → Outcome (List ℕ)
create_bls_registration_message participant_id owner bls_pubkey_compressed message_domain = do
  require (ltb participant_id (2 ^ 32)) out_of_range
  ok (
      0x03
      ∷ 0x01
      ∷ (message_domain ++ (le_bytes 4 participant_id ++ (owner ++ bls_pubkey_compressed))))
