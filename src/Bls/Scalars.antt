-- ===== src/Bls/Scalars.antt =====
-- The scalars are in range, and never zero.
use native.Mathlib.Nat.{pow-suc}
use native.Mathlib.Decide.{dec_lt}
use agon_protocol.Base.{
  ℕ, zero, suc, ◌+◌, ◌-◌, ◌*◌, ◌/◌, ◌%◌, ◌^◌, ◌≤◌, ◌<◌, List, [], ◌∷◌, ◌++◌, Bool, true, false, leb,
  length, length-append, ok, ◌≡◌, refl, sym, ap, ◌∙◌, arith, Bool-cases, inl, inr, leb→le,
}
use agon_protocol.Base.Bytes.{eq_bytes, eq_bytes_refl}
use agon_protocol.Bls.{
  be_loop, be_bytes, zero_buffer, scalar_modulus, reduce_loop, reduce_bls_scalar_bytes,
  normalize_zero_scalar, create_bls_secret_scalar, hash_message_to_bls_scalar, signing_point_tag,
}

be_loop-append :
    (value b : ℕ) (xs : List ℕ) → be_loop value (xs ++ (b ∷ [])) ≡ be_loop value xs * 256 + b
unfolding be_loop
be_loop-append value b [] = refl
be_loop-append value b (x ∷ xs) = be_loop-append (value * 256 + x) b xs

be_loop-be_bytes : (size value : ℕ) → value < 256 ^ size → be_loop 0 (be_bytes size value) ≡ value
unfolding be_bytes be_loop
be_loop-be_bytes zero value h = omega arith
be_loop-be_bytes (suc size) value h =
    be_loop-append 0 (value % 256) (be_bytes size (value / 256))
    ∙ omega (arith, be_loop-be_bytes size (value / 256) (omega (arith, pow-suc 256 size)))

pub length-be_bytes : (size value : ℕ) → length (be_bytes size value) ≡ size
unfolding be_bytes
length-be_bytes zero value = refl
length-be_bytes (suc size) value = omega (
  arith,
  length-append (be_bytes size (value / 256)) (value % 256 ∷ []),
  length-be_bytes size (value / 256),
)

-- The rounds allowed are as many as are needed.
reduce_loop_lem :
    (rounds value : ℕ)
    → value / scalar_modulus ≤ rounds
    → reduce_loop rounds value ≡ value % scalar_modulus
unfolding reduce_loop
reduce_loop_lem zero value h = omega arith
reduce_loop_lem (suc rounds) value h = elim (Bool-cases (leb scalar_modulus value)) [
  | inl large ↦
      let le : scalar_modulus ≤ value = leb→le scalar_modulus value large in
      rw large (reduce_loop_lem rounds (value - scalar_modulus) (omega arith) ∙ omega arith)
  | inr small ↦ rw small (ground arith)
]

reduced : List ℕ → ℕ
reduced bytes = be_loop 0 bytes % scalar_modulus

-- `reduceBlsScalarBytes` gives, of any bytes but none, the 32 bytes of their value modulo the order of
-- the scalars.
pub reduce_bls_scalar_bytes_lem :
    (b : ℕ) (bs : List ℕ)
    → (bytes : List ℕ) × (reduce_bls_scalar_bytes (b ∷ bs) ≡ ok bytes)
      × (length bytes ≡ 32)
      × (be_loop 0 bytes ≡ be_loop 0 (b ∷ bs) % scalar_modulus)
unfolding reduce_bls_scalar_bytes
reduce_bls_scalar_bytes_lem b bs =
    let value = be_loop 0 (b ∷ bs) in
    let reduced : reduce_loop (value / scalar_modulus) value ≡ value % scalar_modulus =
      reduce_loop_lem (value / scalar_modulus) value (omega arith) in
    (
      be_bytes 32 (reduce_loop (value / scalar_modulus) value),
      refl,
      length-be_bytes 32 _,
      be_loop-be_bytes 32 _ (omega arith) ∙ reduced,
    )

-- A scalar that a key or a message may have.
abbrev pub IsScalar : ℕ → Type 0
IsScalar s = (0 < s) × (s < scalar_modulus)

-- Bytes whose value is 0 are all 0.
zero_below : (value : ℕ) (bs : List ℕ) → be_loop value bs ≡ 0 → value ≡ 0
unfolding be_loop
zero_below value [] h = h
zero_below value (b ∷ bs) h = omega (arith, zero_below (value * 256 + b) bs h)

zero_value : (bs : List ℕ) → be_loop 0 bs ≡ 0 → bs ≡ zero_buffer (length bs)
unfolding be_loop zero_buffer
zero_value [] h = refl
zero_value (zero ∷ bs) h = ap (◌∷◌ 0) (zero_value bs h)
zero_value (suc b ∷ bs) h = absurd (omega (arith, zero_below (0 * 256 + suc b) bs h))

not_zero :
    (bytes : List ℕ)
    → length bytes ≡ 32
    → eq_bytes bytes (zero_buffer 32) ≡ false
    → 0 < be_loop 0 bytes
not_zero bytes h differs = elim (dec_lt 0 (be_loop 0 bytes)) [
  | yes above ↦ above
  | no not_above ↦
      let same : bytes ≡ zero_buffer 32 = zero_value bytes (omega arith) ∙ ap zero_buffer h in
      absurd (both same differs)
]
  where
    true-false : ◌≡◌ {A = Bool} true false → ⊥
    true-false e = cc

    both : bytes ≡ zero_buffer 32 → eq_bytes bytes (zero_buffer 32) ≡ false → ⊥
    both same differs = true-false (
        sym (eq_bytes_refl (zero_buffer 32))
        ∙ ap (λ xs. eq_bytes xs (zero_buffer 32)) (sym same)
        ∙ differs)

one-IsScalar : IsScalar (be_loop 0 (zero_buffer 31 ++ (1 ∷ [])))
unfolding be_loop zero_buffer
one-IsScalar = (omega arith, omega arith)

normalize-IsScalar :
    (bytes : List ℕ)
    → length bytes ≡ 32
    → be_loop 0 bytes < scalar_modulus
    → IsScalar (be_loop 0 (normalize_zero_scalar bytes))
unfolding normalize_zero_scalar
normalize-IsScalar bytes h less = elim (Bool-cases (eq_bytes bytes (zero_buffer 32))) [
  | inl blank ↦ rw blank one-IsScalar
  | inr some_set ↦ rw some_set (not_zero bytes h some_set, less)
]

module _ (sha256 : List ℕ → List ℕ)
    (digest : (message : List ℕ) → length (sha256 message) ≡ 32) where
  -- A digest is reduced to the 32 bytes of a number below the order.
  reduced_digest :
      (message : List ℕ)
      → (bytes : List ℕ) × (reduce_bls_scalar_bytes (sha256 message) ≡ ok bytes)
        × (length bytes ≡ 32)
        × (be_loop 0 bytes < scalar_modulus)
  reduced_digest message = of_bytes (sha256 message) (digest message)
    where
      of_bytes :
          (xs : List ℕ)
          → length xs ≡ 32
          → (bytes : List ℕ) × (reduce_bls_scalar_bytes xs ≡ ok bytes)
            × (length bytes ≡ 32)
            × (be_loop 0 bytes < scalar_modulus)
      of_bytes [] h = absurd (omega arith)
      of_bytes (b ∷ bs) h =
          let (bytes, run, len, value) = reduce_bls_scalar_bytes_lem b bs in
          (bytes, run, len, omega arith)

  secret-IsScalar_found :
      (seed : List ℕ) → (s : ℕ) × (create_bls_secret_scalar sha256 seed ≡ ok s) × IsScalar s
  unfolding create_bls_secret_scalar
  secret-IsScalar_found seed =
      let (bytes, run, len, less) = reduced_digest seed in
      (be_loop 0 (normalize_zero_scalar bytes), rw run refl, normalize-IsScalar bytes len less)

  message-IsScalar_found :
      (message : List ℕ) → (s : ℕ) × (hash_message_to_bls_scalar sha256 message ≡ ok s) × IsScalar s
  unfolding hash_message_to_bls_scalar
  message-IsScalar_found message =
      let (first, run, len, less) = reduced_digest (signing_point_tag ++ message) in
      let (again, run', len', less') =
        reduced_digest (signing_point_tag ++ (message ++ (1 ∷ []))) in
      elim (Bool-cases (eq_bytes first (zero_buffer 32))) [
        | inl blank ↦ (
          be_loop 0 (normalize_zero_scalar again),
          rw (run, blank, run') refl,
          normalize-IsScalar again len' less',
        )
        | inr some_set ↦
            (be_loop 0 first, rw (run, some_set) refl, (not_zero first len some_set, less))
      ]

-- Where SHA-256 gives 32 bytes, every seed has a secret scalar and every message a scalar, and both lie
-- between 1 and the order of the scalars less 1: none is zero.
pub scalars_found :
    (sha256 : List ℕ → List ℕ) (seed message : List ℕ)
    → ((m : List ℕ) → length (sha256 m) ≡ 32)
    → ((s : ℕ) × (create_bls_secret_scalar sha256 seed ≡ ok s) × IsScalar s)
      × ((h : ℕ) × (hash_message_to_bls_scalar sha256 message ≡ ok h) × IsScalar h)
scalars_found sha256 seed message digest =
    (secret-IsScalar_found sha256 digest seed, message-IsScalar_found sha256 digest message)
