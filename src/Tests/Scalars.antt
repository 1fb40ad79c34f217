-- ===== src/Tests/Scalars.antt =====
-- BLS scalars of concrete bytes.
use agon_protocol.Base.{ℕ, ◌+◌, ◌%◌, List, [], ◌∷◌, length, ok, ◌≡◌, refl}
use agon_protocol.Base.Bytes.{eq_bytes}
use agon_protocol.Bls.{
  be_loop, be_bytes, zero_buffer, scalar_modulus, reduce_loop, reduce_bls_scalar_bytes,
  normalize_zero_scalar, create_bls_secret_scalar, hash_message_to_bls_scalar,
}
use agon_protocol.Bls.Scalars.{
  IsScalar, length-be_bytes, reduce_bls_scalar_bytes_lem, scalars_found,
}

reduce_bls_scalar_bytes_lem_example :
    (bytes : List ℕ) × (reduce_bls_scalar_bytes (255 ∷ 1 ∷ []) ≡ ok bytes)
    × (length bytes ≡ 32)
    × (be_loop 0 bytes ≡ be_loop 0 (255 ∷ 1 ∷ []) % scalar_modulus)
reduce_bls_scalar_bytes_lem_example = reduce_bls_scalar_bytes_lem 255 (1 ∷ [])

-- A digest that is the order of the scalars, and more for a longer message.
abbrev digest : List ℕ → List ℕ
digest message = be_bytes 32 (scalar_modulus + length message)

-- A seed whose digest is the order has the secret scalar 1.
zero_is_normalized : create_bls_secret_scalar digest [] ≡ ok 1
unfolding create_bls_secret_scalar normalize_zero_scalar reduce_bls_scalar_bytes reduce_loop be_loop
    be_bytes zero_buffer eq_bytes
zero_is_normalized = refl

scalars_found_example :
    ((s : ℕ) × (create_bls_secret_scalar digest [] ≡ ok s) × IsScalar s)
    × ((h : ℕ) × (hash_message_to_bls_scalar digest (7 ∷ []) ≡ ok h) × IsScalar h)
scalars_found_example =
    scalars_found digest [] (7 ∷ []) (λ m. length-be_bytes 32 (scalar_modulus + length m))
