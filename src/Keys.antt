-- ===== src/Keys.antt =====
-- Lists of public keys: `uniquePubkeys` and `uniqueWritableMetasForPubkeys` of
-- scripts/ryvo-protocol-demo.ts. A key is the number that its text stands for.
pub mod Unique
use agon_protocol.Base.{ℕ, Bool, true, false, ◌||◌, ◌==◌, List, [], ◌∷◌}

-- `seen.has(key)`.
unfoldable pub is_seen : ℕ → List ℕ → Bool
is_seen key [] = false
is_seen key (k ∷ ks) = k == key || is_seen key ks

-- The loops of `uniquePubkeys` and `uniqueWritableMetasForPubkeys`, with the keys seen so far.
unfoldable pub unique_loop : List ℕ → List ℕ → List ℕ
unique_loop seen [] = []
unique_loop seen (key ∷ keys) = elim (is_seen key seen) [
  | true ↦ unique_loop seen keys
  | false ↦ key ∷ unique_loop (key ∷ seen) keys
]

abbrev pub unique_pubkeys : List ℕ → List ℕ
unique_pubkeys keys = unique_loop [] keys

-- Every key that is left gives a writable account that does not sign.
abbrev pub unique_writable_metas_for_pubkeys : List ℕ → List ℕ
unique_writable_metas_for_pubkeys keys = unique_loop [] keys
