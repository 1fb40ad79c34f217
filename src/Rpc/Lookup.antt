-- ===== src/Rpc/Lookup.antt =====
-- Lookup tables: `chunk`, `createLookupTableForAddresses` and `createLookupTablesForAddresses`.
use agon_protocol.Base.{
  ℕ, Option, none, some, zero, suc, ◌+◌, ◌-◌, true, false, ltb, if◌then◌else◌, List, [], ◌∷◌,
  length, take, drop,
}
use agon_protocol.Keys.{unique_pubkeys}
use agon_protocol.Rpc.{Text, Attempt, returned, raised, includes}

-- `list.slice(offset, offset + size)` for each offset in steps of the size.
unfoldable pub chunk_loop {ℓ} : {A : Type ℓ} → ℕ → ℕ → ℕ → List A → List (List A)
chunk_loop zero size offset xs = []
chunk_loop (suc rounds) size offset xs =
    let rest = chunk_loop rounds size (offset + size) xs in
    if ltb offset (length xs) then take size (drop offset xs) ∷ rest else []

-- At most one chunk for each element.
abbrev pub chunks {ℓ} : {A : Type ℓ} → ℕ → List A → List (List A)
chunks size xs = chunk_loop (length xs) size 0 xs

-- What the node does for lookup tables. A table is named by its recent slot, and what it holds passes
-- from one call to the next: it is given when the table is created, an extension gives it anew, and the
-- table that is fetched has the addresses that the node makes of it. Slots are asked for by the number of
-- the call.
pub record TableNode : Type 0 where
  pub finalized_slot : ℕ → ℕ
  pub confirmed_slot : ℕ → ℕ
  pub create : ℕ → Attempt (List ℕ)
  pub extend : ℕ → List ℕ → List ℕ → Attempt (List ℕ)
  pub fetch : ℕ → List ℕ → Option (List ℕ)

-- A table as it was fetched: its slot, its addresses, and the slots that were awaited before.
pub record LookupTable : Type 0 where
  pub recent_slot : ℕ
  pub addresses : List ℕ
  pub polls : ℕ

abbrev pub not_a_recent_slot : Text
not_a_recent_slot =
    b'n' ∷ b'o' ∷ b't' ∷ b' ' ∷ b'a' ∷ b' ' ∷ b'r' ∷ b'e' ∷ b'c' ∷ b'e' ∷ b'n' ∷ b't' ∷ b' ' ∷ b's'
    ∷ b'l' ∷ b'o' ∷ b't' ∷ []

abbrev pub recent_slot_backoffs : List ℕ
recent_slot_backoffs = 5 ∷ 10 ∷ 20 ∷ 40 ∷ []

-- The texts of the errors that the code throws itself; nothing depends on them.
abbrev pub no_text : Text
no_text = []

infixl 5 ◌>>=◌
abbrev ◌>>=◌ : {A B : Type 0} → Attempt A → (A → Attempt B) → Attempt B
raised error >>= next = raised error
returned value >>= next = next value

module _ (node : TableNode) where
  -- The loop over the backoffs, with the number of the call and the last error. It gives the slot of the
  -- table and what it holds.
  unfoldable pub create_loop : ℕ → Text → List ℕ → Attempt (ℕ × List ℕ)
  create_loop call last_error [] = raised last_error
  create_loop call last_error (backoff ∷ backoffs) =
      let recent_slot = node.finalized_slot call - backoff in
      elim (node.create recent_slot) [
        | returned held ↦ returned (recent_slot, held)
        | raised error ↦ elim (includes not_a_recent_slot error) [
          | false ↦ raised error
          | true ↦ create_loop (call + 1) error backoffs
        ]
      ]

  -- The loop over the extensions of a table that holds some addresses, which ends at the first that
  -- fails.
  unfoldable pub extend_loop : ℕ → List ℕ → List (List ℕ) → Attempt (List ℕ)
  extend_loop table held [] = returned held
  extend_loop table held (addresses ∷ rest) =
      node.extend table held addresses >>= λ extended. extend_loop table extended rest

  -- The polls until the slot has passed the one of the last extension, at most so many.
  unfoldable pub slot_loop : ℕ → ℕ → ℕ → ℕ
  slot_loop observed zero call = 0
  slot_loop observed (suc attempts) call =
      let rest = slot_loop observed attempts (call + 1) in
      if ltb observed (node.confirmed_slot call) then 1 else suc rest

  unfoldable pub fetch_table : ℕ → List ℕ → ℕ → Attempt LookupTable
  fetch_table table held polls = elim (node.fetch table held) [
    | none ↦ raised no_text
    | some addresses ↦
        returned (record { recent_slot = table; addresses = addresses; polls = polls })
  ]

  unfoldable pub create_lookup_table_for_addresses : List ℕ → Attempt LookupTable
  create_lookup_table_for_addresses addresses = do
    let pieces = chunks 20 addresses
    (table, empty) ← create_loop 0 no_text recent_slot_backoffs
    held ← extend_loop table empty pieces
    fetch_table table held (slot_loop (node.confirmed_slot (length pieces)) 20 (length pieces + 1))

-- The tables one after the other; what the node does for each is given by its number.
unfoldable pub create_tables : (ℕ → TableNode) → ℕ → List (List ℕ) → Attempt (List LookupTable)
create_tables nodes number [] = returned []
create_tables nodes number (addresses ∷ rest) = do
  table ← create_lookup_table_for_addresses (nodes number) addresses
  tables ← create_tables nodes (number + 1) rest
  returned (table ∷ tables)

unfoldable pub create_lookup_tables_for_addresses :
    (ℕ → TableNode) → List ℕ → Attempt (List LookupTable)
create_lookup_tables_for_addresses nodes addresses =
    create_tables nodes 0 (chunks 256 (unique_pubkeys addresses))
