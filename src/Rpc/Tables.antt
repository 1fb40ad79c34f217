-- ===== src/Rpc/Tables.antt =====
-- The lookup tables that hold a list of addresses.
use mathlib.Core.Path.{subst}
use agon_protocol.Base.{
  ℕ, zero, suc, ◌+◌, ◌-◌, ◌≤◌, ◌<◌, true, ltb, List, [], ◌∷◌, ◌++◌, map, length, flatten, take,
  drop, All, length-take, length-drop, length-append, append-nil, append_assoc, some, drop-add,
  Bool-cases, inl, inr, ◌⊎◌, ◌≡◌, refl, sym, ap, ap₂, ◌∙◌, arith,
}
use agon_protocol.Keys.{unique_pubkeys}
use agon_protocol.Rpc.{Text, returned, raised, includes}
use agon_protocol.Rpc.Lookup.{
  chunk_loop, chunks, TableNode, LookupTable, not_a_recent_slot, recent_slot_backoffs, create_loop,
  extend_loop, slot_loop, fetch_table, create_lookup_table_for_addresses, create_tables,
  create_lookup_tables_for_addresses, no_text,
}

module _ {ℓ} {A : Type ℓ} where
  take-drop_append : (n : ℕ) (xs : List A) → take n xs ++ drop n xs ≡ xs
  take-drop_append zero xs = refl
  take-drop_append (suc n) [] = refl
  take-drop_append (suc n) (x ∷ xs) = ap (◌∷◌ x) (take-drop_append n xs)

  drop_all : (n : ℕ) (xs : List A) → length xs ≤ n → drop n xs ≡ []
  drop_all zero [] h = refl
  drop_all zero (x ∷ xs) h = absurd (omega arith)
  drop_all (suc n) [] h = refl
  drop_all (suc n) (x ∷ xs) h = drop_all n xs (omega arith)

  flatten-chunk_loop :
      (rounds size offset : ℕ) (xs : List A)
      → 0 < size
      → length xs ≤ offset + rounds
      → flatten (chunk_loop rounds size offset xs) ≡ drop offset xs
  unfolding chunk_loop
  flatten-chunk_loop zero size offset xs pos h = sym (drop_all offset xs (omega arith))
  flatten-chunk_loop (suc rounds) size offset xs pos h =
      elim (Bool-cases (ltb offset (length xs))) [
        | inr done ↦ rw done (sym (drop_all offset xs (ground arith)))
        | inl more ↦ rw more (
            ap (◌++◌ (take size (drop offset xs))) (
              flatten-chunk_loop rounds size (offset + size) xs pos (omega arith)
              ∙ drop-add offset size xs)
            ∙ take-drop_append size (drop offset xs))
      ]

  -- A chunk that is not empty and not too large.
  abbrev pub IsChunk : ℕ → List A → Type 0
  IsChunk size xs = (0 < length xs) × (length xs ≤ size)

  chunk_loop-IsChunk :
      (rounds size offset : ℕ) (xs : List A)
      → 0 < size
      → All (IsChunk size) (chunk_loop rounds size offset xs)
  unfolding chunk_loop
  chunk_loop-IsChunk zero size offset xs pos = tt
  chunk_loop-IsChunk (suc rounds) size offset xs pos = elim (Bool-cases (ltb offset (length xs))) [
    | inr done ↦ rw done tt
    | inl more ↦
        let taken = length-take size (drop offset xs) in
        let dropped = length-drop offset xs in
        rw more ((ground arith, omega arith), chunk_loop-IsChunk rounds size (offset + size) xs pos)
  ]

  flatten-chunks : (size : ℕ) (xs : List A) → 0 < size → flatten (chunks size xs) ≡ xs
  flatten-chunks size xs pos = flatten-chunk_loop (length xs) size 0 xs pos (omega arith)

  chunks-IsChunk : (size : ℕ) (xs : List A) → 0 < size → All (IsChunk size) (chunks size xs)
  chunks-IsChunk size xs pos = chunk_loop-IsChunk (length xs) size 0 xs pos

-- An empty table is created at one of the backoffs, and before it the slot was not recent.
abbrev pub Creates : TableNode → ℕ → List ℕ → Type 0
Creates node call [] = ⊥
Creates node call (backoff ∷ backoffs) =
    (node.create (node.finalized_slot call - backoff) ≡ returned [])
    ⊎ ((error : Text) × (node.create (node.finalized_slot call - backoff) ≡ raised error)
        × (includes not_a_recent_slot error ≡ true)
        × Creates node (call + 1) backoffs)

-- A node that creates a table, puts the addresses of an extension behind those that the table holds, if
-- there are 1 to 20 of them and the table then holds up to 256, and gives the table with what it holds.
pub record Serves (node : TableNode) : Type 0 where
  pub creates : Creates node 0 recent_slot_backoffs
  pub extends :
      (table : ℕ) (held addresses : List ℕ)
      → IsChunk 20 addresses
      → length (held ++ addresses) ≤ 256
      → node.extend table held addresses ≡ returned (held ++ addresses)
  pub fetches : (table : ℕ) (held : List ℕ) → node.fetch table held ≡ some held

module _ (node : TableNode) where
  create_loop-Creates :
      (call : ℕ) (last_error : Text) (backoffs : List ℕ)
      → Creates node call backoffs
      → (table : ℕ) × (create_loop node call last_error backoffs ≡ returned (table, []))
  unfolding create_loop
  create_loop-Creates call last_error [] h = absurd h
  create_loop-Creates call last_error (backoff ∷ backoffs) (inl created) =
      (node.finalized_slot call - backoff, cc)
  create_loop-Creates call last_error (backoff ∷ backoffs) (inr (error, failed, old, later)) =
      let (table, run) = create_loop-Creates (call + 1) error backoffs later in (table, cc)

  extend_loop-Serves :
      (table : ℕ) (held : List ℕ) (xss : List (List ℕ))
      → Serves node
      → All (IsChunk 20) xss
      → length (held ++ flatten xss) ≤ 256
      → extend_loop node table held xss ≡ returned (held ++ flatten xss)
  unfolding extend_loop
  extend_loop-Serves table held [] h pieces room = ap returned (sym (append-nil held))
  extend_loop-Serves table held (xs ∷ xss) h (piece, pieces) room =
      let together = append_assoc held xs (flatten xss) in
      let fits : length (held ++ xs) ≤ 256 =
        omega (arith, length-append (held ++ xs) (flatten xss), ap length together) in
      rw (h.extends table held xs piece fits) (
        extend_loop-Serves table (held ++ xs) xss h pieces (omega (arith, ap length together))
        ∙ ap returned together)

  slot_loop_le : (observed attempts call : ℕ) → slot_loop node observed attempts call ≤ attempts
  unfolding slot_loop
  slot_loop_le observed zero call = omega arith
  slot_loop_le observed (suc attempts) call =
      elim (Bool-cases (ltb observed (node.confirmed_slot call))) [
        | inl passed ↦ rw passed (omega arith)
        | inr waiting ↦ rw waiting (omega (arith, slot_loop_le observed attempts (call + 1)))
      ]

fetch_table-Serves :
    (node : TableNode) (table : ℕ) (held : List ℕ) (polls : ℕ)
    → Serves node
    → fetch_table node table held polls
      ≡ returned (record { recent_slot = table; addresses = held; polls = polls })
unfolding fetch_table
fetch_table-Serves node table held polls h = let is = h.fetches table held in cc

create_lookup_table_for_addresses-Serves :
    (node : TableNode) (addresses : List ℕ)
    → Serves node
    → length addresses ≤ 256
    → (table : LookupTable) × (create_lookup_table_for_addresses node addresses ≡ returned table)
      × (table.addresses ≡ addresses)
      × (table.polls ≤ 20)
unfolding create_lookup_table_for_addresses
create_lookup_table_for_addresses-Serves node addresses h room =
    let (table, created) = create_loop-Creates node 0 no_text recent_slot_backoffs h.creates in
    let pieces = chunks 20 addresses in
    let calls = length pieces in
    let whole = flatten-chunks 20 addresses (omega arith) in
    let extended : extend_loop node table [] pieces ≡ returned addresses =
      extend_loop-Serves node table [] pieces h (chunks-IsChunk 20 addresses (omega arith))
        (rw whole room)
      ∙ ap returned whole in
    (
      record {
        recent_slot = table;
        addresses = addresses;
        polls = slot_loop node (node.confirmed_slot calls) 20 (calls + 1);
      },
      rw (created, extended)
          (fetch_table-Serves node table addresses
            (slot_loop node (node.confirmed_slot calls) 20 (calls + 1)) h),
      refl,
      slot_loop_le node (node.confirmed_slot calls) 20 (calls + 1),
    )

abbrev pub addresses_of : LookupTable → List ℕ
addresses_of table = table.addresses

abbrev pub IsTable : LookupTable → Type 0
IsTable table = IsChunk 256 table.addresses × (table.polls ≤ 20)

create_tables_lem :
    (nodes : ℕ → TableNode) (number : ℕ) (xss : List (List ℕ))
    → ((n : ℕ) → Serves (nodes n))
    → All (IsChunk 256) xss
    → (tables : List LookupTable) × (create_tables nodes number xss ≡ returned tables)
      × (map addresses_of tables ≡ xss)
      × All IsTable tables
unfolding create_tables
create_tables_lem nodes number [] h all = ([], refl, refl, tt)
create_tables_lem nodes number (xs ∷ xss) h all =
    let (table, made, holds, polls) =
      create_lookup_table_for_addresses-Serves (nodes number) xs (h number) all.0.1 in
    let (tables, rest, contents, are_tables) = create_tables_lem nodes (number + 1) xss h all.1 in
    (
      table ∷ tables,
      rw (made, rest) refl,
      ap₂ ◌∷◌ holds contents,
      ((subst (IsChunk 256) (sym holds) all.0, polls), are_tables),
    )

-- A node that serves each table, if need be after slots that were not recent, and takes extensions of up
-- to 20 addresses and tables of up to 256, creates and extends the tables without an error. The tables fetched hold every address once, in the order in which the addresses first stand in
-- the list. No table is empty or holds more than 256 addresses, and each is fetched after at most 20
-- polls.
pub create_lookup_tables_for_addresses_lem :
    (nodes : ℕ → TableNode) (addresses : List ℕ)
    → ((n : ℕ) → Serves (nodes n))
    → (tables : List LookupTable) × (create_lookup_tables_for_addresses nodes addresses
        ≡ returned tables)
      × (flatten (map addresses_of tables) ≡ unique_pubkeys addresses)
      × All IsTable tables
unfolding create_lookup_tables_for_addresses
create_lookup_tables_for_addresses_lem nodes addresses h =
    let unique = unique_pubkeys addresses in
    let (tables, made, contents, are_tables) =
      create_tables_lem nodes 0 (chunks 256 unique) h (chunks-IsChunk 256 unique (omega arith)) in
    (tables, made, ap flatten contents ∙ flatten-chunks 256 unique (omega arith), are_tables)
