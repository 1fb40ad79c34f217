-- ===== src/Graph.antt =====
-- The channels of a dense graph: `buildOrderedParticipantPairs` and `buildBoundedDenseGraphPairs` of
-- scripts/ryvo-protocol-demo.ts. A participant is its identity; `undefined`, which an index out of
-- range gives, is `none`.
pub mod Selected
use agon_protocol.Base.{
  ℕ, zero, suc, ◌+◌, ◌-◌, ◌*◌, ◌%◌, min, List, [], ◌∷◌, ◌++◌, Bool, true, false, ◌&&◌, ◌||◌, leb,
  ltb, ◌==◌, if◌then◌else◌, Option, none, some, get_elem?, length,
}

-- The inner loop of `buildOrderedParticipantPairs`.
unfoldable pub participant_row : ℕ → List ℕ → ℕ → ℕ → List (Option ℕ × Option ℕ)
participant_row zero participants offset payer = []
participant_row (suc rounds) participants offset payer =
    (get_elem? participants payer, get_elem? participants ((payer + offset) % length participants))
    ∷ participant_row rounds participants offset (payer + 1)

-- The outer loop.
unfoldable pub participant_rows : ℕ → List ℕ → ℕ → List (Option ℕ × Option ℕ)
participant_rows zero participants offset = []
participant_rows (suc rounds) participants offset =
    participant_row (length participants) participants offset 0
    ++ participant_rows rounds participants (offset + 1)

unfoldable pub build_ordered_participant_pairs : List ℕ → List (Option ℕ × Option ℕ)
build_ordered_participant_pairs participants =
    participant_rows (length participants - 1) participants 1

-- `participants.indexOf(participant)`; `none` is -1.
unfoldable pub index_from : ℕ → List ℕ → Option ℕ → Option ℕ
index_from index participants none = none
index_from index [] (some participant) = none
index_from index (p ∷ ps) (some participant) =
    let rest = index_from (index + 1) ps (some participant) in
    if p == participant then some index else rest

-- The state: `seenPairKeys`, kept in order with the last one first, and `selectedPairs`.
pub record Selection : Type 0 where
  pub seen : List (ℕ × ℕ)
  pub selected : List (Option ℕ × Option ℕ)

unfoldable pub has_pair : ℕ × ℕ → List (ℕ × ℕ) → Bool
has_pair pair [] = false
has_pair (i, j) ((k, l) ∷ pairs) = (i == k && j == l) || has_pair (i, j) pairs

-- The closure `appendPair`, on indices that are not negative.
unfoldable pub append_pair : List ℕ → ℕ → ℕ → ℕ → Selection → Selection
append_pair participants cap payer payee s =
    if leb (length participants) payer || leb (length participants) payee || payer == payee
    then s
    else if has_pair (payer, payee) s.seen || leb cap (length s.selected)
    then s
    else record {
      seen = (payer, payee) ∷ s.seen;
      selected = s.selected ++ ((get_elem? participants payer, get_elem? participants payee) ∷ []);
    }

-- The loop from `participantCount = 4` on.
unfoldable pub append_cycles : ℕ → List ℕ → ℕ → ℕ → Selection → Selection
append_cycles zero participants cap count s = s
append_cycles (suc rounds) participants cap count s =
    append_cycles rounds participants cap (count + 1) (
      append_pair participants cap (count - 1) 0
        (append_pair participants cap (count - 2) (count - 1) s))

-- The pairs that come first.
unfoldable pub append_first : List ℕ → ℕ → Selection → Selection
append_first participants cap s =
    if length participants == 2
    then append_pair participants cap 1 0 (append_pair participants cap 0 1 s)
    else if leb 3 (length participants)
    then append_cycles (length participants - 3) participants cap 4 (
        append_pair participants cap 2 0
          (append_pair participants cap 1 2 (append_pair participants cap 0 1 s)))
    else s

-- `appendPair` of two indices that may be -1.
unfoldable pub append_indices : List ℕ → ℕ → Option ℕ → Option ℕ → Selection → Selection
append_indices participants cap none payee s = s
append_indices participants cap (some payer) none s = s
append_indices participants cap (some payer) (some payee) s =
    append_pair participants cap payer payee s

-- The loop over all ordered pairs, which ends when the cap is reached.
unfoldable pub append_rest : List (Option ℕ × Option ℕ) → List ℕ → ℕ → Selection → Selection
append_rest [] participants cap s = s
append_rest ((payer, payee) ∷ pairs) participants cap s =
    let s' =
      append_indices participants cap (index_from 0 participants payer)
        (index_from 0 participants payee) s in
    let rest = append_rest pairs participants cap s' in
    if leb cap (length s'.selected) then s' else rest

abbrev pub capped : List ℕ → ℕ → ℕ
capped participants max_directed_channels =
    min max_directed_channels (length participants * (length participants - 1))

unfoldable pub dense_selection : List ℕ → ℕ → Selection
dense_selection participants max_directed_channels =
    let cap = capped participants max_directed_channels in
    append_rest (build_ordered_participant_pairs participants) participants cap
      (append_first participants cap (record { seen = []; selected = [] }))

unfoldable pub build_bounded_dense_graph_pairs : List ℕ → ℕ → List (Option ℕ × Option ℕ)
build_bounded_dense_graph_pairs participants max_directed_channels =
    (dense_selection participants max_directed_channels).selected
