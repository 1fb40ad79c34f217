-- ===== src/Multilateral/Ring.antt =====
-- A ring over the first participants: the edges that are selected, or the one that is missing.
use mathlib.Core.List.{Memᴰ}
use native.Mathlib.Nat.{mod-lt}
use agon_protocol.Base.{
  ℕ, ◌+◌, ◌%◌, ◌<◌, true, false, none, some, List, [], ◌∷◌, ok, throw, length, get_elem?_of_lt, inl,
  inr, Bool-cases, Option-cases, ◌≡◌, refl, sym, arith, missing_edge,
}
use agon_protocol.Multilateral.Edges.{
  Wallet, Edge, has_edge_key, edge_by_key, has_edge, next_of, ring_edges, ring_supported,
}

-- An edge of the graph between two participants.
abbrev pub Connects : List Edge → Wallet → Wallet → Edge → Type 0
Connects graph payer payee e =
    Memᴰ e graph
    × (e.payer.participant_id ≡ payer.participant_id)
    × (e.payee.participant_id ≡ payee.participant_id)

has_edge_key-true :
    (payer payee : ℕ) (e : Edge)
    → has_edge_key payer payee e ≡ true
    → (e.payer.participant_id ≡ payer) × (e.payee.participant_id ≡ payee)
unfolding has_edge_key
has_edge_key-true payer payee e h = ground arith

edge_by_key-Connects :
    (payer payee : Wallet) (graph : List Edge) (found : Edge)
    → edge_by_key payer.participant_id payee.participant_id graph ≡ some found
    → Connects graph payer payee found
unfolding edge_by_key
edge_by_key-Connects payer payee [] found h = cc
edge_by_key-Connects payer payee (e ∷ es) found h =
    elim (Option-cases (edge_by_key payer.participant_id payee.participant_id es)) [
      | inr (last, eq) ↦
          let below = edge_by_key-Connects payer payee es found cc in
          (Memᴰ.tail below.0, below.1, below.2)
      | inl eq ↦ elim (Bool-cases (has_edge_key payer.participant_id payee.participant_id e)) [
        | inl is_key ↦
            let same : e ≡ found = cc in
            let ids = has_edge_key-true payer.participant_id payee.participant_id e is_key in
            (Memᴰ.head (sym same), cc, cc)
        | inr other ↦ cc
      ]
    ]

edge_by_key_missing :
    (payer payee : ℕ) (graph : List Edge)
    → edge_by_key payer payee graph ≡ none
    → has_edge payer payee graph ≡ false
unfolding edge_by_key has_edge
edge_by_key_missing payer payee [] h = refl
edge_by_key_missing payer payee (e ∷ es) h = elim (Option-cases (edge_by_key payer payee es)) [
  | inr (last, eq) ↦ cc
  | inl eq ↦ elim (Bool-cases (has_edge_key payer payee e)) [
    | inl is_key ↦ cc
    | inr other ↦ rw (other, edge_by_key_missing payer payee es eq) refl
  ]
]

edge_missing :
    (payer payee : ℕ) (graph : List Edge)
    → has_edge payer payee graph ≡ false
    → edge_by_key payer payee graph ≡ none
unfolding has_edge edge_by_key
edge_missing payer payee [] h = refl
edge_missing payer payee (e ∷ es) h = elim (Bool-cases (has_edge_key payer payee e)) [
  | inl is_key ↦ cc
  | inr other ↦ elim (Bool-cases (has_edge payer payee es)) [
    | inl found ↦ cc
    | inr missing ↦ let below = edge_missing payer payee es missing in cc
  ]
]

module _ (graph : List Edge) (participants : List Wallet) where
  -- Every edge goes from a participant to the next one.
  abbrev pub FollowsRing : ℕ → List Wallet → List Edge → Type 0
  FollowsRing index [] [] = Unit
  FollowsRing index [] (e ∷ es) = ⊥
  FollowsRing index (p ∷ ps) [] = ⊥
  FollowsRing index (p ∷ ps) (e ∷ es) =
      ((payee : Wallet) × (next_of participants index ≡ some payee) × Connects graph p payee e)
      × FollowsRing (index + 1) ps es

  next_exists :
      (index : ℕ)
      → index < length participants
      → (payee : Wallet) × (next_of participants index ≡ some payee)
  next_exists index h =
      get_elem?_of_lt participants ((index + 1) % length participants)
        (mod-lt (index + 1) (omega arith))

  pub ring_edges-FollowsRing :
      (index : ℕ) (payers : List Wallet)
      → index + length payers ≡ length participants
      → ring_supported graph participants index payers ≡ true
      → (edges : List Edge) × (ring_edges graph participants index payers ≡ ok edges)
        × FollowsRing index payers edges
  unfolding ring_supported ring_edges
  ring_edges-FollowsRing index [] bound h = ([], refl, tt)
  ring_edges-FollowsRing index (p ∷ ps) bound h =
      let (payee, is_next) = next_exists index (omega arith) in
      elim (Bool-cases (ring_supported graph participants (index + 1) ps)) [
        | inr stops ↦ elim (Bool-cases (has_edge p.participant_id payee.participant_id graph)) [
          | inl x ↦ cc
          | inr x ↦ cc
        ]
        | inl goes_on ↦
            elim (Option-cases (edge_by_key p.participant_id payee.participant_id graph)) [
              | inl missing ↦
                  let no_edge =
                    edge_by_key_missing p.participant_id payee.participant_id graph missing in
                  cc
              | inr (e, found) ↦
                  let (es, built, follows) =
                    ring_edges-FollowsRing (index + 1) ps (omega arith) goes_on in
                  (
                    e ∷ es,
                    cc,
                    ((payee, is_next, edge_by_key-Connects p payee graph e found), follows),
                  )
            ]
      ]

  pub ring_edges_missing :
      (index : ℕ) (payers : List Wallet)
      → index + length payers ≡ length participants
      → ring_supported graph participants index payers ≡ false
      → ring_edges graph participants index payers ≡ throw missing_edge
  unfolding ring_supported ring_edges
  ring_edges_missing index [] bound h = cc
  ring_edges_missing index (p ∷ ps) bound h =
      let (payee, is_next) = next_exists index (omega arith) in
      elim (Option-cases (edge_by_key p.participant_id payee.participant_id graph)) [
        | inl missing ↦ cc
        | inr (e, found) ↦
            elim (Bool-cases (has_edge p.participant_id payee.participant_id graph)) [
              | inl has ↦ let below = ring_edges_missing (index + 1) ps (omega arith) cc in cc
              | inr has_not ↦
                  let missing = edge_missing p.participant_id payee.participant_id graph has_not in
                  cc
            ]
      ]
