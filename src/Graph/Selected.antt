-- ===== src/Graph/Selected.antt =====
-- What a bounded dense graph selects.
use agon_protocol.Base.{
  ℕ, zero, suc, ◌+◌, ◌-◌, ◌*◌, ◌≤◌, ◌<◌, ◌≢◌, min, List, [], ◌∷◌, ◌++◌, false, ◌||◌, leb, ◌==◌,
  Option, none, some, get_elem?, length, length-append, All, ◌≡◌, refl, ap, arith, Bool-cases, inl,
  inr,
}
use agon_protocol.Graph.{
  Selection, has_pair, append_pair, append_cycles, append_first, append_indices, append_rest,
  capped, dense_selection, build_bounded_dense_graph_pairs, build_ordered_participant_pairs,
  index_from,
}

-- No pair stands twice.
abbrev pub Distinct : List (ℕ × ℕ) → Type 0
Distinct [] = Unit
Distinct (p ∷ ps) = (has_pair p ps ≡ false) × Distinct ps

module _ (participants : List ℕ) where
  -- Two participants that differ.
  abbrev pub IsChannel : ℕ × ℕ → Type 0
  IsChannel (payer, payee) =
      (payer < length participants) × (payee < length participants) × (payer ≢ payee)

  -- The participants of index pairs that were taken one after the other, the last one first.
  abbrev pub taken : List (ℕ × ℕ) → List (Option ℕ × Option ℕ)
  taken [] = []
  taken ((payer, payee) ∷ pairs) =
      taken pairs ++ ((get_elem? participants payer, get_elem? participants payee) ∷ [])

  module _ (cap : ℕ) where
    abbrev pub IsValid : Selection → Type 0
    IsValid s =
        Distinct s.seen
        × All IsChannel s.seen
        × (s.selected ≡ taken s.seen)
        × (length s.selected ≤ cap)

    append_pair-IsValid :
        (payer payee : ℕ) (s : Selection)
        → IsValid s
        → IsValid (append_pair participants cap payer payee s)
    unfolding append_pair
    append_pair-IsValid payer payee s valid =
        elim (Bool-cases
          (leb (length participants) payer || leb (length participants) payee || payer == payee)) [
            | inl refused ↦ rw refused valid
            | inr proper ↦
                elim (Bool-cases (has_pair (payer, payee) s.seen || leb cap (length s.selected))) [
                  | inl full ↦ rw (proper, full) valid
                  | inr fresh ↦
                      rw (proper, fresh)
                        (
                          (ground arith, valid.0),
                          ((ground arith, ground arith, ground arith), valid.1),
                          ap
                              (λ xs.
                                xs
                                ++ ((get_elem? participants payer, get_elem? participants payee)
                                    ∷ []))
                              valid.2,
                          ground (
                            arith,
                            length-append s.selected
                                ((get_elem? participants payer, get_elem? participants payee) ∷ []),
                          ),
                        )
                ]
          ]

    append_cycles-IsValid :
        (rounds count : ℕ) (s : Selection)
        → IsValid s
        → IsValid (append_cycles rounds participants cap count s)
    unfolding append_cycles
    append_cycles-IsValid zero count s valid = valid
    append_cycles-IsValid (suc rounds) count s valid =
        append_cycles-IsValid rounds (count + 1) _ (
          append_pair-IsValid (count - 1) 0 _ (append_pair-IsValid (count - 2) (count - 1) s valid))

    append_first-IsValid : (s : Selection) → IsValid s → IsValid (append_first participants cap s)
    unfolding append_first
    append_first-IsValid s valid = elim (Bool-cases (length participants == 2)) [
      | inl two ↦ rw two (append_pair-IsValid 1 0 _ (append_pair-IsValid 0 1 s valid))
      | inr not_two ↦ elim (Bool-cases (leb 3 (length participants))) [
        | inl more ↦
            rw (not_two, more)
              (append_cycles-IsValid (length participants - 3) 4 _ (
                append_pair-IsValid 2 0 _
                  (append_pair-IsValid 1 2 _ (append_pair-IsValid 0 1 s valid))))
        | inr fewer ↦ rw (not_two, fewer) valid
      ]
    ]

    append_indices-IsValid :
        (payer payee : Option ℕ) (s : Selection)
        → IsValid s
        → IsValid (append_indices participants cap payer payee s)
    unfolding append_indices
    append_indices-IsValid none payee s valid = valid
    append_indices-IsValid (some payer) none s valid = valid
    append_indices-IsValid (some payer) (some payee) s valid =
        append_pair-IsValid payer payee s valid

    append_rest-IsValid :
        (pairs : List (Option ℕ × Option ℕ)) (s : Selection)
        → IsValid s
        → IsValid (append_rest pairs participants cap s)
    unfolding append_rest
    append_rest-IsValid [] s valid = valid
    append_rest-IsValid ((payer, payee) ∷ pairs) s valid =
        let s' =
          append_indices participants cap (index_from 0 participants payer)
            (index_from 0 participants payee) s in
        let valid' : IsValid s' = append_indices-IsValid _ _ s valid in
        elim (Bool-cases (leb cap (length s'.selected))) [
          | inl full ↦ rw full valid'
          | inr room ↦ rw room (append_rest-IsValid pairs s' valid')
        ]

-- The channels of a bounded dense graph are those of some index pairs: each is of two different
-- participants of the list, no pair is taken twice, and they are no more than asked for.
pub build_bounded_dense_graph_pairs_lem :
    (participants : List ℕ) (max_directed_channels : ℕ)
    → (pairs : List (ℕ × ℕ)) × (build_bounded_dense_graph_pairs participants max_directed_channels
        ≡ taken participants pairs)
      × Distinct pairs
      × All (IsChannel participants) pairs
      × (length (build_bounded_dense_graph_pairs participants max_directed_channels)
          ≤ min max_directed_channels (length participants * (length participants - 1)))
unfolding build_bounded_dense_graph_pairs dense_selection
build_bounded_dense_graph_pairs_lem participants max_directed_channels =
    let cap = capped participants max_directed_channels in
    let valid =
      append_rest-IsValid participants cap (build_ordered_participant_pairs participants) _ (
        append_first-IsValid participants cap (record { seen = []; selected = [] })
          (tt, tt, refl, omega arith)) in
    ((dense_selection participants max_directed_channels).seen, valid.2, valid.0, valid.1, valid.3)
