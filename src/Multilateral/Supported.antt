-- ===== src/Multilateral/Supported.antt =====
-- The rings that the search over participant counts may ask for are there.
use mathlib.Core.Path.{subst}
use agon_protocol.Base.{
  ℕ, zero, suc, ◌+◌, ◌-◌, ◌≤◌, ◌<◌, min, true, false, List, ok, throw, length, take, ◌⊎◌, inl, inr,
  Bool-cases, ◌≡◌, refl, arith, ==_iff, missing_edge, ◌==◌,
}
use agon_protocol.Multilateral.Edges.{
  Wallet, Edge, max_participants, Scenario, EdgeSelection, ring_supported,
  select_multilateral_edges_for_candidate, supported_loop,
  max_supported_prefix_ring_participant_count,
}
use agon_protocol.Multilateral.Ring.{FollowsRing, ring_edges-FollowsRing, ring_edges_missing}

module _ (graph : List Edge) (all : List Wallet) where
  abbrev HasRing : ℕ → Type 0
  HasRing count = ring_supported graph (take count all) 0 (take count all) ≡ true

  abbrev HasNoRing : ℕ → Type 0
  HasNoRing count = ring_supported graph (take count all) 0 (take count all) ≡ false

  one_more :
      (count last : ℕ)
      → HasRing count
      → ((c : ℕ) → count + 1 ≤ c → c ≤ last → HasRing c)
      → (c : ℕ) → count ≤ c
      → c ≤ last
      → HasRing c
  one_more count last ring rings c low high = elim (Bool-cases (count == c)) [
    | inl same ↦ subst HasRing ((==_iff count c).0 same) ring
    | inr other ↦ rings c (ground arith) high
  ]

  -- What the loop returns: nothing better, or the last of the counts before one without a ring.
  supported_loop_lem :
      (counts count supported : ℕ)
      → ((supported_loop graph all counts count supported ≡ supported)
          × ((counts ≡ 0) ⊎ HasNoRing count))
        ⊎ ((last : ℕ) × (supported_loop graph all counts count supported ≡ last)
            × (count ≤ last)
            × (last < count + counts)
            × ((c : ℕ) → count ≤ c → c ≤ last → HasRing c)
            × ((last + 1 ≡ count + counts) ⊎ HasNoRing (last + 1)))
  unfolding supported_loop
  supported_loop_lem zero count supported = inl (refl, inl refl)
  supported_loop_lem (suc counts) count supported =
      elim (Bool-cases (ring_supported graph (take count all) 0 (take count all))) [
        | inr no_ring ↦ inl (cc, inr no_ring)
        | inl ring ↦ elim (supported_loop_lem counts (count + 1) count) [
          | inl (same, stops) ↦ inr (
            count,
            cc,
            omega arith,
            omega arith,
            one_more count count ring (λ c low high. absurd (omega arith)),
            elim stops [ inl done ↦ inl (omega arith) | inr no_ring ↦ inr no_ring ],
          )
          | inr (last, result, low, high, rings, stops) ↦ inr (
            last,
            cc,
            omega arith,
            omega arith,
            one_more count last ring rings,
            elim stops [ inl done ↦ inl (omega arith) | inr no_ring ↦ inr no_ring ],
          )
        ]
      ]

module _ (graph : List Edge) (definition : Scenario)
    (is_ring : definition.mode ≡ max_participants) where
  -- A candidate that is selected: its first participants, with an edge from each to the next.
  abbrev pub SelectsRing : ℕ → Type 0
  SelectsRing count =
      (selection : EdgeSelection) × (select_multilateral_edges_for_candidate graph definition count
        ≡ ok selection)
      × (selection.participants ≡ take count definition.full_participant_set)
      × FollowsRing graph selection.participants 0 selection.participants selection.edges

  abbrev pub MissesEdge : ℕ → Type 0
  MissesEdge count =
      select_multilateral_edges_for_candidate graph definition count ≡ throw missing_edge

  ring-SelectsRing :
      (count : ℕ) → HasRing graph definition.full_participant_set count → SelectsRing count
  unfolding select_multilateral_edges_for_candidate
  ring-SelectsRing count ring =
      let participants = take count definition.full_participant_set in
      let (edges, built, follows) =
        ring_edges-FollowsRing graph participants 0 participants (omega arith) ring in
      (record { edges = edges; participants = participants }, cc, refl, follows)

  no_ring-MissesEdge :
      (count : ℕ) → HasNoRing graph definition.full_participant_set count → MissesEdge count
  unfolding select_multilateral_edges_for_candidate
  no_ring-MissesEdge count no_ring =
      let participants = take count definition.full_participant_set in
      let missing = ring_edges_missing graph participants 0 participants (omega arith) no_ring in cc

  -- The bound that is computed for the search over rings is the right one: if it is at least the lower
  -- bound of the scenario, every candidate from the lower bound to it is selected, with an edge of the
  -- graph from each of its participants to the next and from the last to the first. It is as large as
  -- was asked for, or the next candidate misses an edge. Otherwise it is 0: no candidate was asked
  -- for, or the smallest one misses an edge.
  pub max_supported_prefix_ring_participant_count_lem :
      (bound : ℕ) × (max_supported_prefix_ring_participant_count graph definition ≡ bound)
      × (((definition.lower_bound ≤ bound)
            × (bound ≤ min definition.upper_bound (length definition.full_participant_set))
            × ((c : ℕ) → definition.lower_bound ≤ c → c ≤ bound → SelectsRing c)
            × ((bound ≡ min definition.upper_bound (length definition.full_participant_set))
                ⊎ MissesEdge (bound + 1)))
          ⊎ ((bound ≡ 0)
              × ((min definition.upper_bound (length definition.full_participant_set)
                    < definition.lower_bound)
                  ⊎ MissesEdge definition.lower_bound)))
  unfolding max_supported_prefix_ring_participant_count
  max_supported_prefix_ring_participant_count_lem =
      let all = definition.full_participant_set in
      let requested = min definition.upper_bound (length all) in
      elim (supported_loop_lem graph all (requested + 1 - definition.lower_bound)
        definition.lower_bound 0) [
          | inl (same, stops) ↦ (
            0,
            same,
            inr (
              refl,
              elim stops [
                | inl nothing ↦ inl (omega arith)
                | inr no_ring ↦ inr (no_ring-MissesEdge definition.lower_bound no_ring)
              ],
            ),
          )
          | inr (last, result, low, high, rings, stops) ↦ (
            last,
            result,
            inl (
              low,
              omega arith,
              λ c from to. ring-SelectsRing c (rings c from to),
              elim stops [
                | inl done ↦ inl (omega arith)
                | inr no_ring ↦ inr (no_ring-MissesEdge (last + 1) no_ring)
              ],
            ),
          )
        ]
