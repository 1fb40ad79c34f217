-- ===== src/Multilateral/Order.antt =====
-- The order of the edges of a round.
use mathlib.Core.List.{Permᴰ}
use agon_protocol.Base.{◌≤◌, ◌<◌, ◌⊎◌, true, false, List, [], ◌∷◌, All, ◌≡◌, arith}
use agon_protocol.Base.Sorting.{sort, sort-Permᴰ, Sorted, sort-Sorted}
use agon_protocol.Base.Reordered.{All-weaken}
use agon_protocol.Multilateral.Edges.{Wallet, Edge, EdgeSelection}
use agon_protocol.Multilateral.Round.{index_or_max, edge_before, ordered_edges}

pub ordered_edges-Permᴰ : (s : EdgeSelection) → Permᴰ (ordered_edges s) s.edges
unfolding ordered_edges
ordered_edges-Permᴰ s = sort-Permᴰ (edge_before s.participants) s.edges

-- `left` may stand before `right`: its payer has a lower index, or the same and its payee no higher one.
abbrev pub MayPrecede : List Wallet → Edge → Edge → Type 0
MayPrecede ps left right =
    (index_or_max ps left.payer.participant_id < index_or_max ps right.payer.participant_id)
    ⊎ ((index_or_max ps left.payer.participant_id ≡ index_or_max ps right.payer.participant_id)
        × (index_or_max ps left.payee.participant_id ≤ index_or_max ps right.payee.participant_id))

abbrev pub InOrder : List Wallet → List Edge → Type 0
InOrder ps [] = Unit
InOrder ps (e ∷ es) = All (MayPrecede ps e) es × InOrder ps es

edge_before_asym :
    (ps : List Wallet) (a b : Edge) → edge_before ps a b ≡ true → edge_before ps b a ≡ false
unfolding edge_before
edge_before_asym ps a b h = ground arith

edge_before_chain :
    (ps : List Wallet) (a b c : Edge)
    → edge_before ps b a ≡ false
    → edge_before ps c b ≡ false
    → edge_before ps c a ≡ false
unfolding edge_before
edge_before_chain ps a b c h k = ground arith

may_precede :
    (ps : List Wallet) (left right : Edge)
    → edge_before ps right left ≡ false
    → MayPrecede ps left right
unfolding edge_before
may_precede ps left right h = ground arith

Sorted-InOrder : (ps : List Wallet) (es : List Edge) → Sorted (edge_before ps) es → InOrder ps es
Sorted-InOrder ps [] h = tt
Sorted-InOrder ps (e ∷ es) (all, sorted) = (
  All-weaken (λ x. edge_before ps x e ≡ false) (MayPrecede ps e) es (may_precede ps e) all,
  Sorted-InOrder ps es sorted,
)

pub ordered_edges-InOrder : (s : EdgeSelection) → InOrder s.participants (ordered_edges s)
unfolding ordered_edges
ordered_edges-InOrder s =
    Sorted-InOrder s.participants (sort (edge_before s.participants) s.edges) (
      sort-Sorted (edge_before s.participants) (edge_before_asym s.participants)
        (edge_before_chain s.participants) s.edges)
