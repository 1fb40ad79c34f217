-- ===== src/Multilateral/Edges.antt =====
-- The channels of a candidate round: `multilateralEdgeKey`, `selectMultilateralEdgesForCandidate` and
-- `maxSupportedPrefixRingParticipantCount` of scripts/ryvo-protocol-demo.ts.
use agon_protocol.Base.{
  ℕ, zero, suc, ◌+◌, ◌-◌, ◌%◌, min, Bool, true, false, ◌&&◌, ◌||◌, ◌==◌, if◌then◌else◌, Option,
  none, some, List, [], ◌∷◌, Outcome, ok, throw, ◌>>=◌, length, get_elem?, take, filter,
  missing_edge, undefined_value,
}

-- A wallet, by its participant id and the address of its participant account.
pub record Wallet : Type 0 where
  pub participant_id : ℕ
  pub participant_pda : ℕ

-- A channel, by its address and the cumulative amount that is settled.
pub record Edge : Type 0 where
  pub payer : Wallet
  pub payee : Wallet
  pub channel_pda : ℕ
  pub settled_cumulative : ℕ

pub data Mode : Type 0 where
  max_participants : Mode
  max_channels : Mode

pub record Scenario : Type 0 where
  pub scenario_id : List ℕ
  pub mode : Mode
  pub full_participant_set : List Wallet
  pub lower_bound : ℕ
  pub upper_bound : ℕ

pub record EdgeSelection : Type 0 where
  pub edges : List Edge
  pub participants : List Wallet

-- The key is the text `payer->payee`, which is equal where both numbers are.
unfoldable pub has_edge_key : ℕ → ℕ → Edge → Bool
has_edge_key payer payee e = e.payer.participant_id == payer && e.payee.participant_id == payee

-- `edgeByKey.get(key)`: the last edge under the key.
unfoldable pub edge_by_key : ℕ → ℕ → List Edge → Option Edge
edge_by_key payer payee [] = none
edge_by_key payer payee (e ∷ es) = elim (edge_by_key payer payee es) [
  | some found ↦ some found
  | none ↦ if has_edge_key payer payee e then some e else none
]

-- `edgeKeys.has(key)`.
unfoldable pub has_edge : ℕ → ℕ → List Edge → Bool
has_edge payer payee [] = false
has_edge payer payee (e ∷ es) = has_edge_key payer payee e || has_edge payer payee es

-- The payee of a participant in a ring: the next one, and the first one behind the last.
abbrev pub next_of : List Wallet → ℕ → Option Wallet
next_of participants index = get_elem? participants ((index + 1) % length participants)

-- `participants.map((payer, index) => …)` from an index on.
unfoldable pub ring_edges : List Edge → List Wallet → ℕ → List Wallet → Outcome (List Edge)
ring_edges graph participants index [] = ok []
ring_edges graph participants index (payer ∷ payers) = elim (next_of participants index) [
  | none ↦ throw undefined_value
  | some payee ↦ elim (edge_by_key payer.participant_id payee.participant_id graph) [
    | none ↦ throw missing_edge
    | some edge ↦ do edges ← ring_edges graph participants (index + 1) payers; ok (edge ∷ edges)
  ]
]

-- `participants.every((payer, index) => …)` from an index on; the next participant is never missing.
unfoldable pub ring_supported : List Edge → List Wallet → ℕ → List Wallet → Bool
ring_supported graph participants index [] = true
ring_supported graph participants index (payer ∷ payers) = elim (next_of participants index) [
  | none ↦ false
  | some payee ↦
      has_edge payer.participant_id payee.participant_id graph
      && ring_supported graph participants (index + 1) payers
]

-- `participantIds.has(id)`.
unfoldable pub has_participant : ℕ → List Wallet → Bool
has_participant id [] = false
has_participant id (p ∷ ps) = p.participant_id == id || has_participant id ps

unfoldable pub is_eligible : List Wallet → Edge → Bool
is_eligible participants e =
    has_participant e.payer.participant_id participants
    && has_participant e.payee.participant_id participants

unfoldable pub select_multilateral_edges_for_candidate :
    List Edge → Scenario → ℕ → Outcome EdgeSelection
select_multilateral_edges_for_candidate graph definition candidate_value = elim definition.mode [
  | max_participants ↦
      let participants = take candidate_value definition.full_participant_set in
      do
        edges ← ring_edges graph participants 0 participants
        ok (record { edges = edges; participants = participants })
  | max_channels ↦ ok (record {
    edges = take candidate_value (filter (is_eligible definition.full_participant_set) graph);
    participants = definition.full_participant_set;
  })
]

-- The `for` loop over participant counts, with the counts that are left.
unfoldable pub supported_loop : List Edge → List Wallet → ℕ → ℕ → ℕ → ℕ
supported_loop graph participants zero count supported = supported
supported_loop graph participants (suc counts) count supported =
    let rest = supported_loop graph participants counts (count + 1) count in
    if ring_supported graph (take count participants) 0 (take count participants)
    then rest
    else supported

unfoldable pub max_supported_prefix_ring_participant_count : List Edge → Scenario → ℕ
max_supported_prefix_ring_participant_count graph definition =
    let requested = min definition.upper_bound (length definition.full_participant_set) in
    supported_loop graph definition.full_participant_set (requested + 1 - definition.lower_bound)
      definition.lower_bound 0
