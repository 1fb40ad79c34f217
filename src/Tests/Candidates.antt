-- ===== src/Tests/Candidates.antt =====
-- Candidates of the search for a round: their channels, the round that is prepared, and its submission.
use mathlib.Core.List.{Permᴰ}
use agon_protocol.Base.{
  ℕ, ◌+◌, ◌-◌, ◌*◌, if◌then◌else◌, ◌≤◌, ◌<◌, true, ltb, leb, List, [], ◌∷◌, map, length, ok, throw,
  Fault, nothing_submitted, ◌⊎◌, ◌≡◌, refl, arith,
}
use agon_protocol.Base.Reordered.{sum_of}
use agon_protocol.Base.Sorting.{sort, insert}
use agon_protocol.Message.Program.{read_clearing_round}
use agon_protocol.Multilateral.{Evaluation}
use agon_protocol.Multilateral.Edges.{
  Wallet, Edge, Scenario, EdgeSelection, max_participants,
  max_supported_prefix_ring_participant_count, supported_loop, ring_supported, has_edge,
  has_edge_key, has_participant,
}
use agon_protocol.Multilateral.Supported.{
  SelectsRing, MissesEdge, max_supported_prefix_ring_participant_count_lem,
}
use agon_protocol.Multilateral.Obligation.{
  AmountParams, deterministic_raw_channel_amount, deterministic_raw_channel_amount_bounds,
}
use agon_protocol.Multilateral.Round.{
  RoundContext, PreparedRound, prepare_multilateral_round, ordered_edges, edge_before, index_by_id,
}
use agon_protocol.Multilateral.Blocks.{blocks_with, obligation}
use agon_protocol.Multilateral.Order.{InOrder}
use agon_protocol.Multilateral.Prepared.{FitsRound, entries_of, prepare_multilateral_round_lem}
use agon_protocol.Multilateral.Wire.{wire_block}
use agon_protocol.Multilateral.Submit.{
  SearchContext, BestEvaluation, Submission, submitted, live_failed,
  submit_largest_live_multilateral_scenario, run_adaptive_max_channels_scenario,
}
use agon_protocol.Multilateral.Adaptive.{InRange, Oracle, by_counts}
use agon_protocol.Multilateral.Adaptive.Largest.{run_adaptive_max_channels_scenario_lem}
use agon_protocol.Tests.Messages.{node_bn}

abbrev wallet : ℕ → Wallet
wallet id = record { participant_id = id; participant_pda = 1000 + id }

abbrev edge : ℕ → ℕ → ℕ → Edge
edge payer payee settled = record {
  payer = wallet payer;
  payee = wallet payee;
  channel_pda = 10 * payer + payee;
  settled_cumulative = settled;
}

abbrev wallets : List Wallet
wallets = wallet 4 ∷ wallet 5 ∷ wallet 6 ∷ wallet 7 ∷ []

-- A ring of the first three, and a channel back.
abbrev graph : List Edge
graph = edge 6 4 30 ∷ edge 4 5 10 ∷ edge 5 6 20 ∷ edge 5 4 0 ∷ []

abbrev rings : Scenario
rings = record {
  scenario_id = [];
  mode = max_participants;
  full_participant_set = wallets;
  lower_bound = 3;
  upper_bound = 8;
}

-- Four participants have no ring.
supported_three : max_supported_prefix_ring_participant_count graph rings ≡ 3
unfolding max_supported_prefix_ring_participant_count supported_loop ring_supported has_edge
    has_edge_key
supported_three = refl

max_supported_prefix_ring_participant_count_lem_example :
    (bound : ℕ) × (max_supported_prefix_ring_participant_count graph rings ≡ bound)
    × (((3 ≤ bound)
          × (bound ≤ 4)
          × ((c : ℕ) → 3 ≤ c → c ≤ bound → SelectsRing graph rings refl c)
          × ((bound ≡ 4) ⊎ MissesEdge graph rings refl (bound + 1)))
        ⊎ ((bound ≡ 0) × ((4 < 3) ⊎ MissesEdge graph rings refl 3)))
max_supported_prefix_ring_participant_count_lem_example =
    max_supported_prefix_ring_participant_count_lem graph rings refl

abbrev digest : List ℕ → List ℕ
digest text = length text ∷ 7 ∷ 7 ∷ 7 ∷ 7 ∷ 7 ∷ 7 ∷ 7 ∷ 9 ∷ []

abbrev amounts : AmountParams
amounts = record { seed = 1 ∷ []; scenario_id = 2 ∷ []; min_raw = 100; max_raw = 250 }

deterministic_raw_channel_amount_bounds_example :
    (100 ≤ deterministic_raw_channel_amount digest amounts (edge 4 5 10))
    × (deterministic_raw_channel_amount digest amounts (edge 4 5 10) ≤ 250)
deterministic_raw_channel_amount_bounds_example =
    deterministic_raw_channel_amount_bounds digest amounts (edge 4 5 10)

abbrev domain : List ℕ
domain = 0 ∷ 1 ∷ 2 ∷ 3 ∷ 4 ∷ 5 ∷ 6 ∷ 7 ∷ 8 ∷ 9 ∷ 10 ∷ 11 ∷ 12 ∷ 13 ∷ 14 ∷ 15 ∷ []

abbrev round_context : RoundContext
round_context = record {
  token_id = 1;
  message_domain = domain;
  amounts = amounts;
  edge_commitment_count = 3;
}

abbrev selection : EdgeSelection
selection = record { edges = graph; participants = wallet 4 ∷ wallet 5 ∷ wallet 6 ∷ [] }

at_most : (e : Edge) → deterministic_raw_channel_amount digest amounts e ≤ 250
at_most e = (deterministic_raw_channel_amount_bounds digest amounts e).1

selection-FitsRound : FitsRound digest round_context selection
unfolding ordered_edges edge_before sort insert index_by_id has_participant
selection-FitsRound = record {
  token = omega arith;
  domain = refl;
  min_raw = omega arith;
  max_raw = omega arith;
  some_participant = omega arith;
  few_participants = omega arith;
  distinct = ((refl, (refl, tt)), ((refl, tt), (tt, tt)));
  ids = (omega arith, (omega arith, (omega arith, tt)));
  few_entries = (omega arith, (omega arith, (omega arith, tt)));
  edges = (
    (refl, refl, omega (arith, at_most _)),
    (
      (refl, refl, omega (arith, at_most _)),
      ((refl, refl, omega (arith, at_most _)), ((refl, refl, omega (arith, at_most _)), tt)),
    ),
  );
  total = omega (
    arith,
    at_most (edge 6 4 30),
    at_most (edge 4 5 10),
    at_most (edge 5 6 20),
    at_most (edge 5 4 0),
  );
}

prepare_multilateral_round_lem_example :
    (prepared : PreparedRound) × (prepare_multilateral_round digest round_context node_bn selection
      ≡ ok prepared)
    × Permᴰ prepared.edges graph
    × InOrder selection.participants prepared.edges
    × (prepared.round_blocks
        ≡ blocks_with (entries_of digest round_context selection) selection.participants)
    × (prepared.total_gross_routed
        ≡ sum_of (obligation digest round_context selection.participants) graph)
    × (read_clearing_round prepared.message domain
        ≡ ok (
          1,
          map (wire_block (entries_of digest round_context selection)) selection.participants,
        ))
prepare_multilateral_round_lem_example =
    prepare_multilateral_round_lem digest round_context selection selection-FitsRound node_bn

-- Rounds of up to `limit` channels, less one, execute.
abbrev limit : ℕ → ℕ
limit n = 7 - n

abbrev counted : ℕ → ℕ → Evaluation
counted n c = record {
  candidate = record { participant_count = n; channel_count = c };
  fits_packet = ltb c (limit n);
  simulation_passed = true;
}

abbrev context : SearchContext
context = record {
  full_participants = wallets;
  complete_graph_edges = graph;
  dense_channel_cap = 5;
}

counted-Oracle : Oracle context [] counted limit
counted-Oracle = record { counted = λ n c. refl; limited = λ n c in_range. ground arith }

-- The node accepts rounds of up to three channels.
abbrev submit : Scenario → Evaluation → Submission ℕ
submit definition e =
    if leb e.candidate.channel_count 3 then submitted 17 else live_failed nothing_submitted

run_adaptive_max_channels_scenario_lem_example :
    ((fault : Fault) × (run_adaptive_max_channels_scenario
          (by_counts context [] counted limit)
          context
          submit
          []
        ≡ throw fault)
      × ((n c : ℕ) → InRange context [] counted limit n c → limit n ≤ c))
    ⊎ ((best : BestEvaluation) × (n c : ℕ) × (run_adaptive_max_channels_scenario
            (by_counts context [] counted limit)
            context
            submit
            []
          ≡ submit_largest_live_multilateral_scenario submit best.definition best.result)
        × (best.result.best ≡ counted n c)
        × InRange context [] counted limit n c
        × (c < limit n)
        × ((n' c' : ℕ) → InRange context [] counted limit n' c' → c' < limit n' → c' ≤ c))
run_adaptive_max_channels_scenario_lem_example =
    run_adaptive_max_channels_scenario_lem context [] counted limit counted-Oracle submit

abbrev evaluations : List Evaluation
evaluations = counted 3 2 ∷ counted 3 4 ∷ counted 3 3 ∷ []
