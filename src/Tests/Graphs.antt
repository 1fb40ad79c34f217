-- ===== src/Tests/Graphs.antt =====
-- The dense graph of four participants, and the targets of a search.
use agon_protocol.Base.{true, arith}
use agon_protocol.Base.Int.{pos}
use agon_protocol.Capacity.Measure.{Measurement, bls_v0_alt}
use agon_protocol.Capacity.Search.{Summary}
use agon_protocol.Multilateral.{determine_multilateral_search_targets}
use agon_protocol.Multilateral.Targets.{CanRun, determine_multilateral_search_targets_lem}
use agon_protocol.Base.{ℕ, ◌*◌, ◌-◌, ◌≤◌, min, List, [], ◌∷◌, All, length, some, ◌≡◌, refl}
use agon_protocol.Graph.{
  build_bounded_dense_graph_pairs, dense_selection, append_rest, append_first, append_cycles,
  append_pair, append_indices, index_from, has_pair, build_ordered_participant_pairs,
  participant_rows, participant_row,
}
use agon_protocol.Graph.Selected.{IsChannel, Distinct, taken, build_bounded_dense_graph_pairs_lem}

abbrev four : List ℕ
four = 11 ∷ 22 ∷ 33 ∷ 44 ∷ []

six_channels :
    build_bounded_dense_graph_pairs four 6
    ≡ (some 11, some 22)
      ∷ (some 22, some 33)
      ∷ (some 33, some 11)
      ∷ (some 33, some 44)
      ∷ (some 44, some 11)
      ∷ (some 11, some 33)
      ∷ []
unfolding build_bounded_dense_graph_pairs dense_selection append_rest append_first append_cycles
    append_pair append_indices index_from has_pair build_ordered_participant_pairs participant_rows
    participant_row
six_channels = refl

build_bounded_dense_graph_pairs_lem_example :
    (pairs : List (ℕ × ℕ)) × (build_bounded_dense_graph_pairs four 6 ≡ taken four pairs)
    × Distinct pairs
    × All (IsChannel four) pairs
    × (length (build_bounded_dense_graph_pairs four 6) ≤ min 6 (length four * (length four - 1)))
build_bounded_dense_graph_pairs_lem_example = build_bounded_dense_graph_pairs_lem four 6

abbrev measurement : ℕ → ℕ → Measurement
measurement participants channels = record {
  mode = bls_v0_alt;
  participant_count = participants;
  channel_count = channels;
  message_bytes = 400;
  auth_envelope_bytes = 452;
  serialized_tx_bytes = 900;
  remaining_bytes = pos 332;
  participant_bucket_count = 2;
  channel_bucket_count = 5;
  dynamic_writable_account_count = 7;
  fits = true;
}

abbrev summary : Summary
summary = record {
  bls_cycle = measurement 12 12;
  bls_overall = measurement 10 40;
  bls_v0_alt_cycle = measurement 30 30;
  bls_v0_alt_overall = measurement 20 70;
}

determine_multilateral_search_targets_lem_example :
    CanRun 6 (determine_multilateral_search_targets summary 6).balanced
    × CanRun 6 (determine_multilateral_search_targets summary 6).overall
determine_multilateral_search_targets_lem_example =
    determine_multilateral_search_targets_lem summary 6 (omega arith, omega arith)
      (omega arith, omega arith) (omega arith)
