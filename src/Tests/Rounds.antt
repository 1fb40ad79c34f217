-- ===== src/Tests/Rounds.antt =====
-- Synthetic rounds, their measurements and the searches.
use mathlib.Core.Path.{subst}
use agon_protocol.Base.{
  ℕ, ◌+◌, ◌-◌, ◌*◌, ◌≤◌, ◌<◌, ◌≢◌, ◌↔◌, ◌⊎◌, true, false, [], ◌∷◌, none, some, get_elem?, length,
  ok, ◌≡◌, refl, arith, All,
}
use agon_protocol.Compact.{encode_bytes, encode_loop}
use agon_protocol.Pair.{pair_ordinal, participant_bucket_id}
use agon_protocol.Base.Number.{as_number}
use agon_protocol.Capacity.Round.{
  SyntheticRound, build_synthetic_round, build_ordered_pairs, ordered_rows, ordered_row,
  add_channels, create_synthetic_message, push_blocks, add_channel, push_entry, empty_blocks,
  push_refs, capacity_channel_bucket_id, collect_participant_buckets,
}
use agon_protocol.Capacity.Pairs.{position, build_ordered_pairs_iff}
use agon_protocol.Capacity.Built.{entry_count, build_synthetic_round_iff}
use agon_protocol.Capacity.Measure.{
  bls, Web3, Measurement, measure_clearing_round_capacity, measure_round, estimate_legacy_size,
  estimate_v0_alt_size, shortvec_length, shortvec_loop,
}
use agon_protocol.Capacity.Search.{find_largest_cycle_round, find_largest_overall_round}
use agon_protocol.Capacity.Search.Grow.{Answers, range}
use agon_protocol.Capacity.Search.Cycle.{measured, find_largest_cycle_round_lem}
use agon_protocol.Capacity.Search.Rows.{Covers}
use agon_protocol.Capacity.Search.Overall.{
  find_largest_overall_round_lem, find_largest_overall_round-Covers,
}

pairs_of_3 : build_ordered_pairs 3 ≡ (0, 1) ∷ (1, 2) ∷ (2, 0) ∷ (0, 2) ∷ (1, 0) ∷ (2, 1) ∷ []
unfolding build_ordered_pairs ordered_rows ordered_row
pairs_of_3 = refl

build_ordered_pairs_iff_example :
    (get_elem? (build_ordered_pairs 3) 3 ≡ some (0, 2))
    ↔ ((0 < 3) × (2 < 3) × ◌≢◌ {A = ℕ} 0 2 × (3 ≡ position 3 0 2))
build_ordered_pairs_iff_example = build_ordered_pairs_iff 3 0 2 3

build_synthetic_round_iff_example :
    ((round : SyntheticRound) × (build_synthetic_round 3 4 ≡ ok round)
      × (length round.blocks ≡ 3)
      × (entry_count round.blocks ≡ 4))
    ↔ ((3 ≤ 3) × (3 ≤ 4) × (4 ≤ 3 * (3 - 1)))
build_synthetic_round_iff_example = build_synthetic_round_iff 3 4

-- 35 bytes for each account, and what is sent.
abbrev web3 : Web3
web3 = record {
  legacy_message_length = λ size participants channels.
      some (200 + size + 35 * (length participants + length channels));
  v0_transaction_length =
      λ size participants channels. some (265 + size + 4 * (length participants + length channels));
}

find_largest_cycle_round_lem_example :
    (more : ℕ) × (best : Measurement) × (find_largest_cycle_round web3 bls none none none ≡ ok best)
    × (measured web3 bls none none (3 + more) (3 + more) ≡ ok best)
    × (more ≤ 29)
    × All (Answers (λ n. measured web3 bls none none n n) (λ m. m.fits) true) (range 4 more)
    × ((more ≡ 29)
        ⊎ Answers (λ n. measured web3 bls none none n n) (λ m. m.fits) false (3 + more + 1))
find_largest_cycle_round_lem_example = find_largest_cycle_round_lem web3 bls none none none

find_largest_overall_round_lem_example :
    (first : Measurement) × (best : Measurement) × (measured web3 bls none none 3 3 ≡ ok first)
    × (find_largest_overall_round web3 bls none none none ≡ ok best)
    × ((best ≡ first)
        ⊎ ((measured web3 bls none none best.participant_count best.channel_count ≡ ok best)
            × (best.fits ≡ true)))
    × Covers best 3 3
find_largest_overall_round_lem_example = find_largest_overall_round_lem web3 bls none none none

best_found : Measurement
best_found = find_largest_overall_round_lem_example.1

best-found : find_largest_overall_round web3 bls none none none ≡ ok best_found
unfolding best_found
best-found = find_largest_overall_round_lem_example.3

three_fit : (m : Measurement) × (measured web3 bls none none 3 3 ≡ ok m) × (m.fits ≡ true)
unfolding measure_clearing_round_capacity build_synthetic_round add_channels build_ordered_pairs
    ordered_rows ordered_row measure_round estimate_legacy_size estimate_v0_alt_size shortvec_length
    shortvec_loop create_synthetic_message push_blocks add_channel push_entry empty_blocks push_refs
    encode_bytes encode_loop capacity_channel_bucket_id collect_participant_buckets pair_ordinal
    participant_bucket_id as_number
three_fit = (_, refl, refl)

find_largest_overall_round-Covers_example : Covers best_found 3 3
find_largest_overall_round-Covers_example =
    find_largest_overall_round-Covers web3 bls none none none 3 3 best_found best-found
      (omega arith) (omega arith) (omega arith) (omega arith)
      (λ c low high.
        subst
          (λ (t : ℕ).
            (m : Measurement) × (measured web3 bls none none 3 t ≡ ok m) × (m.fits ≡ true))
          (omega arith) three_fit)
