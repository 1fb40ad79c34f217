-- ===== src/Tests/Searches.antt =====
-- The searches for the largest bundle and for the largest executable round, and the yield amounts.
use agon_protocol.Base.{
  ℕ, ◌+◌, ◌*◌, ◌^◌, ◌≤◌, ◌<◌, ◌⊎◌, true, false, ltb, none, some, length, ok, throw, ◌≡◌, arith, All,
  no_executable_candidate,
}
use agon_protocol.Capacity.Unilateral.{
  SettlementWeb3, BundleMeasurement, find_largest_bundle_settlement_entry_count,
  measure_bundle_settlement_capacity,
}
use agon_protocol.Capacity.Search.Grow.{Answers, range}
use agon_protocol.Capacity.Unilateral.Bundle.{
  bundle_measured, find_largest_bundle_settlement_entry_count_lem,
}
use agon_protocol.Multilateral.{
  Evaluation, SearchResult, executes, find_largest_simulated_candidate,
}
use agon_protocol.Multilateral.Search.{evaluate, find_largest_simulated_candidate_lem}
use agon_protocol.Yield.{
  YieldStrategySnapshot, q64, usdc_to_ag_shares, ag_shares_to_usdc, next_commitment_amount_usd,
}
use agon_protocol.Yield.Rounding.{
  ag_shares_to_usdc-usdc_to_ag_shares, next_commitment_amount_usd_split,
}

abbrev web3 : SettlementWeb3
web3 = record {
  individual_message_length = λ size accounts. some (200 + size + 35 * length accounts);
  bundle_transaction_length =
      λ size payee payers channels. some (265 + size + (length payers + length channels));
}

find_largest_bundle_settlement_entry_count_lem_example :
    (more : ℕ) × (best : BundleMeasurement) × (find_largest_bundle_settlement_entry_count web3 28
        none none
      ≡ ok best)
    × (best ≡ measure_bundle_settlement_capacity web3 28 none (1 + more))
    × (best.auth_envelope_bytes ≡ 2 + (1 + more) * (110 + 28))
    × (more ≤ 31)
    × All (Answers (bundle_measured web3 28 none) (λ m. m.fits) true) (range 2 more)
    × ((more ≡ 31) ⊎ Answers (bundle_measured web3 28 none) (λ m. m.fits) false (1 + more + 1))
find_largest_bundle_settlement_entry_count_lem_example =
    find_largest_bundle_settlement_entry_count_lem web3 28 none none

-- A cycle of `n` participants; those below 10 execute.
abbrev cycle : ℕ → Evaluation
cycle n = record {
  candidate = record { participant_count = n; channel_count = n };
  fits_packet = ltb n 10;
  simulation_passed = true;
}

find_largest_simulated_candidate_lem_example :
    (◌≡◌ {A = ℕ} 3 10
      × (find_largest_simulated_candidate (evaluate cycle) 3 32 ≡ throw no_executable_candidate))
    ⊎ ((3 < 10)
        × (result : SearchResult) × (find_largest_simulated_candidate (evaluate cycle) 3 32
            ≡ ok result)
        × (result.best ≡ cycle 9))
find_largest_simulated_candidate_lem_example =
    find_largest_simulated_candidate_lem cycle 3 32 10 (omega arith) (omega arith) oracle
  where
    oracle : (n : ℕ) → 3 ≤ n → n < 33 → executes (cycle n) ≡ ltb n 10
    oracle n low high = ground arith

-- One share is worth a unit and a half.
abbrev strategy : YieldStrategySnapshot
strategy = record { user_index_q64 = 3 * 2 ^ 63 }

ag_shares_to_usdc-usdc_to_ag_shares_example :
    (shares : ℕ) × (usdc_to_ag_shares strategy 100 ≡ ok shares)
    × (ag_shares_to_usdc strategy shares ≤ 100)
    × (100 * q64 < (ag_shares_to_usdc strategy shares + 1) * q64 + 3 * 2 ^ 63)
ag_shares_to_usdc-usdc_to_ag_shares_example =
    ag_shares_to_usdc-usdc_to_ag_shares strategy 100 (omega arith)

next_commitment_amount_usd_split_example :
    (first : ℕ) × (second : ℕ) × (whole : ℕ) × (next_commitment_amount_usd 50 100 strategy
      ≡ ok first)
    × (next_commitment_amount_usd first 31 strategy ≡ ok second)
    × (next_commitment_amount_usd 50 (100 + 31) strategy ≡ ok whole)
    × (50 ≤ first)
    × (first ≤ second)
    × (second ≤ whole)
    × (whole ≤ second + 1)
next_commitment_amount_usd_split_example =
    next_commitment_amount_usd_split strategy 50 100 31 (omega arith)
