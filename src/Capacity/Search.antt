-- ===== src/Capacity/Search.antt =====
-- The searches for the largest settlement that fits: `findLargestCycleRound` and
-- `findLargestOverallRound` of scripts/lib/clearing-round-capacity.ts.
pub mod Grow
pub mod Cycle
pub mod Rows
pub mod Overall
use agon_protocol.Base.{
  ℕ, zero, suc, ◌+◌, ◌-◌, ◌*◌, Bool, ◌&&◌, ◌||◌, ltb, ◌==◌, if◌then◌else◌, Option, none, some,
  Outcome, ok, ◌>>=◌,
}
use agon_protocol.Capacity.Measure.{
  CapacityMode, Web3, Measurement, given_or, measure_clearing_round_capacity, bls, bls_v0_alt,
}

-- A loop `for (; count <= max; count += 1)` that keeps the last measurement and stops at the first
-- one that does not fit, with `rounds` more counts to try.
unfoldable pub grow : {M : Type 0} → (ℕ → Outcome M) → (M → Bool) → ℕ → ℕ → M → Outcome M
grow measure fits zero count best = ok best
grow measure fits (suc rounds) count best = do
  measurement ← measure count
  let rest = grow measure fits rounds (count + 1) measurement
  if fits measurement then rest else ok best

-- The test that replaces the best measurement.
unfoldable pub is_larger : Measurement → Measurement → Bool
is_larger measurement best =
    ltb best.channel_count measurement.channel_count
    || (measurement.channel_count == best.channel_count
        && ltb best.participant_count measurement.participant_count)

-- The inner loop of `findLargestOverallRound`, on `rounds` more channel counts.
unfoldable pub overall_row : (ℕ → Outcome Measurement) → ℕ → ℕ → Measurement → Outcome Measurement
overall_row measure zero channel_count best = ok best
overall_row measure (suc rounds) channel_count best = do
  measurement ← measure channel_count
  let best' = if is_larger measurement best then measurement else best
  let rest = overall_row measure rounds (channel_count + 1) best'
  if measurement.fits then rest else ok best

-- The outer loop, on `rounds` more participant counts.
unfoldable pub overall_rows :
    (ℕ → ℕ → Outcome Measurement) → ℕ → ℕ → Measurement → Outcome Measurement
overall_rows measure zero participant_count best = ok best
overall_rows measure (suc rounds) participant_count best = do
  let most = participant_count * (participant_count - 1)
  best' ←
      overall_row (measure participant_count) (suc most - participant_count) participant_count best
  overall_rows measure rounds (participant_count + 1) best'

pub record Summary : Type 0 where
  pub bls_cycle : Measurement
  pub bls_overall : Measurement
  pub bls_v0_alt_cycle : Measurement
  pub bls_v0_alt_overall : Measurement

module _ (web3 : Web3) where
  unfoldable pub find_largest_cycle_round :
      CapacityMode → Option ℕ → Option ℕ → Option ℕ → Outcome Measurement
  find_largest_cycle_round mode max_participants packet_size signature_size = do
    let measure = λ (count : ℕ).
        measure_clearing_round_capacity web3 mode count count packet_size signature_size
    best ← measure 3
    grow measure (λ m. m.fits) (given_or max_participants 32 - 3) 4 best

  unfoldable pub find_largest_overall_round :
      CapacityMode → Option ℕ → Option ℕ → Option ℕ → Outcome Measurement
  find_largest_overall_round mode max_participants packet_size signature_size = do
    let measure = λ (participants channels : ℕ).
        measure_clearing_round_capacity web3 mode participants channels packet_size signature_size
    best ← measure 3 3
    overall_rows measure (given_or max_participants 32 - 2) 3 best

  -- `maxParticipants` and `packetDataSize` are not given there.
  unfoldable pub summarize_clearing_round_capacity : Option ℕ → Outcome Summary
  summarize_clearing_round_capacity signature_size = do
    let size = some (given_or signature_size 48)
    bls_cycle ← find_largest_cycle_round bls none none size
    bls_overall ← find_largest_overall_round bls none none size
    bls_v0_alt_cycle ← find_largest_cycle_round bls_v0_alt none none size
    bls_v0_alt_overall ← find_largest_overall_round bls_v0_alt none none size
    ok (record {
      bls_cycle = bls_cycle;
      bls_overall = bls_overall;
      bls_v0_alt_cycle = bls_v0_alt_cycle;
      bls_v0_alt_overall = bls_v0_alt_overall;
    })
