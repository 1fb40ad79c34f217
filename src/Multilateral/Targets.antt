-- ===== src/Multilateral/Targets.antt =====
-- The targets of the search are rounds that can be built.
use native.Mathlib.Nat.{mul-le-mul_left}
use agon_protocol.Base.{ℕ, ◌-◌, ◌*◌, ◌≤◌, min, max, arith, ok, ◌≡◌}
use agon_protocol.Capacity.Measure.{Measurement}
use agon_protocol.Capacity.Round.{SyntheticRound, build_synthetic_round}
use agon_protocol.Capacity.Built.{build_synthetic_round_iff}
use agon_protocol.Capacity.Search.{Summary}
use agon_protocol.Multilateral.{Candidate, target_of, determine_multilateral_search_targets}

-- A round with this many participants and channels, of no more participants than there are.
abbrev pub CanRun : ℕ → Candidate → Type 0
CanRun available target =
    (target.participant_count ≤ available)
    × (round : SyntheticRound) × (build_synthetic_round target.participant_count
          target.channel_count
        ≡ ok round)

-- The counts of a round: enough participants, and a channel from each.
abbrev pub IsRound : Measurement → Type 0
IsRound m = (3 ≤ m.participant_count) × (m.participant_count ≤ m.channel_count)

target_of-CanRun :
    (m : Measurement) (available : ℕ)
    → IsRound m
    → 3 ≤ available
    → CanRun available (target_of m available)
target_of-CanRun m available is_round enough =
    let participants = max 3 (min m.participant_count available) in
    let two : 2 ≤ participants - 1 = omega arith in
    let pairs = mul-le-mul_left participants two in
    let built =
      (build_synthetic_round_iff participants
          (min m.channel_count (participants * (participants - 1)))).1
        (omega arith, omega (arith, is_round.0, is_round.1), omega arith) in
    (omega arith, built.0, built.1)

-- Where the capacity analysis measured rounds and at least three participants are available, both targets
-- are rounds that can be built and that the available participants can fill.
pub determine_multilateral_search_targets_lem :
    (summary : Summary) (available : ℕ)
    → IsRound summary.bls_v0_alt_cycle
    → IsRound summary.bls_v0_alt_overall
    → 3 ≤ available
    → CanRun available (determine_multilateral_search_targets summary available).balanced
      × CanRun available (determine_multilateral_search_targets summary available).overall
unfolding determine_multilateral_search_targets
determine_multilateral_search_targets_lem summary available cycle overall enough = (
  target_of-CanRun summary.bls_v0_alt_cycle available cycle enough,
  target_of-CanRun summary.bls_v0_alt_overall available overall enough,
)
