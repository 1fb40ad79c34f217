-- ===== src/Multilateral.antt =====
-- The search for the largest clearing round that executes: `findLargestSimulatedCandidate`,
-- `isBetterMaxChannelsEvaluation` and `determineMultilateralSearchTargets` of
-- scripts/ryvo-protocol-demo.ts. The evaluation of a candidate, which builds, signs and simulates a
-- transaction, is a parameter.
pub mod Search
pub mod Targets
pub mod Edges
pub mod Ring
pub mod Supported
pub mod Obligation
pub mod Round
pub mod Blocks
pub mod Order
pub mod Wire
pub mod Prepared
pub mod Submit
pub mod Adaptive
pub mod Live
use agon_protocol.Base.{
  ℕ, zero, suc, ◌+◌, ◌-◌, ◌*◌, ◌/◌, min, max, Bool, true, false, ◌&&◌, ◌||◌, not, ltb, ◌==◌,
  if◌then◌else◌, Option, none, some, List, [], ◌∷◌, ◌++◌, Outcome, ok, throw, ◌>>=◌,
  no_executable_candidate,
}
use agon_protocol.Base.Sorting.{sort}
use agon_protocol.Capacity.Measure.{Measurement}
use agon_protocol.Capacity.Search.{Summary}

pub record Candidate : Type 0 where
  pub participant_count : ℕ
  pub channel_count : ℕ

-- What the search reads of an evaluation.
pub record Evaluation : Type 0 where
  pub candidate : Candidate
  pub fits_packet : Bool
  pub simulation_passed : Bool

pub record SearchResult : Type 0 where
  pub best : Evaluation
  pub successful_candidates : List Evaluation

abbrev pub executes : Evaluation → Bool
executes e = e.fits_packet && e.simulation_passed

-- The order of `successfulCandidates.sort`: more channels first, then more participants.
unfoldable pub comes_before : Evaluation → Evaluation → Bool
comes_before left right =
    ltb right.candidate.channel_count left.candidate.channel_count
    || (left.candidate.channel_count == right.candidate.channel_count
        && ltb right.candidate.participant_count left.candidate.participant_count)

-- The loop `while (low <= high)`, with `above` for `high + 1`, which is 0 for a `high` of -1. Each
-- round leaves fewer numbers between `low` and `above`; the count is of the rounds allowed.
unfoldable pub search_loop :
    (ℕ → Outcome Evaluation)
    → ℕ
    → ℕ
    → ℕ
    → Option Evaluation
    → List Evaluation
    → Outcome (Option Evaluation × List Evaluation)
search_loop evaluate zero low above best successful = ok (best, successful)
search_loop evaluate (suc rounds) low above best successful = elim (ltb low above) [
  | false ↦ ok (best, successful)
  | true ↦ do
    evaluated ← evaluate ((low + (above - 1)) / 2)
    elim (executes evaluated) [
      | true ↦
          search_loop evaluate rounds ((low + (above - 1)) / 2 + 1) above (some evaluated)
            (successful ++ (evaluated ∷ []))
      | false ↦ search_loop evaluate rounds low ((low + (above - 1)) / 2) best successful
    ]
]

unfoldable pub find_largest_simulated_candidate :
    (ℕ → Outcome Evaluation) → ℕ → ℕ → Outcome SearchResult
find_largest_simulated_candidate evaluate lower_bound upper_bound = do
  (found, successful) ←
      search_loop evaluate (upper_bound + 1 - lower_bound) lower_bound (upper_bound + 1) none []
  elim found [
    | none ↦ throw no_executable_candidate
    | some best ↦ ok (record { best = best; successful_candidates = sort comes_before successful })
  ]

unfoldable pub is_better_max_channels_evaluation : Option Evaluation → Evaluation → Bool
is_better_max_channels_evaluation none candidate = true
is_better_max_channels_evaluation (some current) candidate =
    if not (candidate.candidate.channel_count == current.candidate.channel_count)
    then ltb current.candidate.channel_count candidate.candidate.channel_count
    else ltb current.candidate.participant_count candidate.candidate.participant_count

pub record SearchTarget : Type 0 where
  pub balanced : Candidate
  pub overall : Candidate

-- One of the two targets: the counts of a measurement, cut down to the participants there are.
abbrev pub target_of : Measurement → ℕ → Candidate
target_of m available_participants =
    let participants = max 3 (min m.participant_count available_participants) in
    record {
      participant_count = participants;
      channel_count = min m.channel_count (participants * (participants - 1));
    }

unfoldable pub determine_multilateral_search_targets : Summary → ℕ → SearchTarget
determine_multilateral_search_targets summary available_participants = record {
  balanced = target_of summary.bls_v0_alt_cycle available_participants;
  overall = target_of summary.bls_v0_alt_overall available_participants;
}
