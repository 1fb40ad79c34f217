-- ===== src/Multilateral/Submit.antt =====
-- The scenarios that search for a round and submit it: `submitLargestLiveMultilateralScenario`,
-- `runBinarySearchMultilateralScenario` and `runAdaptiveMaxChannelsScenario` of
-- scripts/ryvo-protocol-demo.ts. The evaluation of a candidate and the submission of a round, which send
-- transactions, are parameters.
use agon_protocol.Base.{
  ℕ, zero, suc, ◌+◌, ◌-◌, min, max, Bool, false, ◌&&◌, ◌||◌, ltb, leb, ◌==◌, if◌then◌else◌, Option,
  none, some, List, [], ◌∷◌, length, take, filter, Outcome, ok, throw, ◌>>=◌, Fault,
  no_executable_candidate, nothing_submitted, ring_too_short,
}
use agon_protocol.Multilateral.{
  Evaluation, SearchResult, find_largest_simulated_candidate, is_better_max_channels_evaluation,
}
use agon_protocol.Multilateral.Edges.{
  Wallet, Edge, max_participants, max_channels, Scenario, is_eligible,
  max_supported_prefix_ring_participant_count,
}

-- How the submission of a prepared round ends: with a result, a `LiveMultilateralSubmitError`, or
-- another error.
pub data Submission (R : Type 0) : Type 0 where
  submitted : R → Submission R
  live_failed : Fault → Submission R
  failed : Fault → Submission R

-- `candidates.some(…)`: a candidate as large as the best one.
unfoldable pub has_candidate : Evaluation → List Evaluation → Bool
has_candidate best [] = false
has_candidate best (e ∷ es) =
    (e.candidate.participant_count == best.candidate.participant_count
      && e.candidate.channel_count == best.candidate.channel_count)
    || has_candidate best es

unfoldable pub live_candidates : SearchResult → List Evaluation
live_candidates result =
    if has_candidate result.best result.successful_candidates
    then result.successful_candidates
    else result.best ∷ result.successful_candidates

-- What the scenarios read of the search context.
pub record SearchContext : Type 0 where
  pub full_participants : List Wallet
  pub complete_graph_edges : List Edge
  pub dense_channel_cap : ℕ

-- The best evaluation so far, with the scenario it was found for, and the last error.
pub record BestEvaluation : Type 0 where
  pub definition : Scenario
  pub result : SearchResult

pub record AdaptiveState : Type 0 where
  pub best : Option BestEvaluation
  pub last_error : Option Fault

abbrev pub no_evaluation : AdaptiveState
no_evaluation = record { best = none; last_error = none }

abbrev pub best_attempt : Option BestEvaluation → Option Evaluation
best_attempt none = none
best_attempt (some b) = some b.result.best

-- `best ? best.attempt.candidate.channelCount + 1 : participantCount`.
abbrev pub next_channel_count : Option BestEvaluation → ℕ → ℕ
next_channel_count none participant_count = participant_count
next_channel_count (some b) participant_count = b.result.best.candidate.channel_count + 1

-- `best && upperBound <= best.attempt.candidate.channelCount`.
abbrev pub is_covered : Option BestEvaluation → ℕ → Bool
is_covered none upper_bound = false
is_covered (some b) upper_bound = leb upper_bound b.result.best.candidate.channel_count

-- The channels that the cap leaves to the first participants.
unfoldable pub channel_upper_bound : SearchContext → ℕ → ℕ
channel_upper_bound context participant_count = min context.dense_channel_cap (
    length (
      filter (is_eligible (take participant_count context.full_participants))
        context.complete_graph_edges))

unfoldable pub channel_scenario : SearchContext → List ℕ → ℕ → ℕ → Scenario
channel_scenario context scenario_id participant_count lower_bound = record {
  scenario_id = scenario_id;
  mode = max_channels;
  full_participant_set = take participant_count context.full_participants;
  lower_bound = lower_bound;
  upper_bound = channel_upper_bound context participant_count;
}

-- `lastError instanceof Error ? lastError : new Error(…)`.
abbrev pub error_or : Option Fault → Fault → Fault
error_or none fault = fault
error_or (some error) fault = error

module _ {R : Type 0} (submit : Scenario → Evaluation → Submission R) (definition : Scenario) where
  -- The loop over the candidates, with the last live error.
  unfoldable pub submit_loop : List Evaluation → Option Fault → Outcome R
  submit_loop [] last_error = throw (error_or last_error nothing_submitted)
  submit_loop (e ∷ es) last_error = elim (submit definition e) [
    | submitted result ↦ ok result
    | live_failed fault ↦ submit_loop es (some fault)
    | failed fault ↦ throw fault
  ]

  unfoldable pub submit_largest_live_multilateral_scenario : SearchResult → Outcome R
  submit_largest_live_multilateral_scenario result = submit_loop (live_candidates result) none

module _ (evaluate : Scenario → ℕ → Outcome Evaluation) (context : SearchContext) where
  -- The scenario that is searched: a ring is not longer than the graph supports.
  unfoldable pub search_definition : Scenario → Outcome Scenario
  search_definition definition = elim definition.mode [
    | max_channels ↦ ok definition
    | max_participants ↦
        let supported =
          max_supported_prefix_ring_participant_count context.complete_graph_edges definition in
        if ltb supported definition.lower_bound
        then throw ring_too_short
        else if ltb supported definition.upper_bound
        then ok (record definition { upper_bound = supported })
        else ok definition
  ]

  -- The search for one participant count; an error of it is kept.
  unfoldable pub search_channels : List ℕ → ℕ → ℕ → AdaptiveState → AdaptiveState
  search_channels scenario_id participant_count lower_bound state =
      let definition = channel_scenario context scenario_id participant_count lower_bound in
      elim (find_largest_simulated_candidate (evaluate definition) lower_bound
        definition.upper_bound) [
          | throw fault ↦ record state { last_error = some fault }
          | ok result ↦
              if is_better_max_channels_evaluation (best_attempt state.best) result.best
              then record state {
                best = some (record { definition = definition; result = result });
              }
              else state
        ]

  unfoldable pub adaptive_step : List ℕ → ℕ → AdaptiveState → AdaptiveState
  adaptive_step scenario_id participant_count state =
      let upper_bound = channel_upper_bound context participant_count in
      let lower_bound = max participant_count (next_channel_count state.best participant_count) in
      if ltb upper_bound participant_count
        || is_covered state.best upper_bound
        || ltb upper_bound lower_bound
      then state
      else search_channels scenario_id participant_count lower_bound state

  -- The loop from `counts + 2` participants down to 3.
  unfoldable pub adaptive_loop : List ℕ → ℕ → AdaptiveState → AdaptiveState
  adaptive_loop scenario_id zero state = state
  adaptive_loop scenario_id (suc counts) state =
      adaptive_loop scenario_id counts (adaptive_step scenario_id (counts + 3) state)

  module _ {R : Type 0} (submit : Scenario → Evaluation → Submission R) where
    unfoldable pub run_binary_search_multilateral_scenario : Scenario → Outcome R
    run_binary_search_multilateral_scenario definition = do
      searched ← search_definition definition
      result ←
          find_largest_simulated_candidate (evaluate searched) searched.lower_bound
            searched.upper_bound
      submit_largest_live_multilateral_scenario submit searched result

    unfoldable pub run_adaptive_max_channels_scenario : List ℕ → Outcome R
    run_adaptive_max_channels_scenario scenario_id =
        let state =
          adaptive_loop scenario_id (length context.full_participants - 2) no_evaluation in
        elim state.best [
          | none ↦ throw (error_or state.last_error no_executable_candidate)
          | some best ↦ submit_largest_live_multilateral_scenario submit best.definition best.result
        ]
