-- ===== src/Multilateral/Live.antt =====
-- The order in which the candidates of a search are submitted.
use mathlib.Core.List.{Memᴰ}
use agon_protocol.Base.{true, List, Outcome, ok, throw, Fault, All, ◌⊎◌, ◌≡◌}
use agon_protocol.Multilateral.{Evaluation, comes_before}
use agon_protocol.Multilateral.Edges.{Scenario}
use agon_protocol.Multilateral.Submit.{Submission, submitted, live_failed, failed}

module _ {R : Type 0} (submit : Scenario → Evaluation → Submission R) (definition : Scenario) where
  abbrev pub LiveFailed : Evaluation → Type 0
  LiveFailed e = (fault : Fault) × (submit definition e ≡ live_failed fault)

  -- Among these, those that come before a candidate failed when they were submitted.
  abbrev pub LargerFailed : List Evaluation → Evaluation → Type 0
  LargerFailed es e = All (λ e'. comes_before e' e ≡ true → LiveFailed e') es

  abbrev pub Ends : List Evaluation → Outcome R → Type 0
  Ends es outcome =
      ((e : Evaluation) × (result : R) × (outcome ≡ ok result)
        × (submit definition e ≡ submitted result)
        × Memᴰ e es
        × LargerFailed es e)
      ⊎ (((e : Evaluation) × (fault : Fault) × (outcome ≡ throw fault)
            × (submit definition e ≡ failed fault)
            × Memᴰ e es
            × LargerFailed es e)
          ⊎ ((fault : Fault) × (outcome ≡ throw fault) × All LiveFailed es))
