-- ===== src/Route/Turn.antt =====
-- One turn of the `loop` of `execute_context_route` (src/context_route.rs): the look at the active
-- generation and the dispatch.
pub mod Settled
pub mod Ceiling
use workspace_atlas.Common.{
  ℕ, zero, suc, ◌+◌, Bool, true, false, not, ◌&&◌, ◌||◌, Text, List, [], ◌∷◌, ◌++◌, Option, none,
  some, Result, ok, err, map_err, if◌then◌else◌, ltb, ◌==◌, length, is_empty, last?,
}
use workspace_atlas.Route.Vocabulary.{Route, RequiredCapability, route_rank}
use workspace_atlas.Route.Request.{
  ContextRouteError, RouteResult, GenerationObservation, DeepSemanticBudget,
}
use workspace_atlas.Route.Checks.{is_some}
use workspace_atlas.Route.Signals.{is_unavailable}
use workspace_atlas.Route.Decided.{ContextRouteDecision}
use workspace_atlas.Route.Decision.{validate_decision}
use workspace_atlas.Route.Attempt.{
  ExecutionAttempt, RouteDeficit, RouteFailureReason, AttemptState, ContextExecutionCounters,
  zero_counters, checked_counter_sum,
}
use workspace_atlas.Route.Payload.{ContextPayload, ExplicitMaterialization, useful}
use workspace_atlas.Route.Execution.{
  ContextDiagnosticCode, TerminalReason, InterruptionReason, ContextExecution, CompletedExecution,
  PartialExecution, BlockedExecution, InterruptedExecution,
}
use workspace_atlas.Route.Shared.{final_route_of, is_some_and, context_execution_version}
use workspace_atlas.Route.Validation.{checked}
use workspace_atlas.Route.Dispatch.{
  ContextRouteDispatcher, RouteAttemptOutcome, CompletedOutcome, DeficientOutcome,
  satisfied_by_caller, deficits_of_caller, route_attempt, generation_failure,
  light_deficits_can_escalate, terminal_reason_for, dispatch_outcome_valid,
}
use workspace_atlas.Route.Handlers.{Progress, Turn, on_generation_failure, on_outcome}

module _ (hash : List ℕ → Text) (clock : ℕ → ℕ) {S E : Type 0}
    (dispatcher : ContextRouteDispatcher S E) (d : ContextRouteDecision) where
  open dispatcher use {from_route_error, observe_generation, dispatch_light, dispatch_deep}

  -- `dispatch_outcome_valid(…)?` between the dispatch and the match.
  unfoldable pub on_dispatched : Progress → Result E RouteAttemptOutcome → Turn E
  on_dispatched p (err e) = Turn.returned (err e)
  on_dispatched p (ok outcome) = elim (dispatch_outcome_valid d p.route outcome) [
    | ok _ ↦ on_outcome hash clock dispatcher d p outcome
    | err e ↦ Turn.returned (err (from_route_error e))
  ]

  -- `deep_budget.ok_or(DeepBudgetRequired)?`, and the call of `dispatch_deep`.
  unfoldable pub dispatch_with : Option DeepSemanticBudget → Progress → S → Turn E × S
  dispatch_with none p s =
      (Turn.returned (err (from_route_error ContextRouteError.deep_budget_required)), s)
  dispatch_with (some budget) p s =
      let (result, s') = dispatch_deep s d d.request.deep_contracts budget in
      (on_dispatched p result, s')

  -- The dispatch by route; DIRECT is `unreachable!`.
  unfoldable pub dispatch : Route → Progress → S → Turn E × S
  dispatch Route.direct p s = (Turn.panicked, s)
  dispatch Route.atlas_light p s =
      let (result, s') = dispatch_light s d d.request.light_operations in
      (on_dispatched p result, s')
  dispatch Route.atlas_deep p s = dispatch_with d.request.deep_budget p s

  -- One turn of the loop.
  unfoldable pub turn : Progress → S → Turn E × S
  turn p s =
      let (found, s') = observe_generation s in
      elim (generation_failure d.starting_generation found) [
        | some (failure, reason) ↦
            (on_generation_failure hash clock dispatcher d p failure reason, s')
        | none ↦ dispatch p.route p s'
      ]
