-- ===== src/Route/Validation.antt =====
-- `ContextExecution::validate` and the constructors that call it (src/context_route.rs).
pub mod Fields
pub mod Steps
pub mod Variants
pub mod Ends
pub mod Interrupted
use workspace_atlas.Common.{
  ℕ, Bool, true, false, not, ◌&&◌, ◌||◌, Text, codes, text_eq, List, [], ◌∷◌, Option, none, some,
  Result, ok, err, ◌>>=◌, ◌>>◌, refuse_if, ltb, ◌==◌, length, any, any_adjacent, all, head?, last?,
  is_empty, is_err,
}
use mathlib.Core.Option
use workspace_atlas.Route.Vocabulary.{Route, RequiredCapability, route_rank, minimum_route}
use workspace_atlas.Route.Request.{Capabilities, ContextRouteError, RouteResult}
use workspace_atlas.Route.Checks.{is_some}
use workspace_atlas.Route.Signals.{is_satisfied, is_unavailable, values}
use workspace_atlas.Route.Decided.{ContextRouteDecision}
use workspace_atlas.Route.Decision.{validate_decision}
use workspace_atlas.Route.Attempt.{
  ExecutionAttempt, RouteDeficit, AttemptState, ContextExecutionCounters, zero_counters,
  attempt_state_rank, is_route_deficit, deficits_eq, validate_counters, counters_eq,
  validate_attempt, checked_counter_sum,
}
use workspace_atlas.Route.Payload.{
  ContextPayload, ExplicitMaterialization, payload_route, useful, validate_payload,
}
use workspace_atlas.Route.Execution.{
  ContextDiagnosticCode, TerminalReason, InterruptionReason, CompletedExecution, PartialExecution,
  BlockedExecution, InterruptedExecution, ContextExecution, completed, partial, blocked,
  interrupted,
}
use workspace_atlas.Route.Rules.{
  validate_satisfied_capabilities, validate_terminal_reason, validate_materialization,
  valid_attempt_transition,
}
use workspace_atlas.Route.Shared.{
  max_route_attempts, max_execution_diagnostics, context_execution_version, ends_in,
  ends_with_deficits, is_some_and, is_none_or, same_bool, stopped, attempt_outside, beyond_direct,
  attempts_refused, caller_satisfied, validate_common, uncovered, validate_blocked_payload,
  validate_prior_payload,
}

-- The tests on the fields of each variant, the counters against their sum included.
unfoldable pub completed_mismatch : CompletedExecution → ContextExecutionCounters → Bool
unfolding ends_in uncovered
completed_mismatch e summed =
    is_empty e.attempts
    || not (ends_in e.final_route AttemptState.completed (last? e.attempts))
    || not (route_rank (payload_route e.payload) == route_rank e.final_route)
    || not (counters_eq e.counters summed)
    || uncovered e.final_route e.decision.requested_capabilities

unfoldable pub partial_mismatch : PartialExecution → ContextExecutionCounters → Bool
unfolding ends_in ends_with_deficits
partial_mismatch e summed =
    is_empty e.attempts
    || not (ends_in e.final_route AttemptState.partial (last? e.attempts))
    || not (route_rank (payload_route e.payload) == route_rank e.final_route)
    || not (useful e.payload)
    || any is_route_deficit e.deficits
    || not (ends_with_deficits e.deficits (last? e.attempts))
    || not (counters_eq e.counters summed)

unfoldable pub blocked_mismatch : BlockedExecution → ContextExecutionCounters → Bool
unfolding ends_in ends_with_deficits
blocked_mismatch e summed =
    is_empty e.deficits
    || same_bool (is_some e.final_route) (is_empty e.attempts)
    || is_some_and e.final_route
        (λ route. not (ends_in route AttemptState.blocked (last? e.attempts)))
    || is_some_and (last? e.attempts) (λ a. not (deficits_eq a.deficits e.deficits))
    || not (counters_eq e.counters summed)

unfoldable pub interrupted_mismatch : InterruptedExecution → ContextExecutionCounters → Bool
interrupted_mismatch e summed =
    any (λ a. stopped a.state) e.completed_attempts || not (counters_eq e.counters summed)

module _ (hash : List ℕ → Text) where
  unfoldable pub validate_completed : CompletedExecution → RouteResult (Unit {0})
  validate_completed e = do
    summed ← validate_common hash e.schema_version e.decision e.attempts e.counters e.diagnostics
    validate_payload e.payload
    refuse_if (completed_mismatch e summed) ContextRouteError.invalid_execution
    validate_materialization e.materialization (some e.payload)

  unfoldable pub validate_partial : PartialExecution → RouteResult (Unit {0})
  validate_partial e = do
    summed ← validate_common hash e.schema_version e.decision e.attempts e.counters e.diagnostics
    validate_payload e.payload
    refuse_if (partial_mismatch e summed) ContextRouteError.invalid_execution
    validate_satisfied_capabilities e.decision e.satisfied_capabilities e.deficits
        (some e.final_route) true true
    validate_terminal_reason e.terminal_reason (some e.final_route) e.decision.effective_ceiling
        e.deficits
    validate_materialization e.materialization (some e.payload)

  unfoldable pub validate_blocked : BlockedExecution → RouteResult (Unit {0})
  validate_blocked e = do
    summed ← validate_common hash e.schema_version e.decision e.attempts e.counters e.diagnostics
    refuse_if (blocked_mismatch e summed) ContextRouteError.invalid_execution
    validate_satisfied_capabilities e.decision e.satisfied_capabilities e.deficits e.final_route
        (is_some e.payload) (not (any is_route_deficit e.deficits))
    validate_blocked_payload e.payload e.final_route
    validate_terminal_reason e.terminal_reason e.final_route e.decision.effective_ceiling e.deficits
    validate_materialization e.materialization e.payload

  unfoldable pub validate_interrupted : InterruptedExecution → RouteResult (Unit {0})
  validate_interrupted e = do
    summed ←
        validate_common hash e.schema_version e.decision e.completed_attempts e.counters
          e.diagnostics
    refuse_if (interrupted_mismatch e summed) ContextRouteError.invalid_execution
    validate_satisfied_capabilities e.decision e.satisfied_capabilities []
        (Option.map (λ a. a.route) (last? e.completed_attempts))
        (is_some_and e.prior_payload useful) false
    validate_prior_payload e.prior_payload (last? e.completed_attempts)
    validate_materialization e.materialization e.prior_payload

  -- `ContextExecution::validate`.
  unfoldable pub validate_execution : ContextExecution → RouteResult (Unit {0})
  validate_execution (completed e) = validate_completed e
  validate_execution (partial e) = validate_partial e
  validate_execution (blocked e) = validate_blocked e
  validate_execution (interrupted e) = validate_interrupted e

  -- The end of each constructor: `value.validate()?; Ok(value)`.
  unfoldable pub checked : ContextExecution → RouteResult ContextExecution
  checked value = do validate_execution value; ok value
