-- ===== src/Route/Handlers.antt =====
-- What follows each outcome in the `loop` of `execute_context_route` (src/context_route.rs), and a
-- failure of the generation.
use workspace_atlas.Common.{
  ℕ, ◌+◌, Bool, not, ◌&&◌, Text, List, [], ◌∷◌, ◌++◌, Option, none, some, Result, ok, err, map_err,
  if◌then◌else◌, ltb, ◌==◌, length, is_empty, last?,
}
use workspace_atlas.Route.Vocabulary.{Route, RequiredCapability, route_rank}
use workspace_atlas.Route.Request.{RouteResult}
use workspace_atlas.Route.Checks.{is_some}
use workspace_atlas.Route.Decided.{ContextRouteDecision}
use workspace_atlas.Route.Attempt.{
  ExecutionAttempt, RouteDeficit, RouteFailureReason, AttemptState, ContextExecutionCounters,
  zero_counters, checked_counter_sum,
}
use workspace_atlas.Route.Payload.{ContextPayload, ExplicitMaterialization, useful}
use workspace_atlas.Route.Execution.{
  ContextDiagnosticCode, TerminalReason, InterruptionReason, ContextExecution,
}
use workspace_atlas.Route.Shared.{final_route_of, is_some_and, context_execution_version}
use workspace_atlas.Route.Validation.{checked}
use workspace_atlas.Route.Dispatch.{
  ContextRouteDispatcher, RouteAttemptOutcome, CompletedOutcome, DeficientOutcome,
  satisfied_by_caller, route_attempt, light_deficits_can_escalate, terminal_reason_for,
}

-- The variables that the loop carries.
pub record Progress : Type 0 where
  pub attempts : List ExecutionAttempt
  pub diagnostics : List ContextDiagnosticCode
  pub route : Route
  pub prior_payload : Option ContextPayload
  pub prior_satisfied : List RequiredCapability
  pub prior_materialization : Option ExplicitMaterialization

-- What a turn ends in: the next turn, a return, or a panic.
pub data Turn (E : Type 0) : Type 0 where
  again : Progress → Turn E
  returned : Result E ContextExecution → Turn E
  panicked : Turn E

module _ (hash : List ℕ → Text) (clock : ℕ → ℕ) {S E : Type 0}
    (dispatcher : ContextRouteDispatcher S E) (d : ContextRouteDecision) where
  open dispatcher use {from_route_error, observe_generation, dispatch_light, dispatch_deep}

  -- A constructor's result, with its error mapped.
  unfoldable pub finish_with : RouteResult ContextExecution → Turn E
  finish_with result = Turn.returned (map_err from_route_error result)

  abbrev pub caller_capabilities : List RequiredCapability
  caller_capabilities = satisfied_by_caller d.requested_capabilities

  -- `attempts.push(route_attempt(attempts.len() + 1, …))`.
  abbrev pub push_attempt :
      Progress → AttemptState → List RouteDeficit → ContextExecutionCounters → List ExecutionAttempt
  push_attempt p state deficits counters =
      p.attempts ++ route_attempt clock (length p.attempts + 1) p.route state deficits counters ∷ []

  -- `summed_counters(&attempts)?`, and the rest of the turn.
  unfoldable pub with_sum : List ExecutionAttempt → (ContextExecutionCounters → Turn E) → Turn E
  with_sum attempts rest = elim (checked_counter_sum attempts) [
    | ok counters ↦ rest counters
    | err e ↦ Turn.returned (err (from_route_error e))
  ]

  -- The generation is not the one that the decision was made for.
  unfoldable pub on_generation_failure : Progress → RouteFailureReason → TerminalReason → Turn E
  on_generation_failure p failure reason =
      let deficits : List RouteDeficit = RouteDeficit.route failure ∷ [] in
      let attempts = push_attempt p AttemptState.blocked deficits zero_counters in
      with_sum attempts λ counters. finish_with (
        checked hash (
          ContextExecution.blocked (record {
            schema_version = context_execution_version;
            decision = d;
            attempts = attempts;
            final_route = some p.route;
            payload = none;
            satisfied_capabilities = caller_capabilities;
            deficits = deficits;
            counters = counters;
            diagnostics = p.diagnostics;
            materialization = none;
            terminal_reason = reason;
          })))

  unfoldable pub on_completed : Progress → CompletedOutcome → Turn E
  on_completed p o =
      let attempts = push_attempt p AttemptState.completed [] o.counters in
      with_sum attempts λ counters. finish_with (
        checked hash (
          ContextExecution.completed (record {
            schema_version = context_execution_version;
            decision = d;
            attempts = attempts;
            final_route = final_route_of d (last? attempts);
            payload = o.payload;
            counters = counters;
            diagnostics = p.diagnostics ++ o.diagnostics;
            materialization = o.materialization;
          })))

  unfoldable pub on_interrupted :
      Progress → List ContextDiagnosticCode → InterruptionReason → Turn E
  on_interrupted p diagnostics reason = with_sum p.attempts λ counters. finish_with (
      checked hash (
        ContextExecution.interrupted (record {
          schema_version = context_execution_version;
          decision = d;
          completed_attempts = p.attempts;
          prior_payload = p.prior_payload;
          satisfied_capabilities = p.prior_satisfied;
          counters = counters;
          diagnostics = p.diagnostics ++ diagnostics;
          materialization = p.prior_materialization;
          interruption_reason = reason;
        })))

  -- LIGHT hands over to DEEP; a useful result of LIGHT is kept.
  unfoldable pub escalate : Progress → DeficientOutcome → Progress
  escalate p o =
      let keep = is_some o.payload && not (is_empty o.satisfied_capabilities) in
      record {
        attempts = push_attempt p AttemptState.partial o.deficits o.counters;
        diagnostics = p.diagnostics ++ o.diagnostics;
        route = Route.atlas_deep;
        prior_payload = if keep then o.payload else p.prior_payload;
        prior_satisfied = if keep then o.satisfied_capabilities else p.prior_satisfied;
        prior_materialization = if keep then o.materialization else p.prior_materialization;
      }

  -- The payload of a partial result; that there is one was tested before.
  unfoldable pub expect : Option ContextPayload → (ContextPayload → Turn E) → Turn E
  expect none rest = Turn.panicked
  expect (some payload) rest = rest payload

  unfoldable pub finish_partial : Progress → DeficientOutcome → Turn E
  finish_partial p o =
      let attempts = push_attempt p AttemptState.partial o.deficits o.counters in
      with_sum attempts λ counters. expect o.payload λ payload. finish_with (
        checked hash (
          ContextExecution.partial (record {
            schema_version = context_execution_version;
            decision = d;
            attempts = attempts;
            final_route = p.route;
            payload = payload;
            satisfied_capabilities = o.satisfied_capabilities;
            deficits = o.deficits;
            counters = counters;
            diagnostics = p.diagnostics ++ o.diagnostics;
            materialization = o.materialization;
            terminal_reason = terminal_reason_for p.route d.effective_ceiling o.deficits;
          })))

  unfoldable pub finish_blocked : Progress → DeficientOutcome → Turn E
  finish_blocked p o =
      let attempts = push_attempt p AttemptState.blocked o.deficits o.counters in
      with_sum attempts λ counters. finish_with (
        checked hash (
          ContextExecution.blocked (record {
            schema_version = context_execution_version;
            decision = d;
            attempts = attempts;
            final_route = some p.route;
            payload = none;
            satisfied_capabilities = o.satisfied_capabilities;
            deficits = o.deficits;
            counters = counters;
            diagnostics = p.diagnostics ++ o.diagnostics;
            materialization = none;
            terminal_reason = terminal_reason_for p.route d.effective_ceiling o.deficits;
          })))

  unfoldable pub can_escalate : Progress → DeficientOutcome → Bool
  can_escalate p o =
      route_rank p.route == route_rank Route.atlas_light
      && ltb (route_rank p.route) (route_rank d.effective_ceiling)
      && light_deficits_can_escalate o.deficits

  unfoldable pub on_deficient : Progress → DeficientOutcome → Turn E
  on_deficient p o =
      if can_escalate p o
      then Turn.again (escalate p o)
      else if is_some_and o.payload useful && not (is_empty o.satisfied_capabilities)
      then finish_partial p o
      else finish_blocked p o

  -- The `match outcome`.
  unfoldable pub on_outcome : Progress → RouteAttemptOutcome → Turn E
  on_outcome p (RouteAttemptOutcome.completed o) = on_completed p o
  on_outcome p (RouteAttemptOutcome.deficient o) = on_deficient p o
  on_outcome p (RouteAttemptOutcome.interrupted diagnostics reason) =
      on_interrupted p diagnostics reason
