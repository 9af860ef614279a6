-- ===== src/Route/Execute.antt =====
-- `execute_context_route` (src/context_route.rs): the part before its `loop`, and the loop on fuel.
pub mod Total
pub mod Direct
pub mod NoGeneration
pub mod Changed
use workspace_atlas.Common.{
  ℕ, zero, suc, ◌+◌, Bool, true, false, not, ◌&&◌, ◌||◌, Text, List, [], ◌∷◌, ◌++◌, Option, none,
  some, Result, ok, err, map_err, if◌then◌else◌, ltb, ◌==◌, length, is_empty, last?,
}
use workspace_atlas.Route.Vocabulary.{Route, RequiredCapability, route_rank}
use workspace_atlas.Route.Request.{ContextRouteError, RouteResult, GenerationObservation}
use workspace_atlas.Route.Checks.{is_some}
use workspace_atlas.Route.Signals.{is_unavailable}
use workspace_atlas.Route.Decided.{ContextRouteDecision}
use workspace_atlas.Route.Decision.{validate_decision}
use workspace_atlas.Route.Attempt.{
  ExecutionAttempt, RouteDeficit, RouteFailureReason, AttemptState, ContextExecutionCounters,
  zero_counters, checked_counter_sum,
}
use workspace_atlas.Route.Payload.{ContextPayload, ExplicitMaterialization, useful}
use workspace_atlas.Route.Execution.{
  ContextDiagnosticCode, TerminalReason, InterruptionReason, ContextExecution, CompletedExecution,
  PartialExecution, BlockedExecution, InterruptedExecution,
}
use workspace_atlas.Route.Shared.{final_route_of, is_some_and, context_execution_version}
use workspace_atlas.Route.Validation.{checked}
use workspace_atlas.Route.Dispatch.{
  ContextRouteDispatcher, RouteAttemptOutcome, CompletedOutcome, DeficientOutcome,
  satisfied_by_caller, deficits_of_caller, route_attempt, generation_failure,
  light_deficits_can_escalate, terminal_reason_for, dispatch_outcome_valid,
}
use workspace_atlas.Route.Handlers.{Progress, Turn}
use workspace_atlas.Route.Turn.{turn}

-- How an execution ends; the fuel may also run out.
pub data Ending (E : Type 0) : Type 0 where
  returned : Result E ContextExecution → Ending E
  panicked : Ending E
  out_of_fuel : Ending E

module _ (hash : List ℕ → Text) (clock : ℕ → ℕ) {S E : Type 0}
    (dispatcher : ContextRouteDispatcher S E) (d : ContextRouteDecision) where
  open dispatcher use {from_route_error}

  unfoldable pub run_loop : ℕ → Progress → S → Ending E × S
  run_loop zero p s = (Ending.out_of_fuel, s)
  run_loop (suc fuel) p s =
      let (t, s') = turn hash clock dispatcher d p s in
      elim t [
        | Turn.again p' ↦ run_loop fuel p' s'
        | Turn.returned result ↦ (Ending.returned result, s')
        | Turn.panicked ↦ (Ending.panicked, s')
      ]

  -- A constructor's result, with its error mapped.
  unfoldable pub return_checked : ContextExecution → Ending E
  return_checked value = Ending.returned (map_err from_route_error (checked hash value))

  -- `ContextExecution::blocked` before the loop.
  abbrev pub blocked_at_start :
      List ExecutionAttempt → Option Route → List RouteDeficit → TerminalReason → ContextExecution
  blocked_at_start attempts route deficits reason = ContextExecution.blocked (record {
    schema_version = context_execution_version;
    decision = d;
    attempts = attempts;
    final_route = route;
    payload = none;
    satisfied_capabilities = satisfied_by_caller d.requested_capabilities;
    deficits = deficits;
    counters = zero_counters;
    diagnostics = [];
    materialization = none;
    terminal_reason = reason;
  })

  -- The starting generation is not available, and something would have to be dispatched.
  abbrev pub no_generation : ContextExecution
  no_generation =
      blocked_at_start [] none
        (RouteDeficit.route RouteFailureReason.starting_generation_unavailable ∷ [])
        TerminalReason.generation_unavailable

  abbrev pub direct_attempt : AttemptState → List RouteDeficit → ExecutionAttempt
  direct_attempt state deficits = route_attempt clock 1 Route.direct state deficits zero_counters

  -- The caller's own context suffices.
  abbrev pub direct_completed : ContextExecution
  direct_completed =
      let attempts = direct_attempt AttemptState.completed [] ∷ [] in
      ContextExecution.completed (record {
        schema_version = context_execution_version;
        decision = d;
        attempts = attempts;
        final_route = final_route_of d (last? attempts);
        payload = ContextPayload.direct_none;
        counters = zero_counters;
        diagnostics = [];
        materialization = none;
      })

  -- It does not, and no other route is allowed.
  abbrev pub direct_blocked : ContextExecution
  direct_blocked =
      let deficits = deficits_of_caller d.requested_capabilities in
      blocked_at_start (direct_attempt AttemptState.blocked deficits ∷ []) (some Route.direct)
        deficits TerminalReason.route_ceiling_reached

  -- The loop's variables when it starts at `route` after these attempts.
  abbrev pub progress_at : Route → List ExecutionAttempt → Progress
  progress_at route attempts = record {
    attempts = attempts;
    diagnostics = [];
    route = route;
    prior_payload = none;
    prior_satisfied = satisfied_by_caller d.requested_capabilities;
    prior_materialization = none;
  }

  unfoldable pub start_direct : ℕ → S → Ending E × S
  start_direct fuel s =
      let deficits = deficits_of_caller d.requested_capabilities in
      if is_empty deficits
      then (return_checked direct_completed, s)
      else if route_rank d.effective_ceiling == route_rank Route.direct
      then (return_checked direct_blocked, s)
      else run_loop fuel
          (progress_at Route.atlas_light (direct_attempt AttemptState.partial deficits ∷ [])) s

  unfoldable pub start : ℕ → S → Ending E × S
  start fuel s =
      let direct = route_rank d.initial_route == route_rank Route.direct in
      let sufficient = is_empty (deficits_of_caller d.requested_capabilities) in
      if is_unavailable d.starting_generation && not (direct && sufficient)
      then (return_checked no_generation, s)
      else if direct
      then start_direct fuel s
      else run_loop fuel (progress_at d.initial_route []) s

  -- `execute_context_route`, with fuel for the turns of its loop.
  unfoldable pub execute_with : ℕ → S → Ending E × S
  execute_with fuel s = elim (validate_decision hash d) [
    | ok _ ↦ start fuel s
    | err e ↦ (Ending.returned (err (from_route_error e)), s)
  ]

  -- Two turns are enough.
  unfoldable pub execute_context_route : S → Ending E × S
  execute_context_route = execute_with 2
