-- ===== src/Route/Examples/Executions.antt =====
-- Tests and examples for the executions of src/context_route.rs.
use workspace_atlas.Common.{
  ℕ, suc, ◌≡◌, refl, ok, some, none, Result, [], ◌∷◌, set_insert, set_of, text_eq, codes, arith,
  last?,
}
use workspace_atlas.Route.Vocabulary.{RequiredCapability}
use workspace_atlas.Route.Request.{ContextRouteError, GenerationObservation, observed}
use workspace_atlas.Route.Signals.{effective_routes}
use workspace_atlas.Route.Decision.{unsealed_decision}
use workspace_atlas.Route.Attempt.{
  ContextExecutionCounters, RouteDeficit, CapabilityDeficitReason, RouteFailureReason,
  checked_counter_sum, counter_sum_from, add_counters, validate_counters,
}
use workspace_atlas.Route.Payload.{
  ContextPayload, LightOperationResult, validate_payload, validate_operation_result,
}
use workspace_atlas.Route.Execution.{ContextExecution, TerminalReason}
use workspace_atlas.Route.Dispatch.{
  ContextRouteDispatcher, RouteAttemptOutcome, DeficientOutcome, satisfied_by_caller,
  deficits_of_caller, route_attempt, generation_failure, dispatch_outcome_valid,
  light_deficits_can_escalate, escalates,
}
use workspace_atlas.Route.Execute.{
  Ending, run_loop, execute_with, execute_context_route, direct_completed, no_generation, start,
}
use workspace_atlas.Route.Execute.Total.{execute_total}
use workspace_atlas.Route.Execute.Direct.{execute-direct}
use workspace_atlas.Route.Execute.NoGeneration.{execute-unavailable}
use workspace_atlas.Route.Execute.Changed.{execute-changed, generation_blocked}
use workspace_atlas.Route.Handlers.{
  on_outcome, on_deficient, on_completed, can_escalate, escalate, with_sum, finish_with,
}
use workspace_atlas.Route.Turn.{turn, dispatch, dispatch_with, on_dispatched}
use workspace_atlas.Route.Turn.Settled.{IsChecked}
use workspace_atlas.Route.Examples.{constant_hash, digest, generation}
use workspace_atlas.Route.Examples.Decisions.{
  direct_decision, deep_decision, offline_decision, direct_valid, deep_valid, offline_valid,
}
use workspace_atlas.Route.Rules.{
  validate_materialization, validate_satisfied_capabilities, deficit_capabilities, get, unserved,
  deep_may_serve,
}
use workspace_atlas.Route.Budget.{valid_digest}

-- What a scripted dispatcher reports: the generation, and the outcomes of LIGHT and DEEP. Its state
-- counts the calls.
abbrev pub scripted :
    GenerationObservation
    → RouteAttemptOutcome
    → RouteAttemptOutcome
    → ContextRouteDispatcher ℕ ContextRouteError
scripted found light deep = record {
  from_route_error = λ e. e;
  observe_generation = λ n. (found, n);
  dispatch_light = λ n d operations. (ok light, suc n);
  dispatch_deep = λ n d contracts budget. (ok deep, suc n);
}

abbrev pub clock : ℕ → ℕ
clock ordinal = 10

abbrev pub cost : ContextExecutionCounters
cost = record {
  atlas_calls = 2;
  records = 5;
  source_bytes = 900;
  estimated_tokens = 300;
  work_units = 7;
}

abbrev pub light_payload : ContextPayload
light_payload =
    ContextPayload.light_bundle (LightOperationResult.query (codes "query-v1.0.0") digest 5 ∷ [])

abbrev pub deep_payload : ContextPayload
deep_payload =
    ContextPayload.deep_context_ir
      (record { context_ir_version = codes "2.0.0"; context_hash = digest })

-- LIGHT cannot serve the history; the source is ambiguous.
abbrev lacks_history : RouteAttemptOutcome
lacks_history = RouteAttemptOutcome.deficient (record {
  payload = some light_payload;
  satisfied_capabilities =
      RequiredCapability.identity_lookup ∷ RequiredCapability.exact_source ∷ [];
  deficits =
      RouteDeficit.capability RequiredCapability.temporal_history
        CapabilityDeficitReason.unavailable
      ∷ [];
  counters = cost;
  diagnostics = [];
  materialization = none;
})

abbrev pub ambiguous_source : DeficientOutcome
ambiguous_source = record {
  payload = some light_payload;
  satisfied_capabilities = RequiredCapability.identity_lookup ∷ [];
  deficits =
      RouteDeficit.capability RequiredCapability.exact_source CapabilityDeficitReason.ambiguous
      ∷ RouteDeficit.capability RequiredCapability.temporal_history
          CapabilityDeficitReason.ambiguous
      ∷ [];
  counters = cost;
  diagnostics = [];
  materialization = none;
}

abbrev all_served : RouteAttemptOutcome
all_served =
    RouteAttemptOutcome.completed
      (record { payload = deep_payload; counters = cost; diagnostics = []; materialization = none })

abbrev pub ladder : ContextRouteDispatcher ℕ ContextRouteError
ladder = scripted generation lacks_history all_served

abbrev moved : ContextRouteDispatcher ℕ ContextRouteError
moved = scripted (observed (codes "generation-8")) lacks_history all_served

-- LIGHT, then DEEP, with two calls of the dispatcher.
ladder_calls : (execute_context_route constant_hash clock ladder deep_decision 0).1 ≡ 2
unfolding execute_context_route execute_with start run_loop turn generation_failure dispatch
    dispatch_with on_dispatched dispatch_outcome_valid on_outcome on_deficient on_completed
    can_escalate escalate with_sum finish_with checked_counter_sum counter_sum_from add_counters
    validate_payload validate_counters validate_materialization validate_satisfied_capabilities
    deficit_capabilities set_insert set_of get unserved validate_operation_result valid_digest
    text_eq codes light_deficits_can_escalate escalates deep_may_serve route_attempt
    satisfied_by_caller deficits_of_caller unsealed_decision effective_routes last?
ladder_calls = rw (deep_valid, execute_with) refl

execute-direct_example :
    execute_context_route constant_hash clock ladder direct_decision 0
    ≡ (Ending.returned (ok (direct_completed constant_hash clock ladder direct_decision)), 0)
unfolding unsealed_decision deficits_of_caller
execute-direct_example =
    execute-direct constant_hash clock ladder direct_decision 0 direct_valid refl refl

execute-unavailable_example :
    execute_context_route constant_hash clock ladder offline_decision 0
    ≡ (Ending.returned (ok (no_generation constant_hash clock ladder offline_decision)), 0)
unfolding unsealed_decision deficits_of_caller
execute-unavailable_example =
    execute-unavailable constant_hash clock ladder offline_decision 0 offline_valid
      (omega arith, (omega arith, tt)) refl refl

execute-changed_example : execute_context_route constant_hash clock moved deep_decision 0 ≡ (
  Ending.returned (
      ok (
        generation_blocked constant_hash clock moved deep_decision
          RouteFailureReason.generation_changed TerminalReason.generation_changed)),
  0,
)
unfolding unsealed_decision deficits_of_caller generation_failure text_eq codes
execute-changed_example =
    execute-changed constant_hash clock moved deep_decision 0 (codes "generation-7") deep_valid
      (omega arith, (omega arith, tt)) (λ e. cc) refl (λ e. ground arith)

execute_total_example :
    (execute_with constant_hash clock ladder deep_decision 5 0
      ≡ execute_context_route constant_hash clock ladder deep_decision 0)
    × ((r : Result ContextRouteError ContextExecution) × ((execute_context_route constant_hash clock
            ladder deep_decision 0).0
          ≡ Ending.returned r)
        × IsChecked constant_hash deep_decision r)
execute_total_example = execute_total constant_hash clock ladder deep_decision 0 5 (omega arith)
