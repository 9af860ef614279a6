-- ===== src/Route/Examples/Checked.antt =====
-- Tests and examples for `ContextExecution::validate` of src/context_route.rs.
use workspace_atlas.Common.{
  ◌≡◌, ◌↔◌, ◌||◌, refl, true, ok, some, none, List, [], ◌∷◌, ◌==◌, any, text_eq, codes, arith,
  last?, set_of,
}
use workspace_atlas.Route.Vocabulary.{Route, RequiredCapability, route_rank}
use workspace_atlas.Route.Decision.{unsealed_decision}
use workspace_atlas.Route.Attempt.{
  AttemptState, zero_counters, RouteDeficit, CapabilityDeficitReason, validate_counters,
  validate_attempt, checked_counter_sum, deficits_eq, counters_eq, RouteFailureReason,
}
use workspace_atlas.Route.Payload.{validate_payload}
use workspace_atlas.Route.Execution.{
  ContextExecution, CompletedExecution, PartialExecution, BlockedExecution, TerminalReason,
  InterruptedExecution, InterruptionReason,
}
use workspace_atlas.Route.Rules.{
  is_unavailable_deficit, validate_terminal_reason, validate_satisfied_capabilities,
  validate_materialization, valid_attempt_transition,
}
use workspace_atlas.Route.Shared.{
  validate_common, attempts_refused, attempt_outside, validate_prior_payload,
}
use workspace_atlas.Route.Validation.{
  validate_completed, validate_partial, validate_blocked, validate_execution, partial_mismatch,
  completed_mismatch, validate_interrupted, interrupted_mismatch,
}
use workspace_atlas.Route.Validation.Fields.{Common}
use workspace_atlas.Route.Validation.Variants.{
  Completed, validate-Common, validate_completed-Completed,
}
use workspace_atlas.Route.Validation.Ends.{
  Partial, Blocked, validate_partial-Partial, validate_blocked-Blocked,
}
use workspace_atlas.Route.Dispatch.{
  light_deficits_can_escalate, terminal_reason_for, route_attempt, satisfied_by_caller,
}
use workspace_atlas.Route.Execute.{progress_at}
use workspace_atlas.Route.Execute.NoGeneration.{no_generation_ok}
use workspace_atlas.Route.Handlers.{Progress, on_deficient}
use workspace_atlas.Route.Turn.Ceiling.{Fails, terminal_reason_for_iff, on_deficient-Fails}
use workspace_atlas.Route.Examples.{constant_hash}
use workspace_atlas.Route.Examples.Decisions.{
  deep_decision, offline_decision, deep_valid, offline_valid,
}
use workspace_atlas.Route.Examples.Executions.{
  clock, cost, light_payload, deep_payload, ambiguous_source, ladder,
}
use workspace_atlas.Route.Signals.{effective_routes}
use workspace_atlas.Route.Budget.{valid_opaque_id, valid_digest}
use workspace_atlas.Route.Validation.Interrupted.{Interrupted, validate_interrupted-Interrupted}

abbrev no_history : List RouteDeficit
no_history =
    RouteDeficit.capability RequiredCapability.temporal_history CapabilityDeficitReason.unavailable
    ∷ []

-- LIGHT served what it could, and went no further.
abbrev light_partial : PartialExecution
light_partial = record {
  schema_version = codes "context-execution-v2.0.0";
  decision = deep_decision;
  attempts = route_attempt clock 1 Route.atlas_light AttemptState.partial no_history cost ∷ [];
  final_route = Route.atlas_light;
  payload = light_payload;
  satisfied_capabilities =
      RequiredCapability.identity_lookup ∷ RequiredCapability.exact_source ∷ [];
  deficits = no_history;
  counters = cost;
  diagnostics = [];
  materialization = none;
  terminal_reason = TerminalReason.capability_unavailable;
}

-- LIGHT handed over to DEEP.
abbrev deep_completed : CompletedExecution
deep_completed = record {
  schema_version = codes "context-execution-v2.0.0";
  decision = deep_decision;
  attempts =
      route_attempt clock 1 Route.atlas_light AttemptState.partial no_history cost
      ∷ route_attempt clock 2 Route.atlas_deep AttemptState.completed [] zero_counters
      ∷ [];
  final_route = Route.atlas_deep;
  payload = deep_payload;
  counters = cost;
  diagnostics = [];
  materialization = none;
}

light_partial_ok : validate_partial constant_hash light_partial ≡ ok tt
unfolding validate_partial partial_mismatch validate_satisfied_capabilities validate_terminal_reason
    validate_common unsealed_decision effective_routes text_eq codes validate_counters
    validate_attempt valid_opaque_id route_attempt checked_counter_sum validate_payload valid_digest
    last? deficits_eq counters_eq set_of validate_materialization attempts_refused attempt_outside
    valid_attempt_transition
light_partial_ok = rw (deep_valid, validate_common) refl

deep_completed_ok : validate_completed constant_hash deep_completed ≡ ok tt
unfolding validate_completed completed_mismatch validate_common unsealed_decision effective_routes
    text_eq codes validate_counters validate_attempt valid_opaque_id route_attempt
    checked_counter_sum validate_payload valid_digest last? deficits_eq counters_eq set_of
    validate_materialization attempts_refused attempt_outside valid_attempt_transition
deep_completed_ok = rw (deep_valid, validate_common) refl

validate-Common_example : Common constant_hash deep_decision deep_completed.attempts cost []
unfolding validate_execution
validate-Common_example =
    validate-Common constant_hash (ContextExecution.completed deep_completed) deep_completed_ok

validate_completed-Completed_example : Completed deep_completed
validate_completed-Completed_example =
    validate_completed-Completed constant_hash deep_completed deep_completed_ok

validate_partial-Partial_example : Partial light_partial
validate_partial-Partial_example =
    validate_partial-Partial constant_hash light_partial light_partial_ok

-- No generation when the decision was made.
abbrev offline_blocked : BlockedExecution
offline_blocked = record {
  schema_version = codes "context-execution-v2.0.0";
  decision = offline_decision;
  attempts = [];
  final_route = none;
  payload = none;
  satisfied_capabilities = RequiredCapability.identity_lookup ∷ [];
  deficits = RouteDeficit.route RouteFailureReason.starting_generation_unavailable ∷ [];
  counters = zero_counters;
  diagnostics = [];
  materialization = none;
  terminal_reason = TerminalReason.generation_unavailable;
}

offline_blocked_ok : validate_blocked constant_hash offline_blocked ≡ ok tt
unfolding validate_execution unsealed_decision satisfied_by_caller
offline_blocked_ok =
    no_generation_ok constant_hash clock ladder offline_decision offline_valid
      (omega arith, (omega arith, tt))

validate_blocked-Blocked_example : Blocked offline_blocked
validate_blocked-Blocked_example =
    validate_blocked-Blocked constant_hash offline_blocked offline_blocked_ok

terminal_reason_for_iff_example :
    (validate_terminal_reason
        (terminal_reason_for Route.atlas_light Route.atlas_deep ambiguous_source.deficits)
        (some Route.atlas_light)
        Route.atlas_deep
        ambiguous_source.deficits
      ≡ ok tt)
    ↔ ((route_rank Route.atlas_light == route_rank Route.atlas_deep
          || any is_unavailable_deficit ambiguous_source.deficits)
        ≡ true)
terminal_reason_for_iff_example =
    terminal_reason_for_iff Route.atlas_light Route.atlas_deep ambiguous_source.deficits

abbrev at_light : Progress
at_light = progress_at constant_hash clock ladder deep_decision Route.atlas_light []

on_deficient-Fails_example :
    Fails (on_deficient constant_hash clock ladder deep_decision at_light ambiguous_source)
unfolding unsealed_decision effective_routes light_deficits_can_escalate
on_deficient-Fails_example =
    on_deficient-Fails constant_hash clock ladder deep_decision at_light ambiguous_source refl refl
      refl refl

-- LIGHT handed over to DEEP, and the caller cancelled.
abbrev deep_interrupted : InterruptedExecution
deep_interrupted = record {
  schema_version = codes "context-execution-v2.0.0";
  decision = deep_decision;
  completed_attempts =
      route_attempt clock 1 Route.atlas_light AttemptState.partial no_history cost ∷ [];
  prior_payload = some light_payload;
  satisfied_capabilities =
      RequiredCapability.identity_lookup ∷ RequiredCapability.exact_source ∷ [];
  counters = cost;
  diagnostics = [];
  materialization = none;
  interruption_reason = InterruptionReason.cancelled;
}

deep_interrupted_ok : validate_interrupted constant_hash deep_interrupted ≡ ok tt
unfolding validate_interrupted interrupted_mismatch validate_prior_payload
    validate_satisfied_capabilities validate_common unsealed_decision effective_routes text_eq codes
    validate_counters validate_attempt valid_opaque_id route_attempt checked_counter_sum
    validate_payload valid_digest last? deficits_eq counters_eq set_of validate_materialization
    attempts_refused attempt_outside valid_attempt_transition
deep_interrupted_ok = rw (deep_valid, validate_common) refl

validate_interrupted-Interrupted_example : Interrupted deep_interrupted
validate_interrupted-Interrupted_example =
    validate_interrupted-Interrupted constant_hash deep_interrupted deep_interrupted_ok
