-- ===== src/Route/Dispatch.antt =====
-- `execute_context_route` of src/context_route.rs. The dispatcher is a record of operations on a
-- state of its own; an operation returns its result and the new state. The clock gives, for the
-- attempt of each ordinal, the microseconds measured for it. The `loop` runs on fuel, and a panic
-- is a result of its own.
use workspace_atlas.Common.{
  ℕ, zero, suc, ◌+◌, ◌-◌, ◌/◌, ◌%◌, min, max, Bool, true, false, not, ◌&&◌, ◌||◌, Text, codes, List,
  [], ◌∷◌, ◌++◌, Option, none, some, Result, ◌>>◌, refuse_if, if◌then◌else◌, ltb, ◌==◌, length, any,
  any_adjacent, all, is_empty, is_err, text_eq,
}
use workspace_atlas.Route.Vocabulary.{
  Route, RequiredCapability, CallerCapabilityState, GenerationUnavailableReason, route_rank,
}
use workspace_atlas.Route.Request.{
  Capabilities, ContextRouteError, RouteResult, GenerationObservation, observed, unavailable,
  VersionedOperation, DeepContractVersions, DeepSemanticBudget,
}
use workspace_atlas.Route.Attempt.{
  ExecutionAttempt, RouteDeficit, CapabilityDeficitReason, RouteFailureReason, AttemptState,
  ContextExecutionCounters, u64_limit, unordered, is_route_deficit, validate_counters,
}
use workspace_atlas.Route.Payload.{
  ContextPayload, ExplicitMaterialization, payload_route, validate_payload,
}
use workspace_atlas.Route.Execution.{ContextDiagnosticCode, TerminalReason, InterruptionReason}
use workspace_atlas.Route.Decided.{ContextRouteDecision}
use workspace_atlas.Route.Rules.{
  is_unsupported, deep_may_serve, is_unavailable_deficit, validate_materialization,
  validate_satisfied_capabilities,
}
use workspace_atlas.Route.Shared.{is_some_and, max_execution_diagnostics}

pub record CompletedOutcome : Type 0 where
  pub payload : ContextPayload
  pub counters : ContextExecutionCounters
  pub diagnostics : List ContextDiagnosticCode
  pub materialization : Option ExplicitMaterialization

pub record DeficientOutcome : Type 0 where
  pub payload : Option ContextPayload
  pub satisfied_capabilities : List RequiredCapability
  pub deficits : List RouteDeficit
  pub counters : ContextExecutionCounters
  pub diagnostics : List ContextDiagnosticCode
  pub materialization : Option ExplicitMaterialization

pub data RouteAttemptOutcome : Type 0 where
  completed : CompletedOutcome → RouteAttemptOutcome
  deficient : DeficientOutcome → RouteAttemptOutcome
  interrupted : List ContextDiagnosticCode → InterruptionReason → RouteAttemptOutcome

-- `ContextRouteDispatcher`, with the `From` of its error type.
pub record ContextRouteDispatcher (S E : Type 0) : Type 0 where
  pub from_route_error : ContextRouteError → E
  pub observe_generation : S → GenerationObservation × S
  pub dispatch_light :
      S → ContextRouteDecision → List VersionedOperation → Result E RouteAttemptOutcome × S
  pub dispatch_deep :
      S
      → ContextRouteDecision
      → DeepContractVersions
      → DeepSemanticBudget
      → Result E RouteAttemptOutcome × S

-- The two lists of `caller_satisfaction`.
unfoldable pub satisfied_by_caller : Capabilities → List RequiredCapability
satisfied_by_caller [] = []
satisfied_by_caller ((c, CallerCapabilityState.satisfied) ∷ m) = c ∷ satisfied_by_caller m
satisfied_by_caller ((c, state) ∷ m) = satisfied_by_caller m

unfoldable pub deficits_of_caller : Capabilities → List RouteDeficit
deficits_of_caller [] = []
deficits_of_caller ((c, CallerCapabilityState.satisfied) ∷ m) = deficits_of_caller m
deficits_of_caller ((c, state) ∷ m) =
    RouteDeficit.capability c CapabilityDeficitReason.unavailable ∷ deficits_of_caller m

-- A number in decimal; the fuel is a bound on its digits.
unfoldable pub decimal : ℕ → ℕ → Text
decimal zero n = []
decimal (suc fuel) n =
    let front = decimal fuel (n / 10) in
    if ltb n 10 then (48 + n) ∷ [] else front ++ (48 + n % 10) ∷ []

-- `elapsed_micros`: what was measured, saturated at the `u64` limit and at least one.
abbrev pub elapsed_micros : ℕ → ℕ
elapsed_micros measured = max (min measured (u64_limit - 1)) 1

unfoldable pub route_attempt :
    (ℕ → ℕ)
    → ℕ
    → Route
    → AttemptState
    → List RouteDeficit
    → ContextExecutionCounters
    → ExecutionAttempt
unfolding decimal
route_attempt clock ordinal route state deficits counters = record {
  attempt_id = codes "context-attempt-" ++ decimal (suc ordinal) ordinal;
  route = route;
  state = state;
  deficits = deficits;
  counters = counters;
  elapsed_micros = elapsed_micros (clock ordinal);
}

-- `generation_failure`; the texts are compared by `text_eq`.
unfoldable pub generation_failure :
    GenerationObservation → GenerationObservation → Option (RouteFailureReason × TerminalReason)
generation_failure (observed expected) (observed found) =
    if text_eq expected found
    then none
    else some (RouteFailureReason.generation_changed, TerminalReason.generation_changed)
generation_failure (observed expected)
      (unavailable GenerationUnavailableReason.no_active_generation) =
    some (RouteFailureReason.no_active_generation, TerminalReason.generation_unavailable)
generation_failure expected found =
    some (RouteFailureReason.starting_generation_unavailable, TerminalReason.generation_unavailable)

-- The test on one deficit in `light_deficits_can_escalate`.
unfoldable pub escalates : RouteDeficit → Bool
unfolding deep_may_serve
escalates (RouteDeficit.route reason) = false
escalates (RouteDeficit.capability c reason) =
    not (is_unsupported reason) && deep_may_serve c reason

unfoldable pub light_deficits_can_escalate : List RouteDeficit → Bool
unfolding escalates
light_deficits_can_escalate deficits = not (is_empty deficits) && all escalates deficits

unfoldable pub terminal_reason_for : Route → Route → List RouteDeficit → TerminalReason
terminal_reason_for route ceiling deficits =
    if route_rank route == route_rank ceiling
    then TerminalReason.route_ceiling_reached
    else if any is_unavailable_deficit deficits
    then TerminalReason.capability_unavailable
    else TerminalReason.route_ceiling_reached

-- `dispatch_outcome_valid`.
unfoldable pub dispatch_outcome_valid :
    ContextRouteDecision → Route → RouteAttemptOutcome → RouteResult (Unit {0})
dispatch_outcome_valid d route (RouteAttemptOutcome.completed o) = do
  refuse_if
      (ltb max_execution_diagnostics (length o.diagnostics)
        || is_err (validate_counters o.counters)
        || is_err (validate_payload o.payload)
        || not (route_rank (payload_route o.payload) == route_rank route))
      ContextRouteError.invalid_execution
  validate_materialization o.materialization (some o.payload)
dispatch_outcome_valid d route (RouteAttemptOutcome.deficient o) = do
  refuse_if
      (ltb max_execution_diagnostics (length o.diagnostics)
        || is_err (validate_counters o.counters)
        || is_some_and o.payload (λ p.
          is_err (validate_payload p) || not (route_rank (payload_route p) == route_rank route))
        || is_empty o.deficits
        || any_adjacent unordered o.deficits
        || any is_route_deficit o.deficits)
      ContextRouteError.invalid_execution
  validate_materialization o.materialization o.payload
  validate_satisfied_capabilities d o.satisfied_capabilities o.deficits (some route) false true
dispatch_outcome_valid d route (RouteAttemptOutcome.interrupted diagnostics reason) =
    refuse_if (ltb max_execution_diagnostics (length diagnostics))
      ContextRouteError.invalid_execution
