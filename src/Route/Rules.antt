-- ===== src/Route/Rules.antt =====
-- The helpers of `ContextExecution::validate` (src/context_route.rs): satisfied capabilities, terminal
-- reasons, materialisation and the transitions between attempts.
pub mod Collected
pub mod Accounting
pub mod Callers
use workspace_atlas.Common.{
  ℕ, ◌+◌, Bool, true, false, not, ◌&&◌, ◌||◌, Text, codes, List, [], ◌∷◌, Option, none, some,
  Result, ok, err, ◌>>=◌, ◌>>◌, refuse_if, if◌then◌else◌, ltb, leb, ◌==◌, length, any, all,
  contains, set_of, set_insert, is_empty,
}
use workspace_atlas.Route.Vocabulary.{
  Route, RequiredCapability, CallerCapabilityState, route_rank, capability_rank, minimum_route,
}
use workspace_atlas.Route.Request.{Capabilities, ContextRouteError, RouteResult}
use workspace_atlas.Route.Signals.{is_satisfied}
use workspace_atlas.Route.Decided.{ContextRouteDecision}
use workspace_atlas.Route.Attempt.{
  ExecutionAttempt, RouteDeficit, CapabilityDeficitReason, RouteFailureReason, AttemptState,
  ContextExecutionCounters, attempt_state_rank, deficit_reason_rank, is_route_deficit,
}
use workspace_atlas.Route.Payload.{
  ContextPayload, ExplicitMaterialization, payload_route, validate_materialized,
}
use workspace_atlas.Route.Execution.{TerminalReason}

-- `contains_key`, on what `get` finds.
abbrev pub is_absent : Option CallerCapabilityState → Bool
is_absent none = true
is_absent (some state) = false

-- `BTreeMap::get`.
unfoldable pub get : RequiredCapability → Capabilities → Option CallerCapabilityState
get c [] = none
get c ((k, state) ∷ m) = if capability_rank c == capability_rank k then some state else get c m

-- A satisfied capability that was not requested, or that neither the caller nor the route serves.
unfoldable pub unserved : Option CallerCapabilityState → Option Route → RequiredCapability → Bool
unserved none route c = true
unserved (some state) none c = not (is_satisfied state)
unserved (some state) (some route) c =
    not (is_satisfied state) && ltb (route_rank route) (route_rank (minimum_route c))

-- The loop over the deficits in `validate_satisfied_capabilities`, which collects their
-- capabilities.
unfoldable pub deficit_capabilities :
    Capabilities
    → List RequiredCapability
    → List RequiredCapability
    → List RouteDeficit
    → RouteResult (List RequiredCapability)
unfolding get
deficit_capabilities requested satisfied seen [] = ok seen
deficit_capabilities requested satisfied seen (RouteDeficit.route reason ∷ deficits) =
    deficit_capabilities requested satisfied seen deficits
deficit_capabilities requested satisfied seen (RouteDeficit.capability c reason ∷ deficits) = do
  refuse_if
      (is_absent (get c requested)
        || contains capability_rank c seen
        || contains capability_rank c satisfied)
      ContextRouteError.invalid_execution
  deficit_capabilities requested satisfied (set_insert capability_rank c seen) deficits

unfoldable pub validate_satisfied_capabilities :
    ContextRouteDecision
    → List RequiredCapability
    → List RouteDeficit
    → Option Route
    → Bool
    → Bool
    → RouteResult (Unit {0})
unfolding deficit_capabilities unserved get
validate_satisfied_capabilities d satisfied deficits route require_useful require_accounting = do
  let satisfied_set = set_of capability_rank satisfied
  refuse_if
      (not (length satisfied_set == length satisfied)
        || (require_useful && is_empty satisfied_set)
        || any (λ c. unserved (get c d.requested_capabilities) route c) satisfied_set)
      ContextRouteError.invalid_execution
  collected ← deficit_capabilities d.requested_capabilities satisfied_set [] deficits
  refuse_if
      (require_accounting
        && not (length satisfied_set + length collected == length d.requested_capabilities))
      ContextRouteError.invalid_execution

-- The deficits that each terminal reason refers to.
abbrev pub is_unavailable_deficit : RouteDeficit → Bool
is_unavailable_deficit (RouteDeficit.capability c CapabilityDeficitReason.unavailable) = true
is_unavailable_deficit (RouteDeficit.capability c CapabilityDeficitReason.stale) = true
is_unavailable_deficit (RouteDeficit.capability c CapabilityDeficitReason.unsupported) = true
is_unavailable_deficit _ = false

abbrev pub is_generation_unavailable_deficit : RouteDeficit → Bool
is_generation_unavailable_deficit
      (RouteDeficit.route RouteFailureReason.starting_generation_unavailable) =
    true
is_generation_unavailable_deficit (RouteDeficit.route RouteFailureReason.no_active_generation) =
    true
is_generation_unavailable_deficit _ = false

abbrev pub is_generation_changed_deficit : RouteDeficit → Bool
is_generation_changed_deficit (RouteDeficit.route RouteFailureReason.generation_changed) = true
is_generation_changed_deficit _ = false

abbrev pub is_route : Option Route → Route → Bool
is_route none ceiling = false
is_route (some route) ceiling = route_rank route == route_rank ceiling

unfoldable pub terminal_reason_matches :
    TerminalReason → Option Route → Route → List RouteDeficit → Bool
terminal_reason_matches TerminalReason.route_ceiling_reached final_route ceiling deficits =
    is_route final_route ceiling
terminal_reason_matches TerminalReason.capability_unavailable final_route ceiling deficits =
    any is_unavailable_deficit deficits
terminal_reason_matches TerminalReason.generation_unavailable final_route ceiling deficits =
    any is_generation_unavailable_deficit deficits
terminal_reason_matches TerminalReason.generation_changed final_route ceiling deficits =
    any is_generation_changed_deficit deficits

unfoldable pub validate_terminal_reason :
    TerminalReason → Option Route → Route → List RouteDeficit → RouteResult (Unit {0})
unfolding terminal_reason_matches
validate_terminal_reason reason final_route ceiling deficits =
    refuse_if (not (terminal_reason_matches reason final_route ceiling deficits))
      ContextRouteError.invalid_execution

-- There is no payload, or one of the DIRECT route.
abbrev pub lacks_atlas_payload : Option ContextPayload → Bool
lacks_atlas_payload none = true
lacks_atlas_payload (some payload) = route_rank (payload_route payload) == route_rank Route.direct

unfoldable pub validate_materialization :
    Option ExplicitMaterialization → Option ContextPayload → RouteResult (Unit {0})
validate_materialization none payload = ok tt
validate_materialization (some m) payload = do
  validate_materialized m
  refuse_if (lacks_atlas_payload payload) ContextRouteError.invalid_execution

-- The caller asked for the capability and does not satisfy it.
abbrev pub is_unsatisfied : Option CallerCapabilityState → Bool
is_unsatisfied (some CallerCapabilityState.unsatisfied) = true
is_unsatisfied (some CallerCapabilityState.unknown) = true
is_unsatisfied _ = false

abbrev pub is_unsupported : CapabilityDeficitReason → Bool
is_unsupported reason =
    deficit_reason_rank reason == deficit_reason_rank CapabilityDeficitReason.unsupported

-- Relationships, impact, or coverage and conflicts.
abbrev pub is_relational : RequiredCapability → Bool
is_relational RequiredCapability.bounded_relationships = true
is_relational RequiredCapability.impact_frontier = true
is_relational RequiredCapability.basic_coverage_conflicts = true
is_relational c = false

-- A deficit of LIGHT that DEEP may serve.
unfoldable pub deep_may_serve : RequiredCapability → CapabilityDeficitReason → Bool
deep_may_serve c reason =
    route_rank (minimum_route c) == route_rank Route.atlas_deep
    || deficit_reason_rank reason
      == deficit_reason_rank CapabilityDeficitReason.semantic_budget_omitted
    || (capability_rank c == capability_rank RequiredCapability.identity_lookup
        && deficit_reason_rank reason == deficit_reason_rank CapabilityDeficitReason.ambiguous)
    || (is_relational c
        && deficit_reason_rank reason == deficit_reason_rank CapabilityDeficitReason.conflicting)

-- The deficits that justify a step from DIRECT to LIGHT, and from LIGHT to DEEP.
unfoldable pub justifies_light : Capabilities → RouteDeficit → Bool
unfolding get
justifies_light requested (RouteDeficit.capability c reason) =
    is_unsatisfied (get c requested) && not (is_unsupported reason)
justifies_light requested (RouteDeficit.route reason) = false

unfoldable pub justifies_deep : Capabilities → RouteDeficit → Bool
unfolding get deep_may_serve
justifies_deep requested (RouteDeficit.capability c reason) =
    is_unsatisfied (get c requested) && not (is_unsupported reason) && deep_may_serve c reason
justifies_deep requested (RouteDeficit.route reason) = false

abbrev pub is_partial : AttemptState → Bool
is_partial state = attempt_state_rank state == attempt_state_rank AttemptState.partial

unfoldable pub route_step_valid : Route → Route → Capabilities → List RouteDeficit → Bool
unfolding justifies_light justifies_deep
route_step_valid Route.direct Route.atlas_light requested deficits =
    not (is_empty deficits) && all (justifies_light requested) deficits
route_step_valid Route.atlas_light Route.atlas_deep requested deficits =
    not (is_empty deficits) && all (justifies_deep requested) deficits
route_step_valid previous next requested deficits = false

unfoldable pub valid_attempt_transition :
    ContextRouteDecision → ExecutionAttempt → ExecutionAttempt → Bool
unfolding route_step_valid
valid_attempt_transition d previous next =
    if route_rank previous.route == route_rank next.route
    then is_partial previous.state
    else is_partial previous.state
      && route_step_valid previous.route next.route d.requested_capabilities previous.deficits
