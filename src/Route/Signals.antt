-- ===== src/Route/Signals.antt =====
-- The routes, signals and reasons that `decide_context_route` (src/context_route.rs) computes from a
-- request.
use workspace_atlas.Common.{
  Bool, true, false, ◌||◌, List, [], ◌∷◌, map, if◌then◌else◌, ltb, ◌==◌, any, all, contains,
  insert_each, true, set_of,
}
use workspace_atlas.Route.Vocabulary.{
  Route, RequiredCapability, CallerCapabilityState, AtlasIntent, route_rank, intent_rank,
  capability_rank, caller_state_rank, minimum_route,
}
use workspace_atlas.Route.Explanation.{RouteSignal, RouteReason, signal_rank, reason_rank}
use workspace_atlas.Route.Request.{
  Capabilities, ContextRouteRequest, GenerationObservation, observed, unavailable,
}

-- The effective floor, the effective ceiling and the initial route.
unfoldable pub effective_routes : AtlasIntent → Route → Route → Route × Route × Route
effective_routes AtlasIntent.none floor ceiling = (Route.direct, Route.direct, Route.direct)
effective_routes AtlasIntent.allow floor ceiling = (floor, ceiling, floor)
effective_routes AtlasIntent.require floor ceiling =
    let raised : Route =
      if ltb (route_rank floor) (route_rank Route.atlas_light) then Route.atlas_light else floor in
    (raised, ceiling, raised)

abbrev pub keys : Capabilities → List RequiredCapability
keys = map (λ entry. entry.0)

abbrev pub values : Capabilities → List CallerCapabilityState
values = map (λ entry. entry.1)

abbrev pub state_signal : CallerCapabilityState → RouteSignal
state_signal CallerCapabilityState.satisfied = RouteSignal.caller_capabilities_satisfied
state_signal CallerCapabilityState.unsatisfied = RouteSignal.caller_capabilities_unsatisfied
state_signal CallerCapabilityState.unknown = RouteSignal.caller_capabilities_unknown

abbrev pub intent_signal : AtlasIntent → RouteSignal
intent_signal AtlasIntent.none = RouteSignal.atlas_intent_none
intent_signal AtlasIntent.allow = RouteSignal.atlas_intent_allow
intent_signal AtlasIntent.require = RouteSignal.atlas_intent_require

abbrev pub floor_signal : Route → RouteSignal
floor_signal Route.direct = RouteSignal.route_floor_direct
floor_signal Route.atlas_light = RouteSignal.route_floor_light
floor_signal Route.atlas_deep = RouteSignal.route_floor_deep

abbrev pub ceiling_signal : Route → RouteSignal
ceiling_signal Route.direct = RouteSignal.route_ceiling_direct
ceiling_signal Route.atlas_light = RouteSignal.route_ceiling_light
ceiling_signal Route.atlas_deep = RouteSignal.route_ceiling_deep

abbrev pub generation_signal : GenerationObservation → RouteSignal
generation_signal (observed generation_id) = RouteSignal.starting_generation_observed
generation_signal (unavailable reason) = RouteSignal.starting_generation_unavailable

abbrev pub is_unavailable : GenerationObservation → Bool
is_unavailable (observed generation_id) = false
is_unavailable (unavailable reason) = true

abbrev pub is_satisfied : CallerCapabilityState → Bool
is_satisfied state = caller_state_rank state == caller_state_rank CallerCapabilityState.satisfied

abbrev pub needs : Route → RequiredCapability → Bool
needs route capability = route_rank (minimum_route capability) == route_rank route

-- The signals that are inserted after those of the caller's states, each with its condition, in the
-- source's order.
abbrev pub signal_entries : ContextRouteRequest → Route → Route → List (Bool × RouteSignal)
signal_entries r floor ceiling =
    let requested = keys r.caller_capabilities in
    let requests =
      λ (capability : RequiredCapability). contains capability_rank capability requested in
    (true, intent_signal r.atlas_intent)
    ∷ (true, floor_signal floor)
    ∷ (true, ceiling_signal ceiling)
    ∷ (
      ltb 0 r.explicit_seeds.path_count || ltb 0 r.explicit_seeds.symbol_count,
      RouteSignal.explicit_seeds_present,
    )
    ∷ (
      requests RequiredCapability.identity_lookup || requests RequiredCapability.exact_source,
      RouteSignal.identity_or_source_requested,
    )
    ∷ (
      requests RequiredCapability.bounded_relationships
          || requests RequiredCapability.impact_frontier,
      RouteSignal.relationships_or_impact_requested,
    )
    ∷ (
      requests RequiredCapability.basic_coverage_conflicts,
      RouteSignal.basic_coverage_conflicts_requested,
    )
    ∷ (any (needs Route.atlas_deep) requested, RouteSignal.deep_synthesis_requested)
    ∷ (true, generation_signal r.starting_generation)
    ∷ []

-- The signals of the caller's states.
abbrev pub state_signals : ContextRouteRequest → List RouteSignal
state_signals r =
    set_of signal_rank (map state_signal (set_of caller_state_rank (values r.caller_capabilities)))

unfoldable pub route_signals : ContextRouteRequest → Route → Route → List RouteSignal
route_signals r floor ceiling =
    insert_each signal_rank (state_signals r) (signal_entries r floor ceiling)

-- The capabilities that the caller does not satisfy.
unfoldable pub incomplete : Capabilities → List RequiredCapability
incomplete [] = []
incomplete ((capability, state) ∷ m) =
    let rest = incomplete m in if is_satisfied state then rest else capability ∷ rest

-- The reasons, each with its condition, in the source's order.
abbrev pub reason_entries : ContextRouteRequest → Route → List (Bool × RouteReason)
reason_entries r floor =
    let all_satisfied = all is_satisfied (values r.caller_capabilities) in
    let left = incomplete r.caller_capabilities in
    (
      true,
      if all_satisfied
          then RouteReason.caller_context_sufficient
          else RouteReason.caller_context_incomplete,
    )
    ∷ (intent_rank r.atlas_intent == intent_rank AtlasIntent.none, RouteReason.atlas_not_requested)
    ∷ (
      intent_rank r.atlas_intent == intent_rank AtlasIntent.require,
      RouteReason.explicit_atlas_request,
    )
    ∷ (any (needs Route.atlas_light) left, RouteReason.light_capability_required)
    ∷ (any (needs Route.atlas_deep) left, RouteReason.deep_capability_required)
    ∷ (ltb (route_rank Route.direct) (route_rank floor), RouteReason.route_floor_applied)
    ∷ (is_unavailable r.starting_generation, RouteReason.starting_generation_unavailable)
    ∷ []

unfoldable pub route_reasons : ContextRouteRequest → Route → List RouteReason
route_reasons r floor = insert_each reason_rank [] (reason_entries r floor)
