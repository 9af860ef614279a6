-- ===== src/Route/Explanation.antt =====
-- The closed vocabularies that explain a route decision (src/context_route.rs): signals and reasons,
-- with their declaration order and canonical texts.
use workspace_atlas.Common.{ℕ, Text, codes}

pub data RouteSignal : Type 0 where
  caller_capabilities_satisfied caller_capabilities_unsatisfied : RouteSignal
  caller_capabilities_unknown atlas_intent_none atlas_intent_allow atlas_intent_require :
      RouteSignal
  route_floor_direct route_floor_light route_floor_deep route_ceiling_direct : RouteSignal
  route_ceiling_light route_ceiling_deep explicit_seeds_present : RouteSignal
  identity_or_source_requested relationships_or_impact_requested : RouteSignal
  basic_coverage_conflicts_requested deep_synthesis_requested starting_generation_observed :
      RouteSignal
  starting_generation_unavailable capability_profile_applied cost_profile_applied : RouteSignal

abbrev pub signal_rank : RouteSignal → ℕ
signal_rank RouteSignal.caller_capabilities_satisfied = 0
signal_rank RouteSignal.caller_capabilities_unsatisfied = 1
signal_rank RouteSignal.caller_capabilities_unknown = 2
signal_rank RouteSignal.atlas_intent_none = 3
signal_rank RouteSignal.atlas_intent_allow = 4
signal_rank RouteSignal.atlas_intent_require = 5
signal_rank RouteSignal.route_floor_direct = 6
signal_rank RouteSignal.route_floor_light = 7
signal_rank RouteSignal.route_floor_deep = 8
signal_rank RouteSignal.route_ceiling_direct = 9
signal_rank RouteSignal.route_ceiling_light = 10
signal_rank RouteSignal.route_ceiling_deep = 11
signal_rank RouteSignal.explicit_seeds_present = 12
signal_rank RouteSignal.identity_or_source_requested = 13
signal_rank RouteSignal.relationships_or_impact_requested = 14
signal_rank RouteSignal.basic_coverage_conflicts_requested = 15
signal_rank RouteSignal.deep_synthesis_requested = 16
signal_rank RouteSignal.starting_generation_observed = 17
signal_rank RouteSignal.starting_generation_unavailable = 18
signal_rank RouteSignal.capability_profile_applied = 19
signal_rank RouteSignal.cost_profile_applied = 20

unfoldable pub signal_ascii : RouteSignal → Text
signal_ascii RouteSignal.caller_capabilities_satisfied = codes "caller_capabilities_satisfied"
signal_ascii RouteSignal.caller_capabilities_unsatisfied = codes "caller_capabilities_unsatisfied"
signal_ascii RouteSignal.caller_capabilities_unknown = codes "caller_capabilities_unknown"
signal_ascii RouteSignal.atlas_intent_none = codes "atlas_intent_none"
signal_ascii RouteSignal.atlas_intent_allow = codes "atlas_intent_allow"
signal_ascii RouteSignal.atlas_intent_require = codes "atlas_intent_require"
signal_ascii RouteSignal.route_floor_direct = codes "route_floor_direct"
signal_ascii RouteSignal.route_floor_light = codes "route_floor_light"
signal_ascii RouteSignal.route_floor_deep = codes "route_floor_deep"
signal_ascii RouteSignal.route_ceiling_direct = codes "route_ceiling_direct"
signal_ascii RouteSignal.route_ceiling_light = codes "route_ceiling_light"
signal_ascii RouteSignal.route_ceiling_deep = codes "route_ceiling_deep"
signal_ascii RouteSignal.explicit_seeds_present = codes "explicit_seeds_present"
signal_ascii RouteSignal.identity_or_source_requested = codes "identity_or_source_requested"
signal_ascii RouteSignal.relationships_or_impact_requested =
    codes "relationships_or_impact_requested"
signal_ascii RouteSignal.basic_coverage_conflicts_requested =
    codes "basic_coverage_conflicts_requested"
signal_ascii RouteSignal.deep_synthesis_requested = codes "deep_synthesis_requested"
signal_ascii RouteSignal.starting_generation_observed = codes "starting_generation_observed"
signal_ascii RouteSignal.starting_generation_unavailable = codes "starting_generation_unavailable"
signal_ascii RouteSignal.capability_profile_applied = codes "capability_profile_applied"
signal_ascii RouteSignal.cost_profile_applied = codes "cost_profile_applied"

pub data RouteReason : Type 0 where
  caller_context_sufficient caller_context_incomplete atlas_not_requested : RouteReason
  explicit_atlas_request light_capability_required deep_capability_required : RouteReason
  route_floor_applied starting_generation_unavailable : RouteReason

abbrev pub reason_rank : RouteReason → ℕ
reason_rank RouteReason.caller_context_sufficient = 0
reason_rank RouteReason.caller_context_incomplete = 1
reason_rank RouteReason.atlas_not_requested = 2
reason_rank RouteReason.explicit_atlas_request = 3
reason_rank RouteReason.light_capability_required = 4
reason_rank RouteReason.deep_capability_required = 5
reason_rank RouteReason.route_floor_applied = 6
reason_rank RouteReason.starting_generation_unavailable = 7

unfoldable pub reason_ascii : RouteReason → Text
reason_ascii RouteReason.caller_context_sufficient = codes "caller_context_sufficient"
reason_ascii RouteReason.caller_context_incomplete = codes "caller_context_incomplete"
reason_ascii RouteReason.atlas_not_requested = codes "atlas_not_requested"
reason_ascii RouteReason.explicit_atlas_request = codes "explicit_atlas_request"
reason_ascii RouteReason.light_capability_required = codes "light_capability_required"
reason_ascii RouteReason.deep_capability_required = codes "deep_capability_required"
reason_ascii RouteReason.route_floor_applied = codes "route_floor_applied"
reason_ascii RouteReason.starting_generation_unavailable = codes "starting_generation_unavailable"
