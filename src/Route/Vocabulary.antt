-- ===== src/Route/Vocabulary.antt =====
-- The closed vocabularies of a route request and decision (src/context_route.rs): the enums, their
-- declaration order as a `rank` (the derived `Ord` and `Eq`), and the texts that the canonical
-- encoder writes for them.
use workspace_atlas.Common.{ℕ, Text, codes}

pub data Route : Type 0 where
  direct atlas_light atlas_deep : Route

abbrev pub route_rank : Route → ℕ
route_rank Route.direct = 0
route_rank Route.atlas_light = 1
route_rank Route.atlas_deep = 2

unfoldable pub route_ascii : Route → Text
route_ascii Route.direct = codes "DIRECT"
route_ascii Route.atlas_light = codes "ATLAS_LIGHT"
route_ascii Route.atlas_deep = codes "ATLAS_DEEP"

pub data RequiredCapability : Type 0 where
  identity_lookup exact_source bounded_relationships impact_frontier : RequiredCapability
  basic_coverage_conflicts temporal_history required_role_closure validation_plan :
      RequiredCapability

abbrev pub capability_rank : RequiredCapability → ℕ
capability_rank RequiredCapability.identity_lookup = 0
capability_rank RequiredCapability.exact_source = 1
capability_rank RequiredCapability.bounded_relationships = 2
capability_rank RequiredCapability.impact_frontier = 3
capability_rank RequiredCapability.basic_coverage_conflicts = 4
capability_rank RequiredCapability.temporal_history = 5
capability_rank RequiredCapability.required_role_closure = 6
capability_rank RequiredCapability.validation_plan = 7

unfoldable pub capability_ascii : RequiredCapability → Text
capability_ascii RequiredCapability.identity_lookup = codes "identity_lookup"
capability_ascii RequiredCapability.exact_source = codes "exact_source"
capability_ascii RequiredCapability.bounded_relationships = codes "bounded_relationships"
capability_ascii RequiredCapability.impact_frontier = codes "impact_frontier"
capability_ascii RequiredCapability.basic_coverage_conflicts = codes "basic_coverage_conflicts"
capability_ascii RequiredCapability.temporal_history = codes "temporal_history"
capability_ascii RequiredCapability.required_role_closure = codes "required_role_closure"
capability_ascii RequiredCapability.validation_plan = codes "validation_plan"

-- The cheapest route that can serve a capability.
abbrev pub minimum_route : RequiredCapability → Route
minimum_route RequiredCapability.identity_lookup = Route.atlas_light
minimum_route RequiredCapability.exact_source = Route.atlas_light
minimum_route RequiredCapability.bounded_relationships = Route.atlas_light
minimum_route RequiredCapability.impact_frontier = Route.atlas_light
minimum_route RequiredCapability.basic_coverage_conflicts = Route.atlas_light
minimum_route RequiredCapability.temporal_history = Route.atlas_deep
minimum_route RequiredCapability.required_role_closure = Route.atlas_deep
minimum_route RequiredCapability.validation_plan = Route.atlas_deep

pub data CallerCapabilityState : Type 0 where
  satisfied unsatisfied unknown : CallerCapabilityState

abbrev pub caller_state_rank : CallerCapabilityState → ℕ
caller_state_rank CallerCapabilityState.satisfied = 0
caller_state_rank CallerCapabilityState.unsatisfied = 1
caller_state_rank CallerCapabilityState.unknown = 2

unfoldable pub caller_state_ascii : CallerCapabilityState → Text
caller_state_ascii CallerCapabilityState.satisfied = codes "satisfied"
caller_state_ascii CallerCapabilityState.unsatisfied = codes "unsatisfied"
caller_state_ascii CallerCapabilityState.unknown = codes "unknown"

pub data AtlasIntent : Type 0 where
  none allow require : AtlasIntent

abbrev pub intent_rank : AtlasIntent → ℕ
intent_rank AtlasIntent.none = 0
intent_rank AtlasIntent.allow = 1
intent_rank AtlasIntent.require = 2

unfoldable pub intent_ascii : AtlasIntent → Text
intent_ascii AtlasIntent.none = codes "none"
intent_ascii AtlasIntent.allow = codes "allow"
intent_ascii AtlasIntent.require = codes "require"

pub data GenerationUnavailableReason : Type 0 where
  workspace_unregistered catalogue_unavailable no_active_generation observation_failed :
      GenerationUnavailableReason

unfoldable pub unavailable_reason_ascii : GenerationUnavailableReason → Text
unavailable_reason_ascii GenerationUnavailableReason.workspace_unregistered =
    codes "workspace_unregistered"
unavailable_reason_ascii GenerationUnavailableReason.catalogue_unavailable =
    codes "catalogue_unavailable"
unavailable_reason_ascii GenerationUnavailableReason.no_active_generation =
    codes "no_active_generation"
unavailable_reason_ascii GenerationUnavailableReason.observation_failed = codes "observation_failed"

pub data LightOperation : Type 0 where
  query source_reference : LightOperation

abbrev pub light_operation_rank : LightOperation → ℕ
light_operation_rank LightOperation.query = 0
light_operation_rank LightOperation.source_reference = 1

unfoldable pub light_operation_ascii : LightOperation → Text
light_operation_ascii LightOperation.query = codes "query"
light_operation_ascii LightOperation.source_reference = codes "source_reference"

-- `TaskKind` of src/context_ir.rs.
pub data TaskKind : Type 0 where
  explore bug_fix behavior_change api_change refactor configuration_change test_change : TaskKind
  review audit unknown : TaskKind

unfoldable pub task_kind_ascii : TaskKind → Text
task_kind_ascii TaskKind.explore = codes "explore"
task_kind_ascii TaskKind.bug_fix = codes "bug_fix"
task_kind_ascii TaskKind.behavior_change = codes "behavior_change"
task_kind_ascii TaskKind.api_change = codes "api_change"
task_kind_ascii TaskKind.refactor = codes "refactor"
task_kind_ascii TaskKind.configuration_change = codes "configuration_change"
task_kind_ascii TaskKind.test_change = codes "test_change"
task_kind_ascii TaskKind.review = codes "review"
task_kind_ascii TaskKind.audit = codes "audit"
task_kind_ascii TaskKind.unknown = codes "unknown"
