-- ===== src/Route/Checks.antt =====
-- `validate_request` of src/context_route.rs: the guards in the source's order, each with the error
-- that it returns.
pub mod Accepted
use workspace_atlas.Common.{
  ℕ, Bool, true, false, not, ◌&&◌, ◌||◌, Text, codes, text_eq, List, [], ◌∷◌, Option, none, some,
  Result, ok, err, ◌>>=◌, ◌>>◌, refuse_if, ltb, ◌==◌, length,
}
use workspace_atlas.Route.Vocabulary.{
  Route, LightOperation, AtlasIntent, route_rank, intent_rank, light_operation_rank,
}
use workspace_atlas.Route.Request.{
  ContextRouteRequest, ContextRouteError, RouteResult, GenerationObservation, observed, unavailable,
  DeepSemanticBudget, VersionedOperation, context_route_policy_version, task_classifier_version,
  max_route_capabilities, light_operation_version,
}
use workspace_atlas.Route.Budget.{
  valid_digest, valid_opaque_id, validate_budget, validate_contracts,
}

-- `is_some` and `is_none`.
abbrev pub is_some {ℓ} : {A : Type ℓ} → Option A → Bool
is_some none = false
is_some (some x) = true

unfoldable pub validate_generation_id : GenerationObservation → RouteResult (Unit {0})
validate_generation_id (observed generation_id) =
    refuse_if (not (valid_opaque_id generation_id)) ContextRouteError.invalid_identity
validate_generation_id (unavailable reason) = ok tt

-- The comparison with `expected`, operation by operation.
unfoldable pub light_operations_differ : List LightOperation → List VersionedOperation → Bool
light_operations_differ [] actual = false
light_operations_differ (operation ∷ expected) [] = false
light_operations_differ (operation ∷ expected) (a ∷ actual) =
    not (light_operation_rank a.operation == light_operation_rank operation)
    || not (text_eq a.version (light_operation_version operation))
    || light_operations_differ expected actual

abbrev pub expected_operations : List LightOperation
expected_operations = LightOperation.query ∷ LightOperation.source_reference ∷ []

unfoldable pub validate_light_operations : List VersionedOperation → RouteResult (Unit {0})
unfolding light_operations_differ
validate_light_operations operations =
    refuse_if
      (not (length operations == 2) || light_operations_differ expected_operations operations)
      ContextRouteError.invalid_light_operations

module _ (hash : List ℕ → Text) where
  unfoldable pub validate_optional_budget : Option DeepSemanticBudget → RouteResult (Unit {0})
  validate_optional_budget (some budget) = validate_budget hash budget
  validate_optional_budget none = ok tt

  unfoldable pub validate_request : ContextRouteRequest → RouteResult (Unit {0})
  validate_request r = do
    refuse_if (not (text_eq r.schema_version context_route_policy_version))
        (ContextRouteError.unsupported_version (codes "route") r.schema_version)
    refuse_if (not (text_eq r.classifier_version task_classifier_version))
        (ContextRouteError.unsupported_version (codes "classifier") r.classifier_version)
    refuse_if
        (not (valid_digest r.normalized_task_hash)
          || not (valid_digest r.explicit_seeds.digest)
          || ltb max_route_capabilities (length r.caller_capabilities))
        ContextRouteError.invalid_identity
    validate_generation_id r.starting_generation
    refuse_if (ltb (route_rank r.route_ceiling) (route_rank r.route_floor))
        ContextRouteError.floor_above_ceiling
    refuse_if
        (intent_rank r.atlas_intent == intent_rank AtlasIntent.none
          && not (route_rank r.route_floor == route_rank Route.direct))
        ContextRouteError.intent_floor_conflict
    refuse_if
        (intent_rank r.atlas_intent == intent_rank AtlasIntent.require
          && route_rank r.route_ceiling == route_rank Route.direct)
        ContextRouteError.intent_ceiling_conflict
    refuse_if
        (route_rank r.route_ceiling == route_rank Route.atlas_deep && not (is_some r.deep_budget))
        ContextRouteError.deep_budget_required
    validate_optional_budget r.deep_budget
    refuse_if
        (is_some r.capability_profile
          || is_some r.cost_profile
          || is_some r.profile_registry_digest)
        ContextRouteError.unknown_profile
    validate_contracts r.deep_contracts
    validate_light_operations r.light_operations
