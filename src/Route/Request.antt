-- ===== src/Route/Request.antt =====
-- The request of src/context_route.rs and its parts, the errors of the module, and the functions
-- that build the parts. A `BTreeMap` is the list of its entries in ascending order of the keys;
-- a `u64`, `u32` or `u8` field is a number, whose range is a hypothesis where it matters.
use workspace_atlas.Common.{ℕ, ◌*◌, Text, codes, List, Option, Result}
use workspace_atlas.Route.Vocabulary.{
  Route, RequiredCapability, CallerCapabilityState, AtlasIntent, GenerationUnavailableReason,
  LightOperation, TaskKind,
}

abbrev pub context_route_policy_version : Text
context_route_policy_version = codes "context-route-v2.0.0"

abbrev pub task_classifier_version : Text
task_classifier_version = codes "task-classifier-v1.0.0"

abbrev pub context_ir_version : Text
context_ir_version = codes "2.0.0"

abbrev pub deep_planner_version : Text
deep_planner_version = codes "planner-v2.0.0"

abbrev pub deep_projection_version : Text
deep_projection_version = codes "projection-v2.0.0"

abbrev pub deep_estimator_version : Text
deep_estimator_version = codes "context-estimator-v1.0.0"

abbrev pub query_operation_version : Text
query_operation_version = codes "query-v1.0.0"

abbrev pub source_reference_operation_version : Text
source_reference_operation_version = codes "source-reference-v1.0.0"

abbrev pub max_route_capabilities : ℕ
max_route_capabilities = 8

abbrev pub max_deep_depth : ℕ
max_deep_depth = 64

abbrev pub max_context_execution_atlas_calls : ℕ
max_context_execution_atlas_calls = 1024

abbrev pub max_context_execution_records : ℕ
max_context_execution_records = 100000

abbrev pub max_context_execution_source_bytes : ℕ
max_context_execution_source_bytes = 16 * 1024 * 1024

abbrev pub max_context_execution_estimated_tokens : ℕ
max_context_execution_estimated_tokens = 4000000

abbrev pub max_context_execution_work_units : ℕ
max_context_execution_work_units = 10000000

pub data GenerationObservation : Type 0 where
  observed : Text → GenerationObservation
  unavailable : GenerationUnavailableReason → GenerationObservation

pub record SeedSummary : Type 0 where
  pub digest : Text
  pub path_count : ℕ
  pub symbol_count : ℕ

pub record ProfileIdentity : Type 0 where
  pub profile_id : Text
  pub profile_version : Text
  pub manifest_digest : Text

pub record VersionedOperation : Type 0 where
  pub operation : LightOperation
  pub version : Text

-- `LightOperation::version`.
abbrev pub light_operation_version : LightOperation → Text
light_operation_version LightOperation.query = query_operation_version
light_operation_version LightOperation.source_reference = source_reference_operation_version

pub record DeepContractVersions : Type 0 where
  pub planner_version : Text
  pub projection_version : Text
  pub context_ir_version : Text
  pub estimator_version : Text

pub record DeepSemanticBudget : Type 0 where
  pub max_records : ℕ
  pub max_source_bytes : ℕ
  pub max_estimated_tokens : ℕ
  pub max_depth : ℕ
  pub max_work_units : ℕ
  pub uncertainty_reserve_percent : ℕ
  pub budget_digest : Text

abbrev pub Capabilities : Type 0
Capabilities = List (RequiredCapability × CallerCapabilityState)

pub record ContextRouteRequest : Type 0 where
  pub schema_version : Text
  pub normalized_task_hash : Text
  pub declared_kind : Option TaskKind
  pub classifier_kind : TaskKind
  pub classifier_version : Text
  pub explicit_seeds : SeedSummary
  pub caller_capabilities : Capabilities
  pub atlas_intent : AtlasIntent
  pub route_floor : Route
  pub route_ceiling : Route
  pub capability_profile : Option ProfileIdentity
  pub cost_profile : Option ProfileIdentity
  pub profile_registry_digest : Option Text
  pub starting_generation : GenerationObservation
  pub light_operations : List VersionedOperation
  pub deep_contracts : DeepContractVersions
  pub deep_budget : Option DeepSemanticBudget

pub record SupportedVersions : Type 0 where
  pub capability_versions : List Text
  pub route_versions : List Text
  pub decision_versions : List Text
  pub execution_versions : List Text
  pub ir_versions : List Text
  pub operation_versions : List Text

pub data ContextRouteError : Type 0 where
  unsupported_version : Text → Text → ContextRouteError
  no_common_version : SupportedVersions → ContextRouteError
  floor_above_ceiling intent_floor_conflict intent_ceiling_conflict : ContextRouteError
  deep_budget_required invalid_deep_budget invalid_deep_budget_digest : ContextRouteError
  invalid_identity invalid_light_operations unknown_profile invalid_execution : ContextRouteError

abbrev pub RouteResult {ℓ} : Type ℓ → Type ℓ
RouteResult A = Result ContextRouteError A
