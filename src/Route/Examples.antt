-- ===== src/Route/Examples.antt =====
-- Concrete requests, decisions and executions of src/context_route.rs, the tests on them and the
-- theorems applied to them.
mod Decisions
mod Executions
mod Checked
mod Contracts
use workspace_atlas.Common.{ℕ, zero, suc, Text, List, [], ◌∷◌, Option, none, some, codes}
use workspace_atlas.Route.Vocabulary.{
  Route, RequiredCapability, CallerCapabilityState, AtlasIntent, GenerationUnavailableReason,
  TaskKind,
}
use workspace_atlas.Route.Request.{
  ContextRouteRequest, DeepSemanticBudget, GenerationObservation, observed, unavailable,
  Capabilities, context_route_policy_version, task_classifier_version,
}
use workspace_atlas.Route.Budget.{fixed_contracts}
use workspace_atlas.Route.Checks.Accepted.{light_contract}

-- A hash function for tests: the digest of everything is sixty-four zeros.
abbrev pub repeated : ℕ → ℕ → Text
repeated zero c = []
repeated (suc n) c = c ∷ repeated n c

abbrev pub digest : Text
digest = repeated 64 48

abbrev pub constant_hash : List ℕ → Text
constant_hash bytes = digest

abbrev pub generation : GenerationObservation
generation = observed (codes "generation-7")

abbrev pub budget : DeepSemanticBudget
budget = record {
  max_records = 100;
  max_source_bytes = 65536;
  max_estimated_tokens = 8000;
  max_depth = 4;
  max_work_units = 1000;
  uncertainty_reserve_percent = 20;
  budget_digest = digest;
}

abbrev pub request_of :
    AtlasIntent
    → Route
    → Route
    → Capabilities
    → GenerationObservation
    → Option DeepSemanticBudget
    → ContextRouteRequest
request_of intent floor ceiling capabilities start deep = record {
  schema_version = context_route_policy_version;
  normalized_task_hash = digest;
  declared_kind = none;
  classifier_kind = TaskKind.review;
  classifier_version = task_classifier_version;
  explicit_seeds = record { digest = digest; path_count = 2; symbol_count = 0 };
  caller_capabilities = capabilities;
  atlas_intent = intent;
  route_floor = floor;
  route_ceiling = ceiling;
  capability_profile = none;
  cost_profile = none;
  profile_registry_digest = none;
  starting_generation = start;
  light_operations = light_contract;
  deep_contracts = fixed_contracts;
  deep_budget = deep;
}

abbrev pub satisfied_source : Capabilities
satisfied_source = (RequiredCapability.exact_source, CallerCapabilityState.satisfied) ∷ []

abbrev pub mixed : Capabilities
mixed =
    (RequiredCapability.identity_lookup, CallerCapabilityState.satisfied)
    ∷ (RequiredCapability.exact_source, CallerCapabilityState.unsatisfied)
    ∷ (RequiredCapability.temporal_history, CallerCapabilityState.unknown)
    ∷ []

-- The caller has what it needs; Atlas must be asked, up to DEEP; the same without a generation.
abbrev pub direct_request : ContextRouteRequest
direct_request =
    request_of AtlasIntent.allow Route.direct Route.atlas_light satisfied_source generation none

abbrev pub deep_request : ContextRouteRequest
deep_request =
    request_of AtlasIntent.require Route.direct Route.atlas_deep mixed generation (some budget)

abbrev pub offline_request : ContextRouteRequest
offline_request =
    request_of AtlasIntent.require Route.direct Route.atlas_deep mixed
      (unavailable GenerationUnavailableReason.no_active_generation) (some budget)
