-- ===== src/Route/Checks/Accepted.antt =====
-- What `validate_request` of src/context_route.rs establishes of a request, stated without its
-- guards, and that the guards establish exactly that.
use workspace_atlas.Common.{
  ℕ, ◌≤◌, ◌<◌, ◌≡◌, refl, ◌≢◌, ◌↔◌, Text, text_eq_sound, text_eq_refl, List, [], ◌∷◌, Option, none,
  some, ok, length, arith, true,
}
use workspace_atlas.Route.Vocabulary.{Route, AtlasIntent, LightOperation, route_rank}
use workspace_atlas.Route.Request.{
  ContextRouteRequest, DeepSemanticBudget, VersionedOperation, DeepContractVersions,
  GenerationObservation, unavailable, deep_planner_version, deep_projection_version,
  context_ir_version, deep_estimator_version, observed, context_route_policy_version,
  task_classifier_version, query_operation_version, source_reference_operation_version,
}
use workspace_atlas.Route.Budget.{
  fixed_contracts, valid_digest, valid_opaque_id, validate_budget, validate_contracts,
  expected_digest, validate_values,
}
use workspace_atlas.Route.Checks.{
  validate_generation_id, validate_light_operations, validate_optional_budget, validate_request,
}

-- The bounds of a semantic budget.
pub record InBounds (b : DeepSemanticBudget) : Type 0 where
  pub records : (0 < b.max_records) × (b.max_records ≤ 100000)
  pub source_bytes : (0 < b.max_source_bytes) × (b.max_source_bytes ≤ 16777216)
  pub tokens : (0 < b.max_estimated_tokens) × (b.max_estimated_tokens ≤ 4000000)
  pub depth : (0 < b.max_depth) × (b.max_depth ≤ 64)
  pub work_units : (0 < b.max_work_units) × (b.max_work_units ≤ 10000000)
  pub reserve : (0 < b.uncertainty_reserve_percent) × (b.uncertainty_reserve_percent ≤ 100)

pub validate_values-InBounds : (b : DeepSemanticBudget) → validate_values b ≡ ok tt → InBounds b
unfolding validate_values
validate_values-InBounds b h = ground arith

validate_values_of_InBounds : (b : DeepSemanticBudget) → InBounds b → validate_values b ≡ ok tt
unfolding validate_values
validate_values_of_InBounds b h = ground arith

abbrev pub light_contract : List VersionedOperation
light_contract =
    record { operation = LightOperation.query; version = query_operation_version }
    ∷ record {
      operation = LightOperation.source_reference;
      version = source_reference_operation_version;
    }
    ∷ []

validate_light_operations_lem :
    (l : List VersionedOperation) → validate_light_operations l ≡ ok tt → l ≡ light_contract
unfolding validate_light_operations
validate_light_operations_lem [] h = cc
validate_light_operations_lem (a ∷ []) h = ground arith
validate_light_operations_lem (a ∷ b ∷ []) h = ground (
  arith,
  text_eq_sound a.version query_operation_version,
  text_eq_sound b.version source_reference_operation_version,
)
validate_light_operations_lem (a ∷ b ∷ c ∷ l) h = ground arith

light_contract_ok :
    (l : List VersionedOperation) → l ≡ light_contract → validate_light_operations l ≡ ok tt
unfolding validate_light_operations
light_contract_ok l e = rw e (
    ground (
      arith,
      text_eq_refl query_operation_version,
      text_eq_refl source_reference_operation_version,
    ))

validate_contracts_lem :
    (c : DeepContractVersions) → validate_contracts c ≡ ok tt → c ≡ fixed_contracts
unfolding validate_contracts
validate_contracts_lem c h = ground (
  arith,
  text_eq_sound c.planner_version deep_planner_version,
  text_eq_sound c.projection_version deep_projection_version,
  text_eq_sound c.context_ir_version context_ir_version,
  text_eq_sound c.estimator_version deep_estimator_version,
)

fixed_contracts_ok : (c : DeepContractVersions) → c ≡ fixed_contracts → validate_contracts c ≡ ok tt
unfolding validate_contracts
fixed_contracts_ok c e = rw e (
    ground (
      arith,
      text_eq_refl deep_planner_version,
      text_eq_refl deep_projection_version,
      text_eq_refl context_ir_version,
      text_eq_refl deep_estimator_version,
    ))

validate_generation_id_lem :
    (g : GenerationObservation)
    → validate_generation_id g ≡ ok tt
    → (i : Text) → g ≡ observed i
    → valid_opaque_id i ≡ true
unfolding validate_generation_id
validate_generation_id_lem (observed j) h i e = ground arith
validate_generation_id_lem (unavailable j) h i e = cc

generation_id_ok :
    (g : GenerationObservation)
    → ((i : Text) → g ≡ observed i → valid_opaque_id i ≡ true)
    → validate_generation_id g ≡ ok tt
unfolding validate_generation_id
generation_id_ok (observed j) h = rw (h j refl)
generation_id_ok (unavailable j) h = refl

module _ (hash : List ℕ → Text) where
  validate_optional_budget_lem :
      (o : Option DeepSemanticBudget)
      → validate_optional_budget hash o ≡ ok tt
      → (b : DeepSemanticBudget) → o ≡ some b
      → InBounds b × (b.budget_digest ≡ expected_digest hash b)
  unfolding validate_optional_budget validate_budget
  validate_optional_budget_lem none h b e = cc
  validate_optional_budget_lem (some c) h b e =
      ground
        (arith, validate_values-InBounds c, text_eq_sound c.budget_digest (expected_digest hash c))

  optional_budget_ok :
      (o : Option DeepSemanticBudget)
      → ((b : DeepSemanticBudget)
          → o ≡ some b
          → InBounds b × (b.budget_digest ≡ expected_digest hash b))
      → validate_optional_budget hash o ≡ ok tt
  unfolding validate_optional_budget validate_budget
  optional_budget_ok none h = refl
  optional_budget_ok (some c) h =
      let (bounds, digest) = h c refl in
      simp (validate_values_of_InBounds c bounds, digest, text_eq_refl)

  pub record Accepted (r : ContextRouteRequest) : Type 0 where
    pub schema : r.schema_version ≡ context_route_policy_version
    pub classifier : r.classifier_version ≡ task_classifier_version
    pub task_hash : valid_digest r.normalized_task_hash ≡ true
    pub seeds : valid_digest r.explicit_seeds.digest ≡ true
    pub few : length r.caller_capabilities ≤ 8
    pub generation : (i : Text) → r.starting_generation ≡ observed i → valid_opaque_id i ≡ true
    pub floor_le_ceiling : route_rank r.route_floor ≤ route_rank r.route_ceiling
    pub none_is_direct : r.atlas_intent ≡ AtlasIntent.none → r.route_floor ≡ Route.direct
    pub require_is_atlas : r.atlas_intent ≡ AtlasIntent.require → r.route_ceiling ≢ Route.direct
    pub deep_has_budget : r.route_ceiling ≡ Route.atlas_deep → r.deep_budget ≢ none
    pub budget :
        (b : DeepSemanticBudget)
        → r.deep_budget ≡ some b
        → InBounds b × (b.budget_digest ≡ expected_digest hash b)
    pub no_capability_profile : r.capability_profile ≡ none
    pub no_cost_profile : r.cost_profile ≡ none
    pub no_registry : r.profile_registry_digest ≡ none
    pub contracts : r.deep_contracts ≡ fixed_contracts
    pub operations : r.light_operations ≡ light_contract

  pub validate_request-Accepted :
      (r : ContextRouteRequest) → validate_request hash r ≡ ok tt → Accepted r
  unfolding validate_request
  validate_request-Accepted r h = record {
    schema = ground (arith, text_eq_sound r.schema_version context_route_policy_version);
    classifier = ground (arith, text_eq_sound r.classifier_version task_classifier_version);
    task_hash = ground arith;
    seeds = ground arith;
    few = ground arith;
    generation = validate_generation_id_lem r.starting_generation (ground arith);
    floor_le_ceiling = ground arith;
    none_is_direct = λ e. ground arith;
    require_is_atlas = λ e. ground arith;
    deep_has_budget = λ e. ground arith;
    budget = validate_optional_budget_lem r.deep_budget (ground arith);
    no_capability_profile = ground arith;
    no_cost_profile = ground arith;
    no_registry = ground arith;
    contracts = validate_contracts_lem r.deep_contracts (ground arith);
    operations = validate_light_operations_lem r.light_operations (ground arith);
  }

  pub Accepted-validate_request :
      (r : ContextRouteRequest) → Accepted r → validate_request hash r ≡ ok tt
  unfolding validate_request
  Accepted-validate_request r a = ground (
    arith,
    text_eq_refl context_route_policy_version,
    text_eq_refl task_classifier_version,
    generation_id_ok r.starting_generation a.generation,
    optional_budget_ok r.deep_budget a.budget,
    fixed_contracts_ok r.deep_contracts a.contracts,
    light_contract_ok r.light_operations a.operations,
  )

  -- A request passes its checks exactly if it meets each condition of `Accepted`: the supported
  -- versions, well-formed digests and identifiers, at most eight capabilities, floor within ceiling,
  -- an intent that fits them, a sealed budget in bounds wherever DEEP is reachable, no profiles, and
  -- the fixed contracts and operations.
  pub validate_request_iff :
      (r : ContextRouteRequest) → (validate_request hash r ≡ ok tt) ↔ Accepted r
  validate_request_iff r = (validate_request-Accepted r, Accepted-validate_request r)
