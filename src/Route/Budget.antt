-- ===== src/Route/Budget.antt =====
-- The checks on the parts of a request (src/context_route.rs): contract versions, semantic budgets
-- with their digest, digests and identifiers.
pub mod Seal
use workspace_atlas.Common.{
  ℕ, Bool, not, ◌&&◌, ◌||◌, Text, codes, text_eq, List, [], ◌++◌, ok, ◌>>◌, refuse_if, ltb, leb,
  ◌==◌, length, all, is_empty,
}
use workspace_atlas.Route.Encoder.{encoder, ◌▷◌, u64, finish}
use workspace_atlas.Route.Request.{
  DeepContractVersions, DeepSemanticBudget, ContextRouteError, RouteResult, deep_planner_version,
  deep_projection_version, context_ir_version, deep_estimator_version,
  max_context_execution_records, max_context_execution_source_bytes,
  max_context_execution_estimated_tokens, max_context_execution_work_units, max_deep_depth,
}

-- `DeepContractVersions::fixed`.
abbrev pub fixed_contracts : DeepContractVersions
fixed_contracts = record {
  planner_version = deep_planner_version;
  projection_version = deep_projection_version;
  context_ir_version = context_ir_version;
  estimator_version = deep_estimator_version;
}

-- `DeepContractVersions::validate`.
unfoldable pub validate_contracts : DeepContractVersions → RouteResult (Unit {0})
validate_contracts c =
    refuse_if
      (not (text_eq c.planner_version deep_planner_version)
        || not (text_eq c.projection_version deep_projection_version)
        || not (text_eq c.context_ir_version context_ir_version)
        || not (text_eq c.estimator_version deep_estimator_version))
      (ContextRouteError.unsupported_version (codes "deep_contract") (
        c.planner_version
        ++ codes "/"
        ++ c.projection_version
        ++ codes "/"
        ++ c.context_ir_version
        ++ codes "/"
        ++ c.estimator_version))

-- `DeepSemanticBudget::validate_values`.
unfoldable pub validate_values : DeepSemanticBudget → RouteResult (Unit {0})
validate_values b =
    refuse_if
      (b.max_records == 0
        || ltb max_context_execution_records b.max_records
        || b.max_source_bytes == 0
        || ltb max_context_execution_source_bytes b.max_source_bytes
        || b.max_estimated_tokens == 0
        || ltb max_context_execution_estimated_tokens b.max_estimated_tokens
        || b.max_depth == 0
        || ltb max_deep_depth b.max_depth
        || b.max_work_units == 0
        || ltb max_context_execution_work_units b.max_work_units
        || b.uncertainty_reserve_percent == 0
        || ltb 100 b.uncertainty_reserve_percent)
      ContextRouteError.invalid_deep_budget

unfoldable pub valid_digest : Text → Bool
valid_digest value =
    length value == 64
    && all (λ byte. (leb b'0' byte && leb byte b'9') || (leb b'a' byte && leb byte b'f')) value

unfoldable pub valid_opaque_id : Text → Bool
valid_opaque_id value =
    not (is_empty value)
    && leb (length value) 128
    && all (λ byte. ltb byte 128) value
    && all (λ byte. not (ltb byte 32 || byte == 127)) value

module _ (hash : List ℕ → Text) where
  -- `DeepSemanticBudget::expected_digest`.
  unfoldable pub expected_digest : DeepSemanticBudget → Text
  unfolding encoder u64 finish
  expected_digest b = finish hash (
      encoder (codes "workspace-atlas/context-deep-budget-v1")
      ▷ u64 b.max_records
      ▷ u64 b.max_source_bytes
      ▷ u64 b.max_estimated_tokens
      ▷ u64 b.max_depth
      ▷ u64 b.max_work_units
      ▷ u64 b.uncertainty_reserve_percent)

  -- `DeepSemanticBudget::validate`.
  unfoldable pub validate_budget : DeepSemanticBudget → RouteResult (Unit {0})
  validate_budget b = do
    validate_values b
    refuse_if (not (text_eq b.budget_digest (expected_digest b)))
        ContextRouteError.invalid_deep_budget_digest

  -- `DeepSemanticBudget::new`.
  unfoldable pub new_budget : ℕ → ℕ → ℕ → ℕ → ℕ → ℕ → RouteResult DeepSemanticBudget
  new_budget records source_bytes tokens depth work percent = do
    let value : DeepSemanticBudget = record {
      max_records = records;
      max_source_bytes = source_bytes;
      max_estimated_tokens = tokens;
      max_depth = depth;
      max_work_units = work;
      uncertainty_reserve_percent = percent;
      budget_digest = [];
    }
    validate_values value
    ok (record value { budget_digest = expected_digest value })
