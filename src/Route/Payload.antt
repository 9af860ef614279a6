-- ===== src/Route/Payload.antt =====
-- Payloads and materialised sources of src/context_route.rs, with their checks.
use workspace_atlas.Common.{
  ℕ, ◌-◌, Bool, true, false, not, ◌&&◌, ◌||◌, Text, text_eq, List, [], ◌∷◌, ok, ◌>>=◌, ◌>>◌,
  refuse_if, ltb, leb, ◌==◌, length, any, any_adjacent, is_empty,
}
use workspace_atlas.Route.Vocabulary.{Route, LightOperation, light_operation_rank}
use workspace_atlas.Route.Request.{
  ContextRouteError, RouteResult, context_ir_version, query_operation_version,
  source_reference_operation_version, max_context_execution_source_bytes,
}
use workspace_atlas.Route.Budget.{valid_digest}
use workspace_atlas.Route.Attempt.{checked_add}

abbrev pub max_materialized_sources : ℕ
max_materialized_sources = 64

-- The operation's version, its result digest and its count.
pub data LightOperationResult : Type 0 where
  query : Text → Text → ℕ → LightOperationResult
  source_reference : Text → Text → ℕ → LightOperationResult

-- `LightOperationResult::operation`.
abbrev pub operation_of : LightOperationResult → LightOperation
operation_of (LightOperationResult.query version digest count) = LightOperation.query
operation_of (LightOperationResult.source_reference version digest count) =
    LightOperation.source_reference

-- `LightOperationResult::validate`.
unfoldable pub validate_operation_result : LightOperationResult → Bool
validate_operation_result (LightOperationResult.query version digest count) =
    text_eq version query_operation_version && valid_digest digest
validate_operation_result (LightOperationResult.source_reference version digest count) =
    text_eq version source_reference_operation_version && valid_digest digest

pub record DeepResultReference : Type 0 where
  pub context_ir_version : Text
  pub context_hash : Text

pub data ContextPayload : Type 0 where
  direct_none : ContextPayload
  light_bundle : List LightOperationResult → ContextPayload
  deep_context_ir : DeepResultReference → ContextPayload

abbrev pub operations_unordered : LightOperationResult → LightOperationResult → Bool
operations_unordered x y =
    leb (light_operation_rank (operation_of y)) (light_operation_rank (operation_of x))

-- `ContextPayload::validate`.
unfoldable pub validate_payload : ContextPayload → RouteResult (Unit {0})
unfolding validate_operation_result
validate_payload direct_none = ok tt
validate_payload (light_bundle operations) =
    refuse_if
      (is_empty operations
        || ltb 2 (length operations)
        || any (λ operation. not (validate_operation_result operation)) operations
        || any_adjacent operations_unordered operations)
      ContextRouteError.invalid_execution
validate_payload (deep_context_ir result) =
    refuse_if
      (not (text_eq result.context_ir_version context_ir_version)
        || not (valid_digest result.context_hash))
      ContextRouteError.invalid_execution

-- `ContextPayload::route` and `ContextPayload::useful`.
abbrev pub payload_route : ContextPayload → Route
payload_route direct_none = Route.direct
payload_route (light_bundle operations) = Route.atlas_light
payload_route (deep_context_ir result) = Route.atlas_deep

abbrev pub useful : ContextPayload → Bool
useful direct_none = false
useful (light_bundle operations) = true
useful (deep_context_ir result) = true

pub record MaterializedSource : Type 0 where
  pub source_digest : Text
  pub start_byte : ℕ
  pub end_byte : ℕ
  pub bytes : List ℕ

pub record ExplicitMaterialization : Type 0 where
  pub authorized : Bool
  pub max_bytes : ℕ
  pub sources : List MaterializedSource

-- The loop of `ExplicitMaterialization::validate`; `end_byte - start_byte` is read after the test
-- that it does not underflow.
unfoldable pub total_bytes : ℕ → List MaterializedSource → RouteResult ℕ
total_bytes total [] = ok total
total_bytes total (s ∷ sources) = do
  refuse_if
      (not (valid_digest s.source_digest)
        || leb s.end_byte s.start_byte
        || not (s.end_byte - s.start_byte == length s.bytes))
      ContextRouteError.invalid_execution
  next ← checked_add total (length s.bytes)
  total_bytes next sources

-- `ExplicitMaterialization::validate`.
unfoldable pub validate_materialized : ExplicitMaterialization → RouteResult (Unit {0})
unfolding total_bytes
validate_materialized m = do
  refuse_if
      (not m.authorized
        || m.max_bytes == 0
        || ltb max_context_execution_source_bytes m.max_bytes
        || ltb max_materialized_sources (length m.sources))
      ContextRouteError.invalid_execution
  total ← total_bytes 0 m.sources
  refuse_if (ltb m.max_bytes total) ContextRouteError.invalid_execution
