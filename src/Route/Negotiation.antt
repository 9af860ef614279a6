-- ===== src/Route/Negotiation.antt =====
-- `negotiate_context_versions` (src/context_route.rs).
pub mod Offers
use workspace_atlas.Common.{
  ℕ, Bool, not, ◌||◌, Text, codes, text_eq, List, [], ◌∷◌, ok, ◌>>◌, refuse_if, any,
}
use workspace_atlas.Route.Request.{
  SupportedVersions, ContextRouteError, RouteResult, context_route_policy_version,
  context_ir_version, query_operation_version, source_reference_operation_version,
}
use workspace_atlas.Route.Shared.{context_execution_version}

abbrev pub context_capabilities_version : Text
context_capabilities_version = codes "context-capabilities-v2.0.0"

pub record NegotiationRequest : Type 0 where
  pub capability_versions : List Text
  pub route_versions : List Text
  pub decision_versions : List Text
  pub execution_versions : List Text
  pub ir_versions : List Text
  pub operation_versions : List Text

pub record NegotiatedVersions : Type 0 where
  pub capability_version : Text
  pub route_version : Text
  pub decision_version : Text
  pub execution_version : Text
  pub ir_version : Text
  pub operation_versions : List Text

abbrev pub required_operations : List Text
required_operations = query_operation_version ∷ source_reference_operation_version ∷ []

abbrev pub supported_versions : SupportedVersions
supported_versions = record {
  capability_versions = context_capabilities_version ∷ [];
  route_versions = context_route_policy_version ∷ [];
  decision_versions = context_route_policy_version ∷ [];
  execution_versions = context_execution_version ∷ [];
  ir_versions = context_ir_version ∷ [];
  operation_versions = required_operations;
}

abbrev pub negotiated_versions : NegotiatedVersions
negotiated_versions = record {
  capability_version = context_capabilities_version;
  route_version = context_route_policy_version;
  decision_version = context_route_policy_version;
  execution_version = context_execution_version;
  ir_version = context_ir_version;
  operation_versions = required_operations;
}

-- `offered.iter().any(|version| version == required)`.
abbrev pub offers : List Text → Text → Bool
offers offered required = any (λ version. text_eq version required) offered

unfoldable pub negotiate_context_versions : NegotiationRequest → RouteResult NegotiatedVersions
negotiate_context_versions r =
    refuse_if
      (not (offers r.capability_versions context_capabilities_version)
        || not (offers r.route_versions context_route_policy_version)
        || not (offers r.decision_versions context_route_policy_version)
        || not (offers r.execution_versions context_execution_version)
        || not (offers r.ir_versions context_ir_version)
        || any (λ required. not (offers r.operation_versions required)) required_operations)
      (ContextRouteError.no_common_version supported_versions)
    >> ok negotiated_versions
