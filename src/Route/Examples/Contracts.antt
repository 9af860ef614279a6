-- ===== src/Route/Examples/Contracts.antt =====
-- Tests and examples for materialised sources and version negotiation of src/context_route.rs.
use workspace_atlas.Common.{◌≡◌, refl, true, ok, [], ◌∷◌, codes, ◌⊎◌}
use workspace_atlas.Route.Payload.{ExplicitMaterialization, validate_materialized, total_bytes}
use workspace_atlas.Route.Shared.{context_execution_version}
use workspace_atlas.Route.Examples.{digest}
use workspace_atlas.Route.Budget.{valid_digest}
use workspace_atlas.Route.Negotiation.{
  NegotiationRequest, context_capabilities_version, supported_versions, negotiated_versions,
  negotiate_context_versions,
}
use workspace_atlas.Route.Negotiation.Offers.{Offers, negotiate_outcome}
use workspace_atlas.Route.Request.{
  context_route_policy_version, context_ir_version, query_operation_version,
  source_reference_operation_version, ContextRouteError,
}
use workspace_atlas.Common.{err}

abbrev three_bytes : ExplicitMaterialization
three_bytes = record {
  authorized = true;
  max_bytes = 1024;
  sources =
      record { source_digest = digest; start_byte = 40; end_byte = 43; bytes = 102 ∷ 110 ∷ 10 ∷ [] }
      ∷ [];
}

three_bytes_ok : validate_materialized three_bytes ≡ ok tt
unfolding validate_materialized total_bytes valid_digest
three_bytes_ok = refl

abbrev everything : NegotiationRequest
everything = record {
  capability_versions = codes "context-capabilities-v1.0.0" ∷ context_capabilities_version ∷ [];
  route_versions = context_route_policy_version ∷ [];
  decision_versions = context_route_policy_version ∷ [];
  execution_versions = context_execution_version ∷ [];
  ir_versions = context_ir_version ∷ [];
  operation_versions = source_reference_operation_version ∷ query_operation_version ∷ [];
}

negotiate_outcome_example :
    (Offers everything × (negotiate_context_versions everything ≡ ok negotiated_versions))
    ⊎ ((¬ Offers everything)
        × (negotiate_context_versions everything
            ≡ err (ContextRouteError.no_common_version supported_versions)))
negotiate_outcome_example = negotiate_outcome everything
