-- ===== src/Route/Negotiation/Offers.antt =====
-- When `negotiate_context_versions` (src/context_route.rs) succeeds.
use mathlib.Core.List.{Memᴰ}
use workspace_atlas.Common.{
  sym, ◌≡◌, ◌⊎◌, inl, inr, true, Text, text_eq, text_eq_sound, text_eq_refl, List, [], ◌∷◌, ok, err,
  arith, Bool-cases,
}
use workspace_atlas.Route.Request.{
  ContextRouteError, context_route_policy_version, context_ir_version, query_operation_version,
  source_reference_operation_version,
}
use workspace_atlas.Route.Shared.{context_execution_version}
use workspace_atlas.Route.Negotiation.{
  context_capabilities_version, NegotiationRequest, supported_versions, negotiated_versions, offers,
  negotiate_context_versions,
}

-- What a request has to offer.
pub record Offers (r : NegotiationRequest) : Type 0 where
  pub capability : Memᴰ context_capabilities_version r.capability_versions
  pub route : Memᴰ context_route_policy_version r.route_versions
  pub decision : Memᴰ context_route_policy_version r.decision_versions
  pub execution : Memᴰ context_execution_version r.execution_versions
  pub ir : Memᴰ context_ir_version r.ir_versions
  pub query : Memᴰ query_operation_version r.operation_versions
  pub source_reference : Memᴰ source_reference_operation_version r.operation_versions

offers-Memᴰ : (l : List Text) (v : Text) → offers l v ≡ true → Memᴰ v l
offers-Memᴰ [] v h = cc
offers-Memᴰ (x ∷ l) v h = elim (Bool-cases (text_eq x v)) [
  | inl e ↦ Memᴰ.head (sym (text_eq_sound x v e))
  | inr e ↦ Memᴰ.tail (offers-Memᴰ l v (ground arith))
]

Memᴰ-offers : (l : List Text) (v : Text) → Memᴰ v l → offers l v ≡ true
Memᴰ-offers [] v m = elim m [ ]
Memᴰ-offers (x ∷ l) v (Memᴰ.head e) = ground (arith, text_eq_refl v)
Memᴰ-offers (x ∷ l) v (Memᴰ.tail m) = ground (arith, Memᴰ-offers l v m)

accepted_lem :
    (r : NegotiationRequest) → negotiate_context_versions r ≡ ok negotiated_versions → Offers r
unfolding negotiate_context_versions
accepted_lem r h = record {
  capability = offers-Memᴰ r.capability_versions context_capabilities_version (ground arith);
  route = offers-Memᴰ r.route_versions context_route_policy_version (ground arith);
  decision = offers-Memᴰ r.decision_versions context_route_policy_version (ground arith);
  execution = offers-Memᴰ r.execution_versions context_execution_version (ground arith);
  ir = offers-Memᴰ r.ir_versions context_ir_version (ground arith);
  query = offers-Memᴰ r.operation_versions query_operation_version (ground arith);
  source_reference =
      offers-Memᴰ r.operation_versions source_reference_operation_version (ground arith);
}

offered_ok :
    (r : NegotiationRequest) → Offers r → negotiate_context_versions r ≡ ok negotiated_versions
unfolding negotiate_context_versions
offered_ok r o = ground (
  arith,
  Memᴰ-offers r.capability_versions context_capabilities_version o.capability,
  Memᴰ-offers r.route_versions context_route_policy_version o.route,
  Memᴰ-offers r.decision_versions context_route_policy_version o.decision,
  Memᴰ-offers r.execution_versions context_execution_version o.execution,
  Memᴰ-offers r.ir_versions context_ir_version o.ir,
  Memᴰ-offers r.operation_versions query_operation_version o.query,
  Memᴰ-offers r.operation_versions source_reference_operation_version o.source_reference,
)

outcome :
    (r : NegotiationRequest)
    → (negotiate_context_versions r ≡ ok negotiated_versions)
      ⊎ (negotiate_context_versions r
          ≡ err (ContextRouteError.no_common_version supported_versions))
unfolding negotiate_context_versions
outcome r = ground arith

-- Negotiation succeeds, with the fixed versions, if the request offers the supported version of each
-- contract and of both operations, in any order and among others; if it does not, the error lists
-- exactly what is supported.
pub negotiate_outcome :
    (r : NegotiationRequest)
    → (Offers r × (negotiate_context_versions r ≡ ok negotiated_versions))
      ⊎ ((¬ Offers r)
          × (negotiate_context_versions r
              ≡ err (ContextRouteError.no_common_version supported_versions)))
negotiate_outcome r = elim (outcome r) [
  | inl e ↦ inl (accepted_lem r e, e)
  | inr e ↦ inr (λ o. cc (offered_ok r o, e), e)
]
