-- ===== src/Route/Decision/Soundness.antt =====
use mathlib.Core.Path.{subst}
-- `decide_context_route` against `ContextRouteDecision::validate` (src/context_route.rs).
use workspace_atlas.Common.{ℕ, ◌≡◌, refl, sym, ◌↔◌, Text, text_eq_refl, List, ok, arith}
use workspace_atlas.Route.Request.{ContextRouteRequest, context_route_policy_version}
use workspace_atlas.Route.Checks.{validate_request}
use workspace_atlas.Route.Decided.{ContextRouteDecision}
use workspace_atlas.Route.Hash.{canonical_decision_hash}
use workspace_atlas.Route.Decision.{unsealed_decision, decide_context_route, validate_decision}

module _ (hash : List ℕ → Text) where
  -- The decision of a request that passes its checks.
  abbrev pub decision_of : ContextRouteRequest → ContextRouteDecision
  decision_of r =
      let d = unsealed_decision r in record d { decision_hash = canonical_decision_hash hash d }

  pub decide-eq-ok :
      (r : ContextRouteRequest) (d : ContextRouteDecision)
      → decide_context_route hash r ≡ ok d
      → (validate_request hash r ≡ ok tt) × (d ≡ decision_of r)
  unfolding decide_context_route
  decide-eq-ok r d h = ground arith

  hash-decision_of :
      (r : ContextRouteRequest)
      → (decision_of r).decision_hash ≡ canonical_decision_hash hash (decision_of r)
  unfolding canonical_decision_hash
  hash-decision_of r = refl

  pub decide-decision_of :
      (r : ContextRouteRequest)
      → validate_request hash r ≡ ok tt
      → decide_context_route hash r ≡ ok (decision_of r)
  unfolding decide_context_route
  decide-decision_of r h = rw h

  pub validate-decision_of :
      (r : ContextRouteRequest)
      → validate_request hash r ≡ ok tt
      → validate_decision hash (decision_of r) ≡ ok tt
  unfolding validate_decision unsealed_decision
  validate-decision_of r h = ground (
    arith,
    decide-decision_of r h,
    hash-decision_of r,
    text_eq_refl context_route_policy_version,
    text_eq_refl (decision_of r).decision_hash,
  )

  decide_of_validate :
      (d : ContextRouteDecision)
      → validate_decision hash d ≡ ok tt
      → decide_context_route hash d.request ≡ ok d
  unfolding validate_decision
  decide_of_validate d h = ground arith

  -- A decision passes `validate` exactly if deciding its own request gives back that very decision:
  -- no field, the hash included, can differ from what the request determines.
  pub validate-decide_iff :
      (d : ContextRouteDecision)
      → (validate_decision hash d ≡ ok tt) ↔ (decide_context_route hash d.request ≡ ok d)
  validate-decide_iff d = (
    decide_of_validate d,
    λ e.
        subst (λ x. validate_decision hash x ≡ ok tt) (sym (decide-eq-ok d.request d e).1)
          (validate-decision_of d.request (decide-eq-ok d.request d e).0),
  )
