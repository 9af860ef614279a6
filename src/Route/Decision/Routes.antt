-- ===== src/Route/Decision/Routes.antt =====
-- The routes that `decide_context_route` (src/context_route.rs) grants.
use mathlib.Core.Path.{subst}
use workspace_atlas.Common.{
  ℕ, sym, ap, ◌∙◌, Option-cases, inl, inr, ◌≤◌, ◌≡◌, Text, List, some, ok, arith,
}
use workspace_atlas.Route.Vocabulary.{Route, AtlasIntent, route_rank}
use workspace_atlas.Route.Request.{ContextRouteRequest, DeepSemanticBudget}
use workspace_atlas.Route.Budget.{expected_digest}
use workspace_atlas.Route.Checks.Accepted.{Accepted, InBounds, validate_request-Accepted}
use workspace_atlas.Route.Decided.{ContextRouteDecision}
use workspace_atlas.Route.Decision.{unsealed_decision, decide_context_route}
use workspace_atlas.Route.Decision.Soundness.{decide-eq-ok, decision_of}

-- What a decision's routes promise, for a request.
pub record Routed (r : ContextRouteRequest) (d : ContextRouteDecision) : Type 0 where
  pub starts_at_floor : d.initial_route ≡ d.effective_floor
  pub ordered : route_rank d.effective_floor ≤ route_rank d.effective_ceiling
  pub above_requested_floor : route_rank r.route_floor ≤ route_rank d.effective_floor
  pub below_requested_ceiling : route_rank d.effective_ceiling ≤ route_rank r.route_ceiling
  pub none_stays_direct : r.atlas_intent ≡ AtlasIntent.none → d.effective_ceiling ≡ Route.direct
  pub allow_is_as_requested :
      r.atlas_intent ≡ AtlasIntent.allow
      → (d.effective_floor ≡ r.route_floor) × (d.effective_ceiling ≡ r.route_ceiling)
  pub require_reaches_atlas :
      r.atlas_intent ≡ AtlasIntent.require
      → route_rank Route.atlas_light ≤ route_rank d.effective_floor

module _ (hash : List ℕ → Text) where
  decision_of-Routed : (r : ContextRouteRequest) → Accepted hash r → Routed r (decision_of hash r)
  unfolding unsealed_decision
  decision_of-Routed r a = ground arith

  deep_ceiling :
      (r : ContextRouteRequest) (d : ContextRouteDecision)
      → Accepted hash r
      → Routed r d
      → d.effective_ceiling ≡ Route.atlas_deep
      → r.route_ceiling ≡ Route.atlas_deep
  deep_ceiling r d a routed deep = ground (arith, routed.below_requested_ceiling)

  digest_of :
      (r : ContextRouteRequest) (b : DeepSemanticBudget)
      → r.deep_budget ≡ some b
      → (decision_of hash r).deep_budget_digest ≡ some b.budget_digest
  unfolding unsealed_decision
  digest_of r b e = ground arith

  -- Every decision starts at its floor, keeps floor and ceiling in order and within the requested
  -- ones, stays DIRECT when Atlas is not wanted, and starts at LIGHT or DEEP when it is required.
  pub decide-Routed :
      (r : ContextRouteRequest) {d : ContextRouteDecision}
      → decide_context_route hash r ≡ ok d
      → Routed r d
  decide-Routed r h =
      let (valid, built) = decide-eq-ok hash r _ h in
      subst (Routed r) (sym built) (decision_of-Routed r (validate_request-Accepted hash r valid))

  -- A decision whose ceiling is DEEP carries a semantic budget with every limit positive and within
  -- the advertised bounds, sealed by its own digest, and names that digest.
  pub decide-deep-InBounds :
      (r : ContextRouteRequest) {d : ContextRouteDecision}
      → decide_context_route hash r ≡ ok d
      → d.effective_ceiling ≡ Route.atlas_deep
      → (b : DeepSemanticBudget) × (r.deep_budget ≡ some b)
        × InBounds b
        × (b.budget_digest ≡ expected_digest hash b)
        × (d.deep_budget_digest ≡ some b.budget_digest)
  decide-deep-InBounds r {d} h deep = elim (Option-cases r.deep_budget) [
    | inl e ↦ absurd (a.deep_has_budget ceiling e)
    | inr (b, e) ↦ (b, e, (a.budget b e).0, (a.budget b e).1, digest b e)
  ]
    where
      a : Accepted hash r
      a = validate_request-Accepted hash r (decide-eq-ok hash r d h).0

      built : d ≡ decision_of hash r
      built = (decide-eq-ok hash r d h).1

      ceiling : r.route_ceiling ≡ Route.atlas_deep
      ceiling = deep_ceiling r d a (decide-Routed r h) deep

      digest :
          (b : DeepSemanticBudget)
          → r.deep_budget ≡ some b
          → d.deep_budget_digest ≡ some b.budget_digest
      digest b e = ap (λ x. x.deep_budget_digest) built ∙ digest_of r b e
