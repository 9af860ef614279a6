-- ===== src/Route/Decision.antt =====
-- `decide_context_route` and `ContextRouteDecision::validate` (src/context_route.rs).
pub mod Soundness
pub mod Routes
pub mod Reasons
pub mod SignalTerms
pub mod SignalSet
use workspace_atlas.Common.{ℕ, not, ◌||◌, Text, text_eq, List, [], ok, ◌>>=◌, ◌>>◌, refuse_if, same}
use mathlib.Core.Option
use workspace_atlas.Route.Request.{
  ContextRouteRequest, ContextRouteError, RouteResult, context_route_policy_version,
}
use workspace_atlas.Route.Checks.{validate_request}
use workspace_atlas.Route.Decided.{
  ContextRouteDecision, ContextRouteDecision-discrete, Capabilities-discrete,
  GenerationObservation-discrete, OptionText-discrete,
}
use workspace_atlas.Route.Hash.{canonical_decision_hash}
use workspace_atlas.Route.Signals.{effective_routes, route_signals, route_reasons}

-- The decision before its hash is set.
unfoldable pub unsealed_decision : ContextRouteRequest → ContextRouteDecision
unfolding effective_routes route_signals route_reasons
unsealed_decision r =
    let (floor, ceiling, initial) = effective_routes r.atlas_intent r.route_floor r.route_ceiling in
    record {
      schema_version = context_route_policy_version;
      request = r;
      effective_floor = floor;
      effective_ceiling = ceiling;
      requested_capabilities = r.caller_capabilities;
      deep_budget_digest = Option.map (λ b. b.budget_digest) r.deep_budget;
      initial_route = initial;
      signals = route_signals r floor ceiling;
      reasons = route_reasons r floor;
      starting_generation = r.starting_generation;
      policy_version = context_route_policy_version;
      decision_hash = [];
    }

module _ (hash : List ℕ → Text) where
  unfoldable pub decide_context_route : ContextRouteRequest → RouteResult ContextRouteDecision
  unfolding unsealed_decision
  decide_context_route r = do
    validate_request hash r
    let d = unsealed_decision r
    ok (record d { decision_hash = canonical_decision_hash hash d })

  -- `ContextRouteDecision::validate`.
  unfoldable pub validate_decision : ContextRouteDecision → RouteResult (Unit {0})
  validate_decision d = do
    validate_request hash d.request
    refuse_if
        (not (text_eq d.schema_version context_route_policy_version)
          || not (text_eq d.policy_version context_route_policy_version)
          || not
              (same (Capabilities-discrete d.requested_capabilities d.request.caller_capabilities))
          || not (
              same (
                GenerationObservation-discrete d.starting_generation d.request.starting_generation))
          || not (
              same (
                OptionText-discrete d.deep_budget_digest
                  (Option.map (λ b. b.budget_digest) d.request.deep_budget)))
          || not (text_eq d.decision_hash (canonical_decision_hash hash d)))
        ContextRouteError.invalid_identity
    rebuilt ← decide_context_route d.request
    refuse_if (not (same (ContextRouteDecision-discrete rebuilt d)))
        ContextRouteError.invalid_identity
