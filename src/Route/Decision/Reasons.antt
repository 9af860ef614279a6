-- ===== src/Route/Decision/Reasons.antt =====
-- Which reasons `decide_context_route` (src/context_route.rs) gives, each described by itself and
-- not by the order in which the code inserts them.
use mathlib.Core.Path.{subst}
use workspace_atlas.Route.Decided.{ContextRouteDecision}
use workspace_atlas.Route.Decision.{unsealed_decision, decide_context_route}
use workspace_atlas.Route.Decision.Soundness.{decide-eq-ok}
use workspace_atlas.Common.{
  sym, ℕ, ◌≡◌, refl, Bool, false, not, ◌&&◌, ◌||◌, Text, List, [], ◌∷◌, ok, arith, ◌==◌, any, all,
  contains, Ascending, contains-insert_each, insert_each-Ascending,
}
use workspace_atlas.Route.Vocabulary.{Route, AtlasIntent, route_rank, intent_rank}
use workspace_atlas.Route.Explanation.{RouteReason, reason_rank}
use workspace_atlas.Route.Request.{Capabilities, ContextRouteRequest}
use workspace_atlas.Route.Signals.{
  values, is_satisfied, is_unavailable, needs, incomplete, route_reasons, reason_entries,
}

-- Some capability that the caller does not satisfy has `route` for its cheapest route.
abbrev pub lacks : Route → Capabilities → Bool
lacks route [] = false
lacks route ((capability, state) ∷ m) =
    (not (is_satisfied state) && needs route capability) || lacks route m

any-incomplete :
    (route : Route) (m : Capabilities) → any (needs route) (incomplete m) ≡ lacks route m
unfolding incomplete
any-incomplete route [] = refl
any-incomplete route ((capability, state) ∷ m) = ground (arith, any-incomplete route m)

-- When each reason applies.
abbrev pub reason_holds : ContextRouteRequest → Route → RouteReason → Bool
reason_holds r floor RouteReason.caller_context_sufficient =
    all is_satisfied (values r.caller_capabilities)
reason_holds r floor RouteReason.caller_context_incomplete =
    not (all is_satisfied (values r.caller_capabilities))
reason_holds r floor RouteReason.atlas_not_requested =
    intent_rank r.atlas_intent == intent_rank AtlasIntent.none
reason_holds r floor RouteReason.explicit_atlas_request =
    intent_rank r.atlas_intent == intent_rank AtlasIntent.require
reason_holds r floor RouteReason.light_capability_required =
    lacks Route.atlas_light r.caller_capabilities
reason_holds r floor RouteReason.deep_capability_required =
    lacks Route.atlas_deep r.caller_capabilities
reason_holds r floor RouteReason.route_floor_applied =
    not (route_rank floor == route_rank Route.direct)
reason_holds r floor RouteReason.starting_generation_unavailable =
    is_unavailable r.starting_generation

pub route_reasons-Ascending :
    (r : ContextRouteRequest) (floor : Route) → Ascending reason_rank (route_reasons r floor)
unfolding route_reasons
route_reasons-Ascending r floor = insert_each-Ascending reason_rank [] (reason_entries r floor) tt

contains-route_reasons :
    (r : ContextRouteRequest) (floor : Route) (x : RouteReason)
    → contains reason_rank x (route_reasons r floor) ≡ reason_holds r floor x
unfolding route_reasons
contains-route_reasons r floor RouteReason.caller_context_sufficient =
    rw contains-insert_each (ground arith)
contains-route_reasons r floor x = rw contains-insert_each (
    ground (
      arith,
      any-incomplete Route.atlas_light r.caller_capabilities,
      any-incomplete Route.atlas_deep r.caller_capabilities,
    ))

module _ (hash : List ℕ → Text) where
  -- The reasons of a decision stand in the declared order without repetition, and each of the eight
  -- is among them exactly if its own condition on the request and the effective floor holds.
  pub decide-reasons :
      (r : ContextRouteRequest) {d : ContextRouteDecision}
      → decide_context_route hash r ≡ ok d
      → Ascending reason_rank d.reasons
        × ((x : RouteReason)
            → contains reason_rank x d.reasons ≡ reason_holds r d.effective_floor x)
  unfolding unsealed_decision
  decide-reasons r h =
      subst
        (λ d.
          Ascending reason_rank d.reasons
          × ((x : RouteReason)
              → contains reason_rank x d.reasons ≡ reason_holds r d.effective_floor x))
        (sym (decide-eq-ok hash r _ h).1) (route_reasons-Ascending r _, contains-route_reasons r _)
