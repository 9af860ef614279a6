-- ===== src/Route/Decision/SignalSet.antt =====
-- Which signals `decide_context_route` (src/context_route.rs) gives, each described by itself and
-- not by the order in which the code inserts them.
use mathlib.Core.Path.{subst}
use workspace_atlas.Common.{
  ℕ, ◌≡◌, refl, sym, Bool, false, not, ◌||◌, Text, List, [], ◌∷◌, ◌+◌, ◌∙◌, ok, arith, ltb, ◌==◌,
  any, contains, set_of, Ascending, contains-set_of,
}
use workspace_atlas.Route.Vocabulary.{
  Route, RequiredCapability, CallerCapabilityState, route_rank, intent_rank, capability_rank,
  caller_state_rank,
}
use workspace_atlas.Route.Explanation.{RouteSignal, signal_rank}
use workspace_atlas.Route.Request.{Capabilities, ContextRouteRequest}
use workspace_atlas.Route.Signals.{keys, values, is_unavailable, needs, route_signals}
use workspace_atlas.Route.Decided.{ContextRouteDecision}
use workspace_atlas.Route.Decision.{unsealed_decision, decide_context_route}
use workspace_atlas.Route.Decision.Soundness.{decide-eq-ok}
use workspace_atlas.Route.Decision.SignalTerms.{route_signals-Ascending, contains-listed}

-- Some capability stands in the given state; some capability is one of the two.
abbrev pub in_state : CallerCapabilityState → Capabilities → Bool
in_state s [] = false
in_state s ((capability, state) ∷ m) =
    caller_state_rank s == caller_state_rank state || in_state s m

abbrev pub asks : RequiredCapability → Capabilities → Bool
asks c [] = false
asks c ((capability, state) ∷ m) = capability_rank c == capability_rank capability || asks c m

abbrev pub asks_deep : Capabilities → Bool
asks_deep [] = false
asks_deep ((capability, state) ∷ m) = needs Route.atlas_deep capability || asks_deep m

-- When each signal applies, for the effective floor and ceiling.
abbrev pub signal_holds : ContextRouteRequest → Route → Route → RouteSignal → Bool
signal_holds r floor ceiling RouteSignal.caller_capabilities_satisfied =
    in_state CallerCapabilityState.satisfied r.caller_capabilities
signal_holds r floor ceiling RouteSignal.caller_capabilities_unsatisfied =
    in_state CallerCapabilityState.unsatisfied r.caller_capabilities
signal_holds r floor ceiling RouteSignal.caller_capabilities_unknown =
    in_state CallerCapabilityState.unknown r.caller_capabilities
signal_holds r floor ceiling RouteSignal.atlas_intent_none = intent_rank r.atlas_intent == 0
signal_holds r floor ceiling RouteSignal.atlas_intent_allow = intent_rank r.atlas_intent == 1
signal_holds r floor ceiling RouteSignal.atlas_intent_require = intent_rank r.atlas_intent == 2
signal_holds r floor ceiling RouteSignal.route_floor_direct = route_rank floor == 0
signal_holds r floor ceiling RouteSignal.route_floor_light = route_rank floor == 1
signal_holds r floor ceiling RouteSignal.route_floor_deep = route_rank floor == 2
signal_holds r floor ceiling RouteSignal.route_ceiling_direct = route_rank ceiling == 0
signal_holds r floor ceiling RouteSignal.route_ceiling_light = route_rank ceiling == 1
signal_holds r floor ceiling RouteSignal.route_ceiling_deep = route_rank ceiling == 2
signal_holds r floor ceiling RouteSignal.explicit_seeds_present =
    ltb 0 (r.explicit_seeds.path_count + r.explicit_seeds.symbol_count)
signal_holds r floor ceiling RouteSignal.identity_or_source_requested =
    asks RequiredCapability.identity_lookup r.caller_capabilities
    || asks RequiredCapability.exact_source r.caller_capabilities
signal_holds r floor ceiling RouteSignal.relationships_or_impact_requested =
    asks RequiredCapability.bounded_relationships r.caller_capabilities
    || asks RequiredCapability.impact_frontier r.caller_capabilities
signal_holds r floor ceiling RouteSignal.basic_coverage_conflicts_requested =
    asks RequiredCapability.basic_coverage_conflicts r.caller_capabilities
signal_holds r floor ceiling RouteSignal.deep_synthesis_requested = asks_deep r.caller_capabilities
signal_holds r floor ceiling RouteSignal.starting_generation_observed =
    not (is_unavailable r.starting_generation)
signal_holds r floor ceiling RouteSignal.starting_generation_unavailable =
    is_unavailable r.starting_generation
signal_holds r floor ceiling RouteSignal.capability_profile_applied = false
signal_holds r floor ceiling RouteSignal.cost_profile_applied = false

contains-keys :
    (c : RequiredCapability) (m : Capabilities) → contains capability_rank c (keys m) ≡ asks c m
contains-keys c [] = refl
contains-keys c ((capability, state) ∷ m) = ground (arith, contains-keys c m)

any-keys : (m : Capabilities) → any (needs Route.atlas_deep) (keys m) ≡ asks_deep m
any-keys [] = refl
any-keys ((capability, state) ∷ m) = ground (arith, any-keys m)

contains-values :
    (s : CallerCapabilityState) (m : Capabilities)
    → contains caller_state_rank s (values m) ≡ in_state s m
contains-values s [] = refl
contains-values s ((capability, state) ∷ m) = ground (arith, contains-values s m)

contains-states :
    (s : CallerCapabilityState) (m : Capabilities)
    → contains caller_state_rank s (set_of caller_state_rank (values m)) ≡ in_state s m
contains-states s m = contains-set_of caller_state_rank s (values m) ∙ contains-values s m

contains-route_signals :
    (r : ContextRouteRequest) (floor ceiling : Route) (x : RouteSignal)
    → contains signal_rank x (route_signals r floor ceiling) ≡ signal_holds r floor ceiling x
contains-route_signals r floor ceiling RouteSignal.caller_capabilities_satisfied =
    contains-listed r floor ceiling RouteSignal.caller_capabilities_satisfied
    ∙ ground (arith, contains-states CallerCapabilityState.satisfied r.caller_capabilities)
contains-route_signals r floor ceiling RouteSignal.caller_capabilities_unsatisfied =
    contains-listed r floor ceiling RouteSignal.caller_capabilities_unsatisfied
    ∙ ground (arith, contains-states CallerCapabilityState.unsatisfied r.caller_capabilities)
contains-route_signals r floor ceiling RouteSignal.caller_capabilities_unknown =
    contains-listed r floor ceiling RouteSignal.caller_capabilities_unknown
    ∙ ground (arith, contains-states CallerCapabilityState.unknown r.caller_capabilities)
contains-route_signals r floor ceiling RouteSignal.identity_or_source_requested =
    contains-listed r floor ceiling RouteSignal.identity_or_source_requested
    ∙ ground (
      arith,
      contains-keys RequiredCapability.identity_lookup r.caller_capabilities,
      contains-keys RequiredCapability.exact_source r.caller_capabilities,
    )
contains-route_signals r floor ceiling RouteSignal.relationships_or_impact_requested =
    contains-listed r floor ceiling RouteSignal.relationships_or_impact_requested
    ∙ ground (
      arith,
      contains-keys RequiredCapability.bounded_relationships r.caller_capabilities,
      contains-keys RequiredCapability.impact_frontier r.caller_capabilities,
    )
contains-route_signals r floor ceiling RouteSignal.basic_coverage_conflicts_requested =
    contains-listed r floor ceiling RouteSignal.basic_coverage_conflicts_requested
    ∙ ground
        (arith, contains-keys RequiredCapability.basic_coverage_conflicts r.caller_capabilities)
contains-route_signals r floor ceiling RouteSignal.deep_synthesis_requested =
    contains-listed r floor ceiling RouteSignal.deep_synthesis_requested
    ∙ ground (arith, any-keys r.caller_capabilities)
contains-route_signals r floor ceiling x = contains-listed r floor ceiling x ∙ ground (arith)

module _ (hash : List ℕ → Text) where
  -- The signals of a decision stand in the declared order without repetition, and each of the
  -- twenty-one is among them exactly if its own condition on the request and the effective routes
  -- holds; the two profile signals never are.
  pub decide-signals :
      (r : ContextRouteRequest) {d : ContextRouteDecision}
      → decide_context_route hash r ≡ ok d
      → Ascending signal_rank d.signals
        × ((x : RouteSignal)
            → contains signal_rank x d.signals
              ≡ signal_holds r d.effective_floor d.effective_ceiling x)
  unfolding unsealed_decision
  decide-signals r h =
      subst
        (λ d.
          Ascending signal_rank d.signals
          × ((x : RouteSignal)
              → contains signal_rank x d.signals
                ≡ signal_holds r d.effective_floor d.effective_ceiling x))
        (sym (decide-eq-ok hash r _ h).1)
        (route_signals-Ascending r _ _, contains-route_signals r _ _)
