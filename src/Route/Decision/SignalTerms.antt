-- ===== src/Route/Decision/SignalTerms.antt =====
-- The list of signals that `decide_context_route` (src/context_route.rs) builds: its order, and
-- membership in it by one term for each entry.
use workspace_atlas.Common.{
  ◌≡◌, Bool, false, not, ◌&&◌, ◌||◌, List, [], ◌∷◌, map, ◌∙◌, arith, ltb, ◌==◌, any, contains,
  contains-insert_each, insert_each-Ascending, set_of, Ascending, set_of-Ascending, contains-set_of,
}
use workspace_atlas.Route.Vocabulary.{
  Route, RequiredCapability, CallerCapabilityState, AtlasIntent, route_rank, intent_rank,
  capability_rank, caller_state_rank,
}
use workspace_atlas.Route.Explanation.{RouteSignal, signal_rank}
use workspace_atlas.Route.Request.{ContextRouteRequest, GenerationObservation}
use workspace_atlas.Route.Signals.{
  keys, values, intent_signal, floor_signal, ceiling_signal, generation_signal, is_unavailable,
  needs, route_signals, state_signals, signal_entries, state_signal,
}

-- A signal for a caller state is there exactly if the state is.
abbrev pub state_listed : RouteSignal → List CallerCapabilityState → Bool
state_listed RouteSignal.caller_capabilities_satisfied l =
    contains caller_state_rank CallerCapabilityState.satisfied l
state_listed RouteSignal.caller_capabilities_unsatisfied l =
    contains caller_state_rank CallerCapabilityState.unsatisfied l
state_listed RouteSignal.caller_capabilities_unknown l =
    contains caller_state_rank CallerCapabilityState.unknown l
state_listed _ l = false

contains-state_signal :
    (x : RouteSignal) (l : List CallerCapabilityState)
    → contains signal_rank x (map state_signal l) ≡ state_listed x l
contains-state_signal x [] = ground arith
contains-state_signal x (s ∷ l) = ground (arith, contains-state_signal x l)

contains-state_signals :
    (x : RouteSignal) (r : ContextRouteRequest)
    → contains signal_rank x (state_signals r)
      ≡ state_listed x (set_of caller_state_rank (values r.caller_capabilities))
contains-state_signals x r = contains-set_of signal_rank x _ ∙ contains-state_signal x _

pub route_signals-Ascending :
    (r : ContextRouteRequest) (floor ceiling : Route)
    → Ascending signal_rank (route_signals r floor ceiling)
unfolding route_signals
route_signals-Ascending r floor ceiling =
    insert_each-Ascending signal_rank (state_signals r) (signal_entries r floor ceiling)
      (set_of-Ascending signal_rank _)

-- Whether a signal is the one for an intent, a floor, a ceiling or a generation.
abbrev pub for_intent : RouteSignal → AtlasIntent → Bool
for_intent RouteSignal.atlas_intent_none i = intent_rank i == 0
for_intent RouteSignal.atlas_intent_allow i = intent_rank i == 1
for_intent RouteSignal.atlas_intent_require i = intent_rank i == 2
for_intent _ i = false

abbrev pub for_floor : RouteSignal → Route → Bool
for_floor RouteSignal.route_floor_direct f = route_rank f == 0
for_floor RouteSignal.route_floor_light f = route_rank f == 1
for_floor RouteSignal.route_floor_deep f = route_rank f == 2
for_floor _ f = false

abbrev pub for_ceiling : RouteSignal → Route → Bool
for_ceiling RouteSignal.route_ceiling_direct c = route_rank c == 0
for_ceiling RouteSignal.route_ceiling_light c = route_rank c == 1
for_ceiling RouteSignal.route_ceiling_deep c = route_rank c == 2
for_ceiling _ c = false

abbrev pub for_generation : RouteSignal → GenerationObservation → Bool
for_generation RouteSignal.starting_generation_observed g = not (is_unavailable g)
for_generation RouteSignal.starting_generation_unavailable g = is_unavailable g
for_generation _ g = false

eq_intent :
    (x : RouteSignal) (i : AtlasIntent)
    → (signal_rank x == signal_rank (intent_signal i)) ≡ for_intent x i
eq_intent x i = ground arith

eq_floor :
    (x : RouteSignal) (f : Route) → (signal_rank x == signal_rank (floor_signal f)) ≡ for_floor x f
eq_floor x f = ground arith

eq_ceiling :
    (x : RouteSignal) (c : Route)
    → (signal_rank x == signal_rank (ceiling_signal c)) ≡ for_ceiling x c
eq_ceiling x c = ground arith

eq_generation :
    (x : RouteSignal) (g : GenerationObservation)
    → (signal_rank x == signal_rank (generation_signal g)) ≡ for_generation x g
eq_generation x g = ground arith

-- Membership, with one term for each entry.
pub contains-listed :
    (r : ContextRouteRequest) (floor ceiling : Route) (x : RouteSignal)
    → contains signal_rank x (route_signals r floor ceiling) ≡ (
        state_listed x (set_of caller_state_rank (values r.caller_capabilities))
        || (for_intent x r.atlas_intent
            || (for_floor x floor
                || (for_ceiling x ceiling
                    || (((ltb 0 r.explicit_seeds.path_count || ltb 0 r.explicit_seeds.symbol_count)
                          && signal_rank x == 12)
                        || (((contains capability_rank RequiredCapability.identity_lookup
                                  (keys r.caller_capabilities)
                                || contains capability_rank RequiredCapability.exact_source
                                    (keys r.caller_capabilities))
                              && signal_rank x == 13)
                            || (((contains capability_rank RequiredCapability.bounded_relationships
                                      (keys r.caller_capabilities)
                                    || contains capability_rank RequiredCapability.impact_frontier
                                        (keys r.caller_capabilities))
                                  && signal_rank x == 14)
                                || ((contains capability_rank
                                        RequiredCapability.basic_coverage_conflicts
                                        (keys r.caller_capabilities)
                                      && signal_rank x == 15)
                                    || ((any (needs Route.atlas_deep) (keys r.caller_capabilities)
                                          && signal_rank x == 16)
                                        || (for_generation x r.starting_generation
                                            || false))))))))))
unfolding route_signals
contains-listed r floor ceiling x = rw (
  contains-insert_each,
  contains-state_signals,
  ← eq_intent x r.atlas_intent,
  ← eq_floor x floor,
  ← eq_ceiling x ceiling,
  ← eq_generation x r.starting_generation,
)
