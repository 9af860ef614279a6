-- ===== src/Route/Examples/Decisions.antt =====
-- Tests and examples for the decisions of src/context_route.rs.
use workspace_atlas.Common.{
  ◌≡◌, ◌↔◌, ◌⊎◌, refl, ok, err, some, [], ◌∷◌, Ascending, contains, insert_each, text_eq, codes,
}
use workspace_atlas.Route.Vocabulary.{Route}
use workspace_atlas.Route.Explanation.{RouteReason, RouteSignal, reason_rank, signal_rank}
use workspace_atlas.Route.Request.{DeepSemanticBudget, ContextRouteError}
use workspace_atlas.Route.Encoder.{finish}
use workspace_atlas.Route.Budget.{
  valid_digest, valid_opaque_id, validate_contracts, validate_budget, validate_values,
  expected_digest,
}
use workspace_atlas.Route.Budget.Seal.{Collision, digest-seals}
use workspace_atlas.Route.Checks.{
  validate_request, validate_generation_id, validate_optional_budget, validate_light_operations,
}
use workspace_atlas.Route.Checks.Accepted.{Accepted, InBounds, validate_request_iff}
use workspace_atlas.Route.Signals.{route_reasons, incomplete}
use workspace_atlas.Route.Decided.{ContextRouteDecision}
use workspace_atlas.Route.Decision.{unsealed_decision, decide_context_route, validate_decision}
use workspace_atlas.Route.Decision.Soundness.{
  decision_of, decide-decision_of, validate-decision_of, validate-decide_iff,
}
use workspace_atlas.Route.Decision.Routes.{Routed, decide-Routed, decide-deep-InBounds}
use workspace_atlas.Route.Decision.Reasons.{reason_holds, decide-reasons}
use workspace_atlas.Route.Decision.SignalSet.{signal_holds, decide-signals}
use workspace_atlas.Route.Examples.{
  constant_hash, budget, direct_request, deep_request, offline_request,
}

abbrev pub direct_decision : ContextRouteDecision
direct_decision = decision_of constant_hash direct_request

abbrev pub deep_decision : ContextRouteDecision
deep_decision = decision_of constant_hash deep_request

abbrev pub offline_decision : ContextRouteDecision
offline_decision = decision_of constant_hash offline_request

pub direct_request_ok : validate_request constant_hash direct_request ≡ ok tt
unfolding validate_request text_eq codes valid_digest validate_generation_id valid_opaque_id
    validate_optional_budget validate_contracts validate_light_operations
direct_request_ok = refl

pub deep_request_ok : validate_request constant_hash deep_request ≡ ok tt
unfolding validate_request text_eq codes valid_digest validate_generation_id valid_opaque_id
    validate_optional_budget validate_contracts validate_light_operations validate_budget
    validate_values expected_digest finish
deep_request_ok = refl

pub offline_request_ok : validate_request constant_hash offline_request ≡ ok tt
unfolding validate_request text_eq codes valid_digest validate_generation_id valid_opaque_id
    validate_optional_budget validate_contracts validate_light_operations validate_budget
    validate_values expected_digest finish
offline_request_ok = refl

direct_decided : decide_context_route constant_hash direct_request ≡ ok direct_decision
direct_decided = decide-decision_of constant_hash direct_request direct_request_ok

deep_decided : decide_context_route constant_hash deep_request ≡ ok deep_decision
deep_decided = decide-decision_of constant_hash deep_request deep_request_ok

pub direct_valid : validate_decision constant_hash direct_decision ≡ ok tt
direct_valid = validate-decision_of constant_hash direct_request direct_request_ok

pub deep_valid : validate_decision constant_hash deep_decision ≡ ok tt
deep_valid = validate-decision_of constant_hash deep_request deep_request_ok

pub offline_valid : validate_decision constant_hash offline_decision ≡ ok tt
offline_valid = validate-decision_of constant_hash offline_request offline_request_ok

-- Required Atlas context starts at LIGHT, even where DIRECT is the requested floor.
deep_routes :
    (deep_decision.effective_floor ≡ Route.atlas_light)
    × (deep_decision.effective_ceiling ≡ Route.atlas_deep)
    × (deep_decision.initial_route ≡ Route.atlas_light)
unfolding unsealed_decision
deep_routes = (refl, refl, refl)

deep_reasons :
    deep_decision.reasons
    ≡ RouteReason.caller_context_incomplete ∷ RouteReason.explicit_atlas_request
      ∷ RouteReason.light_capability_required ∷ RouteReason.deep_capability_required
      ∷ RouteReason.route_floor_applied ∷ []
unfolding unsealed_decision route_reasons insert_each incomplete
deep_reasons = refl

-- A request whose floor is above its ceiling.
refused :
    validate_request constant_hash
      (record direct_request { route_floor = Route.atlas_deep; route_ceiling = Route.direct })
    ≡ err ContextRouteError.floor_above_ceiling
unfolding validate_request text_eq codes valid_digest validate_generation_id valid_opaque_id
    validate_optional_budget validate_contracts validate_light_operations
refused = refl

validate-decide_iff_example :
    (validate_decision constant_hash deep_decision ≡ ok tt)
    ↔ (decide_context_route constant_hash deep_request ≡ ok deep_decision)
unfolding unsealed_decision
validate-decide_iff_example = validate-decide_iff constant_hash deep_decision

validate_request_iff_example :
    (validate_request constant_hash deep_request ≡ ok tt) ↔ Accepted constant_hash deep_request
validate_request_iff_example = validate_request_iff constant_hash deep_request

decide-Routed_example : Routed deep_request deep_decision
decide-Routed_example = decide-Routed constant_hash deep_request deep_decided

decide-deep-InBounds_example :
    (b : DeepSemanticBudget) × (deep_request.deep_budget ≡ some b)
    × InBounds b
    × (b.budget_digest ≡ expected_digest constant_hash b)
    × (deep_decision.deep_budget_digest ≡ some b.budget_digest)
unfolding unsealed_decision
decide-deep-InBounds_example = decide-deep-InBounds constant_hash deep_request deep_decided refl

decide-reasons_example :
    Ascending reason_rank deep_decision.reasons
    × ((x : RouteReason)
        → contains reason_rank x deep_decision.reasons
          ≡ reason_holds deep_request deep_decision.effective_floor x)
decide-reasons_example = decide-reasons constant_hash deep_request deep_decided

decide-signals_example :
    Ascending signal_rank deep_decision.signals
    × ((x : RouteSignal)
        → contains signal_rank x deep_decision.signals
          ≡ signal_holds deep_request deep_decision.effective_floor deep_decision.effective_ceiling
              x)
decide-signals_example = decide-signals constant_hash deep_request deep_decided

budget_ok : validate_budget constant_hash budget ≡ ok tt
unfolding validate_budget validate_values expected_digest finish text_eq
budget_ok = refl

digest-seals_example : (budget ≡ budget) ⊎ Collision constant_hash
digest-seals_example = digest-seals constant_hash budget budget budget_ok budget_ok refl
