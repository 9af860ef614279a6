-- ===== src/Route/Decided.antt =====
-- `ContextRouteDecision` of src/context_route.rs, with the equality that `PartialEq` derives.
use workspace_atlas.Common.{Text, List, Option, ℕ_discrete}
use workspace_atlas.Route.Vocabulary.{Route}
use workspace_atlas.Route.Explanation.{RouteSignal, RouteReason}
use workspace_atlas.Route.Request.{Capabilities, ContextRouteRequest, GenerationObservation}

pub record ContextRouteDecision : Type 0 where
  pub schema_version : Text
  pub request : ContextRouteRequest
  pub effective_floor : Route
  pub effective_ceiling : Route
  pub requested_capabilities : Capabilities
  pub deep_budget_digest : Option Text
  pub initial_route : Route
  pub signals : List RouteSignal
  pub reasons : List RouteReason
  pub starting_generation : GenerationObservation
  pub policy_version : Text
  pub decision_hash : Text

-- The derived `PartialEq`.
unfoldable pub ContextRouteDecision-discrete : Discrete ContextRouteDecision
ContextRouteDecision-discrete = hlevel ℕ_discrete

unfoldable pub Capabilities-discrete : Discrete Capabilities
Capabilities-discrete = hlevel

unfoldable pub GenerationObservation-discrete : Discrete GenerationObservation
GenerationObservation-discrete = hlevel ℕ_discrete

unfoldable pub OptionText-discrete : Discrete (Option Text)
OptionText-discrete = hlevel ℕ_discrete
