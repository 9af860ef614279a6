-- ===== src/Route/Validation/Ends.antt =====
-- How executions that pass `ContextExecution::validate` (src/context_route.rs) end: the payload, the
-- accounting of the requested capabilities and the reason.
use mathlib.Core.Path.{subst}
use workspace_atlas.Common.{
  ap, ℕ, ◌≡◌, refl, ◌≢◌, ◌↔◌, Bool, true, false, not, Text, List, [], ◌∷◌, Option, none, some, ok,
  arith, any, Ascending, ◌==◌, is_empty,
}
use workspace_atlas.Route.Vocabulary.{Route, RequiredCapability, route_rank, capability_rank}
use workspace_atlas.Route.Signals.{keys}
use workspace_atlas.Route.Checks.{is_some}
use workspace_atlas.Route.Decided.{ContextRouteDecision}
use workspace_atlas.Route.Attempt.{
  ExecutionAttempt, AttemptState, RouteDeficit, ContextExecutionCounters, is_route_deficit,
}
use workspace_atlas.Route.Payload.{ContextPayload, payload_route, useful}
use workspace_atlas.Route.Execution.{TerminalReason, PartialExecution, BlockedExecution}
use workspace_atlas.Route.Rules.{
  terminal_reason_matches, validate_terminal_reason, validate_satisfied_capabilities,
}
use workspace_atlas.Route.Rules.Accounting.{Accounted, validate_satisfied-Accounted}
use workspace_atlas.Route.Shared.{same_bool}
use workspace_atlas.Route.Validation.{
  validate_partial, validate_blocked, partial_mismatch, blocked_mismatch,
}
use workspace_atlas.Route.Validation.Steps.{validate_partial-eq-ok, validate_blocked-eq-ok}
use workspace_atlas.Route.Validation.Variants.{EndsIn, ends_in-EndsIn}

pub record Partial (e : PartialExecution) : Type 0 where
  pub ends : EndsIn e.attempts e.final_route AttemptState.partial
  pub payload : (payload_route e.payload ≡ e.final_route) × (e.final_route ≢ Route.direct)
  pub no_failure : any is_route_deficit e.deficits ≡ false
  pub some_satisfied : e.satisfied_capabilities ≢ []
  pub accounted :
      Ascending capability_rank (keys e.decision.requested_capabilities)
      → Accounted e.decision.requested_capabilities e.satisfied_capabilities e.deficits
          (some e.final_route)
  pub reason :
      terminal_reason_matches e.terminal_reason
        (some e.final_route)
        e.decision.effective_ceiling
        e.deficits
      ≡ true

pub record Blocked (e : BlockedExecution) : Type 0 where
  pub attempted : (e.attempts ≡ []) ↔ (e.final_route ≡ none)
  pub ends :
      (route : Route) → e.final_route ≡ some route → EndsIn e.attempts route AttemptState.blocked
  pub lacking : e.deficits ≢ []
  pub accounted :
      any is_route_deficit e.deficits ≡ false
      → Ascending capability_rank (keys e.decision.requested_capabilities)
      → Accounted e.decision.requested_capabilities e.satisfied_capabilities e.deficits
          e.final_route
  pub reason :
      terminal_reason_matches e.terminal_reason e.final_route e.decision.effective_ceiling
        e.deficits
      ≡ true

useful-payload :
    (p : ContextPayload) (route : Route)
    → useful p ≡ true
    → payload_route p ≡ route
    → route ≢ Route.direct
useful-payload p route u e q = ground arith

satisfied_some :
    (d : ContextRouteDecision) (satisfied : List RequiredCapability) (l : List RouteDeficit)
    (route : Option Route)
    → validate_satisfied_capabilities d satisfied l route true true ≡ ok tt
    → satisfied ≢ []
unfolding validate_satisfied_capabilities
satisfied_some d satisfied l route h q = ground arith

terminal_reason_lem :
    (reason : TerminalReason) (route : Option Route) (ceiling : Route) (l : List RouteDeficit)
    → validate_terminal_reason reason route ceiling l ≡ ok tt
    → terminal_reason_matches reason route ceiling l ≡ true
unfolding validate_terminal_reason
terminal_reason_lem reason route ceiling l h = ground arith

route_injective : (a b : Route) → (route_rank a == route_rank b) ≡ true → a ≡ b
route_injective a b h = ground arith

attempted_iff :
    (route : Option Route) (l : List ExecutionAttempt)
    → same_bool (is_some route) (is_empty l) ≡ false
    → (l ≡ []) ↔ (route ≡ none)
attempted_iff none [] h = (λ q. refl, λ q. refl)
attempted_iff none (a ∷ l) h = cc
attempted_iff (some r) [] h = cc
attempted_iff (some r) (a ∷ l) h = (λ q. cc, λ q. cc)

partial_mismatch-eq-false :
    (e : PartialExecution) (n : ContextExecutionCounters)
    → partial_mismatch e n ≡ false
    → EndsIn e.attempts e.final_route AttemptState.partial
      × (payload_route e.payload ≡ e.final_route)
      × (useful e.payload ≡ true)
      × (any is_route_deficit e.deficits ≡ false)
unfolding partial_mismatch
partial_mismatch-eq-false e n h = (
  ends_in-EndsIn e.final_route AttemptState.partial e.attempts (ground arith),
  route_injective (payload_route e.payload) e.final_route (ground arith),
  ground arith,
  ground arith,
)

blocked_mismatch-eq-false :
    (e : BlockedExecution) (n : ContextExecutionCounters)
    → blocked_mismatch e n ≡ false
    → ((e.attempts ≡ []) ↔ (e.final_route ≡ none))
      × ((route : Route)
          → e.final_route ≡ some route
          → EndsIn e.attempts route AttemptState.blocked)
      × (e.deficits ≢ [])
unfolding blocked_mismatch
blocked_mismatch-eq-false e n h = (
  attempted_iff e.final_route e.attempts (ground arith),
  λ route q. ends_in-EndsIn route AttemptState.blocked e.attempts (ground arith),
  λ q. ground arith,
)

-- `require_accounting`, as `validate` passes it on.
accounting :
    (d : ContextRouteDecision) (satisfied : List RequiredCapability) (l : List RouteDeficit)
    (route : Option Route) (useful required : Bool)
    → validate_satisfied_capabilities d satisfied l route useful required ≡ ok tt
    → required ≡ true
    → Ascending capability_rank (keys d.requested_capabilities)
    → Accounted d.requested_capabilities satisfied l route
accounting d satisfied l route useful required h e a =
    validate_satisfied-Accounted d satisfied l route useful a
      (subst (λ b. validate_satisfied_capabilities d satisfied l route useful b ≡ ok tt) e h)

module _ (hash : List ℕ → Text) where
  -- A partial execution that passes `validate` ends in a partial attempt on its final route, which
  -- is not DIRECT and which produced the payload. No deficit is a route failure, something is
  -- satisfied, and with capabilities in ascending order each requested one is listed exactly
  -- once, as satisfied or in a deficit, and nothing else is listed. Its reason matches its route or
  -- deficits.
  pub validate_partial-Partial :
      (e : PartialExecution) → validate_partial hash e ≡ ok tt → Partial e
  validate_partial-Partial e h =
      let (n, common, matches, accounted, reason, rest) = validate_partial-eq-ok hash e h in
      let (ends, route, useful_payload, no_failure) = partial_mismatch-eq-false e n matches in
      record {
        ends = ends;
        payload = (route, useful-payload e.payload e.final_route useful_payload route);
        no_failure = no_failure;
        some_satisfied =
            satisfied_some e.decision e.satisfied_capabilities e.deficits (some e.final_route)
              accounted;
        accounted =
            accounting e.decision e.satisfied_capabilities e.deficits (some e.final_route) true true
              accounted refl;
        reason =
            terminal_reason_lem e.terminal_reason (some e.final_route) e.decision.effective_ceiling
              e.deficits reason;
      }

  -- A blocked execution that passes `validate` has deficits; it has a final route exactly if it has
  -- attempts, and then ends in a blocked attempt on it. Unless a route failure is among the
  -- deficits, each requested capability (they stand in ascending order) is listed exactly once, as
  -- satisfied or in a deficit, and nothing else is listed. Its reason matches its route or deficits.
  pub validate_blocked-Blocked :
      (e : BlockedExecution) → validate_blocked hash e ≡ ok tt → Blocked e
  validate_blocked-Blocked e h =
      let (n, common, matches, accounted, reason, rest) = validate_blocked-eq-ok hash e h in
      let (attempted, ends, lacking) = blocked_mismatch-eq-false e n matches in
      record {
        attempted = attempted;
        ends = ends;
        lacking = lacking;
        accounted = λ q.
            accounting e.decision e.satisfied_capabilities e.deficits e.final_route
              (is_some e.payload) (not (any is_route_deficit e.deficits)) accounted (ap not q);
        reason =
            terminal_reason_lem e.terminal_reason e.final_route e.decision.effective_ceiling
              e.deficits reason;
      }
