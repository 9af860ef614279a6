-- ===== src/Route/Validation/Variants.antt =====
-- What `ContextExecution::validate` (src/context_route.rs) establishes of each variant.
use workspace_atlas.Common.{
  ℕ, ◌≤◌, ◌≡◌, refl, true, false, Text, List, [], ◌∷◌, Option, none, some, ok, arith, last?, All,
}
use workspace_atlas.Route.Vocabulary.{
  Route, RequiredCapability, CallerCapabilityState, route_rank, minimum_route,
}
use workspace_atlas.Route.Request.{Capabilities}
use workspace_atlas.Route.Signals.{is_satisfied}
use workspace_atlas.Route.Decided.{ContextRouteDecision}
use workspace_atlas.Route.Attempt.{
  ExecutionAttempt, AttemptState, ContextExecutionCounters, counters_eq,
}
use workspace_atlas.Route.Payload.{payload_route}
use workspace_atlas.Route.Execution.{
  ContextDiagnosticCode, ContextExecution, CompletedExecution, PartialExecution, BlockedExecution,
  InterruptedExecution,
}
use workspace_atlas.Route.Shared.{ends_in, uncovered}
use workspace_atlas.Route.Validation.{
  validate_completed, validate_execution, completed_mismatch, partial_mismatch, blocked_mismatch,
  interrupted_mismatch,
}
use workspace_atlas.Route.Validation.Steps.{
  validate_completed-eq-ok, validate_partial-eq-ok, validate_blocked-eq-ok,
  validate_interrupted-eq-ok,
}
use workspace_atlas.Route.Validation.Fields.{Common, validate_common-Common}

-- The fields that all variants have.
abbrev pub decision_of : ContextExecution → ContextRouteDecision
decision_of (ContextExecution.completed e) = e.decision
decision_of (ContextExecution.partial e) = e.decision
decision_of (ContextExecution.blocked e) = e.decision
decision_of (ContextExecution.interrupted e) = e.decision

abbrev pub attempts_of : ContextExecution → List ExecutionAttempt
attempts_of (ContextExecution.completed e) = e.attempts
attempts_of (ContextExecution.partial e) = e.attempts
attempts_of (ContextExecution.blocked e) = e.attempts
attempts_of (ContextExecution.interrupted e) = e.completed_attempts

abbrev pub counters_of : ContextExecution → ContextExecutionCounters
counters_of (ContextExecution.completed e) = e.counters
counters_of (ContextExecution.partial e) = e.counters
counters_of (ContextExecution.blocked e) = e.counters
counters_of (ContextExecution.interrupted e) = e.counters

abbrev pub diagnostics_of : ContextExecution → List ContextDiagnosticCode
diagnostics_of (ContextExecution.completed e) = e.diagnostics
diagnostics_of (ContextExecution.partial e) = e.diagnostics
diagnostics_of (ContextExecution.blocked e) = e.diagnostics
diagnostics_of (ContextExecution.interrupted e) = e.diagnostics

-- The execution ends with an attempt on this route, in this state.
abbrev pub EndsIn : List ExecutionAttempt → Route → AttemptState → Type 0
EndsIn l route state =
    (a : ExecutionAttempt) × (last? l ≡ some a) × (a.route ≡ route) × (a.state ≡ state)

-- The caller or the route serves the capability.
abbrev pub Covered : Route → RequiredCapability × CallerCapabilityState → Type 0
Covered route (c, state) =
    is_satisfied state ≡ false → route_rank (minimum_route c) ≤ route_rank route

pub ends_in-EndsIn :
    (route : Route) (state : AttemptState) (l : List ExecutionAttempt)
    → ends_in route state (last? l) ≡ true
    → EndsIn l route state
unfolding ends_in
ends_in-EndsIn route state l h = go (last? l) refl h
  where
    go :
        (o : Option ExecutionAttempt)
        → last? l ≡ o
        → ends_in route state o ≡ true
        → EndsIn l route state
    go none e q = cc
    go (some a) e q = (a, e, ground arith, ground arith)

uncovered-All :
    (route : Route) (m : Capabilities) → uncovered route m ≡ false → All (Covered route) m
unfolding uncovered
uncovered-All route [] h = tt
uncovered-All route ((c, state) ∷ m) h = (λ s. ground arith, uncovered-All route m (ground arith))

pub record Completed (e : CompletedExecution) : Type 0 where
  pub ends : EndsIn e.attempts e.final_route AttemptState.completed
  pub payload : payload_route e.payload ≡ e.final_route
  pub covers : All (Covered e.final_route) e.decision.requested_capabilities

mismatch-Completed :
    (e : CompletedExecution) (n : ContextExecutionCounters)
    → completed_mismatch e n ≡ false
    → Completed e × (counters_eq e.counters n ≡ true)
unfolding completed_mismatch
mismatch-Completed e n h = (
  record {
    ends = ends_in-EndsIn e.final_route AttemptState.completed e.attempts (ground arith);
    payload = ground arith;
    covers = uncovered-All e.final_route e.decision.requested_capabilities (ground arith);
  },
  ground arith,
)

partial-summed :
    (e : PartialExecution) (n : ContextExecutionCounters)
    → partial_mismatch e n ≡ false
    → counters_eq e.counters n ≡ true
unfolding partial_mismatch
partial-summed e n h = ground arith

blocked-summed :
    (e : BlockedExecution) (n : ContextExecutionCounters)
    → blocked_mismatch e n ≡ false
    → counters_eq e.counters n ≡ true
unfolding blocked_mismatch
blocked-summed e n h = ground arith

interrupted-summed :
    (e : InterruptedExecution) (n : ContextExecutionCounters)
    → interrupted_mismatch e n ≡ false
    → counters_eq e.counters n ≡ true
unfolding interrupted_mismatch
interrupted-summed e n h = ground arith

module _ (hash : List ℕ → Text) where
  -- An execution that passes `validate` is about a valid decision and has at most eight attempts
  -- and thirty-two diagnostics. Its attempts start at the decision's initial route and stay between
  -- its floor and ceiling; each but the last is partial and followed by one on the same route or the
  -- next; DIRECT ones cost nothing. All are DIRECT when no generation was observed at the start, or
  -- when the caller satisfies everything and the decision starts DIRECT. The counters are the sums
  -- of the attempts' and within their bounds.
  pub validate-Common :
      (e : ContextExecution)
      → validate_execution hash e ≡ ok tt
      → Common hash (decision_of e) (attempts_of e) (counters_of e) (diagnostics_of e)
  unfolding validate_execution
  validate-Common (ContextExecution.completed e) h =
      let (n, common, matches, rest) = validate_completed-eq-ok hash e h in
      validate_common-Common hash e.schema_version e.decision e.attempts e.counters e.diagnostics
        common (mismatch-Completed e n matches).1
  validate-Common (ContextExecution.partial e) h =
      let (n, common, matches, accounted, reason, rest) = validate_partial-eq-ok hash e h in
      validate_common-Common hash e.schema_version e.decision e.attempts e.counters e.diagnostics
        common (partial-summed e n matches)
  validate-Common (ContextExecution.blocked e) h =
      let (n, common, matches, accounted, reason, rest) = validate_blocked-eq-ok hash e h in
      validate_common-Common hash e.schema_version e.decision e.attempts e.counters e.diagnostics
        common (blocked-summed e n matches)
  validate-Common (ContextExecution.interrupted e) h =
      let (n, common, matches, accounted, reason, rest) = validate_interrupted-eq-ok hash e h in
      validate_common-Common hash e.schema_version e.decision e.completed_attempts e.counters
        e.diagnostics common (interrupted-summed e n matches)

  -- A completed execution that passes `validate` ends in a completed attempt on its final route,
  -- which produced the payload, and every requested capability that the caller does not satisfy is
  -- one that this route serves.
  pub validate_completed-Completed :
      (e : CompletedExecution) → validate_completed hash e ≡ ok tt → Completed e
  validate_completed-Completed e h =
      let (n, common, matches, rest) = validate_completed-eq-ok hash e h in
      (mismatch-Completed e n matches).0
