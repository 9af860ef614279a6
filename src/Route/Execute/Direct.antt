-- ===== src/Route/Execute/Direct.antt =====
-- The executions of `execute_context_route` (src/context_route.rs) that stay on DIRECT because the
-- caller's own context suffices.
use workspace_atlas.Common.{
  ℕ, ◌≡◌, refl, Text, codes, text_eq_refl, List, [], ◌∷◌, false, ok, arith, last?,
}
use workspace_atlas.Route.Vocabulary.{Route, CallerCapabilityState}
use workspace_atlas.Route.Request.{Capabilities}
use workspace_atlas.Route.Budget.{valid_opaque_id}
use workspace_atlas.Route.Payload.{validate_payload}
use workspace_atlas.Route.Rules.{validate_materialization}
use workspace_atlas.Route.Decided.{ContextRouteDecision}
use workspace_atlas.Route.Decision.{validate_decision}
use workspace_atlas.Route.Decision.Soundness.{validate-decide_iff}
use workspace_atlas.Route.Decision.Routes.{Routed, decide-Routed}
use workspace_atlas.Route.Attempt.{
  ExecutionAttempt, AttemptState, validate_attempt, validate_counters, checked_counter_sum,
  zero_counters, counters_eq,
}
use workspace_atlas.Route.Shared.{
  uncovered, attempts_refused, attempt_outside, validate_common, context_execution_version, ends_in,
}
use workspace_atlas.Route.Validation.{
  validate_execution, validate_completed, completed_mismatch, checked,
}
use workspace_atlas.Route.Dispatch.{ContextRouteDispatcher, deficits_of_caller, route_attempt}
use workspace_atlas.Route.Execute.{
  Ending, return_checked, direct_attempt, direct_completed, start_direct, start, execute_with,
  execute_context_route,
}

uncovered-satisfied :
    (route : Route) (m : Capabilities) → deficits_of_caller m ≡ [] → uncovered route m ≡ false
unfolding uncovered deficits_of_caller
uncovered-satisfied route [] h = refl
uncovered-satisfied route ((c, CallerCapabilityState.satisfied) ∷ m) h =
    ground (arith, uncovered-satisfied route m h)
uncovered-satisfied route ((c, CallerCapabilityState.unsatisfied) ∷ m) h = cc
uncovered-satisfied route ((c, CallerCapabilityState.unknown) ∷ m) h = cc

module _ (hash : List ℕ → Text) where
  floor_is_initial :
      (d : ContextRouteDecision) → validate_decision hash d ≡ ok tt → Routed d.request d
  floor_is_initial d h = decide-Routed hash d.request ((validate-decide_iff hash d).0 h)

  module _ (clock : ℕ → ℕ) {S E : Type 0} (dispatcher : ContextRouteDispatcher S E)
      (d : ContextRouteDecision) where
    abbrev attempt : ExecutionAttempt
    attempt = direct_attempt hash clock dispatcher d AttemptState.completed []

    attempt_valid : validate_attempt attempt ≡ ok tt
    unfolding validate_attempt route_attempt valid_opaque_id codes validate_counters
    attempt_valid = refl

    attempts_accepted :
        d.initial_route ≡ Route.direct
        → Routed d.request d
        → attempts_refused d (attempt ∷ []) zero_counters [] ≡ false
    unfolding attempts_refused attempt_outside route_attempt validate_counters counters_eq
    attempts_accepted e routed = ground (arith, attempt_valid)

    summed : checked_counter_sum (attempt ∷ []) ≡ ok zero_counters
    unfolding checked_counter_sum route_attempt
    summed = refl

    common_ok :
        validate_decision hash d ≡ ok tt
        → d.initial_route ≡ Route.direct
        → validate_common hash context_execution_version d (attempt ∷ []) zero_counters []
          ≡ ok zero_counters
    unfolding validate_common route_attempt
    common_ok h e = ground (
      arith,
      h,
      attempts_accepted e (floor_is_initial d h),
      summed,
      text_eq_refl context_execution_version,
    )

    pub completed_ok :
        validate_decision hash d ≡ ok tt
        → d.initial_route ≡ Route.direct
        → deficits_of_caller d.requested_capabilities ≡ []
        → validate_execution hash (direct_completed hash clock dispatcher d) ≡ ok tt
    unfolding validate_execution validate_completed completed_mismatch route_attempt counters_eq
        ends_in last? validate_payload validate_materialization
    completed_ok h e none_left =
        ground (arith, common_ok h e, uncovered-satisfied Route.direct d.requested_capabilities)

    start_direct_sufficient :
        (s : S)
        → validate_decision hash d ≡ ok tt
        → d.initial_route ≡ Route.direct
        → deficits_of_caller d.requested_capabilities ≡ []
        → start hash clock dispatcher d 2 s
          ≡ (Ending.returned (ok (direct_completed hash clock dispatcher d)), s)
    unfolding start start_direct return_checked checked
    start_direct_sufficient s h e none_left =
        ground (arith, h, e, none_left, completed_ok h e none_left)

    -- For a valid decision that starts at DIRECT, with every requested capability satisfied by the
    -- caller, the execution completes at no cost: one completed DIRECT attempt, zero counters, and
    -- no call of the dispatcher, whose state is left as it was. This holds with or without an active
    -- generation.
    pub execute-direct :
        (s : S)
        → validate_decision hash d ≡ ok tt
        → d.initial_route ≡ Route.direct
        → deficits_of_caller d.requested_capabilities ≡ []
        → execute_context_route hash clock dispatcher d s
          ≡ (Ending.returned (ok (direct_completed hash clock dispatcher d)), s)
    unfolding execute_context_route execute_with
    execute-direct s h e none_left =
        rw (h, execute_context_route, execute_with) (start_direct_sufficient s h e none_left)
