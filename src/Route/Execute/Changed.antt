-- ===== src/Route/Execute/Changed.antt =====
-- The executions of `execute_context_route` (src/context_route.rs) that find another generation than
-- the decision's, or none, when they are about to dispatch for the first time.
use workspace_atlas.Common.{
  ℕ, ◌≡◌, ◌∙◌, refl, ◌≢◌, Text, codes, text_eq, text_eq_refl, text_eq_sound, Bool-cases, inl, inr,
  sym, ap, List, [], ◌∷◌, false, ok, some, Option, arith, Ascending, last?,
}
use workspace_atlas.Route.Vocabulary.{Route, GenerationUnavailableReason, capability_rank}
use workspace_atlas.Route.Request.{GenerationObservation, observed, unavailable}
use workspace_atlas.Route.Signals.{is_unavailable, keys}
use workspace_atlas.Route.Budget.{valid_opaque_id}
use workspace_atlas.Route.Decided.{ContextRouteDecision}
use workspace_atlas.Route.Decision.{validate_decision}
use workspace_atlas.Route.Decision.Soundness.{validate-decide_iff}
use workspace_atlas.Route.Decision.Routes.{Routed, decide-Routed}
use workspace_atlas.Route.Attempt.{
  ExecutionAttempt, AttemptState, RouteDeficit, RouteFailureReason, validate_attempt,
  validate_counters, checked_counter_sum, zero_counters, counters_eq, deficits_eq,
}
use workspace_atlas.Route.Execution.{ContextExecution, TerminalReason}
use workspace_atlas.Route.Rules.{validate_terminal_reason, validate_materialization}
use workspace_atlas.Route.Rules.Callers.{caller_satisfied_ok}
use workspace_atlas.Route.Shared.{
  attempts_refused, attempt_outside, validate_common, context_execution_version,
  validate_blocked_payload, ends_in,
}
use workspace_atlas.Route.Validation.{
  validate_execution, validate_blocked, blocked_mismatch, checked,
}
use workspace_atlas.Route.Dispatch.{ContextRouteDispatcher, route_attempt, generation_failure}
use workspace_atlas.Route.Handlers.{on_generation_failure, with_sum, finish_with}
use workspace_atlas.Route.Turn.{turn}
use workspace_atlas.Route.Execute.{
  Ending, blocked_at_start, progress_at, run_loop, start, execute_with, execute_context_route,
}

-- What it means that the decision's generation is not the one found: another one is active, none
-- is, or it cannot be told.
abbrev pub failure_of : GenerationObservation → RouteFailureReason
failure_of (observed generation_id) = RouteFailureReason.generation_changed
failure_of (unavailable GenerationUnavailableReason.no_active_generation) =
    RouteFailureReason.no_active_generation
failure_of (unavailable GenerationUnavailableReason.workspace_unregistered) =
    RouteFailureReason.starting_generation_unavailable
failure_of (unavailable GenerationUnavailableReason.catalogue_unavailable) =
    RouteFailureReason.starting_generation_unavailable
failure_of (unavailable GenerationUnavailableReason.observation_failed) =
    RouteFailureReason.starting_generation_unavailable

-- How the execution then ends.
abbrev pub ending_of : GenerationObservation → TerminalReason
ending_of (observed generation_id) = TerminalReason.generation_changed
ending_of (unavailable reason) = TerminalReason.generation_unavailable

-- The reason that goes with a failure.
abbrev Matching : RouteFailureReason → TerminalReason → Type 0
Matching f t =
    (ceiling : Route) (route : Option Route)
    → validate_terminal_reason t route ceiling (RouteDeficit.route f ∷ []) ≡ ok tt

failure_of-Matching :
    (found : GenerationObservation) → Matching (failure_of found) (ending_of found)
unfolding validate_terminal_reason
failure_of-Matching (observed generation_id) ceiling route = refl
failure_of-Matching (unavailable reason) ceiling route = ground arith

-- The dispatcher's check fails on every generation but the expected one.
generation_failure-failure_of :
    (expected : Text) (found : GenerationObservation)
    → found ≢ observed expected
    → generation_failure (observed expected) found ≡ some (failure_of found, ending_of found)
unfolding generation_failure
generation_failure-failure_of expected (observed generation_id) n =
    elim (Bool-cases (text_eq expected generation_id)) [
      | inl same ↦ absurd (n (ap observed (sym (text_eq_sound expected generation_id same))))
      | inr other ↦ rw other refl
    ]
generation_failure-failure_of expected (unavailable reason) n = ground arith

module _ (hash : List ℕ → Text) (clock : ℕ → ℕ) {S E : Type 0}
    (dispatcher : ContextRouteDispatcher S E) (d : ContextRouteDecision) where
  abbrev failed_attempt : RouteFailureReason → ExecutionAttempt
  failed_attempt f =
      route_attempt clock 1 d.initial_route AttemptState.blocked (RouteDeficit.route f ∷ [])
        zero_counters

  -- One attempt on the initial route, blocked by the failure.
  abbrev pub generation_blocked : RouteFailureReason → TerminalReason → ContextExecution
  generation_blocked f t =
      blocked_at_start hash clock dispatcher d (failed_attempt f ∷ []) (some d.initial_route)
        (RouteDeficit.route f ∷ []) t

  attempt_valid : (f : RouteFailureReason) → validate_attempt (failed_attempt f) ≡ ok tt
  unfolding validate_attempt route_attempt valid_opaque_id codes validate_counters
  attempt_valid f = refl

  attempts_accepted :
      (f : RouteFailureReason)
      → d.initial_route ≢ Route.direct
      → is_unavailable d.starting_generation ≡ false
      → Routed d.request d
      → attempts_refused d (failed_attempt f ∷ []) zero_counters [] ≡ false
  unfolding attempts_refused attempt_outside route_attempt validate_counters counters_eq
  attempts_accepted f n u routed =
      ground (arith, attempt_valid f, routed.starts_at_floor, routed.ordered)

  summed : (f : RouteFailureReason) → checked_counter_sum (failed_attempt f ∷ []) ≡ ok zero_counters
  unfolding checked_counter_sum route_attempt
  summed f = refl

  common_ok :
      (f : RouteFailureReason)
      → validate_decision hash d ≡ ok tt
      → d.initial_route ≢ Route.direct
      → is_unavailable d.starting_generation ≡ false
      → validate_common hash context_execution_version d (failed_attempt f ∷ []) zero_counters []
        ≡ ok zero_counters
  unfolding validate_common route_attempt
  common_ok f h n u = ground (
    arith,
    h,
    attempts_accepted f n u (decide-Routed hash d.request ((validate-decide_iff hash d).0 h)),
    summed f,
    text_eq_refl context_execution_version,
  )

  generation_blocked_ok :
      (f : RouteFailureReason) (t : TerminalReason)
      → validate_decision hash d ≡ ok tt
      → Ascending capability_rank (keys d.requested_capabilities)
      → d.initial_route ≢ Route.direct
      → is_unavailable d.starting_generation ≡ false
      → Matching f t
      → validate_execution hash (generation_blocked f t) ≡ ok tt
  unfolding validate_execution validate_blocked blocked_mismatch counters_eq last?
      validate_blocked_payload validate_materialization route_attempt ends_in deficits_eq
  generation_blocked_ok f t h a n u m = ground (
    arith,
    common_ok f h n u,
    caller_satisfied_ok d f (some d.initial_route) a,
    m d.effective_ceiling (some d.initial_route),
  )

  turn_fails :
      (s : S) (f : RouteFailureReason) (t : TerminalReason)
      → validate_execution hash (generation_blocked f t) ≡ ok tt
      → generation_failure d.starting_generation (dispatcher.observe_generation s).0 ≡ some (f, t)
      → run_loop hash clock dispatcher d 2
          (progress_at hash clock dispatcher d d.initial_route [])
          s
        ≡ (Ending.returned (ok (generation_blocked f t)), (dispatcher.observe_generation s).1)
  unfolding run_loop turn on_generation_failure with_sum finish_with checked
  turn_fails s f t h g = ground (arith, h, g, summed f)

  start_changed :
      (s : S)
      → d.initial_route ≢ Route.direct
      → is_unavailable d.starting_generation ≡ false
      → start hash clock dispatcher d 2 s
        ≡ run_loop hash clock dispatcher d 2
            (progress_at hash clock dispatcher d d.initial_route [])
            s
  unfolding start
  start_changed s n u = ground arith

  -- For a valid decision that starts beyond DIRECT with a generation observed, whose capabilities
  -- stand in ascending order: if the dispatcher now observes anything but that generation, the
  -- execution is blocked after one blocked attempt without cost. Its one deficit and its reason say
  -- whether another generation is active, none is, or none could be observed. The dispatcher is
  -- asked for the generation once and nothing is dispatched.
  pub execute-changed :
      (s : S) (expected : Text)
      → validate_decision hash d ≡ ok tt
      → Ascending capability_rank (keys d.requested_capabilities)
      → d.initial_route ≢ Route.direct
      → d.starting_generation ≡ observed expected
      → (dispatcher.observe_generation s).0 ≢ observed expected
      → execute_context_route hash clock dispatcher d s ≡ (
        Ending.returned (
            ok (
              generation_blocked
                (failure_of (dispatcher.observe_generation s).0)
                (ending_of (dispatcher.observe_generation s).0))),
        (dispatcher.observe_generation s).1,
      )
  unfolding execute_context_route execute_with
  execute-changed s expected h a n e q =
      let found = (dispatcher.observe_generation s).0 in
      let f = failure_of found in
      let t = ending_of found in
      let u : is_unavailable d.starting_generation ≡ false = rw e refl in
      let fails : generation_failure d.starting_generation found ≡ some (f, t) =
        rw e (generation_failure-failure_of expected found q) in
      rw (h, execute_context_route, execute_with)
        (start_changed s n u
          ∙ turn_fails s f t (generation_blocked_ok f t h a n u (failure_of-Matching found)) fails)
