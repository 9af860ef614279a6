-- ===== src/Route/Execute/NoGeneration.antt =====
-- The executions of `execute_context_route` (src/context_route.rs) that find no active generation at
-- the start.
use workspace_atlas.Common.{
  ℕ, ◌≡◌, Text, text_eq_refl, List, [], true, false, ◌&&◌, ok, none, arith, is_empty, ◌==◌,
  Ascending, last?,
}
use workspace_atlas.Route.Vocabulary.{Route, route_rank, capability_rank}
use workspace_atlas.Route.Signals.{is_unavailable, keys}
use workspace_atlas.Route.Decided.{ContextRouteDecision}
use workspace_atlas.Route.Decision.{validate_decision}
use workspace_atlas.Route.Attempt.{
  RouteFailureReason, validate_counters, checked_counter_sum, zero_counters, counters_eq,
}
use workspace_atlas.Route.Rules.{validate_terminal_reason, validate_materialization}
use workspace_atlas.Route.Rules.Callers.{caller_satisfied_ok}
use workspace_atlas.Route.Shared.{
  attempts_refused, validate_common, context_execution_version, validate_blocked_payload,
}
use workspace_atlas.Route.Validation.{
  validate_execution, validate_blocked, blocked_mismatch, checked,
}
use workspace_atlas.Route.Dispatch.{ContextRouteDispatcher, deficits_of_caller}
use workspace_atlas.Route.Execute.{
  Ending, return_checked, no_generation, start, execute_with, execute_context_route,
}

module _ (hash : List ℕ → Text) (clock : ℕ → ℕ) {S E : Type 0}
    (dispatcher : ContextRouteDispatcher S E) (d : ContextRouteDecision) where
  no_attempts : attempts_refused d [] zero_counters [] ≡ false
  unfolding attempts_refused validate_counters
  no_attempts = ground arith

  common_ok :
      validate_decision hash d ≡ ok tt
      → validate_common hash context_execution_version d [] zero_counters [] ≡ ok zero_counters
  unfolding validate_common checked_counter_sum
  common_ok h = ground (arith, h, no_attempts, text_eq_refl context_execution_version)

  pub no_generation_ok :
      validate_decision hash d ≡ ok tt
      → Ascending capability_rank (keys d.requested_capabilities)
      → validate_execution hash (no_generation hash clock dispatcher d) ≡ ok tt
  unfolding validate_execution validate_blocked blocked_mismatch counters_eq last?
      validate_blocked_payload validate_materialization validate_terminal_reason
  no_generation_ok h a = ground (
    arith,
    common_ok h,
    caller_satisfied_ok d RouteFailureReason.starting_generation_unavailable none a,
  )

  start_unavailable :
      (s : S)
      → validate_execution hash (no_generation hash clock dispatcher d) ≡ ok tt
      → is_unavailable d.starting_generation ≡ true
      → (route_rank d.initial_route == route_rank Route.direct
          && is_empty (deficits_of_caller d.requested_capabilities))
        ≡ false
      → start hash clock dispatcher d 2 s
        ≡ (Ending.returned (ok (no_generation hash clock dispatcher d)), s)
  unfolding start return_checked checked
  start_unavailable s h u n = ground (arith, h, u, n)

  -- When no generation was observed for a valid decision, whose capabilities stand in ascending
  -- order, and the caller's own context on DIRECT is not enough, the execution is blocked for lack
  -- of a generation, with no attempt and no cost, what the caller satisfies listed, and no call of
  -- the dispatcher, whose state is left as it was.
  pub execute-unavailable :
      (s : S)
      → validate_decision hash d ≡ ok tt
      → Ascending capability_rank (keys d.requested_capabilities)
      → is_unavailable d.starting_generation ≡ true
      → (route_rank d.initial_route == route_rank Route.direct
          && is_empty (deficits_of_caller d.requested_capabilities))
        ≡ false
      → execute_context_route hash clock dispatcher d s
        ≡ (Ending.returned (ok (no_generation hash clock dispatcher d)), s)
  unfolding execute_context_route execute_with
  execute-unavailable s h a u n =
      rw (h, execute_context_route, execute_with) (start_unavailable s (no_generation_ok h a) u n)
