-- ===== src/Route/Shared.antt =====
-- What `ContextExecution::validate` (src/context_route.rs) checks of every variant, and its checks on
-- optional payloads.
use workspace_atlas.Common.{
  ℕ, Bool, true, false, not, ◌&&◌, ◌||◌, Text, codes, text_eq, List, [], ◌∷◌, Option, none, some,
  ok, ◌>>=◌, ◌>>◌, refuse_if, ltb, ◌==◌, length, any, any_adjacent, all, head?, is_err,
}
use workspace_atlas.Route.Vocabulary.{Route, route_rank, minimum_route}
use workspace_atlas.Route.Request.{Capabilities, ContextRouteError, RouteResult}
use workspace_atlas.Route.Signals.{is_satisfied, is_unavailable, values}
use workspace_atlas.Route.Decided.{ContextRouteDecision}
use workspace_atlas.Route.Decision.{validate_decision}
use workspace_atlas.Route.Attempt.{
  ExecutionAttempt, RouteDeficit, AttemptState, ContextExecutionCounters, zero_counters,
  attempt_state_rank, deficits_eq, validate_counters, counters_eq, validate_attempt,
  checked_counter_sum,
}
use workspace_atlas.Route.Payload.{ContextPayload, payload_route, useful, validate_payload}
use workspace_atlas.Route.Execution.{ContextDiagnosticCode}
use workspace_atlas.Route.Rules.{valid_attempt_transition}

abbrev pub max_route_attempts : ℕ
max_route_attempts = 8

abbrev pub max_execution_diagnostics : ℕ
max_execution_diagnostics = 32

abbrev pub context_execution_version : Text
context_execution_version = codes "context-execution-v2.0.0"

-- The final route that `ContextExecution::completed` records.
abbrev pub final_route_of : ContextRouteDecision → Option ExecutionAttempt → Route
final_route_of d none = d.initial_route
final_route_of d (some a) = a.route

-- `attempts.last()` has this route and this state.
unfoldable pub ends_in : Route → AttemptState → Option ExecutionAttempt → Bool
ends_in route state none = false
ends_in route state (some a) =
    route_rank a.route == route_rank route && attempt_state_rank a.state == attempt_state_rank state

-- `attempts.last()` has these deficits.
unfoldable pub ends_with_deficits : List RouteDeficit → Option ExecutionAttempt → Bool
ends_with_deficits deficits none = false
ends_with_deficits deficits (some a) = deficits_eq a.deficits deficits

-- The optional value is there and passes the test.
abbrev pub is_some_and {ℓ} : {A : Type ℓ} → Option A → (A → Bool) → Bool
is_some_and none p = false
is_some_and (some x) p = p x

abbrev pub is_none_or {ℓ} : {A : Type ℓ} → Option A → (A → Bool) → Bool
is_none_or none p = true
is_none_or (some x) p = p x

-- `==` on Booleans.
abbrev pub same_bool : Bool → Bool → Bool
same_bool true b = b
same_bool false b = not b

-- Blocked, or interrupted.
abbrev pub stopped : AttemptState → Bool
stopped AttemptState.blocked = true
stopped AttemptState.interrupted = true
stopped state = false

-- An attempt outside the effective routes, or a DIRECT one that cost something.
unfoldable pub attempt_outside : ContextRouteDecision → ExecutionAttempt → Bool
attempt_outside d a =
    ltb (route_rank a.route) (route_rank d.effective_floor)
    || ltb (route_rank d.effective_ceiling) (route_rank a.route)
    || (route_rank a.route == route_rank Route.direct && not (counters_eq a.counters zero_counters))

abbrev pub beyond_direct : ExecutionAttempt → Bool
beyond_direct a = not (route_rank a.route == route_rank Route.direct)

-- The test on what all variants share.
unfoldable pub attempts_refused :
    ContextRouteDecision
    → List ExecutionAttempt
    → ContextExecutionCounters
    → List ContextDiagnosticCode
    → Bool
unfolding attempt_outside
attempts_refused d attempts counters diagnostics =
    ltb max_route_attempts (length attempts)
    || ltb max_execution_diagnostics (length diagnostics)
    || is_err (validate_counters counters)
    || any (λ a. is_err (validate_attempt a)) attempts
    || any_adjacent (λ a b. not (valid_attempt_transition d a b)) attempts
    || is_some_and (head? attempts) (λ a. not (route_rank a.route == route_rank d.initial_route))
    || any (attempt_outside d) attempts
    || (is_unavailable d.starting_generation && any beyond_direct attempts)

unfoldable pub caller_satisfied : ContextRouteDecision → Bool
caller_satisfied d = all is_satisfied (values d.requested_capabilities)

-- Everything that `validate` checks before it looks at the variant.
unfoldable pub validate_common :
    (List ℕ → Text)
    → Text
    → ContextRouteDecision
    → List ExecutionAttempt
    → ContextExecutionCounters
    → List ContextDiagnosticCode
    → RouteResult ContextExecutionCounters
unfolding attempts_refused caller_satisfied
validate_common hash version d attempts counters diagnostics = do
  refuse_if (not (text_eq version context_execution_version))
      (ContextRouteError.unsupported_version (codes "execution") version)
  validate_decision hash d
  refuse_if (attempts_refused d attempts counters diagnostics) ContextRouteError.invalid_execution
  summed ← checked_counter_sum attempts
  refuse_if
      (caller_satisfied d
        && route_rank d.initial_route == route_rank Route.direct
        && any beyond_direct attempts)
      ContextRouteError.invalid_execution
  ok summed

-- A requested capability that neither the caller nor the final route serves.
unfoldable pub uncovered : Route → Capabilities → Bool
uncovered route [] = false
uncovered route ((c, state) ∷ m) =
    (not (is_satisfied state) && ltb (route_rank route) (route_rank (minimum_route c)))
    || uncovered route m

-- The check on the payload of a blocked execution.
unfoldable pub validate_blocked_payload :
    Option ContextPayload → Option Route → RouteResult (Unit {0})
validate_blocked_payload none final_route = ok tt
validate_blocked_payload (some payload) final_route = do
  validate_payload payload
  refuse_if
      (not (useful payload)
        || is_none_or final_route
            (λ route. not (route_rank (payload_route payload) == route_rank route)))
      ContextRouteError.invalid_execution

-- The check on the prior payload of an interrupted execution.
unfoldable pub validate_prior_payload :
    Option ContextPayload → Option ExecutionAttempt → RouteResult (Unit {0})
validate_prior_payload none last = ok tt
validate_prior_payload (some payload) last = do
  validate_payload payload
  refuse_if (is_none_or last (λ a. not (route_rank (payload_route payload) == route_rank a.route)))
      ContextRouteError.invalid_execution
