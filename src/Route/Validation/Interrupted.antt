-- ===== src/Route/Validation/Interrupted.antt =====
-- What `ContextExecution::validate` (src/context_route.rs) establishes of an interrupted execution.
use mathlib.Core.Option
use workspace_atlas.Common.{
  ℕ, ◌≡◌, refl, true, false, Text, List, [], Option, none, some, ok, arith, last?, All, All-of_any,
  contains,
}
use workspace_atlas.Route.Vocabulary.{Route, RequiredCapability, capability_rank}
use workspace_atlas.Route.Attempt.{ExecutionAttempt, ContextExecutionCounters}
use workspace_atlas.Route.Payload.{ContextPayload, payload_route, useful}
use workspace_atlas.Route.Execution.{InterruptedExecution}
use workspace_atlas.Route.Rules.{get, unserved}
use workspace_atlas.Route.Rules.Accounting.{validate_satisfied-served}
use workspace_atlas.Route.Shared.{stopped, validate_prior_payload, is_some_and}
use workspace_atlas.Route.Validation.{validate_interrupted, interrupted_mismatch}
use workspace_atlas.Route.Validation.Steps.{validate_interrupted-eq-ok}

-- The route that the last attempt reached.
abbrev pub reached : InterruptedExecution → Option Route
reached e = Option.map (λ a. a.route) (last? e.completed_attempts)

pub record Interrupted (e : InterruptedExecution) : Type 0 where
  pub going : All (λ a. stopped a.state ≡ false) e.completed_attempts
  pub payload :
      (p : ContextPayload)
      → e.prior_payload ≡ some p
      → (a : ExecutionAttempt) × (last? e.completed_attempts ≡ some a) × (payload_route p ≡ a.route)
  pub served :
      (c : RequiredCapability)
      → contains capability_rank c e.satisfied_capabilities ≡ true
      → unserved (get c e.decision.requested_capabilities) (reached e) c ≡ false

prior_payload_lem :
    (o : Option ContextPayload) (last : Option ExecutionAttempt)
    → validate_prior_payload o last ≡ ok tt
    → (p : ContextPayload) → o ≡ some p
    → (a : ExecutionAttempt) × (last ≡ some a) × (payload_route p ≡ a.route)
unfolding validate_prior_payload
prior_payload_lem none last h p e = cc
prior_payload_lem (some q) none h p e = ground arith
prior_payload_lem (some q) (some a) h p e = (a, refl, ground arith)

still_going :
    (e : InterruptedExecution) (n : ContextExecutionCounters)
    → interrupted_mismatch e n ≡ false
    → All (λ a. stopped a.state ≡ false) e.completed_attempts
unfolding interrupted_mismatch
still_going e n h = All-of_any (λ a. stopped a.state) (λ a q. q) e.completed_attempts (ground arith)

module _ (hash : List ℕ → Text) where
  -- An interrupted execution that passes `validate` has no blocked or interrupted attempt behind it;
  -- a payload that it keeps is of the route of its last attempt; and whatever it lists as satisfied
  -- was requested, and the caller or that route serves it.
  pub validate_interrupted-Interrupted :
      (e : InterruptedExecution) → validate_interrupted hash e ≡ ok tt → Interrupted e
  validate_interrupted-Interrupted e h =
      let (n, common, matches, satisfied, payload, rest) = validate_interrupted-eq-ok hash e h in
      record {
        going = still_going e n matches;
        payload = prior_payload_lem e.prior_payload (last? e.completed_attempts) payload;
        served =
            validate_satisfied-served e.decision e.satisfied_capabilities [] (reached e)
              (is_some_and e.prior_payload useful) false satisfied;
      }
