-- ===== src/Route/Turn/Settled.antt =====
-- What a turn of the loop of `execute_context_route` (src/context_route.rs) can end in.
use workspace_atlas.Common.{
  Result-cases, inl, inr, map_err, ℕ, ◌≡◌, refl, ◌≢◌, Text, List, ok, err, arith, Result, some,
  none, Bool, true, not, ◌&&◌, is_empty, Option, Bool-cases, Option-cases,
}
use workspace_atlas.Route.Vocabulary.{Route}
use workspace_atlas.Route.Request.{ContextRouteError, DeepSemanticBudget}
use workspace_atlas.Route.Payload.{ContextPayload, useful}
use workspace_atlas.Route.Shared.{is_some_and}
use workspace_atlas.Route.Decided.{ContextRouteDecision}
use workspace_atlas.Route.Attempt.{
  RouteFailureReason, ExecutionAttempt, ContextExecutionCounters, checked_counter_sum,
}
use workspace_atlas.Route.Execution.{
  ContextDiagnosticCode, TerminalReason, InterruptionReason, ContextExecution,
}
use workspace_atlas.Route.Validation.Variants.{decision_of}
use workspace_atlas.Route.Validation.{validate_execution, checked}
use workspace_atlas.Route.Dispatch.{
  generation_failure, dispatch_outcome_valid, ContextRouteDispatcher, RouteAttemptOutcome,
  CompletedOutcome, DeficientOutcome,
}
use workspace_atlas.Route.Handlers.{
  Progress, Turn, finish_with, expect, with_sum, on_generation_failure, on_completed,
  on_interrupted, on_deficient, finish_partial, finish_blocked, can_escalate, escalate, on_outcome,
}
use workspace_atlas.Route.Turn.{on_dispatched, dispatch, dispatch_with, turn}

-- A result that is an execution is one of this decision, and passes `validate`.
pub data IsChecked {E : Type 0} (hash : List ℕ → Text) (d : ContextRouteDecision)
    : Result E ContextExecution → Type 0 where
  valid :
      {e : ContextExecution}
      → validate_execution hash e ≡ ok tt
      → decision_of e ≡ d
      → IsChecked hash d (ok e)
  failed : {e : E} → IsChecked hash d (err e)

-- A turn on `route` returns a checked result, or goes from LIGHT to DEEP; it never panics.
pub data Settled {E : Type 0} (hash : List ℕ → Text) (d : ContextRouteDecision) (route : Route)
    : Turn E → Type 0 where
  returns :
      {r : Result E ContextExecution} → IsChecked hash d r → Settled hash d route (Turn.returned r)
  goes_deep :
      {p : Progress}
      → route ≡ Route.atlas_light
      → p.route ≡ Route.atlas_deep
      → Settled hash d route (Turn.again p)

pub checked-IsChecked :
    {E : Type 0} (hash : List ℕ → Text) (d : ContextRouteDecision) (f : ContextRouteError → E)
    (e : ContextExecution)
    → decision_of e ≡ d
    → IsChecked hash d (map_err f (checked hash e))
unfolding checked
checked-IsChecked hash d f e q = elim (Result-cases (validate_execution hash e)) [
  | inl (u, v) ↦ rw v (valid v q)
  | inr (x, v) ↦ rw v failed
]

module _ (hash : List ℕ → Text) (clock : ℕ → ℕ) {S E : Type 0}
    (dispatcher : ContextRouteDispatcher S E) (d : ContextRouteDecision) where
  finish_with-Settled :
      (route : Route) (e : ContextExecution)
      → decision_of e ≡ d
      → Settled hash d route (finish_with hash clock dispatcher d (checked hash e))
  unfolding finish_with
  finish_with-Settled route e q = returns (checked-IsChecked hash d dispatcher.from_route_error e q)

  with_sum-Settled :
      (route : Route) (attempts : List ExecutionAttempt) (rest : ContextExecutionCounters → Turn E)
      → ((c : ContextExecutionCounters) → Settled hash d route (rest c))
      → Settled hash d route (with_sum hash clock dispatcher d attempts rest)
  unfolding with_sum
  with_sum-Settled route attempts rest h = elim (Result-cases (checked_counter_sum attempts)) [
    | inl (c, e) ↦ rw (e, with_sum) (h c)
    | inr (x, e) ↦ rw (e, with_sum) (returns failed)
  ]

  on_generation_failure-Settled :
      (p : Progress) (f : RouteFailureReason) (t : TerminalReason)
      → Settled hash d p.route (on_generation_failure hash clock dispatcher d p f t)
  unfolding on_generation_failure
  on_generation_failure-Settled p f t =
      with_sum-Settled p.route _ _ (λ c. finish_with-Settled _ _ refl)

  on_completed-Settled :
      (p : Progress) (o : CompletedOutcome)
      → Settled hash d p.route (on_completed hash clock dispatcher d p o)
  unfolding on_completed
  on_completed-Settled p o = with_sum-Settled p.route _ _ (λ c. finish_with-Settled _ _ refl)

  on_interrupted-Settled :
      (p : Progress) (l : List ContextDiagnosticCode) (i : InterruptionReason)
      → Settled hash d p.route (on_interrupted hash clock dispatcher d p l i)
  unfolding on_interrupted
  on_interrupted-Settled p l i = with_sum-Settled p.route _ _ (λ c. finish_with-Settled _ _ refl)

  finish_blocked-Settled :
      (p : Progress) (o : DeficientOutcome)
      → Settled hash d p.route (finish_blocked hash clock dispatcher d p o)
  unfolding finish_blocked
  finish_blocked-Settled p o = with_sum-Settled p.route _ _ (λ c. finish_with-Settled _ _ refl)

  finish_partial-Settled :
      (p : Progress) (o : DeficientOutcome) {payload : ContextPayload}
      → o.payload ≡ some payload
      → Settled hash d p.route (finish_partial hash clock dispatcher d p o)
  unfolding finish_partial expect
  finish_partial-Settled p o e =
      with_sum-Settled p.route _ _ (λ c. rw e (finish_with-Settled _ _ refl))

  can_escalate-light :
      (p : Progress) (o : DeficientOutcome)
      → can_escalate hash clock dispatcher d p o ≡ true
      → p.route ≡ Route.atlas_light
  unfolding can_escalate
  can_escalate-light p o h = ground arith

  is_some_and-some :
      (o : Option ContextPayload) (b : Bool)
      → (is_some_and o useful && b) ≡ true
      → (payload : ContextPayload) × (o ≡ some payload)
  is_some_and-some none b h = cc
  is_some_and-some (some payload) b h = (payload, refl)

  route-escalate :
      (p : Progress) (o : DeficientOutcome)
      → (escalate hash clock dispatcher d p o).route ≡ Route.atlas_deep
  unfolding escalate
  route-escalate p o = refl

  on_deficient-Settled :
      (p : Progress) (o : DeficientOutcome)
      → Settled hash d p.route (on_deficient hash clock dispatcher d p o)
  unfolding on_deficient
  on_deficient-Settled p o = elim (Bool-cases (can_escalate hash clock dispatcher d p o)) [
    | inl up ↦ rw (up, on_deficient) (goes_deep (can_escalate-light p o up) (route-escalate p o))
    | inr stay ↦
        rw (stay, on_deficient)
          (elim (Bool-cases
            (is_some_and o.payload useful && not (is_empty o.satisfied_capabilities))) [
              | inl useful_result ↦
                  rw useful_result
                    (finish_partial-Settled p o (is_some_and-some o.payload _ useful_result).1)
              | inr useless ↦ rw useless (finish_blocked-Settled p o)
            ])
  ]

  on_outcome-Settled :
      (p : Progress) (o : RouteAttemptOutcome)
      → Settled hash d p.route (on_outcome hash clock dispatcher d p o)
  unfolding on_outcome
  on_outcome-Settled p (RouteAttemptOutcome.completed o) = on_completed-Settled p o
  on_outcome-Settled p (RouteAttemptOutcome.deficient o) = on_deficient-Settled p o
  on_outcome-Settled p (RouteAttemptOutcome.interrupted l i) = on_interrupted-Settled p l i

  on_dispatched-Settled :
      (p : Progress) (r : Result E RouteAttemptOutcome)
      → Settled hash d p.route (on_dispatched hash clock dispatcher d p r)
  unfolding on_dispatched
  on_dispatched-Settled p (err e) = returns failed
  on_dispatched-Settled p (ok o) = elim (Result-cases (dispatch_outcome_valid d p.route o)) [
    | inl (u, e) ↦ rw (e, on_dispatched) (on_outcome-Settled p o)
    | inr (x, e) ↦ rw (e, on_dispatched) (returns failed)
  ]

  dispatch_with-Settled :
      (budget : Option DeepSemanticBudget) (p : Progress) (s : S)
      → Settled hash d p.route (dispatch_with hash clock dispatcher d budget p s).0
  unfolding dispatch_with
  dispatch_with-Settled none p s = returns failed
  dispatch_with-Settled (some budget) p s = on_dispatched-Settled p _

  dispatch-Settled :
      (route : Route) (p : Progress) (s : S)
      → route ≢ Route.direct
      → p.route ≡ route
      → Settled hash d p.route (dispatch hash clock dispatcher d route p s).0
  unfolding dispatch
  dispatch-Settled Route.direct p s h e = absurd (h refl)
  dispatch-Settled Route.atlas_light p s h e = on_dispatched-Settled p _
  dispatch-Settled Route.atlas_deep p s h e = dispatch_with-Settled d.request.deep_budget p s

  pub turn-Settled :
      (p : Progress) (s : S)
      → p.route ≢ Route.direct
      → Settled hash d p.route (turn hash clock dispatcher d p s).0
  unfolding turn
  turn-Settled p s h =
      elim (Option-cases
        (generation_failure d.starting_generation (dispatcher.observe_generation s).0)) [
          | inl e ↦ rw (e, turn) (dispatch-Settled p.route p _ h refl)
          | inr ((f, t), e) ↦ rw (e, turn) (on_generation_failure-Settled p f t)
        ]
