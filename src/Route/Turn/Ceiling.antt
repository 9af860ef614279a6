-- ===== src/Route/Turn/Ceiling.antt =====
-- The terminal reason that `execute_context_route` (src/context_route.rs) gives to deficits, against
-- the check of it in `ContextExecution::validate`.
use workspace_atlas.Common.{
  ℕ, ◌≡◌, refl, ◌≢◌, ◌↔◌, Text, List, Bool, true, false, not, ◌&&◌, ◌||◌, ok, err, some, none,
  Option, arith, is_empty, any, ◌==◌, Result-cases, Bool-cases, inl, inr,
}
use workspace_atlas.Route.Vocabulary.{Route, route_rank}
use workspace_atlas.Route.Decided.{ContextRouteDecision}
use workspace_atlas.Route.Attempt.{
  ExecutionAttempt, RouteDeficit, ContextExecutionCounters, checked_counter_sum,
}
use workspace_atlas.Route.Payload.{ContextPayload, useful}
use workspace_atlas.Route.Execution.{ContextExecution}
use workspace_atlas.Route.Rules.{
  is_unavailable_deficit, validate_terminal_reason, terminal_reason_matches,
}
use workspace_atlas.Route.Validation.{validate_execution, checked}
use workspace_atlas.Route.Validation.Ends.{validate_partial-Partial, validate_blocked-Blocked}
use workspace_atlas.Route.Dispatch.{
  ContextRouteDispatcher, DeficientOutcome, light_deficits_can_escalate, terminal_reason_for,
}
use workspace_atlas.Route.Handlers.{
  Progress, Turn, finish_with, with_sum, expect, finish_partial, finish_blocked, can_escalate,
  on_deficient,
}
use workspace_atlas.Route.Shared.{is_some_and}

-- The reason chosen for the deficits of a route passes the check on the terminal reason exactly if
-- the route is the ceiling or some deficit is unavailable, stale or unsupported: below the ceiling,
-- deficits of the other kinds get the reason that the ceiling was reached, which is refused.
pub terminal_reason_for_iff :
    (route ceiling : Route) (l : List RouteDeficit)
    → (validate_terminal_reason (terminal_reason_for route ceiling l) (some route) ceiling l
        ≡ ok tt)
      ↔ ((route_rank route == route_rank ceiling || any is_unavailable_deficit l) ≡ true)
unfolding validate_terminal_reason terminal_reason_for
terminal_reason_for_iff route ceiling l = ground arith

mismatch_lem :
    (route ceiling : Route) (l : List RouteDeficit)
    → (route_rank route == route_rank ceiling) ≡ false
    → any is_unavailable_deficit l ≡ false
    → terminal_reason_matches (terminal_reason_for route ceiling l) (some route) ceiling l ≡ false
unfolding terminal_reason_matches terminal_reason_for
mismatch_lem route ceiling l e h = ground arith

-- A turn that returns an error.
abbrev pub Fails : {E : Type 0} → Turn E → Type 0
Fails {E} t = (e : E) × (t ≡ Turn.returned (err e))

module _ (hash : List ℕ → Text) (clock : ℕ → ℕ) {S E : Type 0}
    (dispatcher : ContextRouteDispatcher S E) (d : ContextRouteDecision) where
  finish_with-Fails :
      (e : ContextExecution)
      → validate_execution hash e ≢ ok tt
      → Fails (finish_with hash clock dispatcher d (checked hash e))
  unfolding finish_with checked
  finish_with-Fails e h = elim (Result-cases (validate_execution hash e)) [
    | inl (u, v) ↦ absurd (h v)
    | inr (x, v) ↦ (dispatcher.from_route_error x, rw v)
  ]

  with_sum-Fails :
      (attempts : List ExecutionAttempt) (rest : ContextExecutionCounters → Turn E)
      → ((c : ContextExecutionCounters) → Fails (rest c))
      → Fails (with_sum hash clock dispatcher d attempts rest)
  unfolding with_sum
  with_sum-Fails attempts rest h = elim (Result-cases (checked_counter_sum attempts)) [
    | inl (c, e) ↦ rw (e, with_sum) (h c)
    | inr (x, e) ↦ rw (e, with_sum) (dispatcher.from_route_error x, refl)
  ]

  finish_partial-Fails :
      (p : Progress) (o : DeficientOutcome) {payload : ContextPayload}
      → o.payload ≡ some payload
      → (route_rank p.route == route_rank d.effective_ceiling) ≡ false
      → any is_unavailable_deficit o.deficits ≡ false
      → Fails (finish_partial hash clock dispatcher d p o)
  unfolding finish_partial expect validate_execution
  finish_partial-Fails p o {payload} q e h = with_sum-Fails _ _ (λ c. rw q (
      finish_with-Fails _ (λ v.
        let reason = (validate_partial-Partial hash _ v).reason in
        cc (mismatch_lem p.route d.effective_ceiling o.deficits e h))))

  finish_blocked-Fails :
      (p : Progress) (o : DeficientOutcome)
      → (route_rank p.route == route_rank d.effective_ceiling) ≡ false
      → any is_unavailable_deficit o.deficits ≡ false
      → Fails (finish_blocked hash clock dispatcher d p o)
  unfolding finish_blocked validate_execution
  finish_blocked-Fails p o e h = with_sum-Fails _ _ (λ c. finish_with-Fails _ (λ v.
      let reason = (validate_blocked-Blocked hash _ v).reason in
      cc (mismatch_lem p.route d.effective_ceiling o.deficits e h)))

  is_some_and-some :
      (o : Option ContextPayload) (b : Bool)
      → (is_some_and o useful && b) ≡ true
      → (payload : ContextPayload) × (o ≡ some payload)
  is_some_and-some none b h = cc
  is_some_and-some (some payload) b h = (payload, refl)

  -- Deficits of LIGHT below the ceiling DEEP that do not all justify the step to DEEP, and none of
  -- which is unavailable, stale or unsupported, end the execution with an error, not with a partial
  -- or a blocked execution.
  pub on_deficient-Fails :
      (p : Progress) (o : DeficientOutcome)
      → p.route ≡ Route.atlas_light
      → d.effective_ceiling ≡ Route.atlas_deep
      → light_deficits_can_escalate o.deficits ≡ false
      → any is_unavailable_deficit o.deficits ≡ false
      → Fails (on_deficient hash clock dispatcher d p o)
  unfolding on_deficient can_escalate
  on_deficient-Fails p o light deep n h =
      let apart : (route_rank p.route == route_rank d.effective_ceiling) ≡ false = ground arith in
      let stay : can_escalate hash clock dispatcher d p o ≡ false = ground arith in
      rw (stay, on_deficient)
        (elim (Bool-cases
          (is_some_and o.payload useful && not (is_empty o.satisfied_capabilities))) [
            | inl e ↦ rw e (finish_partial-Fails p o (is_some_and-some o.payload _ e).1 apart h)
            | inr e ↦ rw e (finish_blocked-Fails p o apart h)
          ])
