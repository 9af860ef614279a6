-- ===== src/Route/Execute/Total.antt =====
-- Termination and soundness of `execute_context_route` (src/context_route.rs).
use workspace_atlas.Common.{
  ℕ, zero, suc, ◌≤◌, ◌≡◌, refl, ◌≢◌, Text, List, Bool-cases, Result-cases, inl, inr, Result, arith,
  ◌==◌, false, not, ◌&&◌, is_empty,
}
use workspace_atlas.Route.Vocabulary.{Route, route_rank}
use workspace_atlas.Route.Decided.{ContextRouteDecision}
use workspace_atlas.Route.Signals.{is_unavailable}
use workspace_atlas.Route.Decision.{validate_decision}
use workspace_atlas.Route.Execution.{ContextExecution}
use workspace_atlas.Route.Validation.Variants.{decision_of}
use workspace_atlas.Route.Dispatch.{ContextRouteDispatcher, deficits_of_caller}
use workspace_atlas.Route.Handlers.{Progress, Turn}
use workspace_atlas.Route.Turn.{turn}
use workspace_atlas.Route.Turn.Settled.{
  IsChecked, failed, Settled, returns, goes_deep, checked-IsChecked, turn-Settled,
}
use workspace_atlas.Route.Execute.{
  Ending, run_loop, return_checked, start_direct, start, execute_with, execute_context_route,
}

-- An ending that is a return, of a checked result.
pub data Ends {E : Type 0} (hash : List ℕ → Text) (d : ContextRouteDecision)
    : Ending E → Type 0 where
  ends : {r : Result E ContextExecution} → IsChecked hash d r → Ends hash d (Ending.returned r)

module _ (hash : List ℕ → Text) (clock : ℕ → ℕ) {S E : Type 0}
    (dispatcher : ContextRouteDispatcher S E) (d : ContextRouteDecision) where
  -- An ending and a state, the same whatever more fuel there is.
  abbrev Final : (ℕ → Ending E × S) → Type 0
  Final run = (fuel : ℕ) → (run fuel ≡ run 0) × Ends hash d (run fuel).0

  abbrev loop : Progress → S → ℕ → Ending E × S
  loop p s fuel = run_loop hash clock dispatcher d (suc fuel) p s

  -- On DEEP one turn is the last.
  deep-Final : (p : Progress) (s : S) → p.route ≡ Route.atlas_deep → Final (loop p s)
  unfolding run_loop
  deep-Final p s deep fuel =
      go (turn hash clock dispatcher d p s).0 refl
        (turn-Settled hash clock dispatcher d p s (λ e. cc))
    where
      go :
          (t : Turn E)
          → (turn hash clock dispatcher d p s).0 ≡ t
          → Settled hash d p.route t
          → (loop p s fuel ≡ loop p s 0) × Ends hash d (loop p s fuel).0
      go (Turn.again p') e (goes_deep light q) = absurd (ground arith)
      go (Turn.returned r) e (returns c) = (rw (e, run_loop), rw (e, run_loop) (ends c))
      go Turn.panicked e x = elim x [ ]

  -- Off DIRECT two turns are enough.
  loop-Final : (p : Progress) (s : S) → p.route ≢ Route.direct → Final (λ fuel. loop p s (suc fuel))
  unfolding run_loop
  loop-Final p s h fuel =
      go (turn hash clock dispatcher d p s).0 refl (turn-Settled hash clock dispatcher d p s h)
    where
      go :
          (t : Turn E)
          → (turn hash clock dispatcher d p s).0 ≡ t
          → Settled hash d p.route t
          → (loop p s (suc fuel) ≡ loop p s 1) × Ends hash d (loop p s (suc fuel)).0
      go (Turn.again p') e (goes_deep light q) = rw (e, run_loop) (deep-Final p' _ q fuel)
      go (Turn.returned r) e (returns c) = (rw (e, run_loop), rw (e, run_loop) (ends c))
      go Turn.panicked e x = elim x [ ]

  return_checked-Ends :
      (e : ContextExecution)
      → decision_of e ≡ d
      → Ends hash d (return_checked hash clock dispatcher d e)
  unfolding return_checked
  return_checked-Ends e q = ends (checked-IsChecked hash d dispatcher.from_route_error e q)

  start_direct-Final :
      (s : S) → Final (λ fuel. start_direct hash clock dispatcher d (suc (suc fuel)) s)
  unfolding start_direct
  start_direct-Final s fuel =
      elim (Bool-cases (is_empty (deficits_of_caller d.requested_capabilities))) [
        | inl e ↦ rw (e, start_direct) (refl, return_checked-Ends _ refl)
        | inr e ↦
            rw (e, start_direct)
              (elim (Bool-cases (route_rank d.effective_ceiling == route_rank Route.direct)) [
                | inl c ↦ rw c (refl, return_checked-Ends _ refl)
                | inr c ↦ rw c (loop-Final _ s (λ q. cc) fuel)
              ])
      ]

  start-Final : (s : S) → Final (λ fuel. start hash clock dispatcher d (suc (suc fuel)) s)
  unfolding start
  start-Final s fuel =
      let direct = route_rank d.initial_route == route_rank Route.direct in
      elim (Bool-cases (
        is_unavailable d.starting_generation
        && not (direct && is_empty (deficits_of_caller d.requested_capabilities)))) [
          | inl e ↦ rw (e, start) (refl, return_checked-Ends _ refl)
          | inr e ↦
              rw (e, start)
                (elim (Bool-cases direct) [
                  | inl f ↦ rw f (start_direct-Final s fuel)
                  | inr f ↦ rw f (loop-Final _ s (off_direct f) fuel)
                ])
        ]
    where
      off_direct :
          (route_rank d.initial_route == route_rank Route.direct) ≡ false
          → d.initial_route ≢ Route.direct
      off_direct f q = ground arith

  execute_with-Final :
      (s : S) → Final (λ fuel. execute_with hash clock dispatcher d (suc (suc fuel)) s)
  unfolding execute_with
  execute_with-Final s fuel = elim (Result-cases (validate_decision hash d)) [
    | inl (u, e) ↦ rw (e, execute_with) (start-Final s fuel)
    | inr (x, e) ↦ rw (e, execute_with) (refl, ends failed)
  ]

  -- The execution of a decision ends, by a return and never by a panic, within two turns of its
  -- loop: with more fuel the ending and the dispatcher's state are the same. An execution that is
  -- returned is one of that decision and passes `ContextExecution::validate`. This holds for every dispatcher and clock.
  pub execute_total :
      (s : S) (fuel : ℕ)
      → 2 ≤ fuel
      → (execute_with hash clock dispatcher d fuel s
          ≡ execute_context_route hash clock dispatcher d s)
        × ((r : Result E ContextExecution) × ((execute_context_route hash clock dispatcher d s).0
              ≡ Ending.returned r)
            × IsChecked hash d r)
  unfolding execute_context_route
  execute_total s zero h = absurd (omega arith)
  execute_total s (suc zero) h = absurd (omega arith)
  execute_total s (suc (suc fuel)) h =
      ((execute_with-Final s fuel).0, result _ (execute_with-Final s 0).1)
    where
      result :
          (e : Ending E)
          → Ends hash d e
          → (r : Result E ContextExecution) × (e ≡ Ending.returned r) × IsChecked hash d r
      result (Ending.returned r) (ends c) = (r, refl, c)
      result Ending.panicked x = elim x [ ]
      result Ending.out_of_fuel x = elim x [ ]
