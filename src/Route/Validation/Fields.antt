-- ===== src/Route/Validation/Fields.antt =====
-- What every variant's `validate` (src/context_route.rs) establishes of the fields that all variants
-- share.
use mathlib.Core.Path.{subst}
use workspace_atlas.Common.{
  sym, ℕ, ◌+◌, ◌≤◌, ◌≡◌, true, false, not, ◌&&◌, Text, List, [], ◌∷◌, some, ok, arith, length,
  head?, any, All, Chain, All-of_any, Chain-of_any_adjacent, >>=-eq-ok, ◌==◌, is_err,
}
use workspace_atlas.Route.Vocabulary.{Route, route_rank}
use workspace_atlas.Route.Request.{Capabilities}
use workspace_atlas.Route.Signals.{is_unavailable}
use workspace_atlas.Route.Decided.{ContextRouteDecision}
use workspace_atlas.Route.Decision.{validate_decision}
use workspace_atlas.Route.Attempt.{
  ExecutionAttempt, AttemptState, RouteDeficit, ContextExecutionCounters, zero_counters,
  validate_counters, counters_eq, checked_counter_sum, counter_sum_from, add_counters,
}
use workspace_atlas.Route.Execution.{ContextDiagnosticCode}
use workspace_atlas.Route.Rules.{valid_attempt_transition, route_step_valid}
use workspace_atlas.Route.Shared.{
  attempt_outside, beyond_direct, attempts_refused, validate_common, caller_satisfied,
}

-- The bounds of `ContextExecutionCounters::validate`.
pub record CountersInBounds (c : ContextExecutionCounters) : Type 0 where
  pub calls : c.atlas_calls ≤ 1024
  pub records : c.records ≤ 100000
  pub bytes : c.source_bytes ≤ 16777216
  pub tokens : c.estimated_tokens ≤ 4000000
  pub work : c.work_units ≤ 10000000

-- Where a decision allows an attempt; DIRECT attempts are free.
pub record Within (d : ContextRouteDecision) (a : ExecutionAttempt) : Type 0 where
  pub above_floor : route_rank d.effective_floor ≤ route_rank a.route
  pub below_ceiling : route_rank a.route ≤ route_rank d.effective_ceiling
  pub free_direct : a.route ≡ Route.direct → a.counters ≡ zero_counters

-- Only a partial attempt has a successor, on the same route or on the next one.
abbrev pub Follows : ExecutionAttempt → ExecutionAttempt → Type 0
Follows a b =
    (a.state ≡ AttemptState.partial)
    × (route_rank a.route ≤ route_rank b.route)
    × (route_rank b.route ≤ route_rank a.route + 1)

-- The sum of a counter over attempts.
abbrev pub sum_of : (ContextExecutionCounters → ℕ) → List ExecutionAttempt → ℕ
sum_of f [] = 0
sum_of f (a ∷ l) = f a.counters + sum_of f l

-- Counters that add up the attempts' own, with no overflow.
pub record Sums (l : List ExecutionAttempt) (c : ContextExecutionCounters) : Type 0 where
  pub calls : c.atlas_calls ≡ sum_of (λ x. x.atlas_calls) l
  pub records : c.records ≡ sum_of (λ x. x.records) l
  pub bytes : c.source_bytes ≡ sum_of (λ x. x.source_bytes) l
  pub tokens : c.estimated_tokens ≡ sum_of (λ x. x.estimated_tokens) l
  pub work : c.work_units ≡ sum_of (λ x. x.work_units) l

validate_counters-InBounds :
    (c : ContextExecutionCounters) → is_err (validate_counters c) ≡ false → CountersInBounds c
unfolding validate_counters
validate_counters-InBounds c h = ground arith

pub counters_eq-eq : (a b : ContextExecutionCounters) → counters_eq a b ≡ true → a ≡ b
unfolding counters_eq
counters_eq-eq a b h = ground arith

attempt_outside-Within :
    (d : ContextRouteDecision) (a : ExecutionAttempt) → attempt_outside d a ≡ false → Within d a
unfolding attempt_outside
attempt_outside-Within d a h = record {
  above_floor = ground arith;
  below_ceiling = ground arith;
  free_direct = λ e. counters_eq-eq a.counters zero_counters (ground arith);
}

beyond_direct-direct : (a : ExecutionAttempt) → beyond_direct a ≡ false → a.route ≡ Route.direct
beyond_direct-direct a h = ground arith

route_step-next :
    (a b : Route) (m : Capabilities) (l : List RouteDeficit)
    → route_step_valid a b m l ≡ true
    → route_rank b ≡ route_rank a + 1
unfolding route_step_valid
route_step-next a b m l h = ground arith

transition-Follows :
    (d : ContextRouteDecision) (a b : ExecutionAttempt)
    → not (valid_attempt_transition d a b) ≡ false
    → Follows a b
unfolding valid_attempt_transition
transition-Follows d a b h =
    ground (arith, route_step-next a.route b.route d.requested_capabilities a.deficits)

add_counters-eq-ok :
    (t c : ContextExecutionCounters) {n : ContextExecutionCounters}
    → add_counters t c ≡ ok n
    → (n.atlas_calls ≡ t.atlas_calls + c.atlas_calls)
      × (n.records ≡ t.records + c.records)
      × (n.source_bytes ≡ t.source_bytes + c.source_bytes)
      × (n.estimated_tokens ≡ t.estimated_tokens + c.estimated_tokens)
      × (n.work_units ≡ t.work_units + c.work_units)
unfolding add_counters
add_counters-eq-ok t c h = ground arith

-- The start of a sum and the rest of it.
abbrev Adds : ContextExecutionCounters → List ExecutionAttempt → ContextExecutionCounters → Type 0
Adds t l n =
    (n.atlas_calls ≡ t.atlas_calls + sum_of (λ x. x.atlas_calls) l)
    × (n.records ≡ t.records + sum_of (λ x. x.records) l)
    × (n.source_bytes ≡ t.source_bytes + sum_of (λ x. x.source_bytes) l)
    × (n.estimated_tokens ≡ t.estimated_tokens + sum_of (λ x. x.estimated_tokens) l)
    × (n.work_units ≡ t.work_units + sum_of (λ x. x.work_units) l)

counter_sum_from-Adds :
    (t : ContextExecutionCounters) (l : List ExecutionAttempt) {n : ContextExecutionCounters}
    → counter_sum_from t l ≡ ok n
    → Adds t l n
unfolding counter_sum_from
counter_sum_from-Adds t [] h = ground arith
counter_sum_from-Adds t (a ∷ l) {n} h =
    let (m, e, rest) = >>=-eq-ok (add_counters t a.counters) (λ m. counter_sum_from m l) h in
    ground (arith, add_counters-eq-ok t a.counters e, counter_sum_from-Adds m l rest)

pub checked_counter_sum-Sums :
    (l : List ExecutionAttempt) {n : ContextExecutionCounters}
    → checked_counter_sum l ≡ ok n
    → Sums l n
unfolding checked_counter_sum
checked_counter_sum-Sums l {n} h = ground (arith, counter_sum_from-Adds zero_counters l h)

module _ (hash : List ℕ → Text) where
  -- What `validate` demands of the fields that every variant of an execution has.
  pub record Common (d : ContextRouteDecision) (l : List ExecutionAttempt)
      (c : ContextExecutionCounters) (diagnostics : List ContextDiagnosticCode) : Type 0 where
    pub decided : validate_decision hash d ≡ ok tt
    pub few : length l ≤ 8
    pub few_diagnostics : length diagnostics ≤ 32
    pub in_bounds : CountersInBounds c
    pub starts : (a : ExecutionAttempt) → head? l ≡ some a → a.route ≡ d.initial_route
    pub within : All (Within d) l
    pub follow : Chain Follows l
    pub stays_direct :
        is_unavailable d.starting_generation ≡ true → All (λ a. a.route ≡ Route.direct) l
    pub unneeded :
        caller_satisfied d ≡ true
        → d.initial_route ≡ Route.direct
        → All (λ a. a.route ≡ Route.direct) l
    pub sums : Sums l c

  -- The steps of `validate_common` when it succeeds.
  validate_common-eq-ok :
      (version : Text) (d : ContextRouteDecision) (l : List ExecutionAttempt)
      (c : ContextExecutionCounters) (diagnostics : List ContextDiagnosticCode)
      {n : ContextExecutionCounters}
      → validate_common hash version d l c diagnostics ≡ ok n
      → (validate_decision hash d ≡ ok tt)
        × (attempts_refused d l c diagnostics ≡ false)
        × (checked_counter_sum l ≡ ok n)
        × ((caller_satisfied d
              && route_rank d.initial_route == route_rank Route.direct
              && any beyond_direct l)
            ≡ false)
  unfolding validate_common
  validate_common-eq-ok version d l c diagnostics h = ground arith

  pub validate_common-Common :
      (version : Text) (d : ContextRouteDecision) (l : List ExecutionAttempt)
      (c : ContextExecutionCounters) (diagnostics : List ContextDiagnosticCode)
      {n : ContextExecutionCounters}
      → validate_common hash version d l c diagnostics ≡ ok n
      → counters_eq c n ≡ true
      → Common d l c diagnostics
  unfolding attempts_refused
  validate_common-Common version d l c diagnostics {n} h e =
      let (valid, fine, summed, direct) = validate_common-eq-ok version d l c diagnostics h in
      record {
        decided = valid;
        few = ground arith;
        few_diagnostics = ground arith;
        in_bounds = validate_counters-InBounds c (ground arith);
        starts = λ a q. ground arith;
        within = All-of_any (attempt_outside d) (attempt_outside-Within d) l (ground arith);
        follow =
            Chain-of_any_adjacent (λ a b. not (valid_attempt_transition d a b))
              (transition-Follows d) l (ground arith);
        stays_direct = λ q. All-of_any beyond_direct beyond_direct-direct l (ground arith);
        unneeded = λ q r. All-of_any beyond_direct beyond_direct-direct l (ground arith);
        sums = subst (Sums l) (sym (counters_eq-eq c n e)) (checked_counter_sum-Sums l summed);
      }
