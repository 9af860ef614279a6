-- ===== src/Route/Attempt.antt =====
-- What an execution of a route reports (src/context_route.rs, src/context_metrics.rs): counters,
-- deficits and attempts, with the checks on one attempt and the checked sum over all of them.
use workspace_atlas.Common.{
  ℕ, ◌+◌, ◌*◌, Bool, true, false, not, ◌&&◌, ◌||◌, Text, List, [], ◌∷◌, Result, ok, err, ◌>>=◌,
  ◌>>◌, refuse_if, if◌then◌else◌, ltb, leb, ◌==◌, any_adjacent, is_empty, is_err,
}
use workspace_atlas.Route.Vocabulary.{Route, RequiredCapability, capability_rank}
use workspace_atlas.Route.Request.{
  ContextRouteError, RouteResult, max_context_execution_atlas_calls, max_context_execution_records,
  max_context_execution_source_bytes, max_context_execution_estimated_tokens,
  max_context_execution_work_units,
}
use workspace_atlas.Route.Budget.{valid_opaque_id}

pub data CapabilityDeficitReason : Type 0 where
  unavailable ambiguous conflicting stale unsupported semantic_budget_omitted :
      CapabilityDeficitReason

abbrev pub deficit_reason_rank : CapabilityDeficitReason → ℕ
deficit_reason_rank CapabilityDeficitReason.unavailable = 0
deficit_reason_rank CapabilityDeficitReason.ambiguous = 1
deficit_reason_rank CapabilityDeficitReason.conflicting = 2
deficit_reason_rank CapabilityDeficitReason.stale = 3
deficit_reason_rank CapabilityDeficitReason.unsupported = 4
deficit_reason_rank CapabilityDeficitReason.semantic_budget_omitted = 5

pub data RouteFailureReason : Type 0 where
  starting_generation_unavailable no_active_generation generation_changed : RouteFailureReason

abbrev pub failure_reason_rank : RouteFailureReason → ℕ
failure_reason_rank RouteFailureReason.starting_generation_unavailable = 0
failure_reason_rank RouteFailureReason.no_active_generation = 1
failure_reason_rank RouteFailureReason.generation_changed = 2

pub data AttemptState : Type 0 where
  completed partial blocked interrupted : AttemptState

abbrev pub attempt_state_rank : AttemptState → ℕ
attempt_state_rank AttemptState.completed = 0
attempt_state_rank AttemptState.partial = 1
attempt_state_rank AttemptState.blocked = 2
attempt_state_rank AttemptState.interrupted = 3

pub data RouteDeficit : Type 0 where
  capability : RequiredCapability → CapabilityDeficitReason → RouteDeficit
  route : RouteFailureReason → RouteDeficit

-- The derived order: by variant, then by the fields in turn.
abbrev pub deficit_rank : RouteDeficit → ℕ
deficit_rank (RouteDeficit.capability c reason) = capability_rank c * 6 + deficit_reason_rank reason
deficit_rank (RouteDeficit.route reason) = 48 + failure_reason_rank reason

abbrev pub is_route_deficit : RouteDeficit → Bool
is_route_deficit (RouteDeficit.capability c reason) = false
is_route_deficit (RouteDeficit.route reason) = true

-- `==` on vectors of deficits.
unfoldable pub deficits_eq : List RouteDeficit → List RouteDeficit → Bool
deficits_eq [] [] = true
deficits_eq [] (y ∷ ys) = false
deficits_eq (x ∷ xs) [] = false
deficits_eq (x ∷ xs) (y ∷ ys) = deficit_rank x == deficit_rank y && deficits_eq xs ys

pub record ContextExecutionCounters : Type 0 where
  pub atlas_calls : ℕ
  pub records : ℕ
  pub source_bytes : ℕ
  pub estimated_tokens : ℕ
  pub work_units : ℕ

-- `default`.
abbrev pub zero_counters : ContextExecutionCounters
zero_counters = record {
  atlas_calls = 0;
  records = 0;
  source_bytes = 0;
  estimated_tokens = 0;
  work_units = 0;
}

-- Which counter is out of bounds: the five messages of `ContextExecutionCounters::validate`.
pub data CounterBound : Type 0 where
  atlas_call_bound record_bound source_byte_bound estimated_token_bound work_unit_bound :
      CounterBound

-- `ContextExecutionCounters::validate`.
unfoldable pub validate_counters : ContextExecutionCounters → Result CounterBound (Unit {0})
validate_counters c = do
  refuse_if (ltb max_context_execution_atlas_calls c.atlas_calls) atlas_call_bound
  refuse_if (ltb max_context_execution_records c.records) record_bound
  refuse_if (ltb max_context_execution_source_bytes c.source_bytes) source_byte_bound
  refuse_if (ltb max_context_execution_estimated_tokens c.estimated_tokens) estimated_token_bound
  refuse_if (ltb max_context_execution_work_units c.work_units) work_unit_bound

-- `==` on counters.
unfoldable pub counters_eq : ContextExecutionCounters → ContextExecutionCounters → Bool
counters_eq a b =
    a.atlas_calls == b.atlas_calls
    && a.records == b.records
    && a.source_bytes == b.source_bytes
    && a.estimated_tokens == b.estimated_tokens
    && a.work_units == b.work_units

pub record ExecutionAttempt : Type 0 where
  pub attempt_id : Text
  pub route : Route
  pub state : AttemptState
  pub deficits : List RouteDeficit
  pub counters : ContextExecutionCounters
  pub elapsed_micros : ℕ

abbrev pub deficit_shape_valid : AttemptState → List RouteDeficit → Bool
deficit_shape_valid AttemptState.completed deficits = is_empty deficits
deficit_shape_valid AttemptState.partial deficits = not (is_empty deficits)
deficit_shape_valid AttemptState.blocked deficits = not (is_empty deficits)
deficit_shape_valid AttemptState.interrupted deficits = false

-- Two neighbours out of order, or equal.
abbrev pub unordered : RouteDeficit → RouteDeficit → Bool
unordered x y = leb (deficit_rank y) (deficit_rank x)

-- `ExecutionAttempt::validate`.
unfoldable pub validate_attempt : ExecutionAttempt → RouteResult (Unit {0})
validate_attempt a =
    refuse_if
      (not (valid_opaque_id a.attempt_id)
        || is_err (validate_counters a.counters)
        || not (deficit_shape_valid a.state a.deficits)
        || any_adjacent unordered a.deficits)
      ContextRouteError.invalid_execution

abbrev pub u64_limit : ℕ
u64_limit = 18446744073709551616

-- `checked_add` on `u64`, with the error that its callers give.
abbrev pub checked_add : ℕ → ℕ → RouteResult ℕ
checked_add a b =
    if ltb (a + b) u64_limit then ok (a + b) else err ContextRouteError.invalid_execution

-- The body of the fold in `checked_counter_sum`.
unfoldable pub add_counters :
    ContextExecutionCounters → ContextExecutionCounters → RouteResult ContextExecutionCounters
add_counters total c = do
  calls ← checked_add total.atlas_calls c.atlas_calls
  records ← checked_add total.records c.records
  bytes ← checked_add total.source_bytes c.source_bytes
  tokens ← checked_add total.estimated_tokens c.estimated_tokens
  work ← checked_add total.work_units c.work_units
  ok (record {
    atlas_calls = calls;
    records = records;
    source_bytes = bytes;
    estimated_tokens = tokens;
    work_units = work;
  })

unfoldable pub counter_sum_from :
    ContextExecutionCounters → List ExecutionAttempt → RouteResult ContextExecutionCounters
unfolding add_counters
counter_sum_from total [] = ok total
counter_sum_from total (a ∷ attempts) = do
  next ← add_counters total a.counters
  counter_sum_from next attempts

unfoldable pub checked_counter_sum : List ExecutionAttempt → RouteResult ContextExecutionCounters
unfolding counter_sum_from
checked_counter_sum attempts = counter_sum_from zero_counters attempts
