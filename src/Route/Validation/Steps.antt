-- ===== src/Route/Validation/Steps.antt =====
-- The steps of each variant's `validate` (src/context_route.rs) when it succeeds.
use workspace_atlas.Common.{
  ℕ, ◌≡◌, true, false, not, Text, List, [], some, ok, arith, last?, any, >>=-eq-ok,
}
use mathlib.Core.Option
use workspace_atlas.Route.Attempt.{ContextExecutionCounters, is_route_deficit}
use workspace_atlas.Route.Payload.{useful}
use workspace_atlas.Route.Checks.{is_some}
use workspace_atlas.Route.Execution.{
  CompletedExecution, PartialExecution, BlockedExecution, InterruptedExecution,
}
use workspace_atlas.Route.Rules.{
  validate_terminal_reason, validate_satisfied_capabilities, validate_materialization,
}
use workspace_atlas.Route.Shared.{validate_common, validate_prior_payload, is_some_and}
use workspace_atlas.Route.Validation.{
  completed_mismatch, partial_mismatch, blocked_mismatch, interrupted_mismatch, validate_completed,
  validate_partial, validate_blocked, validate_interrupted,
}

module _ (hash : List ℕ → Text) where
  pub validate_completed-eq-ok :
      (e : CompletedExecution)
      → validate_completed hash e ≡ ok tt
      → (n : ContextExecutionCounters) × (validate_common hash e.schema_version e.decision
            e.attempts e.counters e.diagnostics
          ≡ ok n)
        × (completed_mismatch e n ≡ false)
        × (validate_materialization e.materialization (some e.payload) ≡ ok tt)
  unfolding validate_completed
  validate_completed-eq-ok e h =
      let (n, common, rest) = >>=-eq-ok _ _ h in (n, common, ground arith, ground arith)

  pub validate_partial-eq-ok :
      (e : PartialExecution)
      → validate_partial hash e ≡ ok tt
      → (n : ContextExecutionCounters) × (validate_common hash e.schema_version e.decision
            e.attempts e.counters e.diagnostics
          ≡ ok n)
        × (partial_mismatch e n ≡ false)
        × (validate_satisfied_capabilities e.decision e.satisfied_capabilities e.deficits
              (some e.final_route)
              true
              true
            ≡ ok tt)
        × (validate_terminal_reason e.terminal_reason
              (some e.final_route)
              e.decision.effective_ceiling
              e.deficits
            ≡ ok tt)
        × (validate_materialization e.materialization (some e.payload) ≡ ok tt)
  unfolding validate_partial
  validate_partial-eq-ok e h =
      let (n, common, rest) = >>=-eq-ok _ _ h in
      (n, common, ground arith, ground arith, ground arith, ground arith)

  pub validate_blocked-eq-ok :
      (e : BlockedExecution)
      → validate_blocked hash e ≡ ok tt
      → (n : ContextExecutionCounters) × (validate_common hash e.schema_version e.decision
            e.attempts e.counters e.diagnostics
          ≡ ok n)
        × (blocked_mismatch e n ≡ false)
        × (validate_satisfied_capabilities e.decision e.satisfied_capabilities e.deficits
              e.final_route
              (is_some e.payload)
              (not (any is_route_deficit e.deficits))
            ≡ ok tt)
        × (validate_terminal_reason e.terminal_reason e.final_route e.decision.effective_ceiling
              e.deficits
            ≡ ok tt)
        × (validate_materialization e.materialization e.payload ≡ ok tt)
  unfolding validate_blocked
  validate_blocked-eq-ok e h =
      let (n, common, rest) = >>=-eq-ok _ _ h in
      (n, common, ground arith, ground arith, ground arith, ground arith)

  pub validate_interrupted-eq-ok :
      (e : InterruptedExecution)
      → validate_interrupted hash e ≡ ok tt
      → (n : ContextExecutionCounters) × (validate_common hash e.schema_version e.decision
            e.completed_attempts e.counters e.diagnostics
          ≡ ok n)
        × (interrupted_mismatch e n ≡ false)
        × (validate_satisfied_capabilities e.decision e.satisfied_capabilities []
              (Option.map (λ a. a.route) (last? e.completed_attempts))
              (is_some_and e.prior_payload useful)
              false
            ≡ ok tt)
        × (validate_prior_payload e.prior_payload (last? e.completed_attempts) ≡ ok tt)
        × (validate_materialization e.materialization e.prior_payload ≡ ok tt)
  unfolding validate_interrupted
  validate_interrupted-eq-ok e h =
      let (n, common, rest) = >>=-eq-ok _ _ h in
      (n, common, ground arith, ground arith, ground arith, ground arith)
