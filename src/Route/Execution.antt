-- ===== src/Route/Execution.antt =====
-- `ContextExecution` of src/context_route.rs: its four variants and the helpers of its `validate`.
use workspace_atlas.Common.{Text, List, Option}
use workspace_atlas.Route.Vocabulary.{Route, RequiredCapability}
use workspace_atlas.Route.Decided.{ContextRouteDecision}
use workspace_atlas.Route.Attempt.{ExecutionAttempt, RouteDeficit, ContextExecutionCounters}
use workspace_atlas.Route.Payload.{ContextPayload, ExplicitMaterialization}

pub data ContextDiagnosticCode : Type 0 where
  serving_fallback evidence_omitted materialization_omitted : ContextDiagnosticCode

pub data TerminalReason : Type 0 where
  route_ceiling_reached capability_unavailable generation_unavailable generation_changed :
      TerminalReason

pub data InterruptionReason : Type 0 where
  cancelled deadline_exceeded : InterruptionReason

pub record CompletedExecution : Type 0 where
  pub schema_version : Text
  pub decision : ContextRouteDecision
  pub attempts : List ExecutionAttempt
  pub final_route : Route
  pub payload : ContextPayload
  pub counters : ContextExecutionCounters
  pub diagnostics : List ContextDiagnosticCode
  pub materialization : Option ExplicitMaterialization

pub record PartialExecution : Type 0 where
  pub schema_version : Text
  pub decision : ContextRouteDecision
  pub attempts : List ExecutionAttempt
  pub final_route : Route
  pub payload : ContextPayload
  pub satisfied_capabilities : List RequiredCapability
  pub deficits : List RouteDeficit
  pub counters : ContextExecutionCounters
  pub diagnostics : List ContextDiagnosticCode
  pub materialization : Option ExplicitMaterialization
  pub terminal_reason : TerminalReason

pub record BlockedExecution : Type 0 where
  pub schema_version : Text
  pub decision : ContextRouteDecision
  pub attempts : List ExecutionAttempt
  pub final_route : Option Route
  pub payload : Option ContextPayload
  pub satisfied_capabilities : List RequiredCapability
  pub deficits : List RouteDeficit
  pub counters : ContextExecutionCounters
  pub diagnostics : List ContextDiagnosticCode
  pub materialization : Option ExplicitMaterialization
  pub terminal_reason : TerminalReason

pub record InterruptedExecution : Type 0 where
  pub schema_version : Text
  pub decision : ContextRouteDecision
  pub completed_attempts : List ExecutionAttempt
  pub prior_payload : Option ContextPayload
  pub satisfied_capabilities : List RequiredCapability
  pub counters : ContextExecutionCounters
  pub diagnostics : List ContextDiagnosticCode
  pub materialization : Option ExplicitMaterialization
  pub interruption_reason : InterruptionReason

pub data ContextExecution : Type 0 where
  completed : CompletedExecution → ContextExecution
  partial : PartialExecution → ContextExecution
  blocked : BlockedExecution → ContextExecution
  interrupted : InterruptedExecution → ContextExecution
