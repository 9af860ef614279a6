-- ===== src/Metrics/Types.antt =====
-- Identities of evidence, the evidence and the measures of src/context_metrics.rs.
use workspace_atlas.Common.{
  ℕ, Bool, true, false, ◌&&◌, List, Option, none, some, Text, text_eq, ◌==◌,
}

pub data CanonicalEvidenceKind : Type 0 where
  file : CanonicalEvidenceKind
  symbol : CanonicalEvidenceKind
  config : CanonicalEvidenceKind
  test : CanonicalEvidenceKind
  query : CanonicalEvidenceKind
  document : CanonicalEvidenceKind
  external : CanonicalEvidenceKind
  relationship : CanonicalEvidenceKind
  range : CanonicalEvidenceKind

-- The derived order of the kinds.
abbrev pub kind_rank : CanonicalEvidenceKind → ℕ
kind_rank CanonicalEvidenceKind.file = 0
kind_rank CanonicalEvidenceKind.symbol = 1
kind_rank CanonicalEvidenceKind.config = 2
kind_rank CanonicalEvidenceKind.test = 3
kind_rank CanonicalEvidenceKind.query = 4
kind_rank CanonicalEvidenceKind.document = 5
kind_rank CanonicalEvidenceKind.external = 6
kind_rank CanonicalEvidenceKind.relationship = 7
kind_rank CanonicalEvidenceKind.range = 8

pub record CanonicalRange : Type 0 where
  pub start : ℕ
  pub end : ℕ

pub record CanonicalEvidenceId : Type 0 where
  pub kind : CanonicalEvidenceKind
  pub id : Text
  pub range : Option CanonicalRange

pub record SuppliedEvidence : Type 0 where
  pub identity : CanonicalEvidenceId
  pub exact_source_bytes : ℕ

pub record ObservedEvidence : Type 0 where
  pub identity : CanonicalEvidenceId

pub record ContextMetricEvidence : Type 0 where
  pub supplied : List SuppliedEvidence
  pub reads : List ObservedEvidence
  pub reported : List CanonicalEvidenceId
  pub changed : List CanonicalEvidenceId

pub data MetricUnit : Type 0 where
  items : MetricUnit
  requests : MetricUnit
  bytes : MetricUnit

pub data EvidenceClass : Type 0 where
  atlas_observed : EvidenceClass
  reported_use : EvidenceClass
  observed_and_reported : EvidenceClass

pub data ContextMetricInvalidity : Type 0 where
  zero_denominator : ContextMetricInvalidity
  invalid_identity : ContextMetricInvalidity
  invalid_range : (start end : ℕ) → ContextMetricInvalidity
  invalid_source_bytes : CanonicalEvidenceId → ContextMetricInvalidity
  missing_evidence_identity : (event_id : Text) → ContextMetricInvalidity
  unsupported_entity_kind : (event_id entity_kind : Text) → ContextMetricInvalidity
  conflicting_supplied_bytes : CanonicalEvidenceId → ContextMetricInvalidity
  capacity_exceeded : (limit actual : ℕ) → ContextMetricInvalidity
  arithmetic_overflow : ContextMetricInvalidity

pub record MetricFraction : Type 0 where
  pub numerator : ℕ
  pub denominator : ℕ
  pub unit : MetricUnit
  pub evidence_class : EvidenceClass
  pub invalidity : Option ContextMetricInvalidity

pub record ContextMetrics : Type 0 where
  pub supplied : List CanonicalEvidenceId
  pub observed : List CanonicalEvidenceId
  pub reported : List CanonicalEvidenceId
  pub changed : List CanonicalEvidenceId
  pub expanded : List CanonicalEvidenceId
  pub rediscovered : List CanonicalEvidenceId
  pub context_precision_observed : MetricFraction
  pub context_precision_reported : MetricFraction
  pub context_expansion_count : MetricFraction
  pub rediscovery_rate : MetricFraction
  pub source_efficiency_observed : MetricFraction

unfoldable pub range_eq : Option CanonicalRange → Option CanonicalRange → Bool
range_eq none none = true
range_eq none (some s) = false
range_eq (some r) none = false
range_eq (some r) (some s) = r.start == s.start && r.end == s.end

-- The derived `==` of identities.
unfoldable pub identity_eq : CanonicalEvidenceId → CanonicalEvidenceId → Bool
identity_eq a b =
    kind_rank a.kind == kind_rank b.kind && text_eq a.id b.id && range_eq a.range b.range
