-- ===== src/Metrics/Examples.antt =====
-- A derivation of src/context_metrics.rs on a little evidence.
use workspace_atlas.Common.{not, ◌&&◌, ◌||◌, [], ◌∷◌, none, ok, codes, text_eq, ◌≡◌, refl}
use workspace_atlas.Metrics.Types.{
  CanonicalEvidenceKind, CanonicalEvidenceId, ContextMetricEvidence, ContextMetrics, identity_eq,
  range_eq, MetricUnit, EvidenceClass,
}
use workspace_atlas.Metrics.Derive.{
  has, collect, get_bytes, supplied_map, sum_bytes, read_identities, measures,
  derive_context_metrics, metric,
}
use workspace_atlas.Metrics.Separate.{supplied_identities}
use workspace_atlas.Metrics.Yield.{derive_context_metrics-sets}
use workspace_atlas.Metrics.Fractions.{AtMostOne, derive_context_metrics-AtMostOne}

abbrev given_file : CanonicalEvidenceId
given_file = record { kind = CanonicalEvidenceKind.file; id = codes "a"; range = none }

abbrev other_symbol : CanonicalEvidenceId
other_symbol = record { kind = CanonicalEvidenceKind.symbol; id = codes "a"; range = none }

abbrev sample : ContextMetricEvidence
sample = record {
  supplied =
      record { identity = given_file; exact_source_bytes = 7 }
      ∷ record { identity = given_file; exact_source_bytes = 7 }
      ∷ [];
  reads =
      record { identity = given_file }
      ∷ record { identity = other_symbol }
      ∷ record { identity = given_file }
      ∷ [];
  reported = other_symbol ∷ [];
  changed = [];
}

abbrev sample_metrics : ContextMetrics
sample_metrics = measures sample ((given_file, 7) ∷ []) 7 7

sample_derived : derive_context_metrics sample ≡ ok sample_metrics
unfolding derive_context_metrics supplied_map get_bytes sum_bytes collect identity_eq range_eq
    text_eq codes
sample_derived = refl

rediscovery :
    sample_metrics.rediscovery_rate ≡ metric 2 3 MetricUnit.requests EvidenceClass.atlas_observed
unfolding measures metric collect identity_eq range_eq text_eq codes
rediscovery = refl

derive_context_metrics-sets_example :
    (has given_file sample_metrics.supplied ≡ has given_file (supplied_identities sample.supplied))
    × (has given_file sample_metrics.observed ≡ has given_file (read_identities sample.reads))
    × (has given_file sample_metrics.reported ≡ has given_file sample.reported)
    × (has given_file sample_metrics.changed ≡ has given_file sample.changed)
    × (has given_file sample_metrics.expanded ≡ (
        (has given_file (read_identities sample.reads) || has given_file sample.reported)
        && not (has given_file (supplied_identities sample.supplied))))
    × (has given_file sample_metrics.rediscovered ≡ (
        has given_file (read_identities sample.reads)
        && has given_file (supplied_identities sample.supplied)))
derive_context_metrics-sets_example =
    derive_context_metrics-sets sample sample_metrics given_file sample_derived

derive_context_metrics-AtMostOne_example :
    AtMostOne sample_metrics.context_precision_observed
    × AtMostOne sample_metrics.context_precision_reported
    × AtMostOne sample_metrics.rediscovery_rate
    × AtMostOne sample_metrics.source_efficiency_observed
derive_context_metrics-AtMostOne_example =
    derive_context_metrics-AtMostOne sample sample_metrics sample_derived
