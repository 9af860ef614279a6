-- ===== src/Metrics/Yield.antt =====
-- The sets that derive_context_metrics of src/context_metrics.rs returns.
use mathlib.Core.Path.{subst}
use workspace_atlas.Common.{
  ℕ, ◌+◌, ◌^◌, not, ◌&&◌, ◌||◌, List, [], ok, Result, >>=-eq-ok, refuse_if, ltb, leb, length, ◌≡◌,
  refl, sym, ◌∙◌,
}
use workspace_atlas.Metrics.Types.{
  CanonicalEvidenceId, ContextMetricEvidence, ContextMetricInvalidity, ContextMetrics,
}
use workspace_atlas.Metrics.Derive.{
  has, keep, collect, union, supplied_map, map_keys, sum_bytes, read_identities, measures,
  derive_context_metrics, max_context_metric_evidence,
}
use workspace_atlas.Metrics.Separate.{
  has-collect, has-keep, has-union, has-supplied_map, supplied_identities,
}

abbrev pub used :
    ContextMetricEvidence → List (CanonicalEvidenceId × ℕ) → List (CanonicalEvidenceId × ℕ)
used evidence map =
    keep
      (λ (entry : CanonicalEvidenceId × ℕ). has entry.0 (collect (read_identities evidence.reads)))
      map

-- The steps of a derivation that succeeds.
abbrev pub Derived : ContextMetricEvidence → ContextMetrics → Type 0
Derived evidence m =
    (map : List (CanonicalEvidenceId × ℕ)) × (all_bytes : ℕ) × (used_bytes : ℕ) × (supplied_map []
        evidence.supplied
      ≡ ok map)
    × (sum_bytes 0 map ≡ ok all_bytes)
    × (sum_bytes 0 (used evidence map) ≡ ok used_bytes)
    × (m ≡ measures evidence map all_bytes used_bytes)

ok-injective : {E A : Type 0} {a b : A} (r s : Result E A) → r ≡ ok a → s ≡ ok b → r ≡ s → a ≡ b
ok-injective r s h h2 e = cc

pub derive-steps :
    (evidence : ContextMetricEvidence) (m : ContextMetrics)
    → derive_context_metrics evidence ≡ ok m
    → Derived evidence m
unfolding derive_context_metrics
derive-steps evidence m h =
    let actual =
      length evidence.supplied
      + length evidence.reads
      + length evidence.reported
      + length evidence.changed in
    let (u, few, h1) =
      >>=-eq-ok (refuse_if (leb (2 ^ 64) actual) ContextMetricInvalidity.arithmetic_overflow) _ h in
    let (v, few', h2) =
      >>=-eq-ok
        (refuse_if (ltb max_context_metric_evidence actual)
          (ContextMetricInvalidity.capacity_exceeded max_context_metric_evidence actual))
        _ h1 in
    let (map, collected, h3) = >>=-eq-ok (supplied_map [] evidence.supplied) _ h2 in
    let (all_bytes, summed, h4) = >>=-eq-ok (sum_bytes 0 map) _ h3 in
    let (used_bytes, summed', h5) = >>=-eq-ok (sum_bytes 0 (used evidence map)) _ h4 in
    (map, all_bytes, used_bytes, collected, summed, summed', sym (ok-injective _ _ refl refl h5))

-- If the derivation succeeds, an identity is in the supplied, observed, reported or changed set exactly
-- if it stands in that part of the evidence; it is in the expanded set exactly if it was read or
-- reported but not supplied, and in the rediscovered set exactly if it was read and supplied. A read
-- alone puts nothing into the reported set.
pub derive_context_metrics-sets :
    (evidence : ContextMetricEvidence) (m : ContextMetrics) (a : CanonicalEvidenceId)
    → derive_context_metrics evidence ≡ ok m
    → (has a m.supplied ≡ has a (supplied_identities evidence.supplied))
      × (has a m.observed ≡ has a (read_identities evidence.reads))
      × (has a m.reported ≡ has a evidence.reported)
      × (has a m.changed ≡ has a evidence.changed)
      × (has a m.expanded ≡ (
          (has a (read_identities evidence.reads) || has a evidence.reported)
          && not (has a (supplied_identities evidence.supplied))))
      × (has a m.rediscovered ≡ (
          has a (read_identities evidence.reads) && has a (supplied_identities evidence.supplied)))
unfolding measures
derive_context_metrics-sets evidence m a h =
    let (map, all_bytes, used_bytes, collected, summed, summed', same) =
      derive-steps evidence m h in
    let given = has-supplied_map a [] map evidence.supplied collected in
    let seen = has-collect a (read_identities evidence.reads) in
    let told = has-collect a evidence.reported in
    let both = has-union a (collect (read_identities evidence.reads)) (collect evidence.reported) in
    let more =
      has-keep (λ b. not (has b (map_keys map))) a
        (union (collect (read_identities evidence.reads)) (collect evidence.reported)) in
    let again = has-keep (λ b. has b (map_keys map)) a (collect (read_identities evidence.reads)) in
    subst
      (λ n.
        (has a n.supplied ≡ has a (supplied_identities evidence.supplied))
        × (has a n.observed ≡ has a (read_identities evidence.reads))
        × (has a n.reported ≡ has a evidence.reported)
        × (has a n.changed ≡ has a evidence.changed)
        × (has a n.expanded ≡ (
            (has a (read_identities evidence.reads) || has a evidence.reported)
            && not (has a (supplied_identities evidence.supplied))))
        × (has a n.rediscovered ≡ (
            has a (read_identities evidence.reads)
            && has a (supplied_identities evidence.supplied))))
      (sym same)
      (
        given,
        seen,
        told,
        has-collect a evidence.changed,
        more ∙ rw (both, seen, told, given) refl,
        again ∙ rw (seen, given) refl,
      )
