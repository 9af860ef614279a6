-- ===== src/Metrics/Fractions.antt =====
-- Numerators and denominators of the fractions that src/context_metrics.rs derives.
use mathlib.Core.Path.{subst}
use workspace_atlas.Common.{
  ℕ, suc, ◌+◌, ◌≤◌, Bool, true, false, List, [], ◌∷◌, ok, if◌then◌else◌, length, Bool-cases, inl,
  inr, ◌≡◌, refl, sym, ◌∙◌, arith,
}
use workspace_atlas.Metrics.Types.{
  CanonicalEvidenceId, ObservedEvidence, ContextMetricEvidence, MetricFraction, ContextMetrics,
  identity_eq,
}
use workspace_atlas.Metrics.Derive.{
  has, keep, collect, intersection, map_keys, sum_bytes, read_identities, measures,
  derive_context_metrics, metric,
}
use workspace_atlas.Metrics.Separate.{identity_eq_sound, identity_eq_refl, has-keep}
use workspace_atlas.Metrics.Yield.{derive-steps}

abbrev Distinct : List CanonicalEvidenceId → Type 0
Distinct [] = Unit
Distinct (x ∷ xs) = (has x xs ≡ false) × Distinct xs

collect-Distinct : (xs : List CanonicalEvidenceId) → Distinct (collect xs)
unfolding collect
collect-Distinct [] = tt
collect-Distinct (x ∷ xs) = elim (Bool-cases (has x (collect xs))) [
  | inl e ↦ rw e (collect-Distinct xs)
  | inr e ↦ rw e (e, collect-Distinct xs)
]

keep-Distinct :
    (p : CanonicalEvidenceId → Bool) (xs : List CanonicalEvidenceId)
    → Distinct xs
    → Distinct (keep p xs)
keep-Distinct p [] d = tt
keep-Distinct p (x ∷ xs) (new, d) = elim (Bool-cases (p x)) [
  | inl e ↦ rw e (has-keep p x xs ∙ rw new refl, keep-Distinct p xs d)
  | inr e ↦ rw e (keep-Distinct p xs d)
]

abbrev remove : CanonicalEvidenceId → List CanonicalEvidenceId → List CanonicalEvidenceId
remove x [] = []
remove x (y ∷ ys) = let rest = remove x ys in if identity_eq x y then ys else y ∷ rest

length-remove :
    (x : CanonicalEvidenceId) (ys : List CanonicalEvidenceId)
    → has x ys ≡ true
    → length ys ≡ suc (length (remove x ys))
length-remove x [] h = cc
length-remove x (y ∷ ys) h = ground (arith, length-remove x ys)

has-remove :
    (z x : CanonicalEvidenceId) (ys : List CanonicalEvidenceId)
    → identity_eq z x ≡ false
    → has z ys ≡ true
    → has z (remove x ys) ≡ true
has-remove z x [] n h = cc
has-remove z x (y ∷ ys) n h = elim (Bool-cases (identity_eq x y)) [
  | inl e ↦
      let other : identity_eq z y ≡ false =
        subst (λ w. identity_eq z w ≡ false) (identity_eq_sound x y e) n in
      ground arith
  | inr e ↦ ground (arith, has-remove z x ys n)
]

length-inside :
    (xs ys : List CanonicalEvidenceId)
    → Distinct xs
    → ((z : CanonicalEvidenceId) → has z xs ≡ true → has z ys ≡ true)
    → length xs ≤ length ys
length-inside [] ys d inside = omega arith
length-inside (x ∷ xs) ys (new, d) inside =
    let there = inside x (rw (identity_eq_refl x) refl) in
    let rest = length-inside xs (remove x ys) d (λ z h. elim (Bool-cases (identity_eq z x)) [
      | inl e ↦
          absurd (ground (arith, subst (λ w. has w xs ≡ true) (identity_eq_sound z x e) h, new))
      | inr e ↦ has-remove z x ys e (inside z (ground arith))
    ]) in
    omega (arith, length-remove x ys there, rest)

-- A set meets another in no more than the other has.
length-intersection :
    (xs ys : List CanonicalEvidenceId) → Distinct xs → length (intersection xs ys) ≤ length ys
length-intersection xs ys d =
    length-inside (intersection xs ys) ys (keep-Distinct (λ x. has x ys) xs d)
      (λ z h. ground (arith, has-keep (λ x. has x ys) z xs))

length-keep : {A : Type 0} (p : A → Bool) (xs : List A) → length (keep p xs) ≤ length xs
length-keep p [] = omega arith
length-keep p (x ∷ xs) = ground (arith, length-keep p xs)

sum_bytes-keep :
    (p : CanonicalEvidenceId × ℕ → Bool) (map : List (CanonicalEvidenceId × ℕ)) (s t u v : ℕ)
    → s ≤ t
    → sum_bytes s (keep p map) ≡ ok u
    → sum_bytes t map ≡ ok v
    → u ≤ v
unfolding sum_bytes
sum_bytes-keep p [] s t u v le h h' = ground arith
sum_bytes-keep p (entry ∷ rest) s t u v le h h' = elim (Bool-cases (p entry)) [
  | inl e ↦ ground (arith, sum_bytes-keep p rest (s + entry.1) (t + entry.1) u v)
  | inr e ↦ ground (arith, sum_bytes-keep p rest s (t + entry.1) u v)
]

abbrev pub AtMostOne : MetricFraction → Type 0
AtMostOne fraction = fraction.numerator ≤ fraction.denominator

-- If the derivation succeeds, the two precisions, the rediscovery rate and the source efficiency have
-- a numerator that is at most the denominator.
pub derive_context_metrics-AtMostOne :
    (evidence : ContextMetricEvidence) (m : ContextMetrics)
    → derive_context_metrics evidence ≡ ok m
    → AtMostOne m.context_precision_observed
      × AtMostOne m.context_precision_reported
      × AtMostOne m.rediscovery_rate
      × AtMostOne m.source_efficiency_observed
unfolding measures metric
derive_context_metrics-AtMostOne evidence m h =
    let (map, all_bytes, used_bytes, collected, summed, summed', same) =
      derive-steps evidence m h in
    subst
      (λ n.
        AtMostOne n.context_precision_observed
        × AtMostOne n.context_precision_reported
        × AtMostOne n.rediscovery_rate
        × AtMostOne n.source_efficiency_observed)
      (sym same)
      (
        length-intersection (collect (read_identities evidence.reads)) (map_keys map)
            (collect-Distinct (read_identities evidence.reads)),
        length-intersection (collect evidence.reported) (map_keys map)
            (collect-Distinct evidence.reported),
        length-keep (λ (read : ObservedEvidence). has read.identity (map_keys map)) evidence.reads,
        sum_bytes-keep
            (λ (entry : CanonicalEvidenceId × ℕ).
              has entry.0 (collect (read_identities evidence.reads)))
            map 0 0 used_bytes all_bytes (omega arith) summed' summed,
      )
