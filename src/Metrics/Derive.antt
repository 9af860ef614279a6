-- ===== src/Metrics/Derive.antt =====
-- The derivation of the measures from the evidence (src/context_metrics.rs). A `BTreeSet` of identities
-- is a list without repetitions and a `BTreeMap` a list of pairs with distinct keys; their order is not
-- kept, since no measure depends on it.
use workspace_atlas.Common.{
  ℕ, ◌+◌, ◌^◌, Bool, not, List, [], ◌∷◌, ◌++◌, Option, none, some, ok, err, Result, ◌>>=◌, ◌>>◌,
  refuse_if, ltb, leb, ◌==◌, if◌then◌else◌, length, any,
}
use workspace_atlas.Metrics.Types.{
  CanonicalEvidenceId, SuppliedEvidence, ObservedEvidence, ContextMetricEvidence, MetricUnit,
  EvidenceClass, ContextMetricInvalidity, MetricFraction, ContextMetrics, identity_eq,
}

abbrev pub max_context_metric_evidence : ℕ
max_context_metric_evidence = 4096

abbrev pub has : CanonicalEvidenceId → List CanonicalEvidenceId → Bool
has a xs = any (identity_eq a) xs

abbrev pub keep {ℓ} : {A : Type ℓ} → (A → Bool) → List A → List A
keep p [] = []
keep p (x ∷ xs) = let rest = keep p xs in if p x then x ∷ rest else rest

-- `collect::<BTreeSet<_>>()`.
unfoldable pub collect : List CanonicalEvidenceId → List CanonicalEvidenceId
collect [] = []
collect (x ∷ xs) = let rest = collect xs in if has x rest then rest else x ∷ rest

abbrev pub union : List CanonicalEvidenceId → List CanonicalEvidenceId → List CanonicalEvidenceId
union xs ys = xs ++ keep (λ y. not (has y xs)) ys

abbrev pub intersection :
    List CanonicalEvidenceId → List CanonicalEvidenceId → List CanonicalEvidenceId
intersection xs ys = keep (λ x. has x ys) xs

-- `supplied_bytes.get(..)`.
unfoldable pub get_bytes : CanonicalEvidenceId → List (CanonicalEvidenceId × ℕ) → Option ℕ
get_bytes a [] = none
get_bytes a (entry ∷ rest) = if identity_eq a entry.0 then some entry.1 else get_bytes a rest

abbrev pub add_supplied :
    SuppliedEvidence
    → List (CanonicalEvidenceId × ℕ)
    → Option ℕ
    → Result ContextMetricInvalidity (List (CanonicalEvidenceId × ℕ))
add_supplied item map (some bytes) =
    if bytes == item.exact_source_bytes
    then ok map
    else err (ContextMetricInvalidity.conflicting_supplied_bytes item.identity)
add_supplied item map none = ok (map ++ (item.identity, item.exact_source_bytes) ∷ [])

unfoldable pub supplied_map :
    List (CanonicalEvidenceId × ℕ)
    → List SuppliedEvidence
    → Result ContextMetricInvalidity (List (CanonicalEvidenceId × ℕ))
supplied_map map [] = ok map
supplied_map map (item ∷ items) =
    add_supplied item map (get_bytes item.identity map) >>= λ next. supplied_map next items

abbrev pub map_keys : List (CanonicalEvidenceId × ℕ) → List CanonicalEvidenceId
map_keys [] = []
map_keys (entry ∷ rest) = entry.0 ∷ map_keys rest

abbrev pub add_bytes : ℕ → ℕ → Result ContextMetricInvalidity ℕ
add_bytes a b =
    if leb (2 ^ 64) (a + b) then err ContextMetricInvalidity.arithmetic_overflow else ok (a + b)

-- `try_fold` with `checked_add`.
unfoldable pub sum_bytes : ℕ → List (CanonicalEvidenceId × ℕ) → Result ContextMetricInvalidity ℕ
sum_bytes total [] = ok total
sum_bytes total (entry ∷ rest) = add_bytes total entry.1 >>= λ next. sum_bytes next rest

unfoldable pub metric : ℕ → ℕ → MetricUnit → EvidenceClass → MetricFraction
metric num den unit_of class = record {
  numerator = num;
  denominator = den;
  unit = unit_of;
  evidence_class = class;
  invalidity = if den == 0 then some ContextMetricInvalidity.zero_denominator else none;
}

abbrev pub read_identities : List ObservedEvidence → List CanonicalEvidenceId
read_identities [] = []
read_identities (read ∷ reads) = read.identity ∷ read_identities reads

unfoldable pub measures :
    ContextMetricEvidence → List (CanonicalEvidenceId × ℕ) → ℕ → ℕ → ContextMetrics
measures evidence map all_bytes used_bytes =
    let given = map_keys map in
    let seen = collect (read_identities evidence.reads) in
    let told = collect evidence.reported in
    let more = keep (λ a. not (has a given)) (union seen told) in
    record {
      supplied = given;
      observed = seen;
      reported = told;
      changed = collect evidence.changed;
      expanded = more;
      rediscovered = intersection seen given;
      context_precision_observed =
          metric (length (intersection seen given)) (length given) MetricUnit.items
            EvidenceClass.atlas_observed;
      context_precision_reported =
          metric (length (intersection told given)) (length given) MetricUnit.items
            EvidenceClass.reported_use;
      context_expansion_count =
          metric (length more) 1 MetricUnit.items EvidenceClass.observed_and_reported;
      rediscovery_rate =
          metric
            (length (keep (λ (read : ObservedEvidence). has read.identity given) evidence.reads))
            (length evidence.reads) MetricUnit.requests EvidenceClass.atlas_observed;
      source_efficiency_observed =
          metric used_bytes all_bytes MetricUnit.bytes EvidenceClass.atlas_observed;
    }

-- `usize` is 64 bits wide.
unfoldable pub derive_context_metrics :
    ContextMetricEvidence → Result ContextMetricInvalidity ContextMetrics
derive_context_metrics evidence =
    let actual =
      length evidence.supplied
      + length evidence.reads
      + length evidence.reported
      + length evidence.changed in
    refuse_if (leb (2 ^ 64) actual) ContextMetricInvalidity.arithmetic_overflow
    >> (refuse_if (ltb max_context_metric_evidence actual)
          (ContextMetricInvalidity.capacity_exceeded max_context_metric_evidence actual)
        >> (supplied_map [] evidence.supplied >>= λ map. sum_bytes 0 map >>= λ all_bytes.
            sum_bytes 0 (
              keep
                (λ (entry : CanonicalEvidenceId × ℕ).
                  has entry.0 (collect (read_identities evidence.reads)))
                map)
            >>= λ used_bytes. ok (measures evidence map all_bytes used_bytes)))
