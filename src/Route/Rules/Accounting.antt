-- ===== src/Route/Rules/Accounting.antt =====
-- What `validate_satisfied_capabilities` (src/context_route.rs) establishes.
use workspace_atlas.Common.{
  ◌+◌, ◌≡◌, refl, ◌∙◌, sym, Result-cases, Bool, true, false, ◌&&◌, ◌||◌, List, [], ◌∷◌, Option, ok,
  arith, ◌==◌, length, any, contains, set_of, Ascending, set_of-Ascending, contains-set_of,
  Bool-cases, inl, inr, Subset, set_union, set_union-Ascending, contains-set_union,
  length-set_union, length-Subset-strict, times, times-absent, times-contains, times-set_of, ◌≤◌,
}
use workspace_atlas.Route.Vocabulary.{Route, RequiredCapability, capability_rank}
use workspace_atlas.Route.Request.{Capabilities}
use workspace_atlas.Route.Signals.{keys}
use workspace_atlas.Route.Decided.{ContextRouteDecision}
use workspace_atlas.Route.Attempt.{RouteDeficit}
use workspace_atlas.Route.Rules.{
  get, unserved, deficit_capabilities, validate_satisfied_capabilities,
}
use workspace_atlas.Route.Rules.Collected.{
  deficient, times_deficient, times-deficient, times-not_deficient, requested, is_absent-get,
  Collected, deficit_capabilities-Collected,
}

-- `validate_satisfied_capabilities` in one statement, for a full accounting: each capability is
-- requested exactly if it is satisfied or deficient, none is both, and a requested one is listed
-- exactly once in the two lists together.
pub record Accounted (m : Capabilities) (satisfied : List RequiredCapability)
    (l : List RouteDeficit) (route : Option Route) : Type 0 where
  pub partition :
      (c : RequiredCapability)
      → (contains capability_rank c satisfied || deficient c l) ≡ requested c m
  pub disjoint :
      (c : RequiredCapability) → (contains capability_rank c satisfied && deficient c l) ≡ false
  pub once :
      (c : RequiredCapability)
      → requested c m ≡ true
      → times capability_rank c satisfied + times_deficient c l ≡ 1
  pub served :
      (c : RequiredCapability)
      → contains capability_rank c satisfied ≡ true
      → unserved (get c m) route c ≡ false

rank-injective : (a b : RequiredCapability) → capability_rank a ≡ capability_rank b → a ≡ b
rank-injective a b e = ground arith

length-keys : (m : Capabilities) → length (keys m) ≡ length m
length-keys [] = refl
length-keys (entry ∷ m) = omega (arith, length-keys m)

-- A test that no element passes fails at what the list contains.
any-contains :
    (p : RequiredCapability → Bool) (l : List RequiredCapability) (c : RequiredCapability)
    → any p l ≡ false
    → contains capability_rank c l ≡ true
    → p c ≡ false
any-contains p [] c h q = cc
any-contains p (k ∷ l) c h q = elim (Bool-cases (capability_rank c == capability_rank k)) [
  | inl e ↦ rw (rank-injective c k (ground arith)) (ground arith)
  | inr e ↦ any-contains p l c (ground arith) (ground arith)
]

module _ (m : Capabilities) (satisfied : List RequiredCapability) (l : List RouteDeficit)
    (route : Option Route) where
  abbrev satisfied_set : List RequiredCapability
  satisfied_set = set_of capability_rank satisfied

  union-Subset :
      (out : List RequiredCapability)
      → Collected m satisfied_set [] l out
      → any (λ c. unserved (get c m) route c) satisfied_set ≡ false
      → Subset capability_rank (set_union capability_rank satisfied_set out) (keys m)
  unfolding unserved
  union-Subset out c h z q = elim (Bool-cases (contains capability_rank z satisfied_set)) [
    | inl e ↦ ground (
      arith,
      is_absent-get z m,
      any-contains (λ c. unserved (get c m) route c) satisfied_set z h e,
    )
    | inr e ↦
        c.asked z
          (ground (arith, c.members z, contains-set_union capability_rank z satisfied_set out))
  ]

  union-length :
      (out : List RequiredCapability)
      → Collected m satisfied_set [] l out
      → length (set_union capability_rank satisfied_set out) ≡ length satisfied_set + length out
  union-length out c =
      length-set_union capability_rank satisfied_set out
        (set_of-Ascending capability_rank satisfied)
        (λ z q. elim (Bool-cases (contains capability_rank z out)) [
          | inl e ↦ absurd (ground (arith, c.members z, c.unsatisfied z))
          | inr e ↦ e
        ])

  union-contains :
      (out : List RequiredCapability)
      → Collected m satisfied_set [] l out
      → (z : RequiredCapability)
      → contains capability_rank z (set_union capability_rank satisfied_set out)
        ≡ (contains capability_rank z satisfied || deficient z l)
  union-contains out c z = ground (
    arith,
    contains-set_union capability_rank z satisfied_set out,
    contains-set_of capability_rank z satisfied,
    c.members z,
  )

  -- The union of the satisfied and the deficient has as many members as the request, so it is all.
  union_complete :
      (out : List RequiredCapability)
      → Ascending capability_rank (keys m)
      → Collected m satisfied_set [] l out
      → any (λ c. unserved (get c m) route c) satisfied_set ≡ false
      → length satisfied_set + length out ≡ length m
      → (z : RequiredCapability) → requested z m ≡ true
      → contains capability_rank z (set_union capability_rank satisfied_set out) ≡ true
  union_complete out a c h n z q =
      elim (Bool-cases (contains capability_rank z (set_union capability_rank satisfied_set out))) [
        | inl e ↦ e
        | inr e ↦ absurd (
            omega (
              arith,
              n,
              length-keys m,
              union-length out c,
              length-Subset-strict capability_rank (set_union capability_rank satisfied_set out)
                  (keys m) z (set_union-Ascending capability_rank satisfied_set out c.ascending) a
                  (union-Subset out c h) q e,
            ))
      ]

  Bool-eq : (a b : Bool) → (a ≡ true → b ≡ true) → (b ≡ true → a ≡ true) → a ≡ b
  Bool-eq a b f g = ground (arith, f, g)

  accounted :
      (out : List RequiredCapability)
      → Ascending capability_rank (keys m)
      → Collected m satisfied_set [] l out
      → any (λ c. unserved (get c m) route c) satisfied_set ≡ false
      → length satisfied_set + length out ≡ length m
      → (z : RequiredCapability)
      → (contains capability_rank z satisfied || deficient z l) ≡ requested z m
  accounted out a c h n z =
      sym (union-contains out c z)
      ∙ Bool-eq _ _ (union-Subset out c h z) (union_complete out a c h n z)

  disjoint-of :
      (out : List RequiredCapability)
      → Collected m satisfied_set [] l out
      → (z : RequiredCapability) → (contains capability_rank z satisfied && deficient z l) ≡ false
  disjoint-of out c z = ground (arith, c.unsatisfied z, contains-set_of capability_rank z satisfied)

  -- What stands in exactly one of two lists, and in neither twice, is listed once.
  listed_once :
      (z : RequiredCapability)
      → (contains capability_rank z satisfied || deficient z l) ≡ true
      → (contains capability_rank z satisfied && deficient z l) ≡ false
      → times capability_rank z satisfied ≤ 1
      → times_deficient z l ≤ 1
      → times capability_rank z satisfied + times_deficient z l ≡ 1
  listed_once z some_list not_both few few_deficits =
      elim (Bool-cases (contains capability_rank z satisfied)) [
        | inl e ↦ omega (
          arith,
          times-contains capability_rank z satisfied e,
          times-not_deficient z l (ground arith),
        )
        | inr e ↦ omega (
          arith,
          times-absent capability_rank z z satisfied refl e,
          times-deficient z l (ground arith),
        )
      ]

  Accounted-of :
      (out : List RequiredCapability)
      → Ascending capability_rank (keys m)
      → Collected m satisfied_set [] l out
      → any (λ c. unserved (get c m) route c) satisfied_set ≡ false
      → length satisfied_set + length out ≡ length m
      → length satisfied_set ≡ length satisfied
      → Accounted m satisfied l route
  Accounted-of out a c h n same = record {
    partition = accounted out a c h n;
    once = λ z q.
        listed_once z (accounted out a c h n z ∙ q) (disjoint-of out c z)
          (times-set_of capability_rank z satisfied same) (c.once z);
    disjoint = disjoint-of out c;
    served = λ z q.
        any-contains (λ c. unserved (get c m) route c) satisfied_set z h
          (contains-set_of capability_rank z satisfied ∙ q);
  }

pub validate_satisfied-Accounted :
    (d : ContextRouteDecision) (satisfied : List RequiredCapability) (l : List RouteDeficit)
    (route : Option Route) (useful : Bool)
    → Ascending capability_rank (keys d.requested_capabilities)
    → validate_satisfied_capabilities d satisfied l route useful true ≡ ok tt
    → Accounted d.requested_capabilities satisfied l route
unfolding validate_satisfied_capabilities
validate_satisfied-Accounted d satisfied l route useful a h =
    let m = d.requested_capabilities in
    elim (Result-cases (deficit_capabilities m (set_of capability_rank satisfied) [] l)) [
      | inl (out, e) ↦
          Accounted-of m satisfied l route out a
            (deficit_capabilities-Collected m (set_of capability_rank satisfied) [] l tt e)
            (ground arith) (ground arith) (ground arith)
      | inr (x, e) ↦ ground arith
    ]

-- Whatever is listed as satisfied was requested, and the caller or the route serves it.
pub validate_satisfied-served :
    (d : ContextRouteDecision) (satisfied : List RequiredCapability) (l : List RouteDeficit)
    (route : Option Route) (useful accounting : Bool)
    → validate_satisfied_capabilities d satisfied l route useful accounting ≡ ok tt
    → (c : RequiredCapability) → contains capability_rank c satisfied ≡ true
    → unserved (get c d.requested_capabilities) route c ≡ false
unfolding validate_satisfied_capabilities
validate_satisfied-served d satisfied l route useful accounting h c q =
    any-contains (λ k. unserved (get k d.requested_capabilities) route k)
      (set_of capability_rank satisfied) c (ground arith)
      (contains-set_of capability_rank c satisfied ∙ q)
