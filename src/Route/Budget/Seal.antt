-- ===== src/Route/Budget/Seal.antt =====
-- The digest of a semantic budget (src/context_route.rs) as a seal of its limits.
use workspace_atlas.Common.{
  ℕ, ◌≡◌, ◌≢◌, ◌⊎◌, inl, inr, sym, ◌∙◌, Text, text_eq, text_eq_sound, text_eq_refl, List,
  Bool-cases, ok, arith, codes,
}
use workspace_atlas.Route.Encoder.{CanonicalEncoder, encoder, u64, ◌▷◌, finish}
use workspace_atlas.Route.Encoder.Framing.{u64-injective}
use workspace_atlas.Route.Request.{DeepSemanticBudget}
use workspace_atlas.Route.Checks.Accepted.{InBounds, validate_values-InBounds}
use workspace_atlas.Route.Budget.{expected_digest, validate_budget}

-- Two inputs with one hash.
abbrev pub Collision : (List ℕ → Text) → Type 0
Collision hash = (x : List ℕ) × (y : List ℕ) × (x ≢ y) × (hash x ≡ hash y)

-- What a budget feeds to the hasher.
abbrev sealed : DeepSemanticBudget → CanonicalEncoder
sealed b =
    encoder (codes "workspace-atlas/context-deep-budget-v1")
    ▷ u64 b.max_records
    ▷ u64 b.max_source_bytes
    ▷ u64 b.max_estimated_tokens
    ▷ u64 b.max_depth
    ▷ u64 b.max_work_units
    ▷ u64 b.uncertainty_reserve_percent

equal_or_Collision :
    (hash : List ℕ → Text) (x y : List ℕ) → hash x ≡ hash y → (x ≡ y) ⊎ Collision hash
equal_or_Collision hash x y h = elim (Bool-cases (text_eq x y)) [
  | inl e ↦ inl (text_eq_sound x y e)
  | inr e ↦ inr (x, y, λ q. ground (arith, text_eq_refl x), h)
]

-- The six limits of two budgets agree.
abbrev Agree : DeepSemanticBudget → DeepSemanticBudget → Type 0
Agree a b =
    (a.max_records ≡ b.max_records)
    × (a.max_source_bytes ≡ b.max_source_bytes)
    × (a.max_estimated_tokens ≡ b.max_estimated_tokens)
    × (a.max_depth ≡ b.max_depth)
    × (a.max_work_units ≡ b.max_work_units)
    × (a.uncertainty_reserve_percent ≡ b.uncertainty_reserve_percent)

sealed-injective :
    (a b : DeepSemanticBudget)
    → InBounds a
    → InBounds b
    → (sealed a).fed ≡ (sealed b).fed
    → Agree a b
sealed-injective a b p q h =
    let (reserve, h1) =
      u64-injective a.uncertainty_reserve_percent b.uncertainty_reserve_percent _ _
        (omega (arith, p.reserve)) (omega (arith, q.reserve)) h in
    let (work, h2) =
      u64-injective a.max_work_units b.max_work_units _ _ (omega (arith, p.work_units))
        (omega (arith, q.work_units)) h1 in
    let (depth, h3) =
      u64-injective a.max_depth b.max_depth _ _ (omega (arith, p.depth)) (omega (arith, q.depth))
        h2 in
    let (tokens, h4) =
      u64-injective a.max_estimated_tokens b.max_estimated_tokens _ _ (omega (arith, p.tokens))
        (omega (arith, q.tokens)) h3 in
    let (source, h5) =
      u64-injective a.max_source_bytes b.max_source_bytes _ _ (omega (arith, p.source_bytes))
        (omega (arith, q.source_bytes)) h4 in
    let (records, h6) =
      u64-injective a.max_records b.max_records _ _ (omega (arith, p.records))
        (omega (arith, q.records)) h5 in
    (records, source, tokens, depth, work, reserve)

module _ (hash : List ℕ → Text) where
  validate_budget_lem :
      (b : DeepSemanticBudget)
      → validate_budget hash b ≡ ok tt
      → InBounds b × (b.budget_digest ≡ hash (sealed b).fed)
  unfolding validate_budget expected_digest finish
  validate_budget_lem b h =
      ground
        (arith, validate_values-InBounds b, text_eq_sound b.budget_digest (hash (sealed b).fed))

  Agree-eq : (a b : DeepSemanticBudget) → a.budget_digest ≡ b.budget_digest → Agree a b → a ≡ b
  Agree-eq a b e h = ground arith

  -- Two budgets that pass their checks and carry the same digest are the same in every limit, or
  -- else exhibit a collision of the hash function: the encoding of the limits loses nothing.
  pub digest-seals :
      (a b : DeepSemanticBudget)
      → validate_budget hash a ≡ ok tt
      → validate_budget hash b ≡ ok tt
      → a.budget_digest ≡ b.budget_digest
      → (a ≡ b) ⊎ Collision hash
  digest-seals a b p q e =
      let (in_a, digest_a) = validate_budget_lem a p in
      let (in_b, digest_b) = validate_budget_lem b q in
      elim (equal_or_Collision hash (sealed a).fed (sealed b).fed (sym digest_a ∙ e ∙ digest_b)) [
        | inl same ↦ inl (Agree-eq a b e (sealed-injective a b in_a in_b same))
        | inr collision ↦ inr collision
      ]
