-- ===== src/Lease/Holders.antt =====
-- Who holds the lease of a workspace, before and after each change of the table of src/catalogue.rs.
use workspace_atlas.Common.{
  text_eq-swap, Bool, false, ◌&&◌, List, [], ◌∷◌, Option, none, some, Text, text_eq, text_eq_sound,
  if◌then◌else◌, Bool-cases, inl, inr, ◌≡◌, refl, ap, ◌∙◌, arith,
}
use mathlib.Core.Path.{subst}
use workspace_atlas.Lease.Rows.{Lease, held_by, lease_of, upsert, update_held, delete_held}

abbrev pub holder_in : Option Lease → Option Text
holder_in none = none
holder_in (some row) = some row.holder_id

-- The abstract view of the table: a holder for each workspace that has one.
abbrev pub holder? : Text → List Lease → Option Text
holder? workspace rows = holder_in (lease_of workspace rows)

-- No two rows have one key.
abbrev pub Single : List Lease → Type 0
Single [] = Unit
Single (row ∷ rows) = (holder? row.workspace_id rows ≡ none) × Single rows

-- The holder of a row that is written: the one that is there, if any.
abbrev pub kept_or : Option Text → Text → Text
kept_or none holder = holder
kept_or (some old) holder = old

abbrev pub names : Option Text → Text → Bool
names none holder = false
names (some old) holder = text_eq old holder

pub holder?-upsert :
    (workspace : Text) (new : Lease) (rows : List Lease)
    → holder? workspace (upsert new rows) ≡ (
        if text_eq new.workspace_id workspace
        then some (kept_or (holder? workspace rows) new.holder_id)
        else holder? workspace rows)
unfolding lease_of upsert
holder?-upsert w new [] = ground arith
holder?-upsert w new (row ∷ rows) = elim (Bool-cases (text_eq row.workspace_id new.workspace_id)) [
  | inl e ↦
      let same = ap (λ k. text_eq k w) (text_eq_sound row.workspace_id new.workspace_id e) in
      ground arith
  | inr e ↦ elim (Bool-cases (text_eq new.workspace_id w)) [
    | inl f ↦
        let other : text_eq row.workspace_id w ≡ false =
          subst (λ k. text_eq row.workspace_id k ≡ false) (text_eq_sound new.workspace_id w f) e in
        ground (arith, holder?-upsert w new rows)
    | inr f ↦ ground (arith, holder?-upsert w new rows)
  ]
]

holder?-nil : (workspace : Text) → holder? workspace [] ≡ none
unfolding lease_of
holder?-nil workspace = refl

pub Single-upsert : (new : Lease) (rows : List Lease) → Single rows → Single (upsert new rows)
unfolding upsert
Single-upsert new [] s = (holder?-nil new.workspace_id, tt)
Single-upsert new (row ∷ rows) s = elim (Bool-cases (text_eq row.workspace_id new.workspace_id)) [
  | inl e ↦ rw e s
  | inr e ↦
      let other = text_eq-swap row.workspace_id new.workspace_id in
      rw e (ground (arith, holder?-upsert row.workspace_id new rows), Single-upsert new rows s.1)
]

pub holder?-update_held :
    (workspace w h : Text) (change : Lease → Lease) (rows : List Lease)
    → ((row : Lease)
        → ((change row).workspace_id ≡ row.workspace_id) × ((change row).holder_id ≡ row.holder_id))
    → holder? workspace (update_held w h change rows) ≡ holder? workspace rows
unfolding lease_of update_held
holder?-update_held workspace w h change [] keeps = refl
holder?-update_held workspace w h change (row ∷ rows) keeps =
    let kept = keeps row in
    let key = ap (λ k. text_eq k workspace) kept.0 in
    ground (arith, holder?-update_held workspace w h change rows keeps)

pub Single-update_held :
    (w h : Text) (change : Lease → Lease) (rows : List Lease)
    → ((row : Lease)
        → ((change row).workspace_id ≡ row.workspace_id) × ((change row).holder_id ≡ row.holder_id))
    → Single rows
    → Single (update_held w h change rows)
unfolding update_held
Single-update_held w h change [] keeps s = tt
Single-update_held w h change (row ∷ rows) keeps s =
    let kept = keeps row in
    let rest = Single-update_held w h change rows keeps s.1 in
    elim (Bool-cases (held_by w h row)) [
      | inl e ↦
          rw (e, kept.0, holder?-update_held row.workspace_id w h change rows keeps) (s.0, rest)
      | inr e ↦ rw (e, holder?-update_held row.workspace_id w h change rows keeps) (s.0, rest)
    ]

-- A deletion takes the lease from the holder that it names, and from no other.
pub holder?-delete_held :
    (workspace w h : Text) (rows : List Lease)
    → Single rows
    → holder? workspace (delete_held w h rows) ≡ (
        if text_eq w workspace && names (holder? workspace rows) h
        then none
        else holder? workspace rows)
unfolding lease_of delete_held
holder?-delete_held workspace w h [] s = ground arith
holder?-delete_held workspace w h (row ∷ rows) s =
    let ih = holder?-delete_held workspace w h rows s.1 in
    elim (Bool-cases (text_eq row.workspace_id w)) [
      | inl e ↦
          let same = ap (λ k. text_eq k workspace) (text_eq_sound row.workspace_id w e) in
          elim (Bool-cases (text_eq w workspace)) [
            | inl f ↦
                let gone : holder? workspace rows ≡ none =
                  subst (λ k. holder? k rows ≡ none)
                    (text_eq_sound row.workspace_id w e ∙ text_eq_sound w workspace f) s.0 in
                ground arith
            | inr f ↦ ground arith
          ]
      | inr e ↦ elim (Bool-cases (text_eq w workspace)) [
        | inl f ↦
            let other : text_eq row.workspace_id workspace ≡ false =
              subst (λ k. text_eq row.workspace_id k ≡ false) (text_eq_sound w workspace f) e in
            ground arith
        | inr f ↦ ground arith
      ]
    ]

pub Single-delete_held :
    (w h : Text) (rows : List Lease) → Single rows → Single (delete_held w h rows)
unfolding delete_held
Single-delete_held w h [] s = tt
Single-delete_held w h (row ∷ rows) s = elim (Bool-cases (held_by w h row)) [
  | inl e ↦ rw e (Single-delete_held w h rows s.1)
  | inr e ↦ rw e (
    holder?-delete_held row.workspace_id w h rows s.1 ∙ rw s.0 (ground arith),
    Single-delete_held w h rows s.1,
  )
]
