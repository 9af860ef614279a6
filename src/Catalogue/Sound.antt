-- ===== src/Catalogue/Sound.antt =====
-- The invariant of the catalogue under the operations of src/generation.rs and src/task_session.rs:
-- an active generation is committed, and sequence numbers grow.
use workspace_atlas.Common.{
  ◌<◌, true, false, List, [], ◌∷◌, Option, none, some, Text, text_eq, ◌≡◌, refl, arith, any, All,
  Bool-cases, inl, inr,
}
use workspace_atlas.Catalogue.Tables.{
  GenerationState, Generation, Workspace, Catalogue, update_where, is_candidate, is_committed,
}
use workspace_atlas.Catalogue.Generations.{is_candidate_row, is_committed_row, max_sequence}

-- The active generation of a workspace, if it has one, is a committed row of its own.
abbrev pub PointsTo : List Generation → Text → Option Text → Type 0
PointsTo generations workspace none = Unit {0}
PointsTo generations workspace (some id) = any (is_committed_row workspace id) generations ≡ true

abbrev pub ActiveSound : List Generation → List Workspace → Type 0
ActiveSound generations =
    All (λ (w : Workspace). PointsTo generations w.workspace_id w.active_generation_id)

-- Rows stand before those that are older: of two of one workspace, the first has the larger number.
abbrev pub Older : Generation → Generation → Type 0
Older g h = text_eq h.workspace_id g.workspace_id ≡ true → h.sequence_no < g.sequence_no

abbrev pub Newest : List Generation → Type 0
Newest [] = Unit {0}
Newest (g ∷ gs) = All (Older g) gs × Newest gs

abbrev pub IsSound : Catalogue → Type 0
IsSound c = ActiveSound c.generations c.workspaces × Newest c.generations

-- A change that leaves the key columns alone.
abbrev pub KeepsKeys : (Generation → Generation) → Type 0
KeepsKeys change =
    (g : Generation)
    → ((change g).generation_id ≡ g.generation_id)
      × ((change g).workspace_id ≡ g.workspace_id)
      × ((change g).sequence_no ≡ g.sequence_no)

not_both : (s : GenerationState) → is_committed s ≡ true → is_candidate s ≡ false
not_both GenerationState.candidate h = cc
not_both GenerationState.committed h = refl
not_both GenerationState.failed h = refl
not_both GenerationState.abandoned h = refl

module _ (id : Text) (change : Generation → Generation) where
  -- An update of a candidate leaves committed rows as they are.
  pub committed-update_where :
      (workspace key : Text) (gs : List Generation)
      → any (is_committed_row workspace key) gs ≡ true
      → any (is_committed_row workspace key) (update_where (is_candidate_row id) change gs) ≡ true
  unfolding update_where
  committed-update_where workspace key [] h = h
  committed-update_where workspace key (g ∷ gs) h =
      ground (arith, not_both g.state, committed-update_where workspace key gs)

  module _ (keys : KeepsKeys change) where
    Older-update_where :
        (g : Generation) (gs : List Generation)
        → All (Older g) gs
        → All (Older g) (update_where (is_candidate_row id) change gs)
    unfolding update_where
    Older-update_where g [] a = tt
    Older-update_where g (h ∷ hs) a = ground (arith, keys h, Older-update_where g hs)

    Older-change :
        (g : Generation) (gs : List Generation) → All (Older g) gs → All (Older (change g)) gs
    Older-change g [] a = tt
    Older-change g (h ∷ hs) a = (ground (arith, keys g), Older-change g hs a.1)

    pub Newest-update_where :
        (gs : List Generation) → Newest gs → Newest (update_where (is_candidate_row id) change gs)
    unfolding update_where
    Newest-update_where [] n = tt
    Newest-update_where (g ∷ gs) n = elim (Bool-cases (is_candidate_row id g)) [
      | inl hit ↦ rw hit (
        Older-change g (update_where (is_candidate_row id) change gs) (Older-update_where g gs n.0),
        Newest-update_where gs n.1,
      )
      | inr miss ↦ rw miss (Older-update_where g gs n.0, Newest-update_where gs n.1)
    ]

  PointsTo-update_where :
      (gs : List Generation) (workspace : Text) (active : Option Text)
      → PointsTo gs workspace active
      → PointsTo (update_where (is_candidate_row id) change gs) workspace active
  PointsTo-update_where gs workspace none p = tt
  PointsTo-update_where gs workspace (some key) p = committed-update_where workspace key gs p

  pub ActiveSound-update_where :
      (gs : List Generation) (ws : List Workspace)
      → ActiveSound gs ws
      → ActiveSound (update_where (is_candidate_row id) change gs) ws
  ActiveSound-update_where gs [] a = tt
  ActiveSound-update_where gs (w ∷ ws) a = (
    PointsTo-update_where gs w.workspace_id w.active_generation_id a.0,
    ActiveSound-update_where gs ws a.1,
  )

-- The new number is above every one of the workspace.
pub Older-max_sequence :
    (g : Generation) (gs : List Generation)
    → max_sequence g.workspace_id gs < g.sequence_no
    → All (Older g) gs
unfolding max_sequence
Older-max_sequence g [] h = tt
Older-max_sequence g (k ∷ gs) h = ground (arith, Older-max_sequence g gs)
