-- ===== src/Catalogue/Activated.antt =====
-- What `activate_candidate` (src/generation.rs) has done when it succeeds.
use workspace_atlas.Common.{
  Bool, true, false, List, [], ◌∷◌, Option, some, Text, text_eq, text_eq_sound, ok, ◌>>◌, >>=-eq-ok,
  ◌≡◌, refl, ◌∙◌, arith, any, All, Bool-cases, inl, inr, Option-cases,
}
use workspace_atlas.Catalogue.Tables.{
  Generation, Workspace, Catalogue, update_where, find, is_candidate,
}
use workspace_atlas.Catalogue.Generations.{
  has_id, is_candidate_row, is_committed_row, verify_candidate_committable, commit_row, with_commit,
  set_active, activate_candidate,
}
use workspace_atlas.Catalogue.Sessions.{reconcile_active_legacy_sessions}
use workspace_atlas.Catalogue.Final.{activate_candidate-generations, reconcile-generations}

abbrev pub is_workspace : Text → Workspace → Bool
is_workspace workspace w = text_eq w.workspace_id workspace

-- Every row of the workspace points to the generation.
abbrev pub Pointing : Text → Text → List Workspace → Type 0
Pointing workspace id =
    All (λ (w : Workspace). is_workspace workspace w ≡ true → w.active_generation_id ≡ some id)

abbrev set_pointer : Text → Text → Workspace → Workspace
set_pointer now id w = record w { active_generation_id = some id; updated_at = now }

Pointing-update_where :
    (now workspace id : Text) (ws : List Workspace)
    → Pointing workspace id (update_where (is_workspace workspace) (set_pointer now id) ws)
unfolding update_where
Pointing-update_where now workspace id [] = tt
Pointing-update_where now workspace id (w ∷ ws) =
    (ground arith, Pointing-update_where now workspace id ws)

others-update_where :
    (now workspace id other : Text) (ws : List Workspace)
    → text_eq workspace other ≡ false
    → find (is_workspace other) (update_where (is_workspace workspace) (set_pointer now id) ws)
      ≡ find (is_workspace other) ws
unfolding update_where find
others-update_where now workspace id other [] apart = refl
others-update_where now workspace id other (w ∷ ws) apart =
    let rest = others-update_where now workspace id other ws apart in
    elim (Bool-cases (text_eq w.workspace_id workspace)) [
      | inl hit ↦
          let miss : text_eq w.workspace_id other ≡ false =
            rw (text_eq_sound w.workspace_id workspace hit) apart in
          rw (hit, miss) rest
      | inr miss ↦ ground arith
    ]

-- The candidate that was checked is committed by the update.
committed-after :
    (now workspace id : Text) (tree : Option Text) (gs : List Generation) (g : Generation)
    → find (has_id id) gs ≡ some g
    → text_eq g.workspace_id workspace ≡ true
    → is_candidate g.state ≡ true
    → any
        (is_committed_row workspace id)
        (update_where (is_candidate_row id) (commit_row now tree) gs)
      ≡ true
unfolding find update_where
committed-after now workspace id tree [] g h own candidate = absurd (ground arith)
committed-after now workspace id tree (k ∷ gs) g h own candidate =
    ground (arith, committed-after now workspace id tree gs g)

verify-found :
    (c : Catalogue) (workspace id : Text)
    → verify_candidate_committable c workspace id ≡ ok tt
    → (g : Generation) × (find (has_id id) c.generations ≡ some g)
      × (text_eq g.workspace_id workspace ≡ true)
      × (is_candidate g.state ≡ true)
unfolding verify_candidate_committable
verify-found c workspace id h = elim (Option-cases (find (has_id id) c.generations)) [
  | inl missing ↦ absurd (ground arith)
  | inr (g, found) ↦ (g, found, ground arith, ground arith)
]

-- An activation that succeeds has committed the candidate for its workspace, points the workspace to
-- it, and leaves every other workspace as it was.
pub activate_candidate-Active :
    (now : Text) (c : Catalogue) (workspace id : Text) (tree : Option Text) (c' : Catalogue)
    → activate_candidate now c workspace id tree ≡ ok c'
    → (any (is_committed_row workspace id) c'.generations ≡ true)
      × Pointing workspace id c'.workspaces
      × ((other : Text)
          → text_eq workspace other ≡ false
          → find (is_workspace other) c'.workspaces ≡ find (is_workspace other) c.workspaces)
unfolding activate_candidate
activate_candidate-Active now c workspace id tree c' h =
    let committed = with_commit now c id tree in
    let verify = verify_candidate_committable c workspace id in
    let (c1, activated, reconciled) =
      >>=-eq-ok (verify >> set_active now workspace id committed)
        (λ d. reconcile_active_legacy_sessions d workspace id) h in
    let (_, verified, set) =
      >>=-eq-ok verify (λ done. set_active now workspace id committed) activated in
    let (g, found, own, candidate) = verify-found c workspace id verified in
    let kept : c1.workspaces
        ≡ update_where (is_workspace workspace) (set_pointer now id) c.workspaces =
      ground arith in
    let rows : c'.workspaces
        ≡ update_where (is_workspace workspace) (set_pointer now id) c.workspaces =
      (reconcile-generations c1 workspace id c' reconciled).1 ∙ kept in
    (
      rw (activate_candidate-generations now c workspace id tree c' h)
          (committed-after now workspace id tree c.generations g found own candidate),
      rw rows (Pointing-update_where now workspace id c.workspaces),
      λ other apart. rw rows (others-update_where now workspace id other c.workspaces apart),
    )
