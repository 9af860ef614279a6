-- ===== src/Catalogue/Begun.antt =====
-- A candidate from its beginning to its activation (src/generation.rs, src/task_session.rs).
use workspace_atlas.Common.{
  ℕ, ◌+◌, true, false, ◌&&◌, List, [], ◌∷◌, Option, some, Text, text_eq, text_eq_refl, ok, ◌≡◌,
  refl, ap, ◌∙◌, arith, any, All, ◌==◌,
}
use workspace_atlas.Catalogue.Tables.{
  TriggerKind, Generation, Workspace, Catalogue, update_where, find, is_candidate, generation_id,
}
use workspace_atlas.Catalogue.Generations.{
  has_id, is_candidate_row, is_committed_row, candidate_row, max_sequence, begin_candidate,
  verify_candidate_committable, commit_row, with_commit, set_active, activate_candidate,
}
use workspace_atlas.Catalogue.Sessions.{reconcile_active_legacy_sessions}
use workspace_atlas.Catalogue.Sound.{Older, Older-max_sequence}
use workspace_atlas.Catalogue.Activated.{Pointing, is_workspace, activate_candidate-Active}
use workspace_atlas.Catalogue.Reconciled.{SessionKeys, reconcile-total}

sequence-new :
    (g : Generation) (gs : List Generation)
    → All (Older g) gs
    → any
        (λ (h : Generation).
          text_eq h.workspace_id g.workspace_id && h.sequence_no == g.sequence_no)
        gs
      ≡ false
sequence-new g [] older = refl
sequence-new g (h ∷ gs) older = ground (arith, sequence-new g gs)

activate-steps :
    (later : Text) (c : Catalogue) (workspace id : Text) (tree : Option Text) (c1 c2 : Catalogue)
    → verify_candidate_committable c workspace id ≡ ok tt
    → set_active later workspace id (with_commit later c id tree) ≡ ok c1
    → reconcile_active_legacy_sessions c1 workspace id ≡ ok c2
    → activate_candidate later c workspace id tree ≡ ok c2
unfolding activate_candidate
activate-steps later c workspace id tree c1 c2 verified set reconciled =
    rw (verified, set) reconciled

verify-new :
    (c : Catalogue) (workspace : Text) (g : Generation)
    → text_eq g.workspace_id workspace ≡ true
    → is_candidate g.state ≡ true
    → verify_candidate_committable
        (record c { generations = g ∷ c.generations })
        workspace
        g.generation_id
      ≡ ok tt
unfolding verify_candidate_committable find
verify-new c workspace g own candidate =
    rw (text_eq_refl g.generation_id, own, candidate, verify_candidate_committable) refl

commit-new :
    (later : Text) (tree : Option Text) (g : Generation) (gs : List Generation)
    → is_candidate g.state ≡ true
    → (older : List Generation) × (update_where
          (is_candidate_row g.generation_id)
          (commit_row later tree)
          (g ∷ gs)
        ≡ commit_row later tree g ∷ older)
unfolding update_where
commit-new later tree g gs candidate = (
  update_where (is_candidate_row g.generation_id) (commit_row later tree) gs,
  rw (text_eq_refl g.generation_id, candidate) refl,
)

-- The newest row is the candidate.
activate-new :
    (later : Text) (c : Catalogue) (workspace : Text) (tree : Option Text) (g : Generation)
    → text_eq g.workspace_id workspace ≡ true
    → is_candidate g.state ≡ true
    → SessionKeys c.sessions
    → (c'' : Catalogue) × (activate_candidate later
          (record c { generations = g ∷ c.generations })
          workspace
          g.generation_id
          tree
        ≡ ok c'')
unfolding find
activate-new later c workspace tree g own candidate keys =
    let id = g.generation_id in
    let mine = text_eq_refl id in
    let (older, committed) = commit-new later tree g c.generations candidate in
    let c1 = record c {
      generations = commit_row later tree g ∷ older;
      workspaces =
          update_where (is_workspace workspace)
            (λ (w : Workspace). record w { active_generation_id = some id; updated_at = later })
            c.workspaces;
    } in
    let set : set_active later workspace id
          (record c { generations = commit_row later tree g ∷ older })
        ≡ ok c1 =
      ground arith in
    let (c2, reconciled) =
      reconcile-total c1 workspace id (commit_row later tree g) (rw (mine, own) refl) keys in
    (
      c2,
      activate-steps later (record c { generations = g ∷ c.generations }) workspace id tree c1 c2
          (verify-new c workspace g own candidate)
          (ap (λ gs. set_active later workspace id (record c { generations = gs })) committed ∙ set)
          reconciled,
    )

abbrev pub next_id : (List ℕ → Text) → Catalogue → Text → Text
next_id hash c workspace = generation_id hash workspace (max_sequence workspace c.generations + 1)

-- A candidate that is begun in a registered workspace can be activated: if the hash gives it a new
-- identifier and sessions have distinct ones, begin_candidate and then activate_candidate succeed, and
-- afterwards the generation is committed, the workspace points to it, and every other workspace is as it
-- was.
pub begin-activate :
    (hash : List ℕ → Text) (now later : Text) (c : Catalogue) (workspace : Text)
    (trigger : TriggerKind) (providers schema : Text) (tree : Option Text)
    → any (is_workspace workspace) c.workspaces ≡ true
    → any (has_id (next_id hash c workspace)) c.generations ≡ false
    → SessionKeys c.sessions
    → (g : Generation) × (c' : Catalogue) × (c'' : Catalogue) × (begin_candidate hash now c
          workspace trigger providers schema
        ≡ ok (g, c'))
      × (activate_candidate later c' workspace (next_id hash c workspace) tree ≡ ok c'')
      × (any (is_committed_row workspace (next_id hash c workspace)) c''.generations ≡ true)
      × Pointing workspace (next_id hash c workspace) c''.workspaces
      × ((other : Text)
          → text_eq workspace other ≡ false
          → find (is_workspace other) c''.workspaces ≡ find (is_workspace other) c.workspaces)
unfolding begin_candidate
begin-activate hash now later c workspace trigger providers schema tree registered new keys =
    let g = candidate_row hash now c.generations workspace trigger providers schema in
    let c' = record c { generations = g ∷ c.generations } in
    let (c'', activated) =
      activate-new later c workspace tree g (text_eq_refl workspace) refl keys in
    let (committed, points, others) =
      activate_candidate-Active later c' workspace g.generation_id tree c'' activated in
    let number = sequence-new g c.generations (Older-max_sequence g c.generations (omega arith)) in
    (g, c', c'', rw (registered, new, number) refl, activated, committed, points, others)
