-- ===== src/Catalogue/Reachable.antt =====
-- Every catalogue that the operations of src/generation.rs and src/task_session.rs reach is sound.
use workspace_atlas.Common.{
  ℕ, true, List, [], ◌∷◌, Option, none, some, Text, text_eq, text_eq_sound, ok, ◌>>◌, >>=-eq-ok,
  ◌≡◌, refl, arith, any, Bool-cases, inl, inr,
}
use workspace_atlas.Catalogue.Tables.{
  TriggerKind, TaskSessionState, Generation, Workspace, Catalogue, update_where,
}
use workspace_atlas.Catalogue.Generations.{
  is_candidate_row, is_committed_row, candidate_row, begin_candidate, verify_candidate_committable,
  commit_row, with_commit, set_active, activate_candidate, update_candidate, fail_candidate,
  abandon_candidate, failed_row, abandoned_row,
}
use workspace_atlas.Catalogue.Sessions.{transition_task_session, reconcile_active_legacy_sessions}
use workspace_atlas.Catalogue.Sound.{
  IsSound, ActiveSound, PointsTo, Newest, Older-max_sequence, ActiveSound-update_where,
  Newest-update_where, KeepsKeys,
}

ActiveSound-cons :
    (g : Generation) (gs : List Generation) (ws : List Workspace)
    → ActiveSound gs ws
    → ActiveSound (g ∷ gs) ws
ActiveSound-cons g gs [] a = tt
ActiveSound-cons g gs (w ∷ ws) a = (points w.active_generation_id a.0, ActiveSound-cons g gs ws a.1)
  where
    points :
        (active : Option Text)
        → PointsTo gs w.workspace_id active
        → PointsTo (g ∷ gs) w.workspace_id active
    points none p = tt
    points (some id) p = ground arith

begin_candidate-IsSound :
    (hash : List ℕ → Text) (now : Text) (c : Catalogue) (workspace : Text) (trigger : TriggerKind)
    (providers schema : Text) (g : Generation) (c' : Catalogue)
    → begin_candidate hash now c workspace trigger providers schema ≡ ok (g, c')
    → IsSound c
    → IsSound c'
unfolding begin_candidate
begin_candidate-IsSound hash now c workspace trigger providers schema g c' h s =
    let row = candidate_row hash now c.generations workspace trigger providers schema in
    let same : c' ≡ record c { generations = row ∷ c.generations } = ground arith in
    let newest : Newest (row ∷ c.generations) =
      (Older-max_sequence row c.generations (omega arith), s.1) in
    rw same (ActiveSound-cons row c.generations c.workspaces s.0, newest)

update_candidate-IsSound :
    (c : Catalogue) (id : Text) (change : Generation → Generation) (c' : Catalogue)
    → KeepsKeys change
    → update_candidate c id change ≡ ok c'
    → IsSound c
    → IsSound c'
update_candidate-IsSound c id change c' keys h s =
    let same : c'
        ≡ record c { generations = update_where (is_candidate_row id) change c.generations } =
      ground arith in
    rw same (
      ActiveSound-update_where id change c.generations c.workspaces s.0,
      Newest-update_where id change keys c.generations s.1,
    )

transition-IsSound :
    (c : Catalogue) (id : Text) (to : TaskSessionState) (c' : Catalogue)
    → transition_task_session c id to ≡ ok c'
    → IsSound c
    → IsSound c'
unfolding transition_task_session
transition-IsSound c id to c' h s = ground arith

reconcile-IsSound :
    (c : Catalogue) (workspace id : Text) (c' : Catalogue)
    → reconcile_active_legacy_sessions c workspace id ≡ ok c'
    → IsSound c
    → IsSound c'
unfolding reconcile_active_legacy_sessions
reconcile-IsSound c workspace id c' h s = ground arith

-- The rows of a workspace that is made active point to the row that the trigger has seen.
ActiveSound-set :
    (now workspace id : Text) (gs : List Generation) (ws : List Workspace)
    → (any (λ (w : Workspace). text_eq w.workspace_id workspace) ws ≡ true
        → any (is_committed_row workspace id) gs ≡ true)
    → ActiveSound gs ws
    → ActiveSound gs (
        update_where
          (λ (w : Workspace). text_eq w.workspace_id workspace)
          (λ (w : Workspace). record w { active_generation_id = some id; updated_at = now })
          ws)
unfolding update_where
ActiveSound-set now workspace id gs [] there a = tt
ActiveSound-set now workspace id gs (w ∷ ws) there a =
    let rest = ActiveSound-set now workspace id gs ws (λ h. there (ground arith)) a.1 in
    elim (Bool-cases (text_eq w.workspace_id workspace)) [
      | inl hit ↦
          rw hit (rw (text_eq_sound w.workspace_id workspace hit) (there (ground arith)), rest)
      | inr miss ↦ rw miss (a.0, rest)
    ]

set_active-IsSound :
    (now workspace id : Text) (c c' : Catalogue)
    → set_active now workspace id c ≡ ok c'
    → IsSound c
    → IsSound c'
set_active-IsSound now workspace id c c' h s =
    let there : any (λ (w : Workspace). text_eq w.workspace_id workspace) c.workspaces ≡ true
        → any (is_committed_row workspace id) c.generations ≡ true =
      λ p. ground arith in
    let same : c' ≡ record c {
      workspaces =
          update_where (λ (w : Workspace). text_eq w.workspace_id workspace)
            (λ (w : Workspace). record w { active_generation_id = some id; updated_at = now })
            c.workspaces;
    } =
      ground arith in
    rw same (ActiveSound-set now workspace id c.generations c.workspaces there s.0, s.1)

activate_candidate-IsSound :
    (now : Text) (c : Catalogue) (workspace id : Text) (tree : Option Text) (c' : Catalogue)
    → activate_candidate now c workspace id tree ≡ ok c'
    → IsSound c
    → IsSound c'
unfolding activate_candidate
activate_candidate-IsSound now c workspace id tree c' h s =
    let committed = with_commit now c id tree in
    let verify = verify_candidate_committable c workspace id in
    let (c1, activated, reconciled) =
      >>=-eq-ok (verify >> set_active now workspace id committed)
        (λ d. reconcile_active_legacy_sessions d workspace id) h in
    let (_, _, set) = >>=-eq-ok verify (λ done. set_active now workspace id committed) activated in
    reconcile-IsSound c1 workspace id c' reconciled (
      set_active-IsSound now workspace id committed c1 set (
        ActiveSound-update_where id (commit_row now tree) c.generations c.workspaces s.0,
        Newest-update_where id (commit_row now tree) (λ g. (refl, refl, refl)) c.generations s.1,
      ))

-- One operation that succeeds, with the time and the hash of the moment.
pub data Step : Catalogue → Catalogue → Type 0 where
  begun :
      {c c' : Catalogue} (hash : List ℕ → Text) (now workspace providers schema : Text)
      (trigger : TriggerKind) (g : Generation)
      → begin_candidate hash now c workspace trigger providers schema ≡ ok (g, c')
      → Step c c'
  activated :
      {c c' : Catalogue} (now workspace id : Text) (tree : Option Text)
      → activate_candidate now c workspace id tree ≡ ok c'
      → Step c c'
  failed :
      {c c' : Catalogue} (id code message : Text)
      → fail_candidate c id code message ≡ ok c'
      → Step c c'
  abandoned : {c c' : Catalogue} (id : Text) → abandon_candidate c id ≡ ok c' → Step c c'
  transitioned :
      {c c' : Catalogue} (id : Text) (to : TaskSessionState)
      → transition_task_session c id to ≡ ok c'
      → Step c c'

pub data Reach (c : Catalogue) : Catalogue → Type 0 where
  here : Reach c c
  next : {d e : Catalogue} → Reach c d → Step d e → Reach c e

Step-IsSound : {c c' : Catalogue} → Step c c' → IsSound c → IsSound c'
unfolding fail_candidate abandon_candidate
Step-IsSound {c} {c'} (begun hash now workspace providers schema trigger g h) s =
    begin_candidate-IsSound hash now c workspace trigger providers schema g c' h s
Step-IsSound {c} {c'} (activated now workspace id tree h) s =
    activate_candidate-IsSound now c workspace id tree c' h s
Step-IsSound {c} {c'} (failed id code message h) s =
    update_candidate-IsSound c id (failed_row code message) c' (λ g. (refl, refl, refl)) h s
Step-IsSound {c} {c'} (abandoned id h) s =
    update_candidate-IsSound c id abandoned_row c' (λ g. (refl, refl, refl)) h s
Step-IsSound {c} {c'} (transitioned id to h) s = transition-IsSound c id to c' h s

-- However candidates are begun, activated, failed and abandoned and sessions move on, from a sound
-- catalogue only sound ones are reached: the active generation of every workspace is a committed
-- generation of that workspace, and within a workspace each generation that was begun later has the
-- larger sequence number.
pub Reach-IsSound : {c c' : Catalogue} → IsSound c → Reach c c' → IsSound c'
Reach-IsSound s here = s
Reach-IsSound s (next r st) = Step-IsSound st (Reach-IsSound s r)
