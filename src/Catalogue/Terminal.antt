-- ===== src/Catalogue/Terminal.antt =====
-- A task session in a terminal state stays as it is, whatever the operations of
-- src/task_session.rs and src/generation.rs do.
use workspace_atlas.Common.{
  Bool, true, false, ◌&&◌, List, [], ◌∷◌, some, Text, text_eq, text_eq_sound, ok, ◌>>◌, >>=-eq-ok,
  ◌≡◌, refl, sym, ◌∙◌, arith, Bool-cases, inl, inr, Option-cases, Result-cases,
}
use workspace_atlas.Catalogue.Tables.{
  TaskSessionState, Generation, TaskSession, Catalogue, find, update_where,
}
use workspace_atlas.Catalogue.Generations.{
  begin_candidate, verify_candidate_committable, with_commit, set_active, activate_candidate,
  fail_candidate, abandon_candidate,
}
use workspace_atlas.Catalogue.Sessions.{
  is_terminal, is_valid_transition, is_session, set_state, transition_task_session, reconcile_each,
  is_active_session, session_ids, is_reconcilable, reconcile_active_legacy_sessions, is_active,
}
use workspace_atlas.Catalogue.Reachable.{Step, Reach}

-- The row of a session that no update selects.
abbrev Kept : Text → TaskSession → List TaskSession → Type 0
Kept id s sessions = find (is_session id) sessions ≡ some s

Kept-update_where :
    (id : Text) (s : TaskSession) (test : TaskSession → Bool) (to : TaskSessionState)
    (ss : List TaskSession)
    → test s ≡ false
    → Kept id s ss
    → Kept id s (update_where test (set_state to) ss)
unfolding find update_where
Kept-update_where id s test to [] other k = k
Kept-update_where id s test to (x ∷ ss) other k =
    ground (arith, Kept-update_where id s test to ss other)

reconcile_each-Kept :
    (id : Text) (s : TaskSession) (ids : List Text) (ss ss' : List TaskSession)
    → is_active s.state ≡ false
    → reconcile_each ids ss ≡ ok ss'
    → Kept id s ss
    → Kept id s ss'
unfolding reconcile_each
reconcile_each-Kept id s [] ss ss' passive h k = ground arith
reconcile_each-Kept id s (i ∷ ids) ss ss' passive h k =
    reconcile_each-Kept id s ids
      (update_where (is_active_session i) (set_state TaskSessionState.reconciled) ss) ss' passive
      (ground arith)
      (Kept-update_where id s (is_active_session i) TaskSessionState.reconciled ss (ground arith) k)

terminal-passive : (state : TaskSessionState) → is_terminal state ≡ true → is_active state ≡ false
terminal-passive TaskSessionState.active h = sym h
terminal-passive TaskSessionState.created h = refl
terminal-passive TaskSessionState.context_compiled h = refl
terminal-passive TaskSessionState.reconciled h = refl
terminal-passive TaskSessionState.completed h = refl
terminal-passive TaskSessionState.abandoned h = refl
terminal-passive TaskSessionState.failed h = refl

reconcile-Kept :
    (c : Catalogue) (workspace candidate id : Text) (s : TaskSession) (c' : Catalogue)
    → is_active s.state ≡ false
    → reconcile_active_legacy_sessions c workspace candidate ≡ ok c'
    → Kept id s c.sessions
    → Kept id s c'.sessions
unfolding reconcile_active_legacy_sessions
reconcile-Kept c workspace candidate id s c' passive h k =
    elim (Option-cases (
      find
        (λ (g : Generation). text_eq g.generation_id candidate && text_eq g.workspace_id workspace)
        c.generations)) [
          | inl missing ↦ absurd (ground arith)
          | inr (g, found) ↦
              let ids =
                session_ids (is_reconcilable c.generations workspace g.sequence_no) c.sessions in
              elim (Result-cases (reconcile_each ids c.sessions)) [
                | inl (ss, q) ↦
                    ground (arith, reconcile_each-Kept id s ids c.sessions ss passive q k)
                | inr (e, q) ↦ absurd (ground arith)
              ]
        ]

found-id :
    (id : Text) (s : TaskSession) (ss : List TaskSession)
    → find (is_session id) ss ≡ some s
    → text_eq s.task_session_id id ≡ true
unfolding find
found-id id s [] h = absurd (ground arith)
found-id id s (x ∷ ss) h = ground (arith, found-id id s ss)

transition-Kept :
    (c : Catalogue) (other id : Text) (to : TaskSessionState) (s : TaskSession) (c' : Catalogue)
    → is_terminal s.state ≡ true
    → transition_task_session c other to ≡ ok c'
    → Kept id s c.sessions
    → Kept id s c'.sessions
unfolding transition_task_session is_valid_transition
transition-Kept c other id to s c' final h k = elim (Bool-cases (text_eq s.task_session_id other)) [
  | inl hit ↦
      let itself : other ≡ id =
        sym (text_eq_sound s.task_session_id other hit)
        ∙ text_eq_sound s.task_session_id id (found-id id s c.sessions k) in
      let found : find (is_session other) c.sessions ≡ some s = rw itself k in absurd (ground arith)
  | inr miss ↦ elim (Option-cases (find (is_session other) c.sessions)) [
    | inl missing ↦ absurd (ground arith)
    | inr (t, found) ↦
        ground (arith, Kept-update_where id s (is_session other) to c.sessions miss k)
  ]
]

Step-Kept :
    (id : Text) (s : TaskSession)
    → is_terminal s.state ≡ true
    → {c c' : Catalogue} → Step c c'
    → Kept id s c.sessions
    → Kept id s c'.sessions
unfolding begin_candidate fail_candidate abandon_candidate activate_candidate
Step-Kept id s final {c} {c'} (Step.begun hash now workspace providers schema trigger g h) k =
    ground arith
Step-Kept id s final {c} {c'} (Step.activated now workspace candidate tree h) k =
    let committed = with_commit now c candidate tree in
    let verify = verify_candidate_committable c workspace candidate in
    let (c1, activated, reconciled) =
      >>=-eq-ok (verify >> set_active now workspace candidate committed)
        (λ d. reconcile_active_legacy_sessions d workspace candidate) h in
    let (_, _, set) =
      >>=-eq-ok verify (λ done. set_active now workspace candidate committed) activated in
    let kept : c1.sessions ≡ c.sessions = ground arith in
    reconcile-Kept c1 workspace candidate id s c' (terminal-passive s.state final) reconciled
      (rw kept k)
Step-Kept id s final {c} {c'} (Step.failed candidate code message h) k = ground arith
Step-Kept id s final {c} {c'} (Step.abandoned candidate h) k = ground arith
Step-Kept id s final {c} {c'} (Step.transitioned other to h) k =
    transition-Kept c other id to s c' final h k

-- A session that is completed, abandoned or failed keeps its row, whatever catalogue is reached from
-- there by beginning, activating, failing and abandoning generations and by transitions of sessions,
-- its own included.
pub Reach-terminal :
    (id : Text) (s : TaskSession) {c c' : Catalogue}
    → Reach c c'
    → is_terminal s.state ≡ true
    → find (is_session id) c.sessions ≡ some s
    → find (is_session id) c'.sessions ≡ some s
Reach-terminal id s Reach.here final k = k
Reach-terminal id s (Reach.next r st) final k =
    Step-Kept id s final st (Reach-terminal id s r final k)
