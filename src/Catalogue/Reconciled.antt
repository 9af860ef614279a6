-- ===== src/Catalogue/Reconciled.antt =====
-- Sessions under `reconcile_active_legacy_sessions` (src/task_session.rs).
use workspace_atlas.Common.{
  ℕ, Bool, true, false, ◌&&◌, List, [], ◌∷◌, some, Text, text_eq, text_eq_sound, text_eq_refl,
  text_eq-swap, ok, ◌≡◌, refl, ◌∙◌, arith, any, All, Bool-cases, inl, inr,
}
use workspace_atlas.Catalogue.Tables.{
  TaskSessionState, Generation, TaskSession, Catalogue, update_where, find, count_where,
}
use workspace_atlas.Catalogue.Sessions.{
  is_active, is_session, is_active_session, is_reconcilable, session_ids, set_state, reconcile_each,
  reconcile_active_legacy_sessions,
}

-- The key of the sessions is one.
abbrev pub SessionKeys : List TaskSession → Type 0
SessionKeys [] = Unit
SessionKeys (s ∷ ss) = (any (is_session s.task_session_id) ss ≡ false) × SessionKeys ss

abbrev OnceActive : List TaskSession → List Text → Type 0
OnceActive sessions = All (λ id. count_where (is_active_session id) sessions ≡ 1)

abbrev Apart : List Text → Type 0
Apart [] = Unit
Apart (id ∷ ids) = All (λ other. text_eq id other ≡ false) ids × Apart ids

count-reconciled :
    (id other : Text) (sessions : List TaskSession)
    → text_eq id other ≡ false
    → count_where
        (is_active_session other)
        (update_where (is_active_session id) (set_state TaskSessionState.reconciled) sessions)
      ≡ count_where (is_active_session other) sessions
unfolding count_where update_where
count-reconciled id other [] apart = refl
count-reconciled id other (s ∷ ss) apart = elim (Bool-cases (text_eq s.task_session_id id)) [
  | inl e ↦
      let miss : text_eq s.task_session_id other ≡ false =
        rw (text_eq_sound s.task_session_id id e) apart in
      ground (arith, count-reconciled id other ss apart)
  | inr e ↦ ground (arith, count-reconciled id other ss apart)
]

OnceActive-reconciled :
    (id : Text) (sessions : List TaskSession) (ids : List Text)
    → All (λ other. text_eq id other ≡ false) ids
    → OnceActive sessions ids
    → OnceActive
        (update_where (is_active_session id) (set_state TaskSessionState.reconciled) sessions)
        ids
OnceActive-reconciled id sessions [] apart once = tt
OnceActive-reconciled id sessions (other ∷ ids) apart once = (
  count-reconciled id other sessions apart.0 ∙ once.0,
  OnceActive-reconciled id sessions ids apart.1 once.1,
)

reconcile_each-total :
    (ids : List Text) (sessions : List TaskSession)
    → Apart ids
    → OnceActive sessions ids
    → (out : List TaskSession) × (reconcile_each ids sessions ≡ ok out)
unfolding reconcile_each
reconcile_each-total [] sessions apart once = (sessions, refl)
reconcile_each-total (id ∷ ids) sessions apart once =
    let next =
      update_where (is_active_session id) (set_state TaskSessionState.reconciled) sessions in
    let (out, e) =
      reconcile_each-total ids next apart.1
        (OnceActive-reconciled id sessions ids apart.0 once.1) in
    (out, rw once.0 e)

module _ (test : TaskSession → Bool)
    (active : (s : TaskSession) → test s ≡ true → is_active s.state ≡ true) where
  apart-session_ids :
      (key : Text) (ss : List TaskSession)
      → any (is_session key) ss ≡ false
      → All (λ other. text_eq key other ≡ false) (session_ids test ss)
  unfolding session_ids
  apart-session_ids key [] none' = tt
  apart-session_ids key (s ∷ ss) none' =
      let rest = apart-session_ids key ss (ground arith) in
      elim (Bool-cases (test s)) [
        | inl e ↦ rw e (text_eq-swap key s.task_session_id ∙ ground arith, rest)
        | inr e ↦ rw e rest
      ]

  Apart-session_ids : (ss : List TaskSession) → SessionKeys ss → Apart (session_ids test ss)
  unfolding session_ids
  Apart-session_ids [] keys = tt
  Apart-session_ids (s ∷ ss) keys = elim (Bool-cases (test s)) [
    | inl e ↦ rw e (apart-session_ids s.task_session_id ss keys.0, Apart-session_ids ss keys.1)
    | inr e ↦ rw e (Apart-session_ids ss keys.1)
  ]

count-none :
    (key : Text) (ss : List TaskSession)
    → any (is_session key) ss ≡ false
    → count_where (is_active_session key) ss ≡ 0
unfolding count_where
count-none key [] h = refl
count-none key (s ∷ ss) h = ground (arith, count-none key ss)

OnceActive-cons :
    (s : TaskSession) (ss : List TaskSession) (ids : List Text)
    → All (λ other. text_eq s.task_session_id other ≡ false) ids
    → OnceActive ss ids
    → OnceActive (s ∷ ss) ids
unfolding count_where
OnceActive-cons s ss [] apart once = tt
OnceActive-cons s ss (id ∷ ids) apart once = (ground arith, OnceActive-cons s ss ids apart.1 once.1)

OnceActive-session_ids :
    (test : TaskSession → Bool)
    → ((s : TaskSession) → test s ≡ true → is_active s.state ≡ true)
    → (ss : List TaskSession) → SessionKeys ss
    → OnceActive ss (session_ids test ss)
unfolding session_ids count_where
OnceActive-session_ids test active [] keys = tt
OnceActive-session_ids test active (s ∷ ss) keys =
    let apart = apart-session_ids test active s.task_session_id ss keys.0 in
    let rest =
      OnceActive-cons s ss (session_ids test ss) apart
        (OnceActive-session_ids test active ss keys.1) in
    elim (Bool-cases (test s)) [
      | inl e ↦
          let here = count-none s.task_session_id ss keys.0 in
          let mine = text_eq_refl s.task_session_id in
          let awake = active s e in rw e (rw (mine, awake, here) refl, rest)
      | inr e ↦ rw e rest
    ]

is_reconcilable-active :
    (generations : List Generation) (workspace : Text) (n : ℕ) (s : TaskSession)
    → is_reconcilable generations workspace n s ≡ true
    → is_active s.state ≡ true
is_reconcilable-active generations workspace n s h = ground arith

pub reconcile-total :
    (c : Catalogue) (workspace id : Text) (g : Generation)
    → find
        (λ (h : Generation). text_eq h.generation_id id && text_eq h.workspace_id workspace)
        c.generations
      ≡ some g
    → SessionKeys c.sessions
    → (c' : Catalogue) × (reconcile_active_legacy_sessions c workspace id ≡ ok c')
unfolding reconcile_active_legacy_sessions reconcile_each-total
reconcile-total c workspace id g found keys =
    let test = is_reconcilable c.generations workspace g.sequence_no in
    let active = is_reconcilable-active c.generations workspace g.sequence_no in
    let (sessions, done) =
      reconcile_each-total (session_ids test c.sessions) c.sessions
        (Apart-session_ids test active c.sessions keys)
        (OnceActive-session_ids test active c.sessions keys) in
    (record c { sessions = sessions }, rw (found, done, reconcile_active_legacy_sessions) refl)
