-- ===== src/Catalogue/Sessions.antt =====
-- The lifecycle of task sessions (src/task_session.rs): which transitions are legal, a transition,
-- and the reconciliation of sessions when a generation is activated.
use workspace_atlas.Errors.{AtlasError}
use workspace_atlas.Common.{
  ℕ, Bool, true, false, not, ◌&&◌, List, [], ◌∷◌, ◌++◌, Option, none, some, Text, codes, text_eq,
  Result, ok, err, ◌>>=◌, ◌>>◌, refuse_if, if◌then◌else◌, ltb, ◌==◌, any,
}
use workspace_atlas.Catalogue.Tables.{
  TaskSessionState, Generation, TaskSession, Catalogue, find, update_where, count_where,
}

unfoldable pub state_str : TaskSessionState → Text
state_str TaskSessionState.created = codes "created"
state_str TaskSessionState.context_compiled = codes "context_compiled"
state_str TaskSessionState.active = codes "active"
state_str TaskSessionState.reconciled = codes "reconciled"
state_str TaskSessionState.completed = codes "completed"
state_str TaskSessionState.abandoned = codes "abandoned"
state_str TaskSessionState.failed = codes "failed"

unfoldable pub state_from_str : Text → Option TaskSessionState
state_from_str s =
    if text_eq s (codes "created")
    then some TaskSessionState.created
    else if text_eq s (codes "context_compiled")
    then some TaskSessionState.context_compiled
    else if text_eq s (codes "active")
    then some TaskSessionState.active
    else if text_eq s (codes "reconciled")
    then some TaskSessionState.reconciled
    else if text_eq s (codes "completed")
    then some TaskSessionState.completed
    else if text_eq s (codes "abandoned")
    then some TaskSessionState.abandoned
    else if text_eq s (codes "failed")
    then some TaskSessionState.failed
    else none

abbrev pub is_terminal : TaskSessionState → Bool
is_terminal TaskSessionState.completed = true
is_terminal TaskSessionState.abandoned = true
is_terminal TaskSessionState.failed = true
is_terminal state = false

abbrev pub is_failed : TaskSessionState → Bool
is_failed TaskSessionState.failed = true
is_failed state = false

abbrev pub is_active : TaskSessionState → Bool
is_active TaskSessionState.active = true
is_active state = false

-- The pairs of the `matches!`.
abbrev pub is_step : TaskSessionState → TaskSessionState → Bool
is_step TaskSessionState.created TaskSessionState.context_compiled = true
is_step TaskSessionState.context_compiled TaskSessionState.active = true
is_step TaskSessionState.active TaskSessionState.reconciled = true
is_step TaskSessionState.reconciled TaskSessionState.completed = true
is_step TaskSessionState.reconciled TaskSessionState.abandoned = true
is_step TaskSessionState.active TaskSessionState.abandoned = true
is_step from to = false

unfoldable pub is_valid_transition : TaskSessionState → TaskSessionState → Bool
is_valid_transition from to =
    if is_terminal from then false else if is_failed to then true else is_step from to

abbrev pub is_session : Text → TaskSession → Bool
is_session id s = text_eq s.task_session_id id

abbrev pub set_state : TaskSessionState → TaskSession → TaskSession
set_state to s = record s { state = to }

-- A state that is stored is always one of the enum's, since the table checks it.
unfoldable pub transition_task_session :
    Catalogue → Text → TaskSessionState → Result AtlasError Catalogue
transition_task_session c id to = elim (find (is_session id) c.sessions) [
  | none ↦ err (AtlasError.other (codes "task_session " ++ id ++ codes " not found"))
  | some s ↦
      refuse_if (not (is_valid_transition s.state to)) (
        AtlasError.invalid_config (
          codes "illegal task_session transition: "
          ++ state_str s.state
          ++ codes " -> "
          ++ state_str to))
      >> ok (record c { sessions = update_where (is_session id) (set_state to) c.sessions })
]

-- `context_ir::CONTEXT_SCHEMA_VERSION`.
abbrev pub legacy_lifecycle_contract_version : Text
legacy_lifecycle_contract_version = codes "1.0.0"

-- `start.sequence_no < ?3` for the joined row.
abbrev pub starts_before : List Generation → ℕ → Text → Bool
starts_before generations sequence id =
    any (λ (g : Generation). text_eq g.generation_id id && ltb g.sequence_no sequence) generations

abbrev pub is_reconcilable : List Generation → Text → ℕ → TaskSession → Bool
is_reconcilable generations workspace sequence s =
    text_eq s.workspace_id workspace
    && text_eq s.context_ir_version legacy_lifecycle_contract_version
    && is_active s.state
    && starts_before generations sequence s.start_generation_id

unfoldable pub session_ids : (TaskSession → Bool) → List TaskSession → List Text
session_ids test [] = []
session_ids test (s ∷ ss) =
    let rest = session_ids test ss in if test s then s.task_session_id ∷ rest else rest

abbrev pub is_active_session : Text → TaskSession → Bool
is_active_session id s = is_session id s && is_active s.state

-- The `for` loop over the sessions that were found.
unfoldable pub reconcile_each : List Text → List TaskSession → Result AtlasError (List TaskSession)
reconcile_each [] sessions = ok sessions
reconcile_each (id ∷ ids) sessions =
    refuse_if (not (count_where (is_active_session id) sessions == 1))
      (AtlasError.other (codes "task_session " ++ id ++ codes " changed during reconciliation"))
    >> reconcile_each ids
        (update_where (is_active_session id) (set_state TaskSessionState.reconciled) sessions)

unfoldable pub reconcile_active_legacy_sessions :
    Catalogue → (workspace candidate : Text) → Result AtlasError Catalogue
reconcile_active_legacy_sessions c workspace candidate =
    elim (find
      (λ (g : Generation). text_eq g.generation_id candidate && text_eq g.workspace_id workspace)
      c.generations) [
        | none ↦ err (AtlasError.sqlite (codes "no rows"))
        | some g ↦
            reconcile_each
              (session_ids (is_reconcilable c.generations workspace g.sequence_no) c.sessions)
              c.sessions
            >>= λ sessions. ok (record c { sessions = sessions })
      ]
