-- ===== src/Catalogue/Examples.antt =====
-- A workspace whose first generation is begun, activated and followed by one that fails
-- (src/generation.rs), beside a completed and an active session (src/task_session.rs).
use workspace_atlas.Common.{
  ℕ, true, false, List, [], ◌∷◌, none, some, Text, codes, text_eq, ok, is_err, ◌≡◌, refl, any, inl,
  take,
}
use workspace_atlas.Catalogue.Tables.{
  TriggerKind, TaskSessionState, Generation, TaskSession, Catalogue, generation_id, find,
  update_where, count_where, le_bytes,
}
use workspace_atlas.Catalogue.Generations.{
  candidate_row, begin_candidate, activate_candidate, fail_candidate, abandon_candidate,
  verify_candidate_committable, is_committed_row, latest_committed, max_sequence, commit_row,
  failed_row,
}
use workspace_atlas.Catalogue.Sessions.{
  is_session, reconcile_active_legacy_sessions, reconcile_each, session_ids,
  legacy_lifecycle_contract_version,
}
use workspace_atlas.Catalogue.Sound.{IsSound}
use workspace_atlas.Catalogue.Reachable.{Step, Reach, Reach-IsSound}
use workspace_atlas.Catalogue.Final.{Settles, settled-refused, unsuccessful-authority}
use workspace_atlas.Catalogue.Terminal.{Reach-terminal}
use workspace_atlas.Catalogue.Activated.{Pointing, is_workspace}
use workspace_atlas.Catalogue.Begun.{next_id, begin-activate}

abbrev same_bytes : List ℕ → Text
same_bytes bytes = bytes

abbrev home : Text
home = codes "w"

abbrev finished : TaskSession
finished = record {
  task_session_id = codes "s1";
  workspace_id = home;
  context_ir_version = legacy_lifecycle_contract_version;
  state = TaskSessionState.completed;
  start_generation_id = codes "g";
}

abbrev fresh : Catalogue
fresh = record {
  generations = [];
  workspaces =
      record { workspace_id = home; active_generation_id = none; updated_at = codes "t0" } ∷ [];
  sessions = finished ∷ [];
}

finished_found : find (is_session (codes "s1")) fresh.sessions ≡ some finished
unfolding find text_eq codes
finished_found = refl

abbrev first : Generation
first = candidate_row same_bytes (codes "t1") [] home TriggerKind.baseline (codes "p") (codes "4")

abbrev with_first : Catalogue
with_first = record fresh { generations = first ∷ [] }

first_begins :
    begin_candidate same_bytes (codes "t1") fresh home TriggerKind.baseline (codes "p") (codes "4")
    ≡ ok (first, with_first)
unfolding begin_candidate latest_committed max_sequence text_eq codes
first_begins = refl

abbrev committed_first : Generation
committed_first = commit_row (codes "t2") none first

abbrev with_active : Catalogue
with_active = record with_first {
  generations = committed_first ∷ [];
  workspaces =
      record {
        workspace_id = home;
        active_generation_id = some first.generation_id;
        updated_at = codes "t2";
      }
      ∷ [];
}

first_activates :
    activate_candidate (codes "t2") with_first home first.generation_id none ≡ ok with_active
unfolding activate_candidate verify_candidate_committable find text_eq generation_id codes take
    le_bytes max_sequence update_where reconcile_active_legacy_sessions reconcile_each session_ids
first_activates = refl

abbrev second : Generation
second =
    candidate_row same_bytes (codes "t3") (committed_first ∷ []) home TriggerKind.watcher
      (codes "p") (codes "4")

abbrev with_second : Catalogue
with_second = record with_active { generations = second ∷ committed_first ∷ [] }

second_begins :
    begin_candidate same_bytes
      (codes "t3")
      with_active
      home
      TriggerKind.watcher
      (codes "p")
      (codes "4")
    ≡ ok (second, with_second)
unfolding begin_candidate latest_committed max_sequence text_eq codes generation_id take le_bytes
second_begins = refl

abbrev with_failed : Catalogue
with_failed = record with_second {
  generations = failed_row (codes "e") (codes "m") second ∷ committed_first ∷ [];
}

second_fails :
    fail_candidate with_second second.generation_id (codes "e") (codes "m") ≡ ok with_failed
unfolding fail_candidate count_where text_eq generation_id codes take le_bytes max_sequence
    update_where
second_fails = refl

whole_run : Reach fresh with_failed
whole_run =
    Reach.next
      (Reach.next
        (Reach.next
          (Reach.next Reach.here (
            Step.begun same_bytes (codes "t1") home (codes "p") (codes "4") TriggerKind.baseline
              first first_begins))
          (Step.activated (codes "t2") home first.generation_id none first_activates))
        (Step.begun same_bytes (codes "t3") home (codes "p") (codes "4") TriggerKind.watcher second
          second_begins))
      (Step.failed second.generation_id (codes "e") (codes "m") second_fails)

Reach-IsSound_example : IsSound with_failed
Reach-IsSound_example = Reach-IsSound {c = fresh} {c' = with_failed} ((tt, tt), tt) whole_run

settled-refused_example :
    (is_err (activate_candidate (codes "t4") with_failed home second.generation_id none) ≡ true)
    × (is_err (fail_candidate with_failed second.generation_id (codes "e") (codes "m")) ≡ true)
    × (is_err (abandon_candidate with_failed second.generation_id) ≡ true)
settled-refused_example =
    settled-refused with_second second.generation_id with_failed
      (Settles.fails (codes "e") (codes "m") second_fails) (codes "t4") home (codes "e") (codes "m")
      none

unsuccessful-authority_example :
    (with_failed.workspaces ≡ with_second.workspaces)
    × ((workspace : Text)
        → latest_committed workspace with_failed.generations
          ≡ latest_committed workspace with_second.generations)
unsuccessful-authority_example =
    unsuccessful-authority with_second second.generation_id (codes "e") (codes "m") with_failed
      (inl second_fails)

Reach-terminal_example : find (is_session (codes "s1")) with_failed.sessions ≡ some finished
Reach-terminal_example =
    Reach-terminal (codes "s1") finished {c = fresh} {c' = with_failed} whole_run refl
      finished_found

begin-activate_example :
    (g : Generation) × (c' : Catalogue) × (c'' : Catalogue) × (begin_candidate same_bytes
        (codes "t1")
        fresh
        home
        TriggerKind.baseline
        (codes "p")
        (codes "4")
      ≡ ok (g, c'))
    × (activate_candidate (codes "t2") c' home (next_id same_bytes fresh home) none ≡ ok c'')
    × (any (is_committed_row home (next_id same_bytes fresh home)) c''.generations ≡ true)
    × Pointing home (next_id same_bytes fresh home) c''.workspaces
    × ((other : Text)
        → text_eq home other ≡ false
        → find (is_workspace other) c''.workspaces ≡ find (is_workspace other) fresh.workspaces)
unfolding text_eq codes
begin-activate_example =
    begin-activate same_bytes (codes "t1") (codes "t2") fresh home TriggerKind.baseline (codes "p")
      (codes "4") none refl refl (refl, tt)
