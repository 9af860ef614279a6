-- ===== src/Lifecycle/Records.antt =====
-- `record_rename` and `record_deletions` (src/lifecycle.rs).
use workspace_atlas.Errors.{AtlasError}
use workspace_atlas.Common.{
  ℕ, ◌+◌, Bool, true, false, ◌&&◌, ◌||◌, List, [], ◌∷◌, ◌++◌, Option, none, some, Text, codes,
  text_eq, ltb, ◌==◌, Result, ok, ◌>>=◌, if◌then◌else◌,
}
use workspace_atlas.Lifecycle.Renames.{PrevFile, RenamePair, contains_path}
use workspace_atlas.Lifecycle.Tables.{
  LifecycleState, FileIdentity, LifecycleEvent, Tombstone, FileRevision, FileTables, Surroundings,
  file_id_from_path, update_identities, insert_event, insert_tombstone,
}

abbrev pub move_identity : Text → Text → FileIdentity → FileIdentity
move_identity now path f = record f { last_known_path = path; last_seen_at = now }

unfoldable pub record_rename :
    Surroundings
    → FileTables
    → (workspace generation : Text) → RenamePair
    → Result AtlasError FileTables
record_rename env t workspace generation r =
    insert_event
      (record {
        event_id =
            file_id_from_path env.hash workspace
              (codes "rename@" ++ generation ++ codes "@" ++ r.old_path ++ codes "@" ++ r.new_path);
        workspace_id = workspace;
        generation_id = generation;
        event_type = codes "renamed";
        occurred_at = env.now;
        actor = codes "atlas";
        file_id = r.file_id;
        old_path = r.old_path;
        new_path = some r.new_path;
        old_content_hash = r.content_hash;
        new_content_hash = some r.content_hash;
        evidence_method = codes "exact_content_hash";
      })
      (record t {
        identities = update_identities r.file_id (move_identity env.now r.new_path) t.identities;
      })

-- `<` on texts.
unfoldable pub text_lt : Text → Text → Bool
text_lt [] [] = false
text_lt [] (y ∷ ys) = true
text_lt (x ∷ xs) [] = false
text_lt (x ∷ xs) (y ∷ ys) = ltb x y || (x == y && text_lt xs ys)

-- `ORDER BY discovered_at DESC LIMIT 1` over the revisions of a file with a content hash.
unfoldable pub last_revision : PrevFile → List FileRevision → Option FileRevision
last_revision prev [] = none
last_revision prev (v ∷ vs) =
    let best = last_revision prev vs in
    if text_eq v.file_id prev.file_id && text_eq v.content_hash prev.content_hash
    then elim best [
      | none ↦ some v
      | some b ↦ if text_lt v.discovered_at b.discovered_at then some b else some v
    ]
    else best

abbrev pub mark_deleted : Text → FileIdentity → FileIdentity
mark_deleted now f = record f { lifecycle_state = LifecycleState.deleted; last_seen_at = now }

abbrev pub revision_id_of : Option FileRevision → Option Text
revision_id_of none = none
revision_id_of (some v) = some v.revision_id

abbrev pub artifact_class_of : Option FileRevision → Text
artifact_class_of none = codes "other"
artifact_class_of (some v) = v.artifact_class

abbrev pub summary_of : (Text → Text) → Option FileRevision → Text
summary_of summary none = codes "[]"
summary_of summary (some v) = summary v.revision_id

abbrev pub deletion_event :
    Surroundings → (workspace generation path : Text) → PrevFile → LifecycleEvent
deletion_event env workspace generation path prev = record {
  event_id =
      file_id_from_path env.hash workspace (codes "delete@" ++ generation ++ codes "@" ++ path);
  workspace_id = workspace;
  generation_id = generation;
  event_type = codes "deleted";
  occurred_at = env.now;
  actor = codes "filesystem";
  file_id = prev.file_id;
  old_path = path;
  new_path = none;
  old_content_hash = prev.content_hash;
  new_content_hash = none;
  evidence_method = codes "path_absent_from_walk";
}

abbrev pub tombstone_of :
    Surroundings → FileTables → (workspace generation path : Text) → PrevFile → Tombstone
tombstone_of env t workspace generation path prev =
    let revision = last_revision prev t.revisions in
    record {
      tombstone_id =
          file_id_from_path env.hash workspace
            (codes "tombstone@" ++ generation ++ codes "@" ++ path);
      workspace_id = workspace;
      file_id = prev.file_id;
      deletion_event_id = (deletion_event env workspace generation path prev).event_id;
      last_path = path;
      last_revision_id = revision_id_of revision;
      last_content_hash = prev.content_hash;
      artifact_class = artifact_class_of revision;
      symbol_summary_json = summary_of env.symbol_summary revision;
      relationship_summary_json = summary_of env.relationship_summary revision;
      raw_snapshot_state = codes "not_retained";
      created_at = env.now;
    }

abbrev pub with_identities : FileTables → List FileIdentity → FileTables
with_identities t identities = record t { identities = identities }

-- One turn of the loop that is not skipped.
unfoldable pub delete_file :
    Surroundings
    → FileTables
    → (workspace generation path : Text) → PrevFile
    → Result AtlasError FileTables
delete_file env t workspace generation path prev =
    insert_event (deletion_event env workspace generation path prev)
      (with_identities t (update_identities prev.file_id (mark_deleted env.now) t.identities))
    >>= λ u. insert_tombstone (tombstone_of env u workspace generation path prev) u

-- The test that skips a path: it was walked or renamed.
abbrev pub is_accounted : (walked_paths renamed_old_paths : List Text) → Text → Bool
is_accounted walked_paths renamed_old_paths path =
    contains_path walked_paths path || contains_path renamed_old_paths path

-- The loop, with the count so far.
unfoldable pub delete_each :
    Surroundings
    → (workspace generation : Text) → (walked_paths renamed_old_paths : List Text)
    → List (Text × PrevFile)
    → ℕ
    → FileTables
    → Result AtlasError (ℕ × FileTables)
delete_each env workspace generation walked renamed [] count t = ok (count, t)
delete_each env workspace generation walked renamed ((path, prev) ∷ rest) count t =
    elim (is_accounted walked renamed path) [
      | true ↦ delete_each env workspace generation walked renamed rest count t
      | false ↦ delete_file env t workspace generation path prev >>= λ u.
          delete_each env workspace generation walked renamed rest (count + 1) u
    ]

unfoldable pub record_deletions :
    Surroundings
    → FileTables
    → (workspace generation : Text) → List (Text × PrevFile)
    → (walked_paths renamed_old_paths : List Text) → Result AtlasError (ℕ × FileTables)
record_deletions env t workspace generation prev_present walked renamed =
    delete_each env workspace generation walked renamed prev_present 0 t
