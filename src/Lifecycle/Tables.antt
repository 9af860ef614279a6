-- ===== src/Lifecycle/Tables.antt =====
-- The tables that src/lifecycle.rs changes, and the insertions into them. The workspace and the
-- generation of an event exist by then, so only the other constraints can fail; the confidence 1.0
-- and the empty details that every event has are left out.
use workspace_atlas.Errors.{AtlasError}
use workspace_atlas.Common.{
  ℕ, Bool, not, List, [], ◌∷◌, ◌++◌, Option, Text, codes, text_eq, Result, ok, ◌>>◌, refuse_if,
  if◌then◌else◌, any, take,
}

pub data LifecycleState : Type 0 where
  current : LifecycleState
  deleted : LifecycleState
  archived : LifecycleState
  unknown : LifecycleState

-- A row of `file_identity`.
pub record FileIdentity : Type 0 where
  pub file_id : Text
  pub lifecycle_state : LifecycleState
  pub last_known_path : Text
  pub last_seen_at : Text

-- A row of `lifecycle_event`.
pub record LifecycleEvent : Type 0 where
  pub event_id : Text
  pub workspace_id : Text
  pub generation_id : Text
  pub event_type : Text
  pub occurred_at : Text
  pub actor : Text
  pub file_id : Text
  pub old_path : Text
  pub new_path : Option Text
  pub old_content_hash : Text
  pub new_content_hash : Option Text
  pub evidence_method : Text

-- A row of `tombstone`; its locator is always empty.
pub record Tombstone : Type 0 where
  pub tombstone_id : Text
  pub workspace_id : Text
  pub file_id : Text
  pub deletion_event_id : Text
  pub last_path : Text
  pub last_revision_id : Option Text
  pub last_content_hash : Text
  pub artifact_class : Text
  pub symbol_summary_json : Text
  pub relationship_summary_json : Text
  pub raw_snapshot_state : Text
  pub created_at : Text

-- A row of `file_revision`: what a deletion looks at.
pub record FileRevision : Type 0 where
  pub revision_id : Text
  pub file_id : Text
  pub content_hash : Text
  pub artifact_class : Text
  pub discovered_at : Text

pub record FileTables : Type 0 where
  pub identities : List FileIdentity
  pub events : List LifecycleEvent
  pub tombstones : List Tombstone
  pub revisions : List FileRevision

-- What the functions take from elsewhere: BLAKE3 in hexadecimal, the time, and what `serde_json`
-- writes of the symbols and of the relationships of a revision.
pub record Surroundings : Type 0 where
  pub hash : List ℕ → Text
  pub now : Text
  pub symbol_summary : Text → Text
  pub relationship_summary : Text → Text

-- `file_id_from_path` of src/ids.rs.
unfoldable pub file_id_from_path : (List ℕ → Text) → Text → Text → Text
file_id_from_path hash workspace path = codes "file_" ++ take 32 (hash (workspace ++ 0x1f ∷ path))

abbrev pub is_identity : Text → FileIdentity → Bool
is_identity id f = text_eq f.file_id id

unfoldable pub update_identities :
    Text → (FileIdentity → FileIdentity) → List FileIdentity → List FileIdentity
update_identities id change [] = []
update_identities id change (f ∷ fs) =
    (if is_identity id f then change f else f) ∷ update_identities id change fs

unfoldable pub insert_event : LifecycleEvent → FileTables → Result AtlasError FileTables
insert_event e t =
    refuse_if (any (λ (o : LifecycleEvent). text_eq o.event_id e.event_id) t.events)
      (AtlasError.sqlite (codes "event_id"))
    >> refuse_if (not (any (is_identity e.file_id) t.identities))
        (AtlasError.sqlite (codes "file_id"))
    >> ok (record t { events = t.events ++ e ∷ [] })

unfoldable pub insert_tombstone : Tombstone → FileTables → Result AtlasError FileTables
insert_tombstone s t =
    refuse_if (any (λ (o : Tombstone). text_eq o.tombstone_id s.tombstone_id) t.tombstones)
      (AtlasError.sqlite (codes "tombstone_id"))
    >> ok (record t { tombstones = t.tombstones ++ s ∷ [] })
