-- ===== src/Lifecycle/Examples.antt =====
-- A file that is renamed and one that is deleted (src/lifecycle.rs).
use mathlib.Core.List.{Memᴰ}
use workspace_atlas.Common.{List, [], ◌∷◌, Text, codes, text_eq, ok, ◌≡◌, ◌↔◌, refl}
use workspace_atlas.Lifecycle.Renames.{
  PrevFile, RenamePair, get_entry, filter, push_entry, group_onto, pair_of, pairs, detect_renames,
}
use workspace_atlas.Lifecycle.Exact.{IsRename, detect_renames_iff}
use workspace_atlas.Lifecycle.Tables.{
  LifecycleState, FileIdentity, FileTables, Surroundings, update_identities, insert_event,
  insert_tombstone,
}
use workspace_atlas.Lifecycle.Records.{
  delete_file, delete_each, record_deletions, deletion_event, tombstone_of,
}
use workspace_atlas.Lifecycle.Deleted.{gone}
use workspace_atlas.Lifecycle.Deleted.Counted.{Recorded, record_deletions-Recorded}

abbrev present : List (Text × PrevFile)
present =
    (codes "a", record { file_id = codes "1"; content_hash = codes "h" })
    ∷ (codes "c", record { file_id = codes "2"; content_hash = codes "k" })
    ∷ (codes "d", record { file_id = codes "3"; content_hash = codes "k" })
    ∷ []

abbrev walked : List Text
walked = codes "b" ∷ codes "d" ∷ []

abbrev hashes : List (Text × Text)
hashes = (codes "b", codes "h") ∷ (codes "d", codes "k") ∷ []

abbrev moved : RenamePair
moved = record {
  old_path = codes "a";
  new_path = codes "b";
  file_id = codes "1";
  content_hash = codes "h";
}

moved_detected : detect_renames present walked hashes ≡ moved ∷ []
unfolding detect_renames group_onto filter push_entry pairs pair_of get_entry text_eq codes
moved_detected = refl

detect_renames_iff_example :
    Memᴰ moved (detect_renames present walked hashes) ↔ IsRename present walked hashes moved
detect_renames_iff_example = detect_renames_iff present walked hashes moved

abbrev plain : Surroundings
plain = record {
  hash = λ bytes. bytes;
  now = codes "t";
  symbol_summary = λ revision. codes "[]";
  relationship_summary = λ revision. codes "[]";
}

abbrev known : Text → LifecycleState → FileIdentity
known id state = record {
  file_id = id;
  lifecycle_state = state;
  last_known_path = id;
  last_seen_at = codes "t";
}

abbrev before : FileTables
before = record {
  identities =
      known (codes "1") LifecycleState.current
      ∷ known (codes "2") LifecycleState.current
      ∷ known (codes "3") LifecycleState.current
      ∷ [];
  events = [];
  tombstones = [];
  revisions = [];
}

abbrev lost_file : PrevFile
lost_file = record { file_id = codes "2"; content_hash = codes "k" }

abbrev after_deletions : FileTables
after_deletions = record before {
  identities =
      known (codes "1") LifecycleState.current
      ∷ known (codes "2") LifecycleState.deleted
      ∷ known (codes "3") LifecycleState.current
      ∷ [];
  events = deletion_event plain (codes "w") (codes "g") (codes "c") lost_file ∷ [];
  tombstones = tombstone_of plain before (codes "w") (codes "g") (codes "c") lost_file ∷ [];
}

one_deleted :
    record_deletions plain before (codes "w") (codes "g") present walked (codes "a" ∷ [])
    ≡ ok (1, after_deletions)
unfolding record_deletions delete_each text_eq codes delete_file insert_event update_identities
    insert_tombstone
one_deleted = refl

record_deletions-Recorded_example :
    Recorded plain
      (codes "w")
      (codes "g")
      walked
      (codes "a" ∷ [])
      (gone walked (codes "a" ∷ []) present)
      0
      before
      1
      after_deletions
record_deletions-Recorded_example =
    record_deletions-Recorded plain (codes "w") (codes "g") walked (codes "a" ∷ []) before present 1
      after_deletions one_deleted
