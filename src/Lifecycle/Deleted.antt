-- ===== src/Lifecycle/Deleted.antt =====
-- Deletions (src/lifecycle.rs): the files that are gone, and what marking their identities does.
pub mod Counted
use workspace_atlas.Common.{
  ℕ, suc, ◌+◌, Bool, true, false, not, List, [], ◌∷◌, ◌++◌, Option, none, some, Text, text_eq,
  text_eq_sound, text_eq_refl, ok, ◌>>=◌, >>=-eq-ok, ◌≡◌, refl, sym, ap, ◌∙◌, arith, All, any,
  length, if◌then◌else◌, Bool-cases, Result-cases, inl, inr,
}
use mathlib.Core.Path.{subst}
use workspace_atlas.Lifecycle.Renames.{PrevFile, filter}
use workspace_atlas.Lifecycle.Tables.{
  LifecycleState, FileIdentity, LifecycleEvent, Tombstone, FileTables, Surroundings, is_identity,
  update_identities, insert_event, insert_tombstone,
}
use workspace_atlas.Lifecycle.Records.{
  deletion_event, tombstone_of, with_identities, delete_file, delete_each, record_deletions,
  is_accounted, mark_deleted,
}

-- The files that are gone: neither walked nor renamed.
abbrev pub gone : (walked renamed : List Text) → List (Text × PrevFile) → List (Text × PrevFile)
gone walked renamed =
    filter (λ (entry : Text × PrevFile). not (is_accounted walked renamed entry.0))

abbrev pub paths_of : List (Text × PrevFile) → List Text
paths_of [] = []
paths_of ((path, prev) ∷ rest) = path ∷ paths_of rest

abbrev pub last_paths : List Tombstone → List Text
last_paths [] = []
last_paths (s ∷ ss) = s.last_path ∷ last_paths ss

pub last_paths-push :
    (ss : List Tombstone) (s : Tombstone) (more : List Text)
    → last_paths (ss ++ s ∷ []) ++ more ≡ last_paths ss ++ s.last_path ∷ more
last_paths-push [] s more = refl
last_paths-push (o ∷ ss) s more = ap (λ ps. o.last_path ∷ ps) (last_paths-push ss s more)

-- Every row of a file is marked as deleted.
abbrev pub Deleted : Text → List FileIdentity → Type 0
Deleted id =
    All (λ (f : FileIdentity). is_identity id f ≡ true → f.lifecycle_state ≡ LifecycleState.deleted)

abbrev pub of_file : Text → Text × PrevFile → Bool
of_file id entry = text_eq entry.1.file_id id

abbrev pub identity? : Text → List FileIdentity → Option FileIdentity
identity? id [] = none
identity? id (f ∷ fs) = if is_identity id f then some f else identity? id fs

module _ (now : Text) where
  pub Deleted-self :
      (id : Text) (fs : List FileIdentity) → Deleted id (update_identities id (mark_deleted now) fs)
  unfolding update_identities
  Deleted-self id [] = tt
  Deleted-self id (f ∷ fs) = (ground arith, Deleted-self id fs)

  pub Deleted-other :
      (id other : Text) (fs : List FileIdentity)
      → Deleted id fs
      → Deleted id (update_identities other (mark_deleted now) fs)
  unfolding update_identities
  Deleted-other id other [] d = tt
  Deleted-other id other (f ∷ fs) d = (ground arith, Deleted-other id other fs d.1)

  pub identity?-other :
      (id other : Text) (fs : List FileIdentity)
      → text_eq other id ≡ false
      → identity? id (update_identities other (mark_deleted now) fs) ≡ identity? id fs
  unfolding update_identities
  identity?-other id other [] apart = refl
  identity?-other id other (f ∷ fs) apart =
      let rest = identity?-other id other fs apart in
      elim (Bool-cases (text_eq f.file_id other)) [
        | inl hit ↦
            let miss : text_eq f.file_id id ≡ false =
              rw (text_eq_sound f.file_id other hit) apart in
            rw (hit, miss) rest
        | inr miss ↦ ground arith
      ]

pub insert_event-eq-ok :
    (e : LifecycleEvent) (t u : FileTables)
    → insert_event e t ≡ ok u
    → u ≡ record t { events = t.events ++ e ∷ [] }
unfolding insert_event
insert_event-eq-ok e t u h = ground arith

pub insert_tombstone-eq-ok :
    (s : Tombstone) (t u : FileTables)
    → insert_tombstone s t ≡ ok u
    → u ≡ record t { tombstones = t.tombstones ++ s ∷ [] }
unfolding insert_tombstone
insert_tombstone-eq-ok s t u h = ground arith
