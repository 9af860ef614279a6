-- ===== src/Lifecycle/Deleted/Counted.antt =====
-- What `record_deletions` (src/lifecycle.rs) has recorded when it succeeds.
use workspace_atlas.Common.{
  ℕ, ◌+◌, true, false, List, [], ◌∷◌, ◌++◌, Text, ok, ◌>>=◌, >>=-eq-ok, ◌≡◌, refl, sym, ap, ◌∙◌,
  arith, All, any, length, Bool-cases, inl, inr,
}
use mathlib.Core.Path.{subst}
use workspace_atlas.Lifecycle.Renames.{PrevFile, filter}
use workspace_atlas.Lifecycle.Tables.{
  Tombstone, FileTables, Surroundings, update_identities, insert_event, insert_tombstone,
}
use workspace_atlas.Lifecycle.Records.{
  deletion_event, tombstone_of, with_identities, delete_file, delete_each, record_deletions,
  is_accounted, mark_deleted,
}
use mathlib.Core.List.{append-nil}
use workspace_atlas.Lifecycle.Deleted.{
  gone, paths_of, last_paths, last_paths-push, Deleted, of_file, identity?, Deleted-self,
  Deleted-other, identity?-other, insert_event-eq-ok, insert_tombstone-eq-ok,
}

module _ (env : Surroundings) (workspace generation : Text) where
  delete_file-eq-ok :
      (t : FileTables) (path : Text) (prev : PrevFile) (u : FileTables)
      → delete_file env t workspace generation path prev ≡ ok u
      → (s : Tombstone) × (s.last_path ≡ path)
        × (u.tombstones ≡ t.tombstones ++ s ∷ [])
        × (u.identities ≡ update_identities prev.file_id (mark_deleted env.now) t.identities)
  unfolding delete_file
  delete_file-eq-ok t path prev u h =
      let event = deletion_event env workspace generation path prev in
      let marked =
        with_identities t (update_identities prev.file_id (mark_deleted env.now) t.identities) in
      let (m, e, f) =
        >>=-eq-ok (insert_event event marked)
          (λ v. insert_tombstone (tombstone_of env v workspace generation path prev) v) h in
      let stone = tombstone_of env m workspace generation path prev in
      let first : m ≡ record marked { events = marked.events ++ event ∷ [] } =
        insert_event-eq-ok event marked m e in
      let second : u ≡ record m { tombstones = m.tombstones ++ stone ∷ [] } =
        insert_tombstone-eq-ok stone m u f in
      (
        stone,
        refl,
        ap (λ (v : FileTables). v.tombstones) second
            ∙ ap (λ (v : FileTables). v.tombstones ++ stone ∷ []) first,
        ap (λ (v : FileTables). v.identities) second ∙ ap (λ (v : FileTables). v.identities) first,
      )

  module _ (walked renamed : List Text) where
    -- What has been done once the entries that are gone have been dealt with.
    abbrev pub Recorded : List (Text × PrevFile) → ℕ → FileTables → ℕ → FileTables → Type 0
    Recorded lost before t after u =
        (after ≡ before + length lost)
        × (last_paths u.tombstones ≡ last_paths t.tombstones ++ paths_of lost)
        × All (λ (entry : Text × PrevFile). Deleted entry.1.file_id u.identities) lost
        × ((id : Text)
            → any (of_file id) lost ≡ false
            → identity? id u.identities ≡ identity? id t.identities)

    module _ (path : Text) (prev : PrevFile) (rest : List (Text × PrevFile)) where
      gone-skip :
          is_accounted walked renamed path ≡ true
          → gone walked renamed ((path, prev) ∷ rest) ≡ gone walked renamed rest
      unfolding filter
      gone-skip h = rw h refl

      gone-next :
          is_accounted walked renamed path ≡ false
          → gone walked renamed ((path, prev) ∷ rest) ≡ (path, prev) ∷ gone walked renamed rest
      unfolding filter
      gone-next h = rw h refl

      delete_each-skip :
          (count : ℕ) (t : FileTables)
          → is_accounted walked renamed path ≡ true
          → delete_each env workspace generation walked renamed ((path, prev) ∷ rest) count t
            ≡ delete_each env workspace generation walked renamed rest count t
      unfolding delete_each
      delete_each-skip count t h = rw (delete_each, h) refl

      delete_each-next :
          (count : ℕ) (t : FileTables)
          → is_accounted walked renamed path ≡ false
          → delete_each env workspace generation walked renamed ((path, prev) ∷ rest) count t ≡ (
              delete_file env t workspace generation path prev >>= λ u.
              delete_each env workspace generation walked renamed rest (count + 1) u)
      unfolding delete_each
      delete_each-next count t h = rw (delete_each, h) refl

      -- The turn for a file that is gone, and the run that is left.
      delete_each-turn :
          (count : ℕ) (t : FileTables) (after : ℕ) (u : FileTables)
          → is_accounted walked renamed path ≡ false
          → delete_each env workspace generation walked renamed ((path, prev) ∷ rest) count t
            ≡ ok (after, u)
          → (v : FileTables) × (delete_file env t workspace generation path prev ≡ ok v)
            × (delete_each env workspace generation walked renamed rest (count + 1) v
                ≡ ok (after, u))
      delete_each-turn count t after u lost h =
          >>=-eq-ok (delete_file env t workspace generation path prev)
            (λ v. delete_each env workspace generation walked renamed rest (count + 1) v)
            (sym (delete_each-next count t lost) ∙ h)

    keeps-Deleted :
        (id : Text) (entries : List (Text × PrevFile)) (count : ℕ) (t : FileTables) (after : ℕ)
        (u : FileTables)
        → delete_each env workspace generation walked renamed entries count t ≡ ok (after, u)
        → Deleted id t.identities
        → Deleted id u.identities
    unfolding delete_each
    keeps-Deleted id [] count t after u h d = ground arith
    keeps-Deleted id ((path, prev) ∷ rest) count t after u h d =
        elim (Bool-cases (is_accounted walked renamed path)) [
          | inl skip ↦
              keeps-Deleted id rest count t after u
                (sym (delete_each-skip path prev rest count t skip) ∙ h) d
          | inr lost ↦
              let (v, e, f) = delete_each-turn path prev rest count t after u lost h in
              let (_, _, _, rows) = delete_file-eq-ok t path prev v e in
              keeps-Deleted id rest (count + 1) v after u f
                (rw rows (Deleted-other env.now id prev.file_id t.identities d))
        ]

    Recorded-cons :
        (path : Text) (prev : PrevFile) (lost : List (Text × PrevFile)) (count : ℕ)
        (t v : FileTables) (after : ℕ) (u : FileTables)
        → delete_file env t workspace generation path prev ≡ ok v
        → Deleted prev.file_id u.identities
        → Recorded lost (count + 1) v after u
        → Recorded ((path, prev) ∷ lost) count t after u
    Recorded-cons path prev lost count t v after u e here (counted, stones, marked, others) =
        let (stone, same, tombstones, rows) = delete_file-eq-ok t path prev v e in
        (
          omega arith,
          stones
              ∙ ap (λ ss. last_paths ss ++ paths_of lost) tombstones
              ∙ last_paths-push t.tombstones stone (paths_of lost)
              ∙ ap (λ p. last_paths t.tombstones ++ p ∷ paths_of lost) same,
          (here, marked),
          λ id absent.
              others id (ground arith)
              ∙ ap (identity? id) rows
              ∙ identity?-other env.now id prev.file_id t.identities (ground arith),
        )

    delete_each-Recorded :
        (entries : List (Text × PrevFile)) (count : ℕ) (t : FileTables) (after : ℕ) (u : FileTables)
        → delete_each env workspace generation walked renamed entries count t ≡ ok (after, u)
        → Recorded (gone walked renamed entries) count t after u
    unfolding delete_each filter
    delete_each-Recorded [] count t after u h =
        let kept : t ≡ u = ground arith in
        (
          ground arith,
          ap (λ (x : FileTables). last_paths x.tombstones) (sym kept)
              ∙ sym (append-nil (last_paths t.tombstones)),
          tt,
          λ id absent. ap (λ (x : FileTables). identity? id x.identities) (sym kept),
        )
    delete_each-Recorded ((path, prev) ∷ rest) count t after u h =
        elim (Bool-cases (is_accounted walked renamed path)) [
          | inl skip ↦
              subst (λ lost. Recorded lost count t after u) (sym (gone-skip path prev rest skip))
                (delete_each-Recorded rest count t after u
                  (sym (delete_each-skip path prev rest count t skip) ∙ h))
          | inr lost ↦
              let (v, e, f) = delete_each-turn path prev rest count t after u lost h in
              let (_, _, _, rows) = delete_file-eq-ok t path prev v e in
              let here : Deleted prev.file_id u.identities =
                keeps-Deleted prev.file_id rest (count + 1) v after u f
                  (rw rows (Deleted-self env.now prev.file_id t.identities)) in
              subst (λ ls. Recorded ls count t after u) (sym (gone-next path prev rest lost))
                (Recorded-cons path prev (gone walked renamed rest) count t v after u e here
                  (delete_each-Recorded rest (count + 1) v after u f))
        ]

    -- A run of `record_deletions` that succeeds counts the files that were present before and are
    -- neither walked nor renamed, writes one tombstone for each, with its path, in their order and
    -- behind those that were there, marks their identities as deleted, and leaves the identity of
    -- every other file as it was.
    pub record_deletions-Recorded :
        (t : FileTables) (prev_present : List (Text × PrevFile)) (count : ℕ) (u : FileTables)
        → record_deletions env t workspace generation prev_present walked renamed ≡ ok (count, u)
        → Recorded (gone walked renamed prev_present) 0 t count u
    unfolding record_deletions
    record_deletions-Recorded t prev_present count u h =
        delete_each-Recorded prev_present 0 t count u h
