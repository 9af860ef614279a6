-- ===== src/Lifecycle/Exact.antt =====
-- The renames that `detect_renames` (src/lifecycle.rs) finds, from exact evidence only.
use mathlib.Core.List.{Memᴰ}
use mathlib.Core.Path.{subst}
use workspace_atlas.Common.{
  Bool, true, not, ◌&&◌, any, List, [], ◌∷◌, some, Text, text_eq, text_eq_sound, ◌≡◌, ◌↔◌, refl,
  sym, ap, ◌∙◌, arith,
}
use workspace_atlas.Lifecycle.Renames.{
  PrevFile, RenamePair, get_entry, filter, group_onto, disappeared, appeared, old_hash, new_hash,
  rename_pair, detect_renames,
}
use workspace_atlas.Lifecycle.Paired.{pair_of-Mem, pairs-Mem, pairs-has, some_of_or_empty, single}
use workspace_atlas.Lifecycle.Groups.{group_get, Keyed-group_onto, hashed, or_empty, group_get-onto}

-- The only element with a hash.
abbrev Only : {A : Type 0} → (A → Text) → Text → List A → A → Type 0
Only hash_of h xs x = filter (hashed hash_of h) xs ≡ x ∷ []

-- A known file of that content whose path was not walked again.
abbrev pub lost : Text → List Text → Text × PrevFile → Bool
lost h walked_paths (path, file) =
    not (any (λ walked. text_eq walked path) walked_paths) && text_eq file.content_hash h

-- A file of that content at a path that was not known.
abbrev pub fresh : Text → List (Text × PrevFile) → Text × Text → Bool
fresh h prev_present (path, hash) =
    not (any (λ (known : Text × PrevFile). text_eq known.0 path) prev_present) && text_eq hash h

-- A pair of a known path that was not walked again and a path not known before, each the only one
-- of its side with the content hash of both.
pub record IsRename (prev_present : List (Text × PrevFile)) (walked_paths : List Text)
    (new_present_hashes : List (Text × Text)) (r : RenamePair) : Type 0 where
  pub old : Text × PrevFile
  pub new : Text × Text
  pub only_old : filter (lost r.content_hash walked_paths) prev_present ≡ old ∷ []
  pub only_new : filter (fresh r.content_hash prev_present) new_present_hashes ≡ new ∷ []
  pub pair : r ≡ rename_pair old new

filter-filter :
    {A : Type 0} (first second : A → Bool) (xs : List A)
    → filter second (filter first xs) ≡ filter (λ x. first x && second x) xs
unfolding filter
filter-filter first second [] = refl
filter-filter first second (x ∷ xs) = ground (arith, filter-filter first second xs)

module _ (prev_present : List (Text × PrevFile)) (walked_paths : List Text)
    (new_present_hashes : List (Text × Text)) where
  abbrev gone : List (Text × PrevFile)
  gone = disappeared prev_present walked_paths

  abbrev come : List (Text × Text)
  come = appeared prev_present new_present_hashes

  abbrev gone_by_hash : List (Text × List (Text × PrevFile))
  gone_by_hash = group_onto old_hash [] gone

  abbrev come_by_hash : List (Text × List (Text × Text))
  come_by_hash = group_onto new_hash [] come

  filter-gone : (h : Text) → group_get h gone_by_hash ≡ filter (hashed old_hash h) gone
  unfolding get_entry
  filter-gone h = group_get-onto old_hash h [] gone

  filter-come : (h : Text) → group_get h come_by_hash ≡ filter (hashed new_hash h) come
  unfolding get_entry
  filter-come h = group_get-onto new_hash h [] come

  filter-lost :
      (h : Text) → filter (hashed old_hash h) gone ≡ filter (lost h walked_paths) prev_present
  filter-lost h = filter-filter _ (hashed old_hash h) prev_present

  filter-fresh :
      (h : Text)
      → filter (hashed new_hash h) come ≡ filter (fresh h prev_present) new_present_hashes
  filter-fresh h = filter-filter _ (hashed new_hash h) new_present_hashes

  Only-hash :
      {A : Type 0} (hash_of : A → Text) (h : Text) (xs : List A) (x : A)
      → Only hash_of h xs x
      → text_eq (hash_of x) h ≡ true
  unfolding filter
  Only-hash hash_of h [] x only = absurd (ground arith)
  Only-hash hash_of h (y ∷ xs) x only = ground (arith, Only-hash hash_of h xs x)

  detect_renames-exact :
      (r : RenamePair)
      → Memᴰ r (detect_renames prev_present walked_paths new_present_hashes)
      → IsRename prev_present walked_paths new_present_hashes r
  unfolding detect_renames
  detect_renames-exact r m =
      let (h, olds, found, inside) =
        pairs-Mem come_by_hash gone_by_hash r (Keyed-group_onto old_hash [] gone tt) m in
      let (old, new, single_old, single_new, pair) =
        pair_of-Mem olds (get_entry h come_by_hash) r inside in
      let olds_here : filter (hashed old_hash h) gone ≡ old ∷ [] =
        sym (filter-gone h) ∙ ap or_empty found ∙ single_old in
      let news_here : filter (hashed new_hash h) come ≡ new ∷ [] =
        sym (filter-come h) ∙ single_new in
      let same : r.content_hash ≡ h =
        ap (λ (p : RenamePair). p.content_hash) pair
        ∙ text_eq_sound (old_hash old) h (Only-hash old_hash h gone old olds_here) in
      record {
        old = old;
        new = new;
        only_old =
            sym (filter-lost r.content_hash)
            ∙ subst (λ k. Only old_hash k gone old) (sym same) olds_here;
        only_new =
            sym (filter-fresh r.content_hash)
            ∙ subst (λ k. Only new_hash k come new) (sym same) news_here;
        pair = pair;
      }

  detect_renames-all :
      (r : RenamePair)
      → IsRename prev_present walked_paths new_present_hashes r
      → Memᴰ r (detect_renames prev_present walked_paths new_present_hashes)
  unfolding detect_renames
  detect_renames-all r q =
      let h = r.content_hash in
      let olds : get_entry h gone_by_hash ≡ some (q.old ∷ []) =
        some_of_or_empty q.old [] (get_entry h gone_by_hash)
          (filter-gone h ∙ filter-lost h ∙ q.only_old) in
      let news : get_entry h come_by_hash ≡ some (q.new ∷ []) =
        some_of_or_empty q.new [] (get_entry h come_by_hash)
          (filter-come h ∙ filter-fresh h ∙ q.only_new) in
      pairs-has come_by_hash gone_by_hash r h (q.old ∷ []) olds
        (single q.old q.new (get_entry h come_by_hash) r news q.pair)

  -- A rename is detected exactly if one known path that was not walked again and one path that was
  -- not known are the only ones of their side with its content hash: no other evidence counts, and
  -- an ambiguous hash on either side yields none.
  pub detect_renames_iff :
      (r : RenamePair)
      → Memᴰ r (detect_renames prev_present walked_paths new_present_hashes)
        ↔ IsRename prev_present walked_paths new_present_hashes r
  detect_renames_iff r = (detect_renames-exact r, detect_renames-all r)
