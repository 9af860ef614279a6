-- ===== src/Lifecycle/Renames.antt =====
-- `detect_renames` (src/lifecycle.rs). A `HashMap` is the list of its entries, in the order in which
-- it happens to be iterated; a `HashSet` is the list of its elements.
use workspace_atlas.Common.{
  Bool, not, List, [], ◌∷◌, ◌++◌, Option, none, some, Text, text_eq, if◌then◌else◌, any,
}

pub record PrevFile : Type 0 where
  pub file_id : Text
  pub content_hash : Text

pub record RenamePair : Type 0 where
  pub old_path : Text
  pub new_path : Text
  pub file_id : Text
  pub content_hash : Text

-- `HashSet::contains`.
abbrev pub contains_path : List Text → Text → Bool
contains_path paths path = any (λ p. text_eq p path) paths

module _ {A : Type 0} where
  -- `contains_key` and `get`.
  abbrev pub contains_key : List (Text × A) → Text → Bool
  contains_key entries path = any (λ (entry : Text × A). text_eq entry.0 path) entries

  unfoldable pub get_entry : Text → List (Text × A) → Option A
  get_entry key [] = none
  get_entry key ((k, v) ∷ entries) = if text_eq k key then some v else get_entry key entries

  -- `iter().filter(…).collect()`.
  unfoldable pub filter : (A → Bool) → List A → List A
  filter test [] = []
  filter test (x ∷ xs) = let rest = filter test xs in if test x then x ∷ rest else rest

  -- `entry(hash).or_default().push(x)`.
  unfoldable pub push_entry : Text → A → List (Text × List A) → List (Text × List A)
  push_entry hash x [] = (hash, x ∷ []) ∷ []
  push_entry hash x ((h, xs) ∷ entries) =
      let rest = push_entry hash x entries in
      if text_eq h hash then (h, xs ++ x ∷ []) ∷ entries else (h, xs) ∷ rest

  -- The loops that fill `disappeared_by_hash` and `appeared_by_hash`.
  unfoldable pub group_onto : (A → Text) → List (Text × List A) → List A → List (Text × List A)
  group_onto hash_of groups [] = groups
  group_onto hash_of groups (x ∷ xs) = group_onto hash_of (push_entry (hash_of x) x groups) xs

abbrev pub disappeared : List (Text × PrevFile) → List Text → List (Text × PrevFile)
disappeared prev_present walked_paths =
    filter (λ (entry : Text × PrevFile). not (contains_path walked_paths entry.0)) prev_present

abbrev pub appeared : List (Text × PrevFile) → List (Text × Text) → List (Text × Text)
appeared prev_present new_present_hashes =
    filter (λ (entry : Text × Text). not (contains_key prev_present entry.0)) new_present_hashes

abbrev pub old_hash : Text × PrevFile → Text
old_hash entry = entry.1.content_hash

abbrev pub new_hash : Text × Text → Text
new_hash entry = entry.1

abbrev pub rename_pair : Text × PrevFile → Text × Text → RenamePair
rename_pair old new = record {
  old_path = old.0;
  new_path = new.0;
  file_id = old.1.file_id;
  content_hash = old.1.content_hash;
}

-- One turn of the last loop: a pair if both sides have exactly one path.
unfoldable pub pair_of : List (Text × PrevFile) → Option (List (Text × Text)) → List RenamePair
pair_of (old ∷ []) (some (new ∷ [])) = rename_pair old new ∷ []
pair_of olds news = []

unfoldable pub pairs :
    List (Text × List (Text × Text)) → List (Text × List (Text × PrevFile)) → List RenamePair
pairs appeared_by_hash [] = []
pairs appeared_by_hash ((hash, olds) ∷ groups) =
    pair_of olds (get_entry hash appeared_by_hash) ++ pairs appeared_by_hash groups

unfoldable pub detect_renames :
    List (Text × PrevFile) → List Text → List (Text × Text) → List RenamePair
detect_renames prev_present walked_paths new_present_hashes =
    let disappeared_by_hash = group_onto old_hash [] (disappeared prev_present walked_paths) in
    let appeared_by_hash = group_onto new_hash [] (appeared prev_present new_present_hashes) in
    pairs appeared_by_hash disappeared_by_hash
