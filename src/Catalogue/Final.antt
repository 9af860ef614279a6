-- ===== src/Catalogue/Final.antt =====
-- A candidate of src/generation.rs is settled once: what is committed, failed or abandoned stays so.
use workspace_atlas.Common.{
  true, false, ◌&&◌, List, [], ◌∷◌, Option, some, Text, text_eq, ok, ◌>>◌, is_err, >>=-eq-ok, ◌≡◌,
  refl, sym, ap, ◌∙◌, arith, if◌then◌else◌, Bool-cases, inl, inr, Option-cases, ◌⊎◌,
}
use workspace_atlas.Catalogue.Tables.{
  GenerationState, Generation, Catalogue, update_where, count_where, find, is_candidate,
  is_committed,
}
use workspace_atlas.Catalogue.Generations.{
  has_id, is_candidate_row, latest_committed, verify_candidate_committable, commit_row, with_commit,
  set_active, activate_candidate, update_candidate, fail_candidate, abandon_candidate, failed_row,
  abandoned_row,
}
use workspace_atlas.Catalogue.Sessions.{reconcile_active_legacy_sessions}

-- No row is a candidate of this id.
abbrev NoCandidate : Text → List Generation → Type 0
NoCandidate id gs = count_where (is_candidate_row id) gs ≡ 0

NoCandidate-update_where :
    (id : Text) (change : Generation → Generation)
    → ((g : Generation) → is_candidate (change g).state ≡ false)
    → (gs : List Generation) → NoCandidate id (update_where (is_candidate_row id) change gs)
unfolding update_where count_where
NoCandidate-update_where id change settles [] = refl
NoCandidate-update_where id change settles (g ∷ gs) =
    ground (arith, settles g, NoCandidate-update_where id change settles gs)

found-not_candidate :
    (id : Text) (gs : List Generation) (g : Generation)
    → NoCandidate id gs
    → find (has_id id) gs ≡ some g
    → is_candidate g.state ≡ false
unfolding find count_where
found-not_candidate id [] g n h = absurd (ground arith)
found-not_candidate id (k ∷ gs) g n h = ground (arith, found-not_candidate id gs g)

verify-refused :
    (c : Catalogue) (workspace id : Text)
    → NoCandidate id c.generations
    → is_err (verify_candidate_committable c workspace id) ≡ true
unfolding verify_candidate_committable
verify-refused c workspace id n = elim (Option-cases (find (has_id id) c.generations)) [
  | inl missing ↦ ground arith
  | inr (g, found) ↦ ground (arith, found-not_candidate id c.generations g n found)
]

-- The operation that settles a candidate.
pub data Settles (c : Catalogue) (id : Text) (c' : Catalogue) : Type 0 where
  commits :
      (now workspace : Text) (tree : Option Text)
      → activate_candidate now c workspace id tree ≡ ok c'
      → Settles c id c'
  fails : (code message : Text) → fail_candidate c id code message ≡ ok c' → Settles c id c'
  abandons : abandon_candidate c id ≡ ok c' → Settles c id c'

pub reconcile-generations :
    (c : Catalogue) (workspace id : Text) (c' : Catalogue)
    → reconcile_active_legacy_sessions c workspace id ≡ ok c'
    → (c'.generations ≡ c.generations) × (c'.workspaces ≡ c.workspaces)
unfolding reconcile_active_legacy_sessions
reconcile-generations c workspace id c' h = ground arith

pub activate_candidate-generations :
    (now : Text) (c : Catalogue) (workspace id : Text) (tree : Option Text) (c' : Catalogue)
    → activate_candidate now c workspace id tree ≡ ok c'
    → c'.generations ≡ (with_commit now c id tree).generations
unfolding activate_candidate
activate_candidate-generations now c workspace id tree c' h =
    let committed = with_commit now c id tree in
    let verify = verify_candidate_committable c workspace id in
    let (c1, activated, reconciled) =
      >>=-eq-ok (verify >> set_active now workspace id committed)
        (λ d. reconcile_active_legacy_sessions d workspace id) h in
    let (_, _, set) = >>=-eq-ok verify (λ done. set_active now workspace id committed) activated in
    let kept : c1.generations ≡ committed.generations = ground arith in
    (reconcile-generations c1 workspace id c' reconciled).0 ∙ kept

update_candidate-generations :
    (c : Catalogue) (id : Text) (change : Generation → Generation) (c' : Catalogue)
    → update_candidate c id change ≡ ok c'
    → (c'.generations ≡ update_where (is_candidate_row id) change c.generations)
      × (c'.workspaces ≡ c.workspaces)
update_candidate-generations c id change c' h = ground arith

Settles-NoCandidate :
    (c : Catalogue) (id : Text) (c' : Catalogue) → Settles c id c' → NoCandidate id c'.generations
unfolding fail_candidate abandon_candidate
Settles-NoCandidate c id c' (commits now workspace tree h) =
    rw (activate_candidate-generations now c workspace id tree c' h)
      (NoCandidate-update_where id (commit_row now tree) (λ g. refl) c.generations)
Settles-NoCandidate c id c' (fails code message h) =
    rw (update_candidate-generations c id (failed_row code message) c' h).0
      (NoCandidate-update_where id (failed_row code message) (λ g. refl) c.generations)
Settles-NoCandidate c id c' (abandons h) =
    rw (update_candidate-generations c id abandoned_row c' h).0
      (NoCandidate-update_where id abandoned_row (λ g. refl) c.generations)

-- Once a candidate has been activated, failed or abandoned, it can neither be activated, for
-- whatever workspace, nor failed nor abandoned again: each of the three is refused.
pub settled-refused :
    (c : Catalogue) (id : Text) (c' : Catalogue)
    → Settles c id c'
    → (now workspace code message : Text) (tree : Option Text)
    → (is_err (activate_candidate now c' workspace id tree) ≡ true)
      × (is_err (fail_candidate c' id code message) ≡ true)
      × (is_err (abandon_candidate c' id) ≡ true)
unfolding activate_candidate fail_candidate abandon_candidate
settled-refused c id c' s now workspace code message tree =
    let none_left = Settles-NoCandidate c id c' s in
    let refused = verify-refused c' workspace id none_left in
    (ground arith, ground arith, ground arith)

candidate-not_committed : (s : GenerationState) → is_candidate s ≡ true → is_committed s ≡ false
candidate-not_committed GenerationState.candidate h = refl
candidate-not_committed GenerationState.committed h = sym h
candidate-not_committed GenerationState.failed h = refl
candidate-not_committed GenerationState.abandoned h = refl

latest_committed-cons :
    (workspace : Text) (g : Generation) (xs ys : List Generation)
    → latest_committed workspace xs ≡ latest_committed workspace ys
    → latest_committed workspace (g ∷ xs) ≡ latest_committed workspace (g ∷ ys)
unfolding latest_committed
latest_committed-cons workspace g xs ys h = rw h refl

latest_committed-update_where :
    (id : Text) (change : Generation → Generation)
    → ((g : Generation) → is_committed (change g).state ≡ false)
    → (workspace : Text) (gs : List Generation)
    → latest_committed workspace (update_where (is_candidate_row id) change gs)
      ≡ latest_committed workspace gs
unfolding update_where latest_committed
latest_committed-update_where id change leaves workspace [] = refl
latest_committed-update_where id change leaves workspace (g ∷ gs) =
    let rest = latest_committed-update_where id change leaves workspace gs in
    elim (Bool-cases (is_candidate_row id g)) [
      | inl hit ↦
          let out : text_eq g.workspace_id workspace && is_committed g.state ≡ false =
            ground (arith, candidate-not_committed g.state) in
          let out' : text_eq (change g).workspace_id workspace && is_committed (change g).state
              ≡ false =
            ground (arith, leaves g) in
          rw (hit, out, out') rest
      | inr miss ↦
          let same : (if is_candidate_row id g then change g else g) ≡ g = rw miss refl in
          ap (λ k. latest_committed workspace (k ∷ update_where (is_candidate_row id) change gs))
            same
          ∙ latest_committed-cons workspace g (update_where (is_candidate_row id) change gs) gs rest
    ]

-- A candidate that is failed or abandoned leaves the last valid generation authoritative: the active
-- generation of every workspace is what it was, and so is the latest committed one, from which the
-- next candidate begins.
pub unsuccessful-authority :
    (c : Catalogue) (id code message : Text) (c' : Catalogue)
    → (fail_candidate c id code message ≡ ok c') ⊎ (abandon_candidate c id ≡ ok c')
    → (c'.workspaces ≡ c.workspaces)
      × ((workspace : Text)
          → latest_committed workspace c'.generations ≡ latest_committed workspace c.generations)
unfolding fail_candidate abandon_candidate
unsuccessful-authority c id code message c' (inl h) =
    let (rows, kept) = update_candidate-generations c id (failed_row code message) c' h in
    (
      kept,
      λ w.
          rw rows (
            latest_committed-update_where id (failed_row code message) (λ g. refl) w c.generations),
    )
unsuccessful-authority c id code message c' (inr h) =
    let (rows, kept) = update_candidate-generations c id abandoned_row c' h in
    (
      kept,
      λ w. rw rows (latest_committed-update_where id abandoned_row (λ g. refl) w c.generations),
    )
