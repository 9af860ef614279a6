-- ===== src/Catalogue/Generations.antt =====
-- The operations of src/generation.rs. A transaction that fails leaves the catalogue as it was, so
-- an operation returns the new catalogue or an error.
use workspace_atlas.Errors.{AtlasError}
use workspace_atlas.Common.{
  ℕ, ◌+◌, Bool, not, ◌&&◌, List, [], ◌∷◌, ◌++◌, Option, none, some, Text, codes, text_eq, Result,
  ok, err, ◌>>=◌, ◌>>◌, refuse_if, if◌then◌else◌, ltb, ◌==◌, max, any,
}
use workspace_atlas.Catalogue.Tables.{
  GenerationState, TriggerKind, Generation, Workspace, Catalogue, find, update_where, count_where,
  is_candidate, is_committed, state_as_str, generation_id,
}
use workspace_atlas.Catalogue.Sessions.{reconcile_active_legacy_sessions}

-- The keys that an update or a query looks for.
abbrev pub has_id : Text → Generation → Bool
has_id id g = text_eq g.generation_id id

abbrev pub is_candidate_row : Text → Generation → Bool
is_candidate_row id g = has_id id g && is_candidate g.state

abbrev pub is_committed_row : Text → Text → Generation → Bool
is_committed_row workspace id g =
    has_id id g && text_eq g.workspace_id workspace && is_committed g.state

-- `ORDER BY sequence_no DESC LIMIT 1` over the committed rows of a workspace.
unfoldable pub latest_committed : Text → List Generation → Option Generation
latest_committed workspace [] = none
latest_committed workspace (g ∷ gs) =
    let best = latest_committed workspace gs in
    if text_eq g.workspace_id workspace && is_committed g.state
    then elim best [
      | none ↦ some g
      | some b ↦ if ltb b.sequence_no g.sequence_no then some g else some b
    ]
    else best

-- `COALESCE(MAX(sequence_no), 0)`.
unfoldable pub max_sequence : Text → List Generation → ℕ
max_sequence workspace [] = 0
max_sequence workspace (g ∷ gs) =
    let rest = max_sequence workspace gs in
    if text_eq g.workspace_id workspace then max g.sequence_no rest else rest

abbrev pub parent_of : Option Generation → Option Text
parent_of none = none
parent_of (some g) = some g.generation_id

-- The row that `begin_candidate` inserts, and whose leading columns it returns.
abbrev pub candidate_row :
    (List ℕ → Text)
    → (now : Text) → List Generation
    → Text
    → TriggerKind
    → (provider_set_hash schema_version : Text) → Generation
candidate_row hash now generations workspace trigger provider_set_hash schema_version =
    let next_seq = max_sequence workspace generations + 1 in
    record {
      generation_id = generation_id hash workspace next_seq;
      workspace_id = workspace;
      parent_generation_id = parent_of (latest_committed workspace generations);
      sequence_no = next_seq;
      state = GenerationState.candidate;
      trigger_kind = trigger;
      source_tree_hash = none;
      provider_set_hash = provider_set_hash;
      schema_version = schema_version;
      created_at = now;
      committed_at = none;
      failure_code = none;
      failure_message = none;
    }

-- `INSERT INTO index_generation`: the workspace must exist, and the key and the pair of workspace and
-- sequence number must be new.
abbrev pub insert_generation : Generation → Catalogue → Result AtlasError Catalogue
insert_generation g c =
    refuse_if (not (any (λ (w : Workspace). text_eq w.workspace_id g.workspace_id) c.workspaces))
      (AtlasError.sqlite (codes "workspace_id"))
    >> refuse_if (any (has_id g.generation_id) c.generations)
        (AtlasError.sqlite (codes "generation_id"))
    >> refuse_if
        (any
          (λ (h : Generation).
            text_eq h.workspace_id g.workspace_id && h.sequence_no == g.sequence_no)
          c.generations)
        (AtlasError.sqlite (codes "sequence_no"))
    >> ok (record c { generations = g ∷ c.generations })

unfoldable pub begin_candidate :
    (List ℕ → Text)
    → (now : Text) → Catalogue
    → Text
    → TriggerKind
    → (provider_set_hash schema_version : Text) → Result AtlasError (Generation × Catalogue)
begin_candidate hash now c workspace trigger provider_set_hash schema_version =
    let g =
      candidate_row hash now c.generations workspace trigger provider_set_hash schema_version in
    insert_generation g c >>= λ c'. ok (g, c')

unfoldable pub verify_candidate_committable : Catalogue → Text → Text → Result AtlasError (Unit {0})
verify_candidate_committable c workspace id = elim (find (has_id id) c.generations) [
  | none ↦ err (AtlasError.generation_state_invalid (codes "<missing>") (codes "candidate"))
  | some g ↦
      refuse_if (not (text_eq g.workspace_id workspace)) (
        AtlasError.generation_state_invalid (codes "workspace " ++ g.workspace_id)
          (codes "workspace " ++ workspace))
      >> refuse_if (not (is_candidate g.state))
          (AtlasError.generation_state_invalid (state_as_str g.state) (codes "candidate"))
]

-- `COALESCE(new, old)`.
abbrev pub coalesce : Option Text → Option Text → Option Text
coalesce none old = old
coalesce (some new) old = some new

abbrev pub commit_row : Text → Option Text → Generation → Generation
commit_row now source_tree_hash g = record g {
  state = GenerationState.committed;
  committed_at = some now;
  source_tree_hash = coalesce source_tree_hash g.source_tree_hash;
}

-- `UPDATE workspace SET active_generation_id`, with the trigger on it.
abbrev pub set_active : Text → Text → Text → Catalogue → Result AtlasError Catalogue
set_active now workspace id c =
    refuse_if
      (any (λ (w : Workspace). text_eq w.workspace_id workspace) c.workspaces
        && not (any (is_committed_row workspace id) c.generations))
      (AtlasError.sqlite (codes "active generation must be committed and belong to workspace"))
    >> ok (record c {
      workspaces =
          update_where (λ (w : Workspace). text_eq w.workspace_id workspace)
            (λ (w : Workspace). record w { active_generation_id = some id; updated_at = now })
            c.workspaces;
    })

abbrev pub with_commit : Text → Catalogue → Text → Option Text → Catalogue
with_commit now c id source_tree_hash = record c {
  generations = update_where (is_candidate_row id) (commit_row now source_tree_hash) c.generations;
}

unfoldable pub activate_candidate :
    (now : Text)
    → Catalogue
    → (workspace id : Text) → (source_tree_hash : Option Text) → Result AtlasError Catalogue
activate_candidate now c workspace id source_tree_hash =
    verify_candidate_committable c workspace id
    >> set_active now workspace id (with_commit now c id source_tree_hash)
    >>= λ c'. reconcile_active_legacy_sessions c' workspace id

-- `if updated == 0 { return Err(…) }` after an update of the candidate.
abbrev pub update_candidate :
    Catalogue → Text → (Generation → Generation) → Result AtlasError Catalogue
update_candidate c id change =
    refuse_if (count_where (is_candidate_row id) c.generations == 0)
      (AtlasError.generation_state_invalid (codes "<not candidate>") (codes "candidate"))
    >> ok (record c { generations = update_where (is_candidate_row id) change c.generations })

abbrev pub failed_row : Text → Text → Generation → Generation
failed_row code message g = record g {
  state = GenerationState.failed;
  failure_code = some code;
  failure_message = some message;
}

unfoldable pub fail_candidate :
    Catalogue → (id failure_code failure_message : Text) → Result AtlasError Catalogue
fail_candidate c id failure_code failure_message =
    update_candidate c id (failed_row failure_code failure_message)

abbrev pub abandoned_row : Generation → Generation
abandoned_row g = record g { state = GenerationState.abandoned }

unfoldable pub abandon_candidate : Catalogue → Text → Result AtlasError Catalogue
abandon_candidate c id = update_candidate c id abandoned_row

unfoldable pub load_generation : Catalogue → Text → Option Generation
load_generation c id = find (has_id id) c.generations
