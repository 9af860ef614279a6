-- ===== src/Catalogue/Tables.antt =====
-- The rows of the catalogue that src/generation.rs and src/task_session.rs read and write, and the
-- enums and identifiers in them. Counts of files, which nothing here reads, are left out.
use workspace_atlas.Common.{
  ℕ, zero, suc, ◌%◌, ◌/◌, Bool, List, [], ◌∷◌, ◌++◌, Option, none, some, Text, codes, text_eq,
  if◌then◌else◌, true, false, take,
}

pub data GenerationState : Type 0 where
  candidate : GenerationState
  committed : GenerationState
  failed : GenerationState
  abandoned : GenerationState

pub data TriggerKind : Type 0 where
  baseline : TriggerKind
  watcher : TriggerKind
  reconcile : TriggerKind
  manual : TriggerKind
  provider_invalidation : TriggerKind
  full_rebuild : TriggerKind

pub data TaskSessionState : Type 0 where
  created : TaskSessionState
  context_compiled : TaskSessionState
  active : TaskSessionState
  reconciled : TaskSessionState
  completed : TaskSessionState
  abandoned : TaskSessionState
  failed : TaskSessionState

-- A row of `index_generation`.
pub record Generation : Type 0 where
  pub generation_id : Text
  pub workspace_id : Text
  pub parent_generation_id : Option Text
  pub sequence_no : ℕ
  pub state : GenerationState
  pub trigger_kind : TriggerKind
  pub source_tree_hash : Option Text
  pub provider_set_hash : Text
  pub schema_version : Text
  pub created_at : Text
  pub committed_at : Option Text
  pub failure_code : Option Text
  pub failure_message : Option Text

-- A row of `workspace`: its key, its active generation and the time of its last update.
pub record Workspace : Type 0 where
  pub workspace_id : Text
  pub active_generation_id : Option Text
  pub updated_at : Text

-- A row of `task_session`: what the lifecycle looks at.
pub record TaskSession : Type 0 where
  pub task_session_id : Text
  pub workspace_id : Text
  pub context_ir_version : Text
  pub state : TaskSessionState
  pub start_generation_id : Text

pub record Catalogue : Type 0 where
  pub generations : List Generation
  pub workspaces : List Workspace
  pub sessions : List TaskSession

module _ {A : Type 0} where
  -- `WHERE`: the rows for which the test holds, the first such row, and how many there are.
  unfoldable pub find : (A → Bool) → List A → Option A
  find test [] = none
  find test (x ∷ xs) = if test x then some x else find test xs

  unfoldable pub update_where : (A → Bool) → (A → A) → List A → List A
  update_where test change [] = []
  update_where test change (x ∷ xs) = (if test x then change x else x) ∷ update_where test change xs

  unfoldable pub count_where : (A → Bool) → List A → ℕ
  count_where test [] = 0
  count_where test (x ∷ xs) = if test x then suc (count_where test xs) else count_where test xs

abbrev pub is_candidate : GenerationState → Bool
is_candidate GenerationState.candidate = true
is_candidate state = false

abbrev pub is_committed : GenerationState → Bool
is_committed GenerationState.committed = true
is_committed state = false

unfoldable pub state_as_str : GenerationState → Text
state_as_str GenerationState.candidate = codes "candidate"
state_as_str GenerationState.committed = codes "committed"
state_as_str GenerationState.failed = codes "failed"
state_as_str GenerationState.abandoned = codes "abandoned"

unfoldable pub state_parse : Text → Option GenerationState
state_parse s =
    if text_eq s (codes "candidate")
    then some GenerationState.candidate
    else if text_eq s (codes "committed")
    then some GenerationState.committed
    else if text_eq s (codes "failed")
    then some GenerationState.failed
    else if text_eq s (codes "abandoned")
    then some GenerationState.abandoned
    else none

unfoldable pub trigger_as_str : TriggerKind → Text
trigger_as_str TriggerKind.baseline = codes "baseline"
trigger_as_str TriggerKind.watcher = codes "watcher"
trigger_as_str TriggerKind.reconcile = codes "reconcile"
trigger_as_str TriggerKind.manual = codes "manual"
trigger_as_str TriggerKind.provider_invalidation = codes "provider_invalidation"
trigger_as_str TriggerKind.full_rebuild = codes "full_rebuild"

-- The trigger of a row as `load_generation` reads it.
unfoldable pub trigger_of : Text → TriggerKind
trigger_of s =
    if text_eq s (codes "baseline")
    then TriggerKind.baseline
    else if text_eq s (codes "watcher")
    then TriggerKind.watcher
    else if text_eq s (codes "reconcile")
    then TriggerKind.reconcile
    else if text_eq s (codes "manual")
    then TriggerKind.manual
    else if text_eq s (codes "provider_invalidation")
    then TriggerKind.provider_invalidation
    else if text_eq s (codes "full_rebuild")
    then TriggerKind.full_rebuild
    else TriggerKind.manual

-- `to_le_bytes`, of as many bytes.
unfoldable pub le_bytes : ℕ → ℕ → List ℕ
le_bytes zero n = []
le_bytes (suc width) n = n % 256 ∷ le_bytes width (n / 256)

-- `generation_id` of src/ids.rs; the hash is BLAKE3 in hexadecimal, a parameter.
unfoldable pub generation_id : (List ℕ → Text) → Text → ℕ → Text
generation_id hash workspace sequence_no =
    codes "gen_" ++ take 32 (hash (workspace ++ 0x1f ∷ le_bytes 8 sequence_no))
