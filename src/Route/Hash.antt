-- ===== src/Route/Hash.antt =====
-- `canonical_decision_hash` of src/context_route.rs: what a decision feeds to the canonical encoder.
use workspace_atlas.Common.{ℕ, Text, codes, List, [], ◌∷◌, Option, none, some, length}
use mathlib.Core.Option
use workspace_atlas.Route.Vocabulary.{
  route_ascii, capability_ascii, caller_state_ascii, intent_ascii, light_operation_ascii,
  unavailable_reason_ascii, task_kind_ascii,
}
use workspace_atlas.Route.Explanation.{signal_ascii, reason_ascii}
use workspace_atlas.Route.Encoder.{
  CanonicalEncoder, encoder, ◌▷◌, bytes, text, optional_text, u64, finish,
}
use workspace_atlas.Route.Request.{
  Capabilities, ContextRouteRequest, GenerationObservation, observed, unavailable,
  DeepSemanticBudget, VersionedOperation, ProfileIdentity,
}
use workspace_atlas.Route.Decided.{ContextRouteDecision}

-- `encode_generation`.
unfoldable pub encode_generation : GenerationObservation → CanonicalEncoder → CanonicalEncoder
unfolding text unavailable_reason_ascii
encode_generation (observed generation_id) e = e ▷ text (codes "observed") ▷ text generation_id
encode_generation (unavailable reason) e =
    e ▷ text (codes "unavailable") ▷ text (unavailable_reason_ascii reason)

-- The loops and branches of `canonical_decision_hash`.
unfoldable pub encode_operations : List VersionedOperation → CanonicalEncoder → CanonicalEncoder
unfolding text light_operation_ascii
encode_operations [] e = e
encode_operations (o ∷ os) e =
    encode_operations os (e ▷ text (light_operation_ascii o.operation) ▷ text o.version)

unfoldable pub encode_capabilities : Capabilities → CanonicalEncoder → CanonicalEncoder
unfolding text capability_ascii caller_state_ascii
encode_capabilities [] e = e
encode_capabilities ((capability, state) ∷ m) e =
    encode_capabilities m (e ▷ text (capability_ascii capability) ▷ text (caller_state_ascii state))

unfoldable pub encode_profile : Option ProfileIdentity → CanonicalEncoder → CanonicalEncoder
unfolding text bytes
encode_profile (some p) e =
    e ▷ bytes (1 ∷ []) ▷ text p.profile_id ▷ text p.profile_version ▷ text p.manifest_digest
encode_profile none e = e ▷ bytes (0 ∷ [])

unfoldable pub encode_budget : Option DeepSemanticBudget → CanonicalEncoder → CanonicalEncoder
unfolding text bytes u64
encode_budget (some b) e =
    e
    ▷ bytes (1 ∷ [])
    ▷ u64 b.max_records
    ▷ u64 b.max_source_bytes
    ▷ u64 b.max_estimated_tokens
    ▷ u64 b.max_depth
    ▷ u64 b.max_work_units
    ▷ u64 b.uncertainty_reserve_percent
    ▷ text b.budget_digest
encode_budget none e = e ▷ bytes (0 ∷ [])

unfoldable pub encode_texts {ℓ} :
    {A : Type ℓ} → (A → Text) → List A → CanonicalEncoder → CanonicalEncoder
unfolding text
encode_texts ascii [] e = e
encode_texts ascii (x ∷ xs) e = encode_texts ascii xs (e ▷ text (ascii x))

-- The request's part of the hashed bytes, from the contract versions on.
unfoldable pub encode_request : ContextRouteRequest → CanonicalEncoder → CanonicalEncoder
unfolding text u64 optional_text encode_operations encode_capabilities encode_profile
    encode_generation encode_budget intent_ascii route_ascii task_kind_ascii
encode_request r e =
    e
    ▷ encode_operations r.light_operations
    ▷ text r.deep_contracts.planner_version
    ▷ text r.deep_contracts.projection_version
    ▷ text r.deep_contracts.context_ir_version
    ▷ text r.deep_contracts.estimator_version
    ▷ text r.normalized_task_hash
    ▷ optional_text (Option.map task_kind_ascii r.declared_kind)
    ▷ text (task_kind_ascii r.classifier_kind)
    ▷ text r.explicit_seeds.digest
    ▷ u64 r.explicit_seeds.path_count
    ▷ u64 r.explicit_seeds.symbol_count
    ▷ u64 (length r.caller_capabilities)
    ▷ encode_capabilities r.caller_capabilities
    ▷ text (intent_ascii r.atlas_intent)
    ▷ text (route_ascii r.route_floor)
    ▷ text (route_ascii r.route_ceiling)
    ▷ encode_profile r.capability_profile
    ▷ encode_profile r.cost_profile
    ▷ optional_text r.profile_registry_digest
    ▷ encode_generation r.starting_generation
    ▷ encode_budget r.deep_budget

-- `canonical_decision_hash`.
unfoldable pub canonical_decision_hash : (List ℕ → Text) → ContextRouteDecision → Text
unfolding encoder text u64 optional_text finish encode_request encode_capabilities encode_generation
    encode_texts route_ascii signal_ascii reason_ascii
canonical_decision_hash hash d = finish hash (
    encoder (codes "workspace-atlas/context-route-decision-v1")
    ▷ text d.request.schema_version
    ▷ text d.schema_version
    ▷ text d.policy_version
    ▷ text d.request.classifier_version
    ▷ encode_request d.request
    ▷ text (route_ascii d.effective_floor)
    ▷ text (route_ascii d.effective_ceiling)
    ▷ text (route_ascii d.initial_route)
    ▷ optional_text d.deep_budget_digest
    ▷ u64 (length d.requested_capabilities)
    ▷ encode_capabilities d.requested_capabilities
    ▷ encode_texts signal_ascii d.signals
    ▷ encode_texts reason_ascii d.reasons
    ▷ encode_generation d.starting_generation)
