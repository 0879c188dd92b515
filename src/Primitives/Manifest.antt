-- ===== src/Primitives/Manifest.antt =====
-- `buildManifest` and `buildCurrentPointer` of scripts/lib/runtime/run-primitives.mjs.
pub mod Fields
use ev4_builder_assistant_re.Base.{
  ℕ, String, List, [], ◌∷◌, Option, none, some, template, if◌then◌else◌,
}
use ev4_builder_assistant_re.Canonical.{digest_without}
use ev4_builder_assistant_re.Json.{
  Value, null, num, str, object, array, get, put, assign, strict_eq,
}
use ev4_builder_assistant_re.Primitives.Names.{generation_ref}
use ev4_builder_assistant_re.Primitives.Sources.{project_gate}

-- The arguments of `buildManifest`, less `context` and `checkpoint`. `generation` is the new
-- generation's number; the predecessor's fields are `null` for the first generation.
pub record ManifestInput : Type 0 where
  pub previous : Option Value
  pub run_id : Value
  pub source_mode : Value
  pub source_sha : Value
  pub receipt_sha : Value
  pub generation : ℕ
  pub predecessor_generation : Value
  pub predecessor_checkpoint_id : Value
  pub predecessor_checkpoint_sequence : Value
  pub updates : List (String × Value)

unfoldable pub initial_manifest : ManifestInput → Value
initial_manifest i = object (
    ("schema", str "ev4-builder-run-manifest@1.0.0")
    ∷ ("run_id", i.run_id)
    ∷ ("source_mode", i.source_mode)
    ∷ ("source_snapshot_ref", str "source/selected-source.json")
    ∷ ("source_snapshot_sha256", i.source_sha)
    ∷ (
      "receipt_snapshot_ref",
      if strict_eq i.source_mode project_gate then str "source/project-gate-receipt.json" else null,
    )
    ∷ ("receipt_snapshot_sha256", i.receipt_sha)
    ∷ ("active_emit_result_ref", null)
    ∷ ("active_confirmation_receipt_ref", null)
    ∷ ("active_confirmation_result_ref", null)
    ∷ ("confirmed_checkpoint_id", null)
    ∷ ("confirmed_checkpoint_sequence", null)
    ∷ ("evidence_snapshot_refs", array [])
    ∷ ("evidence_attachment_result_refs", array [])
    ∷ ("completion_result_ref", null)
    ∷ ("completion_status_ref", null)
    ∷ ("completion_gate_ref", null)
    ∷ [])

base_manifest : ManifestInput → Option Value → Value
unfolding initial_manifest
base_manifest i none = initial_manifest i
base_manifest i (some previous) = previous

unfoldable pub generation_entry : ManifestInput → String → Value → Value
generation_entry i ref checkpoint = object (
    ("number", num i.generation)
    ∷ ("ref", str ref)
    ∷ ("predecessor_generation", i.predecessor_generation)
    ∷ ("predecessor_checkpoint_id", i.predecessor_checkpoint_id)
    ∷ ("predecessor_checkpoint_sequence", i.predecessor_checkpoint_sequence)
    ∷ ("resulting_checkpoint_id", get "checkpoint_id" checkpoint)
    ∷ ("resulting_checkpoint_sequence", get "checkpoint_sequence" checkpoint)
    ∷ ("runtime_state", get "runtime_state" checkpoint)
    ∷ [])

-- The fields that every generation writes anew, after the updates.
bindings : ManifestInput → String → Value → Value → List (String × Value)
unfolding generation_entry
bindings i ref context checkpoint =
    ("runtime_context_ref", str (template (ref ∷ "/runtime-context.json" ∷ [])))
    ∷ ("runtime_context_digest", get "context_digest" context)
    ∷ ("session_ref", str (template (ref ∷ "/session-state.json" ∷ [])))
    ∷ ("checkpoint_ref", str (template (ref ∷ "/checkpoint.json" ∷ [])))
    ∷ ("current_runtime_state", get "runtime_state" checkpoint)
    ∷ ("current_checkpoint_id", get "checkpoint_id" checkpoint)
    ∷ ("current_checkpoint_sequence", get "checkpoint_sequence" checkpoint)
    ∷ ("canonical_package_digest", get "canonical_package_digest" context)
    ∷ ("selected_candidate_id", get "selected_candidate_id" context)
    ∷ ("active_batch_id", get "batch_id" (get "action_batch" context))
    ∷ ("generation", generation_entry i ref checkpoint)
    ∷ ("manifest_digest", null)
    ∷ []

undigested_manifest : ManifestInput → String → Value → Value → Value
unfolding base_manifest bindings
undigested_manifest i ref context checkpoint =
    assign (bindings i ref context checkpoint) (assign i.updates (base_manifest i i.previous))

module _ (sha256 : String → String) where
  -- The last write of a builder: the digest of the value with the digest field left out.
  unfoldable pub sealed : String → Value → Value
  sealed k v = put k (str (digest_without sha256 v k)) v

  -- `none` is the error of a generation number out of range.
  unfoldable pub build_manifest : ManifestInput → Value → Value → Option Value
  unfolding undigested_manifest sealed
  build_manifest i context checkpoint = elim (generation_ref i.generation) [
    | none ↦ none
    | some ref ↦ some (sealed "manifest_digest" (undigested_manifest i ref context checkpoint))
  ]

  unfoldable pub undigested_pointer : Value → Value → Value → Value
  undigested_pointer manifest context checkpoint = object (
      ("schema", str "ev4-builder-current-generation@1.0.0")
      ∷ ("run_id", get "run_id" manifest)
      ∷ ("generation", get "number" (get "generation" manifest))
      ∷ ("generation_ref", get "ref" (get "generation" manifest))
      ∷ ("manifest_digest", get "manifest_digest" manifest)
      ∷ ("context_digest", get "context_digest" context)
      ∷ ("checkpoint_id", get "checkpoint_id" checkpoint)
      ∷ ("checkpoint_sequence", get "checkpoint_sequence" checkpoint)
      ∷ ("runtime_state", get "runtime_state" checkpoint)
      ∷ ("pointer_digest", null)
      ∷ [])

  unfoldable pub build_current_pointer : Value → Value → Value → Value
  unfolding sealed undigested_pointer
  build_current_pointer manifest context checkpoint =
      sealed "pointer_digest" (undigested_pointer manifest context checkpoint)
