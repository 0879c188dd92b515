-- ===== src/Planner/Emit.antt =====
-- `planEmitTransition` of scripts/lib/runtime/transition-planner-emit-confirm.mjs.
pub mod Outcome
use ev4_builder_assistant_re.Base.{
  ℕ, ◌+◌, String, Bool, true, false, not, ◌||◌, List, [], ◌∷◌, ◌++◌, Option, none, some, is_empty,
  template, take_text, if◌then◌else◌,
}
use ev4_builder_assistant_re.Canonical.{canonical_digest}
use ev4_builder_assistant_re.Diagnostics.{Check, ◌reports◌, failures}
use ev4_builder_assistant_re.Json.{
  Value, null, bool, str, object, array, get, truthy, strict_eq, has_length, plus_one, to_text,
}
use ev4_builder_assistant_re.Primitives.Blockers.{js_or, collect_active_blockers}
use ev4_builder_assistant_re.Primitives.Checkpoint.{
  CheckpointInput, build_checkpoint, update_session, build_active, waiting_for_confirmation,
}
use ev4_builder_assistant_re.Primitives.Names.{generation_ref}
use ev4_builder_assistant_re.Primitives.Sets.{same_set}
use ev4_builder_assistant_re.Publication.{emit_batch, Refs, validate_publication}
use ev4_builder_assistant_re.Planner.Types.{
  Predecessor, AuxiliaryFile, json, Successor, Plan, failed, thrown, planned, checked_plan,
  preparation_diagnostics, predecessor_entry, resulting_entry, publication_entry, action_ids,
  action_digests, batch_id,
}

abbrev pub emit_schema : String
emit_schema = "ev4-builder-emit-batch-result@2.0.0"

unfoldable pub emit_checks : Predecessor → List Check
emit_checks p =
    ((truthy (get "active_emit_result_ref" p.manifest)
        || truthy (get "active_confirmation_receipt_ref" p.manifest))
      reports "RUN-EMIT-001")
    ∷ ((not (strict_eq (get "runtime_state" p.checkpoint) build_active)
          || not (strict_eq (get "runtime_state" p.session) build_active))
        reports "RUN-EMIT-002")
    ∷ ((not (same_set (get "unconfirmed_action_ids" p.checkpoint) (action_ids p.context))
          || has_length (get "confirmed_action_ids" p.checkpoint))
        reports "RUN-EMIT-003")
    ∷ (not (is_empty (collect_active_blockers p.session p.checkpoint)) reports "RUN-EMIT-004")
    ∷ []

unfoldable pub emit_diagnostics : Predecessor → List String
emit_diagnostics p = preparation_diagnostics p.planning ++ failures (emit_checks p)

unfoldable pub emit_input : Predecessor → CheckpointInput
emit_input p = record {
  run_id = get "run_id" p.manifest;
  session_id = get "session_id" p.session;
  sequence = plus_one (get "checkpoint_sequence" p.checkpoint);
  parent_id = get "checkpoint_id" p.checkpoint;
  state = waiting_for_confirmation;
  confirmed_action_ids = array [];
  unconfirmed_action_ids = action_ids p.context;
  unresolved_blockers = js_or (get "unresolved_blockers" p.checkpoint) (array []);
  assertions = get "assertions" p.checkpoint;
  evidence_ledger = get "evidence_ledger" p.checkpoint;
  created_from = str "initial";
}

unfoldable pub emit_checkpoint : Predecessor → Value
emit_checkpoint p = build_checkpoint p.context (emit_input p)

unfoldable pub emit_result : Predecessor → Value → String → Refs → Value
emit_result p checkpoint transition_id refs = object (
    ("schema", str emit_schema)
    ∷ ("run_id", get "run_id" p.manifest)
    ∷ ("transition_id", str transition_id)
    ∷ ("status", str "accepted")
    ∷ ("source_snapshot_sha256", get "source_snapshot_sha256" p.manifest)
    ∷ ("context_digest", get "context_digest" p.context)
    ∷ ("package_digest", get "canonical_package_digest" p.context)
    ∷ ("selected_candidate_id", get "selected_candidate_id" p.context)
    ∷ ("batch_id", batch_id p.context)
    ∷ ("action_ids", action_ids p.context)
    ∷ ("action_digests", action_digests p.context)
    ∷ ("predecessor_checkpoint", predecessor_entry p.checkpoint)
    ∷ ("resulting_checkpoint", resulting_entry checkpoint)
    ∷ ("runtime_state", waiting_for_confirmation)
    ∷ ("builder_build_complete", bool false)
    ∷ ("responsive_complete", bool false)
    ∷ ("production_ready", bool false)
    ∷ ("publication", publication_entry emit_batch refs)
    ∷ ("blocking_diagnostics", array [])
    ∷ [])

unfoldable pub emit_refs : String → String → Refs
emit_refs ref transition_id = record {
  generation_ref = ref;
  result_ref =
      template ("transitions/emit-batch/" ∷ transition_id ∷ "/emit-batch-result.json" ∷ []);
  receipt_ref = "";
  evidence_ref = "";
  status_ref = "";
  gate_ref = "";
}

unfoldable pub emit_successor : Predecessor → String → Refs → Successor
emit_successor p transition_id refs =
    let checkpoint = emit_checkpoint p in
    let result = emit_result p checkpoint transition_id refs in
    record {
      operation = emit_batch;
      context = p.context;
      session = update_session p.session checkpoint;
      checkpoint = checkpoint;
      manifest_updates = ("active_emit_result_ref", str refs.result_ref) ∷ [];
      result = result;
      auxiliary_files = record { ref = refs.result_ref; content = json result } ∷ [];
      refs = refs;
    }

-- The plan once the checks pass: the result is published only if its own check passes.
publish_emit : Predecessor → String → Refs → Plan
publish_emit p transition_id refs =
    let s = emit_successor p transition_id refs in
    let problems =
      validate_publication s.result emit_batch refs emit_schema (get "run_id" p.manifest) in
    checked_plan problems s

module _ (sha256 : String → String) where
  unfoldable pub emit_transition_id : Predecessor → String
  emit_transition_id p = template (
      "EMIT-"
      ∷ take_text 16 (
          canonical_digest sha256 (
            object (
              ("run_id", get "run_id" p.manifest)
              ∷ ("context_digest", get "context_digest" p.context)
              ∷ ("predecessor", get "checkpoint_id" p.checkpoint)
              ∷ [])))
      ∷ [])

  unfoldable pub plan_emit : Predecessor → Plan
  unfolding publish_emit emit_refs
  plan_emit p =
      if is_empty (emit_diagnostics p)
      then elim (generation_ref (p.generation + 1)) [
        | none ↦ thrown
        | some ref ↦
            let transition_id = emit_transition_id p in
            publish_emit p transition_id (emit_refs ref transition_id)
      ]
      else failed (emit_diagnostics p)
