-- ===== src/Planner/Confirm.antt =====
-- `validateEmitBinding` and `planConfirmationTransition` of
-- scripts/lib/runtime/transition-planner-emit-confirm.mjs.
pub mod Outcome
use ev4_builder_assistant_re.Base.{
  ℕ, ◌+◌, String, Bool, true, false, not, ◌&&◌, ◌||◌, List, [], ◌∷◌, ◌++◌, Option, none, some,
  is_empty, template, take_text, str_eq, if◌then◌else◌,
}
use ev4_builder_assistant_re.Canonical.{canonical_digest, digest_without, sorted_canonical_json}
use ev4_builder_assistant_re.Diagnostics.{Check, ◌reports◌, failures}
use ev4_builder_assistant_re.Json.{
  Value, null, bool, str, object, array, get, put, truthy, strict_eq, has_length, plus_one,
}
use ev4_builder_assistant_re.Primitives.Blockers.{js_or, collect_active_blockers}
use ev4_builder_assistant_re.Primitives.Checkpoint.{
  CheckpointInput, build_checkpoint, update_session, build_active, waiting_for_confirmation,
}
use ev4_builder_assistant_re.Primitives.Names.{generation_ref}
use ev4_builder_assistant_re.Primitives.Sets.{same_set}
use ev4_builder_assistant_re.Publication.{confirm_batch, Refs, validate_publication}
use ev4_builder_assistant_re.Planner.Types.{
  Predecessor, AuxiliaryFile, json, Successor, Plan, failed, thrown, planned, checked_plan,
  predecessor_entry, resulting_entry, publication_entry, action_ids, action_digests, batch_id,
}

abbrev pub receipt_schema : String
receipt_schema = "ev4-builder-confirmation-receipt@2.0.0"

abbrev pub confirmation_schema : String
confirmation_schema = "ev4-builder-confirmation-result@2.0.0"

-- `sortedCanonicalJson(v) === sortedCanonicalJson(w)`.
unfoldable pub same_json : Value → Value → Bool
same_json v w = str_eq (sorted_canonical_json v) (sorted_canonical_json w)

-- `validateEmitBinding`, on an emit result that was read.
unfoldable pub emit_binding_checks : Predecessor → Value → List Check
emit_binding_checks p emitted =
    ((not (strict_eq (get "run_id" emitted) (get "run_id" p.manifest))
        || not (strict_eq (get "context_digest" emitted) (get "context_digest" p.context)))
      reports "RUN-CONFIRM-002")
    ∷ (not (
          strict_eq (get "source_snapshot_sha256" emitted)
            (get "source_snapshot_sha256" p.manifest))
        reports "RUN-CONFIRM-003")
    ∷ ((not (strict_eq (get "package_digest" emitted) (get "canonical_package_digest" p.context))
          || (not (
                strict_eq (get "selected_candidate_id" emitted)
                  (get "selected_candidate_id" p.context))
              || not (strict_eq (get "batch_id" emitted) (batch_id p.context))))
        reports "RUN-CONFIRM-004")
    ∷ ((not (same_set (get "action_ids" emitted) (action_ids p.context))
          || not (same_json (get "action_digests" emitted) (action_digests p.context)))
        reports "RUN-CONFIRM-005")
    ∷ ((not (
            strict_eq (get "checkpoint_id" (get "resulting_checkpoint" emitted))
              (get "checkpoint_id" p.checkpoint))
          || (not (
                strict_eq (get "checkpoint_sequence" (get "resulting_checkpoint" emitted))
                  (get "checkpoint_sequence" p.checkpoint))
              || not (
                  strict_eq (get "parent_checkpoint_id" (get "resulting_checkpoint" emitted))
                    (get "parent_checkpoint_id" p.checkpoint))))
        reports "RUN-CONFIRM-006")
    ∷ []

unfoldable pub emit_binding : Predecessor → List String
emit_binding p =
    p.planning.diagnostics
    ++ (if truthy p.planning.emit_result
        then failures (emit_binding_checks p p.planning.emit_result)
        else [])

unfoldable pub confirm_checks : Predecessor → Value → List Check
confirm_checks p user_token =
    (truthy (get "active_confirmation_receipt_ref" p.manifest) reports "RUN-CONFIRM-007")
    ∷ ((not (strict_eq (get "runtime_state" p.checkpoint) waiting_for_confirmation)
          || not (strict_eq (get "runtime_state" p.session) waiting_for_confirmation))
        reports "RUN-CONFIRM-008")
    ∷ ((has_length (get "confirmed_action_ids" p.checkpoint)
          || not (same_set (get "unconfirmed_action_ids" p.checkpoint) (action_ids p.context)))
        reports "RUN-CONFIRM-009")
    ∷ (not (strict_eq (get "batch_id" p.checkpoint) (batch_id p.context)) reports "RUN-CONFIRM-010")
    ∷ (not (strict_eq user_token (get "expected_user_token" (get "confirmation" p.context)))
        reports "RUN-CONFIRM-011")
    ∷ (not (is_empty (collect_active_blockers p.session p.checkpoint)) reports "RUN-CONFIRM-012")
    ∷ []

unfoldable pub confirm_diagnostics : Predecessor → Value → List String
confirm_diagnostics p user_token = failures (confirm_checks p user_token) ++ emit_binding p

unfoldable pub confirm_input : Predecessor → CheckpointInput
confirm_input p = record {
  run_id = get "run_id" p.manifest;
  session_id = get "session_id" p.session;
  sequence = plus_one (get "checkpoint_sequence" p.checkpoint);
  parent_id = get "checkpoint_id" p.checkpoint;
  state = build_active;
  confirmed_action_ids = action_ids p.context;
  unconfirmed_action_ids = array [];
  unresolved_blockers = js_or (get "unresolved_blockers" p.checkpoint) (array []);
  assertions = get "assertions" p.checkpoint;
  evidence_ledger = get "evidence_ledger" p.checkpoint;
  created_from = str "user_confirmation";
}

unfoldable pub confirm_checkpoint : Predecessor → Value
confirm_checkpoint p = build_checkpoint p.context (confirm_input p)

unfoldable pub undigested_receipt : Predecessor → Value → Value → Value
undigested_receipt p user_token checkpoint = object (
    ("schema", str receipt_schema)
    ∷ ("run_id", get "run_id" p.manifest)
    ∷ ("runtime_mode", str "real-builder-run")
    ∷ ("context_digest", get "context_digest" p.context)
    ∷ ("package_digest", get "canonical_package_digest" p.context)
    ∷ ("selected_candidate_id", get "selected_candidate_id" p.context)
    ∷ ("confirmation_id", get "confirmation_id" (get "confirmation" p.context))
    ∷ ("operator_token", user_token)
    ∷ ("batch_id", batch_id p.context)
    ∷ ("action_ids", action_ids p.context)
    ∷ ("action_digests", action_digests p.context)
    ∷ ("predecessor_checkpoint", predecessor_entry p.checkpoint)
    ∷ ("resulting_checkpoint", resulting_entry checkpoint)
    ∷ ("receipt_digest", null)
    ∷ [])

unfoldable pub confirm_result : Predecessor → Value → Value → String → Refs → Value
confirm_result p checkpoint receipt_digest transition_id refs = object (
    ("schema", str confirmation_schema)
    ∷ ("run_id", get "run_id" p.manifest)
    ∷ ("transition_id", str transition_id)
    ∷ ("status", str "accepted")
    ∷ ("context_digest", get "context_digest" p.context)
    ∷ ("package_digest", get "canonical_package_digest" p.context)
    ∷ ("selected_candidate_id", get "selected_candidate_id" p.context)
    ∷ ("confirmation_id", get "confirmation_id" (get "confirmation" p.context))
    ∷ ("batch_id", batch_id p.context)
    ∷ ("action_ids", action_ids p.context)
    ∷ ("action_digests", action_digests p.context)
    ∷ ("predecessor_checkpoint", predecessor_entry p.checkpoint)
    ∷ ("resulting_checkpoint", resulting_entry checkpoint)
    ∷ ("receipt_digest", receipt_digest)
    ∷ ("runtime_state", build_active)
    ∷ ("builder_build_complete", bool false)
    ∷ ("responsive_complete", bool false)
    ∷ ("production_ready", bool false)
    ∷ ("publication", publication_entry confirm_batch refs)
    ∷ ("blocking_diagnostics", array [])
    ∷ [])

unfoldable pub confirm_refs : String → String → Refs
confirm_refs ref transition_id = record {
  generation_ref = ref;
  result_ref =
      template ("transitions/confirmation/" ∷ transition_id ∷ "/confirmation-result.json" ∷ []);
  receipt_ref =
      template ("transitions/confirmation/" ∷ transition_id ∷ "/confirmation-receipt.json" ∷ []);
  evidence_ref = "";
  status_ref = "";
  gate_ref = "";
}

module _ (sha256 : String → String) where
  unfoldable pub confirm_receipt : Predecessor → Value → Value
  unfolding undigested_receipt
  confirm_receipt p user_token =
      let receipt = undigested_receipt p user_token (confirm_checkpoint p) in
      put "receipt_digest" (str (digest_without sha256 receipt "receipt_digest")) receipt

  unfoldable pub confirm_successor : Predecessor → Value → String → Refs → Successor
  confirm_successor p user_token transition_id refs =
      let checkpoint = confirm_checkpoint p in
      let receipt = confirm_receipt p user_token in
      let result = confirm_result p checkpoint (get "receipt_digest" receipt) transition_id refs in
      record {
        operation = confirm_batch;
        context = p.context;
        session = update_session p.session checkpoint;
        checkpoint = checkpoint;
        manifest_updates =
            ("active_confirmation_receipt_ref", str refs.receipt_ref)
            ∷ ("active_confirmation_result_ref", str refs.result_ref)
            ∷ ("confirmed_checkpoint_id", get "checkpoint_id" checkpoint)
            ∷ ("confirmed_checkpoint_sequence", get "checkpoint_sequence" checkpoint)
            ∷ [];
        result = result;
        auxiliary_files =
            record { ref = refs.receipt_ref; content = json receipt }
            ∷ record { ref = refs.result_ref; content = json result }
            ∷ [];
        refs = refs;
      }

  publish_confirm : Predecessor → Value → String → Refs → Plan
  publish_confirm p user_token transition_id refs =
      let s = confirm_successor p user_token transition_id refs in
      let problems =
        validate_publication s.result confirm_batch refs confirmation_schema
          (get "run_id" p.manifest) in
      checked_plan problems s

  unfoldable pub confirm_transition_id : Predecessor → Value → String
  confirm_transition_id p user_token = template (
      "CONFIRM-"
      ∷ take_text 16 (
          canonical_digest sha256 (
            object (
              ("run_id", get "run_id" p.manifest)
              ∷ ("emit_transition", get "transition_id" p.planning.emit_result)
              ∷ ("token", user_token)
              ∷ [])))
      ∷ [])

  -- With no diagnostic and no emit result the code reads a field of `null`, which throws.
  unfoldable pub plan_confirm : Predecessor → Value → Plan
  unfolding publish_confirm confirm_refs
  plan_confirm p user_token =
      if is_empty (confirm_diagnostics p user_token)
      then (if truthy p.planning.emit_result
          then elim (generation_ref (p.generation + 1)) [
            | none ↦ thrown
            | some ref ↦
                let transition_id = confirm_transition_id p user_token in
                publish_confirm p user_token transition_id (confirm_refs ref transition_id)
          ]
          else thrown)
      else failed (confirm_diagnostics p user_token)
