-- ===== src/Planner/Completion/Finish.antt =====
-- `deriveCompletionArtifacts` and `planCompletionTransition` of
-- scripts/lib/runtime/transition-planner-completion.mjs.
use ev4_builder_assistant_re.Base.{
  ◌+◌, String, Bool, true, false, not, ◌&&◌, ◌||◌, List, [], ◌∷◌, ◌++◌, map, none, some, is_empty,
  keep, every, template, take_text, if◌then◌else◌,
}
use ev4_builder_assistant_re.Canonical.{canonical_digest}
use ev4_builder_assistant_re.Diagnostics.{Check, ◌reports◌, failures}
use ev4_builder_assistant_re.Json.{
  Value, null, bool, str, object, array, get, put, strict_eq, plus_one, to_text,
}
use ev4_builder_assistant_re.Primitives.Blockers.{collect_active_blockers}
use ev4_builder_assistant_re.Primitives.Checkpoint.{
  CheckpointInput, build_checkpoint, update_session, build_active, completed,
  checkpoint_sequence_is_valid,
}
use ev4_builder_assistant_re.Primitives.Names.{generation_ref}
use ev4_builder_assistant_re.Publication.{real_completion, Refs, validate_publication}
use ev4_builder_assistant_re.Planner.Types.{
  Predecessor, json, Successor, Plan, failed, thrown, checked_plan, preparation_diagnostics,
  predecessor_entry, resulting_entry, publication_entry, action_ids, action_digests, batch_id,
}
use ev4_builder_assistant_re.Planner.Completion.{
  Verified, has_class, claim_verified, subjects_of, verify_prepared_evidence,
  validate_prepared_confirmation,
}

abbrev pub completion_schema : String
completion_schema = "ev4-builder-completion-result@2.0.0"

evidence_ids : List Verified → Value
evidence_ids vs = array (map (λ v. str v.evidence_id) vs)

unfoldable pub is_single : List Value → Bool
is_single (s ∷ []) = true
is_single _ = false

first_of_single : List Value → Value
first_of_single (s ∷ []) = s
first_of_single _ = null

-- The states of the completion status: which claims have verified evidence.
unfoldable pub completion_states : List Verified → List (String × Bool)
completion_states vs =
    ("scaffold_built", claim_verified vs (str "scaffold_built"))
    ∷ ("structure_built", claim_verified vs (str "structure_built"))
    ∷ ("content_filled", claim_verified vs (str "content_filled"))
    ∷ ("desktop_layout_established", claim_verified vs (str "desktop_layout_established"))
    ∷ ("export_checked", claim_verified vs (str "export_checked"))
    ∷ []

unfoldable pub completion_status : List Verified → Value
unfolding evidence_ids
completion_status vs = object (
    ("schema", str "ev4-builder-derived-completion-status@1.0.0")
    ∷ ("claim_scope", str "desktop")
    ∷ ("states", object (map (λ (s : String × Bool). (s.0, bool s.1)) (completion_states vs)))
    ∷ ("evidence", object (("export", bool (claim_verified vs (str "export_checked"))) ∷ []))
    ∷ (
      "derivation",
      object (
          ("required_actions_verified", bool true)
          ∷ ("verified_evidence_refs", evidence_ids vs)
          ∷ ("unresolved_blockers", array [])
          ∷ []),
    )
    ∷ ("scope_excludes_responsive", bool true)
    ∷ ("production_ready", bool false)
    ∷ [])

-- `derived_status === 'confirmed'` of a proof: the claim is verified, of one subject.
unfoldable pub proof_confirmed : List Verified → Value → Bool
unfolding is_single
proof_confirmed vs claim = claim_verified vs claim && is_single (subjects_of vs claim)

subjects_diagnostic : Value → Value
subjects_diagnostic claim = object (
    ("code", str "RUN-COMPLETE-EVIDENCE-009")
    ∷ (
      "message",
      str (
          template ("Verified Evidence subjects are inconsistent for " ∷ to_text claim ∷ "." ∷ [])),
    )
    ∷ [])

proof_entry : List Verified → Value → String → Value
unfolding evidence_ids is_single first_of_single subjects_diagnostic
proof_entry vs claim evidence_type =
    let subjects = subjects_of vs claim in
    object (
      ("claim_id", claim)
      ∷ ("subject_ref", first_of_single subjects)
      ∷ ("verification_method", str "internal_run_evidence_snapshot")
      ∷ ("required_evidence_types", array (str evidence_type ∷ []))
      ∷ ("verified_evidence_refs", evidence_ids (keep (has_class claim) vs))
      ∷ ("derived_status", str (if proof_confirmed vs claim then "confirmed" else "missing"))
      ∷ (
        "diagnostics",
        array (
            if is_empty subjects || is_single subjects then [] else subjects_diagnostic claim ∷ []),
      )
      ∷ [])

unfoldable pub completion_gate : List Verified → Value
unfolding proof_entry
completion_gate vs = object (
    ("schema", str "ev4-builder-derived-completion-gate@1.0.0")
    ∷ (
      "proofs",
      object (
          ("layout_verified", proof_entry vs (str "layout_verified") "frontend_screenshot")
          ∷ ("export_verified", proof_entry vs (str "export_verified") "export_json")
          ∷ []),
    )
    ∷ ("responsive_complete", bool false)
    ∷ ("production_ready", bool false)
    ∷ [])

-- `RUN-COMPLETE-005` is reported when this is false.
unfoldable pub derived_complete : List Verified → Bool
derived_complete vs =
    every (λ (s : String × Bool). s.1) (completion_states vs)
    && (proof_confirmed vs (str "layout_verified") && proof_confirmed vs (str "export_verified"))

unfoldable pub completion_checks : Predecessor → List Check
completion_checks p =
    (strict_eq (get "runtime_state" p.checkpoint) completed reports "RUN-COMPLETE-001")
    ∷ ((not (strict_eq (get "runtime_state" p.checkpoint) build_active)
          || not (strict_eq (get "runtime_state" p.session) build_active))
        reports "RUN-COMPLETE-002")
    ∷ (not (checkpoint_sequence_is_valid p.checkpoint) reports "RUN-COMPLETE-003")
    ∷ (not (is_empty (collect_active_blockers p.session p.checkpoint)) reports "RUN-COMPLETE-004")
    ∷ []

unfoldable pub completion_input : Predecessor → CheckpointInput
completion_input p = record {
  run_id = get "run_id" p.manifest;
  session_id = get "session_id" p.session;
  sequence = plus_one (get "checkpoint_sequence" p.checkpoint);
  parent_id = get "checkpoint_id" p.checkpoint;
  state = completed;
  confirmed_action_ids = action_ids p.context;
  unconfirmed_action_ids = array [];
  unresolved_blockers = array [];
  assertions = get "assertions" p.checkpoint;
  evidence_ledger = get "evidence_ledger" p.checkpoint;
  created_from = str "export_json";
}

unfoldable pub completion_checkpoint : Predecessor → Value
completion_checkpoint p = build_checkpoint p.context (completion_input p)

unfoldable pub completion_result : Predecessor → List Verified → Value → String → Refs → Value
unfolding evidence_ids
completion_result p vs checkpoint transition_id refs = object (
    ("schema", str completion_schema)
    ∷ ("run_id", get "run_id" p.manifest)
    ∷ ("transition_id", str transition_id)
    ∷ ("status", str "accepted")
    ∷ ("source_snapshot_sha256", get "source_snapshot_sha256" p.manifest)
    ∷ ("context_digest", get "context_digest" p.context)
    ∷ ("package_digest", get "canonical_package_digest" p.context)
    ∷ ("selected_candidate_id", get "selected_candidate_id" p.context)
    ∷ ("confirmation_id", get "confirmation_id" (get "confirmation" p.context))
    ∷ ("batch_id", batch_id p.context)
    ∷ ("action_ids", action_ids p.context)
    ∷ ("action_digests", action_digests p.context)
    ∷ ("verified_evidence_ids", evidence_ids vs)
    ∷ ("predecessor_checkpoint", predecessor_entry p.checkpoint)
    ∷ ("resulting_checkpoint", resulting_entry checkpoint)
    ∷ ("runtime_state", completed)
    ∷ ("builder_build_complete", bool true)
    ∷ ("responsive_complete", bool false)
    ∷ ("production_ready", bool false)
    ∷ ("publication", publication_entry real_completion refs)
    ∷ ("blocking_diagnostics", array [])
    ∷ [])

unfoldable pub completion_refs : String → String → Refs
completion_refs ref transition_id = record {
  generation_ref = ref;
  result_ref =
      template ("transitions/completion/" ∷ transition_id ∷ "/completion-result.json" ∷ []);
  receipt_ref = "";
  evidence_ref = "";
  status_ref = template ("outputs/" ∷ transition_id ∷ "/completion-status.json" ∷ []);
  gate_ref = template ("outputs/" ∷ transition_id ∷ "/completion-gate.json" ∷ []);
}

unfoldable pub completion_successor : Predecessor → List Verified → String → Refs → Successor
completion_successor p vs transition_id refs =
    let checkpoint = completion_checkpoint p in
    let result = completion_result p vs checkpoint transition_id refs in
    record {
      operation = real_completion;
      context = p.context;
      session = update_session (put "unresolved_evidence" (array []) p.session) checkpoint;
      checkpoint = checkpoint;
      manifest_updates =
          ("completion_result_ref", str refs.result_ref)
          ∷ ("completion_status_ref", str refs.status_ref)
          ∷ ("completion_gate_ref", str refs.gate_ref)
          ∷ [];
      result = result;
      auxiliary_files =
          record { ref = refs.result_ref; content = json result }
          ∷ record { ref = refs.status_ref; content = json (completion_status vs) }
          ∷ record { ref = refs.gate_ref; content = json (completion_gate vs) }
          ∷ [];
      refs = refs;
    }

publish_completion : Predecessor → List Verified → String → Refs → Plan
publish_completion p vs transition_id refs =
    let s = completion_successor p vs transition_id refs in
    let problems =
      validate_publication s.result real_completion refs completion_schema
        (get "run_id" p.manifest) in
    checked_plan problems s

module _ (sha256 : String → String) where
  unfoldable pub completion_diagnostics : Predecessor → List String
  completion_diagnostics p =
      preparation_diagnostics p.planning
      ++ (failures (completion_checks p)
          ++ (validate_prepared_confirmation sha256 p
              ++ (verify_prepared_evidence sha256 p).diagnostics))

  unfoldable pub completion_transition_id : Predecessor → List Verified → String
  completion_transition_id p vs = template (
      "COMPLETE-"
      ∷ take_text 16 (
          canonical_digest sha256 (
            object (
              ("run_id", get "run_id" p.manifest)
              ∷ ("checkpoint_id", get "checkpoint_id" p.checkpoint)
              ∷ ("evidence", array (map (λ v. str v.sha) vs))
              ∷ [])))
      ∷ [])

  unfoldable pub plan_completion : Predecessor → Plan
  unfolding publish_completion completion_refs
  plan_completion p =
      let vs = (verify_prepared_evidence sha256 p).verified in
      if is_empty (completion_diagnostics p)
      then (if derived_complete vs
          then elim (generation_ref (p.generation + 1)) [
            | none ↦ thrown
            | some ref ↦
                let transition_id = completion_transition_id p vs in
                publish_completion p vs transition_id (completion_refs ref transition_id)
          ]
          else failed ("RUN-COMPLETE-005" ∷ []))
      else failed (completion_diagnostics p)
