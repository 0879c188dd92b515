-- ===== src/Planner/Evidence/Attach.antt =====
-- `planEvidenceTransition` of scripts/lib/runtime/transition-planner-evidence.mjs.
use ev4_builder_assistant_re.Base.{
  ◌+◌, String, false, not, ◌||◌, List, [], ◌∷◌, ◌++◌, map, Option, none, some, is_empty, template,
  take_text, if◌then◌else◌,
}
use ev4_builder_assistant_re.Canonical.{canonical_digest}
use ev4_builder_assistant_re.Diagnostics.{Check, ◌reports◌, failures}
use ev4_builder_assistant_re.Json.{
  Value, null, bool, str, object, array, get, truthy, strict_eq, elements, includes, plus_one,
}
use ev4_builder_assistant_re.Primitives.Blockers.{js_or}
use ev4_builder_assistant_re.Primitives.Checkpoint.{
  CheckpointInput, build_checkpoint, update_session, build_active,
}
use ev4_builder_assistant_re.Primitives.Names.{generation_ref, timestamp_for_sequence}
use ev4_builder_assistant_re.Publication.{attach_evidence, Refs, validate_publication}
use ev4_builder_assistant_re.Planner.Types.{
  Predecessor, json, bytes, Successor, Plan, failed, thrown, checked_plan, predecessor_entry,
  resulting_entry, publication_entry, action_ids, action_digests, batch_id,
}
use ev4_builder_assistant_re.Planner.Evidence.{
  claim_classes, claim_ids, join_values, evidence_source_checks,
}

abbrev pub evidence_schema : String
evidence_schema = "ev4-builder-evidence-attachment-result@1.0.0"

pub assertion_ids : Predecessor → List Value
assertion_ids p = map (get "assertion_id") (elements (get "assertions" p.checkpoint))

unfoldable pub duplicate_checks : Predecessor → List Value → List Check
unfolding assertion_ids
duplicate_checks p [] = []
duplicate_checks p (c ∷ cs) =
    (includes (assertion_ids p) c reports "RUN-EVIDENCE-015") ∷ duplicate_checks p cs

unfoldable pub attach_checks : Predecessor → Value → String → List Check
unfolding duplicate_checks
attach_checks p source evidence_ref =
    ((not (strict_eq (get "runtime_state" p.checkpoint) build_active)
        || not (truthy (get "active_confirmation_receipt_ref" p.manifest)))
      reports "RUN-EVIDENCE-012")
    ∷ (evidence_source_checks source p
        ++ ((includes (elements (get "evidence_snapshot_refs" p.manifest)) (str evidence_ref)
              reports "RUN-EVIDENCE-014")
            ∷ duplicate_checks p (claim_ids source)))

-- What the new evidence asserts: one confirmed assertion for each of its claims.
unfoldable pub new_assertion : Value → String → Value → Value
new_assertion source evidence_id claim_id = object (
    ("assertion_id", claim_id)
    ∷ ("subject_ref", get "subject_ref" source)
    ∷ ("claim", str (join_values "|" (claim_classes source)))
    ∷ ("status", str "confirmed")
    ∷ ("evidence_refs", array (str evidence_id ∷ []))
    ∷ [])

unfoldable pub resulting_assertions : Predecessor → Value → String → List Value
resulting_assertions p source evidence_id =
    elements (get "assertions" p.checkpoint)
    ++ map (new_assertion source evidence_id) (claim_ids source)

ledger_entry : Predecessor → Value → String → String → String → Value
ledger_entry p source evidence_id evidence_ref sha = object (
    ("evidence_id", str evidence_id)
    ∷ ("evidence_type", get "evidence_type" source)
    ∷ ("source_ref", str evidence_ref)
    ∷ (
      "captured_at",
      str (timestamp_for_sequence (plus_one (get "checkpoint_sequence" p.checkpoint))),
    )
    ∷ ("content_sha256", str sha)
    ∷ ("supports_claim_ids", array (claim_ids source))
    ∷ ("status", str "available")
    ∷ [])

unfoldable pub resulting_ledger : Predecessor → Value → String → String → String → List Value
unfolding ledger_entry
resulting_ledger p source evidence_id evidence_ref sha =
    elements (get "evidence_ledger" p.checkpoint)
    ++ (ledger_entry p source evidence_id evidence_ref sha ∷ [])

unfoldable pub evidence_input : Predecessor → Value → String → String → String → CheckpointInput
evidence_input p source evidence_id evidence_ref sha = record {
  run_id = get "run_id" p.manifest;
  session_id = get "session_id" p.session;
  sequence = plus_one (get "checkpoint_sequence" p.checkpoint);
  parent_id = get "checkpoint_id" p.checkpoint;
  state = build_active;
  confirmed_action_ids = get "confirmed_action_ids" p.checkpoint;
  unconfirmed_action_ids = get "unconfirmed_action_ids" p.checkpoint;
  unresolved_blockers = js_or (get "unresolved_blockers" p.checkpoint) (array []);
  assertions = array (resulting_assertions p source evidence_id);
  evidence_ledger = array (resulting_ledger p source evidence_id evidence_ref sha);
  created_from = get "evidence_type" source;
}

unfoldable pub evidence_checkpoint : Predecessor → Value → String → String → String → Value
evidence_checkpoint p source evidence_id evidence_ref sha =
    build_checkpoint p.context (evidence_input p source evidence_id evidence_ref sha)

unfoldable pub evidence_result :
    Predecessor → Value → String → String → String → String → Refs → Value
evidence_result p checkpoint evidence_id evidence_ref sha transition_id refs = object (
    ("schema", str evidence_schema)
    ∷ ("run_id", get "run_id" p.manifest)
    ∷ ("transition_id", str transition_id)
    ∷ ("status", str "accepted")
    ∷ ("evidence_id", str evidence_id)
    ∷ ("evidence_snapshot_ref", str evidence_ref)
    ∷ ("evidence_snapshot_sha256", str sha)
    ∷ ("context_digest", get "context_digest" p.context)
    ∷ ("package_digest", get "canonical_package_digest" p.context)
    ∷ ("selected_candidate_id", get "selected_candidate_id" p.context)
    ∷ ("batch_id", batch_id p.context)
    ∷ ("action_ids", action_ids p.context)
    ∷ ("action_digests", action_digests p.context)
    ∷ ("predecessor_checkpoint", predecessor_entry p.checkpoint)
    ∷ ("resulting_checkpoint", resulting_entry checkpoint)
    ∷ ("builder_build_complete", bool false)
    ∷ ("responsive_complete", bool false)
    ∷ ("production_ready", bool false)
    ∷ ("publication", publication_entry attach_evidence refs)
    ∷ ("blocking_diagnostics", array [])
    ∷ [])

unfoldable pub evidence_refs : String → String → String → Refs
evidence_refs ref transition_id evidence_ref = record {
  generation_ref = ref;
  result_ref =
      template ("transitions/evidence/" ∷ transition_id ∷ "/evidence-attachment-result.json" ∷ []);
  receipt_ref = "";
  evidence_ref = evidence_ref;
  status_ref = "";
  gate_ref = "";
}

unfoldable pub evidence_id_of : String → String
evidence_id_of sha = template ("EV-" ∷ take_text 20 sha ∷ [])

unfoldable pub evidence_ref_of : String → String
unfolding evidence_id_of
evidence_ref_of sha = template ("evidence/" ∷ evidence_id_of sha ∷ ".json" ∷ [])

abbrev append_ref : String → Predecessor → String → Value
append_ref k p ref = array (elements (get k p.manifest) ++ (str ref ∷ []))

unfoldable pub evidence_successor :
    Predecessor → Value → String → String → String → Refs → Successor
evidence_successor p source content sha transition_id refs =
    let evidence_id = evidence_id_of sha in
    let evidence_ref = evidence_ref_of sha in
    let checkpoint = evidence_checkpoint p source evidence_id evidence_ref sha in
    let result = evidence_result p checkpoint evidence_id evidence_ref sha transition_id refs in
    record {
      operation = attach_evidence;
      context = p.context;
      session = update_session p.session checkpoint;
      checkpoint = checkpoint;
      manifest_updates =
          ("evidence_snapshot_refs", append_ref "evidence_snapshot_refs" p evidence_ref)
          ∷ (
            "evidence_attachment_result_refs",
            append_ref "evidence_attachment_result_refs" p refs.result_ref,
          )
          ∷ [];
      result = result;
      auxiliary_files =
          record { ref = evidence_ref; content = bytes content }
          ∷ record { ref = refs.result_ref; content = json result }
          ∷ [];
      refs = refs;
    }

publish_evidence : Predecessor → Value → String → String → String → Refs → Plan
publish_evidence p source content sha transition_id refs =
    let s = evidence_successor p source content sha transition_id refs in
    let problems =
      validate_publication s.result attach_evidence refs evidence_schema
        (get "run_id" p.manifest) in
    checked_plan problems s

module _ (sha256 : String → String) where
  unfoldable pub evidence_transition_id : Predecessor → String → String
  evidence_transition_id p sha = template (
      "EVIDENCE-"
      ∷ take_text 16 (
          canonical_digest sha256 (
            object (
              ("run_id", get "run_id" p.manifest)
              ∷ ("evidence_sha256", str sha)
              ∷ ("predecessor", get "checkpoint_id" p.checkpoint)
              ∷ [])))
      ∷ [])

  unfoldable pub evidence_diagnostics : Predecessor → Value → String → List String
  evidence_diagnostics p source content =
      failures (attach_checks p source (evidence_ref_of (sha256 content)))

  unfoldable pub plan_parsed_evidence : Predecessor → String → Value → Plan
  unfolding publish_evidence evidence_refs
  plan_parsed_evidence p content source =
      let sha = sha256 content in
      if strict_eq source null
      then thrown
      else if is_empty (evidence_diagnostics p source content)
      then elim (generation_ref (p.generation + 1)) [
        | none ↦ thrown
        | some ref ↦
            let transition_id = evidence_transition_id p sha in
            publish_evidence p source content sha transition_id
              (evidence_refs ref transition_id (evidence_ref_of sha))
      ]
      else failed (evidence_diagnostics p source content)

  -- `parsed` is what `JSON.parse` makes of the bytes; `none` when it throws. A source `null` makes
  -- `source.claim_ids` throw.
  unfoldable pub plan_evidence : Predecessor → String → Option Value → Plan
  unfolding plan_parsed_evidence
  plan_evidence p content none = failed ("RUN-EVIDENCE-013" ∷ [])
  plan_evidence p content (some source) = plan_parsed_evidence p content source
