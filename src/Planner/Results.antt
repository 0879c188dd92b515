-- ===== src/Planner/Results.antt =====
-- What the results of the planners claim, and when a plan is made.
use ev4_builder_assistant_re.Base.{◌+◌, String, true, false, List, [], some, ◌≡◌, refl}
use ev4_builder_assistant_re.Json.{Value, null, str, get, truthy, strict_eq}
use ev4_builder_assistant_re.Primitives.Names.{generation_ref}
use ev4_builder_assistant_re.Publication.{
  Refs, emit_batch, confirm_batch, attach_evidence, real_completion,
}
use ev4_builder_assistant_re.Publication.Accepted.{Accepts, Accepts-validate}
use ev4_builder_assistant_re.Planner.Types.{Predecessor, planned, publication_entry}
use ev4_builder_assistant_re.Planner.Emit.{
  emit_schema, emit_result, emit_diagnostics, emit_checkpoint, emit_transition_id, emit_refs,
  emit_successor, plan_emit,
}
use ev4_builder_assistant_re.Planner.Confirm.{
  confirmation_schema, confirm_result, confirm_diagnostics, confirm_checkpoint, confirm_receipt,
  confirm_transition_id, confirm_refs, confirm_successor, plan_confirm,
}
use ev4_builder_assistant_re.Planner.Evidence.Attach.{
  evidence_schema, evidence_result, evidence_diagnostics, evidence_transition_id,
  evidence_checkpoint, evidence_id_of, evidence_ref_of, evidence_refs, evidence_successor,
  plan_evidence, plan_parsed_evidence,
}
use ev4_builder_assistant_re.Planner.Completion.{Verified}
use ev4_builder_assistant_re.Planner.Completion.Finish.{
  completion_schema, completion_result, completion_diagnostics, derived_complete,
  completion_transition_id, completion_checkpoint, completion_refs, completion_successor,
  plan_completion,
}
use ev4_builder_assistant_re.Planner.Completion.Outcome.{verified_of}

emit_result-Accepts :
    (p : Predecessor) (checkpoint : Value) (id : String) (refs : Refs)
    → Accepts
        (emit_result p checkpoint id refs)
        emit_batch
        refs
        emit_schema
        (get "run_id" p.manifest)
unfolding emit_result publication_entry get
emit_result-Accepts p checkpoint id refs = record {
  schema_named = refl;
  run = refl;
  status = refl;
  unblocked = refl;
  files = refl;
  responsive = refl;
  production = refl;
}

confirm_result-Accepts :
    (p : Predecessor) (checkpoint digest : Value) (id : String) (refs : Refs)
    → Accepts
        (confirm_result p checkpoint digest id refs)
        confirm_batch
        refs
        confirmation_schema
        (get "run_id" p.manifest)
unfolding confirm_result publication_entry get
confirm_result-Accepts p checkpoint digest id refs = record {
  schema_named = refl;
  run = refl;
  status = refl;
  unblocked = refl;
  files = refl;
  responsive = refl;
  production = refl;
}

evidence_result-Accepts :
    (p : Predecessor) (checkpoint : Value) (evidence_id evidence_ref sha id : String) (refs : Refs)
    → Accepts
        (evidence_result p checkpoint evidence_id evidence_ref sha id refs)
        attach_evidence
        refs
        evidence_schema
        (get "run_id" p.manifest)
unfolding evidence_result publication_entry get
evidence_result-Accepts p checkpoint evidence_id evidence_ref sha id refs = record {
  schema_named = refl;
  run = refl;
  status = refl;
  unblocked = refl;
  files = refl;
  responsive = refl;
  production = refl;
}

completion_result-Accepts :
    (p : Predecessor) (vs : List Verified) (checkpoint : Value) (id : String) (refs : Refs)
    → Accepts
        (completion_result p vs checkpoint id refs)
        real_completion
        refs
        completion_schema
        (get "run_id" p.manifest)
unfolding completion_result publication_entry get
completion_result-Accepts p vs checkpoint id refs = record {
  schema_named = refl;
  run = refl;
  status = refl;
  unblocked = refl;
  files = refl;
  responsive = refl;
  production = refl;
}

module _ (sha256 : String → String) (p : Predecessor) (run_id ref : String)
    (named : get "run_id" p.manifest ≡ str run_id)
    (in_range : generation_ref (p.generation + 1) ≡ some ref) where
  pub plan_emit-planned :
      emit_diagnostics p ≡ []
      → plan_emit sha256 p
        ≡ planned (
            emit_successor p
              (emit_transition_id sha256 p)
              (emit_refs ref (emit_transition_id sha256 p)))
  unfolding plan_emit emit_successor
  plan_emit-planned clear =
      let id = emit_transition_id sha256 p in
      let accepted =
        Accepts-validate _ emit_batch (emit_refs ref id) emit_schema _ run_id named
          (emit_result-Accepts p (emit_checkpoint p) id (emit_refs ref id)) in
      rw (clear, in_range, accepted) refl

  -- So does the confirmation planner, which also needs the emit result.
  pub plan_confirm-planned :
      (token : Value)
      → truthy p.planning.emit_result ≡ true
      → confirm_diagnostics p token ≡ []
      → plan_confirm sha256 p token
        ≡ planned (
            confirm_successor sha256 p token
              (confirm_transition_id sha256 p token)
              (confirm_refs ref (confirm_transition_id sha256 p token)))
  unfolding plan_confirm confirm_successor
  plan_confirm-planned token emitted clear =
      let id = confirm_transition_id sha256 p token in
      let accepted =
        Accepts-validate _ confirm_batch (confirm_refs ref id) confirmation_schema _ run_id named (
          confirm_result-Accepts p (confirm_checkpoint p)
            (get "receipt_digest" (confirm_receipt sha256 p token)) id (confirm_refs ref id)) in
      rw (clear, emitted, in_range, accepted) refl

  -- So does the evidence planner, on any source but `null`.
  pub plan_evidence-planned :
      (content : String) (source : Value)
      → strict_eq source null ≡ false
      → evidence_diagnostics sha256 p source content ≡ []
      → plan_evidence sha256 p content (some source)
        ≡ planned (
            evidence_successor p source content
              (sha256 content)
              (evidence_transition_id sha256 p (sha256 content))
              (evidence_refs ref
                (evidence_transition_id sha256 p (sha256 content))
                (evidence_ref_of (sha256 content))))
  unfolding plan_evidence plan_parsed_evidence evidence_successor
  plan_evidence-planned content source present clear =
      let sha = sha256 content in
      let id = evidence_transition_id sha256 p sha in
      let refs = evidence_refs ref id (evidence_ref_of sha) in
      let accepted = Accepts-validate _ attach_evidence refs evidence_schema _ run_id named (
        evidence_result-Accepts p
          (evidence_checkpoint p source (evidence_id_of sha) (evidence_ref_of sha) sha)
          (evidence_id_of sha) (evidence_ref_of sha) sha id refs) in
      rw (present, clear, in_range, accepted) refl

  -- So does the completion planner, when the verified claims derive completion.
  pub plan_completion-planned :
      completion_diagnostics sha256 p ≡ []
      → derived_complete (verified_of sha256 p) ≡ true
      → plan_completion sha256 p
        ≡ planned (
            completion_successor p
              (verified_of sha256 p)
              (completion_transition_id sha256 p (verified_of sha256 p))
              (completion_refs ref (completion_transition_id sha256 p (verified_of sha256 p))))
  unfolding plan_completion completion_successor
  plan_completion-planned clear derived =
      let vs = verified_of sha256 p in
      let id = completion_transition_id sha256 p vs in
      let accepted =
        Accepts-validate _ real_completion (completion_refs ref id) completion_schema _ run_id named
          (completion_result-Accepts p vs (completion_checkpoint p) id (completion_refs ref id)) in
      rw (clear, derived, in_range, accepted) refl
