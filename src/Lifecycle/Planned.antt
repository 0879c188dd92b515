-- ===== src/Lifecycle/Planned.antt =====
-- Every planner's successor is derived from its predecessor, whatever the operation.
use ev4_builder_assistant_re.Base.{String, Option, some, ◌≡◌, refl, List, []}
use ev4_builder_assistant_re.Json.{Value, array, put}
use ev4_builder_assistant_re.Json.Laws.{IsObject, get-put, put-IsObject}
use ev4_builder_assistant_re.Primitives.Checkpoint.Session.{SameSession}
use ev4_builder_assistant_re.Planner.Types.{Predecessor, Successor, planned}
use ev4_builder_assistant_re.Planner.Prepare.{prepare}
use ev4_builder_assistant_re.Publication.{
  Refs, Operation, emit_batch, confirm_batch, attach_evidence, real_completion,
}
use ev4_builder_assistant_re.Planner.Emit.{emit_successor, emit_input, emit_checkpoint, plan_emit}
use ev4_builder_assistant_re.Planner.Emit.Outcome.{plan_emit-Emitted}
use ev4_builder_assistant_re.Planner.Confirm.{
  confirm_successor, confirm_input, confirm_checkpoint, plan_confirm,
}
use ev4_builder_assistant_re.Planner.Confirm.Outcome.{plan_confirm-Confirmed}
use ev4_builder_assistant_re.Planner.Evidence.Attach.{
  evidence_id_of, evidence_ref_of, evidence_successor, evidence_input, evidence_checkpoint,
  plan_evidence,
}
use ev4_builder_assistant_re.Planner.Evidence.Outcome.{plan_evidence-Attached}
use ev4_builder_assistant_re.Planner.Completion.{Verified}
use ev4_builder_assistant_re.Planner.Completion.Finish.{
  completion_successor, completion_input, completion_checkpoint, plan_completion,
}
use ev4_builder_assistant_re.Planner.Completion.Outcome.{plan_completion-Completed}
use ev4_builder_assistant_re.Lifecycle.Derived.{Derived}

same_session : (v : Value) → SameSession v v
same_session v = record { session_id = refl; package_digest = refl; candidate = refl }

pub emit-Derived :
    (p : Predecessor) (id : String) (refs : Refs) → Derived p (emit_successor p id refs)
unfolding emit_successor emit_checkpoint emit_input
emit-Derived p id refs = record {
  input = emit_input p;
  base = p.session;
  context = refl;
  checkpoint = refl;
  session = refl;
  run_id = refl;
  session_id = refl;
  sequence = refl;
  parent = refl;
  state = tt;
  base_same = λ h. same_session p.session;
  base_object = λ h. h;
  protects = record {
    schema = λ d. refl;
    run_id = λ d. refl;
    source_mode = λ d. refl;
    source_sha = λ d. refl;
    receipt_ref = λ d. refl;
    receipt_sha = λ d. refl;
  };
}

confirm-Derived :
    (sha256 : String → String) (p : Predecessor) (token : Value) (id : String) (refs : Refs)
    → Derived p (confirm_successor sha256 p token id refs)
unfolding confirm_successor confirm_checkpoint confirm_input
confirm-Derived sha256 p token id refs = record {
  input = confirm_input p;
  base = p.session;
  context = refl;
  checkpoint = refl;
  session = refl;
  run_id = refl;
  session_id = refl;
  sequence = refl;
  parent = refl;
  state = tt;
  base_same = λ h. same_session p.session;
  base_object = λ h. h;
  protects = record {
    schema = λ d. refl;
    run_id = λ d. refl;
    source_mode = λ d. refl;
    source_sha = λ d. refl;
    receipt_ref = λ d. refl;
    receipt_sha = λ d. refl;
  };
}

evidence-Derived :
    (p : Predecessor) (source : Value) (content sha id : String) (refs : Refs)
    → Derived p (evidence_successor p source content sha id refs)
unfolding evidence_successor evidence_checkpoint evidence_input
evidence-Derived p source content sha id refs = record {
  input = evidence_input p source (evidence_id_of sha) (evidence_ref_of sha) sha;
  base = p.session;
  context = refl;
  checkpoint = refl;
  session = refl;
  run_id = refl;
  session_id = refl;
  sequence = refl;
  parent = refl;
  state = tt;
  base_same = λ h. same_session p.session;
  base_object = λ h. h;
  protects = record {
    schema = λ d. refl;
    run_id = λ d. refl;
    source_mode = λ d. refl;
    source_sha = λ d. refl;
    receipt_ref = λ d. refl;
    receipt_sha = λ d. refl;
  };
}

resolved_same :
    (session : Value)
    → IsObject session
    → SameSession (put "unresolved_evidence" (array []) session) session
resolved_same session h = record {
  session_id = get-put "unresolved_evidence" "session_id" (array []) session h;
  package_digest = get-put "unresolved_evidence" "package_digest" (array []) session h;
  candidate = get-put "unresolved_evidence" "selected_candidate_id" (array []) session h;
}

completion-Derived :
    (p : Predecessor) (vs : List Verified) (id : String) (refs : Refs)
    → Derived p (completion_successor p vs id refs)
unfolding completion_successor completion_checkpoint completion_input
completion-Derived p vs id refs = record {
  input = completion_input p;
  base = put "unresolved_evidence" (array []) p.session;
  context = refl;
  checkpoint = refl;
  session = refl;
  run_id = refl;
  session_id = refl;
  sequence = refl;
  parent = refl;
  state = tt;
  base_same = resolved_same p.session;
  base_object = put-IsObject "unresolved_evidence" (array []) p.session;
  protects = record {
    schema = λ d. refl;
    run_id = λ d. refl;
    source_mode = λ d. refl;
    source_sha = λ d. refl;
    receipt_ref = λ d. refl;
    receipt_sha = λ d. refl;
  };
}

-- Preparation changes nothing that a successor is derived from.
unprepare :
    (read : Value → Option (String × Value)) (derivation : List String) (operation : Operation)
    (p : Predecessor) (s : Successor)
    → Derived (prepare read derivation operation p) s
    → Derived p s
unfolding prepare
unprepare read derivation operation p s d = record {
  input = d.input;
  base = d.base;
  context = d.context;
  checkpoint = d.checkpoint;
  session = d.session;
  run_id = d.run_id;
  session_id = d.session_id;
  sequence = d.sequence;
  parent = d.parent;
  state = d.state;
  base_same = d.base_same;
  base_object = d.base_object;
  protects = d.protects;
}

module _ (sha256 : String → String) where
  -- A successor that some planner plans for a loaded run, prepared for its operation.
  pub data Plans (p : Predecessor) (s : Successor) : Type 0 where
    by_emit :
        (read : Value → Option (String × Value)) (derivation : List String)
        → plan_emit sha256 (prepare read derivation emit_batch p) ≡ planned s
        → Plans p s
    by_confirm :
        (read : Value → Option (String × Value)) (token : Value)
        → plan_confirm sha256 (prepare read [] confirm_batch p) token ≡ planned s
        → Plans p s
    by_evidence :
        (read : Value → Option (String × Value)) (content : String) (source : Value)
        → plan_evidence sha256 (prepare read [] attach_evidence p) content (some source) ≡ planned s
        → Plans p s
    by_completion :
        (read : Value → Option (String × Value)) (derivation : List String)
        → plan_completion sha256 (prepare read derivation real_completion p) ≡ planned s
        → Plans p s

  pub Plans-Derived : (p : Predecessor) (s : Successor) → Plans p s → Derived p s
  Plans-Derived p s (by_emit read derivation h) =
      let q = prepare read derivation emit_batch p in
      unprepare read derivation emit_batch p s
        (rw (plan_emit-Emitted sha256 q s h).built (emit-Derived q _ _))
  Plans-Derived p s (by_confirm read token h) =
      let q = prepare read [] confirm_batch p in
      unprepare read [] confirm_batch p s
        (rw (plan_confirm-Confirmed sha256 q token s h).built (confirm-Derived sha256 q token _ _))
  Plans-Derived p s (by_evidence read content source h) =
      let q = prepare read [] attach_evidence p in
      unprepare read [] attach_evidence p s (
        rw (plan_evidence-Attached sha256 q content source s h).built
          (evidence-Derived q source content _ _ _))
  Plans-Derived p s (by_completion read derivation h) =
      let q = prepare read derivation real_completion p in
      unprepare read derivation real_completion p s
        (rw (plan_completion-Completed sha256 q s h).built (completion-Derived q _ _ _))
