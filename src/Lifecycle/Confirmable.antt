-- ===== src/Lifecycle/Confirmable.antt =====
-- The round trip of a batch: once issued and committed, the operator's token confirms it.
use ev4_builder_assistant_re.Base.{
  ◌+◌, String, true, false, List, [], map, Option, some, ◌≡◌, refl, ap, ◌∙◌, All, str_eq_refl,
}
use ev4_builder_assistant_re.Diagnostics.{Clear, failures-eq-nil, passes, neither}
use ev4_builder_assistant_re.Json.{
  Value, str, array, get, truthy, strict_eq, has_length, elements, is_string,
}
use ev4_builder_assistant_re.Json.Laws.{IsText, strict_eq_text, strict_eq_refl}
use ev4_builder_assistant_re.Primitives.Blockers.{
  elements-js_or, blocker_values, collect_active_blockers,
}
use ev4_builder_assistant_re.Primitives.Checkpoint.{
  is_inked_text, build_checkpoint, waiting_for_confirmation,
}
use ev4_builder_assistant_re.Primitives.Names.{generation_ref}
use ev4_builder_assistant_re.Primitives.Sets.{same_set_refl}
use ev4_builder_assistant_re.Publication.{Refs, emit_batch, confirm_batch}
use ev4_builder_assistant_re.Planner.Types.{
  Predecessor, Successor, planned, action_ids, batch_id, resulting_entry,
}
use ev4_builder_assistant_re.Planner.Prepare.{
  prepare, prepare_planning, read_canonical_artifact-value, read_canonical_artifact-clear,
}
use ev4_builder_assistant_re.Planner.Emit.{
  emit_successor, emit_result, emit_checkpoint, emit_input, emit_refs, emit_transition_id,
  plan_emit,
}
use ev4_builder_assistant_re.Planner.Emit.Outcome.{plan_emit-Emitted}
use ev4_builder_assistant_re.Planner.Confirm.{
  confirm_checks, confirm_diagnostics, emit_binding, emit_binding_checks, plan_confirm, same_json,
}
use ev4_builder_assistant_re.Planner.Results.{plan_confirm-planned}
use ev4_builder_assistant_re.Store.Snapshot.{successor_input}
use ev4_builder_assistant_re.Validation.Manifest.{is_name}
use ev4_builder_assistant_re.Lifecycle.Bindings.{
  Anchors, Anchors-bindings, session-IsObject, successor_id, successor_number,
}
use ev4_builder_assistant_re.Lifecycle.Commit.{committed, committed-Commits, committed-Bound}
use ev4_builder_assistant_re.Primitives.Checkpoint.Session.{update_session-Carries}
use ev4_builder_assistant_re.Lifecycle.Guards.{EmitGuard, prepared_emit-Guard}
use ev4_builder_assistant_re.Lifecycle.Phases.{emit-Effect}
use ev4_builder_assistant_re.Lifecycle.Planned.{emit-Derived}
use ev4_builder_assistant_re.Lifecycle.Runs.{committed_state}
use ev4_builder_assistant_re.Lifecycle.Valid.{IsValid, IsValid-Checked}

-- Blockers are read from three fields.
same_blockers :
    (session checkpoint session' checkpoint' : Value)
    → elements (get "unresolved_evidence" session') ≡ elements (get "unresolved_evidence" session)
    → elements (get "unresolved_blockers" checkpoint')
      ≡ elements (get "unresolved_blockers" checkpoint)
    → elements (get "assertions" checkpoint') ≡ elements (get "assertions" checkpoint)
    → collect_active_blockers session' checkpoint' ≡ collect_active_blockers session checkpoint
unfolding collect_active_blockers blocker_values
same_blockers session checkpoint session' checkpoint' evidence blockers assertions =
    rw (evidence, blockers, assertions) refl

name_text : (v : Value) → is_name v ≡ true → (s : String) × (v ≡ str s)
unfolding is_name is_string
name_text (str s) h = (s, refl)
name_text _ h = cc

-- What the issue of a batch leaves for its confirmation.
record Issued (p : Predecessor) (s : Successor) (q : Predecessor) : Type 0 where
  pub state : get "runtime_state" q.checkpoint ≡ waiting_for_confirmation
  pub session_state : get "runtime_state" q.session ≡ waiting_for_confirmation
  pub unconfirmed : truthy (get "active_confirmation_receipt_ref" q.manifest) ≡ false
  pub fresh : get "confirmed_action_ids" q.checkpoint ≡ array []
  pub actions : get "unconfirmed_action_ids" q.checkpoint ≡ action_ids p.context
  pub batch : get "batch_id" q.checkpoint ≡ batch_id p.context
  pub unblocked : collect_active_blockers q.session q.checkpoint ≡ []
  pub context : q.context ≡ p.context
  pub run_id : get "run_id" q.manifest ≡ get "run_id" p.manifest
  pub source_sha : get "source_snapshot_sha256" q.manifest ≡ get "source_snapshot_sha256" p.manifest
  pub generation : q.generation ≡ p.generation + 1
  pub checkpoint : q.checkpoint ≡ s.checkpoint

module _ (sha256 : String → String) (p : Predecessor) (id : String) (refs : _) (q : Predecessor)
    (v : IsValid sha256 p) (g : EmitGuard p)
    (h : committed sha256 p (emit_successor p id refs) ≡ some q) where
  emit_successor-Issued : Issued p (emit_successor p id refs) q
  unfolding emit_successor emit_checkpoint emit_input build_checkpoint get successor_input
  emit_successor-Issued =
      let s = emit_successor p id refs in
      let c = committed-Commits sha256 p s q h in
      let b = committed-Bound sha256 p s q v h in
      let carried =
        update_session-Carries p.session (emit_checkpoint p) (session-IsObject sha256 p v) in
      let (state, confirmed) =
        committed_state sha256 p s q waiting_for_confirmation false v (emit-Effect p id refs) h in
      record {
        state = state;
        session_state = ap (get "runtime_state") c.session ∙ carried.runtime_state;
        unconfirmed = confirmed ∙ g.unconfirmed;
        fresh = ap (get "confirmed_action_ids") c.checkpoint;
        actions = ap (get "unconfirmed_action_ids") c.checkpoint;
        batch = ap (get "batch_id") c.checkpoint;
        unblocked =
            same_blockers p.session p.checkpoint q.session q.checkpoint
              (ap (λ w. elements (get "unresolved_evidence" w)) c.session
                ∙ ap elements carried.evidence)
              (ap (λ w. elements (get "unresolved_blockers" w)) c.checkpoint ∙ elements-js_or _)
              (ap (λ w. elements (get "assertions" w)) c.checkpoint)
            ∙ g.unblocked;
        context = c.context;
        run_id = b.run_id;
        source_sha = b.source_sha;
        generation = c.generation;
        checkpoint = c.checkpoint;
      }

strict_eq_inked : (v : Value) → is_inked_text v ≡ true → strict_eq v v ≡ true
unfolding is_inked_text
strict_eq_inked (str s) h = strict_eq_text s
strict_eq_inked _ h = cc

module _ (sha256 : String → String) (p : Predecessor) (id : String) (refs : Refs) (q : Predecessor)
    (v : IsValid sha256 p) (i : Issued p (emit_successor p id refs) q) (run_id : String)
    (named : get "run_id" p.manifest ≡ str run_id)
    (source : IsText (get "source_snapshot_sha256" p.manifest)) (ids : List String)
    (actions : action_ids p.context ≡ array (map str ids)) where
  anchors : Anchors p
  anchors = Anchors-bindings p (IsValid-Checked sha256 p v).bindings

  -- The checkpoint that the emit result names is the loaded one.
  emit_result-checkpoint :
      (strict_eq (get "checkpoint_id" (emit_checkpoint p)) (get "checkpoint_id" q.checkpoint)
        ≡ true)
      × (strict_eq
            (get "checkpoint_sequence" (emit_checkpoint p))
            (get "checkpoint_sequence" q.checkpoint)
          ≡ true)
      × (strict_eq
            (get "parent_checkpoint_id" (emit_checkpoint p))
            (get "parent_checkpoint_id" q.checkpoint)
          ≡ true)
  unfolding emit_successor emit_checkpoint emit_input build_checkpoint get
  emit_result-checkpoint =
      let d = emit-Derived p id refs in
      let s = emit_successor p id refs in
      let session = session-IsObject sha256 p v in
      (
        rw i.checkpoint (successor_id p s d session anchors v.named),
        rw i.checkpoint (successor_number p s d session anchors v.named),
        rw i.checkpoint (strict_eq_inked _ v.named),
      )

  -- The emit result names the run, the source, the package, the batch and the actions of the loaded run.
  emit_result-bound : All Clear (emit_binding_checks q (emit_result p (emit_checkpoint p) id refs))
  unfolding emit_binding_checks emit_result resulting_entry get same_json
  emit_result-bound =
      let (cp_id, number, parent) = emit_result-checkpoint in
      let same_actions = same_set_refl ids in
      (
        neither _ _ (passes _ (rw (i.run_id, named) (strict_eq_text run_id)))
            (passes _ (rw i.context anchors.context_self)),
        (
          passes _ (rw i.source_sha (strict_eq_refl _ source)),
          (
            neither _ _
                (passes
                  (strict_eq (get "canonical_package_digest" p.context)
                    (get "canonical_package_digest" q.context))
                  (rw i.context anchors.package_self))
                (neither _ _
                  (passes
                    (strict_eq (get "selected_candidate_id" p.context)
                      (get "selected_candidate_id" q.context))
                    (rw i.context anchors.candidate_self))
                  (passes (strict_eq (batch_id p.context) (batch_id q.context))
                    (rw i.context anchors.batch_self))),
            (
              neither _ _ (passes _ (rw (i.context, actions) same_actions))
                  (passes _ (rw i.context (str_eq_refl _))),
              (neither _ _ (passes _ cp_id) (neither _ _ (passes _ number) (passes _ parent)), tt),
            ),
          ),
        ),
      )

  -- What the confirmation asks of the loaded run holds.
  confirm_checks-clear :
      (token : Value)
      → IsText token
      → token ≡ get "expected_user_token" (get "confirmation" p.context)
      → All Clear (confirm_checks q token)
  unfolding confirm_checks has_length
  confirm_checks-clear token text given = (
    i.unconfirmed,
    (
      neither _ _ (passes _ (rw i.state (strict_eq_text _)))
          (passes _ (rw i.session_state (strict_eq_text _))),
      (
        neither _ _ (rw i.fresh refl)
            (passes _ (rw (i.actions, i.context, actions) (same_set_refl ids))),
        (
          passes _ (rw (i.batch, i.context) anchors.batch_self),
          (
            passes _ (rw (i.context, ← given) (strict_eq_refl token text)),
            (passes _ (rw i.unblocked refl), tt),
          ),
        ),
      ),
    ),
  )

  -- The emit result read back is found, and it is the one that the issue wrote.
  module _ (read_back : Value → Option (String × Value)) (content : String)
      (back : read_back (get "active_emit_result_ref" q.manifest)
        ≡ some (content, emit_result p (emit_checkpoint p) id refs)) where
    read_back-planning : (prepare_planning read_back [] confirm_batch q.manifest).diagnostics ≡ []
    unfolding prepare_planning emit_result get
    read_back-planning = read_canonical_artifact-clear read_back _ _ _ content _ back refl

    read_back-emit_result :
        (prepare_planning read_back [] confirm_batch q.manifest).emit_result
        ≡ emit_result p (emit_checkpoint p) id refs
    unfolding prepare_planning
    read_back-emit_result = read_canonical_artifact-value read_back _ _ _ content _ back

    emit_result-truthy : truthy (emit_result p (emit_checkpoint p) id refs) ≡ true
    unfolding truthy emit_result
    emit_result-truthy = refl

    confirm-clear :
        (token : Value)
        → IsText token
        → token ≡ get "expected_user_token" (get "confirmation" p.context)
        → confirm_diagnostics (prepare read_back [] confirm_batch q) token ≡ []
    unfolding confirm_diagnostics emit_binding prepare confirm_checks emit_binding_checks
    confirm-clear token text given =
        let checks =
          (failures-eq-nil (confirm_checks q token)).1 (confirm_checks-clear token text given) in
        let bound =
          (failures-eq-nil (emit_binding_checks q (emit_result p (emit_checkpoint p) id refs))).1
            emit_result-bound in
        rw (checks, read_back-planning, read_back-emit_result, emit_result-truthy, bound) refl

emit_successor-prepare :
    (read : Value → Option (String × Value)) (derivation : List String) (p : Predecessor)
    (id : String) (refs : Refs)
    → emit_successor (prepare read derivation emit_batch p) id refs ≡ emit_successor p id refs
unfolding prepare emit_successor emit_checkpoint emit_input emit_result
emit_successor-prepare read derivation p id refs = refl

-- When the result of an issue that was planned and committed on a valid run is read back from the
-- place the manifest names, the token that the context expects plans a confirmation of the batch. The
-- run has an id, its source digest and its token are texts, its actions are named, and the next
-- generation has a number.
pub issue-confirm :
    (sha256 : String → String) (read read_back : Value → Option (String × Value))
    (derivation : List String) (p : Predecessor) (s : Successor) (q : Predecessor) (token : Value)
    (ids : List String) (content run_id next : String)
    → IsValid sha256 p
    → get "run_id" p.manifest ≡ str run_id
    → IsText (get "source_snapshot_sha256" p.manifest)
    → action_ids p.context ≡ array (map str ids)
    → IsText token
    → token ≡ get "expected_user_token" (get "confirmation" p.context)
    → plan_emit sha256 (prepare read derivation emit_batch p) ≡ planned s
    → committed sha256 p s ≡ some q
    → read_back (get "active_emit_result_ref" q.manifest) ≡ some (content, s.result)
    → generation_ref (q.generation + 1) ≡ some next
    → (t : Successor) × (plan_confirm sha256 (prepare read_back [] confirm_batch q) token
        ≡ planned t)
unfolding prepare emit_result emit_successor
issue-confirm sha256 read read_back derivation p s q token ids content run_id next v named source
      actions text given planned_s commit back in_range =
    let r = prepare read derivation emit_batch p in
    let e = plan_emit-Emitted sha256 r s planned_s in
    let id = emit_transition_id sha256 r in
    let refs = emit_refs e.ref id in
    let built : s ≡ emit_successor p id refs =
      e.built ∙ emit_successor-prepare read derivation p id refs in
    let issue =
      emit_successor-Issued sha256 p id refs q v (prepared_emit-Guard read derivation p e.clear)
        (rw built at commit) in
    let found = back ∙ ap (λ (w : Successor). some (content, w.result)) built in
    let clear =
      confirm-clear sha256 p id refs q v issue run_id named source ids actions read_back content
        found token text given in
    let present =
      read_back-emit_result sha256 p id refs q v issue run_id named source ids actions read_back
        content found in
    (
      _,
      plan_confirm-planned sha256 (prepare read_back [] confirm_batch q) run_id next
          (issue.run_id ∙ named) in_range token
          (rw present (
            emit_result-truthy sha256 p id refs q v issue run_id named source ids actions read_back
              content found))
          clear,
    )
