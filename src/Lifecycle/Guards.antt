-- ===== src/Lifecycle/Guards.antt =====
-- What must hold of a run for each planner to plan: the guards that decide the order of operations.
use ev4_builder_assistant_re.Base.{
  String, true, false, not, ◌&&◌, ◌||◌, List, [], Option, ◌≡◌, inl, inr, Bool-cases, append-eq-nil,
  or-eq-false, is_empty-eq-nil,
}
use ev4_builder_assistant_re.Diagnostics.{failures, failures-eq-nil, passed}
use ev4_builder_assistant_re.Json.{Value, get, truthy, strict_eq, has_length}
use ev4_builder_assistant_re.Json.Laws.{strict_eq-eq}
use ev4_builder_assistant_re.Primitives.Blockers.{collect_active_blockers}
use ev4_builder_assistant_re.Primitives.Checkpoint.{
  build_active, waiting_for_confirmation, checkpoint_sequence_is_valid,
}
use ev4_builder_assistant_re.Primitives.Sets.{same_set}
use ev4_builder_assistant_re.Publication.{emit_batch, real_completion}
use ev4_builder_assistant_re.Planner.Types.{Predecessor, action_ids, preparation_diagnostics}
use ev4_builder_assistant_re.Planner.Prepare.{
  prepare, prepare_planning, prepared_completion-present,
}
use ev4_builder_assistant_re.Planner.Emit.{emit_checks, emit_diagnostics}
use ev4_builder_assistant_re.Planner.Confirm.{confirm_checks, confirm_diagnostics}
use ev4_builder_assistant_re.Planner.Evidence.Attach.{attach_checks}
use ev4_builder_assistant_re.Planner.Completion.{
  validate_prepared_confirmation, confirmation_checks,
}
use ev4_builder_assistant_re.Planner.Completion.Finish.{completion_checks, completion_diagnostics}

-- Checkpoint and session of a run are both in a state.
pub record InState (p : Predecessor) (state : Value) : Type 0 where
  pub checkpoint : get "runtime_state" p.checkpoint ≡ state
  pub session : get "runtime_state" p.session ≡ state

in_state :
    (p : Predecessor) (state : Value)
    → (not (strict_eq (get "runtime_state" p.checkpoint) state)
        || not (strict_eq (get "runtime_state" p.session) state))
      ≡ false
    → InState p state
in_state p state h =
    let (checkpoint, session) = or-eq-false _ _ h in
    record {
      checkpoint = strict_eq-eq _ _ (passed _ checkpoint);
      session = strict_eq-eq _ _ (passed _ session);
    }

pub record EmitGuard (p : Predecessor) : Type 0 where
  pub state : InState p build_active
  pub unemitted : truthy (get "active_emit_result_ref" p.manifest) ≡ false
  pub unconfirmed : truthy (get "active_confirmation_receipt_ref" p.manifest) ≡ false
  pub actions : same_set (get "unconfirmed_action_ids" p.checkpoint) (action_ids p.context) ≡ true
  pub fresh : has_length (get "confirmed_action_ids" p.checkpoint) ≡ false
  pub unblocked : collect_active_blockers p.session p.checkpoint ≡ []

emit_diagnostics-Guard : (p : Predecessor) → (emit_diagnostics p ≡ []) → EmitGuard p
unfolding emit_diagnostics emit_checks
emit_diagnostics-Guard p h =
    let (_, checks) = append-eq-nil (preparation_diagnostics p.planning) _ h in
    let (refs, (state, (sets, (blockers, _)))) = (failures-eq-nil (emit_checks p)).0 checks in
    let (unemitted, unconfirmed) = or-eq-false _ _ refs in
    let (actions, fresh) = or-eq-false _ _ sets in
    record {
      state = in_state p build_active state;
      unemitted = unemitted;
      unconfirmed = unconfirmed;
      actions = passed _ actions;
      fresh = fresh;
      unblocked = is_empty-eq-nil _ (passed _ blockers);
    }

pub prepared_emit-Guard :
    (read : Value → Option (String × Value)) (derivation : List String) (p : Predecessor)
    → emit_diagnostics (prepare read derivation emit_batch p) ≡ []
    → EmitGuard p
unfolding prepare
prepared_emit-Guard read derivation p h =
    let g = emit_diagnostics-Guard (prepare read derivation emit_batch p) h in
    record {
      state = record { checkpoint = g.state.checkpoint; session = g.state.session };
      unemitted = g.unemitted;
      unconfirmed = g.unconfirmed;
      actions = g.actions;
      fresh = g.fresh;
      unblocked = g.unblocked;
    }

pub record ConfirmGuard (p : Predecessor) (token : Value) : Type 0 where
  pub state : InState p waiting_for_confirmation
  pub unconfirmed : truthy (get "active_confirmation_receipt_ref" p.manifest) ≡ false
  pub fresh : has_length (get "confirmed_action_ids" p.checkpoint) ≡ false
  pub actions : same_set (get "unconfirmed_action_ids" p.checkpoint) (action_ids p.context) ≡ true
  pub token_given : token ≡ get "expected_user_token" (get "confirmation" p.context)
  pub unblocked : collect_active_blockers p.session p.checkpoint ≡ []

pub confirm_diagnostics-Guard :
    (p : Predecessor) (token : Value) → confirm_diagnostics p token ≡ [] → ConfirmGuard p token
unfolding confirm_diagnostics confirm_checks
confirm_diagnostics-Guard p token h =
    let (checks, _) = append-eq-nil _ _ h in
    let (receipt, (state, (sets, (_, (given, (blockers, _)))))) =
      (failures-eq-nil (confirm_checks p token)).0 checks in
    let (fresh, actions) = or-eq-false _ _ sets in
    record {
      state = in_state p waiting_for_confirmation state;
      unconfirmed = receipt;
      fresh = fresh;
      actions = passed _ actions;
      token_given = strict_eq-eq _ _ (passed _ given);
      unblocked = is_empty-eq-nil _ (passed _ blockers);
    }

pub record EvidenceGuard (p : Predecessor) : Type 0 where
  pub state : get "runtime_state" p.checkpoint ≡ build_active
  pub confirmed : truthy (get "active_confirmation_receipt_ref" p.manifest) ≡ true

pub attach_checks-Guard :
    (p : Predecessor) (source : Value) (ref : String)
    → failures (attach_checks p source ref) ≡ []
    → EvidenceGuard p
unfolding attach_checks
attach_checks-Guard p source ref h =
    let (first, _) = (failures-eq-nil (attach_checks p source ref)).0 h in
    let (state, receipt) = or-eq-false _ _ first in
    record { state = strict_eq-eq _ _ (passed _ state); confirmed = passed _ receipt }

pub record CompletionGuard (p : Predecessor) : Type 0 where
  pub state : InState p build_active
  pub sequence : checkpoint_sequence_is_valid p.checkpoint ≡ true
  pub unblocked : collect_active_blockers p.session p.checkpoint ≡ []
  pub actions : same_set (get "confirmed_action_ids" p.checkpoint) (action_ids p.context) ≡ true
  pub all_confirmed : has_length (get "unconfirmed_action_ids" p.checkpoint) ≡ false

module _ (sha256 : String → String) where
  -- The last check of the receipt and the result: every action is confirmed.
  confirmation-actions :
      (p : Predecessor) (receipt result : Value)
      → failures (confirmation_checks sha256 p receipt result) ≡ []
      → (not (same_set (get "confirmed_action_ids" p.checkpoint) (action_ids p.context))
          || has_length (get "unconfirmed_action_ids" p.checkpoint))
        ≡ false
  unfolding confirmation_checks
  confirmation-actions p receipt result h =
      let (_, (_, (_, (_, (_, (_, (_, (_, (_, (actions, _)))))))))) =
        (failures-eq-nil (confirmation_checks sha256 p receipt result)).0 h in
      actions

  -- A confirmation that passes was read, and its checks pass.
  confirmation-read :
      (read : Value → Option (String × Value)) (derivation : List String) (p : Predecessor)
      → validate_prepared_confirmation sha256 (prepare read derivation real_completion p) ≡ []
      → failures (
          confirmation_checks sha256
            (prepare read derivation real_completion p)
            (prepare_planning read derivation real_completion p.manifest).confirmation_receipt
            (prepare_planning read derivation real_completion p.manifest).confirmation_result)
        ≡ []
  unfolding validate_prepared_confirmation prepare
  confirmation-read read derivation p h =
      let planning = prepare_planning read derivation real_completion p.manifest in
      elim (Bool-cases
        (truthy planning.confirmation_receipt && truthy planning.confirmation_result)) [
          | inl present ↦ rw present at h
          | inr missing ↦
              let none_found : planning.diagnostics ≡ [] = rw missing at h in
              let present = prepared_completion-present read derivation p.manifest none_found in cc
        ]

  pub completion_diagnostics-Guard :
      (read : Value → Option (String × Value)) (derivation : List String) (p : Predecessor)
      → completion_diagnostics sha256 (prepare read derivation real_completion p) ≡ []
      → CompletionGuard p
  unfolding completion_diagnostics completion_checks prepare
  completion_diagnostics-Guard read derivation p h =
      let q = prepare read derivation real_completion p in
      let (_, rest) = append-eq-nil (preparation_diagnostics q.planning) _ h in
      let (checks, others) = append-eq-nil (failures (completion_checks q)) _ rest in
      let (confirmation, _) = append-eq-nil (validate_prepared_confirmation sha256 q) _ others in
      let (_, (state, (sequence, (blockers, _)))) =
        (failures-eq-nil (completion_checks q)).0 checks in
      let (actions, unconfirmed) = or-eq-false _ _ (
        confirmation-actions q q.planning.confirmation_receipt q.planning.confirmation_result
          (confirmation-read read derivation p confirmation)) in
      record {
        state = in_state p build_active state;
        sequence = passed _ sequence;
        unblocked = is_empty-eq-nil _ (passed _ blockers);
        actions = passed _ actions;
        all_confirmed = unconfirmed;
      }
