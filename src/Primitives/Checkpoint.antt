-- ===== src/Primitives/Checkpoint.antt =====
-- Checkpoints and sessions: `buildCheckpoint`, `stateCapsule`, `buildSession` and
-- `updateSessionForCheckpoint` of scripts/lib/runtime/run-primitives.mjs, and `checkpointSequenceIsValid`
-- of scripts/lib/checkpoint-sequence.mjs.
pub mod Session
use ev4_builder_assistant_re.Base.{
  ℕ, String, ◌≡◌, ◌≢◌, ◌∙◌, ap, inl, inr, Bool-cases, Bool, true, false, not, ◌&&◌, ◌||◌, ◌==◌, leb,
  exists, codes, List, [], ◌∷◌, map, str_eq, if◌then◌else◌, is_empty, template, pad_start,
}
use ev4_builder_assistant_re.Json.Laws.{
  IsObject, last_write, get-assign, assign-IsObject, get-remove,
}
use ev4_builder_assistant_re.Json.{
  Value, undefined, null, num, str, object, array, get, assign, remove, strict_eq, is_string,
  is_positive, to_text,
}
use ev4_builder_assistant_re.Primitives.Names.{timestamp_for_sequence}
use ev4_builder_assistant_re.Primitives.Blockers.{collect_active_blockers}

abbrev pub build_active : Value
build_active = str "BUILD_ACTIVE"

abbrev pub waiting_for_confirmation : Value
waiting_for_confirmation = str "WAITING_FOR_CONFIRMATION"

abbrev pub completed : Value
completed = str "COMPLETED"

abbrev retry_policy : Value
retry_policy = object (
    ("max_retry_per_action", num 3)
    ∷ ("retry_1", str "clarify_instruction")
    ∷ ("retry_2", str "request_targeted_screenshot")
    ∷ ("retry_3", str "enter_CORRECTION")
    ∷ [])

-- The arguments of `buildCheckpoint`, less `context`.
pub record CheckpointInput : Type 0 where
  pub run_id : Value
  pub session_id : Value
  pub sequence : Value
  pub parent_id : Value
  pub state : Value
  pub confirmed_action_ids : Value
  pub unconfirmed_action_ids : Value
  pub unresolved_blockers : Value
  pub assertions : Value
  pub evidence_ledger : Value
  pub created_from : Value

unfoldable pub checkpoint_id : Value → Value → Value
checkpoint_id run_id sequence =
    str (template ("CP-" ∷ to_text run_id ∷ "-" ∷ pad_start 4 (to_text sequence) ∷ []))

unfoldable pub build_checkpoint : Value → CheckpointInput → Value
build_checkpoint context i = object (
    ("schema", str "ev4-builder-checkpoint@0.2.0")
    ∷ ("checkpoint_id", checkpoint_id i.run_id i.sequence)
    ∷ ("checkpoint_sequence", i.sequence)
    ∷ ("parent_checkpoint_id", i.parent_id)
    ∷ ("session_id", i.session_id)
    ∷ ("package_id", str (template ("RUN-BUNDLE:" ∷ to_text i.run_id ∷ [])))
    ∷ ("package_sha256", get "builder_input_sha256" context)
    ∷ ("package_digest", get "canonical_package_digest" context)
    ∷ ("selected_candidate_id", get "selected_candidate_id" context)
    ∷ ("workflow_mode", str "APPROVED_HANDOFF_MODE")
    ∷ ("runtime_state", i.state)
    ∷ ("batch_id", get "batch_id" (get "action_batch" context))
    ∷ ("confirmed_action_ids", i.confirmed_action_ids)
    ∷ ("unconfirmed_action_ids", i.unconfirmed_action_ids)
    ∷ ("unresolved_blockers", i.unresolved_blockers)
    ∷ ("assertions", i.assertions)
    ∷ ("evidence_ledger", i.evidence_ledger)
    ∷ ("retry_policy", retry_policy)
    ∷ ("created_at", str (timestamp_for_sequence i.sequence))
    ∷ ("created_from", i.created_from)
    ∷ [])

unfoldable pub state_capsule : Value → Value → String → Value
state_capsule state checkpoint risk = str (
    template (
      "[STATE workflow=APPROVED_HANDOFF_MODE state="
      ∷ to_text state
      ∷ " cp="
      ∷ to_text (get "checkpoint_id" checkpoint)
      ∷ " batch="
      ∷ to_text (get "batch_id" checkpoint)
      ∷ " risk="
      ∷ risk
      ∷ "]"
      ∷ []))

abbrev risk_of : List String → String
risk_of blockers = if is_empty blockers then "low" else "blocked"

unfoldable pub build_session : Value → Value → Value → Value → Value
unfolding state_capsule
build_session session_id context checkpoint unresolved_evidence = object (
    ("schema", str "ev4-builder-session-state@0.1.0")
    ∷ ("session_id", session_id)
    ∷ ("package_digest", get "canonical_package_digest" context)
    ∷ ("workflow_mode", str "APPROVED_HANDOFF_MODE")
    ∷ ("runtime_state", get "runtime_state" checkpoint)
    ∷ (
      "state_capsule",
      state_capsule (get "runtime_state" checkpoint) checkpoint (
          risk_of (
            collect_active_blockers (object (("unresolved_evidence", unresolved_evidence) ∷ []))
              checkpoint)),
    )
    ∷ ("current_state", get "runtime_state" checkpoint)
    ∷ ("selected_candidate_id", get "selected_candidate_id" context)
    ∷ ("last_verified_checkpoint", checkpoint)
    ∷ ("max_actions_per_turn", num 5)
    ∷ ("active_warnings", array [])
    ∷ ("unresolved_evidence", unresolved_evidence)
    ∷ [])

-- The fields that a session takes from a checkpoint, before its capsule is written.
carried_fields : Value → List (String × Value)
carried_fields checkpoint =
    ("workflow_mode", str "APPROVED_HANDOFF_MODE")
    ∷ ("runtime_state", get "runtime_state" checkpoint)
    ∷ ("current_state", get "runtime_state" checkpoint)
    ∷ ("last_verified_checkpoint", checkpoint)
    ∷ []

capsule_field : Value → Value → List (String × Value)
unfolding state_capsule
capsule_field session checkpoint =
    (
      "state_capsule",
      state_capsule (get "runtime_state" checkpoint) checkpoint
          (risk_of (collect_active_blockers session checkpoint)),
    )
    ∷ []

unfoldable pub update_session : Value → Value → Value
unfolding carried_fields capsule_field
update_session session checkpoint =
    let carried = assign (carried_fields checkpoint) session in
    let next = assign (capsule_field carried checkpoint) carried in
    if strict_eq (get "runtime_state" checkpoint) completed
    then remove "resume_target" next
    else next

-- What a session reads after it carries a checkpoint, at any field but the one that may be deleted.
get-update_session :
    (k : String) (session checkpoint : Value)
    → "resume_target" ≢ k
    → IsObject session
    → get k (update_session session checkpoint)
      ≡ last_write k
          (capsule_field (assign (carried_fields checkpoint) session) checkpoint)
          (last_write k (carried_fields checkpoint) (get k session))
unfolding update_session
get-update_session k session checkpoint other h =
    let carried = assign (carried_fields checkpoint) session in
    let next = assign (capsule_field carried checkpoint) carried in
    let kept : get k next
        ≡ last_write k (capsule_field carried checkpoint)
            (last_write k (carried_fields checkpoint) (get k session)) =
      get-assign k (capsule_field carried checkpoint) carried
        (assign-IsObject (carried_fields checkpoint) session h)
      ∙ ap (last_write k (capsule_field carried checkpoint))
          (get-assign k (carried_fields checkpoint) session h) in
    elim (Bool-cases (strict_eq (get "runtime_state" checkpoint) completed)) [
      | inl done ↦ rw done (get-remove "resume_target" k next other ∙ kept)
      | inr running ↦ rw running kept
    ]

-- The characters that `trim` removes: white space and line ends.
abbrev is_space : ℕ → Bool
is_space c =
    leb 9 c && leb c 13
    || c == 32
    || c == 160
    || c == 5760
    || leb 8192 c && leb c 8202
    || c == 8232
    || c == 8233
    || c == 8239
    || c == 8287
    || c == 12288
    || c == 65279

-- `typeof value === 'string' && value.trim().length > 0`.
unfoldable pub is_inked_text : Value → Bool
is_inked_text (str s) = exists (λ c. not (is_space c)) (codes s)
is_inked_text v = false

unfoldable pub checkpoint_sequence_is_valid : Value → Bool
checkpoint_sequence_is_valid checkpoint =
    is_positive (get "checkpoint_sequence" checkpoint)
    && (if strict_eq (get "checkpoint_sequence" checkpoint) (num 1)
        then strict_eq (get "parent_checkpoint_id" checkpoint) null
        else is_inked_text (get "parent_checkpoint_id" checkpoint))
