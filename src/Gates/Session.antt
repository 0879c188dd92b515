-- ===== src/Gates/Session.antt =====
-- scripts/validate-session-state.mjs: the cross-field checks of a session, against the table of states in
-- runtime/state-transitions.v1.json. A session has passed its schema, so its mode is one of the three.
pub mod Accepted
use ev4_builder_assistant_re.Base.{
  String, Bool, true, false, not, ◌&&◌, ◌||◌, List, [], ◌∷◌, ◌++◌, map, if◌then◌else◌,
}
use ev4_builder_assistant_re.Diagnostics.{Check, ◌reports◌, failures}
use ev4_builder_assistant_re.Json.{
  Value, undefined, null, str, object, array, get, truthy, strict_eq, elements, includes,
  has_length, to_text,
}
use ev4_builder_assistant_re.Gates.Checkpoint.{each}

abbrev texts : List String → Value
texts names = array (map str names)

-- The part of the table that the script reads.
unfoldable pub transition_table : Value
transition_table = object (
    ("schema", str "ev4-builder-state-transitions@1.0.0")
    ∷ (
      "runtime_states",
      texts (
          "INTAKE_WAITING" ∷ "INTAKE_VALIDATING" ∷ "BUILD_ACTIVE" ∷ "WAITING_FOR_CONFIRMATION"
          ∷ "EVIDENCE_REQUIRED" ∷ "CORRECTION" ∷ "REVIEW_ONLY" ∷ "PAUSED" ∷ "COMPLETED" ∷ []),
    )
    ∷ (
      "allowed_combinations",
      object (
          (
            "START_INTAKE_MODE",
            texts (
                "INTAKE_WAITING" ∷ "INTAKE_VALIDATING" ∷ "EVIDENCE_REQUIRED" ∷ "REVIEW_ONLY"
                ∷ "CORRECTION" ∷ "PAUSED" ∷ []),
          )
          ∷ (
            "APPROVED_HANDOFF_MODE",
            texts (
                "BUILD_ACTIVE" ∷ "WAITING_FOR_CONFIRMATION" ∷ "EVIDENCE_REQUIRED" ∷ "CORRECTION"
                ∷ "REVIEW_ONLY" ∷ "PAUSED" ∷ "COMPLETED" ∷ []),
          )
          ∷ (
            "FRESH_IMAGE_MODE_LIMITED",
            texts (
                "INTAKE_WAITING" ∷ "EVIDENCE_REQUIRED" ∷ "BUILD_ACTIVE" ∷ "WAITING_FOR_CONFIRMATION"
                ∷ "CORRECTION" ∷ "REVIEW_ONLY" ∷ "PAUSED" ∷ []),
          )
          ∷ []),
    )
    ∷ [])

-- `ACTIVE_RUNTIME_STATES`.
abbrev active_states : List Value
active_states = map str (
    "BUILD_ACTIVE" ∷ "WAITING_FOR_CONFIRMATION" ∷ "EVIDENCE_REQUIRED" ∷ "CORRECTION" ∷ "COMPLETED"
    ∷ [])

-- `value ?? null`.
unfoldable pub normalize_absent : Value → Value
normalize_absent undefined = null
normalize_absent v = v

unfoldable pub candidate_mismatch : Value → Value → Bool
candidate_mismatch a b = not (strict_eq (normalize_absent a) (normalize_absent b))

-- `ALLOWED_BY_MODE[mode]?.has(state)`.
unfoldable pub allowed_in : Value → Value → Value → Bool
allowed_in table mode state =
    includes (elements (get (to_text mode) (get "allowed_combinations" table))) state

abbrev pub is_state : Value → String → Bool
is_state session state = strict_eq (get "runtime_state" session) (str state)

unfoldable pub state_checks : Value → Value → List Check
state_checks table s =
    let mode = get "workflow_mode" s in
    let state = get "runtime_state" s in
    let current = get "current_state" s in
    (not (strict_eq (get "schema" table) (str "ev4-builder-state-transitions@1.0.0"))
      reports "EV4-SESSION-000")
    ∷ (truthy current && not (includes (elements (get "runtime_states" table)) current)
        reports "EV4-SESSION-001")
    ∷ (truthy state && (truthy current && not (strict_eq state current)) reports "EV4-SESSION-002")
    ∷ (truthy mode && (truthy state && not (allowed_in table mode state)) reports "EV4-SESSION-010")
    ∷ (is_state s "CORRECTION" && not (truthy (get "repair_packet" s)) reports "EV4-SESSION-003")
    ∷ []

-- The candidate of a checkpoint or packet against the session's.
unfoldable pub carrier_check : Value → Value → String → Check
carrier_check s carrier code =
    truthy carrier
      && candidate_mismatch (get "selected_candidate_id" carrier) (get "selected_candidate_id" s)
    reports code

unfoldable pub repair_checks : Value → List Check
repair_checks s =
    let checkpoint = get "last_verified_checkpoint" s in
    let packet = get "repair_packet" s in
    carrier_check s checkpoint "EV4-SESSION-004"
    ∷ carrier_check s packet "EV4-SESSION-005"
    ∷ carrier_check s (get "last_safe_checkpoint" packet) "EV4-SESSION-006"
    ∷ (strict_eq (get "schema" checkpoint) (str "ev4-builder-checkpoint@0.1.0")
          && includes active_states (get "runtime_state" s)
        reports "EV4-SESSION-007")
    ∷ (truthy packet && not (is_state s "CORRECTION") reports "EV4-SESSION-008")
    ∷ (truthy packet && not (is_state packet "CORRECTION") reports "EV4-SESSION-009")
    ∷ []

unfoldable pub paused_checks : Value → Value → List Check
paused_checks table s =
    let target = get "resume_target" s in
    let state = get "runtime_state" target in
    let incomplete =
      not (truthy (get "session_id" s))
      || (not (truthy (get "package_digest" s)) || not (truthy target)) in
    (incomplete reports "EV4-SESSION-011")
    ∷ (not incomplete
          && (not (allowed_in table (get "workflow_mode" target) state)
              || strict_eq state (str "COMPLETED"))
        reports "EV4-SESSION-012")
    ∷ []

unfoldable pub completed_session_checks : Value → List Check
completed_session_checks s =
    (not (strict_eq (get "workflow_mode" s) (str "APPROVED_HANDOFF_MODE"))
      reports "EV4-SESSION-013")
    ∷ (not (truthy (get "session_id" s)) || not (truthy (get "package_digest" s))
        reports "EV4-SESSION-014")
    ∷ (has_length (get "unresolved_evidence" s) reports "EV4-SESSION-015")
    ∷ []

-- Both are given and they differ.
unfoldable pub disagree : String → Value → Value → Bool
disagree key a b =
    truthy (get key a) && (truthy (get key b) && not (strict_eq (get key a) (get key b)))

unfoldable pub blocker_check : Value → Value → List Check
blocker_check s blocker =
    (not (includes (elements (get "unresolved_evidence" s)) blocker) reports "EV4-SESSION-018") ∷ []

unfoldable pub checkpoint_agreement : Value → List Check
checkpoint_agreement s =
    let checkpoint = get "last_verified_checkpoint" s in
    (disagree "session_id" s checkpoint reports "EV4-SESSION-016")
    ∷ (disagree "package_digest" s checkpoint reports "EV4-SESSION-017")
    ∷ each (blocker_check s) (elements (get "unresolved_blockers" checkpoint))

abbrev pub checks_if : Bool → List Check → List Check
checks_if b checks = if b then checks else []

unfoldable pub session_checks : Value → Value → List Check
session_checks table s =
    state_checks table s
    ++ (repair_checks s
        ++ (checks_if (is_state s "PAUSED") (paused_checks table s)
            ++ (checks_if (is_state s "COMPLETED") (completed_session_checks s)
                ++ checks_if
                    (strict_eq (get "schema" (get "last_verified_checkpoint" s))
                      (str "ev4-builder-checkpoint@0.2.0"))
                    (checkpoint_agreement s))))

unfoldable pub validate_session_state : Value → Value → List String
validate_session_state table s = failures (session_checks table s)
