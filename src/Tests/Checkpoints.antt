-- ===== src/Tests/Checkpoints.antt =====
-- An accepted checkpoint of a completed run, and one that is refused.
use ev4_builder_assistant_re.Gates.Checkpoint.{unresolved_check}
use ev4_builder_assistant_re.Gates.Checkpoint.{completed_checks}
use ev4_builder_assistant_re.Gates.Checkpoint.{record_checks}
use ev4_builder_assistant_re.Planner.Completion.{find_last}
use ev4_builder_assistant_re.Gates.Checkpoint.{reference_checks}
use ev4_builder_assistant_re.Gates.Checkpoint.{assertion_checks}
use ev4_builder_assistant_re.Gates.Checkpoint.{claim_check}
use ev4_builder_assistant_re.Gates.Checkpoint.{overlap_check}
use ev4_builder_assistant_re.Gates.Checkpoint.{each}
use ev4_builder_assistant_re.Json.{includes}
use ev4_builder_assistant_re.Json.{truthy}
use ev4_builder_assistant_re.Json.{elements}
use ev4_builder_assistant_re.Gates.Checkpoint.{ids_of}
use ev4_builder_assistant_re.Gates.Checkpoint.{duplicates_from}
use ev4_builder_assistant_re.Gates.Checkpoint.{checkpoint_checks}
use ev4_builder_assistant_re.Diagnostics.{failures}
use ev4_builder_assistant_re.Json.{get}
use ev4_builder_assistant_re.Json.{strict_eq}
use ev4_builder_assistant_re.Base.{String, List, [], ◌∷◌, ◌≡◌, refl}
use ev4_builder_assistant_re.Json.{Value, str, array, object}
use ev4_builder_assistant_re.Gates.Checkpoint.{validate_checkpoint}
use ev4_builder_assistant_re.Gates.Checkpoint.Sound.{Sound, validate_checkpoint-Sound}

abbrev checkpoint_in : String → List Value → Value
checkpoint_in status unconfirmed = object (
    ("schema", str "ev4-builder-checkpoint@0.2.0")
    ∷ ("workflow_mode", str "APPROVED_HANDOFF_MODE")
    ∷ ("session_id", str "session-1")
    ∷ ("package_digest", str "sha256:1")
    ∷ ("runtime_state", str "COMPLETED")
    ∷ ("confirmed_action_ids", array (str "action-1" ∷ []))
    ∷ ("unconfirmed_action_ids", array unconfirmed)
    ∷ ("unresolved_blockers", array [])
    ∷ (
      "assertions",
      array (
          object (
            ("assertion_id", str "claim-1")
            ∷ ("status", str "confirmed")
            ∷ ("evidence_refs", array (str "evidence-1" ∷ []))
            ∷ [])
          ∷ []),
    )
    ∷ (
      "evidence_ledger",
      array (
          object (
            ("evidence_id", str "evidence-1")
            ∷ ("status", str status)
            ∷ ("supports_claim_ids", array (str "claim-1" ∷ []))
            ∷ [])
          ∷ []),
    )
    ∷ [])

completed_passes : validate_checkpoint (checkpoint_in "available" []) ≡ []
unfolding validate_checkpoint strict_eq get failures checkpoint_checks duplicates_from ids_of
    elements truthy includes each overlap_check claim_check assertion_checks reference_checks
    find_last record_checks completed_checks unresolved_check
completed_passes = refl

open_fails :
    validate_checkpoint (checkpoint_in "missing" (str "action-1" ∷ []))
    ≡ "Action ID appears in both" ∷ "references non-available evidence"
      ∷ "cannot contain unconfirmed actions" ∷ []
unfolding validate_checkpoint strict_eq get failures checkpoint_checks duplicates_from ids_of
    elements truthy includes each overlap_check claim_check assertion_checks reference_checks
    find_last record_checks completed_checks unresolved_check
open_fails = refl

validate_checkpoint-Sound_example : Sound (checkpoint_in "available" [])
unfolding get
validate_checkpoint-Sound_example =
    validate_checkpoint-Sound (checkpoint_in "available" []) refl completed_passes
