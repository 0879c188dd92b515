-- ===== src/Validation/Generation.antt =====
-- `validateGeneration` of scripts/lib/runtime/run-state-validation.mjs, on the four state files it read.
-- `validateStateFiles`, which runs the Ajv schemas and two validator scripts as processes, is a parameter:
-- the diagnostics that it returned.
use ev4_builder_assistant_re.Base.{String, not, ◌||◌, List, [], ◌∷◌, ◌++◌}
use ev4_builder_assistant_re.Canonical.{digest_without}
use ev4_builder_assistant_re.Diagnostics.{Check, ◌reports◌, failures}
use ev4_builder_assistant_re.Json.{Value, str, get, strict_eq}
use ev4_builder_assistant_re.Primitives.Checkpoint.{checkpoint_sequence_is_valid}
use ev4_builder_assistant_re.Planner.Confirm.{same_json}
use ev4_builder_assistant_re.Planner.Types.{batch_id}
use ev4_builder_assistant_re.Validation.Manifest.{hash_ok, validate_manifest_shape}

-- The contents of a generation's directory.
pub record Generation : Type 0 where
  pub manifest : Value
  pub context : Value
  pub session : Value
  pub checkpoint : Value

module _ (sha256 : String → String) where
  unfoldable pub context_checks : Value → List Check
  context_checks c =
      ((not (strict_eq (get "schema" c) (str "ev4-builder-verified-context@1.0.0"))
          || not (strict_eq (get "runtime_mode" c) (str "real-builder-run")))
        reports "RUN-GENERATION-003")
      ∷ ((not (hash_ok (get "context_digest" c))
            || not (
                strict_eq (get "context_digest" c)
                  (str (digest_without sha256 c "context_digest"))))
          reports "RUN-GENERATION-004")
      ∷ []

-- The bindings between the files of one generation.
unfoldable pub binding_checks : Generation → List Check
binding_checks g =
    (not (checkpoint_sequence_is_valid g.checkpoint) reports "RUN-GENERATION-005")
    ∷ (not (same_json (get "last_verified_checkpoint" g.session) g.checkpoint)
        reports "RUN-GENERATION-006")
    ∷ (not (strict_eq (get "session_id" g.session) (get "session_id" g.checkpoint))
        reports "RUN-GENERATION-007")
    ∷ ((not (strict_eq (get "package_digest" g.session) (get "canonical_package_digest" g.context))
          || not (
              strict_eq (get "package_digest" g.checkpoint)
                (get "canonical_package_digest" g.context)))
        reports "RUN-GENERATION-008")
    ∷ ((not (
            strict_eq (get "selected_candidate_id" g.session)
              (get "selected_candidate_id" g.context))
          || not (
              strict_eq (get "selected_candidate_id" g.checkpoint)
                (get "selected_candidate_id" g.context)))
        reports "RUN-GENERATION-009")
    ∷ ((not (strict_eq (get "batch_id" g.checkpoint) (batch_id g.context))
          || not (strict_eq (get "active_batch_id" g.manifest) (batch_id g.context)))
        reports "RUN-GENERATION-010")
    ∷ ((not (strict_eq (get "runtime_state" g.session) (get "runtime_state" g.checkpoint))
          || (not (strict_eq (get "current_state" g.session) (get "runtime_state" g.checkpoint))
              || not (
                  strict_eq (get "current_runtime_state" g.manifest)
                    (get "runtime_state" g.checkpoint))))
        reports "RUN-GENERATION-011")
    ∷ ((not (strict_eq (get "runtime_context_digest" g.manifest) (get "context_digest" g.context))
          || (not (
                strict_eq (get "current_checkpoint_id" g.manifest)
                  (get "checkpoint_id" g.checkpoint))
              || not (
                  strict_eq (get "current_checkpoint_sequence" g.manifest)
                    (get "checkpoint_sequence" g.checkpoint))))
        reports "RUN-GENERATION-012")
    ∷ ((not (
            strict_eq (get "canonical_package_digest" g.manifest)
              (get "canonical_package_digest" g.context))
          || not (
              strict_eq (get "selected_candidate_id" g.manifest)
                (get "selected_candidate_id" g.context)))
        reports "RUN-GENERATION-013")
    ∷ []

module _ (sha256 : String → String) where
  unfoldable pub validate_generation : List String → Value → Generation → List String
  validate_generation state_problems expected_number g =
      validate_manifest_shape sha256 g.manifest
      ++ (failures (
            (not (strict_eq (get "number" (get "generation" g.manifest)) expected_number)
              reports "RUN-GENERATION-002")
            ∷ (context_checks sha256 g.context ++ binding_checks g))
          ++ state_problems)
