-- ===== src/Validation/Pointer.antt =====
-- `validateCurrentPointer` of scripts/lib/runtime/run-state-validation.mjs.
use ev4_builder_assistant_re.Base.{String, not, ◌||◌, List, [], ◌∷◌}
use ev4_builder_assistant_re.Canonical.{digest_without}
use ev4_builder_assistant_re.Diagnostics.{Check, ◌reports◌, failures}
use ev4_builder_assistant_re.Json.{Value, str, get, strict_eq, is_positive}
use ev4_builder_assistant_re.Validation.Manifest.{hash_ok, is_name, generation_bound}

module _ (sha256 : String → String) where
  unfoldable pub pointer_checks : Value → List Check
  pointer_checks c =
      (not (strict_eq (get "schema" c) (str "ev4-builder-current-generation@1.0.0"))
        reports "RUN-CURRENT-001")
      ∷ (not (is_name (get "run_id" c)) reports "RUN-CURRENT-002")
      ∷ (not (generation_bound (get "generation" c) (get "generation_ref" c))
          reports "RUN-CURRENT-003")
      ∷ (not (hash_ok (get "manifest_digest" c)) reports "RUN-CURRENT-004")
      ∷ (not (hash_ok (get "context_digest" c)) reports "RUN-CURRENT-004")
      ∷ (not (hash_ok (get "pointer_digest" c)) reports "RUN-CURRENT-004")
      ∷ ((not (hash_ok (get "pointer_digest" c))
            || not (
                strict_eq (get "pointer_digest" c)
                  (str (digest_without sha256 c "pointer_digest"))))
          reports "RUN-CURRENT-005")
      ∷ (not (is_positive (get "checkpoint_sequence" c)) reports "RUN-CURRENT-006")
      ∷ []

  unfoldable pub validate_current_pointer : Value → List String
  validate_current_pointer c = failures (pointer_checks c)
