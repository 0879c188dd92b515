-- ===== src/Validation/Manifest.antt =====
-- `validateManifestShape` of scripts/lib/runtime/run-state-validation.mjs.
use ev4_builder_assistant_re.Base.{
  zero, suc, String, Bool, false, not, ◌&&◌, ◌||◌, List, [], ◌∷◌, ◌++◌, none, some, template,
  if◌then◌else◌,
}
use ev4_builder_assistant_re.Canonical.{digest_without}
use ev4_builder_assistant_re.Diagnostics.{Check, ◌reports◌, failures}
use ev4_builder_assistant_re.Json.{
  Value, undefined, null, num, neg, str, get, truthy, strict_eq, is_string, is_integer, is_positive,
  to_text,
}
use ev4_builder_assistant_re.Primitives.Blockers.{js_or}
use ev4_builder_assistant_re.Primitives.Names.{is_hash, generation_ref}
use ev4_builder_assistant_re.Primitives.Sources.{project_gate, direct_ce, manual_builder_input}

-- `HASH.test(value || '')`.
unfoldable pub hash_ok : Value → Bool
hash_ok v = is_hash (to_text (js_or v (str "")))

-- `typeof value !== 'string' || !value` of the negation.
unfoldable pub is_name : Value → Bool
is_name v = is_string v && truthy v

unfoldable pub is_source_mode : Value → Bool
is_source_mode v =
    strict_eq v project_gate || (strict_eq v direct_ce || strict_eq v manual_builder_input)

-- `Number.isInteger(number) && number >= 1 && ref === generationRef(number)`. A number above 999999,
-- for which `generationRef` throws, is not bound here.
unfoldable pub generation_bound : Value → Value → Bool
generation_bound (num n) ref = elim (generation_ref n) [
  | none ↦ false
  | some r ↦ strict_eq ref (str r)
]
generation_bound v ref = false

-- `number - 1`.
unfoldable pub minus_one : Value → Value
minus_one (num zero) = neg 0
minus_one (num (suc n)) = num n
minus_one (neg n) = neg (suc n)
minus_one v = undefined

receipt_checks : Value → List Check
receipt_checks m =
    if strict_eq (get "source_mode" m) project_gate
    then ((not (strict_eq (get "receipt_snapshot_ref" m) (str "source/project-gate-receipt.json"))
          || not (hash_ok (get "receipt_snapshot_sha256" m)))
        reports "RUN-MANIFEST-005")
      ∷ []
    else ((not (strict_eq (get "receipt_snapshot_ref" m) null)
          || not (strict_eq (get "receipt_snapshot_sha256" m) null))
        reports "RUN-MANIFEST-006")
      ∷ []

-- The code reads these fields of a missing `generation` without a guard, which throws; here they are
-- missing and RUN-MANIFEST-012 is reported.
predecessor_checks : Value → List Check
predecessor_checks g =
    if strict_eq (get "number" g) (num 1)
    then ((not (strict_eq (get "predecessor_generation" g) null)
          || (not (strict_eq (get "predecessor_checkpoint_id" g) null)
              || not (strict_eq (get "predecessor_checkpoint_sequence" g) null)))
        reports "RUN-MANIFEST-011")
      ∷ []
    else ((not (strict_eq (get "predecessor_generation" g) (minus_one (get "number" g)))
          || (not (is_string (get "predecessor_checkpoint_id" g))
              || not (is_integer (get "predecessor_checkpoint_sequence" g))))
        reports "RUN-MANIFEST-012")
      ∷ []

-- `${generation?.ref}/name`.
abbrev pub state_ref : Value → String → Value
state_ref g name = str (template (to_text (get "ref" g) ∷ name ∷ []))

-- RUN-MANIFEST-001 to 006: the run and its source.
unfoldable pub source_checks : Value → List Check
unfolding is_source_mode receipt_checks
source_checks m =
    (not (strict_eq (get "schema" m) (str "ev4-builder-run-manifest@1.0.0"))
      reports "RUN-MANIFEST-001")
    ∷ (not (is_name (get "run_id" m)) reports "RUN-MANIFEST-002")
    ∷ (not (is_source_mode (get "source_mode" m)) reports "RUN-MANIFEST-003")
    ∷ (not (hash_ok (get "source_snapshot_sha256" m)) reports "RUN-MANIFEST-004")
    ∷ receipt_checks m

module _ (sha256 : String → String) where
  -- RUN-MANIFEST-007 to 010: the digests and the number.
  unfoldable pub digest_checks : Value → List Check
  digest_checks m =
      ((not (hash_ok (get "runtime_context_digest" m))
          || not (hash_ok (get "canonical_package_digest" m)))
        reports "RUN-MANIFEST-007")
      ∷ (not (is_positive (get "current_checkpoint_sequence" m)) reports "RUN-MANIFEST-008")
      ∷ ((not (hash_ok (get "manifest_digest" m))
            || not (
                strict_eq (get "manifest_digest" m)
                  (str (digest_without sha256 m "manifest_digest"))))
          reports "RUN-MANIFEST-009")
      ∷ (not (generation_bound (get "number" (get "generation" m)) (get "ref" (get "generation" m)))
          reports "RUN-MANIFEST-010")
      ∷ []

-- RUN-MANIFEST-011 to 014: what the generation says of its predecessor and of its own state.
unfoldable pub generation_checks : Value → List Check
unfolding predecessor_checks
generation_checks m =
    let g = get "generation" m in
    predecessor_checks g
    ++ (((not (strict_eq (get "resulting_checkpoint_id" g) (get "current_checkpoint_id" m))
            || (not (
                  strict_eq (get "resulting_checkpoint_sequence" g)
                    (get "current_checkpoint_sequence" m))
                || not (strict_eq (get "runtime_state" g) (get "current_runtime_state" m))))
          reports "RUN-MANIFEST-013")
        ∷ ((not (strict_eq (get "runtime_context_ref" m) (state_ref g "/runtime-context.json"))
              || (not (strict_eq (get "session_ref" m) (state_ref g "/session-state.json"))
                  || not (strict_eq (get "checkpoint_ref" m) (state_ref g "/checkpoint.json"))))
            reports "RUN-MANIFEST-014")
        ∷ [])

module _ (sha256 : String → String) where
  unfoldable pub manifest_checks : Value → List Check
  manifest_checks m = source_checks m ++ (digest_checks sha256 m ++ generation_checks m)

  unfoldable pub validate_manifest_shape : Value → List String
  validate_manifest_shape m = failures (manifest_checks m)
