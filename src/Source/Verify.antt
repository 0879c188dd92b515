-- ===== src/Source/Verify.antt =====
-- `verifyBuilderInput` of scripts/lib/builder-runtime-transition.mjs. The schema check and the two validator scripts
-- are a parameter, as is `JSON.parse`.
use ev4_builder_assistant_re.Base.{
  String, true, not, ◌||◌, List, [], ◌∷◌, ◌++◌, Option, none, some, if◌then◌else◌, ◌≡◌, refl,
  or-eq-false, append-eq-nil, sym, ap, ◌∙◌, inl, inr, Option-cases,
}
use mathlib.Core.Option.{some-injective}
use ev4_builder_assistant_re.Diagnostics.{Check, ◌reports◌, failures, failures-eq-nil, passed}
use ev4_builder_assistant_re.Json.{
  Value, undefined, null, bool, str, get, strict_eq, is_string, has_length,
}
use ev4_builder_assistant_re.Json.Laws.{IsText}
use ev4_builder_assistant_re.Validation.Manifest.{is_name}
use ev4_builder_assistant_re.Source.Context.{compute_package_digest}

-- `digest` is `identity?.canonical_package_digest`.
pub record Verification : Type 0 where
  pub diagnostics : List String
  pub builder_package : Value
  pub digest : Value

unfoldable pub candidate_checks : Value → List Check
candidate_checks p =
    (not (strict_eq (get "selected_candidate_locked" p) (bool true))
        || not (is_name (get "selected_candidate_id" p))
      reports "BUILDER-INPUT-006")
    ∷ []

unfoldable pub authorization_checks : Value → List Check
authorization_checks authorization =
    (not (strict_eq (get "decision" authorization) (str "approved"))
        || (not
              (strict_eq (get "eligible_workflow_mode" authorization) (str "APPROVED_HANDOFF_MODE"))
            || (not (strict_eq (get "eligible_runtime_state" authorization) (str "BUILD_ACTIVE"))
                || has_length (get "blocking_diagnostics" authorization)))
      reports "BUILDER-INPUT-007")
    ∷ []

module _ (sha256 : String → String) (parse : String → Option Value)
    (input_problems : String → List String) where
  unfoldable pub digest_check : Value → List Check
  digest_check p =
      (not (
          strict_eq (get "value" (get "package_digest" (get "input_authorization" p)))
            (str (compute_package_digest sha256 p)))
        reports "BUILDER-INPUT-008")
      ∷ []

  unfoldable pub input_diagnostics : String → Value → List String
  input_diagnostics content p =
      (if strict_eq (get "schema" p) (str "ev4-builder-context-package@1.0.0")
        then input_problems content
        else "BUILDER-INPUT-002" ∷ [])
      ++ failures (
          candidate_checks p
          ++ (authorization_checks (get "input_authorization" p) ++ digest_check p))

  -- `none` is an exception: the text `null` has no fields.
  unfoldable pub verify_parsed : String → Option Value → Option Verification
  verify_parsed content none = some (record {
    diagnostics = "BUILDER-INPUT-001" ∷ [];
    builder_package = null;
    digest = undefined;
  })
  verify_parsed content (some null) = none
  verify_parsed content (some p) = some (record {
    diagnostics = input_diagnostics content p;
    builder_package = p;
    digest = str (compute_package_digest sha256 p);
  })

  unfoldable pub verify_builder_input : String → Option Verification
  verify_builder_input content = verify_parsed content (parse content)

  is_name-IsText : (v : Value) → is_name v ≡ true → IsText v
  unfolding is_name is_string
  is_name-IsText (str s) h = tt
  is_name-IsText _ h = absurd (cc h)

  -- A package without a diagnostic names its candidate by a text.
  pub input_diagnostics-candidate :
      (content : String) (p : Value)
      → input_diagnostics content p ≡ []
      → IsText (get "selected_candidate_id" p)
  unfolding input_diagnostics candidate_checks
  input_diagnostics-candidate content p h =
      let (_, checks) = append-eq-nil _ _ h in
      let first =
        ((failures-eq-nil (
            candidate_checks p
            ++ (authorization_checks (get "input_authorization" p) ++ digest_check p))).0
          checks).0 in
      is_name-IsText _ (passed _ (or-eq-false _ _ first).1)

  verify_parsed-candidate :
      (content : String) (p : Value) (v : Verification)
      → verify_parsed content (some p) ≡ some v
      → v.diagnostics ≡ []
      → (v.builder_package ≡ p) × IsText (get "selected_candidate_id" p)
  unfolding verify_parsed
  verify_parsed-candidate content null v h clear = absurd (cc h)
  verify_parsed-candidate content p v h clear =
      let same = some-injective _ _ h in
      (
        ap (λ (w : Verification). w.builder_package) (sym same),
        input_diagnostics-candidate content p
            (ap (λ (w : Verification). w.diagnostics) same ∙ clear),
      )

  -- Content that is verified without a diagnostic is the text of a package with a candidate.
  pub verify_builder_input-candidate :
      (content : String) (v : Verification)
      → verify_builder_input content ≡ some v
      → v.diagnostics ≡ []
      → (parse content ≡ some v.builder_package)
        × IsText (get "selected_candidate_id" v.builder_package)
  unfolding verify_builder_input verify_parsed
  verify_builder_input-candidate content v h clear = elim (Option-cases (parse content)) [
    | inl malformed ↦
        let same = some-injective _ _ (rw (verify_builder_input, malformed) at h) in
        absurd (cc (ap (λ (w : Verification). w.diagnostics) same ∙ clear))
    | inr (p, is) ↦
        let (same, candidate) =
          verify_parsed-candidate content p v (rw (verify_builder_input, is) at h) clear in
        rw (same, is) (refl, candidate)
  ]
