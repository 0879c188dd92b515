-- ===== src/Source/Context.antt =====
-- `deriveDecisionLineage`, `contextSemantics` and `buildRuntimeContext` of
-- scripts/lib/builder-explicit-source-runtime.mjs, and `computePackageDigest` of
-- scripts/lib/canonical-builder-package.mjs. A file is its path from the repository's root and its content.
use ev4_builder_assistant_re.Base.{
  String, false, ◌||◌, List, [], ◌∷◌, ◌++◌, map, template, Option, none, some, if◌then◌else◌,
}
use ev4_builder_assistant_re.Canonical.{canonical_digest}
use ev4_builder_assistant_re.Json.{
  Value, undefined, null, bool, str, object, array, get, put, remove, truthy, strict_eq, elements,
  to_text,
}
use ev4_builder_assistant_re.Primitives.Sources.{project_gate, direct_ce, manual_builder_input}
use ev4_builder_assistant_re.Source.Batch.{batch_identity}

pub record File : Type 0 where
  pub path : String
  pub content : String

-- `value ?? default`.
unfoldable pub given_or : Value → Value → Value
given_or undefined d = d
given_or null d = d
given_or v d = v

unfoldable pub decision_entry : Value → String → Value → Value
decision_entry builder_package digest entry = object (
    ("decision_family", given_or (get "decision_family" entry) null)
    ∷ ("decision_card_ref", given_or (get "decision_card_ref" entry) null)
    ∷ ("selected_option", given_or (get "selected_option" entry) null)
    ∷ ("source_package_digest", str digest)
    ∷ ("producer_stage", given_or (get "source_stage" builder_package) null)
    ∷ (
      "verification_status",
      if strict_eq (get "verification_status" entry) (str "manual_attributed")
            || strict_eq (get "evidence_state" entry) (str "manual")
          then str "manual_attributed"
          else str "content_derived",
    )
    ∷ ("may_authorize_new_design_decision", bool false)
    ∷ [])

unfoldable pub derive_decision_lineage : Value → String → Value
derive_decision_lineage builder_package digest = array (
    map (decision_entry builder_package digest) (elements (get "decision_lineage" builder_package)))

-- The fields that depend on the mode; both kinds of source have the other two.
unfoldable pub context_semantics : Value → List (String × Value)
context_semantics mode =
    ("content_binding_status", str "verified")
    ∷ ("source_selection", str "operator_explicit")
    ∷ (
      "origin_assurance",
      if strict_eq mode manual_builder_input
          then str "manual_operator_supplied"
          else str "not_independently_verified",
    )
    ∷ (
      "receipt_binding_status",
      if strict_eq mode project_gate then str "matched" else str "not_applicable",
    )
    ∷ []

unfoldable pub path_of : Option File → Value
path_of none = null
path_of (some file) = str file.path

unfoldable pub confirmation_of : Value → Value → Value
confirmation_of builder_package batch =
    let request = get "confirmation_request" builder_package in
    object (
      (
        "confirmation_id",
        given_or (get "confirmation_id" request) (str (template ("CONFIRM-" ∷ to_text batch ∷ []))),
      )
      ∷ (
        "expected_user_token",
        given_or (get "expected_user_token" request)
            (str (template ("\u{62a}\u{627}\u{6cc}\u{6cc}\u{62f} " ∷ to_text batch ∷ []))),
      )
      ∷ [])

module _ (sha256 : String → String) where
  -- `packageWithoutDigest` drops a digest that is given.
  unfoldable pub package_without_digest : Value → Value
  package_without_digest builder_package =
      let authorization = get "input_authorization" builder_package in
      if truthy (get "package_digest" authorization)
      then put "input_authorization" (remove "package_digest" authorization) builder_package
      else builder_package

  unfoldable pub compute_package_digest : Value → String
  compute_package_digest builder_package =
      canonical_digest sha256 (package_without_digest builder_package)

  unfoldable pub bare_context :
      Value → File → Option File → Option File → String → Value → Value → Value
  bare_context mode selected artifact input input_bytes builder_package batch = object (
      ("schema", str "ev4-builder-verified-context@1.0.0")
      ∷ ("runtime_mode", str "real-builder-run")
      ∷ ("source_mode", mode)
      ∷ (context_semantics mode
          ++ (("selected_source_ref", str selected.path)
              ∷ ("selected_source_sha256", str (sha256 selected.content))
              ∷ ("source_artifact_ref", path_of artifact)
              ∷ ("builder_input_ref", path_of input)
              ∷ ("builder_input_sha256", str (sha256 input_bytes))
              ∷ ("canonical_package_digest", str (compute_package_digest builder_package))
              ∷ ("selected_candidate_id", get "selected_candidate_id" builder_package)
              ∷ ("builder_context_schema", get "schema" builder_package)
              ∷ ("synthetic_derived", bool false)
              ∷ ("action_batch", batch)
              ∷ ("confirmation", confirmation_of builder_package (get "batch_id" batch))
              ∷ (
                "decision_lineage",
                derive_decision_lineage builder_package (compute_package_digest builder_package),
              )
              ∷ [])))

  unfoldable pub sealed_context : Value → Value
  sealed_context context =
      put "context_digest" (str (canonical_digest sha256 (remove "context_digest" context))) context

  unfoldable pub context_from :
      Value → Option File → Option File → Option File → String → Value → Option Value → Option Value
  context_from mode (some selected) artifact input input_bytes builder_package (some batch) =
      some (
        sealed_context
          (bare_context mode selected artifact input input_bytes builder_package batch))
  context_from mode _ artifact input input_bytes builder_package _ = none

  -- `none` is an exception.
  unfoldable pub build_runtime_context :
      Value → Option File → Option File → String → Value → Option Value
  build_runtime_context mode artifact input input_bytes builder_package =
      context_from mode (if strict_eq mode direct_ce then artifact else input) artifact input
        input_bytes builder_package (batch_identity sha256 builder_package)
