-- ===== src/Tests/Sources.antt =====
-- A CE source that is resolved to a context.
use ev4_builder_assistant_re.Source.Batch.{single}
use ev4_builder_assistant_re.Source.Batch.{prefixes_of}
use ev4_builder_assistant_re.Source.Batch.{one_of}
use ev4_builder_assistant_re.Primitives.Blockers.{nonempty_texts}
use ev4_builder_assistant_re.Primitives.Blockers.{distinct_texts}
use ev4_builder_assistant_re.Source.Batch.{one_batch}
use ev4_builder_assistant_re.Source.Batch.{identity_of}
use ev4_builder_assistant_re.Json.{elements}
use ev4_builder_assistant_re.Json.{is_array}
use ev4_builder_assistant_re.Source.Batch.{batch_identity}
use ev4_builder_assistant_re.Source.Context.{context_from}
use ev4_builder_assistant_re.Source.Context.{build_runtime_context}
use ev4_builder_assistant_re.Source.Resolve.{resolution_of}
use ev4_builder_assistant_re.Source.Resolve.{resolve_bytes}
use ev4_builder_assistant_re.Source.Resolve.{has_bytes}
use ev4_builder_assistant_re.Source.Resolve.{package_checks}
use ev4_builder_assistant_re.Source.Context.{compute_package_digest}
use ev4_builder_assistant_re.Source.Verify.{digest_check}
use ev4_builder_assistant_re.Json.{has_length}
use ev4_builder_assistant_re.Source.Verify.{authorization_checks}
use ev4_builder_assistant_re.Json.{is_string}
use ev4_builder_assistant_re.Validation.Manifest.{is_name}
use ev4_builder_assistant_re.Source.Verify.{candidate_checks}
use ev4_builder_assistant_re.Source.Verify.{input_diagnostics}
use ev4_builder_assistant_re.Source.Verify.{verify_parsed}
use ev4_builder_assistant_re.Source.Verify.{verify_builder_input}
use ev4_builder_assistant_re.Source.Resolve.{derived_verified}
use ev4_builder_assistant_re.Source.Resolve.{derived_input}
use ev4_builder_assistant_re.Canonical.{canonical_digest}
use ev4_builder_assistant_re.Json.{truthy}
use ev4_builder_assistant_re.Primitives.Names.{is_hash}
use ev4_builder_assistant_re.Validation.Manifest.{hash_ok}
use ev4_builder_assistant_re.Source.Resolve.{is_object}
use ev4_builder_assistant_re.Source.Resolve.{read_ce_source}
use ev4_builder_assistant_re.Source.Resolve.{read_direct_ce}
use ev4_builder_assistant_re.Source.Resolve.{read_mode}
use ev4_builder_assistant_re.Diagnostics.{failures}
use ev4_builder_assistant_re.Source.Resolve.{forbidden_files}
use ev4_builder_assistant_re.Source.Resolve.{source_diagnostics}
use ev4_builder_assistant_re.Source.Resolve.{resolve_reading}
use ev4_builder_assistant_re.Json.{strict_eq}
use ev4_builder_assistant_re.Validation.Manifest.{is_source_mode}
use ev4_builder_assistant_re.Canonical.{json_text}
use ev4_builder_assistant_re.Canonical.{quote}
use ev4_builder_assistant_re.Store.Directory.{indented_text}
use ev4_builder_assistant_re.Source.Shape.{
  verify_derived_context, resolve_explicit_builder_source-verify_derived_context,
}
use ev4_builder_assistant_re.Source.Synthetic.{starts_with}
use ev4_builder_assistant_re.Source.Synthetic.{is_fixture_text}
use ev4_builder_assistant_re.Source.Synthetic.{own_findings}
use ev4_builder_assistant_re.Base.{take_text}
use ev4_builder_assistant_re.Source.Batch.{before_mark}
use ev4_builder_assistant_re.Source.Batch.{backwards}
use ev4_builder_assistant_re.Source.Batch.{drop_digits}
use mathlib.Core.Option.{some-injective}
use ev4_builder_assistant_re.Base.{
  String, true, codes, List, [], ◌∷◌, Option, none, some, ◌≡◌, refl, str_eq, if◌then◌else◌,
}
use ev4_builder_assistant_re.Json.{Value, bool, str, array, object, get}
use ev4_builder_assistant_re.Primitives.Sources.{direct_ce}
use ev4_builder_assistant_re.Store.Directory.{stable_json}
use ev4_builder_assistant_re.Store.Intake.{Initialized, initialize_stage}
use ev4_builder_assistant_re.Lifecycle.Admitted.{run_of}
use ev4_builder_assistant_re.Lifecycle.Phases.{At, drafted}
use ev4_builder_assistant_re.Lifecycle.Valid.{IsValid}
use ev4_builder_assistant_re.Source.Batch.{batch_prefix}
use ev4_builder_assistant_re.Source.Context.{File}
use ev4_builder_assistant_re.Source.Resolve.{Resolution, resolved, resolve_explicit_builder_source}
use ev4_builder_assistant_re.Source.Admits.{stage_of, resolve_explicit_builder_source-IsValid}
use ev4_builder_assistant_re.Source.Synthetic.{scan_synthetic}
use ev4_builder_assistant_re.Tests.Samples.{sample_sha, sample_hashes, sample_digest}

-- The one word of the expected token.
persian : codes "\u{62a}\u{627}\u{6cc}\u{6cc}\u{62f} " ≡ 1578 ∷ 1575 ∷ 1740 ∷ 1740 ∷ 1583 ∷ 32 ∷ []
persian = refl

prefix_found : batch_prefix "B-1-A12" ≡ some "B-1"
unfolding batch_prefix drop_digits backwards before_mark take_text
prefix_found = refl

prefix_missing : batch_prefix "B-1-A" ≡ none
unfolding batch_prefix drop_digits backwards
prefix_missing = refl

findings :
    scan_synthetic "$"
      (object (("kind", array (str "TEST-fixture:a" ∷ [])) ∷ ("name", str "test-Fixture") ∷ []))
    ≡ "$.name" ∷ []
unfolding scan_synthetic own_findings is_fixture_text starts_with
findings = refl

abbrev sample_package : Value
sample_package = object (
    ("schema", str "ev4-builder-context-package@1.0.0")
    ∷ ("selected_candidate_id", str "C-1")
    ∷ ("selected_candidate_locked", bool true)
    ∷ (
      "input_authorization",
      object (
          ("decision", str "approved")
          ∷ ("eligible_workflow_mode", str "APPROVED_HANDOFF_MODE")
          ∷ ("eligible_runtime_state", str "BUILD_ACTIVE")
          ∷ ("package_digest", object (("value", str sample_digest) ∷ []))
          ∷ []),
    )
    ∷ (
      "first_builder_batch",
      object (("actions", array (object (("action_id", str "B1-A1") ∷ []) ∷ [])) ∷ []),
    )
    ∷ [])

abbrev ce_source : Value
ce_source =
    object
      (("ce_builder_executable_package", object []) ∷ ("content_sha256", str sample_digest) ∷ [])

abbrev ce_file : File
ce_file = record { path = "ce.json"; content = "ce" }

abbrev parse : String → Option Value
parse text =
    if str_eq text (stable_json sample_package) then some sample_package else some ce_source

abbrev no_input_problems : String → List String
no_input_problems text = []

abbrev derive : Value → Option Value
derive source = some sample_package

package_written : parse (stable_json sample_package) ≡ some sample_package
unfolding stable_json indented_text quote json_text
package_written = refl

written : (source p : Value) → derive source ≡ some p → parse (stable_json p) ≡ some p
written source p h = rw (← some-injective _ _ h) package_written

abbrev resolution : Resolution
resolution =
    resolve_explicit_builder_source sample_sha parse no_input_problems derive direct_ce
      (some ce_file) none

abbrev context_of : Resolution → Value
context_of (resolved p bytes context) = context
context_of r = object []

resolution-resolved :
    resolution ≡ resolved sample_package (stable_json sample_package) (context_of resolution)
unfolding resolve_explicit_builder_source is_source_mode strict_eq resolve_reading
    source_diagnostics forbidden_files failures read_mode read_direct_ce read_ce_source stable_json
    indented_text quote json_text is_object get hash_ok is_hash truthy canonical_digest
    derived_input derived_verified verify_builder_input verify_parsed input_diagnostics
    candidate_checks is_name is_string authorization_checks has_length digest_check
    compute_package_digest package_checks has_bytes scan_synthetic own_findings is_fixture_text
    starts_with resolve_bytes resolution_of build_runtime_context context_from batch_identity
    is_array elements identity_of one_batch distinct_texts nonempty_texts one_of prefixes_of
    batch_prefix drop_digits backwards before_mark single
resolution-resolved = refl

resolve_explicit_builder_source-IsValid_example :
    (r : Initialized) × (initialize_stage sample_sha (
        stage_of sample_sha direct_ce "ce" "" "runs/one" "runs/one/source/selected-source.json" ""
          sample_package
          (context_of resolution))
      ≡ some r)
    × IsValid sample_sha (run_of r)
    × At drafted (run_of r)
resolve_explicit_builder_source-IsValid_example =
    resolve_explicit_builder_source-IsValid sample_sha sample_hashes parse no_input_problems derive
      written direct_ce (some ce_file) none "ce" "" "runs/one"
      "runs/one/source/selected-source.json" "" sample_package (stable_json sample_package)
      (context_of resolution) resolution-resolved

resolve_explicit_builder_source-verify_derived_context_example :
    verify_derived_context sample_sha resolution (some (context_of resolution)) ≡ some []
resolve_explicit_builder_source-verify_derived_context_example =
    resolve_explicit_builder_source-verify_derived_context sample_sha sample_hashes parse
      no_input_problems derive written direct_ce (some ce_file) none sample_package
      (stable_json sample_package) (context_of resolution) resolution-resolved
