-- ===== src/Source/Resolve.antt =====
-- `resolveExplicitBuilderSource` of scripts/lib/builder-explicit-source-runtime.mjs. The contract gate with the
-- normaliser of a CE package is a parameter, `derive`, which gives `none` where it throws.
use ev4_builder_assistant_re.Base.{
  String, Bool, true, false, not, ◌&&◌, ◌||◌, List, [], ◌∷◌, ◌++◌, Option, none, some, is_empty,
  if◌then◌else◌,
}
use ev4_builder_assistant_re.Canonical.{canonical_digest}
use ev4_builder_assistant_re.Diagnostics.{Check, ◌reports◌, failures}
use ev4_builder_assistant_re.Json.{Value, null, str, obj, get, truthy, strict_eq}
use ev4_builder_assistant_re.Primitives.Sources.{project_gate, direct_ce, manual_builder_input}
use ev4_builder_assistant_re.Validation.Manifest.{hash_ok, is_source_mode}
use ev4_builder_assistant_re.Store.Directory.{stable_json}
use ev4_builder_assistant_re.Source.Synthetic.{scan_synthetic}
use ev4_builder_assistant_re.Source.Context.{File, build_runtime_context}
use ev4_builder_assistant_re.Source.Verify.{Verification, verify_builder_input}

-- What a mode reads: the diagnostics so far, the package and the bytes of the Builder Input.
pub record Reading : Type 0 where
  pub diagnostics : List String
  pub builder_package : Value
  pub input_bytes : Option String

pub data Resolution : Type 0 where
  rejected : List String → Resolution
  resolution_threw : Resolution
  resolved : Value → String → Value → Resolution

abbrev pub nothing_read : List String → Reading
nothing_read diagnostics = record {
  diagnostics = diagnostics;
  builder_package = null;
  input_bytes = none;
}

abbrev pub is_given : Option File → Bool
is_given none = false
is_given (some file) = true

-- The diagnostics of a reading that come before it.
abbrev pub with_first : List String → Reading → Reading
with_first first r = record {
  diagnostics = first ++ r.diagnostics;
  builder_package = r.builder_package;
  input_bytes = r.input_bytes;
}

unfoldable pub is_object : Value → Bool
is_object (obj fs) = true
is_object v = false

-- The files that a mode forbids.
unfoldable pub forbidden_files : Value → Option File → Option File → List String
forbidden_files mode artifact input = failures (
    (strict_eq mode direct_ce && is_given input reports "BUILDER-SOURCE-117")
    ∷ (strict_eq mode manual_builder_input && is_given artifact reports "BUILDER-SOURCE-118")
    ∷ [])

module _ (sha256 : String → String) (parse : String → Option Value)
    (input_problems : String → List String) (derive : Value → Option Value) where
  -- A Builder Input file that is read and verified; `failure` is the diagnostic of an exception.
  unfoldable pub read_input : String → String → Option Verification → List String → Reading
  read_input content failure none more = nothing_read (failure ∷ [])
  read_input content failure (some v) more = record {
    diagnostics = v.diagnostics ++ more;
    builder_package = v.builder_package;
    input_bytes = some content;
  }

  unfoldable pub verified_digest : Option Verification → Value
  verified_digest none = null
  verified_digest (some v) = v.digest

  unfoldable pub receipt_bindings : Value → String → List String
  receipt_bindings receipt content = failures (
      (not (strict_eq (get "source_file_sha256" receipt) (str (sha256 content)))
        reports "BUILDER-SOURCE-105")
      ∷ (not (
            strict_eq (get "canonical_package_digest" receipt)
              (verified_digest (verify_builder_input sha256 parse input_problems content)))
          reports "BUILDER-SOURCE-106")
      ∷ [])

  unfoldable pub parsed_artifact : Option File → Option Value
  parsed_artifact none = some null
  parsed_artifact (some file) = parse file.content

  -- The receipt, `null` where it is not there or malformed, and its diagnostics.
  unfoldable pub receipt_read : Option Value → List String × Value
  receipt_read none = ("BUILDER-SOURCE-103" ∷ [], null)
  receipt_read (some receipt) = (
    failures (
        (truthy receipt
            && not (strict_eq (get "schema" receipt) (str "ev4-project-gate-c2b-receipt@1.0.0"))
          reports "BUILDER-SOURCE-104")
        ∷ []),
    receipt,
  )

  unfoldable pub gate_input : Value → Option File → Reading
  gate_input receipt none = nothing_read []
  gate_input receipt (some file) =
      read_input file.content "BUILDER-SOURCE-107"
        (verify_builder_input sha256 parse input_problems file.content)
        (receipt_bindings receipt file.content)

  unfoldable pub read_project_gate : Option File → Option File → Reading
  read_project_gate artifact input =
      let (problems, receipt) = receipt_read (parsed_artifact artifact) in
      let missing =
        failures ((not (is_given artifact && is_given input) reports "BUILDER-SOURCE-102") ∷ []) in
      with_first (missing ++ problems) (gate_input receipt input)

  unfoldable pub derived_verified : Value → String → Option Verification → Reading
  derived_verified builder_package content none = record {
    diagnostics = "BUILDER-SOURCE-111" ∷ [];
    builder_package = builder_package;
    input_bytes = none;
  }
  derived_verified builder_package content (some v) = record {
    diagnostics = v.diagnostics;
    builder_package = builder_package;
    input_bytes = some content;
  }

  unfoldable pub derived_input : Option Value → Reading
  derived_input none = nothing_read ("BUILDER-SOURCE-111" ∷ [])
  derived_input (some builder_package) =
      let content = stable_json builder_package in
      derived_verified builder_package content
        (verify_builder_input sha256 parse input_problems content)

  unfoldable pub read_ce_source : Option Value → Reading
  read_ce_source none = nothing_read ("BUILDER-SOURCE-112" ∷ [])
  read_ce_source (some source) =
      let ce_package = get "ce_builder_executable_package" source in
      if is_object ce_package
      then with_first
          (failures (
            (not (hash_ok (get "content_sha256" source))
                || not (
                    strict_eq (get "content_sha256" source)
                      (str (canonical_digest sha256 ce_package)))
              reports "BUILDER-SOURCE-110")
            ∷ []))
          (derived_input (derive source))
      else nothing_read ("BUILDER-SOURCE-109" ∷ [])

  unfoldable pub read_direct_ce : Option File → Reading
  read_direct_ce none = nothing_read ("BUILDER-SOURCE-108" ∷ [])
  read_direct_ce (some file) = read_ce_source (parse file.content)

  unfoldable pub read_manual : Option File → Reading
  read_manual none = nothing_read ("BUILDER-SOURCE-113" ∷ [])
  read_manual (some file) =
      read_input file.content "BUILDER-SOURCE-114"
        (verify_builder_input sha256 parse input_problems file.content) []

  unfoldable pub read_mode : Value → Option File → Option File → Reading
  read_mode mode artifact input =
      if strict_eq mode project_gate
      then read_project_gate artifact input
      else if strict_eq mode direct_ce
      then read_direct_ce artifact
      else read_manual input

  unfoldable pub has_bytes : Option String → Bool
  has_bytes none = false
  has_bytes (some bytes) = true

  unfoldable pub package_checks : Reading → List Check
  package_checks r =
      (not (truthy r.builder_package && has_bytes r.input_bytes) reports "BUILDER-SOURCE-115")
      ∷ (not (is_empty (scan_synthetic "$" r.builder_package)) reports "BUILDER-SOURCE-116")
      ∷ []

  unfoldable pub resolution_of : Value → Option Value → String → Resolution
  resolution_of builder_package none bytes = resolution_threw
  resolution_of builder_package (some context) bytes = resolved builder_package bytes context

  -- The context of a source without a diagnostic.
  unfoldable pub resolve_bytes :
      Value → Option File → Option File → Value → Option String → Resolution
  resolve_bytes mode artifact input builder_package none = resolution_threw
  resolve_bytes mode artifact input builder_package (some bytes) =
      resolution_of builder_package
        (build_runtime_context sha256 mode artifact input bytes builder_package) bytes

  unfoldable pub source_diagnostics : Value → Option File → Option File → Reading → List String
  source_diagnostics mode artifact input r =
      forbidden_files mode artifact input ++ (r.diagnostics ++ failures (package_checks r))

  unfoldable pub resolve_reading : Value → Option File → Option File → Reading → Resolution
  resolve_reading mode artifact input r =
      if is_empty (source_diagnostics mode artifact input r)
      then resolve_bytes mode artifact input r.builder_package r.input_bytes
      else rejected (source_diagnostics mode artifact input r)

  unfoldable pub resolve_explicit_builder_source : Value → Option File → Option File → Resolution
  resolve_explicit_builder_source mode artifact input =
      if is_source_mode mode
      then resolve_reading mode artifact input (read_mode mode artifact input)
      else rejected ("BUILDER-SOURCE-101" ∷ [])
