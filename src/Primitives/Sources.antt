-- ===== src/Primitives/Sources.antt =====
-- `SOURCE_MODES` of scripts/lib/builder-explicit-source-runtime.mjs, and
-- `validateCanonicalSourceModeArguments` of scripts/lib/runtime/run-primitives.mjs: which source files
-- each mode of intake takes.
use ev4_builder_assistant_re.Base.{String, true, false, not, List, [], ◌∷◌, ◌≡◌, if◌then◌else◌}
use ev4_builder_assistant_re.Diagnostics.{◌reports◌, failures}
use ev4_builder_assistant_re.Json.{Value, str, truthy, strict_eq}

abbrev pub project_gate : Value
project_gate = str "project-gate"

abbrev pub direct_ce : Value
direct_ce = str "direct-ce"

abbrev pub manual_builder_input : Value
manual_builder_input = str "manual-builder-input"

-- The result is the list of diagnostics; the arguments pass when it is empty.
unfoldable pub validate_source_mode_arguments : Value → Value → Value → List String
validate_source_mode_arguments mode artifact input =
    if strict_eq mode project_gate
    then failures (
        (not (truthy artifact) reports "RUN-SOURCE-001")
        ∷ (not (truthy input) reports "RUN-SOURCE-002")
        ∷ [])
    else if strict_eq mode direct_ce
    then failures (
        (not (truthy artifact) reports "RUN-SOURCE-003")
        ∷ (truthy input reports "RUN-SOURCE-004")
        ∷ [])
    else if strict_eq mode manual_builder_input
    then failures (
        (truthy artifact reports "RUN-SOURCE-005")
        ∷ (not (truthy input) reports "RUN-SOURCE-006")
        ∷ [])
    else "RUN-SOURCE-007" ∷ []

-- Which files a mode takes: a receipt with the input, the package alone, or the input alone.
pub data Takes (artifact input : Value) : Value → Type 0 where
  receipt_and_input :
      truthy artifact ≡ true → truthy input ≡ true → Takes artifact input project_gate
  artifact_only : truthy artifact ≡ true → truthy input ≡ false → Takes artifact input direct_ce
  input_only :
      truthy artifact ≡ false → truthy input ≡ true → Takes artifact input manual_builder_input
