-- ===== src/Source/Named.antt =====
-- A reading of a source without a diagnostic names its candidate by a text.
use ev4_builder_assistant_re.Base.{
  String, Bool, true, false, List, [], Option, none, some, ◌≡◌, refl, sym, ◌∙◌, append-eq-nil,
  if◌then◌else◌,
}
use mathlib.Core.Option.{some-injective}
use ev4_builder_assistant_re.Json.{Value, get, strict_eq}
use ev4_builder_assistant_re.Json.Laws.{IsText}
use ev4_builder_assistant_re.Primitives.Sources.{project_gate, direct_ce}
use ev4_builder_assistant_re.Store.Directory.{stable_json}
use ev4_builder_assistant_re.Source.Context.{File}
use ev4_builder_assistant_re.Source.Verify.{
  Verification, verify_builder_input, verify_builder_input-candidate,
}
use ev4_builder_assistant_re.Source.Resolve.{
  Reading, is_object, derived_verified, read_input, gate_input, with_first, read_project_gate,
  derived_input, read_ce_source, read_direct_ce, read_manual, read_mode, nothing_read,
}

module _ (sha256 : String → String) (parse : String → Option Value)
    (input_problems : String → List String) (derive : Value → Option Value) where
  -- A reading without a diagnostic that has bytes names its candidate by a text.
  abbrev pub Named : Reading → Type 0
  Named r =
      r.diagnostics ≡ []
      → (bytes : String) → r.input_bytes ≡ some bytes
      → IsText (get "selected_candidate_id" r.builder_package)

  nothing-Named : (ds : List String) → Named (nothing_read ds)
  nothing-Named ds clear bytes is = absurd (cc is)

  with_first-Named : (first : List String) (r : Reading) → Named r → Named (with_first first r)
  with_first-Named first r named clear bytes is = named (append-eq-nil first _ clear).1 bytes is

  branch-Named : (b : Bool) (x y : Reading) → Named x → Named y → Named (if b then x else y)
  branch-Named true x y h k = h
  branch-Named false x y h k = k

  read_input-Named :
      (content failure : String) (o : Option Verification) (more : List String)
      → verify_builder_input sha256 parse input_problems content ≡ o
      → Named (read_input sha256 parse input_problems derive content failure o more)
  unfolding read_input
  read_input-Named content failure none more read clear bytes is = absurd (cc is)
  read_input-Named content failure (some v) more read clear bytes is =
      (verify_builder_input-candidate sha256 parse input_problems content v read
        (append-eq-nil v.diagnostics _ clear).0).1

  gate_input-Named :
      (receipt : Value) (o : Option File)
      → Named (gate_input sha256 parse input_problems derive receipt o)
  unfolding gate_input
  gate_input-Named receipt none = nothing-Named []
  gate_input-Named receipt (some file) = read_input-Named file.content _ _ _ refl

  derived_verified-Named :
      (p : Value) (content : String) (o : Option Verification)
      → parse content ≡ some p
      → verify_builder_input sha256 parse input_problems content ≡ o
      → Named (derived_verified sha256 parse input_problems derive p content o)
  unfolding derived_verified
  derived_verified-Named p content none written read clear bytes is = absurd (cc is)
  derived_verified-Named p content (some v) written read clear bytes is =
      let (parsed, candidate) =
        verify_builder_input-candidate sha256 parse input_problems content v read clear in
      let same = some-injective _ _ (sym parsed ∙ written) in rw (← same) candidate

  -- The text of a derived package parses to the package.
  abbrev pub Written : Type 0
  Written = (source p : Value) → derive source ≡ some p → parse (stable_json p) ≡ some p

  module _ (written : Written) where
    derived_input-Named :
        (source : Value) (o : Option Value)
        → derive source ≡ o
        → Named (derived_input sha256 parse input_problems derive o)
    unfolding derived_input
    derived_input-Named source none h = nothing-Named _
    derived_input-Named source (some p) h = derived_verified-Named p _ _ (written source p h) refl

    read_ce_source-Named :
        (o : Option Value) → Named (read_ce_source sha256 parse input_problems derive o)
    unfolding read_ce_source
    read_ce_source-Named none = nothing-Named _
    read_ce_source-Named (some source) =
        branch-Named (is_object (get "ce_builder_executable_package" source)) _ _
          (with_first-Named _ _ (derived_input-Named source (derive source) refl)) (nothing-Named _)

    read_direct_ce-Named :
        (o : Option File) → Named (read_direct_ce sha256 parse input_problems derive o)
    unfolding read_direct_ce
    read_direct_ce-Named none = nothing-Named _
    read_direct_ce-Named (some file) = read_ce_source-Named (parse file.content)

    read_manual-Named : (o : Option File) → Named (read_manual sha256 parse input_problems derive o)
    unfolding read_manual
    read_manual-Named none = nothing-Named _
    read_manual-Named (some file) = read_input-Named file.content _ _ _ refl

    read_project_gate-Named :
        (artifact input : Option File)
        → Named (read_project_gate sha256 parse input_problems derive artifact input)
    unfolding read_project_gate
    read_project_gate-Named artifact input = with_first-Named _ _ (gate_input-Named _ input)

    pub read_mode-Named :
        (mode : Value) (artifact input : Option File)
        → Named (read_mode sha256 parse input_problems derive mode artifact input)
    unfolding read_mode
    read_mode-Named mode artifact input =
        branch-Named (strict_eq mode project_gate) _ _ (read_project_gate-Named artifact input) (
          branch-Named (strict_eq mode direct_ce) _ _ (read_direct_ce-Named artifact)
            (read_manual-Named input))
