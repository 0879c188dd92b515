-- ===== src/Primitives/SourceModes.antt =====
-- Which files each mode of intake takes: `validateCanonicalSourceModeArguments` against a table of the modes.
use mathlib.Core.Path.{subst}
use ev4_builder_assistant_re.Base.{[], ◌≡◌, refl, sym, ◌↔◌, arith, inl, inr, Bool-cases}
use ev4_builder_assistant_re.Diagnostics.{failures, failures-eq-nil, passed}
use ev4_builder_assistant_re.Json.{Value, strict_eq}
use ev4_builder_assistant_re.Json.Laws.{strict_eq-eq}
use ev4_builder_assistant_re.Primitives.Sources.{
  project_gate, direct_ce, manual_builder_input, validate_source_mode_arguments, Takes,
  receipt_and_input, artifact_only, input_only,
}

Takes-valid :
    (artifact input mode : Value)
    → Takes artifact input mode
    → validate_source_mode_arguments mode artifact input ≡ []
unfolding validate_source_mode_arguments failures strict_eq
Takes-valid artifact input _ (receipt_and_input a i) = rw (a, i) refl
Takes-valid artifact input _ (artifact_only a i) = rw (a, i) refl
Takes-valid artifact input _ (input_only a i) = rw (a, i) refl

valid-Takes :
    (artifact input mode : Value)
    → validate_source_mode_arguments mode artifact input ≡ []
    → Takes artifact input mode
unfolding validate_source_mode_arguments
valid-Takes artifact input mode h = elim (Bool-cases (strict_eq mode project_gate)) [
  | inl gate ↦
      let (a, (i, _)) = (failures-eq-nil _).0 (rw gate at h) in
      subst (Takes artifact input) (sym (strict_eq-eq _ _ gate))
        (receipt_and_input (passed _ a) (passed _ i))
  | inr other ↦ elim (Bool-cases (strict_eq mode direct_ce)) [
    | inl direct ↦
        let (a, (i, _)) = (failures-eq-nil _).0 (rw (other, direct) at h) in
        subst (Takes artifact input) (sym (strict_eq-eq _ _ direct)) (artifact_only (passed _ a) i)
    | inr another ↦ elim (Bool-cases (strict_eq mode manual_builder_input)) [
      | inl manual ↦
          let (a, (i, _)) = (failures-eq-nil _).0 (rw (other, another, manual) at h) in
          subst (Takes artifact input) (sym (strict_eq-eq _ _ manual)) (input_only a (passed _ i))
      | inr unknown ↦ absurd (ground (arith, other, another, unknown))
    ]
  ]
]

-- The arguments of an intake pass exactly when they are the files that the mode takes: the receipt and
-- the input, the package alone, or the input alone. No other mode passes.
pub validate_source_mode_arguments-Takes :
    (artifact input mode : Value)
    → (validate_source_mode_arguments mode artifact input ≡ []) ↔ Takes artifact input mode
validate_source_mode_arguments-Takes artifact input mode =
    (valid-Takes artifact input mode, Takes-valid artifact input mode)
