-- ===== src/Gates/UnitStrategy.antt =====
-- scripts/validate-unit-strategy-check.mjs: when a value with a unit is safe to emit.
use ev4_builder_assistant_re.Base.{
  String, Bool, true, false, not, ◌&&◌, ◌||◌, List, [], ◌∷◌, ◌++◌, if◌then◌else◌, ◌≡◌,
}
use ev4_builder_assistant_re.Diagnostics.{Check, ◌reports◌, failures}
use ev4_builder_assistant_re.Json.{Value, bool, str, get, strict_eq}

abbrev emits : Value → Bool
emits check = strict_eq (get "required_next_action" check) (str "emit_value")

unfoldable pub safe_checks : Value → List Check
safe_checks check =
    (strict_eq (get "value_source" check) (str "unknown") reports "EV4-UNIT-002")
    ∷ (strict_eq (get "responsive_scope" check) (str "unknown") reports "EV4-UNIT-003")
    ∷ (not (strict_eq (get "reversible" check) (bool true)) reports "EV4-UNIT-004")
    ∷ (not (emits check) reports "EV4-UNIT-005")
    ∷ []

unfoldable pub unsafe_checks : Value → List Check
unsafe_checks check =
    (strict_eq (get "safe_to_emit" check) (bool false) && emits check reports "EV4-UNIT-007") ∷ []

unfoldable pub intrinsic_check : Value → Check
intrinsic_check check =
    strict_eq (get "value_source" check) (str "asset_intrinsic")
      && (strict_eq (get "safe_to_emit" check) (bool true)
          && (strict_eq (get "affects_layout" check) (bool true)
              || strict_eq (get "affects_position" check) (bool true)))
    reports "EV4-UNIT-006"

unfoldable pub unit_checks : Value → List Check
unit_checks check =
    (not (strict_eq (get "schema" check) (str "ev4-unit-strategy-check@0.1.0"))
      reports "EV4-UNIT-001")
    ∷ ((if strict_eq (get "safe_to_emit" check) (bool true)
          then safe_checks check
          else unsafe_checks check)
        ++ (intrinsic_check check ∷ []))

unfoldable pub validate_unit_strategy : Value → List String
validate_unit_strategy check = failures (unit_checks check)

-- What an accepted check that calls its value safe to emit has.
pub record Emittable (check : Value) : Type 0 where
  pub next : get "required_next_action" check ≡ str "emit_value"
  pub reversible : get "reversible" check ≡ bool true
  pub source : strict_eq (get "value_source" check) (str "unknown") ≡ false
  pub scope : strict_eq (get "responsive_scope" check) (str "unknown") ≡ false
  pub not_intrinsic :
      get "value_source" check ≡ str "asset_intrinsic"
      → (strict_eq (get "affects_layout" check) (bool true) ≡ false)
        × (strict_eq (get "affects_position" check) (bool true) ≡ false)
