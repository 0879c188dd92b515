-- ===== src/Gates/Compaction.antt =====
-- scripts/validate-batch-compaction-check.mjs: when actions may be issued as one compact batch.
use ev4_builder_assistant_re.Base.{
  ℕ, ◌≤◌, String, Bool, true, false, not, ◌&&◌, List, [], ◌∷◌, ◌++◌, length, leb, if◌then◌else◌,
  ◌≡◌, All,
}
use ev4_builder_assistant_re.Diagnostics.{Check, ◌reports◌, failures}
use ev4_builder_assistant_re.Json.{Value, bool, num, str, get, strict_eq, is_array, elements}

abbrev pub compaction_fields : List String
compaction_fields =
    "same_element" ∷ "same_control_family" ∷ "controls_visible_or_confirmed"
    ∷ "unit_strategy_resolved" ∷ "value_sources_resolved" ∷ "actions_reversible"
    ∷ "geometry_strategy_resolved" ∷ "architecture_boundary_preserved" ∷ []

-- An integer from 1 to 5.
unfoldable pub count_in_range : Value → Bool
count_in_range (num n) = leb 1 n && leb n 5
count_in_range v = false

unfoldable pub field_checks : Value → List String → List Check
field_checks check [] = []
field_checks check (name ∷ names) =
    (not (strict_eq (get name check) (bool true)) reports "EV4-BATCH-COMPACT-003")
    ∷ field_checks check names

unfoldable pub base_checks : Value → List Check
base_checks check =
    (not (strict_eq (get "schema" check) (str "ev4-batch-compaction-check@0.1.0"))
      reports "EV4-BATCH-COMPACT-001")
    ∷ (not (count_in_range (get "action_count" check)) reports "EV4-BATCH-COMPACT-002")
    ∷ (is_array (get "actions" check)
          && not
              (strict_eq (num (length (elements (get "actions" check)))) (get "action_count" check))
        reports "EV4-BATCH-COMPACT-005")
    ∷ []

unfoldable pub compact_checks : Value → List Check
compact_checks check =
    field_checks check compaction_fields
    ++ ((not (strict_eq (get "responsive_claim_introduced" check) (bool false))
          reports "EV4-BATCH-COMPACT-004")
        ∷ [])

unfoldable pub validate_batch_compaction : Value → List String
validate_batch_compaction check =
    failures (base_checks check)
    ++ (if strict_eq (get "compact_batch_allowed" check) (bool true)
        then failures (compact_checks check)
        else [])

-- What an accepted compact batch has: one to five actions, all preconditions, no responsive claim.
pub record Compact (check : Value) : Type 0 where
  pub count : (n : ℕ) × (get "action_count" check ≡ num n) × (1 ≤ n) × (n ≤ 5)
  pub fields : All (λ name. get name check ≡ bool true) compaction_fields
  pub responsive : get "responsive_claim_introduced" check ≡ bool false
