-- ===== src/Gates/Lineage.antt =====
-- scripts/validate-builder-lineage-sequence.mjs: the decisions of the intake, as the actions and the fallback
-- attempts carry them. A failure is the id of its diagnostic.
pub mod Sound
use ev4_builder_assistant_re.Base.{
  String, Bool, true, false, not, ◌&&◌, ◌||◌, List, [], ◌∷◌, ◌++◌, map, keep, join, is_empty,
  Option, none, some, str_eq, if◌then◌else◌,
}
use ev4_builder_assistant_re.Canonical.{json_text}
use ev4_builder_assistant_re.Diagnostics.{Check, ◌reports◌, failures}
use ev4_builder_assistant_re.Json.{
  Value, undefined, null, obj, arr, Items, cons, nil, str, get, truthy, strict_eq, elements,
  to_text,
}

abbrev required_lineage_fields : List String
required_lineage_fields =
    "decision_family" ∷ "decision_card_ref" ∷ "selected_option" ∷ "rejected_options"
    ∷ "evidence_refs" ∷ "evidence_state" ∷ "consumer_stage" ∷ []

-- A value in `[…].join('|')`.
abbrev joined_text : Value → String
joined_text undefined = ""
joined_text null = ""
joined_text v = to_text v

-- `JSON.stringify` of a field; of a missing one it gives nothing.
abbrev stringified : Value → String
stringified undefined = ""
stringified v = json_text v

unfoldable pub lineage_key : Value → String
lineage_key lineage = join "|" (
    joined_text (get "decision_family" lineage)
    ∷ joined_text (get "decision_card_ref" lineage)
    ∷ joined_text (get "selected_option" lineage)
    ∷ stringified (get "rejected_options" lineage)
    ∷ stringified (get "evidence_refs" lineage)
    ∷ joined_text (get "evidence_state" lineage)
    ∷ [])

abbrev mutual
  pub has_value : Value → Bool
  has_value undefined = false
  has_value null = false
  has_value (arr nil) = false
  has_value (arr (cons v vs)) = has_value v && all_have_value vs
  has_value v = not (str_eq (to_text v) "")

  all_have_value : Items → Bool
  all_have_value nil = true
  all_have_value (cons v vs) = has_value v && all_have_value vs

field_checks : Value → List Check
field_checks lineage =
    map (λ field. not (has_value (get field lineage)) reports "EV4-LINEAGE-002")
      required_lineage_fields
    ++ ((not (strict_eq (get "consumer_stage" lineage) (str "builder")) reports "EV4-LINEAGE-002")
        ∷ [])

-- The lineage is valid when there is no failure.
unfoldable pub lineage_failures : Value → List String
unfolding field_checks
lineage_failures (obj fs) = failures (field_checks (obj fs))
lineage_failures v = "EV4-LINEAGE-001" ∷ []

-- `none` when the item carries no lineage.
unfoldable pub get_lineage : Value → Option Value
get_lineage item =
    if truthy (get "decision_lineage" item)
    then some (get "decision_lineage" item)
    else if truthy (get "decision_lineage_ref" item)
    then some (get "decision_lineage_ref" item)
    else none

-- The maps from references to records, in the order of insertion.
unfoldable pub lookup : Value → List (Value × Value) → Option Value
lookup ref [] = none
lookup ref ((r, v) ∷ rest) = if strict_eq r ref then some v else lookup ref rest

unfoldable pub set_entry : Value → Value → List (Value × Value) → List (Value × Value)
set_entry ref w [] = (ref, w) ∷ []
set_entry ref w ((r, v) ∷ rest) =
    if strict_eq r ref then (r, w) ∷ rest else (r, v) ∷ set_entry ref w rest

abbrev pub card_of : Value → Value
card_of lineage = get "decision_card_ref" lineage

unfoldable pub intake_lineage : List (Value × Value) → List Value → List (Value × Value)
intake_lineage known [] = known
intake_lineage known (record_ ∷ records) =
    intake_lineage
      (if is_empty (lineage_failures record_)
        then set_entry (card_of record_) record_ known
        else known)
      records

unfoldable pub intake_failures : List Value → List String
intake_failures [] = []
intake_failures (record_ ∷ records) = lineage_failures record_ ++ intake_failures records

-- A valid lineage against the record that the intake has of its decision.
unfoldable pub compare_upstream : String → String → Value → Option Value → List String
compare_upstream unknown replaced lineage none = unknown ∷ []
compare_upstream unknown replaced lineage (some upstream) =
    if str_eq (lineage_key lineage) (lineage_key upstream) then [] else replaced ∷ []

unfoldable pub carried_failures : List (Value × Value) → String → String → Value → List String
carried_failures intake unknown replaced lineage =
    if is_empty (lineage_failures lineage)
    then compare_upstream unknown replaced lineage (lookup (card_of lineage) intake)
    else lineage_failures lineage

unfoldable pub action_failures : List (Value × Value) → Option Value → List String
action_failures intake none = []
action_failures intake (some lineage) =
    carried_failures intake "EV4-LINEAGE-003" "EV4-LINEAGE-004" lineage

unfoldable pub fallback_failures : List (Value × Value) → Option Value → List String
fallback_failures intake none = "EV4-LINEAGE-006" ∷ []
fallback_failures intake (some lineage) =
    carried_failures intake "EV4-LINEAGE-006" "EV4-LINEAGE-006" lineage

unfoldable pub all_failures : (Value → List String) → List Value → List String
all_failures f [] = []
all_failures f (v ∷ vs) = f v ++ all_failures f vs

unfoldable pub is_known : Option Value → Bool
is_known none = false
is_known (some v) = true

-- An action is known to carry the decision that its valid lineage names and the intake has.
unfoldable pub carries_decision : List (Value × Value) → Value → Option Value → Bool
carries_decision intake ref none = false
carries_decision intake ref (some lineage) =
    is_empty (lineage_failures lineage)
    && (is_known (lookup (card_of lineage) intake) && strict_eq (card_of lineage) ref)

unfoldable pub carried_by : List (Value × Value) → Value → List Value → Bool
carried_by intake ref [] = false
carried_by intake ref (action ∷ actions) =
    if carries_decision intake ref (get_lineage action) then true else carried_by intake ref actions

unfoldable pub dropped_failures :
    List (Value × Value) → List Value → List (Value × Value) → List String
dropped_failures intake actions [] = []
dropped_failures intake actions ((ref, v) ∷ rest) =
    if carried_by intake ref actions
    then dropped_failures intake actions rest
    else "EV4-LINEAGE-005" ∷ dropped_failures intake actions rest

abbrev pub intake_records : Value → List Value
intake_records sequence = elements (get "decision_lineage" (get "builder_intake" sequence))

abbrev pub output_actions : Value → List Value
output_actions sequence = elements (get "actions" (get "builder_action_output" sequence))

abbrev pub fallback_attempts : Value → List Value
fallback_attempts sequence =
    elements (get "builder_fallback_attempts" sequence)
    ++ elements (get "smallest_verified_repair_path" (get "builder_repair_packet" sequence))

abbrev pub intake_of : Value → List (Value × Value)
intake_of sequence = intake_lineage [] (intake_records sequence)

unfoldable pub validate_sequence : Value → List String
validate_sequence sequence =
    let intake = intake_of sequence in
    let actions = output_actions sequence in
    intake_failures (intake_records sequence)
    ++ (failures ((is_empty intake reports "EV4-LINEAGE-001") ∷ [])
        ++ (all_failures (λ action. action_failures intake (get_lineage action)) actions
            ++ (dropped_failures intake actions intake
                ++ all_failures (λ attempt. fallback_failures intake (get_lineage attempt))
                    (fallback_attempts sequence))))
