-- ===== src/Planner/Evidence.antt =====
-- `claimSetCompatible`, `expectedEvidenceSubject`, `validateEvidenceSource` and `planEvidenceTransition` of
-- scripts/lib/runtime/transition-planner-evidence.mjs, with `CLAIM_COMPATIBILITY` of
-- scripts/lib/builder-explicit-source-runtime.mjs.
pub mod Attach
pub mod Outcome
pub mod Contract
use ev4_builder_assistant_re.Base.{
  ℕ, ◌+◌, String, Bool, true, false, not, ◌&&◌, ◌||◌, List, [], ◌∷◌, ◌++◌, map, Option, none, some,
  is_empty, exists, template, join, take_text, str_eq, if◌then◌else◌,
}
use ev4_builder_assistant_re.Canonical.{canonical_digest}
use ev4_builder_assistant_re.Diagnostics.{Check, ◌reports◌, failures}
use ev4_builder_assistant_re.Json.{
  Value, undefined, null, bool, str, object, array, get, truthy, strict_eq, is_array, is_string,
  elements, includes, has_length, plus_one, to_text,
}
use ev4_builder_assistant_re.Primitives.Blockers.{js_or}
use ev4_builder_assistant_re.Primitives.Checkpoint.{
  CheckpointInput, build_checkpoint, update_session, build_active,
}
use ev4_builder_assistant_re.Primitives.Names.{generation_ref, timestamp_for_sequence}
use ev4_builder_assistant_re.Primitives.Sets.{sort_values}
use ev4_builder_assistant_re.Publication.{attach_evidence, Refs, validate_publication}
use ev4_builder_assistant_re.Planner.Types.{
  Predecessor, AuxiliaryFile, json, bytes, Successor, Plan, failed, thrown, planned,
  predecessor_entry, resulting_entry, publication_entry, action_ids, action_digests, batch_id,
}

-- `CLAIM_COMPATIBILITY[claimClass]`, by the property name that the claim class coerces to.
unfoldable pub claim_compatibility : String → Option String
claim_compatibility claim =
    if str_eq claim "required_action_execution"
    then some "diagnostic"
    else if str_eq claim "scaffold_built"
    then some "diagnostic"
    else if str_eq claim "structure_built"
    then some "structure_panel_screenshot"
    else if str_eq claim "content_filled"
    then some "editor_screenshot"
    else if str_eq claim "desktop_layout_established"
    then some "frontend_screenshot"
    else if str_eq claim "layout_verified"
    then some "frontend_screenshot"
    else if str_eq claim "export_checked"
    then some "export_json"
    else if str_eq claim "export_verified"
    then some "export_json"
    else none

abbrev pub builder_output : Value
builder_output = str "builder-output"

abbrev pub action_execution : Value
action_execution = str "required_action_execution"

-- How `join` writes an element.
join_text : Value → String
join_text undefined = ""
join_text null = ""
join_text v = to_text v

unfoldable pub join_values : String → List Value → String
unfolding join_text
join_values sep vs = join sep (map join_text vs)

-- `ALLOWED_MULTI_CLAIM_SETS.has([...claimClasses].sort().join('|'))`, or at most one class.
unfoldable pub claim_set_compatible : List Value → Bool
claim_set_compatible [] = true
claim_set_compatible (v ∷ []) = true
claim_set_compatible (v ∷ w ∷ vs) =
    let key = join_values "|" (sort_values (v ∷ w ∷ vs)) in
    str_eq key "desktop_layout_established|layout_verified"
    || str_eq key "export_checked|export_verified"

abbrev pub claim_classes : Value → List Value
claim_classes source = elements (get "claim_classes" source)

abbrev pub claim_ids : Value → List Value
claim_ids source = elements (get "claim_ids" source)

abbrev pub run_actions : Predecessor → List Value
run_actions p = elements (action_ids p.context)

-- `none` stands for `null`.
unfoldable pub expected_evidence_subject : Value → Value → Predecessor → Option Value
expected_evidence_subject claim source p =
    if strict_eq claim action_execution
    then (if includes (run_actions p) (get "action_id" source)
        then some (get "action_id" source)
        else none)
    else elim (claim_compatibility (to_text claim)) [ none ↦ none | some _ ↦ some builder_output ]

add_distinct : Option Value → List Value → List Value
add_distinct none vs = vs
add_distinct (some v) vs = if includes vs v then vs else v ∷ vs

-- The set of subjects that the claims expect.
unfoldable pub expected_subjects : List Value → Value → Predecessor → List Value
unfolding add_distinct
expected_subjects [] source p = []
expected_subjects (c ∷ cs) source p =
    add_distinct (expected_evidence_subject c source p) (expected_subjects cs source p)

subject_policy_checks : Value → List Value → List Check
subject_policy_checks source [] = []
subject_policy_checks source (e ∷ []) =
    (not (strict_eq (get "subject_ref" source) e) reports "RUN-EVIDENCE-017") ∷ []
subject_policy_checks source (e ∷ f ∷ es) = (true reports "RUN-EVIDENCE-016") ∷ []

-- `new Set(values).size === values.length`.
unfoldable pub all_distinct : List Value → Bool
all_distinct [] = true
all_distinct (v ∷ vs) = not (includes vs v) && all_distinct vs

-- `allowed && allowed.includes(evidence_type)`.
unfoldable pub type_allowed : Option String → Value → Bool
type_allowed none evidence_type = false
type_allowed (some t) evidence_type = strict_eq (str t) evidence_type

claim_type_checks : Value → List Value → List Check
unfolding type_allowed
claim_type_checks source [] = []
claim_type_checks source (c ∷ cs) =
    (not (type_allowed (claim_compatibility (to_text c)) (get "evidence_type" source))
      reports "RUN-EVIDENCE-007")
    ∷ claim_type_checks source cs

action_checks : Value → Predecessor → List Check
action_checks source p =
    if includes (claim_classes source) action_execution
    then (not (includes (run_actions p) (get "action_id" source)) reports "RUN-EVIDENCE-008")
      ∷ (not (strict_eq (get "subject_ref" source) (get "action_id" source))
          reports "RUN-EVIDENCE-009")
      ∷ []
    else []

-- `typeof value === 'string' && value`.
abbrev pub is_nonempty_text : Value → Bool
is_nonempty_text v = is_string v && truthy v

unfoldable pub evidence_source_checks : Value → Predecessor → List Check
unfolding subject_policy_checks claim_type_checks action_checks
evidence_source_checks source p =
    (not (strict_eq (get "schema" source) (str "ev4-builder-evidence-source@1.0.0"))
      reports "RUN-EVIDENCE-001")
    ∷ (not (strict_eq (get "status" source) (str "verified")) reports "RUN-EVIDENCE-002")
    ∷ ((not (is_array (get "claim_ids" source))
          || (is_empty (claim_ids source) || not (all_distinct (claim_ids source))))
        reports "RUN-EVIDENCE-003")
    ∷ ((not (is_array (get "claim_classes" source))
          || (is_empty (claim_classes source) || not (claim_set_compatible (claim_classes source))))
        reports "RUN-EVIDENCE-004")
    ∷ (not (strict_eq (get "session_id" source) (get "session_id" p.session))
        reports "RUN-EVIDENCE-005")
    ∷ (not (strict_eq (get "package_digest" source) (get "canonical_package_digest" p.context))
        reports "RUN-EVIDENCE-006")
    ∷ (claim_type_checks source (claim_classes source)
        ++ (action_checks source p
            ++ ((not (is_nonempty_text (get "subject_ref" source)) reports "RUN-EVIDENCE-010")
                ∷ (not (is_nonempty_text (get "evidence_type" source)) reports "RUN-EVIDENCE-011")
                ∷ subject_policy_checks source
                    (expected_subjects (claim_classes source) source p))))

unfoldable pub validate_evidence_source : Value → Predecessor → List String
validate_evidence_source source p = failures (evidence_source_checks source p)
