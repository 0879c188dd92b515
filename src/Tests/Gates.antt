-- ===== src/Tests/Gates.antt =====
-- Accepted files of the gate validators.
use ev4_builder_assistant_re.Gates.Lineage.{fallback_failures}
use ev4_builder_assistant_re.Gates.Lineage.{is_known}
use ev4_builder_assistant_re.Gates.Lineage.{carries_decision}
use ev4_builder_assistant_re.Gates.Lineage.{carried_by}
use ev4_builder_assistant_re.Gates.Lineage.{dropped_failures}
use ev4_builder_assistant_re.Canonical.{json_text}
use ev4_builder_assistant_re.Gates.Lineage.{lineage_key}
use ev4_builder_assistant_re.Gates.Lineage.{lookup}
use ev4_builder_assistant_re.Gates.Lineage.{compare_upstream}
use ev4_builder_assistant_re.Gates.Lineage.{carried_failures}
use ev4_builder_assistant_re.Gates.Lineage.{get_lineage}
use ev4_builder_assistant_re.Gates.Lineage.{action_failures}
use ev4_builder_assistant_re.Gates.Lineage.{all_failures}
use ev4_builder_assistant_re.Gates.Lineage.{set_entry}
use ev4_builder_assistant_re.Gates.Lineage.{intake_lineage}
use ev4_builder_assistant_re.Gates.Lineage.{lineage_failures}
use ev4_builder_assistant_re.Gates.Lineage.{intake_failures}
use ev4_builder_assistant_re.Gates.Lineage.{validate_sequence}
use ev4_builder_assistant_re.Gates.Lineage.Sound.{Preserved, validate_sequence-Preserved}
use ev4_builder_assistant_re.Json.{elements}
use ev4_builder_assistant_re.Json.{truthy}
use ev4_builder_assistant_re.Json.{get}
use ev4_builder_assistant_re.Json.{strict_eq}
use ev4_builder_assistant_re.Diagnostics.{failures}
use ev4_builder_assistant_re.Base.{[], ◌∷◌, true, false, ◌≡◌, refl}
use ev4_builder_assistant_re.Json.{Value, bool, num, str, array, object}

abbrev proof : Value
proof =
    object
      (("status", str "confirmed") ∷ ("evidence_refs", array (str "evidence/0001.json" ∷ [])) ∷ [])

abbrev gate : Value
gate = object (
    ("schema", str "ev4-completion-gate@0.1.0")
    ∷ ("production_ready_allowed", bool true)
    ∷ ("production_ready_claim", bool true)
    ∷ ("required_next_action", str "claim_production_ready")
    ∷ (
      "proofs",
      object (
          ("layout_verified", proof)
          ∷ ("frontend_verified", proof)
          ∷ ("responsive_verified", proof)
          ∷ ("accessibility_verified", proof)
          ∷ ("browser_verified", proof)
          ∷ ("export_verified", proof)
          ∷ ("final_qa_verified", proof)
          ∷ []),
    )
    ∷ [])

abbrev compaction : Value
compaction = object (
    ("schema", str "ev4-batch-compaction-check@0.1.0")
    ∷ ("compact_batch_allowed", bool true)
    ∷ ("action_count", num 2)
    ∷ ("actions", array (str "set padding" ∷ str "set gap" ∷ []))
    ∷ ("same_element", bool true)
    ∷ ("same_control_family", bool true)
    ∷ ("controls_visible_or_confirmed", bool true)
    ∷ ("unit_strategy_resolved", bool true)
    ∷ ("value_sources_resolved", bool true)
    ∷ ("actions_reversible", bool true)
    ∷ ("geometry_strategy_resolved", bool true)
    ∷ ("architecture_boundary_preserved", bool true)
    ∷ ("responsive_claim_introduced", bool false)
    ∷ [])

abbrev strategy : Value
strategy = object (
    ("schema", str "ev4-unit-strategy-check@0.1.0")
    ∷ ("safe_to_emit", bool true)
    ∷ ("value_source", str "asset_intrinsic")
    ∷ ("responsive_scope", str "desktop")
    ∷ ("reversible", bool true)
    ∷ ("affects_layout", bool false)
    ∷ ("affects_position", bool false)
    ∷ ("required_next_action", str "emit_value")
    ∷ [])

abbrev lineage : Value
lineage = object (
    ("decision_family", str "layout")
    ∷ ("decision_card_ref", str "CARD-1")
    ∷ ("selected_option", str "flex")
    ∷ ("rejected_options", array (str "grid" ∷ []))
    ∷ ("evidence_refs", array (str "evidence/0001.json" ∷ []))
    ∷ ("evidence_state", str "confirmed")
    ∷ ("consumer_stage", str "builder")
    ∷ [])

abbrev carrier : Value
carrier = object (("decision_lineage", lineage) ∷ [])

abbrev sequence : Value
sequence = object (
    ("builder_intake", object (("decision_lineage", array (lineage ∷ [])) ∷ []))
    ∷ ("builder_action_output", object (("actions", array (carrier ∷ [])) ∷ []))
    ∷ ("builder_fallback_attempts", array (carrier ∷ []))
    ∷ [])

sequence-accepted : validate_sequence sequence ≡ []
unfolding validate_sequence intake_failures elements get lineage_failures failures strict_eq
    intake_lineage set_entry all_failures action_failures get_lineage truthy carried_failures
    compare_upstream lookup lineage_key json_text dropped_failures carried_by carries_decision
    is_known fallback_failures
sequence-accepted = refl

validate_sequence-Preserved_example : Preserved sequence
validate_sequence-Preserved_example = validate_sequence-Preserved sequence sequence-accepted
