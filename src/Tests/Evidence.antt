-- ===== src/Tests/Evidence.antt =====
-- A confirmed run with verified evidence, its attachment and its completion. SHA-256 is replaced by the first
-- character of a text.
use ev4_builder_assistant_re.Base.{pad_start}
use ev4_builder_assistant_re.Planner.Completion.{subjects_of}
use ev4_builder_assistant_re.Planner.Completion.{inconsistent_subjects}
use ev4_builder_assistant_re.Planner.Completion.{claim_verified}
use ev4_builder_assistant_re.Planner.Completion.{verified_snapshot}
use ev4_builder_assistant_re.Planner.Completion.{has_class}
use ev4_builder_assistant_re.Planner.Completion.{action_verified}
use ev4_builder_assistant_re.Planner.Completion.{coverage_checks}
use ev4_builder_assistant_re.Planner.Evidence.{join_values}
use ev4_builder_assistant_re.Planner.Completion.{snapshot_checks}
use ev4_builder_assistant_re.Planner.Evidence.Attach.{evidence_id_of}
use ev4_builder_assistant_re.Planner.Completion.{find_last}
use ev4_builder_assistant_re.Planner.Completion.{verify_snapshot}
use ev4_builder_assistant_re.Planner.Completion.{verify_entry}
use ev4_builder_assistant_re.Planner.Completion.{verify_entries}
use ev4_builder_assistant_re.Planner.Completion.{verify_prepared_evidence}
use ev4_builder_assistant_re.Json.{has_length}
use ev4_builder_assistant_re.Planner.Confirm.{same_json}
use ev4_builder_assistant_re.Primitives.Sets.{same_set}
use ev4_builder_assistant_re.Base.{decimal}
use ev4_builder_assistant_re.Json.{remove}
use ev4_builder_assistant_re.Canonical.{sorted_canonical_json}
use ev4_builder_assistant_re.Canonical.{canonical_digest}
use ev4_builder_assistant_re.Canonical.{digest_without}
use ev4_builder_assistant_re.Base.{take_text}
use ev4_builder_assistant_re.Planner.Completion.{validate_prepared_confirmation}
use ev4_builder_assistant_re.Primitives.Blockers.{blocker_values}
use ev4_builder_assistant_re.Primitives.Blockers.{nonempty_texts}
use ev4_builder_assistant_re.Base.Order.{sort_text}
use ev4_builder_assistant_re.Primitives.Blockers.{collect_active_blockers}
use ev4_builder_assistant_re.Primitives.Checkpoint.{is_inked_text}
use ev4_builder_assistant_re.Json.{is_positive}
use ev4_builder_assistant_re.Primitives.Checkpoint.{checkpoint_sequence_is_valid}
use ev4_builder_assistant_re.Planner.Completion.Finish.{completion_checks}
use ev4_builder_assistant_re.Planner.Types.{preparation_diagnostics}
use ev4_builder_assistant_re.Planner.Evidence.{expected_evidence_subject}
use ev4_builder_assistant_re.Planner.Evidence.{expected_subjects}
use ev4_builder_assistant_re.Json.{is_string}
use ev4_builder_assistant_re.Planner.Evidence.{claim_compatibility}
use ev4_builder_assistant_re.Planner.Evidence.{claim_set_compatible}
use ev4_builder_assistant_re.Json.{includes}
use ev4_builder_assistant_re.Planner.Evidence.{all_distinct}
use ev4_builder_assistant_re.Json.{elements}
use ev4_builder_assistant_re.Json.{is_array}
use ev4_builder_assistant_re.Planner.Evidence.{evidence_source_checks}
use ev4_builder_assistant_re.Json.{truthy}
use ev4_builder_assistant_re.Json.{strict_eq}
use ev4_builder_assistant_re.Diagnostics.{failures}
use Prim.Native.String.{String}
use ev4_builder_assistant_re.Base.{◌+◌, List, [], ◌∷◌, ◌++◌, map, some, ◌≡◌, refl, template}
use ev4_builder_assistant_re.Json.{Value, null, num, str, object, array, get}
use ev4_builder_assistant_re.Planner.Types.{
  EvidenceEntry, Planning, Predecessor, Successor, planned,
}
use ev4_builder_assistant_re.Planner.Prepare.{unprepared}
use ev4_builder_assistant_re.Primitives.Names.{generation_ref}
use ev4_builder_assistant_re.Planner.Completion.Finish.{
  completion_diagnostics, completion_successor, completion_transition_id, completion_refs,
  plan_completion,
}
use ev4_builder_assistant_re.Planner.Completion.Complete.{plan_completion_complete}
use ev4_builder_assistant_re.Json.{strict_eq}
use ev4_builder_assistant_re.Planner.Completion.Outcome.{verified_of}
use ev4_builder_assistant_re.Planner.Evidence.Attach.{
  evidence_successor, evidence_transition_id, evidence_refs, evidence_ref_of,
}
use ev4_builder_assistant_re.Tests.Samples.{sample_digest, sample_context, sample_actions}

abbrev first_char : String → String
first_char String.[] = ""
first_char (String.◌∷◌ c s) = String.◌∷◌ c ""

-- A snapshot: its content (of one character), its claims and what they are about.
record Snapshot : Type 0 where
  pub content : String
  pub classes : List String
  pub evidence_type : String
  pub subject : String

abbrev claim_names : Snapshot → List Value
claim_names x = map (λ c. str (template (x.content ∷ "-" ∷ c ∷ []))) x.classes

abbrev source_of : Snapshot → Value
source_of x = object (
    ("schema", str "ev4-builder-evidence-source@1.0.0")
    ∷ ("status", str "verified")
    ∷ ("claim_ids", array (claim_names x))
    ∷ ("claim_classes", array (map str x.classes))
    ∷ ("session_id", str "S-1")
    ∷ ("package_digest", str sample_digest)
    ∷ ("evidence_type", str x.evidence_type)
    ∷ ("subject_ref", str x.subject)
    ∷ ("action_id", str x.subject)
    ∷ [])

abbrev snapshots : List Snapshot
snapshots =
    record {
      content = "b";
      classes = "structure_built" ∷ [];
      evidence_type = "structure_panel_screenshot";
      subject = "builder-output";
    }
    ∷ record {
      content = "c";
      classes = "content_filled" ∷ [];
      evidence_type = "editor_screenshot";
      subject = "builder-output";
    }
    ∷ record {
      content = "d";
      classes = "desktop_layout_established" ∷ "layout_verified" ∷ [];
      evidence_type = "frontend_screenshot";
      subject = "builder-output";
    }
    ∷ record {
      content = "e";
      classes = "export_checked" ∷ "export_verified" ∷ [];
      evidence_type = "export_json";
      subject = "builder-output";
    }
    ∷ record {
      content = "f";
      classes = "required_action_execution" ∷ [];
      evidence_type = "diagnostic";
      subject = "A-1";
    }
    ∷ record {
      content = "g";
      classes = "required_action_execution" ∷ [];
      evidence_type = "diagnostic";
      subject = "A-2";
    }
    ∷ []

abbrev last_snapshot : Snapshot
last_snapshot = record {
  content = "a";
  classes = "scaffold_built" ∷ [];
  evidence_type = "diagnostic";
  subject = "builder-output";
}

abbrev evidence_name : Snapshot → String
evidence_name x = template ("EV-" ∷ x.content ∷ [])

abbrev evidence_file : Snapshot → String
evidence_file x = template ("evidence/EV-" ∷ x.content ∷ ".json" ∷ [])

abbrev assertions_of : List Snapshot → List Value
assertions_of [] = []
assertions_of (x ∷ xs) =
    map
      (λ c. object (
        ("assertion_id", c)
        ∷ ("subject_ref", str x.subject)
        ∷ ("status", str "confirmed")
        ∷ ("evidence_refs", array (str (evidence_name x) ∷ []))
        ∷ []))
      (claim_names x)
    ++ assertions_of xs

abbrev ledger_of : List Snapshot → List Value
ledger_of xs =
    map
      (λ (x : Snapshot). object (
        ("evidence_id", str (evidence_name x))
        ∷ ("source_ref", str (evidence_file x))
        ∷ ("content_sha256", str x.content)
        ∷ ("supports_claim_ids", array (claim_names x))
        ∷ ("status", str "available")
        ∷ []))
      xs

abbrev entries_of : List Snapshot → List EvidenceEntry
entries_of xs =
    map
      (λ (x : Snapshot). record { ref = evidence_file x; content = some (x.content, source_of x) })
      xs

abbrev named_checkpoint : String → Value
named_checkpoint k = object (("checkpoint_id", str k) ∷ ("checkpoint_sequence", num 3) ∷ [])

abbrev receipt : Value
receipt = object (
    ("run_id", str "RUN-1")
    ∷ ("context_digest", get "context_digest" sample_context)
    ∷ ("package_digest", get "canonical_package_digest" sample_context)
    ∷ ("selected_candidate_id", str "candidate-1")
    ∷ ("confirmation_id", str "CONF-1")
    ∷ ("operator_token", str "CONFIRM B-1")
    ∷ ("batch_id", str "B-1")
    ∷ ("action_ids", array (map str sample_actions))
    ∷ ("action_digests", get "action_digests" (get "action_batch" sample_context))
    ∷ ("resulting_checkpoint", named_checkpoint "CP-3")
    ∷ ("receipt_digest", str "{")
    ∷ [])

abbrev run_with : List Snapshot → Planning → Predecessor
run_with xs planning = record {
  manifest = object (
      ("run_id", str "RUN-1")
      ∷ ("active_confirmation_receipt_ref", str "receipt")
      ∷ ("confirmed_checkpoint_id", str "CP-3")
      ∷ ("confirmed_checkpoint_sequence", num 3)
      ∷ ("evidence_snapshot_refs", array (map (λ x. str (evidence_file x)) xs))
      ∷ []);
  context = sample_context;
  session = object (("session_id", str "S-1") ∷ ("runtime_state", str "BUILD_ACTIVE") ∷ []);
  checkpoint = object (
      ("runtime_state", str "BUILD_ACTIVE")
      ∷ ("checkpoint_id", str "CP-9")
      ∷ ("checkpoint_sequence", num 9)
      ∷ ("parent_checkpoint_id", str "CP-8")
      ∷ ("batch_id", str "B-1")
      ∷ ("confirmed_action_ids", array (map str sample_actions))
      ∷ ("unconfirmed_action_ids", array [])
      ∷ ("assertions", array (assertions_of xs))
      ∷ ("evidence_ledger", array (ledger_of xs))
      ∷ []);
  generation = 9;
  planning = planning;
}

abbrev evidence_planning : List Snapshot → Planning
evidence_planning xs = record {
  diagnostics = [];
  full_derivation = some [];
  emit_result = null;
  confirmation_receipt = receipt;
  confirmation_result = receipt;
  evidence_entries = entries_of xs;
}

abbrev attaching_run : Predecessor
attaching_run = run_with snapshots unprepared

abbrev ended_run : Predecessor
ended_run = run_with (last_snapshot ∷ snapshots) (evidence_planning (last_snapshot ∷ snapshots))

completion-clear : completion_diagnostics first_char ended_run ≡ []
unfolding completion_diagnostics preparation_diagnostics failures completion_checks strict_eq get
    checkpoint_sequence_is_valid is_positive is_inked_text collect_active_blockers sort_text
    nonempty_texts blocker_values elements validate_prepared_confirmation truthy digest_without
    canonical_digest sorted_canonical_json remove decimal same_set same_json has_length
    verify_prepared_evidence verify_entries verify_entry verify_snapshot find_last evidence_id_of
    take_text snapshot_checks evidence_source_checks is_array all_distinct includes
    claim_set_compatible claim_compatibility is_string expected_subjects expected_evidence_subject
    join_values coverage_checks action_verified has_class verified_snapshot claim_verified
    inconsistent_subjects subjects_of
completion-clear = refl

next_ref : generation_ref (9 + 1) ≡ some "generations/000010"
unfolding generation_ref pad_start decimal
next_ref = refl

abbrev attachment : Successor
attachment =
    evidence_successor attaching_run (source_of last_snapshot) "a" (first_char "a")
      (evidence_transition_id first_char attaching_run (first_char "a"))
      (evidence_refs "generations/000010"
        (evidence_transition_id first_char attaching_run (first_char "a"))
        (evidence_ref_of (first_char "a")))

ended_id : get "run_id" ended_run.manifest ≡ str "RUN-1"
unfolding get
ended_id = refl

plan_completion_complete_example :
    plan_completion first_char ended_run
    ≡ planned (
        completion_successor ended_run
          (verified_of first_char ended_run)
          (completion_transition_id first_char ended_run (verified_of first_char ended_run))
          (completion_refs "generations/000010"
            (completion_transition_id first_char ended_run (verified_of first_char ended_run))))
plan_completion_complete_example =
    plan_completion_complete first_char ended_run "RUN-1" "generations/000010" ended_id next_ref
      completion-clear
