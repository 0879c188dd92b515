-- ===== src/Store/Intake.antt =====
-- `normalizeContextForRun` of scripts/lib/runtime/run-primitives.mjs, and `intakeResultRefs` and
-- `initializeStage` of scripts/lib/runtime/run-state-store.mjs: the first generation of a run. The derivation of
-- the context from the copied source is a parameter, as are the bytes of the copies and the relative paths that
-- Node's `path` gives.
use ev4_builder_assistant_re.Base.{
  String, false, List, [], ◌∷◌, map, Option, none, some, template, take_text, drop_text,
  if◌then◌else◌,
}
use ev4_builder_assistant_re.Canonical.{canonical_digest}
use ev4_builder_assistant_re.Json.{
  Value, null, bool, num, str, object, array, get, put, remove, strict_eq,
}
use ev4_builder_assistant_re.Primitives.Blockers.{collect_initial_blockers}
use ev4_builder_assistant_re.Primitives.Checkpoint.{
  CheckpointInput, build_checkpoint, build_session, build_active,
}
use ev4_builder_assistant_re.Primitives.Manifest.{
  ManifestInput, build_manifest, build_current_pointer,
}
use ev4_builder_assistant_re.Primitives.Sources.{project_gate, direct_ce}
use ev4_builder_assistant_re.Planner.Types.{publication_entry, action_ids, action_digests, batch_id}
use ev4_builder_assistant_re.Publication.{Refs, real_intake}

-- What `initializeStage` reads: the mode, the bytes of the selected source and of the receipt, the derived
-- context and package, and the relative path of the run.
pub record Stage : Type 0 where
  pub source_mode : Value
  pub selected : String
  pub receipt : String
  pub context : Value
  pub builder_package : Value
  pub run_directory : String

pub record Initialized : Type 0 where
  pub manifest : Value
  pub context : Value
  pub session : Value
  pub checkpoint : Value
  pub result : Value
  pub current : Value
  pub refs : Refs

unfoldable pub initial_checkpoint_input : Value → Value → Value → List String → CheckpointInput
initial_checkpoint_input run_id session_id context blockers = record {
  run_id = run_id;
  session_id = session_id;
  sequence = num 1;
  parent_id = null;
  state = build_active;
  confirmed_action_ids = array [];
  unconfirmed_action_ids = action_ids context;
  unresolved_blockers = array (map str blockers);
  assertions = array (
      object (
        ("assertion_id", str "ASSERT-RUN-CONTEXT-INITIALIZED")
        ∷ ("subject_ref", run_id)
        ∷ ("claim", str "runtime_context_initialized")
        ∷ ("status", str "not_applicable")
        ∷ ("evidence_refs", array [])
        ∷ [])
      ∷ []);
  evidence_ledger = array [];
  created_from = str "initial";
}

unfoldable pub initial_input : Stage → Value → Value → Value → ManifestInput
initial_input i run_id source_sha receipt_sha = record {
  previous = none;
  run_id = run_id;
  source_mode = i.source_mode;
  source_sha = source_sha;
  receipt_sha = receipt_sha;
  generation = 1;
  predecessor_generation = null;
  predecessor_checkpoint_id = null;
  predecessor_checkpoint_sequence = null;
  updates = [];
}

unfoldable pub intake_result_refs : String → Value → Refs
intake_result_refs run_id source_mode = record {
  generation_ref = "generations/000001";
  result_ref = template (
      "transitions/intake/INTAKE-"
      ∷ take_text 16 (drop_text 4 run_id)
      ∷ "/real-intake-result.json"
      ∷ []);
  receipt_ref =
      if strict_eq source_mode project_gate then "source/project-gate-receipt.json" else "";
  evidence_ref = "";
  status_ref = "";
  gate_ref = "";
}

unfoldable pub intake_result : Stage → Value → Value → Value → Value → Refs → Value
intake_result i run_id source_sha receipt_sha checkpoint refs = object (
    ("schema", str "ev4-builder-real-intake-result@2.0.0")
    ∷ ("run_id", run_id)
    ∷ ("transition_id", str "real-intake")
    ∷ ("status", str "accepted")
    ∷ ("source_mode", i.source_mode)
    ∷ ("source_snapshot_sha256", source_sha)
    ∷ ("receipt_snapshot_sha256", receipt_sha)
    ∷ ("context_digest", get "context_digest" i.context)
    ∷ ("package_digest", get "canonical_package_digest" i.context)
    ∷ ("selected_candidate_id", get "selected_candidate_id" i.context)
    ∷ ("batch_id", batch_id i.context)
    ∷ ("action_ids", action_ids i.context)
    ∷ ("action_digests", action_digests i.context)
    ∷ (
      "resulting_checkpoint",
      object (
          ("checkpoint_id", get "checkpoint_id" checkpoint)
          ∷ ("checkpoint_sequence", num 1)
          ∷ ("parent_checkpoint_id", null)
          ∷ []),
    )
    ∷ ("runtime_state", build_active)
    ∷ ("builder_build_complete", bool false)
    ∷ ("responsive_complete", bool false)
    ∷ ("production_ready", bool false)
    ∷ ("publication", publication_entry real_intake refs)
    ∷ ("blocking_diagnostics", array [])
    ∷ [])

module _ (sha256 : String → String) where
  -- The context of a run names the copies in the run, and has its digest renewed.
  unfoldable pub normalize_context_for_run : Value → Value → String → String → Value
  normalize_context_for_run context source_mode selected_ref receipt_ref =
      let artifact_ref =
        if strict_eq source_mode project_gate
        then str receipt_ref
        else if strict_eq source_mode direct_ce
        then str selected_ref
        else null in
      let input_ref = if strict_eq source_mode direct_ce then null else str selected_ref in
      let renamed = put "builder_input_ref" input_ref (
        put "source_artifact_ref" artifact_ref
          (put "selected_source_ref" (str selected_ref) context)) in
      let bare = remove "context_digest" renamed in
      put "context_digest" (str (canonical_digest sha256 bare)) bare

  unfoldable pub receipt_sha_of : Stage → Value
  receipt_sha_of i = if strict_eq i.source_mode project_gate then str (sha256 i.receipt) else null

  unfoldable pub run_id_of : Stage → String
  run_id_of i = template (
      "RUN-"
      ∷ take_text 20 (
          canonical_digest sha256 (
            object (
              ("source_mode", i.source_mode)
              ∷ ("source_snapshot_sha256", str (sha256 i.selected))
              ∷ ("receipt_snapshot_sha256", receipt_sha_of i)
              ∷ ("canonical_package_digest", get "canonical_package_digest" i.context)
              ∷ ("selected_candidate_id", get "selected_candidate_id" i.context)
              ∷ ("run_directory", str i.run_directory)
              ∷ [])))
      ∷ [])

  unfoldable pub session_id_of : Stage → String
  session_id_of i = template ("SESSION-" ∷ drop_text 4 (run_id_of i) ∷ [])

  unfoldable pub initial_checkpoint : Stage → Value
  initial_checkpoint i = build_checkpoint i.context (
      initial_checkpoint_input (str (run_id_of i)) (str (session_id_of i)) i.context
        (collect_initial_blockers i.builder_package))

  unfoldable pub initial_session : Stage → Value
  initial_session i =
      build_session (str (session_id_of i)) i.context (initial_checkpoint i)
        (array (map str (collect_initial_blockers i.builder_package)))

  -- `none` is an exception, which the number 1 never causes.
  unfoldable pub initialize_stage : Stage → Option Initialized
  initialize_stage i =
      let run_id = str (run_id_of i) in
      let source_sha = str (sha256 i.selected) in
      let refs = intake_result_refs (run_id_of i) i.source_mode in
      elim (build_manifest sha256 (initial_input i run_id source_sha (receipt_sha_of i)) i.context
        (initial_checkpoint i)) [
          | none ↦ none
          | some manifest ↦ some (record {
            manifest = manifest;
            context = i.context;
            session = initial_session i;
            checkpoint = initial_checkpoint i;
            result =
                intake_result i run_id source_sha (receipt_sha_of i) (initial_checkpoint i) refs;
            current = build_current_pointer sha256 manifest i.context (initial_checkpoint i);
            refs = refs;
          })
        ]
