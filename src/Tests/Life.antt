-- ===== src/Tests/Life.antt =====
-- Intake of a sample source, and the properties of runs and operations on samples.
use ev4_builder_assistant_re.Gates.Session.{transition_table, validate_session_state}
use ev4_builder_assistant_re.Lifecycle.Sessions.Life.{initialize_stage-sessions}
use ev4_builder_assistant_re.Primitives.Blockers.{collect_initial_blockers}
use ev4_builder_assistant_re.Json.{elements}
use ev4_builder_assistant_re.Primitives.Blockers.{blocker_values}
use ev4_builder_assistant_re.Primitives.Blockers.{nonempty_texts}
use ev4_builder_assistant_re.Base.Order.{sort_text}
use ev4_builder_assistant_re.Primitives.Blockers.{collect_active_blockers}
use ev4_builder_assistant_re.Json.{has_length}
use ev4_builder_assistant_re.Primitives.Checkpoint.{build_session}
use ev4_builder_assistant_re.Store.Intake.{initial_session}
use ev4_builder_assistant_re.Store.Intake.{initial_checkpoint_input}
use ev4_builder_assistant_re.Primitives.Checkpoint.{build_checkpoint}
use ev4_builder_assistant_re.Base.{decimal}
use ev4_builder_assistant_re.Base.{pad_start}
use ev4_builder_assistant_re.Base.{take_text}
use ev4_builder_assistant_re.Store.Intake.{run_id_of}
use ev4_builder_assistant_re.Store.Intake.{initial_checkpoint}
use ev4_builder_assistant_re.Json.{assign}
use ev4_builder_assistant_re.Json.{put}
use ev4_builder_assistant_re.Planner.Emit.{emit_checks}
use ev4_builder_assistant_re.Diagnostics.{failures}
use ev4_builder_assistant_re.Planner.Prepare.{prepare_planning}
use ev4_builder_assistant_re.Planner.Types.{preparation_diagnostics}
use ev4_builder_assistant_re.Store.Intake.{initial_input}
use ev4_builder_assistant_re.Primitives.Manifest.{build_manifest}
use ev4_builder_assistant_re.Json.{truthy}
use ev4_builder_assistant_re.Primitives.Names.{is_hash}
use ev4_builder_assistant_re.Validation.Manifest.{hash_ok}
use ev4_builder_assistant_re.Canonical.{canonical_digest}
use ev4_builder_assistant_re.Json.{strict_eq}
use ev4_builder_assistant_re.Validation.Manifest.{is_source_mode}
use ev4_builder_assistant_re.Base.{◌+◌, [], ◌∷◌, map, Option, none, some, ◌≡◌, ◌↔◌, refl, true}
use mathlib.Core.List.{Perm}
use ev4_builder_assistant_re.Json.{null, str, object, array, get}
use ev4_builder_assistant_re.Primitives.Names.{generation_ref}
use ev4_builder_assistant_re.Primitives.Manifest.{build_current_pointer}
use ev4_builder_assistant_re.Primitives.Sets.{same_set, same_set_iff}
use ev4_builder_assistant_re.Primitives.Sources.{Takes, direct_ce, validate_source_mode_arguments}
use ev4_builder_assistant_re.Primitives.SourceModes.{validate_source_mode_arguments-Takes}
use ev4_builder_assistant_re.Publication.{emit_batch}
use ev4_builder_assistant_re.Planner.Types.{Predecessor, Successor, planned}
use ev4_builder_assistant_re.Planner.Prepare.{prepare}
use ev4_builder_assistant_re.Planner.Emit.{
  emit_diagnostics, emit_successor, emit_transition_id, emit_refs, plan_emit,
}
use ev4_builder_assistant_re.Planner.Results.{plan_emit-planned}
use ev4_builder_assistant_re.Store.Intake.{
  Stage, Initialized, initialize_stage, normalize_context_for_run,
}
use ev4_builder_assistant_re.Store.Context.{normalize_context_for_run-digest}
use ev4_builder_assistant_re.Canonical.{digest_without}
use ev4_builder_assistant_re.Validation.Pointer.{validate_current_pointer}
use ev4_builder_assistant_re.Lifecycle.Admitted.{Admitted, run_of}
use ev4_builder_assistant_re.Lifecycle.Commit.{committed, committed-total}
use ev4_builder_assistant_re.Lifecycle.Honest.{Honest, Plans-Honest}
use ev4_builder_assistant_re.Lifecycle.Life.{initialize_stage-Reach}
use ev4_builder_assistant_re.Lifecycle.Phases.{Phase, MovesTo, At, HasActions}
use ev4_builder_assistant_re.Lifecycle.Planned.{by_emit}
use ev4_builder_assistant_re.Lifecycle.Pointer.{build_current_pointer-accepted}
use ev4_builder_assistant_re.Lifecycle.Runs.{Reach, start, later, step}
use ev4_builder_assistant_re.Lifecycle.Valid.{IsValid}
use ev4_builder_assistant_re.Tests.Samples.{
  sample_sha, sample_hashes, sample_context, sample_actions, sample_run, sample_issue, no_files,
}
use ev4_builder_assistant_re.Tests.Runs.{sample_run-IsValid, sample_issue-planned}

abbrev stage : Stage
stage = record {
  source_mode = direct_ce;
  selected = "{}";
  receipt = "";
  context = sample_context;
  builder_package = object [];
  run_directory = "runs/1";
}

stage-Admitted : Admitted sample_sha stage
unfolding is_source_mode strict_eq get digest_without canonical_digest hash_ok is_hash truthy
stage-Admitted = record {
  mode = refl;
  schema = refl;
  runtime_mode = refl;
  digest = refl;
  package_hash = refl;
  package_text = tt;
  candidate = tt;
  batch = tt;
}

abbrev initialized_or : Initialized → Option Initialized → Initialized
initialized_or r none = r
initialized_or r (some s) = s

abbrev nothing_made : Initialized
nothing_made = record {
  manifest = null;
  context = null;
  session = null;
  checkpoint = null;
  result = null;
  current = null;
  refs = emit_refs "" "";
}

abbrev made : Initialized
made = initialized_or nothing_made (initialize_stage sample_sha stage)

stage-made : initialize_stage sample_sha stage ≡ some made
unfolding initialize_stage build_manifest generation_ref initial_input
stage-made = refl

abbrev made_prepared : Predecessor
made_prepared = prepare no_files [] emit_batch (run_of made)

made-clear : emit_diagnostics made_prepared ≡ []
unfolding emit_diagnostics preparation_diagnostics prepare prepare_planning failures emit_checks
    truthy get initialize_stage build_manifest generation_ref initial_input put assign strict_eq
    initial_checkpoint build_checkpoint initial_checkpoint_input initial_session build_session
    same_set has_length collect_active_blockers sort_text nonempty_texts blocker_values elements
    collect_initial_blockers
made-clear = refl

made_id : get "run_id" made_prepared.manifest ≡ str "RUN-0123456789abcdef0123"
unfolding get prepare initialize_stage build_manifest generation_ref initial_input put assign
    run_id_of take_text canonical_digest
made_id = refl

second_ref : generation_ref (1 + 1) ≡ some "generations/000002"
unfolding generation_ref pad_start decimal
second_ref = refl

abbrev issue : Successor
issue =
    emit_successor made_prepared (emit_transition_id sample_sha made_prepared)
      (emit_refs "generations/000002" (emit_transition_id sample_sha made_prepared))

issue-planned : plan_emit sample_sha made_prepared ≡ planned issue
unfolding prepare
issue-planned =
    plan_emit-planned sample_sha made_prepared "RUN-0123456789abcdef0123" "generations/000002"
      made_id second_ref made-clear

issue-committed : (q : Predecessor) × (committed sample_sha (run_of made) issue ≡ some q)
issue-committed = committed-total sample_sha (run_of made) issue "generations/000002" second_ref

made-Reach : Reach sample_sha (run_of made) 1 (issue-committed.0)
made-Reach =
    later 0 (run_of made) issue-committed.0 start
      (step issue (by_emit no_files [] issue-planned) issue-committed.1)

made-HasActions : HasActions (run_of made)
unfolding initialize_stage build_manifest generation_ref initial_input get
made-HasActions h = cc

initialize_stage-Reach_example :
    IsValid sample_sha (issue-committed.0) × ((ψ : Phase) × MovesTo 1 ψ × At ψ (issue-committed.0))
initialize_stage-Reach_example =
    initialize_stage-Reach sample_sha sample_hashes stage made 1 issue-committed.0 stage-Admitted
      made-HasActions stage-made made-Reach

Plans-Honest_example : Honest sample_issue
Plans-Honest_example =
    Plans-Honest sample_sha sample_run sample_issue (by_emit no_files [] sample_issue-planned)

build_current_pointer-accepted_example :
    validate_current_pointer sample_sha (
      build_current_pointer sample_sha sample_run.manifest sample_run.context sample_run.checkpoint)
    ≡ []
build_current_pointer-accepted_example =
    build_current_pointer-accepted sample_sha sample_hashes sample_run sample_run-IsValid

same_set_iff_example :
    (same_set (array (map str ("A-2" ∷ "A-1" ∷ []))) (array (map str sample_actions)) ≡ true)
    ↔ Perm ("A-2" ∷ "A-1" ∷ []) sample_actions
same_set_iff_example = same_set_iff ("A-2" ∷ "A-1" ∷ []) sample_actions

validate_source_mode_arguments-Takes_example :
    (validate_source_mode_arguments direct_ce (str "package.json") null ≡ [])
    ↔ Takes (str "package.json") null direct_ce
validate_source_mode_arguments-Takes_example =
    validate_source_mode_arguments-Takes (str "package.json") null direct_ce

normalize_context_for_run-digest_example :
    get "context_digest"
      (normalize_context_for_run sample_sha sample_context direct_ce "selected" "receipt")
    ≡ str (
        digest_without sample_sha
          (normalize_context_for_run sample_sha sample_context direct_ce "selected" "receipt")
          "context_digest")
normalize_context_for_run-digest_example =
    normalize_context_for_run-digest sample_sha sample_context direct_ce "selected" "receipt" tt

initialize_stage-sessions_example :
    validate_session_state transition_table issue-committed.0.session ≡ []
initialize_stage-sessions_example =
    initialize_stage-sessions sample_sha sample_hashes stage made 1 issue-committed.0 stage-Admitted
      stage-made made-Reach
