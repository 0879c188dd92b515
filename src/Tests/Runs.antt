-- ===== src/Tests/Runs.antt =====
-- The properties of whole runs on the sample run.
use ev4_builder_assistant_re.Primitives.Blockers.{blocker_values}
use ev4_builder_assistant_re.Primitives.Blockers.{nonempty_texts}
use ev4_builder_assistant_re.Base.Order.{sort_text}
use ev4_builder_assistant_re.Primitives.Sets.{same_set}
use ev4_builder_assistant_re.Planner.Emit.{emit_checks}
use ev4_builder_assistant_re.Planner.Prepare.{prepare_planning}
use ev4_builder_assistant_re.Planner.Types.{preparation_diagnostics}
use ev4_builder_assistant_re.Planner.Emit.{emit_diagnostics}
use ev4_builder_assistant_re.Base.{◌+◌, String, [], Option, some, ◌≡◌, refl, ap, pad_start, decimal}
use ev4_builder_assistant_re.Json.{
  Value, str, array, get, put, assign, remove, strict_eq, truthy, is_string, is_integer,
  is_positive, has_length, elements,
}
use ev4_builder_assistant_re.Planner.Types.{action_ids}
use ev4_builder_assistant_re.Json.Laws.{IsText}
use ev4_builder_assistant_re.Lifecycle.Confirmable.{issue-confirm}
use ev4_builder_assistant_re.Planner.Confirm.{plan_confirm}
use ev4_builder_assistant_re.Publication.{confirm_batch}
use ev4_builder_assistant_re.Lifecycle.Commit.{committed-Commits}
use ev4_builder_assistant_re.Tests.Samples.{sample_actions}
use ev4_builder_assistant_re.Base.{◌∙◌, map}
use ev4_builder_assistant_re.Lifecycle.Valid.{IsValid}
use ev4_builder_assistant_re.Lifecycle.Runs.{
  Reach, start, later, step, Reach-IsValid, Reach-At, Reach-Continues, Continues,
}
use ev4_builder_assistant_re.Planner.Emit.{plan_emit, emit_diagnostics}
use ev4_builder_assistant_re.Planner.Results.{plan_emit-planned}
use ev4_builder_assistant_re.Planner.Prepare.{prepare}
use ev4_builder_assistant_re.Lifecycle.Commit.{committed, committed-total}
use ev4_builder_assistant_re.Lifecycle.Phases.{HasActions, At, Phase, MovesTo, drafted}
use ev4_builder_assistant_re.Lifecycle.Planned.{by_emit}
use ev4_builder_assistant_re.Planner.Types.{Predecessor, Successor, planned}
use ev4_builder_assistant_re.Validation.Generation.{
  validate_generation, context_checks, binding_checks,
}
use ev4_builder_assistant_re.Validation.Manifest.{
  validate_manifest_shape, manifest_checks, source_checks, digest_checks, generation_checks,
  hash_ok, is_name, generation_bound, minus_one,
}
use ev4_builder_assistant_re.Canonical.{canonical_digest, digest_without, sorted_canonical_json}
use ev4_builder_assistant_re.Primitives.Names.{
  is_hash, generation_ref, generation_name, timestamp_for_sequence,
}
use ev4_builder_assistant_re.Primitives.Checkpoint.{
  build_checkpoint, build_session, checkpoint_id, checkpoint_sequence_is_valid, is_inked_text,
}
use ev4_builder_assistant_re.Primitives.Manifest.{build_manifest, generation_entry, sealed}
use ev4_builder_assistant_re.Primitives.Blockers.{collect_active_blockers}
use ev4_builder_assistant_re.Diagnostics.{failures}
use ev4_builder_assistant_re.Planner.Confirm.{same_json}
use ev4_builder_assistant_re.Tests.Samples.{
  sample_sha, sample_hashes, sample_run, sample_issue, sample_prepared, no_files,
}

pub sample_run-IsValid : IsValid sample_sha sample_run
unfolding validate_generation validate_manifest_shape manifest_checks source_checks digest_checks
    generation_checks hash_ok is_name generation_bound minus_one context_checks binding_checks
    canonical_digest digest_without is_hash generation_ref generation_name build_checkpoint
    build_session checkpoint_id checkpoint_sequence_is_valid is_inked_text build_manifest
    generation_entry sealed failures same_json get put assign remove strict_eq truthy is_string
    is_integer is_positive sorted_canonical_json pad_start decimal timestamp_for_sequence
sample_run-IsValid = record { accepted = refl; named = refl }

sample_prepared-clear : emit_diagnostics sample_prepared ≡ []
unfolding emit_diagnostics prepare preparation_diagnostics prepare_planning failures emit_checks
    truthy get build_manifest generation_ref put assign strict_eq build_checkpoint build_session
    same_set has_length collect_active_blockers sort_text nonempty_texts blocker_values elements
sample_prepared-clear = refl

sample_run_id : get "run_id" sample_prepared.manifest ≡ str "RUN-1"
unfolding prepare get build_manifest generation_ref put assign
sample_run_id = refl

sample_in_range : generation_ref (sample_prepared.generation + 1) ≡ some "generations/000002"
unfolding prepare generation_ref pad_start decimal
sample_in_range = refl

pub sample_issue-planned : plan_emit sample_sha sample_prepared ≡ planned sample_issue
sample_issue-planned =
    plan_emit-planned sample_sha sample_prepared "RUN-1" "generations/000002" sample_run_id
      sample_in_range sample_prepared-clear

sample_commit : (q : Predecessor) × (committed sample_sha sample_run sample_issue ≡ some q)
unfolding generation_ref pad_start decimal
sample_commit = committed-total sample_sha sample_run sample_issue "generations/000002" refl

abbrev sample_issued : Predecessor
sample_issued = sample_commit.0

sample-Reach : Reach sample_sha sample_run 1 sample_issued
sample-Reach =
    later 0 sample_run sample_issued start
      (step sample_issue (by_emit no_files [] sample_issue-planned) sample_commit.1)

sample_actions-HasActions : HasActions sample_run
unfolding get
sample_actions-HasActions h = cc

sample_run-drafted : At drafted sample_run
unfolding get build_checkpoint truthy build_manifest generation_ref put assign has_length
sample_run-drafted = (refl, refl, refl)

Reach-IsValid_example : IsValid sample_sha sample_issued
Reach-IsValid_example =
    Reach-IsValid sample_sha sample_hashes sample_run sample_issued 1 sample_run-IsValid
      sample-Reach

Reach-At_example : (ψ : Phase) × MovesTo 1 ψ × At ψ sample_issued
Reach-At_example =
    Reach-At sample_sha sample_hashes sample_run sample_issued 1 sample_run-IsValid
      sample_actions-HasActions sample_run-drafted sample-Reach

Reach-Continues_example : Continues sample_sha 1 sample_run sample_issued
Reach-Continues_example =
    Reach-Continues sample_sha sample_hashes sample_run sample_issued 1 sample_run-IsValid
      sample-Reach

abbrev sample_files : Value → Option (String × Value)
sample_files ref = some ("emitted", sample_issue.result)

third : generation_ref (sample_run.generation + 1 + 1) ≡ some "generations/000003"
unfolding generation_ref pad_start decimal
third = refl

sample_run_named : get "run_id" sample_run.manifest ≡ str "RUN-1"
unfolding get build_manifest generation_ref put assign
sample_run_named = refl

sample_run_source : IsText (get "source_snapshot_sha256" sample_run.manifest)
unfolding get build_manifest generation_ref put assign
sample_run_source = tt

sample_run_actions : action_ids sample_run.context ≡ array (map str sample_actions)
unfolding get
sample_run_actions = refl

sample_run_token :
    str "CONFIRM B-1" ≡ get "expected_user_token" (get "confirmation" sample_run.context)
unfolding get
sample_run_token = refl

sample_next : generation_ref (sample_issued.generation + 1) ≡ some "generations/000003"
sample_next =
    ap (λ n. generation_ref (n + 1))
      (committed-Commits sample_sha sample_run sample_issue sample_issued
        sample_commit.1).generation
    ∙ third

issue-confirm_example :
    (t : Successor) × (plan_confirm sample_sha
        (prepare sample_files [] confirm_batch sample_issued)
        (str "CONFIRM B-1")
      ≡ planned t)
issue-confirm_example =
    issue-confirm sample_sha no_files sample_files [] sample_run sample_issue sample_issued
      (str "CONFIRM B-1") sample_actions "emitted" "RUN-1" "generations/000003" sample_run-IsValid
      sample_run_named sample_run_source sample_run_actions tt sample_run_token sample_issue-planned
      sample_commit.1 refl sample_next
