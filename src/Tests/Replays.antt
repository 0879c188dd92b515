-- ===== src/Tests/Replays.antt =====
-- The sample run after its first transition, with the bytes that the store writes: its replay and its history.
use ev4_builder_assistant_re.Base.{◌↔◌}
use ev4_builder_assistant_re.Replay.Complete.{verify_committed_transition_replay_iff}
use ev4_builder_assistant_re.Replay.Execute.{execute_planned_mutation, Effect}
use ev4_builder_assistant_re.Replay.Effect.{execute_planned_mutation-Effect}
use ev4_builder_assistant_re.Store.Publish.Recovery.{never}
use ev4_builder_assistant_re.Planner.Types.{resulting_entry}
use ev4_builder_assistant_re.Planner.Types.{predecessor_entry}
use ev4_builder_assistant_re.Replay.Exact.{compare_auxiliary}
use ev4_builder_assistant_re.Json.{plus_one}
use ev4_builder_assistant_re.Planner.Emit.{emit_input}
use ev4_builder_assistant_re.Planner.Emit.{emit_checkpoint}
use ev4_builder_assistant_re.Primitives.Checkpoint.{update_session}
use ev4_builder_assistant_re.Replay.Exact.{committed_differences}
use ev4_builder_assistant_re.Replay.Exact.{first_difference}
use ev4_builder_assistant_re.Replay.Exact.{names_generation}
use ev4_builder_assistant_re.Store.Load.{generation_at}
use ev4_builder_assistant_re.Replay.Exact.{compare_committed_bytes}
use ev4_builder_assistant_re.Store.Publish.{expected_snapshot}
use ev4_builder_assistant_re.Replay.Exact.{judge_snapshot}
use ev4_builder_assistant_re.Publication.{publication_files}
use ev4_builder_assistant_re.Publication.{expected_publication_files}
use ev4_builder_assistant_re.Planner.Types.{publication_entry}
use ev4_builder_assistant_re.Planner.Emit.{emit_result}
use ev4_builder_assistant_re.Publication.{validate_publication}
use ev4_builder_assistant_re.Json.{has_length}
use ev4_builder_assistant_re.Primitives.Sets.{same_set}
use ev4_builder_assistant_re.Planner.Emit.{emit_checks}
use ev4_builder_assistant_re.Planner.Prepare.{prepare_planning}
use ev4_builder_assistant_re.Planner.Prepare.{prepare}
use ev4_builder_assistant_re.Planner.Types.{preparation_diagnostics}
use ev4_builder_assistant_re.Planner.Emit.{emit_diagnostics}
use ev4_builder_assistant_re.Planner.Emit.{plan_emit}
use ev4_builder_assistant_re.Replay.Inputs.{run_planner}
use ev4_builder_assistant_re.Replay.Exact.{derive_plan}
use ev4_builder_assistant_re.Replay.Exact.{judge_plan}
use ev4_builder_assistant_re.Base.{take_text}
use ev4_builder_assistant_re.Planner.Emit.{emit_transition_id}
use ev4_builder_assistant_re.Planner.Emit.{emit_refs}
use ev4_builder_assistant_re.Replay.Inputs.{operation_committed}
use ev4_builder_assistant_re.Replay.Exact.{bind_predecessor}
use ev4_builder_assistant_re.Store.Publish.{same_file}
use ev4_builder_assistant_re.Replay.Exact.{differing}
use ev4_builder_assistant_re.Replay.Exact.{canonical_generation_byte_diagnostics}
use ev4_builder_assistant_re.Store.Directory.{find_file}
use ev4_builder_assistant_re.Store.Load.{validate_snapshots}
use ev4_builder_assistant_re.Canonical.{sorted_canonical_json}
use ev4_builder_assistant_re.Planner.Confirm.{same_json}
use ev4_builder_assistant_re.Primitives.Checkpoint.{checkpoint_sequence_is_valid}
use ev4_builder_assistant_re.Validation.Generation.{binding_checks}
use ev4_builder_assistant_re.Validation.Generation.{context_checks}
use ev4_builder_assistant_re.Validation.Manifest.{generation_checks}
use ev4_builder_assistant_re.Validation.Manifest.{generation_bound}
use ev4_builder_assistant_re.Json.{is_positive}
use ev4_builder_assistant_re.Validation.Manifest.{digest_checks}
use ev4_builder_assistant_re.Primitives.Names.{is_hash}
use ev4_builder_assistant_re.Validation.Manifest.{hash_ok}
use ev4_builder_assistant_re.Validation.Manifest.{is_name}
use ev4_builder_assistant_re.Validation.Manifest.{source_checks}
use ev4_builder_assistant_re.Validation.Manifest.{manifest_checks}
use ev4_builder_assistant_re.Diagnostics.{failures}
use ev4_builder_assistant_re.Validation.Manifest.{validate_manifest_shape}
use ev4_builder_assistant_re.Validation.Generation.{validate_generation}
use ev4_builder_assistant_re.Store.Load.{validate_generation_files}
use ev4_builder_assistant_re.Primitives.Names.{timestamp_for_sequence}
use ev4_builder_assistant_re.Json.{elements}
use ev4_builder_assistant_re.Primitives.Blockers.{blocker_values}
use ev4_builder_assistant_re.Primitives.Blockers.{nonempty_texts}
use ev4_builder_assistant_re.Base.Order.{sort_text}
use ev4_builder_assistant_re.Primitives.Blockers.{collect_active_blockers}
use ev4_builder_assistant_re.Primitives.Checkpoint.{build_session}
use ev4_builder_assistant_re.Canonical.{canonical_digest}
use ev4_builder_assistant_re.Canonical.{digest_without}
use ev4_builder_assistant_re.Base.{decimal}
use ev4_builder_assistant_re.Base.{pad_start}
use ev4_builder_assistant_re.Canonical.{json_text}
use ev4_builder_assistant_re.Canonical.{quote}
use ev4_builder_assistant_re.Store.Directory.{indented_text}
use ev4_builder_assistant_re.Store.Load.{read_generation}
use ev4_builder_assistant_re.Replay.Exact.{read_predecessor}
use ev4_builder_assistant_re.Store.Directory.{find_generation}
use ev4_builder_assistant_re.Json.{is_integer}
use ev4_builder_assistant_re.Primitives.Checkpoint.{checkpoint_id}
use ev4_builder_assistant_re.Primitives.Checkpoint.{build_checkpoint}
use ev4_builder_assistant_re.Json.{is_string}
use ev4_builder_assistant_re.Json.{strict_eq}
use ev4_builder_assistant_re.Replay.Exact.{predecessor_bound}
use ev4_builder_assistant_re.Replay.Exact.{load_exact_predecessor}
use ev4_builder_assistant_re.Replay.Exact.{replay_from}
use ev4_builder_assistant_re.Planner.Emit.{emit_successor}
use ev4_builder_assistant_re.Json.{assign}
use ev4_builder_assistant_re.Primitives.Names.{generation_ref}
use ev4_builder_assistant_re.Primitives.Manifest.{build_manifest}
use ev4_builder_assistant_re.Replay.Exact.{predecessor_number}
use ev4_builder_assistant_re.Json.{put}
use ev4_builder_assistant_re.Json.{truthy}
use ev4_builder_assistant_re.Base.{
  String, Bool, true, false, List, [], ◌∷◌, map, Option, none, some, ◌≡◌, refl, str_eq,
  if◌then◌else◌,
}
use ev4_builder_assistant_re.Json.{Value, null, get}
use ev4_builder_assistant_re.Publication.{emit_batch}
use ev4_builder_assistant_re.Primitives.Manifest.{build_current_pointer}
use ev4_builder_assistant_re.Planner.Types.{Predecessor, Successor, AuxiliaryFile}
use ev4_builder_assistant_re.Store.Directory.{GenerationFiles, Directory, stable_json, entry_bytes}
use ev4_builder_assistant_re.Store.Snapshot.{successor_manifest}
use ev4_builder_assistant_re.Store.Publish.{Expected}
use ev4_builder_assistant_re.Replay.Inputs.{no_input}
use ev4_builder_assistant_re.Replay.Exact.{
  Active, Replay, unmatched, replay_threw, conflict, replayed, verify_committed_transition_replay,
}
use ev4_builder_assistant_re.Replay.Sound.{Rederived}
use ev4_builder_assistant_re.Tests.Samples.{sample_sha, sample_run, sample_issue}

abbrev or_null : Option Value → Value
or_null none = null
or_null (some v) = v

abbrev second_manifest : Value
second_manifest = or_null (successor_manifest sample_sha sample_run sample_issue)

abbrev second_pointer : Value
second_pointer =
    build_current_pointer sample_sha second_manifest sample_issue.context sample_issue.checkpoint

abbrev known : List Value
known =
    sample_run.manifest ∷ sample_run.context ∷ sample_run.session ∷ sample_run.checkpoint
    ∷ second_manifest ∷ sample_issue.context ∷ sample_issue.session ∷ sample_issue.checkpoint
    ∷ second_pointer ∷ sample_issue.result ∷ []

among : List Value → String → Option Value
among [] text = none
among (v ∷ vs) text = if str_eq text (stable_json v) then some v else among vs text

abbrev parse : String → Option Value
unfolding among
parse text = among known text

abbrev no_problems : GenerationFiles → List String
no_problems g = []

abbrev any_pointer : Value → Bool
any_pointer v = true

abbrev no_derivation : Directory → Predecessor → List String
no_derivation d p = []

abbrev first_files : GenerationFiles
first_files = record {
  manifest = some (stable_json sample_run.manifest);
  context = some (stable_json sample_run.context);
  session = some (stable_json sample_run.session);
  checkpoint = some (stable_json sample_run.checkpoint);
}

abbrev second_files : GenerationFiles
second_files = record {
  manifest = some (stable_json second_manifest);
  context = some (stable_json sample_issue.context);
  session = some (stable_json sample_issue.session);
  checkpoint = some (stable_json sample_issue.checkpoint);
}

abbrev after_issue : Directory
after_issue = record {
  current = some (stable_json second_pointer);
  generations = (2, second_files) ∷ (1, first_files) ∷ [];
  files =
      ("source/selected-source.json", "source")
      ∷ map (λ (a : AuxiliaryFile). (a.ref, entry_bytes a.content)) sample_issue.auxiliary_files;
}

abbrev active : Active
active = record { current = second_pointer; manifest = second_manifest }

abbrev is_replayed : Replay → Bool
is_replayed (replayed p s e) = true
is_replayed _ = false

replay_parts :
    (r : Replay)
    → is_replayed r ≡ true
    → (p : Predecessor) × (s : Successor) × (e : Expected) × (r ≡ replayed p s e)
replay_parts (replayed p s e) h = (p, s, e, refl)
replay_parts unmatched h = cc
replay_parts replay_threw h = cc
replay_parts (conflict m) h = cc

abbrev issue_replay : Replay
issue_replay =
    verify_committed_transition_replay sample_sha parse no_problems any_pointer no_derivation
      after_issue active emit_batch no_input true

issue_matches : is_replayed issue_replay ≡ true
unfolding verify_committed_transition_replay truthy build_current_pointer put predecessor_number get
    successor_manifest build_manifest generation_ref assign emit_successor replay_from
    load_exact_predecessor predecessor_bound strict_eq is_string build_checkpoint checkpoint_id
    is_integer find_generation read_predecessor read_generation parse stable_json indented_text
    quote json_text pad_start decimal digest_without canonical_digest build_session
    collect_active_blockers sort_text nonempty_texts blocker_values elements timestamp_for_sequence
    validate_generation_files validate_generation validate_manifest_shape failures manifest_checks
    source_checks is_name hash_ok is_hash digest_checks is_positive generation_bound
    generation_checks context_checks binding_checks checkpoint_sequence_is_valid same_json
    sorted_canonical_json validate_snapshots find_file canonical_generation_byte_diagnostics
    differing same_file bind_predecessor operation_committed emit_refs emit_transition_id take_text
    judge_plan derive_plan run_planner plan_emit emit_diagnostics preparation_diagnostics prepare
    prepare_planning emit_checks same_set has_length validate_publication emit_result
    publication_entry expected_publication_files publication_files judge_snapshot expected_snapshot
    compare_committed_bytes generation_at names_generation first_difference committed_differences
    update_session emit_checkpoint emit_input plus_one compare_auxiliary entry_bytes
    predecessor_entry resulting_entry
issue_matches = refl

abbrev issue_parts :
    (p : Predecessor) × (s : Successor) × (e : Expected) × (issue_replay ≡ replayed p s e)
issue_parts = replay_parts issue_replay issue_matches

verify_committed_transition_replay_iff_example :
    (issue_replay ≡ replayed issue_parts.0 issue_parts.1 issue_parts.2)
    ↔ Rederived sample_sha parse no_problems any_pointer no_derivation after_issue active emit_batch
        no_input true issue_parts.0 issue_parts.1 issue_parts.2
verify_committed_transition_replay_iff_example =
    verify_committed_transition_replay_iff sample_sha parse no_problems any_pointer no_derivation
      after_issue active emit_batch no_input true issue_parts.0 issue_parts.1 issue_parts.2

execute_planned_mutation-Effect_example :
    Effect sample_sha parse no_problems any_pointer no_derivation never after_issue emit_batch
      no_input
      (execute_planned_mutation sample_sha parse no_problems any_pointer no_derivation never
        after_issue emit_batch no_input).directory
execute_planned_mutation-Effect_example =
    execute_planned_mutation-Effect sample_sha parse no_problems any_pointer no_derivation never
      after_issue emit_batch no_input
