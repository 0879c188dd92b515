-- ===== src/Store/Snapshot.antt =====
-- `deriveExpectedSuccessorSnapshot` of scripts/lib/runtime/run-state-store.mjs: the manifest and the
-- pointer of the generation that a planned successor becomes.
use ev4_builder_assistant_re.Base.{◌+◌, String, Option, none, some}
use ev4_builder_assistant_re.Json.{Value, num, get}
use ev4_builder_assistant_re.Planner.Types.{Predecessor, Successor}
use ev4_builder_assistant_re.Primitives.Manifest.{
  ManifestInput, build_manifest, build_current_pointer,
}

unfoldable pub successor_input : Predecessor → Successor → ManifestInput
successor_input p s = record {
  previous = some p.manifest;
  run_id = get "run_id" p.manifest;
  source_mode = get "source_mode" p.manifest;
  source_sha = get "source_snapshot_sha256" p.manifest;
  receipt_sha = get "receipt_snapshot_sha256" p.manifest;
  generation = p.generation + 1;
  predecessor_generation = num p.generation;
  predecessor_checkpoint_id = get "checkpoint_id" p.checkpoint;
  predecessor_checkpoint_sequence = get "checkpoint_sequence" p.checkpoint;
  updates = s.manifest_updates;
}

module _ (sha256 : String → String) where
  unfoldable pub successor_manifest : Predecessor → Successor → Option Value
  unfolding successor_input
  successor_manifest p s = build_manifest sha256 (successor_input p s) s.context s.checkpoint

  unfoldable pub successor_pointer : Predecessor → Successor → Option Value
  successor_pointer p s = elim (successor_manifest p s) [
    | none ↦ none
    | some manifest ↦ some (build_current_pointer sha256 manifest s.context s.checkpoint)
  ]
