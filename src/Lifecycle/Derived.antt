-- ===== src/Lifecycle/Derived.antt =====
-- What the successors of all planners have in common, whatever the operation.
use ev4_builder_assistant_re.Base.{String, List, ◌≡◌}
use ev4_builder_assistant_re.Json.{Value, get, plus_one}
use ev4_builder_assistant_re.Json.Laws.{IsObject, IsText, last_write}
use ev4_builder_assistant_re.Planner.Types.{Predecessor, Successor}
use ev4_builder_assistant_re.Primitives.Checkpoint.Session.{SameSession}
use ev4_builder_assistant_re.Primitives.Checkpoint.{
  CheckpointInput, build_checkpoint, update_session,
}

-- The updates leave alone the manifest's fields that identify the run and its source.
pub record Protects (updates : List (String × Value)) : Type 0 where
  pub schema : (d : Value) → last_write "schema" updates d ≡ d
  pub run_id : (d : Value) → last_write "run_id" updates d ≡ d
  pub source_mode : (d : Value) → last_write "source_mode" updates d ≡ d
  pub source_sha : (d : Value) → last_write "source_snapshot_sha256" updates d ≡ d
  pub receipt_ref : (d : Value) → last_write "receipt_snapshot_ref" updates d ≡ d
  pub receipt_sha : (d : Value) → last_write "receipt_snapshot_sha256" updates d ≡ d

pub record Derived (p : Predecessor) (s : Successor) : Type 0 where
  pub input : CheckpointInput
  pub base : Value
  pub context : s.context ≡ p.context
  pub checkpoint : s.checkpoint ≡ build_checkpoint p.context input
  pub session : s.session ≡ update_session base s.checkpoint
  pub run_id : input.run_id ≡ get "run_id" p.manifest
  pub session_id : input.session_id ≡ get "session_id" p.session
  pub sequence : input.sequence ≡ plus_one (get "checkpoint_sequence" p.checkpoint)
  pub parent : input.parent_id ≡ get "checkpoint_id" p.checkpoint
  pub state : IsText input.state
  pub base_same : IsObject p.session → SameSession base p.session
  pub base_object : IsObject p.session → IsObject base
  pub protects : Protects s.manifest_updates
