-- ===== src/Lifecycle/Fields.antt =====
-- What the checkpoint and the session of a planned successor say, in terms of its predecessor.
use ev4_builder_assistant_re.Base.{true, false, ◌≡◌, refl, ap, ◌∙◌, arith, codes-append}
use ev4_builder_assistant_re.Json.{Value, num, get, plus_one, strict_eq, is_positive}
use ev4_builder_assistant_re.Json.Laws.{IsObject}
use ev4_builder_assistant_re.Primitives.Checkpoint.{
  checkpoint_id, build_checkpoint, is_inked_text, checkpoint_sequence_is_valid,
}
use ev4_builder_assistant_re.Primitives.Checkpoint.Session.{Carries, update_session-Carries}
use ev4_builder_assistant_re.Planner.Types.{Predecessor, Successor, batch_id}
use ev4_builder_assistant_re.Lifecycle.Derived.{Derived}

-- Every checkpoint that the runtime builds has a name.
pub checkpoint_id_inked :
    (run_id sequence : Value) → is_inked_text (checkpoint_id run_id sequence) ≡ true
unfolding checkpoint_id is_inked_text
checkpoint_id_inked run_id sequence = rw codes-append refl

module _ (p : Predecessor) (s : Successor) (d : Derived p s) where
  pub record Reads : Type 0 where
    pub id : get "checkpoint_id" s.checkpoint ≡ checkpoint_id d.input.run_id d.input.sequence
    pub state : get "runtime_state" s.checkpoint ≡ d.input.state
    pub sequence :
        get "checkpoint_sequence" s.checkpoint ≡ plus_one (get "checkpoint_sequence" p.checkpoint)
    pub parent : get "parent_checkpoint_id" s.checkpoint ≡ get "checkpoint_id" p.checkpoint
    pub session_id : get "session_id" s.checkpoint ≡ get "session_id" p.session
    pub package_digest :
        get "package_digest" s.checkpoint ≡ get "canonical_package_digest" p.context
    pub candidate : get "selected_candidate_id" s.checkpoint ≡ get "selected_candidate_id" p.context
    pub batch : get "batch_id" s.checkpoint ≡ batch_id p.context

  pub successor-Reads : Reads
  unfolding build_checkpoint get
  successor-Reads = record {
    id = ap (get "checkpoint_id") d.checkpoint;
    state = ap (get "runtime_state") d.checkpoint;
    sequence = ap (get "checkpoint_sequence") d.checkpoint ∙ d.sequence;
    parent = ap (get "parent_checkpoint_id") d.checkpoint ∙ d.parent;
    session_id = ap (get "session_id") d.checkpoint ∙ d.session_id;
    package_digest = ap (get "package_digest") d.checkpoint;
    candidate = ap (get "selected_candidate_id") d.checkpoint;
    batch = ap (get "batch_id") d.checkpoint;
  }

  pub successor-Carries : IsObject p.session → Carries s.session s.checkpoint d.base
  successor-Carries h = rw d.session (update_session-Carries d.base s.checkpoint (d.base_object h))

-- One more than a positive sequence is a positive sequence other than 1.
pub plus_one_positive :
    (v : Value)
    → is_positive v ≡ true
    → (is_positive (plus_one v) ≡ true) × (strict_eq (plus_one v) (num 1) ≡ false)
unfolding is_positive plus_one strict_eq
plus_one_positive (num n) h = (ground arith, ground arith)
plus_one_positive _ h = cc

-- The successor of a positive sequence, with a named parent, has a valid sequence.
pub sequence_valid :
    (sequence : Value) (checkpoint : Value)
    → is_positive sequence ≡ true
    → get "checkpoint_sequence" checkpoint ≡ plus_one sequence
    → is_inked_text (get "parent_checkpoint_id" checkpoint) ≡ true
    → checkpoint_sequence_is_valid checkpoint ≡ true
unfolding checkpoint_sequence_is_valid
sequence_valid sequence checkpoint positive next inked =
    let (above, later) = plus_one_positive sequence positive in rw (next, above, later) inked
