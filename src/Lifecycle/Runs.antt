-- ===== src/Lifecycle/Runs.antt =====
-- Runs as sequences of transitions, each planned for the loaded run and committed.
use ev4_builder_assistant_re.Base.{
  ℕ, zero, suc, ◌+◌, String, Bool, true, false, [], some, ◌≡◌, ◌≢◌, refl, sym, ap, ◌∙◌, arith,
  if◌then◌else◌, text_ne,
}
use ev4_builder_assistant_re.Json.{Value, to_text, get, truthy, plus_one}
use ev4_builder_assistant_re.Primitives.Checkpoint.{
  build_active, waiting_for_confirmation, completed,
}
use ev4_builder_assistant_re.Primitives.Names.{is_hash}
use ev4_builder_assistant_re.Publication.{
  emit_batch, confirm_batch, attach_evidence, real_completion,
}
use ev4_builder_assistant_re.Planner.Types.{Predecessor, Successor}
use ev4_builder_assistant_re.Planner.Prepare.{prepare}
use ev4_builder_assistant_re.Planner.Emit.Outcome.{plan_emit-Emitted}
use ev4_builder_assistant_re.Planner.Confirm.Outcome.{plan_confirm-Confirmed}
use ev4_builder_assistant_re.Planner.Evidence.Outcome.{plan_evidence-Attached}
use ev4_builder_assistant_re.Planner.Evidence.Attach.{evidence_diagnostics, evidence_ref_of}
use ev4_builder_assistant_re.Planner.Completion.Outcome.{plan_completion-Completed}
use ev4_builder_assistant_re.Store.Snapshot.{successor_input}
use ev4_builder_assistant_re.Lifecycle.Commit.{
  committed, committed-Commits, committed-IsValid, committed-Bound,
}
use ev4_builder_assistant_re.Lifecycle.Fields.{successor-Reads}
use ev4_builder_assistant_re.Lifecycle.Guards.{
  EmitGuard, prepared_emit-Guard, ConfirmGuard, confirm_diagnostics-Guard, EvidenceGuard,
  attach_checks-Guard, CompletionGuard, completion_diagnostics-Guard,
}
use ev4_builder_assistant_re.Lifecycle.Phases.{
  Phase, drafted, issued, confirmed, finished, MovesTo, ready, onward, Moves, issuing, confirming,
  attaching, finishing, At, HasActions, state_of, is_confirmed, Effect, emit-Effect, confirm-Effect,
  evidence-Effect, completion-Effect, same_set-empty,
}
use ev4_builder_assistant_re.Lifecycle.Planned.{
  Plans, by_emit, by_confirm, by_evidence, by_completion, Plans-Derived,
}
use ev4_builder_assistant_re.Lifecycle.Valid.{IsValid}

-- `n` increments of a sequence.
unfoldable pub plus_many : ℕ → Value → Value
plus_many zero v = v
plus_many (suc n) v = plus_one (plus_many n v)

module _ (sha256 : String → String) where
  pub data Step (p q : Predecessor) : Type 0 where
    step : (s : Successor) → Plans sha256 p s → committed sha256 p s ≡ some q → Step p q

  -- A run after `n` transitions.
  pub data Reach (p : Predecessor) : ℕ → Predecessor → Type 0 where
    start : Reach p 0 p
    later : (n : ℕ) (q r : Predecessor) → Reach p n q → Step q r → Reach p (suc n) r

  -- The guard and the effect of the planner that made a step.
  pub data Made (p : Predecessor) (s : Successor) : Type 0 where
    emitted : EmitGuard p → Effect s waiting_for_confirmation false → Made p s
    confirmed_by : (token : Value) → ConfirmGuard p token → Effect s build_active true → Made p s
    attached : EvidenceGuard p → Effect s build_active false → Made p s
    completed_by : CompletionGuard p → Effect s completed false → Made p s

  pub Plans-Made : (p : Predecessor) (s : Successor) → Plans sha256 p s → Made p s
  unfolding prepare evidence_diagnostics
  Plans-Made p s (by_emit read derivation h) =
      let q = prepare read derivation emit_batch p in
      let e = plan_emit-Emitted sha256 q s h in
      emitted (prepared_emit-Guard read derivation p e.clear) (rw e.built (emit-Effect q _ _))
  Plans-Made p s (by_confirm read token h) =
      let q = prepare read [] confirm_batch p in
      let e = plan_confirm-Confirmed sha256 q token s h in
      let g = confirm_diagnostics-Guard q token e.clear in
      confirmed_by token
        (record {
          state = record { checkpoint = g.state.checkpoint; session = g.state.session };
          unconfirmed = g.unconfirmed;
          fresh = g.fresh;
          actions = g.actions;
          token_given = g.token_given;
          unblocked = g.unblocked;
        })
        (rw e.built (confirm-Effect sha256 q token _ _))
  Plans-Made p s (by_evidence read content source h) =
      let q = prepare read [] attach_evidence p in
      let e = plan_evidence-Attached sha256 q content source s h in
      let g = attach_checks-Guard q source (evidence_ref_of (sha256 content)) e.clear in
      attached (record { state = g.state; confirmed = g.confirmed })
        (rw e.built (evidence-Effect q source content _ _ _))
  Plans-Made p s (by_completion read derivation h) =
      let q = prepare read derivation real_completion p in
      let e = plan_completion-Completed sha256 q s h in
      completed_by (completion_diagnostics-Guard sha256 read derivation p e.clear)
        (rw e.built (completion-Effect q _ _ _))

  -- State and confirmation of a committed run.
  pub committed_state :
      (p : Predecessor) (s : Successor) (q : Predecessor) (state : Value) (confirms : Bool)
      → IsValid sha256 p
      → Effect s state confirms
      → committed sha256 p s ≡ some q
      → (state_of q ≡ state) × (is_confirmed q ≡ (if confirms then true else is_confirmed p))
  unfolding successor_input
  committed_state p s q state confirms v e h =
      let c = committed-Commits sha256 p s q h in
      let b = committed-Bound sha256 p s q v h in
      (
        ap (get "runtime_state") c.checkpoint ∙ e.state_after,
        ap truthy b.confirmation_ref
            ∙ e.confirmed_after (get "active_confirmation_receipt_ref" p.manifest),
      )

  active_ne_waiting : build_active ≢ waiting_for_confirmation
  active_ne_waiting h = text_ne _ _ refl (ap to_text h)

  active_ne_completed : build_active ≢ completed
  active_ne_completed h = text_ne _ _ refl (ap to_text h)

  waiting_ne_completed : waiting_for_confirmation ≢ completed
  waiting_ne_completed h = text_ne _ _ refl (ap to_text h)

  module _ (p : Predecessor) (s : Successor) (q : Predecessor) (v : IsValid sha256 p)
      (h : committed sha256 p s ≡ some q) where
    after_issue :
        (φ : Phase)
        → At φ p
        → EmitGuard p
        → Effect s waiting_for_confirmation false
        → (ψ : Phase) × Moves φ ψ × At ψ q
    after_issue drafted a g e =
        let (state, kept) = committed_state p s q waiting_for_confirmation false v e h in
        (issued, issuing, (state, kept ∙ g.unconfirmed))
    after_issue issued a g e = absurd (active_ne_waiting (sym g.state.checkpoint ∙ a.0))
    after_issue confirmed a g e = let again = a.1 in let fresh = g.unconfirmed in absurd cc
    after_issue finished a g e = absurd (active_ne_completed (sym g.state.checkpoint ∙ a))

    after_confirm :
        (φ : Phase) (token : Value)
        → At φ p
        → ConfirmGuard p token
        → Effect s build_active true
        → (ψ : Phase) × Moves φ ψ × At ψ q
    after_confirm drafted token a g e = absurd (active_ne_waiting (sym a.0 ∙ g.state.checkpoint))
    after_confirm issued token a g e =
        let (state, given) = committed_state p s q build_active true v e h in
        (confirmed, confirming, (state, given))
    after_confirm confirmed token a g e = absurd (active_ne_waiting (sym a.0 ∙ g.state.checkpoint))
    after_confirm finished token a g e = absurd (waiting_ne_completed (sym g.state.checkpoint ∙ a))

    after_evidence :
        (φ : Phase)
        → At φ p
        → EvidenceGuard p
        → Effect s build_active false
        → (ψ : Phase) × Moves φ ψ × At ψ q
    after_evidence drafted a g e = let before = a.1 in let given = g.confirmed in absurd cc
    after_evidence issued a g e = absurd (active_ne_waiting (sym g.state ∙ a.0))
    after_evidence confirmed a g e =
        let (state, kept) = committed_state p s q build_active false v e h in
        (confirmed, attaching, (state, kept ∙ g.confirmed))
    after_evidence finished a g e = absurd (active_ne_completed (sym g.state ∙ a))

    after_completion :
        (φ : Phase)
        → HasActions p
        → At φ p
        → CompletionGuard p
        → Effect s completed false
        → (ψ : Phase) × Moves φ ψ × At ψ q
    after_completion drafted actions a g e = absurd (actions (same_set-empty _ _ a.2 g.actions))
    after_completion issued actions a g e =
        absurd (active_ne_waiting (sym g.state.checkpoint ∙ a.0))
    after_completion confirmed actions a g e =
        (finished, finishing, (committed_state p s q completed false v e h).0)
    after_completion finished actions a g e =
        absurd (active_ne_completed (sym g.state.checkpoint ∙ a))

    Made-Moves : (φ : Phase) → HasActions p → At φ p → Made p s → (ψ : Phase) × Moves φ ψ × At ψ q
    Made-Moves φ actions a (emitted g e) = after_issue φ a g e
    Made-Moves φ actions a (confirmed_by token g e) = after_confirm φ token a g e
    Made-Moves φ actions a (attached g e) = after_evidence φ a g e
    Made-Moves φ actions a (completed_by g e) = after_completion φ actions a g e

  -- Every transition of a valid run with actions is a move of the abstract machine.
  pub Step-Moves :
      (p q : Predecessor) (φ : Phase)
      → IsValid sha256 p
      → HasActions p
      → At φ p
      → Step p q
      → (ψ : Phase) × Moves φ ψ × At ψ q
  Step-Moves p q φ v actions a (step s plan h) =
      Made-Moves p s q v h φ actions a (Plans-Made p s plan)

  -- What no transition changes, and what every transition counts.
  pub record Continues (n : ℕ) (p q : Predecessor) : Type 0 where
    pub context : q.context ≡ p.context
    pub run_id : get "run_id" q.manifest ≡ get "run_id" p.manifest
    pub source_mode : get "source_mode" q.manifest ≡ get "source_mode" p.manifest
    pub source_sha :
        get "source_snapshot_sha256" q.manifest ≡ get "source_snapshot_sha256" p.manifest
    pub receipt_sha :
        get "receipt_snapshot_sha256" q.manifest ≡ get "receipt_snapshot_sha256" p.manifest
    pub generation : q.generation ≡ p.generation + n
    pub sequence :
        get "checkpoint_sequence" q.checkpoint
        ≡ plus_many n (get "checkpoint_sequence" p.checkpoint)

  pub Step-Continues : (p q : Predecessor) → IsValid sha256 p → Step p q → Continues 1 p q
  unfolding successor_input plus_many
  Step-Continues p q v (step s plan h) =
      let d = Plans-Derived sha256 p s plan in
      let c = committed-Commits sha256 p s q h in
      let b = committed-Bound sha256 p s q v h in
      record {
        context = c.context ∙ d.context;
        run_id = b.run_id ∙ d.protects.run_id _;
        source_mode = b.source_mode ∙ d.protects.source_mode _;
        source_sha = b.source_sha ∙ d.protects.source_sha _;
        receipt_sha = b.receipt_sha ∙ d.protects.receipt_sha _;
        generation = c.generation;
        sequence = ap (get "checkpoint_sequence") c.checkpoint ∙ (successor-Reads p s d).sequence;
      }

  module _ (hashes : (t : String) → is_hash (sha256 t) ≡ true) where
    -- A transition of a valid run leaves a valid run.
    Step-IsValid : (p q : Predecessor) → IsValid sha256 p → Step p q → IsValid sha256 q
    Step-IsValid p q v (step s plan h) =
        committed-IsValid sha256 hashes p s q (Plans-Derived sha256 p s plan) v h

    -- Every run that any number of planned and committed transitions reach from a valid run is valid:
    -- its generation passes the validation of generations, and its checkpoint has a name. SHA-256 is
    -- assumed to yield 64 hexadecimal digits.
    pub Reach-IsValid :
        (p q : Predecessor) (n : ℕ) → IsValid sha256 p → Reach p n q → IsValid sha256 q
    Reach-IsValid p q n v start = v
    Reach-IsValid p q n v (later m r t reach next) =
        Step-IsValid r t (Reach-IsValid p r m v reach) next

    one_more :
        (n : ℕ) (p q r : Predecessor) → Continues n p q → Continues 1 q r → Continues (suc n) p r
    unfolding plus_many
    one_more n p q r b c = record {
      context = c.context ∙ b.context;
      run_id = c.run_id ∙ b.run_id;
      source_mode = c.source_mode ∙ b.source_mode;
      source_sha = c.source_sha ∙ b.source_sha;
      receipt_sha = c.receipt_sha ∙ b.receipt_sha;
      generation = let next = c.generation in let before = b.generation in omega arith;
      sequence = c.sequence ∙ ap plus_one b.sequence;
    }

    -- Over n transitions of a valid run the context, the run id, the mode and the digests of source
    -- and receipt stay as they are, and the generation number and the checkpoint sequence each grow by
    -- n. SHA-256 is assumed to yield 64 hexadecimal digits.
    pub Reach-Continues :
        (p q : Predecessor) (n : ℕ) → IsValid sha256 p → Reach p n q → Continues n p q
    unfolding plus_many
    Reach-Continues p q n v start = record {
      context = refl;
      run_id = refl;
      source_mode = refl;
      source_sha = refl;
      receipt_sha = refl;
      generation = omega arith;
      sequence = refl;
    }
    Reach-Continues p q n v (later m r t reach next) =
        one_more m p r t (Reach-Continues p r m v reach)
          (Step-Continues r t (Reach-IsValid p r m v reach) next)

    -- A batch lives through the abstract machine of drafted, issued, confirmed and finished: after n
    -- transitions from a valid draft with actions, the run stands in a phase that n moves of the
    -- machine lead to. SHA-256 is assumed to yield 64 hexadecimal digits.
    pub Reach-At :
        (p q : Predecessor) (n : ℕ)
        → IsValid sha256 p
        → HasActions p
        → At drafted p
        → Reach p n q
        → (ψ : Phase) × MovesTo n ψ × At ψ q
    Reach-At p q n v actions a start = (drafted, ready, a)
    Reach-At p q n v actions a (later m r t reach next) =
        let (φ, moves, here) = Reach-At p r m v actions a reach in
        let same = (Reach-Continues p r m v reach).context in
        let (ψ, move, there) =
          Step-Moves r t φ (Reach-IsValid p r m v reach) (rw same actions) here next in
        (ψ, onward m φ ψ moves move, there)
