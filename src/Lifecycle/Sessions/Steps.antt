-- ===== src/Lifecycle/Sessions/Steps.antt =====
-- Every transition keeps what a session needs to pass its validator.
use ev4_builder_assistant_re.Base.{String, true, false, List, [], ◌≡◌, refl, ap, ◌∙◌, All, Option}
use ev4_builder_assistant_re.Json.{
  Value, array, get, put, truthy, strict_eq, elements, includes, has_length, undefined,
}
use ev4_builder_assistant_re.Json.Laws.{IsObject, get-put, put-IsObject}
use ev4_builder_assistant_re.Primitives.Blockers.{elements-js_or}
use ev4_builder_assistant_re.Primitives.Checkpoint.{completed, build_checkpoint, update_session}
use ev4_builder_assistant_re.Primitives.Checkpoint.Session.{
  update_session-Carries, update_session-handoff,
}
use ev4_builder_assistant_re.Publication.{
  Refs, Operation, emit_batch, confirm_batch, attach_evidence, real_completion,
}
use ev4_builder_assistant_re.Planner.Types.{Predecessor, Successor}
use ev4_builder_assistant_re.Planner.Prepare.{prepare, unprepared}
use ev4_builder_assistant_re.Planner.Emit.{emit_successor, emit_input, emit_checkpoint}
use ev4_builder_assistant_re.Planner.Emit.Outcome.{plan_emit-Emitted}
use ev4_builder_assistant_re.Planner.Confirm.{confirm_successor, confirm_input, confirm_checkpoint}
use ev4_builder_assistant_re.Planner.Confirm.Outcome.{plan_confirm-Confirmed}
use ev4_builder_assistant_re.Planner.Evidence.Attach.{
  evidence_successor, evidence_input, evidence_checkpoint,
}
use ev4_builder_assistant_re.Planner.Evidence.Outcome.{plan_evidence-Attached}
use ev4_builder_assistant_re.Planner.Completion.{Verified}
use ev4_builder_assistant_re.Planner.Completion.Finish.{
  completion_successor, completion_input, completion_checkpoint,
}
use ev4_builder_assistant_re.Planner.Completion.Outcome.{plan_completion-Completed}
use ev4_builder_assistant_re.Gates.Session.Accepted.{Running}
use ev4_builder_assistant_re.Lifecycle.Bindings.{session-IsObject}
use ev4_builder_assistant_re.Lifecycle.Commit.{committed-Commits}
use ev4_builder_assistant_re.Lifecycle.Derived.{Derived}
use ev4_builder_assistant_re.Lifecycle.Planned.{
  Plans, by_emit, by_confirm, by_evidence, by_completion, Plans-Derived,
}
use ev4_builder_assistant_re.Lifecycle.Runs.{Step, step}
use ev4_builder_assistant_re.Lifecycle.Sessions.{
  Kept, active-Running, waiting-Running, completed-Running,
}
use ev4_builder_assistant_re.Lifecycle.Valid.{IsValid}

-- A successor as the run that it becomes, less its manifest.
abbrev unvalidated : Successor → Predecessor
unvalidated s = record {
  manifest = undefined;
  context = s.context;
  session = s.session;
  checkpoint = s.checkpoint;
  generation = 0;
  planning = unprepared;
}

-- What a successor's session is made of: the session before, whose unresolved evidence a completion drops.
pub data Renews (p : Predecessor) (s : Successor) : Type 0 where
  carried :
      Running (get "runtime_state" s.checkpoint)
      → strict_eq (get "runtime_state" s.checkpoint) completed ≡ false
      → s.session ≡ update_session p.session s.checkpoint
      → elements (get "unresolved_blockers" s.checkpoint)
        ≡ elements (get "unresolved_blockers" p.checkpoint)
      → Renews p s
  closed :
      Running (get "runtime_state" s.checkpoint)
      → s.session ≡ update_session (put "unresolved_evidence" (array []) p.session) s.checkpoint
      → elements (get "unresolved_blockers" s.checkpoint) ≡ []
      → Renews p s

emit-Renews : (p : Predecessor) (id : String) (refs : Refs) → Renews p (emit_successor p id refs)
unfolding emit_successor emit_checkpoint emit_input build_checkpoint get strict_eq
emit-Renews p id refs = carried waiting-Running refl refl (elements-js_or _)

confirm-Renews :
    (sha256 : String → String) (p : Predecessor) (token : Value) (id : String) (refs : Refs)
    → Renews p (confirm_successor sha256 p token id refs)
unfolding confirm_successor confirm_checkpoint confirm_input build_checkpoint get strict_eq
confirm-Renews sha256 p token id refs = carried active-Running refl refl (elements-js_or _)

evidence-Renews :
    (p : Predecessor) (source : Value) (content sha id : String) (refs : Refs)
    → Renews p (evidence_successor p source content sha id refs)
unfolding evidence_successor evidence_checkpoint evidence_input build_checkpoint get strict_eq
evidence-Renews p source content sha id refs = carried active-Running refl refl (elements-js_or _)

completion-Renews :
    (p : Predecessor) (vs : List Verified) (id : String) (refs : Refs)
    → Renews p (completion_successor p vs id refs)
unfolding completion_successor completion_checkpoint completion_input build_checkpoint get elements
completion-Renews p vs id refs = closed completed-Running refl refl

-- Preparation changes neither session nor checkpoint.
unprepare :
    (read : Value → Option (String × Value)) (derivation : List String) (operation : Operation)
    (p : Predecessor) (s : Successor)
    → Renews (prepare read derivation operation p) s
    → Renews p s
unfolding prepare
unprepare read derivation operation p s (carried running open_still session blockers) =
    carried running open_still session blockers
unprepare read derivation operation p s (closed running session blockers) =
    closed running session blockers

module _ (sha256 : String → String) where
  Plans-Renews : (p : Predecessor) (s : Successor) → Plans sha256 p s → Renews p s
  Plans-Renews p s (by_emit read derivation h) =
      let q = prepare read derivation emit_batch p in
      unprepare read derivation emit_batch p s
        (rw (plan_emit-Emitted sha256 q s h).built (emit-Renews q _ _))
  Plans-Renews p s (by_confirm read token h) =
      let q = prepare read [] confirm_batch p in
      unprepare read [] confirm_batch p s
        (rw (plan_confirm-Confirmed sha256 q token s h).built (confirm-Renews sha256 q token _ _))
  Plans-Renews p s (by_evidence read content source h) =
      let q = prepare read [] attach_evidence p in
      unprepare read [] attach_evidence p s (
        rw (plan_evidence-Attached sha256 q content source s h).built
          (evidence-Renews q source content _ _ _))
  Plans-Renews p s (by_completion read derivation h) =
      let q = prepare read derivation real_completion p in
      unprepare read derivation real_completion p s
        (rw (plan_completion-Completed sha256 q s h).built (completion-Renews q _ _ _))

  -- The session that a base takes a checkpoint into.
  renewed :
      (p : Predecessor) (s : Successor) (base : Value)
      → IsObject base
      → Derived p s
      → Running (get "runtime_state" s.checkpoint)
      → s.session ≡ update_session base s.checkpoint
      → get "repair_packet" base ≡ undefined
      → truthy (get "session_id" base) ≡ true
      → All
          (λ b. includes (elements (get "unresolved_evidence" base)) b ≡ true)
          (elements (get "unresolved_blockers" s.checkpoint))
      → (strict_eq (get "runtime_state" s.checkpoint) completed ≡ true
          → has_length (get "unresolved_evidence" base) ≡ false)
      → Kept (unvalidated s)
  unfolding build_checkpoint get
  renewed p s base object d running made repair named blockers resolved =
      let c = update_session-Carries base s.checkpoint object in
      let (mode, packet) = update_session-handoff base s.checkpoint object in
      record {
        embeds = rw made c.embeds;
        mode = rw made mode;
        running = running;
        states = (rw made c.runtime_state, rw made c.current_state);
        repair = rw made (packet ∙ repair);
        schema = ap (get "schema") d.checkpoint;
        named = rw (made, c.same.session_id) named;
        blockers = rw (made, c.evidence) blockers;
        resolved = λ h. rw (made, c.evidence) (resolved h);
      }

  successor-Kept :
      (p : Predecessor) (s : Successor)
      → IsObject p.session
      → Derived p s
      → Kept p
      → Renews p s
      → Kept (unvalidated s)
  unfolding elements has_length
  successor-Kept p s object d k (carried running open_still session blockers) =
      renewed p s p.session object d running session k.repair k.named (rw blockers k.blockers)
        (λ h. absurd (cc (open_still, h)))
  successor-Kept p s object d k (closed running session blockers) =
      let base = put "unresolved_evidence" (array []) p.session in
      renewed p s base (put-IsObject "unresolved_evidence" (array []) p.session object) d running
        session
        (get-put "unresolved_evidence" "repair_packet" (array []) p.session object ∙ k.repair)
        (rw (get-put "unresolved_evidence" "session_id" (array []) p.session object) k.named)
        (rw blockers tt)
        (λ h.
          rw (get-put "unresolved_evidence" "unresolved_evidence" (array []) p.session object) refl)

  pub Step-Kept : (p q : Predecessor) → IsValid sha256 p → Kept p → Step sha256 p q → Kept q
  Step-Kept p q v k (step s plan h) =
      let c = committed-Commits sha256 p s q h in
      let next =
        successor-Kept p s (session-IsObject sha256 p v) (Plans-Derived sha256 p s plan) k
          (Plans-Renews p s plan) in
      record {
        embeds = rw (c.session, c.checkpoint) next.embeds;
        mode = rw c.session next.mode;
        running = rw c.checkpoint next.running;
        states = rw (c.session, c.checkpoint) next.states;
        repair = rw c.session next.repair;
        schema = rw c.checkpoint next.schema;
        named = rw c.session next.named;
        blockers = rw (c.session, c.checkpoint) next.blockers;
        resolved = rw (c.session, c.checkpoint) next.resolved;
      }
