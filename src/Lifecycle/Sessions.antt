-- ===== src/Lifecycle/Sessions.antt =====
-- The sessions of the runtime against scripts/validate-session-state.mjs.
pub mod Steps
pub mod Life
use ev4_builder_assistant_re.Base.{
  String, Bool, true, false, List, ◌≡◌, refl, ap, sym, ◌∙◌, arith, or-eq-false, inl, inr,
  Bool-cases, All,
}
use ev4_builder_assistant_re.Diagnostics.{Clear, passed}
use ev4_builder_assistant_re.Json.{
  Value, undefined, str, get, truthy, strict_eq, elements, includes, has_length,
}
use ev4_builder_assistant_re.Json.Laws.{strict_eq-eq}
use ev4_builder_assistant_re.Primitives.Checkpoint.{
  build_active, waiting_for_confirmation, completed,
}
use ev4_builder_assistant_re.Primitives.Names.{is_hash}
use ev4_builder_assistant_re.Planner.Types.{Predecessor}
use ev4_builder_assistant_re.Validation.Manifest.{hash_ok, digest_checks}
use ev4_builder_assistant_re.Validation.Generation.{binding_checks}
use ev4_builder_assistant_re.Gates.Session.{transition_table, allowed_in, is_state}
use ev4_builder_assistant_re.Gates.Session.Accepted.{Running, Fits}
use ev4_builder_assistant_re.Lifecycle.Valid.{IsValid, Checked, IsValid-Checked, generation_of}
use ev4_builder_assistant_re.Lifecycle.Bindings.{Anchors, Anchors-bindings}

-- What the transitions keep of a session and its checkpoint, beside the bindings of a valid run.
pub record Kept (p : Predecessor) : Type 0 where
  pub embeds : get "last_verified_checkpoint" p.session ≡ p.checkpoint
  pub mode : get "workflow_mode" p.session ≡ str "APPROVED_HANDOFF_MODE"
  pub running : Running (get "runtime_state" p.checkpoint)
  pub states :
      (get "runtime_state" p.session ≡ get "runtime_state" p.checkpoint)
      × (get "current_state" p.session ≡ get "runtime_state" p.checkpoint)
  pub repair : get "repair_packet" p.session ≡ undefined
  pub schema : get "schema" p.checkpoint ≡ str "ev4-builder-checkpoint@0.2.0"
  pub named : truthy (get "session_id" p.session) ≡ true
  pub blockers :
      All
        (λ b. includes (elements (get "unresolved_evidence" p.session)) b ≡ true)
        (elements (get "unresolved_blockers" p.checkpoint))
  pub resolved :
      strict_eq (get "runtime_state" p.checkpoint) completed ≡ true
      → has_length (get "unresolved_evidence" p.session) ≡ false

pub active-Running : Running build_active
unfolding allowed_in transition_table get strict_eq elements includes
active-Running = record {
  known = refl;
  allowed = refl;
  self = refl;
  correction = refl;
  paused = refl;
}

pub waiting-Running : Running waiting_for_confirmation
unfolding allowed_in transition_table get strict_eq elements includes
waiting-Running = record {
  known = refl;
  allowed = refl;
  self = refl;
  correction = refl;
  paused = refl;
}

pub completed-Running : Running completed
unfolding allowed_in transition_table get strict_eq elements includes
completed-Running = record {
  known = refl;
  allowed = refl;
  self = refl;
  correction = refl;
  paused = refl;
}

-- Two values that equal a third, which equals itself, are equal.
agree : (a b c : Value) → strict_eq a c ≡ true → strict_eq b c ≡ true → strict_eq a b ≡ true
agree a b c h k = let same = strict_eq-eq b c k in rw same h

hash_truthy : (v : Value) → hash_ok v ≡ true → truthy v ≡ true
unfolding hash_ok is_hash
hash_truthy v h = elim (Bool-cases (truthy v)) [
  | inl given ↦ given
  | inr missing ↦ absurd (cc (rw missing at h))
]

module _ (sha256 : String → String) (p : Predecessor) (v : IsValid sha256 p) where
  session_package : truthy (get "package_digest" p.session) ≡ true
  unfolding digest_checks
  session_package =
      let checked = IsValid-Checked sha256 p v in
      let anchors = Anchors-bindings p checked.bindings in
      hash_truthy _ (
        rw (anchors.package_digest, ← anchors.manifest_package)
          (passed _ (or-eq-false _ _ checked.digests.0).1))

  pub Kept-Fits : Kept p → Fits p.session
  unfolding binding_checks
  Kept-Fits k =
      let (_, (_, (ids, (packages, (candidates, _))))) = (IsValid-Checked sha256 p v).bindings in
      let (package_session, package_checkpoint) = or-eq-false _ _ packages in
      let (candidate_session, candidate_checkpoint) = or-eq-false _ _ candidates in
      record {
        mode = k.mode;
        running = rw k.states.0 k.running;
        current = k.states.1 ∙ sym k.states.0;
        repair = k.repair;
        schema = rw k.embeds k.schema;
        candidate =
            rw k.embeds (agree _ _ _ (passed _ candidate_checkpoint) (passed _ candidate_session));
        session_id = rw k.embeds (passed _ ids);
        package_digest =
            rw k.embeds (agree _ _ _ (passed _ package_session) (passed _ package_checkpoint));
        named = k.named;
        packaged = session_package;
        blockers = rw k.embeds k.blockers;
        resolved = λ h. k.resolved (rw k.states.0 at h);
      }
