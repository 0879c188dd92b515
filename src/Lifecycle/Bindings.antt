-- ===== src/Lifecycle/Bindings.antt =====
-- The files of a successor's generation are bound to one another.
use ev4_builder_assistant_re.Base.{
  String, true, ◌≡◌, str_eq_refl, str_eq_iff, arith, or-eq-false, and-eq-true, All,
}
use ev4_builder_assistant_re.Diagnostics.{Clear, passes, passed, neither}
use ev4_builder_assistant_re.Json.{Value, obj, truthy, str, get, strict_eq}
use ev4_builder_assistant_re.Json.Laws.{
  IsObject, strict_eq-eq, strict_eq_self, strict_eq_self_left, strict_eq_refl, strict_eq_text,
  strict_eq_positive,
}
use ev4_builder_assistant_re.Primitives.Checkpoint.{
  is_inked_text, checkpoint_id, checkpoint_sequence_is_valid,
}
use ev4_builder_assistant_re.Primitives.Manifest.Fields.{Bound}
use ev4_builder_assistant_re.Planner.Types.{Predecessor, Successor, batch_id}
use ev4_builder_assistant_re.Planner.Confirm.{same_json}
use ev4_builder_assistant_re.Validation.Generation.{binding_checks}
use ev4_builder_assistant_re.Lifecycle.Derived.{Derived}
use ev4_builder_assistant_re.Lifecycle.Fields.{successor-Reads, successor-Carries, sequence_valid}
use ev4_builder_assistant_re.Lifecycle.Valid.{IsValid, IsValid-Checked, generation_of}
use ev4_builder_assistant_re.Validation.Manifest.{hash_ok, digest_checks}
use ev4_builder_assistant_re.Primitives.Names.{is_hash}
use ev4_builder_assistant_re.Store.Snapshot.{successor_input}

-- The bindings of a valid predecessor that its successor's bindings rest on.
pub record Anchors (p : Predecessor) : Type 0 where
  pub positive : checkpoint_sequence_is_valid p.checkpoint ≡ true
  pub session_id : strict_eq (get "session_id" p.session) (get "session_id" p.session) ≡ true
  pub package_digest : get "package_digest" p.session ≡ get "canonical_package_digest" p.context
  pub package_self :
      strict_eq
        (get "canonical_package_digest" p.context)
        (get "canonical_package_digest" p.context)
      ≡ true
  pub candidate : get "selected_candidate_id" p.session ≡ get "selected_candidate_id" p.context
  pub candidate_self :
      strict_eq (get "selected_candidate_id" p.context) (get "selected_candidate_id" p.context)
      ≡ true
  pub context_self :
      strict_eq (get "context_digest" p.context) (get "context_digest" p.context) ≡ true
  pub batch_self : strict_eq (batch_id p.context) (batch_id p.context) ≡ true
  pub manifest_package :
      get "canonical_package_digest" p.manifest ≡ get "canonical_package_digest" p.context

pub Anchors-bindings : (p : Predecessor) → All Clear (binding_checks (generation_of p)) → Anchors p
unfolding binding_checks
Anchors-bindings p
      (sequence, (_, (ids, (packages, (candidates, (batches, (_, (digests, (manifests, _))))))))) =
    let (package_session, _) = or-eq-false _ _ packages in
    let (candidate_session, _) = or-eq-false _ _ candidates in
    let (batch_checkpoint, _) = or-eq-false _ _ batches in
    let (digest_context, _) = or-eq-false _ _ digests in
    let (package_manifest, _) = or-eq-false _ _ manifests in
    record {
      positive = passed _ sequence;
      session_id = strict_eq_self_left _ _ (passed _ ids);
      package_digest = strict_eq-eq _ _ (passed _ package_session);
      package_self = strict_eq_self _ _ (passed _ package_session);
      candidate = strict_eq-eq _ _ (passed _ candidate_session);
      candidate_self = strict_eq_self _ _ (passed _ candidate_session);
      context_self = strict_eq_self _ _ (passed _ digest_context);
      batch_self = strict_eq_self _ _ (passed _ batch_checkpoint);
      manifest_package = strict_eq-eq _ _ (passed _ package_manifest);
    }

IsObject-hash : (k : String) (v : Value) → hash_ok (get k v) ≡ true → IsObject v
unfolding hash_ok get truthy is_hash
IsObject-hash k (obj fs) h = tt
IsObject-hash k _ h = cc

pub hash_ok_text : (s : String) → hash_ok (str s) ≡ is_hash s
unfolding hash_ok truthy
hash_ok_text s = ground (arith, str_eq_iff s "")

pub session-IsObject :
    (sha256 : String → String) (p : Predecessor) → IsValid sha256 p → IsObject p.session
unfolding digest_checks
session-IsObject sha256 p v =
    let checked = IsValid-Checked sha256 p v in
    let anchors = Anchors-bindings p checked.bindings in
    IsObject-hash "package_digest" p.session (
      rw (anchors.package_digest, ← anchors.manifest_package)
        (passed _ (or-eq-false _ _ checked.digests.0).1))

module _ (p : Predecessor) (s : Successor) (d : Derived p s) (h : IsObject p.session)
    (a : Anchors p) (inked : is_inked_text (get "checkpoint_id" p.checkpoint) ≡ true) where
  pub successor_sequence : checkpoint_sequence_is_valid s.checkpoint ≡ true
  unfolding checkpoint_sequence_is_valid
  successor_sequence =
      let r = successor-Reads p s d in
      sequence_valid (get "checkpoint_sequence" p.checkpoint) s.checkpoint
        (and-eq-true _ _ a.positive).0 r.sequence (rw r.parent inked)

  successor_session_id :
      strict_eq (get "session_id" s.session) (get "session_id" s.checkpoint) ≡ true
  successor_session_id =
      let r = successor-Reads p s d in
      let c = successor-Carries p s d h in
      rw (c.same.session_id, (d.base_same h).session_id, r.session_id) a.session_id

  successor_packages :
      (strict_eq (get "package_digest" s.session) (get "canonical_package_digest" s.context) ≡ true)
      × (strict_eq (get "package_digest" s.checkpoint) (get "canonical_package_digest" s.context)
          ≡ true)
  successor_packages =
      let r = successor-Reads p s d in
      let c = successor-Carries p s d h in
      (
        rw (c.same.package_digest, (d.base_same h).package_digest, d.context, a.package_digest)
            a.package_self,
        rw (r.package_digest, d.context) a.package_self,
      )

  successor_candidates :
      (strict_eq (get "selected_candidate_id" s.session) (get "selected_candidate_id" s.context)
        ≡ true)
      × (strict_eq
            (get "selected_candidate_id" s.checkpoint)
            (get "selected_candidate_id" s.context)
          ≡ true)
  successor_candidates =
      let r = successor-Reads p s d in
      let c = successor-Carries p s d h in
      (
        rw (c.same.candidate, (d.base_same h).candidate, d.context, a.candidate) a.candidate_self,
        rw (r.candidate, d.context) a.candidate_self,
      )

  successor_batch : strict_eq (get "batch_id" s.checkpoint) (batch_id s.context) ≡ true
  successor_batch = let r = successor-Reads p s d in rw (r.batch, d.context) a.batch_self

  -- The state of a successor is a text, so it equals itself.
  pub successor_state :
      strict_eq (get "runtime_state" s.checkpoint) (get "runtime_state" s.checkpoint) ≡ true
  successor_state =
      let r = successor-Reads p s d in rw r.state (strict_eq_refl d.input.state d.state)

  pub successor_id :
      strict_eq (get "checkpoint_id" s.checkpoint) (get "checkpoint_id" s.checkpoint) ≡ true
  unfolding checkpoint_id
  successor_id = let r = successor-Reads p s d in rw r.id (strict_eq_text _)

  pub successor_number :
      strict_eq (get "checkpoint_sequence" s.checkpoint) (get "checkpoint_sequence" s.checkpoint)
      ≡ true
  unfolding checkpoint_sequence_is_valid
  successor_number = strict_eq_positive _ (and-eq-true _ _ successor_sequence).0

  module _ (sha256 : String → String) (m : Value)
      (b : Bound sha256 (successor_input p s) s.context s.checkpoint p.manifest m) where
    successor_states :
        (strict_eq (get "runtime_state" s.session) (get "runtime_state" s.checkpoint) ≡ true)
        × (strict_eq (get "current_state" s.session) (get "runtime_state" s.checkpoint) ≡ true)
        × (strict_eq (get "current_runtime_state" m) (get "runtime_state" s.checkpoint) ≡ true)
    successor_states =
        let c = successor-Carries p s d h in
        (
          rw c.runtime_state successor_state,
          rw c.current_state successor_state,
          rw b.state successor_state,
        )

    successor_digests :
        (strict_eq (get "runtime_context_digest" m) (get "context_digest" s.context) ≡ true)
        × (strict_eq (get "current_checkpoint_id" m) (get "checkpoint_id" s.checkpoint) ≡ true)
        × (strict_eq (get "current_checkpoint_sequence" m) (get "checkpoint_sequence" s.checkpoint)
            ≡ true)
    successor_digests = (
      rw (b.context_digest, d.context) a.context_self,
      rw b.checkpoint_id successor_id,
      rw b.sequence successor_number,
    )

    successor_manifest_bindings :
        (strict_eq (get "active_batch_id" m) (batch_id s.context) ≡ true)
        × (strict_eq (get "canonical_package_digest" m) (get "canonical_package_digest" s.context)
            ≡ true)
        × (strict_eq (get "selected_candidate_id" m) (get "selected_candidate_id" s.context) ≡ true)
    successor_manifest_bindings = (
      rw (b.batch, d.context) a.batch_self,
      rw (b.package_digest, d.context) a.package_self,
      rw (b.candidate, d.context) a.candidate_self,
    )

    -- No binding of the successor's generation is reported.
    pub successor-binding_checks : All Clear (
        binding_checks (record {
          manifest = m;
          context = s.context;
          session = s.session;
          checkpoint = s.checkpoint;
        }))
    unfolding binding_checks same_json
    successor-binding_checks =
        let c = successor-Carries p s d h in
        let (session_package, checkpoint_package) = successor_packages in
        let (session_candidate, checkpoint_candidate) = successor_candidates in
        let (session_state, current_state, manifest_state) = successor_states in
        let (digest, id, number) = successor_digests in
        let (batch, package', candidate) = successor_manifest_bindings in
        (
          passes _ successor_sequence,
          (
            passes _ (rw c.embeds (str_eq_refl _)),
            (
              passes _ successor_session_id,
              (
                neither _ _ (passes _ session_package) (passes _ checkpoint_package),
                (
                  neither _ _ (passes _ session_candidate) (passes _ checkpoint_candidate),
                  (
                    neither _ _ (passes _ successor_batch) (passes _ batch),
                    (
                      neither _ _ (passes _ session_state)
                          (neither _ _ (passes _ current_state) (passes _ manifest_state)),
                      (
                        neither _ _ (passes _ digest) (neither _ _ (passes _ id) (passes _ number)),
                        (neither _ _ (passes _ package') (passes _ candidate), tt),
                      ),
                    ),
                  ),
                ),
              ),
            ),
          ),
        )
