-- ===== src/Lifecycle/Initial.antt =====
-- The first generation of a run, as intake makes it.
use ev4_builder_assistant_re.Base.{
  String, true, not, [], ◌∷◌, ◌++◌, ◌≡◌, ◌≢◌, refl, ap, ◌∙◌, none, some, Option-cases, inl, inr,
  All, All-append, Bool-cases, str_eq_refl, if◌then◌else◌, codes-append,
}
use ev4_builder_assistant_re.Canonical.{canonical_digest, digest_without}
use ev4_builder_assistant_re.Diagnostics.{◌reports◌, Clear, failures-eq-nil, passes, neither}
use ev4_builder_assistant_re.Json.{
  Value, null, num, str, get, strict_eq, truthy, is_string, has_length, is_positive,
}
use ev4_builder_assistant_re.Json.Laws.{IsText, strict_eq_text, strict_eq_num, strict_eq_refl}
use ev4_builder_assistant_re.Primitives.Checkpoint.{
  build_active, build_checkpoint, build_session, checkpoint_id, checkpoint_sequence_is_valid,
}
use ev4_builder_assistant_re.Primitives.Manifest.{
  ManifestInput, initial_manifest, build_manifest, build_current_pointer, generation_entry,
}
use ev4_builder_assistant_re.Primitives.Manifest.Fields.{Bound, initial_manifest-Bound}
use ev4_builder_assistant_re.Primitives.Names.{is_hash, generation_ref}
use ev4_builder_assistant_re.Primitives.Sources.{project_gate}
use ev4_builder_assistant_re.Planner.Types.{Predecessor, batch_id}
use ev4_builder_assistant_re.Planner.Prepare.{unprepared}
use ev4_builder_assistant_re.Planner.Confirm.{same_json}
use ev4_builder_assistant_re.Store.Intake.{
  Stage, initial_checkpoint_input, initial_input, receipt_sha_of, run_id_of, session_id_of,
  intake_result, intake_result_refs, initial_checkpoint, initial_session, initialize_stage,
  Initialized,
}
use ev4_builder_assistant_re.Validation.Generation.{
  Generation, context_checks, binding_checks, validate_generation,
}
use ev4_builder_assistant_re.Validation.Manifest.{
  hash_ok, is_name, generation_bound, source_checks, digest_checks, generation_checks, state_ref,
  manifest_checks, validate_manifest_shape,
}
use ev4_builder_assistant_re.Lifecycle.Admitted.{Admitted, run_of}
use ev4_builder_assistant_re.Lifecycle.Bindings.{hash_ok_text}
use ev4_builder_assistant_re.Lifecycle.Fields.{checkpoint_id_inked}
use ev4_builder_assistant_re.Lifecycle.Phases.{At, drafted, truthy_text}
use ev4_builder_assistant_re.Lifecycle.Successor.{generation_bound_ref}
use ev4_builder_assistant_re.Lifecycle.Valid.{IsValid}

null_itself : strict_eq null null ≡ true
unfolding strict_eq
null_itself = refl

module _ (sha256 : String → String) (hashes : (t : String) → is_hash (sha256 t) ≡ true) where
  module _ (i : Stage) (a : Admitted sha256 i) (m : Value)
      (built : build_manifest sha256
          (initial_input i
            (str (run_id_of sha256 i))
            (str (sha256 i.selected))
            (receipt_sha_of sha256 i))
          i.context
          (initial_checkpoint sha256 i)
        ≡ some m) where
    abbrev input : ManifestInput
    input =
        initial_input i (str (run_id_of sha256 i)) (str (sha256 i.selected))
          (receipt_sha_of sha256 i)

    bound : Bound sha256 input i.context (initial_checkpoint sha256 i) (initial_manifest input) m
    unfolding initial_input
    bound = initial_manifest-Bound sha256 input i.context (initial_checkpoint sha256 i) m refl built

    first-context_checks : All Clear (context_checks sha256 i.context)
    unfolding context_checks canonical_digest digest_without
    first-context_checks = (
      neither _ _ (passes _ (rw a.schema (strict_eq_text _)))
          (passes _ (rw a.runtime_mode (strict_eq_text _))),
      (
        neither _ _ (passes _ (rw (a.digest, hash_ok_text) (hashes _)))
            (passes _ (rw a.digest (strict_eq_text _))),
        tt,
      ),
    )

    run_id-named : is_name (str (run_id_of sha256 i)) ≡ true
    unfolding is_name is_string run_id_of
    run_id-named = truthy_text _ (rw codes-append refl)

    record Written : Type 0 where
      pub schema : get "schema" m ≡ str "ev4-builder-run-manifest@1.0.0"
      pub run_id : get "run_id" m ≡ str (run_id_of sha256 i)
      pub mode : get "source_mode" m ≡ i.source_mode
      pub source : get "source_snapshot_sha256" m ≡ str (sha256 i.selected)
      pub receipt_ref : get "receipt_snapshot_ref" m ≡ (
          if strict_eq i.source_mode project_gate
          then str "source/project-gate-receipt.json"
          else null)
      pub receipt_sha :
          get "receipt_snapshot_sha256" m
          ≡ (if strict_eq i.source_mode project_gate then str (sha256 i.receipt) else null)

    written : Written
    unfolding initial_manifest initial_input receipt_sha_of get
    written = record {
      schema = bound.schema;
      run_id = bound.run_id;
      mode = bound.source_mode;
      source = bound.source_sha;
      receipt_ref = bound.receipt_ref;
      receipt_sha = bound.receipt_sha;
    }

    hash_of : (t : String) → hash_ok (str (sha256 t)) ≡ true
    hash_of t = hash_ok_text (sha256 t) ∙ hashes t

    -- The receipt of the manifest fits the mode.
    first-source_checks : All Clear (source_checks m)
    unfolding source_checks
    first-source_checks =
        let schema = passes _ (rw written.schema (strict_eq_text _)) in
        let named = passes _ (rw written.run_id run_id-named) in
        let mode = passes _ (rw written.mode a.mode) in
        let source = passes _ (rw written.source (hash_of _)) in
        elim (Bool-cases (strict_eq i.source_mode project_gate)) [
          | inl gate ↦
              let ref : strict_eq (get "receipt_snapshot_ref" m)
                    (str "source/project-gate-receipt.json")
                  ≡ true =
                rw (written.receipt_ref, gate) (strict_eq_text _) in
              let sha : hash_ok (get "receipt_snapshot_sha256" m) ≡ true =
                rw (written.receipt_sha, gate) (hash_of _) in
              (
                schema,
                (
                  named,
                  (
                    mode,
                    (
                      source,
                      rw (written.mode, gate) (neither _ _ (passes _ ref) (passes _ sha), tt),
                    ),
                  ),
                ),
              )
          | inr other ↦
              let ref : strict_eq (get "receipt_snapshot_ref" m) null ≡ true =
                rw (written.receipt_ref, other) null_itself in
              let sha : strict_eq (get "receipt_snapshot_sha256" m) null ≡ true =
                rw (written.receipt_sha, other) null_itself in
              (
                schema,
                (
                  named,
                  (
                    mode,
                    (
                      source,
                      rw (written.mode, other) (neither _ _ (passes _ ref) (passes _ sha), tt),
                    ),
                  ),
                ),
              )
        ]

    number_ok :
        generation_bound (get "number" (get "generation" m)) (get "ref" (get "generation" m)) ≡ true
    unfolding generation_entry get initial_input
    number_ok = rw bound.generation (generation_bound_ref 1 bound.ref bound.named)

    abbrev cp : Value
    cp = initial_checkpoint sha256 i

    abbrev session : Value
    session = initial_session sha256 i

    record Reads : Type 0 where
      pub id : get "checkpoint_id" cp ≡ checkpoint_id (str (run_id_of sha256 i)) (num 1)
      pub sequence : get "checkpoint_sequence" cp ≡ num 1
      pub parent : get "parent_checkpoint_id" cp ≡ null
      pub state : get "runtime_state" cp ≡ build_active
      pub batch : get "batch_id" cp ≡ batch_id i.context
      pub candidate : get "selected_candidate_id" cp ≡ get "selected_candidate_id" i.context
      pub package_digest : get "package_digest" cp ≡ get "canonical_package_digest" i.context
      pub session_id : get "session_id" cp ≡ str (session_id_of sha256 i)
      pub session_session : get "session_id" session ≡ str (session_id_of sha256 i)
      pub session_package : get "package_digest" session ≡ get "canonical_package_digest" i.context
      pub session_candidate :
          get "selected_candidate_id" session ≡ get "selected_candidate_id" i.context
      pub session_state : get "runtime_state" session ≡ build_active
      pub session_current : get "current_state" session ≡ build_active
      pub embedded : get "last_verified_checkpoint" session ≡ cp

    reads : Reads
    unfolding initial_checkpoint initial_checkpoint_input build_checkpoint initial_session
        build_session get
    reads = record {
      id = refl;
      sequence = refl;
      parent = refl;
      state = refl;
      batch = refl;
      candidate = refl;
      package_digest = refl;
      session_id = refl;
      session_session = refl;
      session_package = refl;
      session_candidate = refl;
      session_state = refl;
      session_current = refl;
      embedded = refl;
    }

    first-digest_checks : All Clear (digest_checks sha256 m)
    unfolding digest_checks digest_without canonical_digest is_positive
    first-digest_checks =
        let context : hash_ok (get "runtime_context_digest" m) ≡ true =
          rw (bound.context_digest, a.digest) (hash_of _) in
        let package' : hash_ok (get "canonical_package_digest" m) ≡ true =
          rw bound.package_digest a.package_hash in
        let own : hash_ok (get "manifest_digest" m) ≡ true = rw bound.digest (hash_of _) in
        let same : strict_eq (get "manifest_digest" m)
              (str (digest_without sha256 m "manifest_digest"))
            ≡ true =
          rw bound.digest (strict_eq_text _) in
        (
          neither _ _ (passes _ context) (passes _ package'),
          (
            passes _ (rw (bound.sequence, reads.sequence) refl),
            (neither _ _ (passes _ own) (passes _ same), (passes _ number_ok, tt)),
          ),
        )

    abbrev entry : Value
    entry = generation_entry input bound.ref cp

    first_entry :
        (strict_eq (get "number" entry) (num 1) ≡ true)
        × (strict_eq (get "predecessor_generation" entry) null ≡ true)
        × (strict_eq (get "predecessor_checkpoint_id" entry) null ≡ true)
        × (strict_eq (get "predecessor_checkpoint_sequence" entry) null ≡ true)
    unfolding generation_entry initial_input get strict_eq
    first_entry = (refl, refl, refl, refl)

    same_entry :
        (strict_eq (get "resulting_checkpoint_id" entry) (get "current_checkpoint_id" m) ≡ true)
        × (strict_eq
              (get "resulting_checkpoint_sequence" entry)
              (get "current_checkpoint_sequence" m)
            ≡ true)
        × (strict_eq (get "runtime_state" entry) (get "current_runtime_state" m) ≡ true)
    unfolding generation_entry get checkpoint_id
    same_entry = (
      rw (bound.checkpoint_id, reads.id) (strict_eq_text _),
      rw (bound.sequence, reads.sequence) (strict_eq_num 1),
      rw (bound.state, reads.state) (strict_eq_text _),
    )

    entry_refs :
        (strict_eq (get "runtime_context_ref" m) (state_ref entry "/runtime-context.json") ≡ true)
        × (strict_eq (get "session_ref" m) (state_ref entry "/session-state.json") ≡ true)
        × (strict_eq (get "checkpoint_ref" m) (state_ref entry "/checkpoint.json") ≡ true)
    unfolding generation_entry get
    entry_refs = (
      rw bound.context_ref (strict_eq_text _),
      rw bound.session_ref (strict_eq_text _),
      rw bound.checkpoint_ref (strict_eq_text _),
    )

    first-generation_checks : All Clear (generation_checks m)
    unfolding generation_checks
    first-generation_checks =
        let (first, generation, named, number) = first_entry in
        let (id, sequence, state) = same_entry in
        let (context_ref, session_ref, checkpoint_ref) = entry_refs in
        rw (bound.generation, first)
          (
            neither _ _ (passes _ generation) (neither _ _ (passes _ named) (passes _ number)),
            (
              neither _ _ (passes _ id) (neither _ _ (passes _ sequence) (passes _ state)),
              (
                neither _ _ (passes _ context_ref)
                    (neither _ _ (passes _ session_ref) (passes _ checkpoint_ref)),
                tt,
              ),
            ),
          )

    abbrev first_generation : Generation
    first_generation = record {
      manifest = m;
      context = i.context;
      session = session;
      checkpoint = cp;
    }

    self :
        (k : String)
        → IsText (get k i.context)
        → strict_eq (get k i.context) (get k i.context) ≡ true
    self k text = strict_eq_refl (get k i.context) text

    first_states :
        (strict_eq (get "runtime_state" session) (get "runtime_state" cp) ≡ true)
        × (strict_eq (get "current_state" session) (get "runtime_state" cp) ≡ true)
        × (strict_eq (get "current_runtime_state" m) (get "runtime_state" cp) ≡ true)
    first_states = (
      rw (reads.session_state, reads.state) (strict_eq_text _),
      rw (reads.session_current, reads.state) (strict_eq_text _),
      rw (bound.state, reads.state) (strict_eq_text _),
    )

    first_digests :
        (strict_eq (get "runtime_context_digest" m) (get "context_digest" i.context) ≡ true)
        × (strict_eq (get "current_checkpoint_id" m) (get "checkpoint_id" cp) ≡ true)
        × (strict_eq (get "current_checkpoint_sequence" m) (get "checkpoint_sequence" cp) ≡ true)
    unfolding checkpoint_id
    first_digests = (
      rw (bound.context_digest, a.digest) (strict_eq_text _),
      rw (bound.checkpoint_id, reads.id) (strict_eq_text _),
      rw (bound.sequence, reads.sequence) (strict_eq_num 1),
    )

    first_names :
        (strict_eq (get "package_digest" session) (get "canonical_package_digest" i.context) ≡ true)
        × (strict_eq (get "package_digest" cp) (get "canonical_package_digest" i.context) ≡ true)
        × (strict_eq (get "selected_candidate_id" session) (get "selected_candidate_id" i.context)
            ≡ true)
        × (strict_eq (get "selected_candidate_id" cp) (get "selected_candidate_id" i.context)
            ≡ true)
        × (strict_eq (get "batch_id" cp) (batch_id i.context) ≡ true)
    first_names = (
      rw reads.session_package (self _ a.package_text),
      rw reads.package_digest (self _ a.package_text),
      rw reads.session_candidate (self _ a.candidate),
      rw reads.candidate (self _ a.candidate),
      rw reads.batch (strict_eq_refl _ a.batch),
    )

    first_manifest_names :
        (strict_eq (get "active_batch_id" m) (batch_id i.context) ≡ true)
        × (strict_eq (get "canonical_package_digest" m) (get "canonical_package_digest" i.context)
            ≡ true)
        × (strict_eq (get "selected_candidate_id" m) (get "selected_candidate_id" i.context) ≡ true)
    first_manifest_names = (
      rw bound.batch (strict_eq_refl _ a.batch),
      rw bound.package_digest (self _ a.package_text),
      rw bound.candidate (self _ a.candidate),
    )

    first_sequence : checkpoint_sequence_is_valid cp ≡ true
    unfolding checkpoint_sequence_is_valid is_positive strict_eq
    first_sequence = rw (reads.sequence, reads.parent) refl

    first-binding_checks : All Clear (binding_checks first_generation)
    unfolding binding_checks same_json
    first-binding_checks =
        let (session_package, package', session_candidate, candidate, batch) = first_names in
        let (manifest_batch, manifest_package, manifest_candidate) = first_manifest_names in
        let (session_state, current, manifest_state) = first_states in
        let (digest, id, number) = first_digests in
        let ids : strict_eq (get "session_id" session) (get "session_id" cp) ≡ true =
          rw (reads.session_session, reads.session_id) (strict_eq_text _) in
        (
          passes _ first_sequence,
          (
            passes _ (rw reads.embedded (str_eq_refl _)),
            (
              passes _ ids,
              (
                neither _ _ (passes _ session_package) (passes _ package'),
                (
                  neither _ _ (passes _ session_candidate) (passes _ candidate),
                  (
                    neither _ _ (passes _ batch) (passes _ manifest_batch),
                    (
                      neither _ _ (passes _ session_state)
                          (neither _ _ (passes _ current) (passes _ manifest_state)),
                      (
                        neither _ _ (passes _ digest) (neither _ _ (passes _ id) (passes _ number)),
                        (neither _ _ (passes _ manifest_package) (passes _ manifest_candidate), tt),
                      ),
                    ),
                  ),
                ),
              ),
            ),
          ),
        )

    abbrev first_run : Predecessor
    first_run = record {
      manifest = m;
      context = i.context;
      session = session;
      checkpoint = cp;
      generation = 1;
      planning = unprepared;
    }

    first-manifest_checks : validate_manifest_shape sha256 m ≡ []
    unfolding validate_manifest_shape manifest_checks
    first-manifest_checks = (failures-eq-nil _).1 (
        All-append Clear (source_checks m) _ first-source_checks
          (All-append Clear (digest_checks sha256 m) _ first-digest_checks first-generation_checks))

    first_number : strict_eq (get "number" (get "generation" m)) (num 1) ≡ true
    first_number = rw bound.generation first_entry.0

    first-IsValid : IsValid sha256 first_run
    unfolding validate_generation
    first-IsValid =
        let all =
          (failures-eq-nil (
              (not (strict_eq (get "number" (get "generation" m)) (num 1))
                reports "RUN-GENERATION-002")
              ∷ (context_checks sha256 i.context ++ binding_checks first_generation))).1
            (
              passes _ first_number,
              All-append Clear (context_checks sha256 i.context) _ first-context_checks
                  first-binding_checks,
            ) in
        record {
          accepted = rw (first-manifest_checks, all) refl;
          named = rw reads.id (checkpoint_id_inked _ _);
        }

    first-At : At drafted first_run
    unfolding initial_manifest initial_input initial_checkpoint initial_checkpoint_input
        build_checkpoint get truthy has_length
    first-At = (refl, ap truthy bound.confirmation_ref, refl)

  abbrev made : Stage → Value → Initialized
  made i m = record {
    manifest = m;
    context = i.context;
    session = initial_session sha256 i;
    checkpoint = initial_checkpoint sha256 i;
    result =
        intake_result i (str (run_id_of sha256 i)) (str (sha256 i.selected))
          (receipt_sha_of sha256 i) (initial_checkpoint sha256 i)
          (intake_result_refs (run_id_of sha256 i) i.source_mode);
    current = build_current_pointer sha256 m i.context (initial_checkpoint sha256 i);
    refs = intake_result_refs (run_id_of sha256 i) i.source_mode;
  }

  made-initialized :
      (i : Stage) (m : Value)
      → build_manifest sha256
          (initial_input i
            (str (run_id_of sha256 i))
            (str (sha256 i.selected))
            (receipt_sha_of sha256 i))
          i.context
          (initial_checkpoint sha256 i)
        ≡ some m
      → initialize_stage sha256 i ≡ some (made i m)
  unfolding initialize_stage initial_session initial_checkpoint intake_result build_current_pointer
      intake_result_refs
  made-initialized i m built = rw (initialize_stage, built) refl

  first_in_range :
      (n : ManifestInput) (context checkpoint : Value)
      → n.generation ≡ 1
      → build_manifest sha256 n context checkpoint ≢ none
  unfolding build_manifest generation_ref
  first_in_range n context checkpoint first out = absurd (cc (rw (build_manifest, first) at out))

  -- Intake of an admitted source makes a valid run whose batch is drafted.
  pub initialize_stage-IsValid :
      (i : Stage)
      → Admitted sha256 i
      → (r : Initialized) × (initialize_stage sha256 i ≡ some r)
        × IsValid sha256 (run_of r)
        × At drafted (run_of r)
  unfolding initial_input
  initialize_stage-IsValid i a =
      elim (Option-cases (
        build_manifest sha256
          (initial_input i (str (run_id_of sha256 i)) (str (sha256 i.selected))
            (receipt_sha_of sha256 i))
          i.context (initial_checkpoint sha256 i))) [
            | inl out ↦ absurd (first_in_range _ _ _ refl out)
            | inr (m, built) ↦ (
              made i m,
              made-initialized i m built,
              first-IsValid i a m built,
              first-At i a m built,
            )
          ]
