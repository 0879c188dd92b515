-- ===== src/Lifecycle/Successor.antt =====
-- The generation that a planned successor becomes passes the validation of its generation.
use native.Mathlib.Numerals.{towards_suc}
use ev4_builder_assistant_re.Base.{
  ℕ, suc, zero, ◌+◌, ◌≤◌, String, true, false, not, List, [], ◌∷◌, ◌++◌, ◌≡◌, refl, ◌∙◌, arith,
  some, or-eq-false, and-eq-true, All, All-append,
}
use ev4_builder_assistant_re.Canonical.{canonical_digest, digest_without}
use ev4_builder_assistant_re.Diagnostics.{
  ◌reports◌, Clear, failures-eq-nil, passes, passed, neither,
}
use ev4_builder_assistant_re.Json.{
  Value, num, str, get, strict_eq, is_string, is_integer, is_positive,
}
use ev4_builder_assistant_re.Json.Laws.{strict_eq_text, strict_eq_num}
use ev4_builder_assistant_re.Primitives.Checkpoint.{is_inked_text, checkpoint_sequence_is_valid}
use ev4_builder_assistant_re.Primitives.Manifest.{generation_entry}
use ev4_builder_assistant_re.Primitives.Manifest.Fields.{Bound, build_manifest-Bound}
use ev4_builder_assistant_re.Primitives.Names.{is_hash, generation_ref}
use ev4_builder_assistant_re.Planner.Types.{Predecessor, Successor}
use ev4_builder_assistant_re.Validation.Manifest.{
  hash_ok, generation_bound, minus_one, source_checks, digest_checks, generation_checks, state_ref,
  manifest_checks, validate_manifest_shape,
}
use ev4_builder_assistant_re.Validation.Generation.{
  Generation, context_checks, binding_checks, validate_generation,
}
use ev4_builder_assistant_re.Lifecycle.Derived.{Derived}
use ev4_builder_assistant_re.Lifecycle.Bindings.{
  Anchors, Anchors-bindings, hash_ok_text, session-IsObject, successor_id, successor_number,
  successor_state, successor_sequence, successor-binding_checks,
}
use ev4_builder_assistant_re.Lifecycle.Valid.{
  IsValid, Checked, IsValid-Checked, manifest-IsObject, generation_bound-range,
}
use ev4_builder_assistant_re.Store.Snapshot.{successor_input, successor_manifest}

-- A manifest that names the same run and source is checked alike.
source_checks-eq :
    (m n : Value)
    → get "schema" m ≡ get "schema" n
    → get "run_id" m ≡ get "run_id" n
    → get "source_mode" m ≡ get "source_mode" n
    → get "source_snapshot_sha256" m ≡ get "source_snapshot_sha256" n
    → get "receipt_snapshot_ref" m ≡ get "receipt_snapshot_ref" n
    → get "receipt_snapshot_sha256" m ≡ get "receipt_snapshot_sha256" n
    → source_checks m ≡ source_checks n
unfolding source_checks
source_checks-eq m n schema run mode sha ref receipt = simp (schema, run, mode, sha, ref, receipt)

is_string_of_inked : (v : Value) → is_inked_text v ≡ true → is_string v ≡ true
unfolding is_inked_text is_string
is_string_of_inked (str s) h = refl
is_string_of_inked _ h = cc

is_integer_of_positive : (v : Value) → is_positive v ≡ true → is_integer v ≡ true
unfolding is_positive is_integer
is_integer_of_positive (num n) h = refl
is_integer_of_positive _ h = cc

pub generation_bound_ref :
    (n : ℕ) (ref : String) → generation_ref n ≡ some ref → generation_bound (num n) (str ref) ≡ true
unfolding generation_bound
generation_bound_ref n ref h = rw (generation_bound, h) (strict_eq_text ref)

-- The number of a successor is not 1, and one less is its predecessor's.
later_number :
    (n : ℕ) → 1 ≤ n → (strict_eq (num (n + 1)) (num 1) ≡ false) × (minus_one (num (n + 1)) ≡ num n)
unfolding strict_eq minus_one
later_number zero h = absurd (omega arith)
later_number (suc n) h = (ground arith, simp towards_suc)

module _ (sha256 : String → String) (hashes : (t : String) → is_hash (sha256 t) ≡ true)
    (p : Predecessor) (s : Successor) (d : Derived p s) (v : IsValid sha256 p) (m : Value)
    (built : successor_manifest sha256 p s ≡ some m) where
  checked : Checked sha256 p
  checked = IsValid-Checked sha256 p v

  anchors : Anchors p
  anchors = Anchors-bindings p checked.bindings

  bound : Bound sha256 (successor_input p s) s.context s.checkpoint p.manifest m
  unfolding successor_manifest
  bound =
      build_manifest-Bound sha256 (successor_input p s) s.context s.checkpoint p.manifest refl
        (manifest-IsObject sha256 p v) m built

  successor-source_checks : All Clear (source_checks m)
  unfolding successor_input
  successor-source_checks =
      rw
        (source_checks-eq m p.manifest (bound.schema ∙ d.protects.schema _)
          (bound.run_id ∙ d.protects.run_id _) (bound.source_mode ∙ d.protects.source_mode _)
          (bound.source_sha ∙ d.protects.source_sha _)
          (bound.receipt_ref ∙ d.protects.receipt_ref _)
          (bound.receipt_sha ∙ d.protects.receipt_sha _))
        checked.source

  range : 1 ≤ p.generation
  unfolding digest_checks
  range =
      let bounded = passed _ checked.digests.1.1.1.0 in
      (generation_bound-range p.generation (get "ref" (get "generation" p.manifest))
        (rw checked.number at bounded)).0

  context_digest_ok : hash_ok (get "runtime_context_digest" m) ≡ true
  unfolding context_checks
  context_digest_ok =
      rw (bound.context_digest, d.context) (passed _ (or-eq-false _ _ checked.context.1.0).0)

  package_digest_ok : hash_ok (get "canonical_package_digest" m) ≡ true
  unfolding digest_checks
  package_digest_ok =
      rw (bound.package_digest, d.context, ← anchors.manifest_package)
        (passed _ (or-eq-false _ _ checked.digests.0).1)

  sequence_ok : is_positive (get "current_checkpoint_sequence" m) ≡ true
  unfolding checkpoint_sequence_is_valid
  sequence_ok =
      rw bound.sequence
        (and-eq-true _ _ (successor_sequence p s d (session-IsObject sha256 p v) anchors v.named)).0

  own_digest_ok : hash_ok (get "manifest_digest" m) ≡ true
  unfolding digest_without canonical_digest
  own_digest_ok = rw (bound.digest, hash_ok_text) (hashes _)

  own_digest_same :
      strict_eq (get "manifest_digest" m) (str (digest_without sha256 m "manifest_digest")) ≡ true
  own_digest_same = rw bound.digest (strict_eq_text _)

  number_ok :
      generation_bound (get "number" (get "generation" m)) (get "ref" (get "generation" m)) ≡ true
  unfolding generation_entry get successor_input
  number_ok = rw bound.generation (generation_bound_ref (p.generation + 1) bound.ref bound.named)

  successor-digest_checks : All Clear (digest_checks sha256 m)
  unfolding digest_checks
  successor-digest_checks = (
    neither _ _ (passes _ context_digest_ok) (passes _ package_digest_ok),
    (
      passes _ sequence_ok,
      (neither _ _ (passes _ own_digest_ok) (passes _ own_digest_same), (passes _ number_ok, tt)),
    ),
  )

  abbrev entry : String → Value
  entry ref = generation_entry (successor_input p s) ref s.checkpoint

  later_entry :
      (ref : String)
      → (strict_eq (get "number" (entry ref)) (num 1) ≡ false)
        × (strict_eq
              (get "predecessor_generation" (entry ref))
              (minus_one (get "number" (entry ref)))
            ≡ true)
        × (is_string (get "predecessor_checkpoint_id" (entry ref)) ≡ true)
        × (is_integer (get "predecessor_checkpoint_sequence" (entry ref)) ≡ true)
  unfolding generation_entry get successor_input checkpoint_sequence_is_valid
  later_entry ref =
      let (later, less) = later_number p.generation range in
      (
        later,
        rw less (strict_eq_num _),
        is_string_of_inked _ v.named,
        is_integer_of_positive _ (and-eq-true _ _ anchors.positive).0,
      )

  same_entry :
      (ref : String)
      → (strict_eq (get "resulting_checkpoint_id" (entry ref)) (get "current_checkpoint_id" m)
          ≡ true)
        × (strict_eq
              (get "resulting_checkpoint_sequence" (entry ref))
              (get "current_checkpoint_sequence" m)
            ≡ true)
        × (strict_eq (get "runtime_state" (entry ref)) (get "current_runtime_state" m) ≡ true)
  unfolding generation_entry get
  same_entry ref = (
    rw bound.checkpoint_id (successor_id p s d (session-IsObject sha256 p v) anchors v.named),
    rw bound.sequence (successor_number p s d (session-IsObject sha256 p v) anchors v.named),
    rw bound.state (successor_state p s d (session-IsObject sha256 p v) anchors v.named),
  )

  entry_refs :
      (strict_eq (get "runtime_context_ref" m) (state_ref (entry bound.ref) "/runtime-context.json")
        ≡ true)
      × (strict_eq (get "session_ref" m) (state_ref (entry bound.ref) "/session-state.json") ≡ true)
      × (strict_eq (get "checkpoint_ref" m) (state_ref (entry bound.ref) "/checkpoint.json") ≡ true)
  unfolding generation_entry get
  entry_refs = (
    rw bound.context_ref (strict_eq_text _),
    rw bound.session_ref (strict_eq_text _),
    rw bound.checkpoint_ref (strict_eq_text _),
  )

  successor-generation_checks : All Clear (generation_checks m)
  unfolding generation_checks
  successor-generation_checks =
      let (later, less, named, number) = later_entry bound.ref in
      let (id, sequence, state) = same_entry bound.ref in
      let (context_ref, session_ref, checkpoint_ref) = entry_refs in
      rw (bound.generation, later)
        (
          neither _ _ (passes _ less) (neither _ _ (passes _ named) (passes _ number)),
          (
            neither _ _ (passes _ id) (neither _ _ (passes _ sequence) (passes _ state)),
            (
              neither _ _ (passes _ context_ref)
                  (neither _ _ (passes _ session_ref) (passes _ checkpoint_ref)),
              tt,
            ),
          ),
        )

  abbrev pub next_generation : Generation
  next_generation = record {
    manifest = m;
    context = s.context;
    session = s.session;
    checkpoint = s.checkpoint;
  }

  next_number : strict_eq (get "number" (get "generation" m)) (num (p.generation + 1)) ≡ true
  unfolding generation_entry get successor_input
  next_number = rw bound.generation (strict_eq_num _)

  next-manifest_checks : validate_manifest_shape sha256 m ≡ []
  unfolding validate_manifest_shape manifest_checks
  next-manifest_checks = (failures-eq-nil _).1 (
      All-append Clear (source_checks m) _ successor-source_checks (
        All-append Clear (digest_checks sha256 m) _ successor-digest_checks
          successor-generation_checks))

  -- The generation of a successor has no diagnostic but those of the state schemas.
  pub successor-validate_generation :
      (problems : List String)
      → validate_generation sha256 problems (num (p.generation + 1)) next_generation ≡ problems
  unfolding validate_generation
  successor-validate_generation problems =
      let contexts : All Clear (context_checks sha256 s.context) = rw d.context checked.context in
      let bindings =
        successor-binding_checks p s d (session-IsObject sha256 p v) anchors v.named sha256 m
          bound in
      let all =
        (failures-eq-nil (
            (not (strict_eq (get "number" (get "generation" m)) (num (p.generation + 1)))
              reports "RUN-GENERATION-002")
            ∷ (context_checks sha256 s.context ++ binding_checks next_generation))).1
          (
            passes _ next_number,
            All-append Clear (context_checks sha256 s.context) _ contexts bindings,
          ) in
      rw (next-manifest_checks, all) refl
