-- ===== src/Lifecycle/Pointer.antt =====
-- The pointer CURRENT.json that a builder writes for a valid generation.
use ev4_builder_assistant_re.Base.{String, true, [], ◌≡◌, refl, or-eq-false, and-eq-true}
use ev4_builder_assistant_re.Canonical.{digest_without, canonical_digest}
use ev4_builder_assistant_re.Diagnostics.{failures-eq-nil, passes, passed, neither}
use ev4_builder_assistant_re.Json.{Value, str, get, strict_eq}
use ev4_builder_assistant_re.Json.Laws.{strict_eq_text}
use ev4_builder_assistant_re.Primitives.Manifest.{undigested_pointer, build_current_pointer}
use ev4_builder_assistant_re.Primitives.Manifest.Fields.{sealed-digest, get-sealed}
use ev4_builder_assistant_re.Primitives.Names.{is_hash}
use ev4_builder_assistant_re.Primitives.Checkpoint.{checkpoint_sequence_is_valid}
use ev4_builder_assistant_re.Planner.Types.{Predecessor}
use ev4_builder_assistant_re.Validation.Generation.{context_checks}
use ev4_builder_assistant_re.Validation.Manifest.{hash_ok, source_checks, digest_checks}
use ev4_builder_assistant_re.Validation.Pointer.{pointer_checks, validate_current_pointer}
use ev4_builder_assistant_re.Lifecycle.Bindings.{Anchors-bindings, hash_ok_text}
use ev4_builder_assistant_re.Lifecycle.Valid.{IsValid, IsValid-Checked}

module _ (sha256 : String → String) (hashes : (t : String) → is_hash (sha256 t) ≡ true)
    (p : Predecessor) (v : IsValid sha256 p) where
  abbrev pointer : Value
  pointer = build_current_pointer sha256 p.manifest p.context p.checkpoint

  record Says : Type 0 where
    pub schema : get "schema" pointer ≡ str "ev4-builder-current-generation@1.0.0"
    pub run_id : get "run_id" pointer ≡ get "run_id" p.manifest
    pub generation : get "generation" pointer ≡ get "number" (get "generation" p.manifest)
    pub ref : get "generation_ref" pointer ≡ get "ref" (get "generation" p.manifest)
    pub manifest_digest : get "manifest_digest" pointer ≡ get "manifest_digest" p.manifest
    pub context_digest : get "context_digest" pointer ≡ get "context_digest" p.context
    pub sequence : get "checkpoint_sequence" pointer ≡ get "checkpoint_sequence" p.checkpoint
    pub digest : get "pointer_digest" pointer ≡ str (digest_without sha256 pointer "pointer_digest")

  says : Says
  unfolding build_current_pointer undigested_pointer get
  says =
      let u = undigested_pointer sha256 p.manifest p.context p.checkpoint in
      record {
        schema = get-sealed sha256 "pointer_digest" "schema" u refl tt;
        run_id = get-sealed sha256 "pointer_digest" "run_id" u refl tt;
        generation = get-sealed sha256 "pointer_digest" "generation" u refl tt;
        ref = get-sealed sha256 "pointer_digest" "generation_ref" u refl tt;
        manifest_digest = get-sealed sha256 "pointer_digest" "manifest_digest" u refl tt;
        context_digest = get-sealed sha256 "pointer_digest" "context_digest" u refl tt;
        sequence = get-sealed sha256 "pointer_digest" "checkpoint_sequence" u refl tt;
        digest = sealed-digest sha256 "pointer_digest" u tt;
      }

  -- When SHA-256 yields 64 hexadecimal digits, the pointer that is built for a valid run passes the
  -- validation of pointers.
  pub build_current_pointer-accepted :
      validate_current_pointer sha256
        (build_current_pointer sha256 p.manifest p.context p.checkpoint)
      ≡ []
  unfolding validate_current_pointer pointer_checks source_checks digest_checks context_checks
      canonical_digest digest_without checkpoint_sequence_is_valid
  build_current_pointer-accepted =
      let checked = IsValid-Checked sha256 p v in
      let anchors = Anchors-bindings p checked.bindings in
      let own_digest = or-eq-false _ _ checked.digests.1.1.0 in
      let context_digest = or-eq-false _ _ checked.context.1.0 in
      let hash : hash_ok (get "pointer_digest" pointer) ≡ true =
        rw (says.digest, hash_ok_text) (hashes _) in
      let own : strict_eq (get "pointer_digest" pointer)
            (str (digest_without sha256 pointer "pointer_digest"))
          ≡ true =
        rw says.digest (strict_eq_text _) in
      (failures-eq-nil (pointer_checks sha256 pointer)).1 (
        passes _ (rw says.schema (strict_eq_text _)),
        (
          rw says.run_id checked.source.1.0,
          (
            rw (says.generation, says.ref) checked.digests.1.1.1.0,
            (
              passes _ (rw says.manifest_digest (passed _ own_digest.0)),
              (
                passes _ (rw says.context_digest (passed _ context_digest.0)),
                (
                  passes _ hash,
                  (
                    neither _ _ (passes _ hash) (passes _ own),
                    (passes _ (rw says.sequence (and-eq-true _ _ anchors.positive).0), tt),
                  ),
                ),
              ),
            ),
          ),
        ),
      )
