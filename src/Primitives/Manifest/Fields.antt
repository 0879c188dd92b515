-- ===== src/Primitives/Manifest/Fields.antt =====
-- What a built manifest says, field by field, and that its digest is its own.
use mathlib.Core.Path.{subst}
use mathlib.Core.Option.{some-injective}
use ev4_builder_assistant_re.Base.{
  String, false, [], ◌∷◌, none, some, ◌≡◌, refl, sym, ap, ◌∙◌, inl, inr, Option-cases, template,
  arith, str_eq, str_eq_refl,
}
use ev4_builder_assistant_re.Canonical.{canonical_digest, digest_without}
use ev4_builder_assistant_re.Json.{Value, str, get, assign}
use ev4_builder_assistant_re.Json.Laws.{
  IsObject, last_write, get-put, get-assign, assign-IsObject, remove-put,
}
use ev4_builder_assistant_re.Primitives.Names.{generation_ref}
use ev4_builder_assistant_re.Primitives.Manifest.{
  ManifestInput, bindings, base_manifest, initial_manifest, generation_entry, undigested_manifest,
  sealed, build_manifest,
}

module _ (sha256 : String → String) where
  -- The digest that a builder writes last is the digest that a reader computes.
  pub sealed-digest :
      (k : String) (v : Value)
      → IsObject v
      → get k (sealed sha256 k v) ≡ str (digest_without sha256 (sealed sha256 k v) k)
  unfolding sealed digest_without
  sealed-digest k v h =
      get-put k k (str (digest_without sha256 v k)) v h
      ∙ rw (str_eq_refl k) (
          ap (λ w. str (canonical_digest sha256 w))
            (sym (remove-put k (str (digest_without sha256 v k)) v)))

  pub get-sealed :
      (k j : String) (v : Value)
      → str_eq k j ≡ false
      → IsObject v
      → get j (sealed sha256 k v) ≡ get j v
  unfolding sealed
  get-sealed k j v other h = get-put k j (str (digest_without sha256 v k)) v h ∙ rw other refl

  module _ (i : ManifestInput) (context checkpoint previous : Value) where
    -- The fields of a manifest built upon a previous one.
    pub record Bound (m : Value) : Type 0 where
      pub ref : String
      pub named : generation_ref i.generation ≡ some ref
      pub context_ref :
          get "runtime_context_ref" m ≡ str (template (ref ∷ "/runtime-context.json" ∷ []))
      pub session_ref : get "session_ref" m ≡ str (template (ref ∷ "/session-state.json" ∷ []))
      pub checkpoint_ref : get "checkpoint_ref" m ≡ str (template (ref ∷ "/checkpoint.json" ∷ []))
      pub context_digest : get "runtime_context_digest" m ≡ get "context_digest" context
      pub state : get "current_runtime_state" m ≡ get "runtime_state" checkpoint
      pub checkpoint_id : get "current_checkpoint_id" m ≡ get "checkpoint_id" checkpoint
      pub sequence : get "current_checkpoint_sequence" m ≡ get "checkpoint_sequence" checkpoint
      pub package_digest : get "canonical_package_digest" m ≡ get "canonical_package_digest" context
      pub candidate : get "selected_candidate_id" m ≡ get "selected_candidate_id" context
      pub batch : get "active_batch_id" m ≡ get "batch_id" (get "action_batch" context)
      pub generation : get "generation" m ≡ generation_entry i ref checkpoint
      pub digest : get "manifest_digest" m ≡ str (digest_without sha256 m "manifest_digest")
      pub schema : get "schema" m ≡ last_write "schema" i.updates (get "schema" previous)
      pub run_id : get "run_id" m ≡ last_write "run_id" i.updates (get "run_id" previous)
      pub source_mode :
          get "source_mode" m ≡ last_write "source_mode" i.updates (get "source_mode" previous)
      pub source_sha :
          get "source_snapshot_sha256" m
          ≡ last_write "source_snapshot_sha256" i.updates (get "source_snapshot_sha256" previous)
      pub receipt_ref :
          get "receipt_snapshot_ref" m
          ≡ last_write "receipt_snapshot_ref" i.updates (get "receipt_snapshot_ref" previous)
      pub receipt_sha :
          get "receipt_snapshot_sha256" m
          ≡ last_write "receipt_snapshot_sha256" i.updates (get "receipt_snapshot_sha256" previous)
      pub emit_ref :
          get "active_emit_result_ref" m
          ≡ last_write "active_emit_result_ref" i.updates (get "active_emit_result_ref" previous)
      pub confirmation_ref :
          get "active_confirmation_receipt_ref" m
          ≡ last_write "active_confirmation_receipt_ref" i.updates
              (get "active_confirmation_receipt_ref" previous)
      pub confirmation_result :
          get "active_confirmation_result_ref" m
          ≡ last_write "active_confirmation_result_ref" i.updates
              (get "active_confirmation_result_ref" previous)
      pub confirmed_id :
          get "confirmed_checkpoint_id" m
          ≡ last_write "confirmed_checkpoint_id" i.updates (get "confirmed_checkpoint_id" previous)
      pub confirmed_sequence :
          get "confirmed_checkpoint_sequence" m
          ≡ last_write "confirmed_checkpoint_sequence" i.updates
              (get "confirmed_checkpoint_sequence" previous)
      pub evidence_refs :
          get "evidence_snapshot_refs" m
          ≡ last_write "evidence_snapshot_refs" i.updates (get "evidence_snapshot_refs" previous)
      pub attachment_refs :
          get "evidence_attachment_result_refs" m
          ≡ last_write "evidence_attachment_result_refs" i.updates
              (get "evidence_attachment_result_refs" previous)
      pub completion_ref :
          get "completion_result_ref" m
          ≡ last_write "completion_result_ref" i.updates (get "completion_result_ref" previous)

    module _ (ref : String) (upon : base_manifest i i.previous ≡ previous)
        (h : IsObject previous) where
      -- A field of the new manifest other than its digest: the last of the bindings, the updates and
      -- the previous manifest that writes it.
      field :
          (k : String)
          → str_eq "manifest_digest" k ≡ false
          → get k (sealed sha256 "manifest_digest" (undigested_manifest i ref context checkpoint))
            ≡ last_write k
                (bindings i ref context checkpoint)
                (last_write k i.updates (get k previous))
      unfolding undigested_manifest
      field k other =
          let updated = assign i.updates previous in
          let object = assign-IsObject i.updates previous h in
          rw upon (
            get-sealed "manifest_digest" k (assign (bindings i ref context checkpoint) updated)
              other (assign-IsObject (bindings i ref context checkpoint) updated object)
            ∙ get-assign k (bindings i ref context checkpoint) updated object
            ∙ ap (last_write k (bindings i ref context checkpoint))
                (get-assign k i.updates previous h))

      undigested-IsObject : IsObject (undigested_manifest i ref context checkpoint)
      unfolding undigested_manifest
      undigested-IsObject = rw upon (
          assign-IsObject (bindings i ref context checkpoint) (assign i.updates previous)
            (assign-IsObject i.updates previous h))

      fields :
          generation_ref i.generation ≡ some ref
          → Bound (sealed sha256 "manifest_digest" (undigested_manifest i ref context checkpoint))
      unfolding bindings
      fields named = record {
        ref = ref;
        named = named;
        context_ref = field "runtime_context_ref" refl;
        session_ref = field "session_ref" refl;
        checkpoint_ref = field "checkpoint_ref" refl;
        context_digest = field "runtime_context_digest" refl;
        state = field "current_runtime_state" refl;
        checkpoint_id = field "current_checkpoint_id" refl;
        sequence = field "current_checkpoint_sequence" refl;
        package_digest = field "canonical_package_digest" refl;
        candidate = field "selected_candidate_id" refl;
        batch = field "active_batch_id" refl;
        generation = field "generation" refl;
        digest =
            sealed-digest "manifest_digest" (undigested_manifest i ref context checkpoint)
              undigested-IsObject;
        schema = field "schema" refl;
        run_id = field "run_id" refl;
        source_mode = field "source_mode" refl;
        source_sha = field "source_snapshot_sha256" refl;
        receipt_ref = field "receipt_snapshot_ref" refl;
        receipt_sha = field "receipt_snapshot_sha256" refl;
        emit_ref = field "active_emit_result_ref" refl;
        confirmation_ref = field "active_confirmation_receipt_ref" refl;
        confirmation_result = field "active_confirmation_result_ref" refl;
        confirmed_id = field "confirmed_checkpoint_id" refl;
        confirmed_sequence = field "confirmed_checkpoint_sequence" refl;
        evidence_refs = field "evidence_snapshot_refs" refl;
        attachment_refs = field "evidence_attachment_result_refs" refl;
        completion_ref = field "completion_result_ref" refl;
      }

    build_manifest-upon :
        base_manifest i i.previous ≡ previous
        → IsObject previous
        → (m : Value) → build_manifest sha256 i context checkpoint ≡ some m
        → Bound m
    unfolding build_manifest
    build_manifest-upon upon h m built = elim (Option-cases (generation_ref i.generation)) [
      | inl out ↦ absurd (ground arith)
      | inr (ref, named) ↦
          subst Bound (some-injective _ _ (rw (named, build_manifest) at built))
            (fields ref upon h named)
    ]

    -- Every manifest built upon a previous one has these fields.
    pub build_manifest-Bound :
        i.previous ≡ some previous
        → IsObject previous
        → (m : Value) → build_manifest sha256 i context checkpoint ≡ some m
        → Bound m
    unfolding base_manifest
    build_manifest-Bound upon = build_manifest-upon (ap (base_manifest i) upon)

  -- The first manifest of a run is built upon the initial one.
  pub initial_manifest-Bound :
      (i : ManifestInput) (context checkpoint m : Value)
      → i.previous ≡ none
      → build_manifest sha256 i context checkpoint ≡ some m
      → Bound i context checkpoint (initial_manifest i) m
  unfolding base_manifest initial_manifest
  initial_manifest-Bound i context checkpoint m first =
      build_manifest-upon i context checkpoint (initial_manifest i) (ap (base_manifest i) first) tt
        m
