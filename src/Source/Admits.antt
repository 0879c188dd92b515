-- ===== src/Source/Admits.antt =====
-- A context that the runtime derives from a source is one that intake admits.
use ev4_builder_assistant_re.Base.{String, true, List, Option, some, ◌≡◌, refl, ◌∙◌}
use ev4_builder_assistant_re.Canonical.{canonical_digest}
use ev4_builder_assistant_re.Json.{Value, get, put, remove}
use ev4_builder_assistant_re.Json.Laws.{IsText}
use ev4_builder_assistant_re.Primitives.Names.{is_hash}
use ev4_builder_assistant_re.Validation.Manifest.{is_source_mode}
use ev4_builder_assistant_re.Store.Directory.{stable_json}
use ev4_builder_assistant_re.Store.Context.{normalize_context_for_run-digest}
use ev4_builder_assistant_re.Source.Sealed.{resolve_explicit_builder_source-Sealed}
use ev4_builder_assistant_re.Lifecycle.Initial.{initialize_stage-IsValid}
use ev4_builder_assistant_re.Lifecycle.Phases.{At, drafted}
use ev4_builder_assistant_re.Lifecycle.Valid.{IsValid}
use ev4_builder_assistant_re.Store.Intake.{
  Initialized, initialize_stage, Stage, normalize_context_for_run,
}
use ev4_builder_assistant_re.Lifecycle.Admitted.{Admitted, run_of}
use ev4_builder_assistant_re.Lifecycle.Bindings.{hash_ok_text}
use ev4_builder_assistant_re.Source.Context.{
  File, context_semantics, compute_package_digest, bare_context, sealed_context,
}
use ev4_builder_assistant_re.Source.Resolve.{resolved, resolve_explicit_builder_source}

-- The stage of an intake from a resolved source.
abbrev pub stage_of :
    (String → String) → Value → String → String → String → String → String → Value → Value → Stage
stage_of sha256 mode selected receipt directory selected_ref receipt_ref builder_package context =
    record {
      source_mode = mode;
      selected = selected;
      receipt = receipt;
      context = normalize_context_for_run sha256 context mode selected_ref receipt_ref;
      builder_package = builder_package;
      run_directory = directory;
    }

module _ (sha256 : String → String) (hashes : (t : String) → is_hash (sha256 t) ≡ true) where
  -- The identity of the context, by the fields that the runtime wrote.
  sealed-Admitted :
      (mode : Value) (selected_file : File) (artifact input : Option File) (bytes : String)
      (p batch : Value) (selected receipt directory selected_ref receipt_ref : String)
      → is_source_mode mode ≡ true
      → IsText (get "selected_candidate_id" p)
      → IsText (get "batch_id" batch)
      → Admitted sha256 (
          stage_of sha256 mode selected receipt directory selected_ref receipt_ref p (
            sealed_context sha256
              (bare_context sha256 mode selected_file artifact input bytes p batch)))
  unfolding bare_context sealed_context context_semantics normalize_context_for_run get put remove
      compute_package_digest canonical_digest
  sealed-Admitted mode selected_file artifact input bytes p batch selected receipt directory
        selected_ref receipt_ref listed candidate named =
      record {
        mode = listed;
        schema = refl;
        runtime_mode = refl;
        digest =
            normalize_context_for_run-digest sha256
              (sealed_context sha256
                (bare_context sha256 mode selected_file artifact input bytes p batch))
              mode selected_ref receipt_ref tt;
        package_hash = hash_ok_text _ ∙ hashes _;
        package_text = tt;
        candidate = candidate;
        batch = named;
      }

  module _ (parse : String → Option Value) (input_problems : String → List String)
      (derive : Value → Option Value)
      (written : (source p : Value) → derive source ≡ some p → parse (stable_json p) ≡ some p)
      (mode : Value) (artifact input : Option File)
      (selected receipt directory selected_ref receipt_ref : String) where
    resolve_explicit_builder_source-Admitted :
        (p : Value) (bytes : String) (context : Value)
        → resolve_explicit_builder_source sha256 parse input_problems derive mode artifact input
          ≡ resolved p bytes context
        → Admitted sha256
            (stage_of sha256 mode selected receipt directory selected_ref receipt_ref p context)
    resolve_explicit_builder_source-Admitted p bytes context h =
        let s =
          resolve_explicit_builder_source-Sealed sha256 parse input_problems derive written mode
            artifact input p bytes context h in
        rw s.made (
          sealed-Admitted mode s.selected artifact input bytes p s.batch selected receipt directory
            selected_ref receipt_ref s.listed s.candidate s.named)

    -- From every source that is resolved in a mode of intake, with its context normalised for the run,
    -- intake initialises a run, and the run is valid and stands in the draft of its batch. The text
    -- that is written of a package derived from a CE source parses to that package, and SHA-256 is
    -- assumed to yield 64 hexadecimal digits.
    pub resolve_explicit_builder_source-IsValid :
        (p : Value) (bytes : String) (context : Value)
        → resolve_explicit_builder_source sha256 parse input_problems derive mode artifact input
          ≡ resolved p bytes context
        → (r : Initialized) × (initialize_stage sha256
              (stage_of sha256 mode selected receipt directory selected_ref receipt_ref p context)
            ≡ some r)
          × IsValid sha256 (run_of r)
          × At drafted (run_of r)
    resolve_explicit_builder_source-IsValid p bytes context h =
        initialize_stage-IsValid sha256 hashes _
          (resolve_explicit_builder_source-Admitted p bytes context h)
