-- ===== src/Lifecycle/Admitted.antt =====
-- What intake admits, and the run that it makes.
use ev4_builder_assistant_re.Base.{String, ◌≡◌, true}
use ev4_builder_assistant_re.Canonical.{digest_without}
use ev4_builder_assistant_re.Json.{str, get}
use ev4_builder_assistant_re.Json.Laws.{IsText}
use ev4_builder_assistant_re.Planner.Types.{Predecessor, batch_id}
use ev4_builder_assistant_re.Planner.Prepare.{unprepared}
use ev4_builder_assistant_re.Store.Intake.{Stage, Initialized}
use ev4_builder_assistant_re.Validation.Manifest.{hash_ok, is_source_mode}

-- The run that a stage becomes once it is in place.
abbrev pub run_of : Initialized → Predecessor
run_of r = record {
  manifest = r.manifest;
  context = r.context;
  session = r.session;
  checkpoint = r.checkpoint;
  generation = 1;
  planning = unprepared;
}

module _ (sha256 : String → String) where
  -- What the derivation of a source gives: a mode of intake, and a context with its own digest that names a
  -- package, a candidate and a batch.
  pub record Admitted (i : Stage) : Type 0 where
    pub mode : is_source_mode i.source_mode ≡ true
    pub schema : get "schema" i.context ≡ str "ev4-builder-verified-context@1.0.0"
    pub runtime_mode : get "runtime_mode" i.context ≡ str "real-builder-run"
    pub digest :
        get "context_digest" i.context ≡ str (digest_without sha256 i.context "context_digest")
    pub package_hash : hash_ok (get "canonical_package_digest" i.context) ≡ true
    pub package_text : IsText (get "canonical_package_digest" i.context)
    pub candidate : IsText (get "selected_candidate_id" i.context)
    pub batch : IsText (batch_id i.context)
