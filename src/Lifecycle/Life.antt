-- ===== src/Lifecycle/Life.antt =====
-- The life of a run from its intake on.
use ev4_builder_assistant_re.Base.{ℕ, String, some, ◌≡◌, true, sym, ◌∙◌}
use mathlib.Core.Option.{some-injective}
use ev4_builder_assistant_re.Primitives.Names.{is_hash}
use ev4_builder_assistant_re.Planner.Types.{Predecessor}
use ev4_builder_assistant_re.Store.Intake.{Stage, Initialized, initialize_stage}
use ev4_builder_assistant_re.Lifecycle.Initial.{initialize_stage-IsValid}
use ev4_builder_assistant_re.Lifecycle.Admitted.{Admitted, run_of}
use ev4_builder_assistant_re.Lifecycle.Phases.{Phase, MovesTo, At, HasActions, drafted}
use ev4_builder_assistant_re.Lifecycle.Runs.{Reach, Reach-IsValid, Reach-At}
use ev4_builder_assistant_re.Lifecycle.Valid.{IsValid}

module _ (sha256 : String → String) (hashes : (t : String) → is_hash (sha256 t) ≡ true) where
  pub first_run :
      (i : Stage) (r : Initialized)
      → Admitted sha256 i
      → initialize_stage sha256 i ≡ some r
      → IsValid sha256 (run_of r) × At drafted (run_of r)
  first_run i r a h =
      let (s, made, valid, at) = initialize_stage-IsValid sha256 hashes i a in
      let same : s ≡ r = some-injective _ _ (sym made ∙ h) in rw (← same) (valid, at)

  -- When intake initialises a run from an admitted source whose batch has actions, the run is valid
  -- after any number of planned and committed transitions, and stands in a phase of the abstract
  -- machine (drafted, issued, confirmed with evidence attached any number of times, finished) that as
  -- many moves lead to from the draft. SHA-256 is assumed to yield 64 hexadecimal digits.
  pub initialize_stage-Reach :
      (i : Stage) (r : Initialized) (n : ℕ) (q : Predecessor)
      → Admitted sha256 i
      → HasActions (run_of r)
      → initialize_stage sha256 i ≡ some r
      → Reach sha256 (run_of r) n q
      → IsValid sha256 q × ((ψ : Phase) × MovesTo n ψ × At ψ q)
  initialize_stage-Reach i r n q a actions h reach =
      let (valid, at) = first_run i r a h in
      (
        Reach-IsValid sha256 hashes _ q n valid reach,
        Reach-At sha256 hashes _ q n valid actions at reach,
      )
