-- ===== src/Lifecycle/Sessions/Life.antt =====
-- The session of a run passes its validator from the intake on.
use ev4_builder_assistant_re.Base.{
  ℕ, String, true, List, [], ◌∷◌, map, some, ◌≡◌, refl, All, All_weaken, arith, Option-cases, inl,
  inr, codes-append,
}
use mathlib.Core.Option.{some-injective}
use ev4_builder_assistant_re.Json.{Value, str, get, strict_eq, elements, includes}
use ev4_builder_assistant_re.Json.Laws.{items-items_of, strict_eq_text}
use ev4_builder_assistant_re.Primitives.Manifest.{build_manifest}
use ev4_builder_assistant_re.Primitives.Names.{is_hash}
use ev4_builder_assistant_re.Primitives.Blockers.{collect_initial_blockers}
use ev4_builder_assistant_re.Primitives.Checkpoint.{build_checkpoint, build_session}
use ev4_builder_assistant_re.Planner.Types.{Predecessor}
use ev4_builder_assistant_re.Planner.Prepare.{unprepared}
use ev4_builder_assistant_re.Store.Intake.{
  Stage, Initialized, initial_checkpoint_input, initial_checkpoint, initial_session,
  initialize_stage, session_id_of, initial_input, run_id_of, receipt_sha_of,
}
use ev4_builder_assistant_re.Lifecycle.Sessions.Steps.{Step-Kept}
use ev4_builder_assistant_re.Gates.Session.{transition_table, validate_session_state}
use ev4_builder_assistant_re.Gates.Session.Accepted.{validate_session_state-Fits}
use ev4_builder_assistant_re.Lifecycle.Admitted.{Admitted, run_of}
use ev4_builder_assistant_re.Lifecycle.Life.{first_run}
use ev4_builder_assistant_re.Lifecycle.Phases.{truthy_text}
use ev4_builder_assistant_re.Lifecycle.Runs.{Reach, start, later, Reach-IsValid}
use ev4_builder_assistant_re.Lifecycle.Sessions.{Kept, active-Running, Kept-Fits}
use ev4_builder_assistant_re.Lifecycle.Valid.{IsValid}

-- Every text of a list is among them.
includes_all : (vs : List String) → All (λ b. includes (map str vs) b ≡ true) (map str vs)
unfolding includes
includes_all [] = tt
includes_all (v ∷ vs) = (
  rw (strict_eq_text v) refl,
  All_weaken (map str vs) (λ b h. ground (arith, h)) (includes_all vs),
)

module _ (sha256 : String → String) where
  abbrev initial_run : Stage → Value → Predecessor
  initial_run i m = record {
    manifest = m;
    context = i.context;
    session = initial_session sha256 i;
    checkpoint = initial_checkpoint sha256 i;
    generation = 1;
    planning = unprepared;
  }

  -- The session of an intake embeds its checkpoint, and both name the same blockers.
  initial-Kept : (i : Stage) (m : Value) → Kept (initial_run i m)
  unfolding initial_session initial_checkpoint initial_checkpoint_input build_session
      build_checkpoint get elements strict_eq session_id_of
  initial-Kept i m =
      let texts = collect_initial_blockers i.builder_package in
      record {
        embeds = refl;
        mode = refl;
        running = active-Running;
        states = (refl, refl);
        repair = refl;
        schema = refl;
        named = truthy_text _ (rw codes-append refl);
        blockers = rw (items-items_of (map str texts)) (includes_all texts);
        resolved = λ h. absurd (cc h);
      }

  first-Kept : (i : Stage) (r : Initialized) → initialize_stage sha256 i ≡ some r → Kept (run_of r)
  unfolding initialize_stage
  first-Kept i r h =
      elim (Option-cases (
        build_manifest sha256
          (initial_input i (str (run_id_of sha256 i)) (str (sha256 i.selected))
            (receipt_sha_of sha256 i))
          i.context (initial_checkpoint sha256 i))) [
            | inl out ↦ absurd (cc (rw (initialize_stage, out) at h))
            | inr (m, built) ↦
                let e = some-injective _ _ (rw (initialize_stage, built) at h) in
                rw (← e) (initial-Kept i m)
          ]

  module _ (hashes : (t : String) → is_hash (sha256 t) ≡ true) where
    Reach-Kept :
        (p q : Predecessor) (n : ℕ) → IsValid sha256 p → Kept p → Reach sha256 p n q → Kept q
    Reach-Kept p q n v k start = k
    Reach-Kept p q n v k (later m r t reach next) =
        Step-Kept sha256 r t (Reach-IsValid sha256 hashes p r m v reach)
          (Reach-Kept p r m v k reach) next

    -- When intake initialises a run from an admitted source, its session passes the validator of
    -- sessions after any number of planned and committed transitions, against the table of states of
    -- the repository. SHA-256 is assumed to yield 64 hexadecimal digits.
    pub initialize_stage-sessions :
        (i : Stage) (r : Initialized) (n : ℕ) (q : Predecessor)
        → Admitted sha256 i
        → initialize_stage sha256 i ≡ some r
        → Reach sha256 (run_of r) n q
        → validate_session_state transition_table q.session ≡ []
    initialize_stage-sessions i r n q a h reach =
        let (valid, at) = first_run sha256 hashes i r a h in
        validate_session_state-Fits q.session (
          Kept-Fits sha256 q (Reach-IsValid sha256 hashes _ q n valid reach)
            (Reach-Kept _ q n valid (first-Kept i r h) reach))
