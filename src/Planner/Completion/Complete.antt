-- ===== src/Planner/Completion/Complete.antt =====
-- A completion without a diagnostic is planned.
use ev4_builder_assistant_re.Base.{◌+◌, String, [], some, ◌≡◌}
use ev4_builder_assistant_re.Json.{str, get}
use ev4_builder_assistant_re.Primitives.Names.{generation_ref}
use ev4_builder_assistant_re.Planner.Types.{Predecessor, planned}
use ev4_builder_assistant_re.Planner.Completion.Coverage.{completion_diagnostics-derived}
use ev4_builder_assistant_re.Planner.Completion.Finish.{
  completion_diagnostics, completion_successor, completion_transition_id, completion_refs,
  plan_completion,
}
use ev4_builder_assistant_re.Planner.Completion.Outcome.{verified_of}
use ev4_builder_assistant_re.Planner.Results.{plan_completion-planned}

-- The completion planner plans its successor for every run without a diagnostic that has an id and
-- whose next generation has a number: neither RUN-COMPLETE-005 nor the check of the result can stop it
-- any more.
pub plan_completion_complete :
    (sha256 : String → String) (p : Predecessor) (run_id ref : String)
    → get "run_id" p.manifest ≡ str run_id
    → generation_ref (p.generation + 1) ≡ some ref
    → completion_diagnostics sha256 p ≡ []
    → plan_completion sha256 p
      ≡ planned (
          completion_successor p
            (verified_of sha256 p)
            (completion_transition_id sha256 p (verified_of sha256 p))
            (completion_refs ref (completion_transition_id sha256 p (verified_of sha256 p))))
plan_completion_complete sha256 p run_id ref named in_range clear =
    plan_completion-planned sha256 p run_id ref named in_range clear
      (completion_diagnostics-derived sha256 p clear)
