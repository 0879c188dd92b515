-- ===== src/Lifecycle/Honest.antt =====
-- What the result of any transition claims of the build.
use ev4_builder_assistant_re.Base.{String, Bool, true, false, [], ◌≡◌, refl}
use ev4_builder_assistant_re.Json.{bool, get}
use ev4_builder_assistant_re.Publication.{
  Operation, real_intake, emit_batch, confirm_batch, attach_evidence, real_completion,
}
use ev4_builder_assistant_re.Planner.Types.{Predecessor, Successor}
use ev4_builder_assistant_re.Planner.Prepare.{prepare}
use ev4_builder_assistant_re.Planner.Emit.{emit_successor, emit_result}
use ev4_builder_assistant_re.Planner.Emit.Outcome.{plan_emit-Emitted}
use ev4_builder_assistant_re.Planner.Confirm.{confirm_successor, confirm_result}
use ev4_builder_assistant_re.Planner.Confirm.Outcome.{plan_confirm-Confirmed}
use ev4_builder_assistant_re.Planner.Evidence.Attach.{evidence_successor, evidence_result}
use ev4_builder_assistant_re.Planner.Evidence.Outcome.{plan_evidence-Attached}
use ev4_builder_assistant_re.Planner.Completion.Finish.{completion_successor, completion_result}
use ev4_builder_assistant_re.Planner.Completion.Outcome.{plan_completion-Completed}
use ev4_builder_assistant_re.Lifecycle.Planned.{
  Plans, by_emit, by_confirm, by_evidence, by_completion,
}

abbrev pub finishes : Operation → Bool
finishes real_completion = true
finishes real_intake = false
finishes emit_batch = false
finishes confirm_batch = false
finishes attach_evidence = false

-- Only a completion claims that the build is complete, and no result claims responsive or production
-- readiness.
pub record Honest (s : Successor) : Type 0 where
  pub build : get "builder_build_complete" s.result ≡ bool (finishes s.operation)
  pub responsive : get "responsive_complete" s.result ≡ bool false
  pub production : get "production_ready" s.result ≡ bool false

-- The result of every planned transition claims that the build is complete exactly when the transition
-- is a completion, and never that it is complete at other breakpoints or ready for production.
pub Plans-Honest :
    (sha256 : String → String) (p : Predecessor) (s : Successor) → Plans sha256 p s → Honest s
unfolding emit_successor emit_result confirm_successor confirm_result evidence_successor
    evidence_result completion_successor completion_result get
Plans-Honest sha256 p s (by_emit read derivation h) =
    rw (plan_emit-Emitted sha256 (prepare read derivation emit_batch p) s h).built
      (record { build = refl; responsive = refl; production = refl })
Plans-Honest sha256 p s (by_confirm read token h) =
    rw (plan_confirm-Confirmed sha256 (prepare read [] confirm_batch p) token s h).built
      (record { build = refl; responsive = refl; production = refl })
Plans-Honest sha256 p s (by_evidence read content source h) =
    rw (plan_evidence-Attached sha256 (prepare read [] attach_evidence p) content source s h).built
      (record { build = refl; responsive = refl; production = refl })
Plans-Honest sha256 p s (by_completion read derivation h) =
    rw (plan_completion-Completed sha256 (prepare read derivation real_completion p) s h).built
      (record { build = refl; responsive = refl; production = refl })
