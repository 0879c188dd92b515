-- ===== src/Planner/Completion/Outcome.antt =====
-- When `plan_completion` plans a successor, and what the successor is.
use ev4_builder_assistant_re.Base.{
  ◌+◌, String, true, List, [], some, ◌≡◌, inl, inr, Bool-cases, Option-cases, is_empty,
  is_empty-eq-nil, arith, sym,
}
use ev4_builder_assistant_re.Primitives.Names.{generation_ref}
use ev4_builder_assistant_re.Planner.Types.{Predecessor, Successor, planned, checked_plan-planned}
use ev4_builder_assistant_re.Planner.Completion.{Verified, verify_prepared_evidence}
use ev4_builder_assistant_re.Planner.Completion.Finish.{
  derived_complete, completion_diagnostics, completion_transition_id, completion_refs,
  completion_successor, plan_completion,
}

module _ (sha256 : String → String) where
  abbrev pub verified_of : Predecessor → List Verified
  verified_of p = (verify_prepared_evidence sha256 p).verified

  -- What a planned successor rests on.
  pub record Completed (p : Predecessor) (s : Successor) : Type 0 where
    pub ref : String
    pub clear : completion_diagnostics sha256 p ≡ []
    pub derived : derived_complete (verified_of p) ≡ true
    pub in_range : generation_ref (p.generation + 1) ≡ some ref
    pub built :
        s
        ≡ completion_successor p
            (verified_of p)
            (completion_transition_id sha256 p (verified_of p))
            (completion_refs ref (completion_transition_id sha256 p (verified_of p)))

  pub plan_completion-Completed :
      (p : Predecessor) (s : Successor) → plan_completion sha256 p ≡ planned s → Completed p s
  unfolding plan_completion
  plan_completion-Completed p s h = elim (Bool-cases (is_empty (completion_diagnostics sha256 p))) [
    | inr busy ↦ absurd (ground arith)
    | inl clear ↦ elim (Bool-cases (derived_complete (verified_of p))) [
      | inr missing ↦ absurd (ground arith)
      | inl derived ↦ elim (Option-cases (generation_ref (p.generation + 1))) [
        | inl out ↦ absurd (ground arith)
        | inr (ref, found) ↦ record {
          ref = ref;
          clear = is_empty-eq-nil _ clear;
          derived = derived;
          in_range = found;
          built = sym (checked_plan-planned _ _ s (rw (clear, derived, found) at h)).1;
        }
      ]
    ]
  ]
