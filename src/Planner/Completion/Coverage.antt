-- ===== src/Planner/Completion/Coverage.antt =====
-- What verified evidence a completion rests on: every action and every required claim is covered, and the
-- check RUN-COMPLETE-005 that follows can no longer fail.
use ev4_builder_assistant_re.Base.{
  String, true, false, List, [], ◌∷◌, ◌≡◌, refl, arith, inl, inr, Bool-cases, keep, All, All_split,
  append-eq-nil, if◌then◌else◌, is_empty,
}
use ev4_builder_assistant_re.Diagnostics.{Clear, failures, failures-eq-nil, passed}
use ev4_builder_assistant_re.Json.{Value, includes}
use ev4_builder_assistant_re.Planner.Types.{Predecessor, preparation_diagnostics}
use ev4_builder_assistant_re.Planner.Evidence.{run_actions}
use ev4_builder_assistant_re.Planner.Completion.{
  Verified, has_class, claim_verified, action_verified, distinct_subjects, subjects_of,
  inconsistent_subjects, action_evidence_checks, claim_evidence_checks, coverage_checks,
  required_claims, verify_entries, verify_prepared_evidence, validate_prepared_confirmation,
}
use ev4_builder_assistant_re.Planner.Completion.Finish.{
  is_single, proof_confirmed, completion_states, derived_complete, completion_checks,
  completion_diagnostics,
}
use ev4_builder_assistant_re.Planner.Completion.Outcome.{verified_of}

-- A required claim is covered: some snapshot verifies it, and all that do agree on the built output.
pub record ClaimCovered (vs : List Verified) (claim : Value) : Type 0 where
  pub verified : claim_verified vs claim ≡ true
  pub consistent : inconsistent_subjects (subjects_of vs claim) ≡ false

actions_covered :
    (vs : List Verified) (actions : List Value)
    → All Clear (action_evidence_checks vs actions)
    → All (λ a. action_verified vs a ≡ true) actions
unfolding action_evidence_checks
actions_covered vs [] h = tt
actions_covered vs (a ∷ actions) h = (passed _ h.0, actions_covered vs actions h.1)

claims_covered :
    (vs : List Verified) (claims : List Value)
    → All Clear (claim_evidence_checks vs claims)
    → All (ClaimCovered vs) claims
unfolding claim_evidence_checks
claims_covered vs [] h = tt
claims_covered vs (c ∷ claims) (verified, (consistent, rest)) = (
  record { verified = passed _ verified; consistent = consistent },
  claims_covered vs claims rest,
)

pub record Covered (p : Predecessor) (vs : List Verified) : Type 0 where
  pub actions : All (λ a. action_verified vs a ≡ true) (run_actions p)
  pub claims : All (ClaimCovered vs) required_claims

coverage_checks-Covered :
    (p : Predecessor) (vs : List Verified) → failures (coverage_checks p vs) ≡ [] → Covered p vs
unfolding coverage_checks
coverage_checks-Covered p vs h =
    let (actions, claims) =
      All_split Clear (action_evidence_checks vs (run_actions p)) _
        ((failures-eq-nil (coverage_checks p vs)).0 h) in
    record {
      actions = actions_covered vs (run_actions p) actions;
      claims = claims_covered vs required_claims claims;
    }

distinct_subjects-nonempty :
    (v : Verified) (vs : List Verified) → is_empty (distinct_subjects (v ∷ vs)) ≡ false
unfolding distinct_subjects includes
distinct_subjects-nonempty v vs = go (distinct_subjects vs)
  where
    go :
        (rest : List Value)
        → is_empty (if includes rest v.subject_ref then rest else v.subject_ref ∷ rest) ≡ false
    go [] = refl
    go (s ∷ rest) = ground arith

keep-nonempty :
    (claim : Value) (vs : List Verified)
    → claim_verified vs claim ≡ true
    → is_empty (subjects_of vs claim) ≡ false
unfolding claim_verified subjects_of
keep-nonempty claim [] h = cc
keep-nonempty claim (v ∷ vs) h = elim (Bool-cases (has_class claim v)) [
  | inl e ↦ rw e (distinct_subjects-nonempty v (keep (has_class claim) vs))
  | inr e ↦ rw e (keep-nonempty claim vs (rw e at h))
]

consistent-single :
    (subjects : List Value)
    → is_empty subjects ≡ false
    → inconsistent_subjects subjects ≡ false
    → is_single subjects ≡ true
unfolding inconsistent_subjects is_single
consistent-single [] h k = cc
consistent-single (s ∷ []) h k = refl
consistent-single (s ∷ t ∷ ss) h k = cc

ClaimCovered-proof :
    (vs : List Verified) (claim : Value) → ClaimCovered vs claim → proof_confirmed vs claim ≡ true
unfolding proof_confirmed
ClaimCovered-proof vs claim c =
    rw (c.verified, consistent-single _ (keep-nonempty claim vs c.verified) c.consistent) refl

Covered-derived : (p : Predecessor) (vs : List Verified) → Covered p vs → derived_complete vs ≡ true
unfolding derived_complete completion_states
Covered-derived p vs c =
    let (scaffold, (structure, (filled, (desktop, (layout, (checked, (exported, _))))))) =
      c.claims in
    rw
      (
        scaffold.verified,
        structure.verified,
        filled.verified,
        desktop.verified,
        checked.verified,
        ClaimCovered-proof vs _ layout,
        ClaimCovered-proof vs _ exported,
      )
      refl

module _ (sha256 : String → String) (p : Predecessor)
    (clear : completion_diagnostics sha256 p ≡ []) where
  pub completion_diagnostics-Covered : Covered p (verified_of sha256 p)
  unfolding completion_diagnostics verify_prepared_evidence
  completion_diagnostics-Covered =
      let (_, rest) = append-eq-nil (preparation_diagnostics p.planning) _ clear in
      let (_, others) = append-eq-nil (failures (completion_checks p)) _ rest in
      let (_, evidence) = append-eq-nil (validate_prepared_confirmation sha256 p) _ others in
      let rounds = verify_entries sha256 p p.planning.evidence_entries in
      let (_, coverage) = append-eq-nil rounds.diagnostics _ evidence in
      coverage_checks-Covered p rounds.verified coverage

  -- Then the states and proofs derived from the evidence are complete: RUN-COMPLETE-005 is never reported.
  pub completion_diagnostics-derived : derived_complete (verified_of sha256 p) ≡ true
  completion_diagnostics-derived =
      Covered-derived p (verified_of sha256 p) completion_diagnostics-Covered
