-- ===== src/Planner/Evidence/Outcome.antt =====
-- When `plan_evidence` plans a successor, and what the successor is.
use ev4_builder_assistant_re.Base.{
  ◌+◌, String, false, [], some, ◌≡◌, inl, inr, Bool-cases, Option-cases, is_empty, is_empty-eq-nil,
  arith, sym,
}
use ev4_builder_assistant_re.Json.{Value, null, strict_eq}
use ev4_builder_assistant_re.Primitives.Names.{generation_ref}
use ev4_builder_assistant_re.Planner.Types.{Predecessor, Successor, planned, checked_plan-planned}
use ev4_builder_assistant_re.Planner.Evidence.Attach.{
  evidence_diagnostics, evidence_transition_id, evidence_refs, evidence_ref_of, evidence_successor,
  plan_parsed_evidence, plan_evidence,
}

module _ (sha256 : String → String) where
  -- What a planned successor rests on.
  pub record Attached (p : Predecessor) (content : String) (source : Value) (s : Successor)
      : Type 0 where
    pub ref : String
    pub present : strict_eq source null ≡ false
    pub clear : evidence_diagnostics sha256 p source content ≡ []
    pub in_range : generation_ref (p.generation + 1) ≡ some ref
    pub built :
        s
        ≡ evidence_successor p source content
            (sha256 content)
            (evidence_transition_id sha256 p (sha256 content))
            (evidence_refs ref
              (evidence_transition_id sha256 p (sha256 content))
              (evidence_ref_of (sha256 content)))

  plan_parsed-Attached :
      (p : Predecessor) (content : String) (source : Value) (s : Successor)
      → plan_parsed_evidence sha256 p content source ≡ planned s
      → Attached p content source s
  unfolding plan_parsed_evidence
  plan_parsed-Attached p content source s h = elim (Bool-cases (strict_eq source null)) [
    | inl missing ↦ absurd (ground arith)
    | inr present ↦ elim (Bool-cases (is_empty (evidence_diagnostics sha256 p source content))) [
      | inr busy ↦ absurd (ground arith)
      | inl clear ↦ elim (Option-cases (generation_ref (p.generation + 1))) [
        | inl out ↦ absurd (ground arith)
        | inr (ref, found) ↦ record {
          ref = ref;
          present = present;
          clear = is_empty-eq-nil _ clear;
          in_range = found;
          built = sym (checked_plan-planned _ _ s (rw (present, clear, found) at h)).1;
        }
      ]
    ]
  ]

  pub plan_evidence-Attached :
      (p : Predecessor) (content : String) (source : Value) (s : Successor)
      → plan_evidence sha256 p content (some source) ≡ planned s
      → Attached p content source s
  unfolding plan_evidence
  plan_evidence-Attached = plan_parsed-Attached
