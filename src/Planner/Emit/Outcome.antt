-- ===== src/Planner/Emit/Outcome.antt =====
-- When `plan_emit` plans a successor, and what the successor is.
use ev4_builder_assistant_re.Base.{
  ◌+◌, String, [], some, ◌≡◌, inl, inr, Bool-cases, Option-cases, is_empty, is_empty-eq-nil, arith,
  sym,
}
use ev4_builder_assistant_re.Primitives.Names.{generation_ref}
use ev4_builder_assistant_re.Planner.Types.{Predecessor, Successor, planned, checked_plan-planned}
use ev4_builder_assistant_re.Planner.Emit.{
  emit_diagnostics, emit_transition_id, emit_refs, emit_successor, plan_emit,
}

module _ (sha256 : String → String) where
  -- What a planned successor rests on.
  pub record Emitted (p : Predecessor) (s : Successor) : Type 0 where
    pub ref : String
    pub clear : emit_diagnostics p ≡ []
    pub in_range : generation_ref (p.generation + 1) ≡ some ref
    pub built :
        s
        ≡ emit_successor p
            (emit_transition_id sha256 p)
            (emit_refs ref (emit_transition_id sha256 p))

  pub plan_emit-Emitted :
      (p : Predecessor) (s : Successor) → plan_emit sha256 p ≡ planned s → Emitted p s
  unfolding plan_emit
  plan_emit-Emitted p s h = elim (Bool-cases (is_empty (emit_diagnostics p))) [
    | inr busy ↦ absurd (ground arith)
    | inl clear ↦ elim (Option-cases (generation_ref (p.generation + 1))) [
      | inl out ↦ absurd (ground arith)
      | inr (ref, found) ↦ record {
        ref = ref;
        clear = is_empty-eq-nil _ clear;
        in_range = found;
        built = sym (checked_plan-planned _ _ s (rw (clear, found) at h)).1;
      }
    ]
  ]
