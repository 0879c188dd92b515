-- ===== src/Planner/Confirm/Outcome.antt =====
-- When `plan_confirm` plans a successor, and what the successor is.
use ev4_builder_assistant_re.Base.{
  ◌+◌, String, true, [], some, ◌≡◌, inl, inr, Bool-cases, Option-cases, is_empty, is_empty-eq-nil,
  arith, sym,
}
use ev4_builder_assistant_re.Json.{Value, truthy}
use ev4_builder_assistant_re.Primitives.Names.{generation_ref}
use ev4_builder_assistant_re.Planner.Types.{Predecessor, Successor, planned, checked_plan-planned}
use ev4_builder_assistant_re.Planner.Confirm.{
  confirm_diagnostics, confirm_transition_id, confirm_refs, confirm_successor, plan_confirm,
}

module _ (sha256 : String → String) where
  -- What a planned successor rests on.
  pub record Confirmed (p : Predecessor) (token : Value) (s : Successor) : Type 0 where
    pub ref : String
    pub clear : confirm_diagnostics p token ≡ []
    pub emitted : truthy p.planning.emit_result ≡ true
    pub in_range : generation_ref (p.generation + 1) ≡ some ref
    pub built :
        s
        ≡ confirm_successor sha256 p token
            (confirm_transition_id sha256 p token)
            (confirm_refs ref (confirm_transition_id sha256 p token))

  pub plan_confirm-Confirmed :
      (p : Predecessor) (token : Value) (s : Successor)
      → plan_confirm sha256 p token ≡ planned s
      → Confirmed p token s
  unfolding plan_confirm
  plan_confirm-Confirmed p token s h = elim (Bool-cases (is_empty (confirm_diagnostics p token))) [
    | inr busy ↦ absurd (ground arith)
    | inl clear ↦ elim (Bool-cases (truthy p.planning.emit_result)) [
      | inr missing ↦ absurd (ground arith)
      | inl emitted ↦ elim (Option-cases (generation_ref (p.generation + 1))) [
        | inl out ↦ absurd (ground arith)
        | inr (ref, found) ↦ record {
          ref = ref;
          clear = is_empty-eq-nil _ clear;
          emitted = emitted;
          in_range = found;
          built = sym (checked_plan-planned _ _ s (rw (clear, emitted, found) at h)).1;
        }
      ]
    ]
  ]
