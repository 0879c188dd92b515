-- ===== src/Gates/Session/Accepted.antt =====
-- What suffices for a session of the canonical runtime to pass scripts/validate-session-state.mjs.
use ev4_builder_assistant_re.Base.{
  String, Bool, true, false, ◌&&◌, List, [], ◌∷◌, ◌≡◌, refl, arith, All, All-append,
}
use ev4_builder_assistant_re.Diagnostics.{Clear, failures-eq-nil, passes, neither}
use ev4_builder_assistant_re.Json.{
  Value, undefined, str, get, truthy, strict_eq, elements, includes, has_length,
}
use ev4_builder_assistant_re.Json.Laws.{strict_eq-eq}
use ev4_builder_assistant_re.Gates.Checkpoint.{each}
use ev4_builder_assistant_re.Gates.Session.{
  transition_table, normalize_absent, candidate_mismatch, allowed_in, is_state, state_checks,
  carrier_check, repair_checks, paused_checks, completed_session_checks, disagree, blocker_check,
  checkpoint_agreement, checks_if, session_checks, validate_session_state,
}

-- A state of a run in the canonical runtime: in the table, and neither a correction nor a pause.
pub record Running (state : Value) : Type 0 where
  pub known : includes (elements (get "runtime_states" transition_table)) state ≡ true
  pub allowed : allowed_in transition_table (str "APPROVED_HANDOFF_MODE") state ≡ true
  pub self : strict_eq state state ≡ true
  pub correction : strict_eq state (str "CORRECTION") ≡ false
  pub paused : strict_eq state (str "PAUSED") ≡ false

-- A session that carries its checkpoint.
pub record Fits (s : Value) : Type 0 where
  pub mode : get "workflow_mode" s ≡ str "APPROVED_HANDOFF_MODE"
  pub running : Running (get "runtime_state" s)
  pub current : get "current_state" s ≡ get "runtime_state" s
  pub repair : get "repair_packet" s ≡ undefined
  pub schema : get "schema" (get "last_verified_checkpoint" s) ≡ str "ev4-builder-checkpoint@0.2.0"
  pub candidate :
      strict_eq
        (get "selected_candidate_id" (get "last_verified_checkpoint" s))
        (get "selected_candidate_id" s)
      ≡ true
  pub session_id :
      strict_eq (get "session_id" s) (get "session_id" (get "last_verified_checkpoint" s)) ≡ true
  pub package_digest :
      strict_eq (get "package_digest" s) (get "package_digest" (get "last_verified_checkpoint" s))
      ≡ true
  pub named : truthy (get "session_id" s) ≡ true
  pub packaged : truthy (get "package_digest" s) ≡ true
  pub blockers :
      All
        (λ b. includes (elements (get "unresolved_evidence" s)) b ≡ true)
        (elements (get "unresolved_blockers" (get "last_verified_checkpoint" s)))
  pub resolved : is_state s "COMPLETED" ≡ true → has_length (get "unresolved_evidence" s) ≡ false

both_false : (a b : Bool) → b ≡ false → (a && b) ≡ false
both_false a b h = ground arith

absent_self :
    (v : Value) → strict_eq v v ≡ true → strict_eq (normalize_absent v) (normalize_absent v) ≡ true
unfolding normalize_absent strict_eq
absent_self undefined h = refl
absent_self _ h = h

absent_equal : (a b : Value) → strict_eq a b ≡ true → candidate_mismatch a b ≡ false
unfolding candidate_mismatch
absent_equal a b h =
    let same = strict_eq-eq a b h in rw same (passes _ (absent_self b (rw same at h)))

table_supported :
    strict_eq (get "schema" transition_table) (str "ev4-builder-state-transitions@1.0.0") ≡ true
unfolding transition_table get strict_eq
table_supported = refl

disagree_not :
    (key : String) (a b : Value)
    → strict_eq (get key a) (get key b) ≡ true
    → disagree key a b ≡ false
unfolding disagree
disagree_not key a b h = both_false _ _ (both_false _ _ (passes _ h))

module _ (s : Value) (f : Fits s) where
  state_checks-Clear : All Clear (state_checks transition_table s)
  unfolding state_checks
  state_checks-Clear = (
    passes _ table_supported,
    (
      both_false _ _ (
          passes
            (includes (elements (get "runtime_states" transition_table)) (get "current_state" s))
            (rw f.current f.running.known)),
      (
        both_false _ _ (
            both_false _ _ (
              passes (strict_eq (get "runtime_state" s) (get "current_state" s))
                (rw f.current f.running.self))),
        (
          both_false _ _ (
              both_false _ _ (
                passes (allowed_in transition_table (get "workflow_mode" s) (get "runtime_state" s))
                  (rw f.mode f.running.allowed))),
          (rw f.running.correction refl, tt),
        ),
      ),
    ),
  )

  repair_checks-Clear : All Clear (repair_checks s)
  unfolding repair_checks carrier_check get truthy strict_eq
  repair_checks-Clear = (
    both_false _ _ (absent_equal _ _ f.candidate),
    (
      rw f.repair refl,
      (rw f.repair refl, (rw f.schema refl, (rw f.repair refl, (rw f.repair refl, tt)))),
    ),
  )

  completed_checks-Clear :
      (b : Bool) → is_state s "COMPLETED" ≡ b → All Clear (checks_if b (completed_session_checks s))
  unfolding completed_session_checks strict_eq
  completed_checks-Clear false h = tt
  completed_checks-Clear true h =
      (rw f.mode refl, (neither _ _ (passes _ f.named) (passes _ f.packaged), (f.resolved h, tt)))

  blockers_clear :
      (bs : List Value)
      → All (λ b. includes (elements (get "unresolved_evidence" s)) b ≡ true) bs
      → All Clear (each (blocker_check s) bs)
  unfolding each blocker_check
  blockers_clear [] h = tt
  blockers_clear (b ∷ bs) h = (passes _ h.0, blockers_clear bs h.1)

  agreement-Clear : (b : Bool) → All Clear (checks_if b (checkpoint_agreement s))
  unfolding checkpoint_agreement
  agreement-Clear false = tt
  agreement-Clear true = (
    disagree_not "session_id" s _ f.session_id,
    (disagree_not "package_digest" s _ f.package_digest, blockers_clear _ f.blockers),
  )

  pub validate_session_state-Fits : validate_session_state transition_table s ≡ []
  unfolding validate_session_state session_checks
  validate_session_state-Fits = (failures-eq-nil _).1 (
      All-append Clear (state_checks transition_table s) _ state_checks-Clear (
        All-append Clear (repair_checks s) _ repair_checks-Clear (
          All-append Clear (checks_if (is_state s "PAUSED") (paused_checks transition_table s)) _
            (rw f.running.paused tt)
            (All-append Clear (checks_if (is_state s "COMPLETED") (completed_session_checks s)) _
              (completed_checks-Clear _ refl) (agreement-Clear _)))))
