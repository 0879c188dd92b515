-- ===== src/Gates/Checkpoint/Sound.antt =====
-- What the checks of scripts/validate-checkpoint.mjs establish.
use ev4_builder_assistant_re.Base.{
  true, false, List, [], ◌++◌, is_empty, some, is_empty-eq-nil, ◌≡◌, inl, inr, Option-cases, All,
  All_weaken, All_split,
}
use ev4_builder_assistant_re.Diagnostics.{Clear, failures-eq-nil, passed}
use ev4_builder_assistant_re.Json.{Value, str, get, strict_eq, includes}
use ev4_builder_assistant_re.Json.Laws.{strict_eq-eq}
use ev4_builder_assistant_re.Planner.Completion.{find_last}
use ev4_builder_assistant_re.Gates.Checkpoint.{
  each, each_clear, duplicate_checks, list_of, ids_of, reference_checks, record_checks,
  assertion_checks, overlap_check, claim_check, support_checks, completed_checks, checkpoint_checks,
  validate_checkpoint,
}

-- The evidence that a reference of an assertion finds: it supports the assertion, and is available when the
-- assertion is confirmed.
abbrev Found : List Value → Value → Value → Type 0
Found ledger assertion ref =
    (evidence : Value) × (find_last "evidence_id" ref ledger ≡ some evidence)
    × (includes (list_of "supports_claim_ids" evidence) (get "assertion_id" assertion) ≡ true)
    × (get "status" assertion ≡ str "confirmed" → get "status" evidence ≡ str "available")

abbrev Backed : List Value → Value → Type 0
Backed ledger assertion =
    All (Found ledger assertion) (list_of "evidence_refs" assertion)
    × (get "status" assertion ≡ str "confirmed"
        → is_empty (list_of "evidence_refs" assertion) ≡ false)

reference-Found :
    (ledger : List Value) (assertion ref : Value)
    → All Clear (reference_checks ledger assertion ref)
    → Found ledger assertion ref
unfolding reference_checks record_checks strict_eq
reference-Found ledger assertion ref h = elim (Option-cases (find_last "evidence_id" ref ledger)) [
  | inl missing ↦ absurd (cc ((rw (reference_checks, missing) at h).0))
  | inr (evidence, found) ↦
      let checks : All Clear (record_checks assertion evidence) =
        rw (reference_checks, found) at h in
      (
        evidence,
        found,
        passed _ checks.0,
        λ confirmed. strict_eq-eq _ _ (passed _ (rw confirmed at checks.1.0)),
      )
]

assertion-Backed :
    (ledger : List Value) (assertion : Value)
    → All Clear (assertion_checks ledger assertion)
    → Backed ledger assertion
unfolding assertion_checks strict_eq
assertion-Backed ledger assertion h =
    let (references, (nonempty, _)) =
      All_split Clear (each (reference_checks ledger assertion) (list_of "evidence_refs" assertion))
        _ h in
    (
      All_weaken (list_of "evidence_refs" assertion) (reference-Found ledger assertion)
          (each_clear (reference_checks ledger assertion) _ references),
      λ confirmed. rw confirmed at nonempty,
    )

-- What an accepted checkpoint that claims to be complete has.
pub record Completed (checkpoint : Value) : Type 0 where
  pub mode : get "workflow_mode" checkpoint ≡ str "APPROVED_HANDOFF_MODE"
  pub confirmed : is_empty (list_of "confirmed_action_ids" checkpoint) ≡ false
  pub unconfirmed : list_of "unconfirmed_action_ids" checkpoint ≡ []
  pub blockers : list_of "unresolved_blockers" checkpoint ≡ []

pub record Sound (checkpoint : Value) : Type 0 where
  pub disjoint :
      All
        (λ id. includes (list_of "unconfirmed_action_ids" checkpoint) id ≡ false)
        (list_of "confirmed_action_ids" checkpoint)
  pub supported :
      All
        (λ evidence.
          All
            (λ claim.
              includes (ids_of "assertion_id" (list_of "assertions" checkpoint)) claim ≡ true)
            (list_of "supports_claim_ids" evidence))
        (list_of "evidence_ledger" checkpoint)
  pub backed : All (Backed (list_of "evidence_ledger" checkpoint)) (list_of "assertions" checkpoint)
  pub completed : get "runtime_state" checkpoint ≡ str "COMPLETED" → Completed checkpoint

claims_known :
    (ids : List Value) (evidence : Value)
    → All Clear (support_checks ids evidence)
    → All (λ claim. includes ids claim ≡ true) (list_of "supports_claim_ids" evidence)
unfolding claim_check
claims_known ids evidence h =
    All_weaken (list_of "supports_claim_ids" evidence) (λ claim c. passed _ c.0)
      (each_clear (claim_check ids) (list_of "supports_claim_ids" evidence) h)

actions_disjoint :
    (unconfirmed confirmed : List Value)
    → All Clear (each (overlap_check unconfirmed) confirmed)
    → All (λ id. includes unconfirmed id ≡ false) confirmed
unfolding overlap_check
actions_disjoint unconfirmed confirmed h =
    All_weaken confirmed (λ id c. c.0) (each_clear (overlap_check unconfirmed) confirmed h)

completed-Completed :
    (checkpoint : Value) → All Clear (completed_checks checkpoint) → Completed checkpoint
unfolding completed_checks
completed-Completed checkpoint (mode, (_, (confirmed, (unconfirmed, (blockers, _))))) = record {
  mode = strict_eq-eq _ _ (passed _ mode);
  confirmed = confirmed;
  unconfirmed = is_empty-eq-nil _ (passed _ unconfirmed);
  blockers = is_empty-eq-nil _ (passed _ blockers);
}

-- A checkpoint of schema 0.2.0 that passes its validator has no action both confirmed and unconfirmed,
-- evidence that supports only its own assertions, and assertions whose every reference finds evidence
-- that supports them, available and at least one if they are confirmed; when it is completed, it is in
-- the approved handoff mode with a confirmed action, no unconfirmed one and no blocker.
pub validate_checkpoint-Sound :
    (checkpoint : Value)
    → get "schema" checkpoint ≡ str "ev4-builder-checkpoint@0.2.0"
    → validate_checkpoint checkpoint ≡ []
    → Sound checkpoint
unfolding validate_checkpoint checkpoint_checks strict_eq
validate_checkpoint-Sound checkpoint schema h =
    let clear = (failures-eq-nil (checkpoint_checks checkpoint)).0 (rw schema at h) in
    let (_, after_duplicates) =
      All_split Clear
        (duplicate_checks "Duplicate assertion_id"
            (ids_of "assertion_id" (list_of "assertions" checkpoint))
          ++ (duplicate_checks "Duplicate evidence_id"
                (ids_of "evidence_id" (list_of "evidence_ledger" checkpoint))
              ++ duplicate_checks "Duplicate unresolved blocker"
                  (list_of "unresolved_blockers" checkpoint)))
        _ clear in
    let (overlap, after_overlap) =
      All_split Clear
        (each (overlap_check (list_of "unconfirmed_action_ids" checkpoint))
          (list_of "confirmed_action_ids" checkpoint))
        _ after_duplicates in
    let (support, after_support) =
      All_split Clear
        (each (support_checks (ids_of "assertion_id" (list_of "assertions" checkpoint)))
          (list_of "evidence_ledger" checkpoint))
        _ after_overlap in
    let (assertions, ending) =
      All_split Clear
        (each (assertion_checks (list_of "evidence_ledger" checkpoint))
          (list_of "assertions" checkpoint))
        _ after_support in
    record {
      disjoint = actions_disjoint _ _ overlap;
      supported = All_weaken _ (claims_known _) (each_clear _ _ support);
      backed = All_weaken _ (assertion-Backed _) (each_clear _ _ assertions);
      completed = λ state. completed-Completed checkpoint (rw state at ending);
    }
