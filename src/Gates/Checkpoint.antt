-- ===== src/Gates/Checkpoint.antt =====
-- scripts/validate-checkpoint.mjs: the cross-field checks of a checkpoint that has passed its schema, so its lists
-- hold objects. A failure is a constant part of its message.
pub mod Sound
use ev4_builder_assistant_re.Base.{
  String, Bool, true, false, not, ◌&&◌, ◌||◌, List, [], ◌∷◌, ◌++◌, map, keep, is_empty, Option,
  none, some, if◌then◌else◌, All, All_split,
}
use ev4_builder_assistant_re.Diagnostics.{Check, Clear, ◌reports◌, failures}
use ev4_builder_assistant_re.Json.{Value, str, get, truthy, strict_eq, elements, includes}
use ev4_builder_assistant_re.Planner.Completion.{find_last}

-- The checks of a loop over a list.
unfoldable pub each {ℓ} : {A : Type ℓ} → (A → List Check) → List A → List Check
each f [] = []
each f (x ∷ xs) = f x ++ each f xs

-- The failures of a loop are those of its rounds: when there is none, each round is clear.
pub each_clear {ℓ} :
    {A : Type ℓ} (f : A → List Check) (xs : List A)
    → All Clear (each f xs)
    → All (λ x. All Clear (f x)) xs
unfolding each
each_clear f [] h = tt
each_clear f (x ∷ xs) h =
    let (here, later) = All_split Clear (f x) (each f xs) h in (here, each_clear f xs later)

-- `duplicates(values)`, with the two sets as lists in the order of insertion.
unfoldable pub duplicates_from : List Value → List Value → List Value → List Value
duplicates_from seen dupes [] = []
duplicates_from seen dupes (v ∷ vs) =
    let fresh = duplicates_from (v ∷ seen) (v ∷ dupes) vs in
    let known = duplicates_from (v ∷ seen) dupes vs in
    if includes seen v && not (includes dupes v) then v ∷ fresh else known

abbrev pub duplicate_checks : String → List Value → List Check
duplicate_checks message values = map (λ v. true reports message) (duplicates_from [] [] values)

abbrev pub list_of : String → Value → List Value
list_of name v = elements (get name v)

unfoldable pub ids_of : String → List Value → List Value
ids_of name records = keep truthy (map (λ entry. get name entry) records)

-- The checks of an assertion against the evidence that it refers to.
unfoldable pub record_checks : Value → Value → List Check
record_checks assertion evidence =
    (not (includes (list_of "supports_claim_ids" evidence) (get "assertion_id" assertion))
      reports "does not support assertion_id")
    ∷ (strict_eq (get "status" assertion) (str "confirmed")
          && not (strict_eq (get "status" evidence) (str "available"))
        reports "references non-available evidence")
    ∷ []

unfoldable pub reference_checks : List Value → Value → Value → List Check
reference_checks ledger assertion ref = elim (find_last "evidence_id" ref ledger) [
  | none ↦ (true reports "references unknown evidence_id") ∷ []
  | some evidence ↦ record_checks assertion evidence
]

unfoldable pub assertion_checks : List Value → Value → List Check
assertion_checks ledger assertion =
    each (reference_checks ledger assertion) (list_of "evidence_refs" assertion)
    ++ ((strict_eq (get "status" assertion) (str "confirmed")
            && is_empty (list_of "evidence_refs" assertion)
          reports "must include evidence_refs")
        ∷ [])

unfoldable pub overlap_check : List Value → Value → List Check
overlap_check unconfirmed id = (includes unconfirmed id reports "Action ID appears in both") ∷ []

unfoldable pub claim_check : List Value → Value → List Check
claim_check ids claim = (not (includes ids claim) reports "supports unknown assertion_id") ∷ []

abbrev pub support_checks : List Value → Value → List Check
support_checks ids evidence = each (claim_check ids) (list_of "supports_claim_ids" evidence)

unfoldable pub unresolved_check : Value → List Check
unresolved_check assertion =
    (includes (str "not_checked" ∷ str "insufficient_evidence" ∷ []) (get "status" assertion)
      reports "contains unresolved assertion")
    ∷ []

unfoldable pub completed_checks : Value → List Check
completed_checks checkpoint =
    (not (strict_eq (get "workflow_mode" checkpoint) (str "APPROVED_HANDOFF_MODE"))
      reports "requires workflow_mode APPROVED_HANDOFF_MODE")
    ∷ (not (truthy (get "session_id" checkpoint)) || not (truthy (get "package_digest" checkpoint))
        reports "requires session_id and package_digest")
    ∷ (is_empty (list_of "confirmed_action_ids" checkpoint)
        reports "requires at least one confirmed action")
    ∷ (not (is_empty (list_of "unconfirmed_action_ids" checkpoint))
        reports "cannot contain unconfirmed actions")
    ∷ (not (is_empty (list_of "unresolved_blockers" checkpoint))
        reports "cannot contain unresolved blockers")
    ∷ each unresolved_check (list_of "assertions" checkpoint)

unfoldable pub checkpoint_checks : Value → List Check
checkpoint_checks checkpoint =
    let assertions = list_of "assertions" checkpoint in
    let ledger = list_of "evidence_ledger" checkpoint in
    let ids = ids_of "assertion_id" assertions in
    (duplicate_checks "Duplicate assertion_id" ids
      ++ (duplicate_checks "Duplicate evidence_id" (ids_of "evidence_id" ledger)
          ++ duplicate_checks "Duplicate unresolved blocker"
              (list_of "unresolved_blockers" checkpoint)))
    ++ (each (overlap_check (list_of "unconfirmed_action_ids" checkpoint))
          (list_of "confirmed_action_ids" checkpoint)
        ++ (each (support_checks ids) ledger
            ++ (each (assertion_checks ledger) assertions
                ++ (if strict_eq (get "runtime_state" checkpoint) (str "COMPLETED")
                    then completed_checks checkpoint
                    else []))))

-- A legacy checkpoint is skipped.
unfoldable pub validate_checkpoint : Value → List String
validate_checkpoint checkpoint =
    if strict_eq (get "schema" checkpoint) (str "ev4-builder-checkpoint@0.2.0")
    then failures (checkpoint_checks checkpoint)
    else []
