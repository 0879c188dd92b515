-- ===== src/Planner/Completion.antt =====
-- `verifyPreparedEvidence` and `validatePreparedConfirmation` of
-- scripts/lib/runtime/transition-planner-completion.mjs: what completion reads of the run's own evidence.
pub mod Finish
pub mod Complete
pub mod Coverage
pub mod Outcome
use ev4_builder_assistant_re.Base.{
  ℕ, String, Bool, true, false, not, ◌&&◌, ◌||◌, List, [], ◌∷◌, ◌++◌, map, Option, none, some,
  is_empty, keep, exists, template, str_eq, if◌then◌else◌,
}
use ev4_builder_assistant_re.Canonical.{digest_without}
use ev4_builder_assistant_re.Diagnostics.{Check, ◌reports◌, failures}
use ev4_builder_assistant_re.Json.{
  Value, str, get, truthy, strict_eq, is_array, elements, includes, has_length,
}
use ev4_builder_assistant_re.Primitives.Sets.{same_set}
use ev4_builder_assistant_re.Planner.Types.{
  Predecessor, EvidenceEntry, action_ids, action_digests, batch_id,
}
use ev4_builder_assistant_re.Planner.Confirm.{same_json}
use ev4_builder_assistant_re.Planner.Evidence.{
  builder_output, action_execution, claim_classes, claim_ids, run_actions, evidence_source_checks,
}
use ev4_builder_assistant_re.Planner.Evidence.Attach.{evidence_id_of}

-- `REQUIRED_COMPLETION_CLAIMS` of run-primitives.mjs.
abbrev pub required_claims : List Value
required_claims =
    str "scaffold_built"
    ∷ str "structure_built"
    ∷ str "content_filled"
    ∷ str "desktop_layout_established"
    ∷ str "layout_verified"
    ∷ str "export_checked"
    ∷ str "export_verified"
    ∷ []

-- `new Map(entries.map((entry) => [entry[k], entry])).get(v)`: the last entry with that key.
unfoldable pub find_last : String → Value → List Value → Option Value
find_last k v [] = none
find_last k v (e ∷ es) = elim (find_last k v es) [
  | none ↦ if strict_eq (get k e) v then some e else none
  | some found ↦ some found
]

pub record Verified : Type 0 where
  pub evidence_id : String
  pub evidence_ref : String
  pub sha : String
  pub classes : List Value
  pub subject_ref : Value
  pub action_id : Value

-- `!assertion || assertion.status !== 'confirmed' || …`.
assertion_mismatch : Option Value → Value → String → Bool
assertion_mismatch none source evidence_id = true
assertion_mismatch (some assertion) source evidence_id =
    not (strict_eq (get "status" assertion) (str "confirmed"))
    || (not (strict_eq (get "subject_ref" assertion) (get "subject_ref" source))
        || not (includes (elements (get "evidence_refs" assertion)) (str evidence_id)))

claim_binding_checks : Predecessor → Value → Value → String → List Value → List Check
unfolding assertion_mismatch
claim_binding_checks p ledger_record source evidence_id [] = []
claim_binding_checks p ledger_record source evidence_id (c ∷ cs) =
    (assertion_mismatch (find_last "assertion_id" c (elements (get "assertions" p.checkpoint)))
        source evidence_id
      reports "RUN-COMPLETE-EVIDENCE-005")
    ∷ (not (includes (elements (get "supports_claim_ids" ledger_record)) c)
        reports "RUN-COMPLETE-EVIDENCE-006")
    ∷ claim_binding_checks p ledger_record source evidence_id cs

-- The checks `local` of one snapshot against its ledger record.
unfoldable pub snapshot_checks : Predecessor → Value → String → String → Value → List Check
unfolding claim_binding_checks
snapshot_checks p ledger_record ref sha source =
    ((not (strict_eq (get "source_ref" ledger_record) (str ref))
        || (not (strict_eq (get "content_sha256" ledger_record) (str sha))
            || not (strict_eq (get "status" ledger_record) (str "available"))))
      reports "RUN-COMPLETE-EVIDENCE-003")
    ∷ (evidence_source_checks source p
        ++ claim_binding_checks p ledger_record source (evidence_id_of sha) (claim_ids source))

unfoldable pub verified_snapshot : String → String → Value → Verified
verified_snapshot ref sha source = record {
  evidence_id = evidence_id_of sha;
  evidence_ref = ref;
  sha = sha;
  classes = claim_classes source;
  subject_ref = get "subject_ref" source;
  action_id = get "action_id" source;
}

-- One round of the loop over the snapshots: its diagnostics, and the snapshot when there is none.
pub record Round : Type 0 where
  pub diagnostics : List String
  pub verified : List Verified

round_of : List String → Verified → Round
round_of problems v = record {
  diagnostics = problems;
  verified = if is_empty problems then v ∷ [] else [];
}

abbrev blocked_round : String → Round
blocked_round code = record { diagnostics = code ∷ []; verified = [] }

unfoldable pub verify_snapshot : Predecessor → String → String → Value → Round
unfolding round_of
verify_snapshot p ref sha source =
    elim (find_last "evidence_id" (str (evidence_id_of sha))
      (elements (get "evidence_ledger" p.checkpoint))) [
        | none ↦ blocked_round "RUN-COMPLETE-EVIDENCE-002"
        | some ledger_record ↦
            round_of (failures (snapshot_checks p ledger_record ref sha source))
              (verified_snapshot ref sha source)
      ]

unfoldable pub has_class : Value → Verified → Bool
has_class claim v = includes v.classes claim

unfoldable pub claim_verified : List Verified → Value → Bool
claim_verified vs claim = exists (has_class claim) vs

unfoldable pub action_verified : List Verified → Value → Bool
action_verified vs action =
    exists (λ v. has_class action_execution v && strict_eq v.action_id action) vs

distinct_subjects : List Verified → List Value
distinct_subjects [] = []
distinct_subjects (v ∷ vs) =
    let rest = distinct_subjects vs in
    if includes rest v.subject_ref then rest else v.subject_ref ∷ rest

-- The set of subjects of the snapshots that carry a claim.
unfoldable pub subjects_of : List Verified → Value → List Value
unfolding distinct_subjects
subjects_of vs claim = distinct_subjects (keep (has_class claim) vs)

-- `subjects.size > 1 || (subjects.size === 1 && !subjects.has(BUILDER_OUTPUT_SUBJECT))`.
unfoldable pub inconsistent_subjects : List Value → Bool
inconsistent_subjects [] = false
inconsistent_subjects (s ∷ []) = not (strict_eq s builder_output)
inconsistent_subjects (s ∷ t ∷ ss) = true

action_evidence_checks : List Verified → List Value → List Check
action_evidence_checks vs [] = []
action_evidence_checks vs (a ∷ as') =
    (not (action_verified vs a) reports "RUN-COMPLETE-EVIDENCE-007") ∷ action_evidence_checks vs as'

claim_evidence_checks : List Verified → List Value → List Check
claim_evidence_checks vs [] = []
claim_evidence_checks vs (c ∷ cs) =
    (not (claim_verified vs c) reports "RUN-COMPLETE-EVIDENCE-008")
    ∷ (inconsistent_subjects (subjects_of vs c) reports "RUN-COMPLETE-EVIDENCE-009")
    ∷ claim_evidence_checks vs cs

unfoldable pub coverage_checks : Predecessor → List Verified → List Check
unfolding action_evidence_checks claim_evidence_checks
coverage_checks p vs =
    action_evidence_checks vs (run_actions p) ++ claim_evidence_checks vs required_claims

-- `validatePreparedConfirmation` on a receipt and a result that were read.
unfoldable pub confirmation_checks : (String → String) → Predecessor → Value → Value → List Check
confirmation_checks sha256 p receipt result =
    (not (
        strict_eq (get "receipt_digest" receipt)
          (str (digest_without sha256 receipt "receipt_digest")))
      reports "RUN-COMPLETE-CONFIRM-002")
    ∷ ((not (strict_eq (get "run_id" receipt) (get "run_id" p.manifest))
          || not (strict_eq (get "run_id" result) (get "run_id" p.manifest)))
        reports "RUN-COMPLETE-CONFIRM-003")
    ∷ ((not (strict_eq (get "context_digest" receipt) (get "context_digest" p.context))
          || not (strict_eq (get "context_digest" result) (get "context_digest" p.context)))
        reports "RUN-COMPLETE-CONFIRM-004")
    ∷ ((not (strict_eq (get "package_digest" receipt) (get "canonical_package_digest" p.context))
          || (not (
                strict_eq (get "selected_candidate_id" receipt)
                  (get "selected_candidate_id" p.context))
              || not (
                  strict_eq (get "confirmation_id" receipt)
                    (get "confirmation_id" (get "confirmation" p.context)))))
        reports "RUN-COMPLETE-CONFIRM-005")
    ∷ ((not (strict_eq (get "batch_id" receipt) (batch_id p.context))
          || not (strict_eq (get "batch_id" p.checkpoint) (batch_id p.context)))
        reports "RUN-COMPLETE-CONFIRM-006")
    ∷ ((not (same_set (get "action_ids" receipt) (action_ids p.context))
          || not (same_json (get "action_digests" receipt) (action_digests p.context)))
        reports "RUN-COMPLETE-CONFIRM-007")
    ∷ (not (
          strict_eq (get "operator_token" receipt)
            (get "expected_user_token" (get "confirmation" p.context)))
        reports "RUN-COMPLETE-CONFIRM-008")
    ∷ ((not (
            strict_eq (get "checkpoint_id" (get "resulting_checkpoint" receipt))
              (get "confirmed_checkpoint_id" p.manifest))
          || not (
              strict_eq (get "checkpoint_sequence" (get "resulting_checkpoint" receipt))
                (get "confirmed_checkpoint_sequence" p.manifest)))
        reports "RUN-COMPLETE-CONFIRM-009")
    ∷ ((not (strict_eq (get "receipt_digest" result) (get "receipt_digest" receipt))
          || not (
              strict_eq (get "checkpoint_id" (get "resulting_checkpoint" result))
                (get "checkpoint_id" (get "resulting_checkpoint" receipt))))
        reports "RUN-COMPLETE-CONFIRM-010")
    ∷ ((not (same_set (get "confirmed_action_ids" p.checkpoint) (action_ids p.context))
          || has_length (get "unconfirmed_action_ids" p.checkpoint))
        reports "RUN-COMPLETE-CONFIRM-011")
    ∷ []

module _ (sha256 : String → String) where
  -- `entry.error || !entry.bytes || !entry.source`, then the snapshot's own checks.
  unfoldable pub verify_entry : Predecessor → EvidenceEntry → Round
  verify_entry p entry = elim (entry.content) [
    | none ↦ blocked_round "RUN-COMPLETE-EVIDENCE-001"
    | some (content, source) ↦
        if truthy source
        then verify_snapshot p entry.ref (sha256 content) source
        else blocked_round "RUN-COMPLETE-EVIDENCE-001"
  ]

  unfoldable pub verify_entries : Predecessor → List EvidenceEntry → Round
  verify_entries p [] = record { diagnostics = []; verified = [] }
  verify_entries p (e ∷ es) =
      let here = verify_entry p e in
      let later = verify_entries p es in
      record {
        diagnostics = here.diagnostics ++ later.diagnostics;
        verified = here.verified ++ later.verified;
      }

  unfoldable pub verify_prepared_evidence : Predecessor → Round
  verify_prepared_evidence p =
      let rounds = verify_entries p p.planning.evidence_entries in
      record {
        diagnostics = rounds.diagnostics ++ failures (coverage_checks p rounds.verified);
        verified = rounds.verified;
      }

  unfoldable pub validate_prepared_confirmation : Predecessor → List String
  unfolding confirmation_checks
  validate_prepared_confirmation p =
      if truthy p.planning.confirmation_receipt && truthy p.planning.confirmation_result
      then failures (
          confirmation_checks sha256 p p.planning.confirmation_receipt
            p.planning.confirmation_result)
      else p.planning.diagnostics
