-- ===== src/Gates/Completion.antt =====
-- scripts/validate-completion-gate.mjs: when an artifact may claim that a build is ready for production.
use ev4_builder_assistant_re.Base.{
  String, Bool, true, false, not, ◌&&◌, List, [], ◌∷◌, ◌++◌, keep, length, ltb, ◌==◌, is_empty,
  if◌then◌else◌, ◌≡◌, All,
}
use ev4_builder_assistant_re.Diagnostics.{Check, ◌reports◌, failures}
use ev4_builder_assistant_re.Json.{
  Value, undefined, bool, str, get, truthy, strict_eq, is_array, elements,
}

abbrev identity_fields : List String
identity_fields = "package_digest" ∷ "session_id" ∷ "checkpoint_id" ∷ "checkpoint_sequence" ∷ []

abbrev pub required_proofs : List String
required_proofs =
    "layout_verified" ∷ "frontend_verified" ∷ "responsive_verified" ∷ "accessibility_verified"
    ∷ "browser_verified" ∷ "export_verified" ∷ "final_qa_verified" ∷ []

-- `proof.status === 'confirmed'` with at least one reference to evidence.
unfoldable pub proof_complete : Value → Bool
proof_complete proof =
    truthy proof
    && (strict_eq (get "status" proof) (str "confirmed")
        && (is_array (get "evidence_refs" proof)
            && not (is_empty (elements (get "evidence_refs" proof)))))

-- A missing `proofs` has no proof.
unfoldable pub incomplete_proofs : Value → List String
incomplete_proofs gate =
    keep (λ name. not (proof_complete (get name (get "proofs" gate)))) required_proofs

abbrev claims_ready : Value → Bool
claims_ready gate = strict_eq (get "required_next_action" gate) (str "claim_production_ready")

identity_checks : Value → List Check
identity_checks gate =
    let present =
      length (keep (λ field. not (strict_eq (get field gate) undefined)) identity_fields) in
    (not (strict_eq (get "schema" gate) (str "ev4-completion-gate@0.1.0"))
      reports "EV4-COMPLETE-001")
    ∷ (ltb 0 present && not (present == 4) reports "EV4-COMPLETE-011")
    ∷ []

unfoldable pub allowed_checks : Value → List Check
allowed_checks gate =
    (not (strict_eq (get "production_ready_claim" gate) (bool true)) reports "EV4-COMPLETE-002")
    ∷ (not (claims_ready gate) reports "EV4-COMPLETE-003")
    ∷ (not (is_empty (incomplete_proofs gate)) reports "EV4-COMPLETE-004")
    ∷ []

unfoldable pub claim_checks : Value → List Check
claim_checks gate =
    (not (strict_eq (get "production_ready_allowed" gate) (bool true)) reports "EV4-COMPLETE-005")
    ∷ (not (claims_ready gate) reports "EV4-COMPLETE-006")
    ∷ (not (is_empty (incomplete_proofs gate)) reports "EV4-COMPLETE-007")
    ∷ []

unfoldable pub refused_checks : Value → List Check
refused_checks gate =
    (not (strict_eq (get "production_ready_claim" gate) (bool false)) reports "EV4-COMPLETE-008")
    ∷ (claims_ready gate reports "EV4-COMPLETE-009")
    ∷ []

checks_when : Bool → List Check → List String
checks_when condition checks = if condition then failures checks else []

unfoldable pub validate_completion_gate : Value → List String
unfolding identity_checks checks_when
validate_completion_gate gate =
    failures (identity_checks gate)
    ++ (checks_when (strict_eq (get "production_ready_allowed" gate) (bool true))
          (allowed_checks gate)
        ++ (checks_when (strict_eq (get "production_ready_claim" gate) (bool true))
              (claim_checks gate)
            ++ (checks_when (strict_eq (get "production_ready_allowed" gate) (bool false))
                  (refused_checks gate)
                ++ failures (
                    (not (is_empty (incomplete_proofs gate)) && claims_ready gate
                      reports "EV4-COMPLETE-010")
                    ∷ []))))

-- What an accepted claim of production readiness rests on.
pub record Ready (gate : Value) : Type 0 where
  pub allowed : get "production_ready_allowed" gate ≡ bool true
  pub next : get "required_next_action" gate ≡ str "claim_production_ready"
  pub proofs : All (λ name. proof_complete (get name (get "proofs" gate)) ≡ true) required_proofs
