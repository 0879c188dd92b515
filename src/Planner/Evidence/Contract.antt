-- ===== src/Planner/Evidence/Contract.antt =====
-- What an attachment of evidence requires and what it records.
use ev4_builder_assistant_re.Base.{
  String, true, false, List, [], ◌∷◌, ◌++◌, map, ◌≡◌, All, All_split, or-eq-false,
}
use ev4_builder_assistant_re.Diagnostics.{Clear, passed}
use ev4_builder_assistant_re.Json.{Value, str, get, elements, includes, to_text}
use ev4_builder_assistant_re.Json.Laws.{strict_eq-eq}
use ev4_builder_assistant_re.Planner.Types.{Predecessor, Successor}
use ev4_builder_assistant_re.Planner.Evidence.{
  claim_compatibility, claim_set_compatible, claim_classes, claim_ids, claim_type_checks,
  type_allowed, evidence_source_checks, all_distinct,
}
use ev4_builder_assistant_re.Planner.Evidence.Attach.{
  assertion_ids, new_assertion, resulting_ledger, evidence_id_of, evidence_ref_of,
}

types_allowed :
    (source : Value) (classes : List Value)
    → All Clear (claim_type_checks source classes)
    → All
        (λ c. type_allowed (claim_compatibility (to_text c)) (get "evidence_type" source) ≡ true)
        classes
unfolding claim_type_checks
types_allowed source [] h = tt
types_allowed source (c ∷ classes) h = (passed _ h.0, types_allowed source classes h.1)

-- What a source that passes says: it is verified, belongs to the run, its claims differ and go together,
-- and its type of evidence is one that each of its claims admits.
pub record Sound (source : Value) (p : Predecessor) : Type 0 where
  pub verified : get "status" source ≡ str "verified"
  pub session : get "session_id" source ≡ get "session_id" p.session
  pub package_digest : get "package_digest" source ≡ get "canonical_package_digest" p.context
  pub distinct : all_distinct (claim_ids source) ≡ true
  pub compatible : claim_set_compatible (claim_classes source) ≡ true
  pub typed :
      All
        (λ c. type_allowed (claim_compatibility (to_text c)) (get "evidence_type" source) ≡ true)
        (claim_classes source)

pub evidence_source_checks-Sound :
    (source : Value) (p : Predecessor)
    → All Clear (evidence_source_checks source p)
    → Sound source p
unfolding evidence_source_checks
evidence_source_checks-Sound source p (_, (status, (ids, (classes, (session, (package', rest)))))) =
    let (types, _) = All_split Clear (claim_type_checks source (claim_classes source)) _ rest in
    record {
      verified = strict_eq-eq _ _ (passed _ status);
      session = strict_eq-eq _ _ (passed _ session);
      package_digest = strict_eq-eq _ _ (passed _ package');
      distinct = passed _ (or-eq-false _ _ (or-eq-false _ _ ids).1).1;
      compatible = passed _ (or-eq-false _ _ (or-eq-false _ _ classes).1).1;
      typed = types_allowed source (claim_classes source) types;
    }

module _ (sha256 : String → String) (p : Predecessor) (content : String) (source : Value)
    (s : Successor) where
  -- Nothing that the checkpoint asserts or records is lost, and nothing is asserted or attached twice.
  pub record Attaches : Type 0 where
    pub sound : Sound source p
    pub new_claims : All (λ c. includes (assertion_ids p) c ≡ false) (claim_ids source)
    pub new_snapshot :
        includes
          (elements (get "evidence_snapshot_refs" p.manifest))
          (str (evidence_ref_of (sha256 content)))
        ≡ false
    pub assertions :
        elements (get "assertions" s.checkpoint)
        ≡ elements (get "assertions" p.checkpoint)
          ++ map (new_assertion source (evidence_id_of (sha256 content))) (claim_ids source)
    pub ledger :
        elements (get "evidence_ledger" s.checkpoint)
        ≡ resulting_ledger p source
            (evidence_id_of (sha256 content))
            (evidence_ref_of (sha256 content))
            (sha256 content)
    pub confirmed_actions :
        get "confirmed_action_ids" s.checkpoint ≡ get "confirmed_action_ids" p.checkpoint
