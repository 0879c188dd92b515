-- ===== src/Publication.antt =====
-- `expectedPublicationFiles` and `validatePublication` of scripts/lib/runtime/run-state-store.mjs: the
-- files that a transition publishes, and the check of the result that names them.
pub mod Accepted
use ev4_builder_assistant_re.Base.{
  String, Bool, false, not, ◌||◌, List, [], ◌∷◌, ◌++◌, map, str_eq, template, if◌then◌else◌,
}
use ev4_builder_assistant_re.Base.Order.{sort_text}
use ev4_builder_assistant_re.Diagnostics.{◌reports◌, failures}
use ev4_builder_assistant_re.Json.{Value, bool, str, array, get, strict_eq, has_length}
use ev4_builder_assistant_re.Primitives.Sets.{same_set}

pub data Operation : Type 0 where
  real_intake emit_batch confirm_batch attach_evidence real_completion : Operation

-- The `refs` of a transition; a reference that the operation has not is the empty text.
pub record Refs : Type 0 where
  pub generation_ref : String
  pub result_ref : String
  pub receipt_ref : String
  pub evidence_ref : String
  pub status_ref : String
  pub gate_ref : String

-- `ACTIVE_STATE_FILENAMES` of run-primitives.mjs.
abbrev pub active_state_filenames : List String
active_state_filenames =
    "run-manifest.json" ∷ "runtime-context.json" ∷ "session-state.json" ∷ "checkpoint.json" ∷ []

-- The references besides CURRENT.json and the generation's files.
own_files : Operation → Refs → List String
own_files real_intake r =
    r.result_ref
    ∷ "source/selected-source.json"
    ∷ (if str_eq r.receipt_ref "" then [] else r.receipt_ref ∷ [])
own_files emit_batch r = r.result_ref ∷ []
own_files confirm_batch r = r.receipt_ref ∷ r.result_ref ∷ []
own_files attach_evidence r = r.evidence_ref ∷ r.result_ref ∷ []
own_files real_completion r = r.result_ref ∷ r.status_ref ∷ r.gate_ref ∷ []

unfoldable pub publication_files : Operation → Refs → List String
unfolding own_files
publication_files operation r =
    "CURRENT.json"
    ∷ (map (λ name. template (r.generation_ref ∷ "/" ∷ name ∷ [])) active_state_filenames
        ++ own_files operation r)

unfoldable pub expected_publication_files : Operation → Refs → List String
expected_publication_files operation r = sort_text (publication_files operation r)

unfoldable pub validate_publication : Value → Operation → Refs → String → Value → List String
validate_publication result operation refs expected_schema expected_run_id = failures (
    (not (strict_eq (get "schema" result) (str expected_schema)) reports "RUN-ARTIFACT-001")
    ∷ (not (strict_eq (get "run_id" result) expected_run_id) reports "RUN-ARTIFACT-002")
    ∷ ((not (strict_eq (get "status" result) (str "accepted"))
          || has_length (get "blocking_diagnostics" result))
        reports "RUN-ARTIFACT-003")
    ∷ (not (
          same_set (get "files" (get "publication" result))
            (array (map str (expected_publication_files operation refs))))
        reports "RUN-ARTIFACT-004")
    ∷ ((not (strict_eq (get "responsive_complete" result) (bool false))
          || not (strict_eq (get "production_ready" result) (bool false)))
        reports "RUN-ARTIFACT-005")
    ∷ [])
