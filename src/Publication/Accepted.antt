-- ===== src/Publication/Accepted.antt =====
-- A result that says what the runtime's results say passes the check of its publication.
use ev4_builder_assistant_re.Base.{String, false, [], map, ◌≡◌, refl}
use ev4_builder_assistant_re.Diagnostics.{failures}
use ev4_builder_assistant_re.Json.{Value, bool, str, array, get, strict_eq, has_length}
use ev4_builder_assistant_re.Json.Laws.{strict_eq_text}
use ev4_builder_assistant_re.Primitives.Sets.{same_set_refl}
use ev4_builder_assistant_re.Publication.{
  Operation, Refs, expected_publication_files, validate_publication,
}

-- What every accepted result says, whatever the operation.
pub record Accepts (result : Value) (operation : Operation) (refs : Refs) (schema : String)
    (run_id : Value) : Type 0 where
  pub schema_named : get "schema" result ≡ str schema
  pub run : get "run_id" result ≡ run_id
  pub status : get "status" result ≡ str "accepted"
  pub unblocked : get "blocking_diagnostics" result ≡ array []
  pub files :
      get "files" (get "publication" result)
      ≡ array (map str (expected_publication_files operation refs))
  pub responsive : get "responsive_complete" result ≡ bool false
  pub production : get "production_ready" result ≡ bool false

pub Accepts-validate :
    (result : Value) (operation : Operation) (refs : Refs) (schema : String) (run_id : Value)
    (r : String)
    → run_id ≡ str r
    → Accepts result operation refs schema run_id
    → validate_publication result operation refs schema run_id ≡ []
unfolding validate_publication failures strict_eq has_length
Accepts-validate result operation refs schema run_id r named a =
    rw
      (
        a.schema_named,
        a.run,
        a.status,
        a.unblocked,
        a.files,
        a.responsive,
        a.production,
        named,
        strict_eq_text schema,
        strict_eq_text r,
        same_set_refl (expected_publication_files operation refs),
      )
      refl
