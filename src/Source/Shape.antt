-- ===== src/Source/Shape.antt =====
-- `verifyContextShape` and the comparison of `verifyDerivedContext` of
-- scripts/lib/builder-explicit-source-runtime.mjs.
use ev4_builder_assistant_re.Base.{
  ◌&&◌, String, Bool, true, false, not, ◌||◌, List, [], ◌∷◌, ◌++◌, map, Option, none, some, ◌≡◌,
  refl, All, str_eq, str_eq_refl, arith, if◌then◌else◌,
}
use ev4_builder_assistant_re.Canonical.{canonical_digest, digest_without, sorted_canonical_json}
use ev4_builder_assistant_re.Diagnostics.{
  Check, Clear, ◌reports◌, failures, failures-eq-nil, passes, neither,
}
use ev4_builder_assistant_re.Json.{
  Value, bool, str, obj, Fields, field, no_field, get, truthy, put, remove, strict_eq,
}
use ev4_builder_assistant_re.Json.Laws.{strict_eq_text}
use ev4_builder_assistant_re.Primitives.Names.{is_hash}
use ev4_builder_assistant_re.Primitives.Sources.{project_gate, manual_builder_input}
use ev4_builder_assistant_re.Validation.Manifest.{hash_ok, is_source_mode}
use ev4_builder_assistant_re.Lifecycle.Bindings.{hash_ok_text}
use ev4_builder_assistant_re.Source.Context.{
  File, context_semantics, compute_package_digest, bare_context, sealed_context,
}
use ev4_builder_assistant_re.Store.Directory.{stable_json}
use ev4_builder_assistant_re.Source.Sealed.{resolve_explicit_builder_source-Sealed}
use ev4_builder_assistant_re.Source.Resolve.{
  resolve_explicit_builder_source, Resolution, rejected, resolution_threw, resolved,
}

abbrev owns_field : String → Fields → Bool
owns_field k no_field = false
owns_field k (field j v fs) = str_eq j k || owns_field k fs

-- `Object.hasOwn(context || {}, key)`.
unfoldable pub has_own : String → Value → Bool
has_own k (obj fs) = owns_field k fs
has_own k v = false

unfoldable pub expected_origin : Value → Value
expected_origin mode =
    if strict_eq mode manual_builder_input
    then str "manual_operator_supplied"
    else str "not_independently_verified"

unfoldable pub expected_receipt : Value → Value
expected_receipt mode = if strict_eq mode project_gate then str "matched" else str "not_applicable"

unfoldable pub binding_field_checks : Value → List Check
binding_field_checks c =
    (not (strict_eq (get "schema" c) (str "ev4-builder-verified-context@1.0.0"))
      reports "BUILDER-CONTEXT-101")
    ∷ (not (strict_eq (get "runtime_mode" c) (str "real-builder-run"))
        reports "BUILDER-CONTEXT-102")
    ∷ (not (is_source_mode (get "source_mode" c)) reports "BUILDER-CONTEXT-103")
    ∷ (not (strict_eq (get "source_selection" c) (str "operator_explicit"))
        reports "BUILDER-CONTEXT-104")
    ∷ (not (strict_eq (get "content_binding_status" c) (str "verified"))
        reports "BUILDER-CONTEXT-105")
    ∷ (not (strict_eq (get "origin_assurance" c) (expected_origin (get "source_mode" c)))
        reports "BUILDER-CONTEXT-106")
    ∷ (not (strict_eq (get "receipt_binding_status" c) (expected_receipt (get "source_mode" c)))
        reports "BUILDER-CONTEXT-107")
    ∷ []

module _ (sha256 : String → String) where
  unfoldable pub content_checks : Value → List Check
  content_checks c =
      (not (hash_ok (get "selected_source_sha256" c)) reports "BUILDER-CONTEXT-108")
      ∷ (not (hash_ok (get "builder_input_sha256" c)) reports "BUILDER-CONTEXT-108")
      ∷ (not (hash_ok (get "canonical_package_digest" c)) reports "BUILDER-CONTEXT-108")
      ∷ (not (strict_eq (get "synthetic_derived" c) (bool false)) reports "BUILDER-CONTEXT-109")
      ∷ (not (hash_ok (get "context_digest" c))
            || not (
                strict_eq (get "context_digest" c) (str (digest_without sha256 c "context_digest")))
          reports "BUILDER-CONTEXT-110")
      ∷ []

  unfoldable pub overclaim_checks : Value → List Check
  overclaim_checks c =
      map (λ name. has_own name c reports "BUILDER-CONTEXT-111")
        ("verification_status" ∷ "producer_repository" ∷ "producer_commit_sha"
          ∷ "producer_artifact_id" ∷ "producer_artifact_sha256" ∷ [])

  unfoldable pub verify_context_shape : Value → List String
  verify_context_shape c =
      failures (binding_field_checks c)
      ++ (failures (content_checks c) ++ failures (overclaim_checks c))

  -- The stored context against a resolution; `none` is a file that does not parse.
  unfoldable pub stored_diagnostics : Option Value → Option Value → List String
  stored_diagnostics derived none = "BUILDER-CONTEXT-112" ∷ []
  stored_diagnostics none (some stored) = verify_context_shape stored
  stored_diagnostics (some derived) (some stored) =
      verify_context_shape stored
      ++ failures (
          (truthy stored
              && not (str_eq (sorted_canonical_json derived) (sorted_canonical_json stored))
            reports "BUILDER-CONTEXT-113")
          ∷ [])

  -- `none` is an exception of the resolution.
  unfoldable pub verify_derived_context : Resolution → Option Value → Option (List String)
  verify_derived_context resolution_threw stored = none
  verify_derived_context (rejected diagnostics) stored =
      some (diagnostics ++ stored_diagnostics none stored)
  verify_derived_context (resolved p bytes context) stored =
      some (stored_diagnostics (some context) stored)

module _ (sha256 : String → String) (hashes : (t : String) → is_hash (sha256 t) ≡ true)
    (mode : Value) (selected : File) (artifact input : Option File) (bytes : String)
    (p batch : Value) (listed : is_source_mode mode ≡ true) where
  abbrev context : Value
  context = sealed_context sha256 (bare_context sha256 mode selected artifact input bytes p batch)

  same_choice :
      (b : Bool) (x y : String)
      → strict_eq (if b then str x else str y) (if b then str x else str y) ≡ true
  same_choice true x y = strict_eq_text x
  same_choice false x y = strict_eq_text y

  binding_field_checks-Clear : All Clear (binding_field_checks context)
  unfolding binding_field_checks bare_context sealed_context context_semantics expected_origin
      expected_receipt get put strict_eq
  binding_field_checks-Clear = (
    refl,
    (
      refl,
      (
        passes _ listed,
        (
          refl,
          (
            refl,
            (
              passes _ (same_choice (strict_eq mode manual_builder_input) _ _),
              (passes _ (same_choice (strict_eq mode project_gate) _ _), tt),
            ),
          ),
        ),
      ),
    ),
  )

  content_checks-Clear : All Clear (content_checks sha256 context)
  unfolding content_checks bare_context sealed_context context_semantics get put remove
      digest_without canonical_digest compute_package_digest strict_eq
  content_checks-Clear = (
    passes _ (rw hash_ok_text (hashes _)),
    (
      passes _ (rw hash_ok_text (hashes _)),
      (
        passes _ (rw hash_ok_text (hashes _)),
        (
          refl,
          (
            neither _ _
                (passes (hash_ok (get "context_digest" context)) (rw hash_ok_text (hashes _)))
                (passes _ (strict_eq_text _)),
            tt,
          ),
        ),
      ),
    ),
  )

  verify_context_shape-clear : verify_context_shape sha256 context ≡ []
  unfolding verify_context_shape overclaim_checks has_own bare_context sealed_context
      context_semantics put failures
  verify_context_shape-clear =
      rw
        (
          (failures-eq-nil _).1 binding_field_checks-Clear,
          (failures-eq-nil _).1 content_checks-Clear,
        )
        refl

no_difference : (b : Bool) → (b && not true) ≡ false
no_difference b = ground arith

module _ (sha256 : String → String) (hashes : (t : String) → is_hash (sha256 t) ≡ true)
    (parse : String → Option Value) (input_problems : String → List String)
    (derive : Value → Option Value)
    (written : (source p : Value) → derive source ≡ some p → parse (stable_json p) ≡ some p)
    (mode : Value) (artifact input : Option File) where
  -- When a source is resolved, its context, stored as it is, passes the check of its shape and the
  -- comparison with a fresh derivation from the same source, without a diagnostic. The text that is
  -- written of a package derived from a CE source parses to that package, and SHA-256 is assumed to
  -- yield 64 hexadecimal digits.
  pub resolve_explicit_builder_source-verify_derived_context :
      (p : Value) (bytes : String) (context : Value)
      → resolve_explicit_builder_source sha256 parse input_problems derive mode artifact input
        ≡ resolved p bytes context
      → verify_derived_context sha256
          (resolve_explicit_builder_source sha256 parse input_problems derive mode artifact input)
          (some context)
        ≡ some []
  unfolding verify_derived_context stored_diagnostics failures
  resolve_explicit_builder_source-verify_derived_context p bytes context h =
      let s =
        resolve_explicit_builder_source-Sealed sha256 parse input_problems derive written mode
          artifact input p bytes context h in
      let shape : verify_context_shape sha256 context ≡ [] = rw s.made (
        verify_context_shape-clear sha256 hashes mode s.selected artifact input bytes p s.batch
          s.listed) in
      rw (h, shape, str_eq_refl (sorted_canonical_json context), no_difference (truthy context))
        refl
