-- ===== src/Store/Context.antt =====
-- The context that a run keeps carries its own digest: `normalizeContextForRun`.
use ev4_builder_assistant_re.Base.{String, ◌≡◌, ap, ◌∙◌, str_eq_refl, sym}
use ev4_builder_assistant_re.Canonical.{canonical_digest, digest_without}
use ev4_builder_assistant_re.Json.{Value, str, obj, get, put, remove}
use ev4_builder_assistant_re.Json.Laws.{IsObject, get-put, put-IsObject, remove-put, remove-remove}
use ev4_builder_assistant_re.Store.Intake.{normalize_context_for_run}

remove-IsObject : (k : String) (v : Value) → IsObject v → IsObject (remove k v)
unfolding remove
remove-IsObject k (obj fs) h = tt
remove-IsObject k _ h = elim h [ ]

module _ (sha256 : String → String) where
  -- A field that is deleted and then set to the digest of what is left is its own digest.
  renewed-digest :
      (k : String) (v : Value)
      → IsObject v
      → get k (put k (str (canonical_digest sha256 (remove k v))) (remove k v))
        ≡ str (
            digest_without sha256
              (put k (str (canonical_digest sha256 (remove k v))) (remove k v))
              k)
  unfolding digest_without
  renewed-digest k v h =
      let bare = remove k v in
      let digest = str (canonical_digest sha256 bare) in
      let left = remove-put k digest bare ∙ remove-remove k v in
      get-put k k digest bare (remove-IsObject k v h)
      ∙ rw (str_eq_refl k) (ap (λ w. str (canonical_digest sha256 w)) (sym left))

  -- The digest that normalisation writes into the context of a run, an object, is the one that the
  -- validation of generations computes of it.
  pub normalize_context_for_run-digest :
      (context mode : Value) (selected receipt : String)
      → IsObject context
      → get "context_digest" (normalize_context_for_run sha256 context mode selected receipt)
        ≡ str (
            digest_without sha256
              (normalize_context_for_run sha256 context mode selected receipt)
              "context_digest")
  unfolding normalize_context_for_run
  normalize_context_for_run-digest context mode selected receipt h =
      renewed-digest "context_digest" _
        (put-IsObject _ _ _ (put-IsObject _ _ _ (put-IsObject _ _ _ h)))
