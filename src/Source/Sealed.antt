-- ===== src/Source/Sealed.antt =====
-- What a resolved source is resolved to: the sealed context of a package that names its candidate and its batch.
use ev4_builder_assistant_re.Base.{
  String, true, List, Option, none, some, is_empty, ◌≡◌, refl, inl, inr, Bool-cases, append-eq-nil,
  is_empty-eq-nil,
}
use ev4_builder_assistant_re.Json.{Value, get}
use ev4_builder_assistant_re.Json.Laws.{IsText}
use ev4_builder_assistant_re.Validation.Manifest.{is_source_mode}
use ev4_builder_assistant_re.Store.Directory.{stable_json}
use ev4_builder_assistant_re.Source.Named.{Named, read_mode-Named}
use ev4_builder_assistant_re.Source.Batch.{batch_identity, batch_identity-IsText}
use ev4_builder_assistant_re.Source.Context.{
  File, bare_context, sealed_context, context_from, build_runtime_context,
}
use ev4_builder_assistant_re.Source.Resolve.{
  Reading, Resolution, resolved, resolution_of, resolve_bytes, source_diagnostics, resolve_reading,
  resolve_explicit_builder_source,
}

module _ (sha256 : String → String) (parse : String → Option Value)
    (input_problems : String → List String) (derive : Value → Option Value)
    (written : (source p : Value) → derive source ≡ some p → parse (stable_json p) ≡ some p)
    (mode : Value) (artifact input : Option File) where
  pub record Sealed (p : Value) (bytes : String) (context : Value) : Type 0 where
    pub listed : is_source_mode mode ≡ true
    pub selected : File
    pub batch : Value
    pub made :
        context
        ≡ sealed_context sha256 (bare_context sha256 mode selected artifact input bytes p batch)
    pub candidate : IsText (get "selected_candidate_id" p)
    pub named : IsText (get "batch_id" batch)

  abbrev Sealing : Resolution → Type 0
  Sealing (resolved p bytes context) = Sealed p bytes context
  Sealing r = Unit {0}

  context_from-Sealing :
      (file : Option File) (bytes : String) (p : Value) (batch : Option Value)
      → is_source_mode mode ≡ true
      → IsText (get "selected_candidate_id" p)
      → batch_identity sha256 p ≡ batch
      → Sealing (
          resolution_of sha256 parse input_problems derive p
            (context_from sha256 mode file artifact input bytes p batch)
            bytes)
  unfolding resolution_of context_from
  context_from-Sealing none bytes p batch listed candidate is = tt
  context_from-Sealing (some file) bytes p none listed candidate is = tt
  context_from-Sealing (some file) bytes p (some batch) listed candidate is = record {
    listed = listed;
    selected = file;
    batch = batch;
    made = refl;
    candidate = candidate;
    named = batch_identity-IsText sha256 p batch is;
  }

  resolve_bytes-Sealing :
      (r : Reading) (o : Option String)
      → is_source_mode mode ≡ true
      → ((bytes : String) → o ≡ some bytes → IsText (get "selected_candidate_id" r.builder_package))
      → Sealing
          (resolve_bytes sha256 parse input_problems derive mode artifact input r.builder_package o)
  unfolding resolve_bytes build_runtime_context
  resolve_bytes-Sealing r none listed candidate = tt
  resolve_bytes-Sealing r (some bytes) listed candidate =
      context_from-Sealing _ bytes r.builder_package _ listed (candidate bytes refl) refl

  resolve_reading-Sealing :
      (r : Reading)
      → is_source_mode mode ≡ true
      → Named sha256 parse input_problems derive r
      → Sealing (resolve_reading sha256 parse input_problems derive mode artifact input r)
  unfolding resolve_reading source_diagnostics
  resolve_reading-Sealing r listed named =
      elim (Bool-cases
        (is_empty (source_diagnostics sha256 parse input_problems derive mode artifact input r))) [
          | inl clear ↦
              let (_, rest) = append-eq-nil _ _ (is_empty-eq-nil _ clear) in
              let (read, _) = append-eq-nil r.diagnostics _ rest in
              rw (resolve_reading, clear)
                (resolve_bytes-Sealing r r.input_bytes listed (named read))
          | inr bad ↦ rw (resolve_reading, bad) tt
        ]

  resolution-Sealing :
      Sealing
        (resolve_explicit_builder_source sha256 parse input_problems derive mode artifact input)
  unfolding resolve_explicit_builder_source
  resolution-Sealing = elim (Bool-cases (is_source_mode mode)) [
    | inl listed ↦
        rw (resolve_explicit_builder_source, listed)
          (resolve_reading-Sealing _ listed
            (read_mode-Named sha256 parse input_problems derive written mode artifact input))
    | inr other ↦ rw (resolve_explicit_builder_source, other) tt
  ]

  pub resolve_explicit_builder_source-Sealed :
      (p : Value) (bytes : String) (context : Value)
      → resolve_explicit_builder_source sha256 parse input_problems derive mode artifact input
        ≡ resolved p bytes context
      → Sealed p bytes context
  resolve_explicit_builder_source-Sealed p bytes context h = rw h at resolution-Sealing
