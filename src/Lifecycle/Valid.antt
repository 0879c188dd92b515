-- ===== src/Lifecycle/Valid.antt =====
-- When a loaded run is valid, and what follows from its checks.
use ev4_builder_assistant_re.Base.{
  ℕ, ◌≤◌, String, true, [], ◌≡◌, arith, All, All_split, append-eq-nil,
}
use ev4_builder_assistant_re.Diagnostics.{Clear, failures-eq-nil, passed}
use ev4_builder_assistant_re.Json.{Value, num, get}
use ev4_builder_assistant_re.Json.Laws.{IsObject, IsObject-text, strict_eq-eq}
use ev4_builder_assistant_re.Primitives.Checkpoint.{is_inked_text}
use ev4_builder_assistant_re.Primitives.Names.{generation_ref, generation_name, max_generation}
use ev4_builder_assistant_re.Planner.Types.{Predecessor}
use ev4_builder_assistant_re.Validation.Manifest.{
  generation_bound, source_checks, digest_checks, generation_checks, manifest_checks,
  validate_manifest_shape,
}
use ev4_builder_assistant_re.Validation.Generation.{
  Generation, context_checks, binding_checks, validate_generation,
}

abbrev pub generation_of : Predecessor → Generation
generation_of p = record {
  manifest = p.manifest;
  context = p.context;
  session = p.session;
  checkpoint = p.checkpoint;
}

module _ (sha256 : String → String) where
  -- The loaded generation passes its validation, its number is the pointer's, and its checkpoint has a
  -- name, as the schemas of the state files ask.
  pub record IsValid (p : Predecessor) : Type 0 where
    pub accepted : validate_generation sha256 [] (num p.generation) (generation_of p) ≡ []
    pub named : is_inked_text (get "checkpoint_id" p.checkpoint) ≡ true

  -- The same, check by check.
  pub record Checked (p : Predecessor) : Type 0 where
    pub source : All Clear (source_checks p.manifest)
    pub digests : All Clear (digest_checks sha256 p.manifest)
    pub context : All Clear (context_checks sha256 p.context)
    pub bindings : All Clear (binding_checks (generation_of p))
    pub number : get "number" (get "generation" p.manifest) ≡ num p.generation

  pub IsValid-Checked : (p : Predecessor) → IsValid p → Checked p
  unfolding validate_generation validate_manifest_shape manifest_checks
  IsValid-Checked p v =
      let (shape, rest) = append-eq-nil _ _ v.accepted in
      let (checks, _) = append-eq-nil _ _ rest in
      let (sources, others) =
        All_split Clear (source_checks p.manifest) _ ((failures-eq-nil _).0 shape) in
      let (digests, _) =
        All_split Clear (digest_checks sha256 p.manifest) (generation_checks p.manifest) others in
      let all = (failures-eq-nil _).0 checks in
      let (contexts, bindings) =
        All_split Clear (context_checks sha256 p.context) (binding_checks (generation_of p))
          all.1 in
      record {
        source = sources;
        digests = digests;
        context = contexts;
        bindings = bindings;
        number = strict_eq-eq _ _ (passed _ all.0);
      }

module _ (sha256 : String → String) where
  pub manifest-IsObject : (p : Predecessor) → IsValid sha256 p → IsObject p.manifest
  unfolding source_checks
  manifest-IsObject p v =
      IsObject-text "schema" p.manifest _
        (strict_eq-eq _ _ (passed _ (IsValid-Checked sha256 p v).source.0))

-- A number that a reference binds is a generation's number.
pub generation_bound-range :
    (n : ℕ) (ref : Value) → generation_bound (num n) ref ≡ true → (1 ≤ n) × (n ≤ max_generation)
unfolding generation_bound generation_ref generation_name
generation_bound-range n ref h = ground arith
