-- ===== src/Planner/Prepare.antt =====
-- `readCanonicalArtifact` and `preparePlanningPredecessor` of
-- scripts/lib/runtime/transition-planner-common.mjs. The run directory is a parameter: `read ref` is the
-- bytes and the parsed value of the file that `safeRunRef` resolves `ref` to, or nothing when the reference
-- is unsafe or the file is missing or malformed. So is the full derivation, which runs the intake again.
use ev4_builder_assistant_re.Base.{
  String, true, ◌&&◌, List, [], ◌∷◌, ◌++◌, map, Option, none, some, ◌≡◌, refl, if◌then◌else◌,
  Option-cases, Bool-cases, inl, inr, arith, append-eq-nil,
}
use ev4_builder_assistant_re.Json.{Value, null, str, get, strict_eq, truthy, elements, to_text}
use ev4_builder_assistant_re.Json.Laws.{strict_eq-eq, strict_eq_text}
use ev4_builder_assistant_re.Publication.{
  Operation, emit_batch, confirm_batch, real_completion, real_intake, attach_evidence,
}
use ev4_builder_assistant_re.Planner.Types.{EvidenceEntry, Planning, Predecessor}
use ev4_builder_assistant_re.Planner.Emit.{emit_schema}
use ev4_builder_assistant_re.Planner.Confirm.{receipt_schema, confirmation_schema}

pub record Artifact : Type 0 where
  pub value : Value
  pub diagnostics : List String

judged_artifact : Value → String → String → Artifact
judged_artifact value schema code = record {
  value = value;
  diagnostics = if strict_eq (get "schema" value) (str schema) then [] else code ∷ [];
}

-- A loaded run before any preparation.
abbrev pub unprepared : Planning
unprepared = record {
  diagnostics = [];
  full_derivation = none;
  emit_result = null;
  confirmation_receipt = null;
  confirmation_result = null;
  evidence_entries = [];
}

module _ (read : Value → Option (String × Value)) where
  unfoldable pub read_canonical_artifact : Value → String → String → Artifact
  unfolding judged_artifact
  read_canonical_artifact ref schema code = elim (read ref) [
    | none ↦ record { value = null; diagnostics = code ∷ [] }
    | some content ↦ judged_artifact (content.1) schema code
  ]

  evidence_entry : Value → EvidenceEntry
  evidence_entry ref = record { ref = to_text ref; content = read ref }

  prepared_emit : List String → Planning
  prepared_emit derivation = record {
    diagnostics = [];
    full_derivation = some derivation;
    emit_result = null;
    confirmation_receipt = null;
    confirmation_result = null;
    evidence_entries = [];
  }

  prepared_confirm : Value → Planning
  prepared_confirm manifest =
      let emitted =
        read_canonical_artifact (get "active_emit_result_ref" manifest) emit_schema
          "RUN-CONFIRM-001" in
      record {
        diagnostics = emitted.diagnostics;
        full_derivation = none;
        emit_result = emitted.value;
        confirmation_receipt = null;
        confirmation_result = null;
        evidence_entries = [];
      }

  prepared_completion : List String → Value → Planning
  unfolding evidence_entry
  prepared_completion derivation manifest =
      let receipt =
        read_canonical_artifact (get "active_confirmation_receipt_ref" manifest) receipt_schema
          "RUN-COMPLETE-CONFIRM-001" in
      let result =
        read_canonical_artifact (get "active_confirmation_result_ref" manifest) confirmation_schema
          "RUN-COMPLETE-CONFIRM-001" in
      record {
        diagnostics = receipt.diagnostics ++ result.diagnostics;
        full_derivation = some derivation;
        emit_result = null;
        confirmation_receipt = receipt.value;
        confirmation_result = result.value;
        evidence_entries = map evidence_entry (elements (get "evidence_snapshot_refs" manifest));
      }

  unfoldable pub prepare_planning : List String → Operation → Value → Planning
  unfolding prepared_emit prepared_confirm prepared_completion
  prepare_planning derivation emit_batch manifest = prepared_emit derivation
  prepare_planning derivation confirm_batch manifest = prepared_confirm manifest
  prepare_planning derivation real_completion manifest = prepared_completion derivation manifest
  prepare_planning derivation real_intake manifest = unprepared
  prepare_planning derivation attach_evidence manifest = unprepared

  unfoldable pub prepare : List String → Operation → Predecessor → Predecessor
  prepare derivation operation p = record {
    manifest = p.manifest;
    context = p.context;
    session = p.session;
    checkpoint = p.checkpoint;
    generation = p.generation;
    planning = prepare_planning derivation operation p.manifest;
  }

  truthy_of_text : (k : String) (v : Value) (s : String) → get k v ≡ str s → truthy v ≡ true
  unfolding get truthy
  truthy_of_text k (Value.obj fs) s h = refl
  truthy_of_text k _ s h = cc

  -- An artifact read without a diagnostic is there.
  pub read_canonical_artifact-present :
      (ref : Value) (schema code : String)
      → (read_canonical_artifact ref schema code).diagnostics ≡ []
      → truthy (read_canonical_artifact ref schema code).value ≡ true
  unfolding read_canonical_artifact
  read_canonical_artifact-present ref schema code h = elim (Option-cases (read ref)) [
    | inl missing ↦ absurd (ground arith)
    | inr (content, found) ↦ elim (Bool-cases (strict_eq (get "schema" (content.1)) (str schema))) [
      | inr other ↦ absurd (ground arith)
      | inl same ↦
          rw (read_canonical_artifact, found)
            (truthy_of_text "schema" (content.1) schema (strict_eq-eq _ _ same))
    ]
  ]

  pub read_canonical_artifact-value :
      (ref : Value) (schema code content : String) (v : Value)
      → read ref ≡ some (content, v)
      → (read_canonical_artifact ref schema code).value ≡ v
  unfolding read_canonical_artifact judged_artifact
  read_canonical_artifact-value ref schema code content v h = rw (read_canonical_artifact, h) refl

  pub read_canonical_artifact-clear :
      (ref : Value) (schema code content : String) (v : Value)
      → read ref ≡ some (content, v)
      → get "schema" v ≡ str schema
      → (read_canonical_artifact ref schema code).diagnostics ≡ []
  unfolding read_canonical_artifact judged_artifact
  read_canonical_artifact-clear ref schema code content v h k =
      rw (read_canonical_artifact, h, judged_artifact, k, strict_eq_text schema) refl

  -- A completion prepared without a diagnostic has its receipt and its result.
  pub prepared_completion-present :
      (derivation : List String) (m : Value)
      → (prepare_planning derivation real_completion m).diagnostics ≡ []
      → (truthy (prepare_planning derivation real_completion m).confirmation_receipt
          && truthy (prepare_planning derivation real_completion m).confirmation_result)
        ≡ true
  unfolding prepare_planning
  prepared_completion-present derivation m h =
      let (receipt, result) = append-eq-nil _ _ h in
      rw
        (
          read_canonical_artifact-present _ _ _ receipt,
          read_canonical_artifact-present _ _ _ result,
        )
        refl
