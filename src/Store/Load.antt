-- ===== src/Store/Load.antt =====
-- `validateSnapshots`, `loadRunUnlocked` and the reading half of `validateGeneration` of
-- scripts/lib/runtime/run-state-validation.mjs, on a modelled directory. `JSON.parse`, the Ajv schemas and the
-- validator scripts are parameters.
use ev4_builder_assistant_re.Base.{
  ℕ, String, Bool, not, ◌||◌, List, [], ◌∷◌, ◌++◌, Option, none, some, if◌then◌else◌,
}
use ev4_builder_assistant_re.Diagnostics.{Check, ◌reports◌, failures}
use ev4_builder_assistant_re.Json.{Value, str, get, truthy, strict_eq}
use ev4_builder_assistant_re.Primitives.Names.{generation_ref}
use ev4_builder_assistant_re.Publication.{active_state_filenames}
use ev4_builder_assistant_re.Validation.Generation.{Generation, validate_generation}
use ev4_builder_assistant_re.Validation.Pointer.{validate_current_pointer}
use ev4_builder_assistant_re.Store.Directory.{GenerationFiles, Directory, find_file}

-- The directory that a reference names: references of generations are exact, others name none.
unfoldable pub generation_at : Value → List (ℕ × GenerationFiles) → Option GenerationFiles
generation_at ref [] = none
generation_at ref ((n, g) ∷ gs) =
    let later = generation_at ref gs in
    elim (generation_ref n) [
      | none ↦ later
      | some r ↦ if strict_eq ref (str r) then some g else later
    ]

-- The file that `safeRunRef` resolves a reference to.
file_at : Value → List (String × String) → Option String
file_at (str ref) files = find_file ref files
file_at v files = none

pub record Loaded : Type 0 where
  pub diagnostics : List String
  pub current : Option Value
  pub generation : Option Generation

all_read : Option Value → Option Value → Option Value → Option Value → Option Generation
all_read (some m) (some c) (some s) (some k) =
    some (record { manifest = m; context = c; session = s; checkpoint = k })
all_read _ _ _ _ = none

module _ (sha256 : String → String) where
  snapshot_diagnostics : Value → Value → String → String → List (String × String) → List String
  unfolding file_at
  snapshot_diagnostics ref sha missing differs files = elim (file_at ref files) [
    | none ↦ missing ∷ []
    | some text ↦ if strict_eq (str (sha256 text)) sha then [] else differs ∷ []
  ]

  unfoldable pub validate_snapshots : List (String × String) → Value → List String
  unfolding snapshot_diagnostics
  validate_snapshots files m =
      snapshot_diagnostics (get "source_snapshot_ref" m) (get "source_snapshot_sha256" m)
        "RUN-SNAPSHOT-001" "RUN-SNAPSHOT-002" files
      ++ (if truthy (get "receipt_snapshot_ref" m)
          then snapshot_diagnostics (get "receipt_snapshot_ref" m) (get "receipt_snapshot_sha256" m)
              "RUN-SNAPSHOT-003" "RUN-SNAPSHOT-004" files
          else [])

  module _ (parse : String → Option Value) (state_problems : GenerationFiles → List String)
      (pointer_schema : Value → Bool) where
    -- `readJson` of a file that may be missing.
    read_json : Option String → Option Value
    read_json none = none
    read_json (some text) = parse text

    unfoldable pub read_generation : GenerationFiles → Option Generation
    unfolding read_json all_read
    read_generation g =
        all_read (read_json g.manifest) (read_json g.context) (read_json g.session)
          (read_json g.checkpoint)

    unfoldable pub validate_generation_files : GenerationFiles → Value → List String
    validate_generation_files g expected = elim (read_generation g) [
      | none ↦ "RUN-GENERATION-001" ∷ []
      | some generation ↦ validate_generation sha256 (state_problems g) expected generation
    ]

    binding_checks : Value → Generation → List Check
    binding_checks c g =
        ((not (strict_eq (get "run_id" c) (get "run_id" g.manifest))
            || (not (strict_eq (get "manifest_digest" c) (get "manifest_digest" g.manifest))
                || not (strict_eq (get "context_digest" c) (get "context_digest" g.context))))
          reports "RUN-LOAD-006")
        ∷ ((not (strict_eq (get "checkpoint_id" c) (get "checkpoint_id" g.checkpoint))
              || (not (
                    strict_eq (get "checkpoint_sequence" c)
                      (get "checkpoint_sequence" g.checkpoint))
                  || not (strict_eq (get "runtime_state" c) (get "runtime_state" g.checkpoint))))
            reports "RUN-LOAD-007")
        ∷ []

    bound_diagnostics : List (String × String) → Value → Option Generation → List String
    unfolding binding_checks
    bound_diagnostics files c none = []
    bound_diagnostics files c (some g) =
        failures (binding_checks c g) ++ validate_snapshots files g.manifest

    forbidden_diagnostics : List String → List (String × String) → List String
    forbidden_diagnostics [] files = []
    forbidden_diagnostics (name ∷ names) files =
        let rest = forbidden_diagnostics names files in
        elim (find_file name files) [ none ↦ rest | some _ ↦ "RUN-LOAD-002" ∷ rest ]

    -- The diagnostics of a pointer that was read.
    pointer_diagnostics : Value → List String
    pointer_diagnostics c =
        validate_current_pointer sha256 c ++ (if pointer_schema c then [] else "RUN-LOAD-004" ∷ [])

    load_generation : Directory → List String → Value → Loaded
    unfolding generation_at bound_diagnostics
    load_generation d before c = elim (generation_at (get "generation_ref" c) d.generations) [
      | none ↦ record {
        diagnostics = before ++ ("RUN-LOAD-005" ∷ []);
        current = some c;
        generation = none;
      }
      | some g ↦ record {
        diagnostics =
            before
            ++ (validate_generation_files g (get "generation" c)
                ++ bound_diagnostics d.files c (read_generation g));
        current = some c;
        generation = read_generation g;
      }
    ]

    unfoldable pub load_run : Directory → Loaded
    unfolding forbidden_diagnostics pointer_diagnostics load_generation read_json
    load_run d =
        let forbidden = forbidden_diagnostics active_state_filenames d.files in
        elim (read_json d.current) [
          | none ↦ record {
            diagnostics = forbidden ++ ("RUN-LOAD-003" ∷ []);
            current = none;
            generation = none;
          }
          | some c ↦ load_generation d (forbidden ++ pointer_diagnostics c) c
        ]
