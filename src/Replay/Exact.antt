-- ===== src/Replay/Exact.antt =====
-- `canonicalGenerationByteDiagnostics`, `loadExactPredecessor`, `compareCommittedBytes` and
-- `verifyCommittedTransitionReplay` of scripts/lib/runtime/committed-transition-replay.mjs, on a modelled directory. The
-- full derivation of an intake is a parameter.
use ev4_builder_assistant_re.Base.{
  ℕ, suc, String, Bool, false, not, ◌&&◌, ◌||◌, List, [], ◌∷◌, ◌++◌, Option, none, some, is_empty,
  template, if◌then◌else◌,
}
use ev4_builder_assistant_re.Json.{
  Value, num, str, get, truthy, strict_eq, is_string, is_integer, to_text,
}
use ev4_builder_assistant_re.Primitives.Names.{generation_ref}
use ev4_builder_assistant_re.Publication.{Operation}
use ev4_builder_assistant_re.Planner.Types.{
  Predecessor, Successor, AuxiliaryFile, Plan, failed, thrown, planned,
}
use ev4_builder_assistant_re.Planner.Prepare.{unprepared, prepare}
use ev4_builder_assistant_re.Validation.Generation.{Generation}
use ev4_builder_assistant_re.Store.Directory.{
  GenerationFiles, Directory, stable_json, entry_bytes, find_file, find_generation,
}
use ev4_builder_assistant_re.Store.Load.{
  generation_at, read_generation, validate_generation_files, validate_snapshots,
}
use ev4_builder_assistant_re.Store.Publish.{Expected, same_file, expected_snapshot}
use ev4_builder_assistant_re.Replay.Inputs.{
  Input, operation_committed, file_of, last_of, list_in, run_planner,
}

-- A run as the replay takes it: its pointer and its manifest.
pub record Active : Type 0 where
  pub current : Value
  pub manifest : Value

-- `!fs.existsSync(file) || !readBytes(file).equals(expectedBytes)` of a list of files: the names that differ.
unfoldable pub differing : List (String × (Option String × String)) → List String
differing [] = []
differing ((name, (actual, expected)) ∷ files) =
    if same_file actual (some expected) then differing files else name ∷ differing files

unfoldable pub canonical_generation_byte_diagnostics : GenerationFiles → Generation → List String
canonical_generation_byte_diagnostics files g = differing (
    ("generation:runtime-context.json", (files.context, stable_json g.context))
    ∷ ("generation:session-state.json", (files.session, stable_json g.session))
    ∷ ("generation:checkpoint.json", (files.checkpoint, stable_json g.checkpoint))
    ∷ ("generation:run-manifest.json", (files.manifest, stable_json g.manifest))
    ∷ [])

abbrev pub manifest_mismatch : String
manifest_mismatch = "generation:run-manifest.json"

pub data Loading : Type 0 where
  loading_conflict : String → Loading
  loaded_predecessor : Predecessor → Loading

-- The binding of the active manifest to generation `n + 1` and to the one before.
unfoldable pub predecessor_bound : ℕ → Value → Bool
predecessor_bound n generation =
    strict_eq (get "number" generation) (num (suc n))
    && (strict_eq (get "predecessor_generation" generation) (num n)
        && (is_string (get "predecessor_checkpoint_id" generation)
            && is_integer (get "predecessor_checkpoint_sequence" generation)))

first_or : String → List String → String
first_or default [] = default
first_or default (x ∷ xs) = x

-- The first file that differs is named by its mismatch; the values are compared entry by entry.
unfoldable pub compare_auxiliary : List (String × String) → List AuxiliaryFile → List String
compare_auxiliary files [] = []
compare_auxiliary files (entry ∷ entries) =
    if same_file (find_file entry.ref files) (some (entry_bytes entry.content))
    then compare_auxiliary files entries
    else template ("auxiliary:" ∷ entry.ref ∷ []) ∷ compare_auxiliary files entries

abbrev pub text_or : Option String → String
text_or none = ""
text_or (some text) = text

abbrev pub state_pairs : GenerationFiles → Expected → List (String × (Option String × String))
state_pairs files e =
    ("generation:runtime-context.json", (files.context, text_or e.files.context))
    ∷ ("generation:session-state.json", (files.session, text_or e.files.session))
    ∷ ("generation:checkpoint.json", (files.checkpoint, text_or e.files.checkpoint))
    ∷ ("generation:run-manifest.json", (files.manifest, text_or e.files.manifest))
    ∷ []

-- The files of the active generation and the auxiliary files against the expected bytes: all that differ, in the
-- order in which the code compares; it stops at the first.
unfoldable pub committed_differences : Directory → GenerationFiles → Expected → Bool → List String
committed_differences d files e compare_current =
    differing (state_pairs files e)
    ++ (compare_auxiliary d.files e.auxiliary
        ++ (if compare_current
            then differing (("CURRENT.json", (d.current, e.pointer)) ∷ [])
            else []))

unfoldable pub first_difference : List String → Option String
first_difference [] = none
first_difference (x ∷ xs) = some x

unfoldable pub names_generation : Option String → Value → Bool
names_generation none ref = false
names_generation (some name) ref = strict_eq (str name) ref

-- `none` when the comparison passes.
unfoldable pub compare_committed_bytes : Directory → Value → Expected → Bool → Option String
compare_committed_bytes d current e compare_current =
    elim (generation_at (get "generation_ref" current) d.generations) [
      | none ↦ some manifest_mismatch
      | some files ↦
          if strict_eq (num e.next_number) (get "generation" current)
            && names_generation (generation_ref e.next_number) (get "generation_ref" current)
          then first_difference (committed_differences d files e compare_current)
          else some manifest_mismatch
    ]

pub data Replay : Type 0 where
  unmatched replay_threw : Replay
  conflict : String → Replay
  replayed : Predecessor → Successor → Expected → Replay

-- The number that follows 1, if `current.generation` is one.
unfoldable pub predecessor_number : Value → Option ℕ
predecessor_number (num (suc (suc n))) = some (suc n)
predecessor_number v = none

abbrev either : Value → Value → Value
either a b = if truthy a then a else b

-- The artifact that a failed derivation is reported at.
unfoldable pub result_ref_of : Value → Value
result_ref_of m = either (get "active_confirmation_result_ref" m) (
    either (get "completion_result_ref" m) (
      either (get "active_emit_result_ref" m)
        (either (last_of (list_in "evidence_attachment_result_refs" m)) (str "unknown"))))

module _ (sha256 : String → String) (parse : String → Option Value)
    (state_problems : GenerationFiles → List String) (pointer_schema : Value → Bool)
    (derivation : Directory → Predecessor → List String) where
  unfoldable pub bind_predecessor : ℕ → Value → Generation → Loading
  bind_predecessor n generation g =
      if strict_eq (get "checkpoint_id" g.checkpoint) (get "predecessor_checkpoint_id" generation)
        && strict_eq (get "checkpoint_sequence" g.checkpoint)
            (get "predecessor_checkpoint_sequence" generation)
      then loaded_predecessor (record {
        manifest = g.manifest;
        context = g.context;
        session = g.session;
        checkpoint = g.checkpoint;
        generation = n;
        planning = unprepared;
      })
      else loading_conflict manifest_mismatch

  unfoldable pub read_predecessor : Directory → ℕ → Value → GenerationFiles → Loading
  unfolding first_or
  read_predecessor d n generation files =
      elim (read_generation sha256 parse state_problems pointer_schema files) [
        | none ↦ loading_conflict manifest_mismatch
        | some g ↦
            let problems =
              validate_generation_files sha256 parse state_problems pointer_schema files (num n) in
            let bytes = canonical_generation_byte_diagnostics files g in
            if not (is_empty problems)
            then loading_conflict manifest_mismatch
            else if not (is_empty (validate_snapshots sha256 d.files g.manifest))
                || not (is_empty bytes)
            then loading_conflict (first_or manifest_mismatch bytes)
            else bind_predecessor n generation g
      ]

  unfoldable pub load_exact_predecessor : Directory → ℕ → Value → Loading
  load_exact_predecessor d n manifest =
      if truthy manifest && predecessor_bound n (get "generation" manifest)
      then elim (find_generation n d.generations) [
        | none ↦ loading_conflict manifest_mismatch
        | some files ↦ read_predecessor d n (get "generation" manifest) files
      ]
      else loading_conflict manifest_mismatch

  -- The bytes and the value of a file of the run.
  unfoldable pub read_file : Directory → Value → Option (String × Value)
  read_file d ref = elim (file_of ref d.files) [
    | none ↦ none
    | some text ↦ elim (parse text) [ none ↦ none | some v ↦ some (text, v) ]
  ]

  -- `PLANNERS[operation]` on the prepared predecessor.
  unfoldable pub derive_plan : Directory → Operation → Predecessor → Input → Plan
  derive_plan d operation p input =
      run_planner parse sha256 operation (prepare (read_file d) (derivation d p) operation p) input

  unfoldable pub judge_snapshot :
      Directory → Value → Predecessor → Successor → Option Expected → Bool → Replay
  judge_snapshot d current p s none compare_current = replay_threw
  judge_snapshot d current p s (some e) compare_current =
      elim (compare_committed_bytes d current e compare_current) [
        | none ↦ replayed p s e
        | some mismatch ↦ conflict mismatch
      ]

  unfoldable pub judge_plan : Directory → Active → Predecessor → Plan → Bool → Replay
  judge_plan d active p thrown compare_current = replay_threw
  judge_plan d active p (failed diagnostics) compare_current =
      conflict (template ("auxiliary:" ∷ to_text (result_ref_of active.manifest) ∷ []))
  judge_plan d active p (planned s) compare_current =
      judge_snapshot d active.current p s (expected_snapshot sha256 p s) compare_current

  unfoldable pub replay_from : Directory → Active → Operation → Input → Bool → Loading → Replay
  replay_from d active operation input compare_current (loading_conflict mismatch) =
      conflict mismatch
  replay_from d active operation input compare_current (loaded_predecessor p) =
      if operation_committed active.manifest p.manifest operation input
      then judge_plan d active p (derive_plan d operation p input) compare_current
      else unmatched

  unfoldable pub verify_committed_transition_replay :
      Directory → Active → Operation → Input → Bool → Replay
  verify_committed_transition_replay d active operation input compare_current =
      if truthy active.current
      then elim (predecessor_number (get "generation" active.current)) [
        | none ↦ unmatched
        | some n ↦
            replay_from d active operation input compare_current
              (load_exact_predecessor d n active.manifest)
      ]
      else conflict "CURRENT.json"
