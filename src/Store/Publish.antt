-- ===== src/Store/Publish.antt =====
-- `loadExactSuccessorCandidate`, `compareSuccessorToExpected`, `advanceCurrentPointer`,
-- `finalizeExistingExactSuccessor` and `publishSuccessor` of scripts/lib/runtime/run-state-store.mjs. A failure
-- point (`injectedPoint`) is where the process may stop: with an exception, or with its end. The temporary
-- directory and the temporary pointer, which no reader looks at, are left out.
pub mod Atomic
pub mod Recovery
pub mod Outcomes
use ev4_builder_assistant_re.Base.{
  ℕ, ◌+◌, String, Bool, true, false, not, ◌&&◌, ◌||◌, ◌==◌, List, [], ◌∷◌, ◌++◌, map, Option, none,
  some, is_empty, str_eq, if◌then◌else◌,
}
use ev4_builder_assistant_re.Diagnostics.{Check, ◌reports◌, failures}
use ev4_builder_assistant_re.Json.{Value, undefined, num, get, strict_eq}
use ev4_builder_assistant_re.Planner.Types.{Predecessor, Successor, AuxiliaryFile}
use ev4_builder_assistant_re.Store.Directory.{
  GenerationFiles, Directory, AuxiliaryWrite, stable_json, entry_bytes, find_file, find_generation,
  write_auxiliary_files, list_future_generations,
}
use ev4_builder_assistant_re.Store.Load.{
  Loaded, read_generation, validate_generation_files, load_run,
}
use ev4_builder_assistant_re.Store.Snapshot.{successor_manifest}
use ev4_builder_assistant_re.Primitives.Manifest.{build_current_pointer}

pub data Outcome : Type 0 where
  blocked : List String → Outcome
  threw : String → Outcome
  published : String → Outcome

pub record Published : Type 0 where
  pub directory : Directory
  pub outcome : Outcome

-- `deriveExpectedSuccessorSnapshot`: the files, the pointer and the auxiliary files to publish.
pub record Expected : Type 0 where
  pub predecessor_number : ℕ
  pub next_number : ℕ
  pub predecessor_id : Value
  pub predecessor_sequence : Value
  pub files : GenerationFiles
  pub pointer : String
  pub auxiliary : List AuxiliaryFile

unfoldable pub with_current : Directory → String → Directory
with_current d text = record { current = some text; generations = d.generations; files = d.files }

unfoldable pub with_files : Directory → List (String × String) → Directory
with_files d files = record { current = d.current; generations = d.generations; files = files }

unfoldable pub with_generation : Directory → ℕ → GenerationFiles → Directory
with_generation d n g = record {
  current = d.current;
  generations = (n, g) ∷ d.generations;
  files = d.files;
}

-- A file of the candidate against the expected bytes: missing, or a mismatch, or neither.
unfoldable pub same_file : Option String → Option String → Bool
same_file (some a) (some b) = str_eq a b
same_file _ _ = false

unfoldable pub is_missing : Option String → Bool
is_missing none = true
is_missing (some text) = false

unfoldable pub any_missing : GenerationFiles → Bool
any_missing g =
    is_missing g.manifest
    || (is_missing g.context || (is_missing g.session || is_missing g.checkpoint))

auxiliary_missing : List (String × String) → List AuxiliaryFile → Bool
unfolding is_missing
auxiliary_missing files [] = false
auxiliary_missing files (entry ∷ entries) =
    is_missing (find_file entry.ref files) || auxiliary_missing files entries

auxiliary_differs : List (String × String) → List AuxiliaryFile → Bool
unfolding same_file
auxiliary_differs files [] = false
auxiliary_differs files (entry ∷ entries) =
    not (same_file (find_file entry.ref files) (some (entry_bytes entry.content)))
    || auxiliary_differs files entries

unfoldable pub files_differ : GenerationFiles → GenerationFiles → Bool
unfolding same_file
files_differ g e =
    not (same_file g.manifest e.manifest)
    || (not (same_file g.context e.context)
        || (not (same_file g.session e.session) || not (same_file g.checkpoint e.checkpoint)))

abbrev incomplete : String
incomplete = "RUN_UNCOMMITTED_SUCCESSOR_INCOMPLETE"

abbrev conflicting : String
conflicting = "RUN_UNCOMMITTED_SUCCESSOR_CONFLICT"

-- The bindings of the candidate's manifest to the predecessor.
manifest_differs : Value → Expected → Bool
manifest_differs m e =
    let g = get "generation" m in
    not (strict_eq (get "number" g) (num e.next_number))
    || (not (strict_eq (get "predecessor_generation" g) (num e.predecessor_number))
        || (not (strict_eq (get "predecessor_checkpoint_id" g) e.predecessor_id)
            || not (strict_eq (get "predecessor_checkpoint_sequence" g) e.predecessor_sequence)))

-- The comparison of a valid candidate, whose manifest was read, with what is expected.
unfoldable pub compare_successor_to_expected :
    Directory → Value → GenerationFiles → Expected → List String
unfolding any_missing auxiliary_missing auxiliary_differs manifest_differs
compare_successor_to_expected d m candidate e =
    if any_missing candidate || auxiliary_missing d.files e.auxiliary
    then incomplete ∷ []
    else if manifest_differs m e
        || (files_differ candidate e.files || auxiliary_differs d.files e.auxiliary)
    then conflicting ∷ []
    else []

-- `injectedPoint`: the code goes on with `next`, or stops with the directory as it is.
unfoldable pub at_point : (String → Bool) → String → Directory → Published → Published
at_point fails point d next =
    if fails point then record { directory = d; outcome = threw "RUN-INJECTED-FAILURE" } else next

module _ (sha256 : String → String) (parse : String → Option Value)
    (state_problems : GenerationFiles → List String) (pointer_schema : Value → Bool)
    (fails : String → Bool) where
  -- `!active.passed || active.current.generation !== expected.nextNumber` of the negation.
  active_is : Loaded → ℕ → Bool
  active_is l n = elim (l.current) [
    | none ↦ false
    | some c ↦ is_empty l.diagnostics && strict_eq (get "generation" c) (num n)
  ]

  -- The last step of both ways: the run that is now in force is loaded again.
  confirm_active : Directory → Expected → String → Published
  unfolding active_is
  confirm_active d e recovery = record {
    directory = d;
    outcome =
        if active_is (load_run sha256 parse state_problems pointer_schema d) e.next_number
        then published recovery
        else threw "RUN_UNCOMMITTED_SUCCESSOR_FINALIZATION_FAILED";
  }

  -- `advanceCurrentPointer`, then the check of the active run.
  unfoldable pub advance_current_pointer : Directory → Expected → String → Published
  unfolding confirm_active
  advance_current_pointer d e recovery =
      let advanced = with_current d e.pointer in
      at_point fails "before_CURRENT_temp_write" d (
        at_point fails "after_CURRENT_temp_write" d (
          at_point fails "before_CURRENT_rename" d
            (at_point fails "after_CURRENT_rename" advanced (confirm_active advanced e recovery))))

  unfoldable pub candidate_manifest : GenerationFiles → Value
  candidate_manifest g = elim (read_generation sha256 parse state_problems pointer_schema g) [
    | none ↦ undefined
    | some read ↦ read.manifest
  ]

  -- The branch for one future generation, which is the successor's.
  finalize_candidate : Directory → Expected → GenerationFiles → Published
  finalize_candidate d e candidate =
      let problems =
        validate_generation_files sha256 parse state_problems pointer_schema candidate
          (num e.next_number) in
      let mismatches = compare_successor_to_expected d (candidate_manifest candidate) candidate e in
      if not (is_empty problems)
      then record { directory = d; outcome = blocked (incomplete ∷ problems) }
      else if not (is_empty mismatches)
      then record { directory = d; outcome = blocked mismatches }
      else advance_current_pointer d e "finalized_existing_exact_successor"

  unfoldable pub finalize_existing : Directory → Expected → Published
  unfolding finalize_candidate candidate_manifest
  finalize_existing d e = elim (find_generation e.next_number d.generations) [
    | none ↦ record { directory = d; outcome = blocked (incomplete ∷ []) }
    | some candidate ↦ finalize_candidate d e candidate
  ]

  -- The rename of the temporary directory, which fails when the generation exists already.
  install_generation : Directory → Expected → Published
  install_generation d e =
      let installed = with_generation d e.next_number e.files in
      elim (find_generation e.next_number d.generations) [
        | none ↦
            at_point fails "after_successor_generation_rename" installed
              (advance_current_pointer installed e "new_successor_published")
        | some _ ↦ record { directory = d; outcome = threw conflicting }
      ]

  unfoldable pub publish_new : Directory → Expected → Published
  unfolding install_generation
  publish_new d e =
      let write = write_auxiliary_files d.files e.auxiliary in
      let written = with_files d write.files in
      let problems =
        validate_generation_files sha256 parse state_problems pointer_schema e.files
          (num e.next_number) in
      if write.conflict
      then record { directory = written; outcome = threw conflicting }
      else at_point fails "after_successor_temp_write" written (
          if not (is_empty problems)
          then record { directory = written; outcome = threw incomplete }
          else at_point fails "after_successor_validation" written (
              at_point fails "before_successor_generation_rename" written
                (install_generation written e)))

  publish_among : List ℕ → Directory → Expected → Published
  publish_among [] d e = publish_new d e
  publish_among (n ∷ []) d e =
      if n == e.next_number
      then finalize_existing d e
      else record { directory = d; outcome = blocked ("RUN_AMBIGUOUS_FUTURE_GENERATIONS" ∷ []) }
  publish_among (n ∷ m ∷ ns) d e = record {
    directory = d;
    outcome = blocked ("RUN_AMBIGUOUS_FUTURE_GENERATIONS" ∷ []);
  }

  unfoldable pub publish_successor : Directory → Expected → Published
  unfolding publish_among
  publish_successor d e = publish_among (list_future_generations d e.predecessor_number) d e

module _ (sha256 : String → String) where
  unfoldable pub expected_snapshot : Predecessor → Successor → Option Expected
  expected_snapshot p s = elim (successor_manifest sha256 p s) [
    | none ↦ none
    | some manifest ↦ some (record {
      predecessor_number = p.generation;
      next_number = p.generation + 1;
      predecessor_id = get "checkpoint_id" p.checkpoint;
      predecessor_sequence = get "checkpoint_sequence" p.checkpoint;
      files = record {
        manifest = some (stable_json manifest);
        context = some (stable_json s.context);
        session = some (stable_json s.session);
        checkpoint = some (stable_json s.checkpoint);
      };
      pointer = stable_json (build_current_pointer sha256 manifest s.context s.checkpoint);
      auxiliary = s.auxiliary_files;
    })
  ]
