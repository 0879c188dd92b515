-- ===== src/Replay/Execute.antt =====
-- `executePlannedMutation` of scripts/lib/runtime/committed-transition-replay.mjs, between the acquisition and the
-- release of the lock. Outcomes are kept by their diagnostics.
use ev4_builder_assistant_re.Base.{
  String, Bool, true, List, [], ◌∷◌, Option, none, some, is_empty, ◌≡◌, ◌⊎◌, if◌then◌else◌,
}
use ev4_builder_assistant_re.Json.{Value, num, get}
use ev4_builder_assistant_re.Publication.{Operation}
use ev4_builder_assistant_re.Planner.Types.{Predecessor, Successor, Plan, failed, thrown, planned}
use ev4_builder_assistant_re.Planner.Prepare.{unprepared}
use ev4_builder_assistant_re.Validation.Generation.{Generation}
use ev4_builder_assistant_re.Store.Directory.{GenerationFiles, Directory}
use ev4_builder_assistant_re.Store.Load.{load_run}
use ev4_builder_assistant_re.Store.Publish.{Expected, Outcome, expected_snapshot, publish_successor}
use ev4_builder_assistant_re.Replay.Inputs.{Input}
use ev4_builder_assistant_re.Replay.Exact.{
  Active, Replay, unmatched, replay_threw, conflict, replayed, derive_plan,
  verify_committed_transition_replay,
}
use ev4_builder_assistant_re.Replay.History.{
  History, history_threw, not_loaded, history, validate_committed_transition_history,
}

pub data Mutated : Type 0 where
  load_blocked : List String → Mutated
  history_blocked : List String → Mutated
  replay_blocked : String → Mutated
  replay_accepted : Expected → Mutated
  not_planned : List String → Mutated
  publication : Outcome → Mutated
  mutation_failure : Mutated

pub record Execution : Type 0 where
  pub directory : Directory
  pub outcome : Mutated

abbrev ended : Directory → Mutated → Execution
ended d outcome = record { directory = d; outcome = outcome }

-- The loaded run as a predecessor.
unfoldable pub run_of_loaded : Option Value → Option Generation → Option Predecessor
run_of_loaded (some current) (some g) = elim (get "generation" current) [
  | num n ↦ some (record {
    manifest = g.manifest;
    context = g.context;
    session = g.session;
    checkpoint = g.checkpoint;
    generation = n;
    planning = unprepared;
  })
  | _ ↦ none
]
run_of_loaded _ _ = none

module _ (sha256 : String → String) (parse : String → Option Value)
    (state_problems : GenerationFiles → List String) (pointer_schema : Value → Bool)
    (derivation : Directory → Predecessor → List String) (fails : String → Bool) where
  unfoldable pub publish_planned : Directory → Option Expected → Execution
  publish_planned d none = ended d mutation_failure
  publish_planned d (some e) =
      let published = publish_successor sha256 parse state_problems pointer_schema fails d e in
      ended published.directory (publication published.outcome)

  unfoldable pub execute_plan : Directory → Predecessor → Plan → Execution
  execute_plan d p thrown = ended d mutation_failure
  execute_plan d p (failed diagnostics) = ended d (not_planned diagnostics)
  execute_plan d p (planned s) = publish_planned d (expected_snapshot sha256 p s)

  unfoldable pub execute_after_replay :
      Directory → Operation → Input → Predecessor → Replay → Execution
  execute_after_replay d operation input p replay_threw = ended d mutation_failure
  execute_after_replay d operation input p (conflict mismatch) = ended d (replay_blocked mismatch)
  execute_after_replay d operation input p (replayed q s e) = ended d (replay_accepted e)
  execute_after_replay d operation input p unmatched =
      execute_plan d p
        (derive_plan sha256 parse state_problems pointer_schema derivation d operation p input)

  unfoldable pub active_run : Value → Predecessor → Active
  active_run current p = record { current = current; manifest = p.manifest }

  unfoldable pub execute_loaded :
      Directory → Operation → Input → Value → Predecessor → History → Execution
  execute_loaded d operation input current p history_threw = ended d mutation_failure
  execute_loaded d operation input current p (not_loaded diagnostics) =
      ended d (history_blocked diagnostics)
  execute_loaded d operation input current p (history (x ∷ xs)) = ended d (history_blocked (x ∷ xs))
  execute_loaded d operation input current p (history []) =
      execute_after_replay d operation input p (
        verify_committed_transition_replay sha256 parse state_problems pointer_schema derivation d
          (active_run current p) operation input true)

  unfoldable pub execute_run :
      Directory → Operation → Input → Option Value → Option Predecessor → Execution
  execute_run d operation input (some current) (some p) =
      execute_loaded d operation input current p (
        validate_committed_transition_history sha256 parse state_problems pointer_schema derivation
          d)
  execute_run d operation input _ _ = ended d mutation_failure

  unfoldable pub execute_locked : Directory → Operation → Input → Execution
  execute_locked d operation input =
      let loaded = load_run sha256 parse state_problems pointer_schema d in
      if fails "after_lock_acquisition"
      then ended d mutation_failure
      else if is_empty loaded.diagnostics
      then (if fails "after_active_generation_load"
          then ended d mutation_failure
          else execute_run d operation input loaded.current
              (run_of_loaded loaded.current loaded.generation))
      else ended d (load_blocked loaded.diagnostics)

  -- The failure point before the release of the lock changes the outcome, not the directory.
  unfoldable pub execute_planned_mutation : Directory → Operation → Input → Execution
  execute_planned_mutation d operation input =
      let executed = execute_locked d operation input in
      if fails "before_lock_release" then ended executed.directory mutation_failure else executed

  -- What a mutation does to the directory: nothing, or the publication of what the planner makes of the loaded run,
  -- whose history is exact and in which the transition is not committed yet.
  pub record Publishes (d : Directory) (operation : Operation) (input : Input) (after : Directory)
      : Type 0 where
    pub current : Value
    pub predecessor : Predecessor
    pub successor : Successor
    pub expected : Expected
    pub pointer : (load_run sha256 parse state_problems pointer_schema d).current ≡ some current
    pub loaded :
        run_of_loaded
          (load_run sha256 parse state_problems pointer_schema d).current
          (load_run sha256 parse state_problems pointer_schema d).generation
        ≡ some predecessor
    pub accepted :
        is_empty (load_run sha256 parse state_problems pointer_schema d).diagnostics ≡ true
    pub exact :
        validate_committed_transition_history sha256 parse state_problems pointer_schema derivation
          d
        ≡ history []
    pub fresh :
        verify_committed_transition_replay sha256 parse state_problems pointer_schema derivation d
          (active_run current predecessor)
          operation
          input
          true
        ≡ unmatched
    pub plan :
        derive_plan sha256 parse state_problems pointer_schema derivation d operation predecessor
          input
        ≡ planned successor
    pub snapshot : expected_snapshot sha256 predecessor successor ≡ some expected
    pub published :
        after
        ≡ (publish_successor sha256 parse state_problems pointer_schema fails d expected).directory

  abbrev pub Effect : Directory → Operation → Input → Directory → Type 0
  Effect d operation input after = (after ≡ d) ⊎ Publishes d operation input after
