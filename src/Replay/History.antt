-- ===== src/Replay/History.antt =====
-- `readCommittedGenerationView` and `validateCommittedTransitionHistory` of
-- scripts/lib/runtime/committed-transition-replay.mjs. A diagnostic of the history is its mismatch; all have the code
-- RUN_COMMITTED_TRANSITION_REPLAY_CONFLICT. `none` is an exception of a planner.
use ev4_builder_assistant_re.Base.{
  ℕ, suc, zero, ◌-◌, String, Bool, ◌==◌, List, [], ◌∷◌, ◌++◌, Option, none, some, is_empty,
  if◌then◌else◌,
}
use ev4_builder_assistant_re.Json.{Value, num, get}
use ev4_builder_assistant_re.Publication.{Operation}
use ev4_builder_assistant_re.Planner.Types.{Predecessor}
use ev4_builder_assistant_re.Primitives.Manifest.{build_current_pointer}
use ev4_builder_assistant_re.Validation.Generation.{Generation}
use ev4_builder_assistant_re.Store.Directory.{GenerationFiles, Directory, find_generation}
use ev4_builder_assistant_re.Store.Load.{read_generation, load_run, generation_at}
use ev4_builder_assistant_re.Replay.Inputs.{
  infer_committed_operation, Recovered, input_of, unrecoverable, recover_command_input,
}
use ev4_builder_assistant_re.Replay.Exact.{
  Active, canonical_generation_byte_diagnostics, manifest_mismatch, Replay, unmatched, replay_threw,
  conflict, replayed, verify_committed_transition_replay,
}

pub data History : Type 0 where
  history_threw : History
  not_loaded : List String → History
  history : List String → History

-- What a verification adds to the history.
unfoldable pub replay_diagnostics : Replay → Option (List String)
replay_diagnostics unmatched = some (manifest_mismatch ∷ [])
replay_diagnostics replay_threw = none
replay_diagnostics (conflict mismatch) = some (mismatch ∷ [])
replay_diagnostics (replayed p s e) = some []

unfoldable pub joined : Option (List String) → Option (List String) → Option (List String)
joined none later = none
joined (some here) none = none
joined (some here) (some later) = some (here ++ later)

unfoldable pub history_of : Option (List String) → History
history_of none = history_threw
history_of (some mismatches) = history mismatches

module _ (sha256 : String → String) (parse : String → Option Value)
    (state_problems : GenerationFiles → List String) (pointer_schema : Value → Bool)
    (derivation : Directory → Predecessor → List String) where
  unfoldable pub read_view : Directory → ℕ → Option Generation
  read_view d number = elim (find_generation number d.generations) [
    | none ↦ none
    | some files ↦ read_generation sha256 parse state_problems pointer_schema files
  ]

  abbrev pub active_of : Generation → Active
  active_of g = record {
    current = build_current_pointer sha256 g.manifest g.context g.checkpoint;
    manifest = g.manifest;
  }

  unfoldable pub verify_recovered :
      Directory → Generation → Operation → Bool → Recovered → Option (List String)
  verify_recovered d g operation last (unrecoverable mismatch) = some (mismatch ∷ [])
  verify_recovered d g operation last (input_of input) = replay_diagnostics (
      verify_committed_transition_replay sha256 parse state_problems pointer_schema derivation d
        (active_of g) operation input last)

  unfoldable pub verify_inferred :
      Directory → Generation → Bool → Option Operation → Option (List String)
  verify_inferred d g last none = some (manifest_mismatch ∷ [])
  verify_inferred d g last (some operation) =
      verify_recovered d g operation last (recover_command_input parse d.files g.manifest operation)

  unfoldable pub verify_views :
      Directory → Bool → Option Generation → Option Generation → Option (List String)
  verify_views d last none before = some (manifest_mismatch ∷ [])
  verify_views d last (some g) none = some (manifest_mismatch ∷ [])
  verify_views d last (some g) (some before) =
      verify_inferred d g last (infer_committed_operation g.manifest before.manifest)

  -- Generation `n + 1` against generation `n`.
  unfoldable pub verify_generation : Directory → ℕ → ℕ → Option (List String)
  verify_generation d last n = verify_views d (suc n == last) (read_view d (suc n)) (read_view d n)

  -- The rounds of the loop for the generations after `n`.
  unfoldable pub verify_generations : Directory → ℕ → ℕ → ℕ → Option (List String)
  verify_generations d last n zero = some []
  verify_generations d last n (suc rounds) =
      joined (verify_generation d last n) (verify_generations d last (suc n) rounds)

  unfoldable pub first_bytes : Directory → Value → Option Generation → Option (List String)
  first_bytes d current none = none
  first_bytes d current (some g) =
      elim (generation_at (get "generation_ref" current) d.generations) [
        | none ↦ none
        | some files ↦ some (canonical_generation_byte_diagnostics files g)
      ]

  unfoldable pub history_to : Directory → Value → Option Generation → Value → Option (List String)
  history_to d current loaded (num n) =
      if n == 1 then first_bytes d current loaded else verify_generations d n 1 (n - 1)
  history_to d current loaded v = some []

  unfoldable pub validate_committed_transition_history : Directory → History
  validate_committed_transition_history d =
      let loaded = load_run sha256 parse state_problems pointer_schema d in
      if is_empty loaded.diagnostics
      then elim (loaded.current) [
        | none ↦ history_threw
        | some current ↦
            history_of (history_to d current loaded.generation (get "generation" current))
      ]
      else not_loaded loaded.diagnostics
