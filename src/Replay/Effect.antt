-- ===== src/Replay/Effect.antt =====
-- The effect of a mutation on the directory of the run.
use ev4_builder_assistant_re.Base.{
  String, Bool, true, false, List, [], ◌∷◌, Option, none, some, is_empty, ◌≡◌, refl, inl, inr,
  if◌then◌else◌, Bool-cases,
}
use ev4_builder_assistant_re.Json.{Value}
use ev4_builder_assistant_re.Publication.{Operation}
use ev4_builder_assistant_re.Planner.Types.{Predecessor, Plan, failed, thrown, planned}
use ev4_builder_assistant_re.Store.Directory.{GenerationFiles, Directory}
use ev4_builder_assistant_re.Store.Load.{load_run}
use ev4_builder_assistant_re.Store.Publish.{Expected, expected_snapshot}
use ev4_builder_assistant_re.Replay.Inputs.{Input}
use ev4_builder_assistant_re.Replay.Exact.{
  Replay, unmatched, replay_threw, conflict, replayed, derive_plan,
  verify_committed_transition_replay,
}
use ev4_builder_assistant_re.Replay.History.{
  History, history_threw, not_loaded, history, validate_committed_transition_history,
}
use ev4_builder_assistant_re.Replay.Execute.{
  Execution, run_of_loaded, publish_planned, execute_plan, execute_after_replay, active_run,
  execute_loaded, execute_run, execute_locked, execute_planned_mutation, Effect,
}

module _ (sha256 : String → String) (parse : String → Option Value)
    (state_problems : GenerationFiles → List String) (pointer_schema : Value → Bool)
    (derivation : Directory → Predecessor → List String) (fails : String → Bool) (d : Directory)
    (operation : Operation) (input : Input) where
  abbrev After : Execution → Type 0
  After x =
      Effect sha256 parse state_problems pointer_schema derivation fails d operation input
        x.directory

  -- A run that was loaded and accepted.
  record Accepted (current : Value) (p : Predecessor) : Type 0 where
    pointer : (load_run sha256 parse state_problems pointer_schema d).current ≡ some current
    loaded :
        run_of_loaded
          (load_run sha256 parse state_problems pointer_schema d).current
          (load_run sha256 parse state_problems pointer_schema d).generation
        ≡ some p
    accepted : is_empty (load_run sha256 parse state_problems pointer_schema d).diagnostics ≡ true

  module _ (current : Value) (p : Predecessor) (ok : Accepted current p) where
    execute_plan-Effect :
        validate_committed_transition_history sha256 parse state_problems pointer_schema derivation
            d
          ≡ history []
        → verify_committed_transition_replay sha256 parse state_problems pointer_schema derivation d
            (active_run sha256 parse state_problems pointer_schema derivation fails current p)
            operation
            input
            true
          ≡ unmatched
        → (plan : Plan)
        → derive_plan sha256 parse state_problems pointer_schema derivation d operation p input
          ≡ plan
        → After (execute_plan sha256 parse state_problems pointer_schema derivation fails d p plan)
    unfolding execute_plan publish_planned
    execute_plan-Effect exact fresh thrown is = inl refl
    execute_plan-Effect exact fresh (failed ds) is = inl refl
    execute_plan-Effect exact fresh (planned s) is = published (expected_snapshot sha256 p s) refl
      where
        published :
            (o : Option Expected)
            → expected_snapshot sha256 p s ≡ o
            → After
                (publish_planned sha256 parse state_problems pointer_schema derivation fails d o)
        published none eq = inl refl
        published (some e) eq = inr (record {
          current = current;
          predecessor = p;
          successor = s;
          expected = e;
          pointer = ok.pointer;
          loaded = ok.loaded;
          accepted = ok.accepted;
          exact = exact;
          fresh = fresh;
          plan = is;
          snapshot = eq;
          published = refl;
        })

    execute_after_replay-Effect :
        validate_committed_transition_history sha256 parse state_problems pointer_schema derivation
            d
          ≡ history []
        → (r : Replay)
        → verify_committed_transition_replay sha256 parse state_problems pointer_schema derivation d
            (active_run sha256 parse state_problems pointer_schema derivation fails current p)
            operation
            input
            true
          ≡ r
        → After (
            execute_after_replay sha256 parse state_problems pointer_schema derivation fails d
              operation input p r)
    unfolding execute_after_replay
    execute_after_replay-Effect exact replay_threw is = inl refl
    execute_after_replay-Effect exact (conflict m) is = inl refl
    execute_after_replay-Effect exact (replayed q s e) is = inl refl
    execute_after_replay-Effect exact unmatched is = execute_plan-Effect exact is _ refl

    execute_loaded-Effect :
        (h : History)
        → validate_committed_transition_history sha256 parse state_problems pointer_schema
            derivation d
          ≡ h
        → After (
            execute_loaded sha256 parse state_problems pointer_schema derivation fails d operation
              input current p h)
    unfolding execute_loaded
    execute_loaded-Effect history_threw is = inl refl
    execute_loaded-Effect (not_loaded ds) is = inl refl
    execute_loaded-Effect (history (x ∷ xs)) is = inl refl
    execute_loaded-Effect (history []) is = execute_after_replay-Effect is _ refl

  execute_run-Effect :
      is_empty (load_run sha256 parse state_problems pointer_schema d).diagnostics ≡ true
      → (current : Option Value) (run : Option Predecessor)
      → (load_run sha256 parse state_problems pointer_schema d).current ≡ current
      → run_of_loaded
          (load_run sha256 parse state_problems pointer_schema d).current
          (load_run sha256 parse state_problems pointer_schema d).generation
        ≡ run
      → After (
          execute_run sha256 parse state_problems pointer_schema derivation fails d operation input
            current run)
  unfolding execute_run
  execute_run-Effect good none run at is = inl refl
  execute_run-Effect good (some current) none at is = inl refl
  execute_run-Effect good (some current) (some p) at is =
      execute_loaded-Effect current p (record { pointer = at; loaded = is; accepted = good }) _ refl

  branch-After :
      (x y : Execution) (b : Bool)
      → (b ≡ true → After x)
      → (b ≡ false → After y)
      → After (if b then x else y)
  branch-After x y true h k = h refl
  branch-After x y false h k = k refl

  execute_locked-Effect :
      After (
        execute_locked sha256 parse state_problems pointer_schema derivation fails d operation
          input)
  unfolding execute_locked
  execute_locked-Effect =
      let loaded = load_run sha256 parse state_problems pointer_schema d in
      branch-After _ _ (fails "after_lock_acquisition") (λ stops. inl refl)
        (λ goes.
          branch-After _ _ (is_empty loaded.diagnostics)
            (λ good.
              branch-After _ _ (fails "after_active_generation_load") (λ stops. inl refl)
                (λ goes. execute_run-Effect good loaded.current _ refl refl))
            (λ bad. inl refl))

  -- A mutation, wherever it fails, leaves the run directory as it is, or its effect is the publication
  -- of the successor that the planner makes of the loaded run; then the run loads, its history
  -- validates without a diagnostic, and the transition is not committed yet.
  pub execute_planned_mutation-Effect :
      Effect sha256 parse state_problems pointer_schema derivation fails d operation input
        (execute_planned_mutation sha256 parse state_problems pointer_schema derivation fails d
          operation input).directory
  unfolding execute_planned_mutation
  execute_planned_mutation-Effect = elim (Bool-cases (fails "before_lock_release")) [
    | inl stops ↦ rw (execute_planned_mutation, stops) execute_locked-Effect
    | inr goes ↦ rw (execute_planned_mutation, goes) execute_locked-Effect
  ]
