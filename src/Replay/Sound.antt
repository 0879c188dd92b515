-- ===== src/Replay/Sound.antt =====
-- What a replay that matches establishes: the generation is exactly what a planner makes of the one before.
use ev4_builder_assistant_re.Base.{
  ℕ, String, Bool, true, ◌&&◌, List, [], ◌∷◌, Option, none, some, ◌≡◌, refl, ap, ◌∙◌, inl, inr,
  str_eq_iff, Bool-cases, Option-cases, All, append-eq-nil, and-eq-true,
}
use mathlib.Core.Option.{some-injective}
use ev4_builder_assistant_re.Json.{Value, num, get, truthy, strict_eq}
use ev4_builder_assistant_re.Publication.{Operation}
use ev4_builder_assistant_re.Planner.Types.{
  Predecessor, Successor, AuxiliaryFile, Plan, failed, thrown, planned,
}
use ev4_builder_assistant_re.Primitives.Names.{generation_ref}
use ev4_builder_assistant_re.Store.Directory.{
  GenerationFiles, Directory, stable_json, entry_bytes, find_file,
}
use ev4_builder_assistant_re.Store.Load.{generation_at}
use ev4_builder_assistant_re.Store.Snapshot.{successor_manifest}
use ev4_builder_assistant_re.Store.Publish.{Expected, same_file, expected_snapshot}
use ev4_builder_assistant_re.Replay.Inputs.{Input, operation_committed}
use ev4_builder_assistant_re.Replay.Exact.{
  Active, differing, compare_auxiliary, committed_differences, first_difference, names_generation,
  compare_committed_bytes, replayed, predecessor_number, Loading, loading_conflict,
  loaded_predecessor, text_or, state_pairs, load_exact_predecessor, derive_plan, judge_snapshot,
  judge_plan, replay_from, verify_committed_transition_replay,
}

same_file-eq : (a : Option String) (text : String) → same_file a (some text) ≡ true → a ≡ some text
unfolding same_file
same_file-eq none text h = cc
same_file-eq (some a) text h = ap some ((str_eq_iff a text).0 h)

-- No difference: every file has the expected text.
differing-All :
    (files : List (String × (Option String × String)))
    → differing files ≡ []
    → All (λ (f : String × (Option String × String)). f.1.0 ≡ some f.1.1) files
unfolding differing
differing-All [] h = tt
differing-All ((name, (actual, text)) ∷ files) h =
    elim (Bool-cases (same_file actual (some text))) [
      | inl same ↦ (same_file-eq actual text same, differing-All files (rw same at h))
      | inr other ↦ absurd (cc (rw other at h))
    ]

compare_auxiliary-All :
    (files : List (String × String)) (entries : List AuxiliaryFile)
    → compare_auxiliary files entries ≡ []
    → All (λ e. find_file e.ref files ≡ some (entry_bytes e.content)) entries
unfolding compare_auxiliary
compare_auxiliary-All files [] h = tt
compare_auxiliary-All files (e ∷ es) h =
    elim (Bool-cases (same_file (find_file e.ref files) (some (entry_bytes e.content)))) [
      | inl same ↦ (same_file-eq _ _ same, compare_auxiliary-All files es (rw same at h))
      | inr other ↦ absurd (cc (rw other at h))
    ]

first_difference-none : (xs : List String) → first_difference xs ≡ none → xs ≡ []
unfolding first_difference
first_difference-none [] h = refl
first_difference-none (x ∷ xs) h = cc

-- The directory has, byte by byte, what was expected.
pub record SameBytes (d : Directory) (current : Value) (e : Expected) (compare_current : Bool)
    : Type 0 where
  pub files : GenerationFiles
  pub at : generation_at (get "generation_ref" current) d.generations ≡ some files
  pub number : strict_eq (num e.next_number) (get "generation" current) ≡ true
  pub named : names_generation (generation_ref e.next_number) (get "generation_ref" current) ≡ true
  pub context : files.context ≡ e.files.context
  pub session : files.session ≡ e.files.session
  pub checkpoint : files.checkpoint ≡ e.files.checkpoint
  pub manifest : files.manifest ≡ e.files.manifest
  pub auxiliary : All (λ a. find_file a.ref d.files ≡ some (entry_bytes a.content)) e.auxiliary
  pub pointer : compare_current ≡ true → d.current ≡ some e.pointer

-- The expected files are there.
pub record Complete (e : Expected) : Type 0 where
  pub context : (t : String) × (e.files.context ≡ some t)
  pub session : (t : String) × (e.files.session ≡ some t)
  pub checkpoint : (t : String) × (e.files.checkpoint ≡ some t)
  pub manifest : (t : String) × (e.files.manifest ≡ some t)

pub expected_snapshot-Complete :
    (sha256 : String → String) (p : Predecessor) (s : Successor) (e : Expected)
    → expected_snapshot sha256 p s ≡ some e
    → Complete e
unfolding expected_snapshot
expected_snapshot-Complete sha256 p s e h = elim (Option-cases (successor_manifest sha256 p s)) [
  | inl out ↦ absurd (cc (rw (expected_snapshot, out) at h))
  | inr (m, built) ↦ rw (← some-injective _ _ (rw (expected_snapshot, built) at h)) (record {
    context = (stable_json s.context, refl);
    session = (stable_json s.session, refl);
    checkpoint = (stable_json s.checkpoint, refl);
    manifest = (stable_json m, refl);
  })
]

agree : (a b : Option String) → (t : String) × (b ≡ some t) → a ≡ some (text_or b) → a ≡ b
agree a none (t, is) h = cc
agree a (some t) is h = h

compare_committed_bytes-SameBytes :
    (d : Directory) (current : Value) (e : Expected) (compare_current : Bool)
    → Complete e
    → compare_committed_bytes d current e compare_current ≡ none
    → SameBytes d current e compare_current
unfolding compare_committed_bytes committed_differences
compare_committed_bytes-SameBytes d current e compare_current complete h =
    elim (Option-cases (generation_at (get "generation_ref" current) d.generations)) [
      | inl missing ↦ absurd (cc (rw (compare_committed_bytes, missing) at h))
      | inr (files, at) ↦
          elim (Bool-cases (
            strict_eq (num e.next_number) (get "generation" current)
            && names_generation (generation_ref e.next_number) (get "generation_ref" current))) [
              | inr other ↦ absurd (cc (rw (compare_committed_bytes, at, other) at h))
              | inl this ↦
                  bytes files at (and-eq-true _ _ this)
                    (first_difference-none _ (rw (compare_committed_bytes, at, this) at h))
            ]
    ]
  where
    bytes :
        (files : GenerationFiles)
        → generation_at (get "generation_ref" current) d.generations ≡ some files
        → (strict_eq (num e.next_number) (get "generation" current) ≡ true)
          × (names_generation (generation_ref e.next_number) (get "generation_ref" current) ≡ true)
        → committed_differences d files e compare_current ≡ []
        → SameBytes d current e compare_current
    bytes files at number none_differs =
        let (state, rest) = append-eq-nil (differing (state_pairs files e)) _ none_differs in
        let (auxiliary, pointer) = append-eq-nil (compare_auxiliary d.files e.auxiliary) _ rest in
        let (context, (session, (checkpoint, (manifest, _)))) = differing-All _ state in
        record {
          files = files;
          at = at;
          number = number.0;
          named = number.1;
          context = agree _ _ complete.context context;
          session = agree _ _ complete.session session;
          checkpoint = agree _ _ complete.checkpoint checkpoint;
          manifest = agree _ _ complete.manifest manifest;
          auxiliary = compare_auxiliary-All d.files e.auxiliary auxiliary;
          pointer = λ on. (differing-All _ (rw on at pointer)).0;
        }

module _ (sha256 : String → String) (parse : String → Option Value)
    (state_problems : GenerationFiles → List String) (pointer_schema : Value → Bool)
    (derivation : Directory → Predecessor → List String) where
  -- The generation in force was made from the predecessor by the planner of the operation, byte by byte.
  pub record Rederived (d : Directory) (active : Active) (operation : Operation) (input : Input)
      (compare_current : Bool) (p : Predecessor) (s : Successor) (e : Expected) : Type 0 where
    pub number : ℕ
    pub before : predecessor_number (get "generation" active.current) ≡ some number
    pub loaded :
        load_exact_predecessor sha256 parse state_problems pointer_schema derivation d number
          active.manifest
        ≡ loaded_predecessor p
    pub operated : operation_committed active.manifest p.manifest operation input ≡ true
    pub plan :
        derive_plan sha256 parse state_problems pointer_schema derivation d operation p input
        ≡ planned s
    pub snapshot : expected_snapshot sha256 p s ≡ some e
    pub bytes : SameBytes d active.current e compare_current

  record Judged (d : Directory) (current : Value) (p : Predecessor) (s : Successor) (e : Expected)
      (compare_current : Bool) : Type 0 where
    snapshot : expected_snapshot sha256 p s ≡ some e
    bytes : SameBytes d current e compare_current

  judge_snapshot-Judged :
      (d : Directory) (current : Value) (p q : Predecessor) (s t : Successor) (e : Expected)
      (compare_current : Bool) (o : Option Expected)
      → expected_snapshot sha256 p s ≡ o
      → judge_snapshot sha256 parse state_problems pointer_schema derivation d current p s o
          compare_current
        ≡ replayed q t e
      → (p ≡ q) × (s ≡ t) × Judged d current p s e compare_current
  unfolding judge_snapshot
  judge_snapshot-Judged d current p q s t e compare_current none is h = absurd (cc h)
  judge_snapshot-Judged d current p q s t e compare_current (some e') is h =
      elim (Option-cases (compare_committed_bytes d current e' compare_current)) [
        | inr (mismatch, found) ↦ absurd (cc (rw (judge_snapshot, found) at h))
        | inl none_differs ↦
            let same = rw (judge_snapshot, none_differs) at h in
            let e_same : e' ≡ e = cc same in
            (
              cc same,
              cc same,
              record {
                snapshot = is ∙ ap some e_same;
                bytes = rw (← e_same) (
                    compare_committed_bytes-SameBytes d current e' compare_current
                      (expected_snapshot-Complete sha256 p s e' is) none_differs);
              },
            )
      ]

  judge_plan-Judged :
      (d : Directory) (active : Active) (p q : Predecessor) (t : Successor) (e : Expected)
      (compare_current : Bool) (plan : Plan)
      → judge_plan sha256 parse state_problems pointer_schema derivation d active p plan
          compare_current
        ≡ replayed q t e
      → (p ≡ q) × (plan ≡ planned t) × Judged d active.current p t e compare_current
  unfolding judge_plan
  judge_plan-Judged d active p q t e compare_current thrown h = absurd (cc h)
  judge_plan-Judged d active p q t e compare_current (failed ds) h = absurd (cc h)
  judge_plan-Judged d active p q t e compare_current (planned s) h =
      let (same_p, same_s, judged) =
        judge_snapshot-Judged d active.current p q s t e compare_current
          (expected_snapshot sha256 p s) refl h in
      (same_p, ap planned same_s, rw (← same_s) judged)

  replay_from-Rederived :
      (d : Directory) (active : Active) (operation : Operation) (input : Input)
      (compare_current : Bool) (n : ℕ) (q : Predecessor) (t : Successor) (e : Expected)
      → predecessor_number (get "generation" active.current) ≡ some n
      → (l : Loading)
      → load_exact_predecessor sha256 parse state_problems pointer_schema derivation d n
          active.manifest
        ≡ l
      → replay_from sha256 parse state_problems pointer_schema derivation d active operation input
          compare_current l
        ≡ replayed q t e
      → Rederived d active operation input compare_current q t e
  unfolding replay_from
  replay_from-Rederived d active operation input compare_current n q t e before (loading_conflict m)
        is h =
      absurd (cc h)
  replay_from-Rederived d active operation input compare_current n q t e before
        (loaded_predecessor p) is h =
      elim (Bool-cases (operation_committed active.manifest p.manifest operation input)) [
        | inr other ↦ absurd (cc (rw other at h))
        | inl operated ↦
            let (same, plan, judged) =
              judge_plan-Judged d active p q t e compare_current
                (derive_plan sha256 parse state_problems pointer_schema derivation d operation p
                  input)
                (rw operated at h) in
            record {
              number = n;
              before = before;
              loaded = is ∙ ap loaded_predecessor same;
              operated = rw (← same) operated;
              plan = rw (← same) plan;
              snapshot = rw (← same) judged.snapshot;
              bytes = judged.bytes;
            }
      ]

  pub verify_committed_transition_replay-Rederived :
      (d : Directory) (active : Active) (operation : Operation) (input : Input)
      (compare_current : Bool) (p : Predecessor) (s : Successor) (e : Expected)
      → verify_committed_transition_replay sha256 parse state_problems pointer_schema derivation d
          active operation input compare_current
        ≡ replayed p s e
      → Rederived d active operation input compare_current p s e
  unfolding verify_committed_transition_replay
  verify_committed_transition_replay-Rederived d active operation input compare_current p s e h =
      elim (Bool-cases (truthy active.current)) [
        | inr missing ↦ absurd (cc (rw (verify_committed_transition_replay, missing) at h))
        | inl there ↦ elim (Option-cases (predecessor_number (get "generation" active.current))) [
          | inl first ↦ absurd (cc (rw (verify_committed_transition_replay, there, first) at h))
          | inr (n, before) ↦
              replay_from-Rederived d active operation input compare_current n p s e before _ refl
                (rw (verify_committed_transition_replay, there, before) at h)
        ]
      ]
