-- ===== src/Replay/Complete.antt =====
-- A generation that a planner makes of the one before, byte by byte, is replayed.
use ev4_builder_assistant_re.Base.{
  ℕ, String, Bool, true, false, List, [], ◌∷◌, Option, none, some, ◌≡◌, ◌↔◌, refl, if◌then◌else◌,
  str_eq_refl, All,
}
use ev4_builder_assistant_re.Json.{Value, get, truthy}
use ev4_builder_assistant_re.Publication.{Operation}
use ev4_builder_assistant_re.Planner.Types.{Predecessor, Successor, AuxiliaryFile}
use ev4_builder_assistant_re.Store.Directory.{GenerationFiles, Directory, entry_bytes, find_file}
use ev4_builder_assistant_re.Store.Publish.{Expected, same_file}
use ev4_builder_assistant_re.Replay.Inputs.{Input}
use ev4_builder_assistant_re.Replay.Exact.{
  Active, text_or, state_pairs, differing, compare_auxiliary, committed_differences,
  first_difference, compare_committed_bytes, replayed, predecessor_number, judge_snapshot,
  judge_plan, replay_from, verify_committed_transition_replay,
}
use ev4_builder_assistant_re.Replay.Sound.{
  SameBytes, Complete, expected_snapshot-Complete, Rederived,
  verify_committed_transition_replay-Rederived,
}

same_file_self : (a : Option String) (t : String) → a ≡ some t → same_file a (some t) ≡ true
unfolding same_file
same_file_self a t is = rw is (str_eq_refl t)

differing-none :
    (files : List (String × (Option String × String)))
    → All (λ (f : String × (Option String × String)). f.1.0 ≡ some f.1.1) files
    → differing files ≡ []
unfolding differing
differing-none [] h = refl
differing-none ((name, (actual, text)) ∷ files) h =
    rw (same_file_self actual text h.0) (differing-none files h.1)

compare_auxiliary-none :
    (files : List (String × String)) (entries : List AuxiliaryFile)
    → All (λ e. find_file e.ref files ≡ some (entry_bytes e.content)) entries
    → compare_auxiliary files entries ≡ []
unfolding compare_auxiliary
compare_auxiliary-none files [] h = refl
compare_auxiliary-none files (e ∷ es) h =
    rw (same_file_self (find_file e.ref files) (entry_bytes e.content) h.0)
      (compare_auxiliary-none files es h.1)

texts_agree : (a b : Option String) → (t : String) × (b ≡ some t) → a ≡ b → a ≡ some (text_or b)
texts_agree a none (t, is) h = absurd (cc is)
texts_agree a (some t) is h = h

committed_differences-none :
    (d : Directory) (current : Value) (e : Expected) (compare_current : Bool)
    → Complete e
    → (same : SameBytes d current e compare_current)
    → committed_differences d same.files e compare_current ≡ []
unfolding committed_differences
committed_differences-none d current e compare_current complete same =
    let state : differing (state_pairs same.files e) ≡ [] =
      differing-none (state_pairs same.files e) (
        texts_agree _ _ complete.context same.context,
        (
          texts_agree _ _ complete.session same.session,
          (
            texts_agree _ _ complete.checkpoint same.checkpoint,
            (texts_agree _ _ complete.manifest same.manifest, tt),
          ),
        ),
      ) in
    rw (state, compare_auxiliary-none d.files e.auxiliary same.auxiliary)
      (pointer compare_current same.pointer)
  where
    pointer :
        (b : Bool)
        → (b ≡ true → d.current ≡ some e.pointer)
        → (if b then differing (("CURRENT.json", (d.current, e.pointer)) ∷ []) else []) ≡ []
    pointer true h = differing-none (("CURRENT.json", (d.current, e.pointer)) ∷ []) (h refl, tt)
    pointer false h = refl

compare_committed_bytes-none :
    (d : Directory) (current : Value) (e : Expected) (compare_current : Bool)
    → Complete e
    → SameBytes d current e compare_current
    → compare_committed_bytes d current e compare_current ≡ none
unfolding first_difference compare_committed_bytes
compare_committed_bytes-none d current e compare_current complete same =
    rw
      (
        compare_committed_bytes,
        same.at,
        same.number,
        same.named,
        committed_differences-none d current e compare_current complete same,
      )
      refl

truthy_of_number :
    (v : Value) (n : ℕ) → predecessor_number (get "generation" v) ≡ some n → truthy v ≡ true
unfolding get truthy predecessor_number
truthy_of_number (Value.obj fs) n h = refl
truthy_of_number _ n h = absurd (cc h)

module _ (sha256 : String → String) (parse : String → Option Value)
    (state_problems : GenerationFiles → List String) (pointer_schema : Value → Bool)
    (derivation : Directory → Predecessor → List String) where
  -- A replay is accepted exactly when the run names a later generation, its predecessor loads exactly,
  -- the operation is the committed one, the planner plans a successor of that predecessor, and the
  -- files of the generation, the auxiliary files and, when it is compared, the pointer have the bytes
  -- expected of it.
  pub verify_committed_transition_replay_iff :
      (d : Directory) (active : Active) (operation : Operation) (input : Input)
      (compare_current : Bool) (p : Predecessor) (s : Successor) (e : Expected)
      → (verify_committed_transition_replay sha256 parse state_problems pointer_schema derivation d
            active operation input compare_current
          ≡ replayed p s e)
        ↔ Rederived sha256 parse state_problems pointer_schema derivation d active operation input
            compare_current p s e
  unfolding verify_committed_transition_replay replay_from judge_plan judge_snapshot
  verify_committed_transition_replay_iff d active operation input compare_current p s e = (
    verify_committed_transition_replay-Rederived sha256 parse state_problems pointer_schema
        derivation d active operation input compare_current p s e,
    λ r.
        rw
          (
            verify_committed_transition_replay,
            truthy_of_number active.current r.number r.before,
            r.before,
            r.loaded,
            replay_from,
            r.operated,
            r.plan,
            judge_plan,
            r.snapshot,
            judge_snapshot,
            compare_committed_bytes-none d active.current e compare_current
                (expected_snapshot-Complete sha256 p s e r.snapshot) r.bytes,
          )
          refl,
  )
