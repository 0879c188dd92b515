-- ===== src/Lifecycle/Commit.antt =====
-- A run one transition later: `commitPlannedTransition` of scripts/lib/runtime/run-state-store.mjs, taken
-- as a whole, replaces the loaded generation by the successor's, and the next load reads it back.
use ev4_builder_assistant_re.Base.{
  ◌+◌, String, true, [], ◌≡◌, refl, Option, none, some, Option-cases, inl, inr, arith,
}
use mathlib.Core.Option.{some-injective}
use ev4_builder_assistant_re.Primitives.Names.{is_hash, generation_ref}
use ev4_builder_assistant_re.Primitives.Manifest.{build_manifest}
use ev4_builder_assistant_re.Planner.Types.{Predecessor, Successor}
use ev4_builder_assistant_re.Planner.Prepare.{unprepared}
use ev4_builder_assistant_re.Store.Snapshot.{successor_input, successor_manifest}
use ev4_builder_assistant_re.Lifecycle.Derived.{Derived}
use ev4_builder_assistant_re.Lifecycle.Fields.{successor-Reads, checkpoint_id_inked}
use ev4_builder_assistant_re.Lifecycle.Valid.{IsValid, manifest-IsObject}
use ev4_builder_assistant_re.Primitives.Manifest.Fields.{Bound, build_manifest-Bound}
use ev4_builder_assistant_re.Lifecycle.Successor.{successor-validate_generation}

module _ (sha256 : String → String) where
  unfoldable pub committed : Predecessor → Successor → Option Predecessor
  committed p s = elim (successor_manifest sha256 p s) [
    | none ↦ none
    | some m ↦ some (record {
      manifest = m;
      context = s.context;
      session = s.session;
      checkpoint = s.checkpoint;
      generation = p.generation + 1;
      planning = unprepared;
    })
  ]

  -- What a commit leaves, when there is a next generation number.
  pub record Commits (p : Predecessor) (s : Successor) (q : Predecessor) : Type 0 where
    pub built : successor_manifest sha256 p s ≡ some q.manifest
    pub context : q.context ≡ s.context
    pub session : q.session ≡ s.session
    pub checkpoint : q.checkpoint ≡ s.checkpoint
    pub generation : q.generation ≡ p.generation + 1

  pub committed-Commits :
      (p : Predecessor) (s : Successor) (q : Predecessor) → committed p s ≡ some q → Commits p s q
  unfolding committed
  committed-Commits p s q h = elim (Option-cases (successor_manifest sha256 p s)) [
    | inl out ↦ absurd (ground arith)
    | inr (m, built) ↦
        let e = some-injective _ _ (rw (committed, built) at h) in
        rw (← e) (record {
          built = built;
          context = refl;
          session = refl;
          checkpoint = refl;
          generation = refl;
        })
  ]

  -- A commit of what a planner derives from a valid run leaves a valid run.
  pub committed-IsValid :
      (hashes : (t : String) → is_hash (sha256 t) ≡ true) (p : Predecessor) (s : Successor)
      (q : Predecessor)
      → Derived p s
      → IsValid sha256 p
      → committed p s ≡ some q
      → IsValid sha256 q
  unfolding committed
  committed-IsValid hashes p s q d v h = elim (Option-cases (successor_manifest sha256 p s)) [
    | inl out ↦ absurd (ground arith)
    | inr (m, built) ↦
        let e = some-injective _ _ (rw (committed, built) at h) in
        rw (← e) (record {
          accepted = successor-validate_generation sha256 hashes p s d v m built [];
          named = rw (successor-Reads p s d).id (checkpoint_id_inked _ _);
        })
  ]

  -- The manifest of a committed run is built upon the one before.
  pub committed-Bound :
      (p : Predecessor) (s : Successor) (q : Predecessor)
      → IsValid sha256 p
      → committed p s ≡ some q
      → Bound sha256 (successor_input p s) s.context s.checkpoint p.manifest q.manifest
  unfolding successor_manifest
  committed-Bound p s q v h =
      build_manifest-Bound sha256 (successor_input p s) s.context s.checkpoint p.manifest refl
        (manifest-IsObject sha256 p v) q.manifest (committed-Commits p s q h).built

  -- A successor can be committed when its generation has a number.
  pub committed-total :
      (p : Predecessor) (s : Successor) (ref : String)
      → generation_ref (p.generation + 1) ≡ some ref
      → (q : Predecessor) × (committed p s ≡ some q)
  unfolding committed successor_manifest build_manifest successor_input
  committed-total p s ref h = elim (Option-cases (committed p s)) [
    | inl out ↦ absurd (ground (arith, h))
    | inr found ↦ found
  ]
