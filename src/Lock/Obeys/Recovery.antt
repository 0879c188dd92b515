-- ===== src/Lock/Obeys/Recovery.antt =====
-- A release, a mutation under the lock and a recovery obey.
use ev4_builder_assistant_re.Base.{
  String, true, List, Option, none, some, ◌≡◌, inl, inr, refl, ◌∙◌, arith,
}
use ev4_builder_assistant_re.Json.{Value, str, get, strict_eq}
use ev4_builder_assistant_re.Lock.Metadata.{
  Folder, lock, guard, Identity, valid_lock_metadata, schema_of,
}
use ev4_builder_assistant_re.Lock.Calls.{
  Side, claim, final, Work, work_done, work_threw, work_refused, ret, ◌>>=◌,
}
use ev4_builder_assistant_re.Lock.Ownership.{
  Acquired, acquired, not_acquired, acquire_owned_directory, Claim, claimed, not_claimed,
  claim_threw, names_owner, claim_owned_lock_file, restore_claimed_lock_file,
  remove_associated_preparation_files, Released, released, release_threw, not_released,
  release_run_lock, remove_authority, end_release,
}
use ev4_builder_assistant_re.Lock.Recovery.{
  Recovery, recovery_threw, refused, Attempt, remove_recovered, recover_claimed, after_taking,
  recovering, take_over, claim_stale, inspect_valid, inspect_owner, after_guard, release_guard,
  restore_unfinished, after_release, end_recovery, guarded_recovery, recover_guarded,
  recover_run_lock, end_mutation, mutate, locked_mutation,
}
use ev4_builder_assistant_re.Lock.Obeys.{
  Caps, owns, may_take, after_read, own, bury, IsClaim, Obeys, Obeys-bind, Obeys-weaken,
}
use ev4_builder_assistant_re.Lock.Obeys.Programs.{
  Keeps, KeepsOther, on_bool, on_presence, on_option, choose-Obeys, choose_if-Obeys, AfterAcquire,
  acquire_owned_directory-Obeys, restore_claimed_lock_file-Obeys,
  remove_associated_preparation_files-Obeys, claim_owned_lock_file-Obeys,
}

may_take_own :
    (f : Folder) (c : Caps) (v : Value)
    → owns f c ≡ true
    → may_take f (after_read final f (some v) c) ≡ true
may_take_own lock c v owned = rw owned
may_take_own guard c v owned = owned

module _ (me : Identity) (f : Folder) where
  remove_authority-Obeys :
      (c : Caps) (s : Side) (removed : Option (List String))
      → Obeys me (Keeps c) c (remove_authority f s removed)
  unfolding remove_authority
  remove_authority-Obeys c s none = refl
  remove_authority-Obeys c s (some removed) = on_bool _ (on_bool _ (λ x y. refl) refl) refl

  end_release-Obeys :
      (c : Caps) (s : Side) (expected : Value) (r : Claim)
      → Obeys me (Keeps c) c (end_release f s expected r)
  unfolding end_release
  end_release-Obeys c s expected (claimed v) =
      Obeys-bind me (Keeps c) (Keeps c) _
        (λ d removed same. rw same (remove_authority-Obeys c s removed)) c
        (remove_associated_preparation_files f s expected)
        (remove_associated_preparation_files-Obeys me f c s expected)
  end_release-Obeys c s expected (not_claimed reason) = refl
  end_release-Obeys c s expected claim_threw = refl

  pub release_run_lock-Obeys :
      (c : Caps) → owns f c ≡ true → Obeys me (KeepsOther f c) c (release_run_lock me f)
  unfolding release_run_lock
  release_run_lock-Obeys c owned =
      let claimed_file = claim "release" (me.lock_id f) me.claim_id in
      let expected = str (me.lock_id f) in
      on_presence _
        (Obeys-bind me (KeepsOther f c) (KeepsOther f c) _
          (λ d r same.
            Obeys-weaken me (Keeps d) (KeepsOther f c) (λ e x kept. rw kept same) d
              (end_release f claimed_file expected r) (end_release-Obeys d claimed_file expected r))
          c (claim_owned_lock_file f expected claimed_file)
          (claim_owned_lock_file-Obeys me f c expected claimed_file tt
            (λ v named. may_take_own f c v owned)))
        refl refl

-- The owner does its work with the lock.
abbrev Ends {ℓ} : {A : Type ℓ} → Caps → A → Type 0
Ends c a = Unit

module _ (me : Identity) where
  end_mutation-Obeys : (c : Caps) (w : Work) (r : Released) → Obeys me Ends c (end_mutation w r)
  unfolding end_mutation
  end_mutation-Obeys c w release_threw = tt
  end_mutation-Obeys c w released = tt
  end_mutation-Obeys c w (not_released reason) = tt

  mutate-Obeys :
      (c : Caps) (d : Caps) (a : Acquired)
      → AfterAcquire me lock c d a
      → Obeys me Ends d (mutate me a)
  unfolding mutate
  mutate-Obeys c d (not_acquired code) same = tt
  mutate-Obeys c d acquired same = (
    rw same,
    λ w.
        Obeys-bind me (KeepsOther lock d) Ends _ (λ e r kept. end_mutation-Obeys e w r) d
          (release_run_lock me lock) (release_run_lock-Obeys me lock d (rw same)),
  )

  pub locked_mutation-Obeys : (c : Caps) → Obeys me Ends c (locked_mutation me)
  unfolding locked_mutation
  locked_mutation-Obeys c =
      Obeys-bind me (AfterAcquire me lock c) Ends _ (mutate-Obeys c) c
        (acquire_owned_directory me lock) (acquire_owned_directory-Obeys me lock c)

-- The recoverer holds the guard, and the lock when the attempt says so.
abbrev AttemptHolds : Caps → Attempt → Type 0
AttemptHolds c a = (c.guarded ≡ true) × (a.lock_taken ≡ true → c.locked ≡ true)

abbrev Guarded {ℓ} : {A : Type ℓ} → Caps → A → Type 0
Guarded c a = c.guarded ≡ true

module _ (me : Identity) where
  remove_recovered-Obeys :
      (c : Caps) (s : Side) (removed : Option (List String))
      → c.guarded ≡ true
      → c.locked ≡ true
      → Obeys me AttemptHolds c (remove_recovered s removed)
  unfolding remove_recovered
  remove_recovered-Obeys c s none guarded locked = (guarded, λ x. locked)
  remove_recovered-Obeys c s (some removed) guarded locked =
      on_bool _ (on_bool _ (guarded, λ x. locked) (guarded, λ x. locked)) (guarded, λ x. locked)

  recover_claimed-Obeys :
      (c : Caps) (s : Side) (expected metadata : Value)
      → c.guarded ≡ true
      → c.locked ≡ true
      → Obeys me AttemptHolds c (recover_claimed s expected metadata)
  unfolding recover_claimed
  recover_claimed-Obeys c s expected metadata guarded locked = (
    (guarded, λ x. locked),
    (guarded, λ x. locked),
    (guarded, λ x. locked),
    inl (
      locked,
      λ w.
          elim w
            as (λ w. Obeys me AttemptHolds c (elim w [
              | work_threw ↦
                  ret (record { outcome = recovery_threw; lock_taken = true; claimed_file = true })
              | work_refused diagnostics ↦
                  ret (record {
                    outcome = refused diagnostics;
                    lock_taken = true;
                    claimed_file = true;
                  })
              | work_done ↦
                  remove_associated_preparation_files lock s expected >>= remove_recovered s
            ])) [
              | work_threw ↦ (guarded, λ x. locked)
              | work_refused diagnostics ↦ (guarded, λ x. locked)
              | work_done ↦
                  Obeys-bind me (Keeps c) AttemptHolds _
                    (λ d removed same. rw same (remove_recovered-Obeys c s removed guarded locked))
                    c (remove_associated_preparation_files lock s expected)
                    (remove_associated_preparation_files-Obeys me lock c s expected)
            ],
    ),
  )

  after_taking-Obeys :
      (c d : Caps) (s : Side) (expected metadata : Value) (a : Acquired)
      → c.guarded ≡ true
      → AfterAcquire me lock c d a
      → Obeys me AttemptHolds d (after_taking s expected metadata a)
  unfolding after_taking
  after_taking-Obeys c d s expected metadata acquired guarded same =
      rw same (recover_claimed-Obeys (own lock c) s expected metadata guarded refl)
  after_taking-Obeys c d s expected metadata (not_acquired code) guarded same =
      (rw same guarded, λ x. cc)

  take_over-Obeys :
      (c : Caps) (expected : Value) (r : Claim)
      → c.guarded ≡ true
      → Obeys me AttemptHolds c (take_over me expected r)
  unfolding take_over
  take_over-Obeys c expected (claimed metadata) guarded =
      Obeys-bind me (AfterAcquire me lock c) AttemptHolds _
        (λ d a same.
          after_taking-Obeys c d (recovering me expected) expected metadata a guarded same)
        c (acquire_owned_directory me lock) (acquire_owned_directory-Obeys me lock c)
  take_over-Obeys c expected (not_claimed reason) guarded = (guarded, λ x. cc)
  take_over-Obeys c expected claim_threw guarded = (guarded, λ x. cc)

  recovering-IsClaim : (v : Value) → IsClaim (recovering me v)
  recovering-IsClaim (Value.str id) = tt
  recovering-IsClaim _ = tt

  buried_may_take :
      (c : Caps) (v expected : Value)
      → c.guarded ≡ true
      → c.buried ≡ some expected
      → strict_eq (get "lock_id" v) expected ≡ true
      → may_take lock (after_read final lock (some v) c) ≡ true
  buried_may_take c v expected guarded buried named = ground arith

  claim_stale-Obeys :
      (c : Caps) (expected : Value)
      → c.guarded ≡ true
      → c.buried ≡ some expected
      → Obeys me AttemptHolds c (claim_stale me expected)
  unfolding claim_stale names_owner
  claim_stale-Obeys c expected guarded buried =
      Obeys-bind me (KeepsOther lock c) AttemptHolds _
        (λ d r same. take_over-Obeys d expected r (same ∙ guarded)) c
        (claim_owned_lock_file lock expected (recovering me expected))
        (claim_owned_lock_file-Obeys me lock c expected (recovering me expected)
          (recovering-IsClaim expected)
          (λ v named. buried_may_take c v expected guarded buried named))

  inspect_owner-Obeys :
      (c : Caps) (v : Value)
      → c.guarded ≡ true
      → c.seen ≡ some v
      → Obeys me AttemptHolds c (inspect_owner me v)
  unfolding inspect_owner inspect_valid
  inspect_owner-Obeys c v guarded seen =
      choose-Obeys me c _ _ _ (valid_lock_metadata v (schema_of lock))
        (
          (guarded, λ x. cc),
          (guarded, λ x. cc),
          (guarded, λ x. cc),
          inr (seen, claim_stale-Obeys (bury v c) (get "lock_id" v) guarded refl),
        )
        (guarded, λ x. cc)

  after_guard-Obeys : (c : Caps) (o : Recovery) (r : Released) → Obeys me Ends c (after_guard o r)
  unfolding after_guard
  after_guard-Obeys c o release_threw = tt
  after_guard-Obeys c o released = tt
  after_guard-Obeys c o (not_released reason) = tt

  release_guard-Obeys :
      (c : Caps) (o : Recovery) → c.guarded ≡ true → Obeys me Ends c (release_guard me o)
  unfolding release_guard
  release_guard-Obeys c o guarded =
      Obeys-bind me (KeepsOther guard c) Ends _ (λ d r kept. after_guard-Obeys d o r) c
        (release_run_lock me guard) (release_run_lock-Obeys me guard c guarded)

  restore_unfinished-Obeys :
      (c : Caps) (expected : Value) (a : Attempt)
      → c.guarded ≡ true
      → Obeys me Ends c (restore_unfinished me expected a)
  unfolding restore_unfinished
  restore_unfinished-Obeys c expected a guarded =
      choose-Obeys me c _ _ _ a.claimed_file
        (Obeys-bind me (Keeps c) Ends _
          (λ d r same. rw same (release_guard-Obeys c a.outcome guarded)) c
          (restore_claimed_lock_file lock (recovering me expected))
          (restore_claimed_lock_file-Obeys me lock c (recovering me expected)
            (recovering-IsClaim expected)))
        (release_guard-Obeys c a.outcome guarded)

  after_release-Obeys :
      (c : Caps) (expected : Value) (a : Attempt) (r : Released)
      → c.guarded ≡ true
      → Obeys me Ends c (after_release me expected a r)
  unfolding after_release
  after_release-Obeys c expected a release_threw guarded = tt
  after_release-Obeys c expected a released guarded = restore_unfinished-Obeys c expected a guarded
  after_release-Obeys c expected a (not_released reason) guarded =
      restore_unfinished-Obeys c expected a guarded

  end_recovery-Obeys :
      (c : Caps) (expected : Value) (a : Attempt)
      → AttemptHolds c a
      → Obeys me Ends c (end_recovery me expected a)
  unfolding end_recovery
  end_recovery-Obeys c expected a h =
      choose_if-Obeys me c _ _ _ a.lock_taken
        (λ taken.
          Obeys-bind me (KeepsOther lock c) Ends _
            (λ d r same. after_release-Obeys d expected a r (same ∙ h.0)) c
            (release_run_lock me lock) (release_run_lock-Obeys me lock c (h.1 taken)))
        (restore_unfinished-Obeys c expected a h.0)

  guarded_recovery-Obeys : (c : Caps) → c.guarded ≡ true → Obeys me Ends c (guarded_recovery me)
  unfolding guarded_recovery
  guarded_recovery-Obeys c guarded =
      on_presence _
        (on_option _ (end_recovery-Obeys c _ _ (guarded, λ x. cc)) (λ v.
          let d = after_read final lock (some v) c in
          Obeys-bind me AttemptHolds Ends _ (λ e a h. end_recovery-Obeys e (get "lock_id" v) a h) d
            (inspect_owner me v) (inspect_owner-Obeys d v guarded refl)))
        (end_recovery-Obeys c _ _ (guarded, λ x. cc)) (end_recovery-Obeys c _ _ (guarded, λ x. cc))

  recover_guarded-Obeys :
      (c d : Caps) (a : Acquired)
      → AfterAcquire me guard c d a
      → Obeys me Ends d (recover_guarded me a)
  unfolding recover_guarded
  recover_guarded-Obeys c d (not_acquired code) same = tt
  recover_guarded-Obeys c d acquired same = guarded_recovery-Obeys d (rw same)

  pub recover_run_lock-Obeys : (c : Caps) → Obeys me Ends c (recover_run_lock me)
  unfolding recover_run_lock
  recover_run_lock-Obeys c =
      Obeys-bind me (AfterAcquire me guard c) Ends _ (recover_guarded-Obeys c) c
        (acquire_owned_directory me guard) (acquire_owned_directory-Obeys me guard c)
