-- ===== src/Lock/Obeys/Programs.antt =====
-- The programs of the lock obey.
use ev4_builder_assistant_re.Base.{
  ℕ, String, Bool, true, false, ◌==◌, List, [], ◌∷◌, Option, none, some, ◌≡◌, ◌⊎◌, inl, inr, refl,
  ◌∙◌, if◌then◌else◌, str_eq_refl, Bool-cases,
}
use ev4_builder_assistant_re.Json.{Value}
use ev4_builder_assistant_re.Lock.Metadata.{Folder, lock, guard, Identity}
use ev4_builder_assistant_re.Lock.Calls.{
  Side, preparation, claim, final, created, exists_directory, exists_other, creation_failed,
  Presence, present, absent, inspection_failed, Program, ret,
}
use ev4_builder_assistant_re.Lock.Ownership.{
  Acquired, acquired, not_acquired, busy_code, unavailable_code, ensure_inert_container,
  discard_preparation, tidy_after_link, link_prepared, publish_metadata, acquire_owned_directory,
  Restoration, restore_claimed_lock_file, claim_missing, replacement_owner_won,
  restoration_unavailable, restoration_threw, restored, not_claimed, names_owner, give_back,
  verify_claim, take_away, claim_owned_lock_file, remove_candidate, remove_candidates,
  remove_associated_preparation_files, acquire_in, refuse_claim, sync_removed,
}
use ev4_builder_assistant_re.Lock.Obeys.{
  Caps, may_take, after_read, other, own, lose, IsClaim, Obeys, Obeys-bind, Obeys-weaken,
}

-- The caps stay as they are.
abbrev pub Keeps {ℓ} : {A : Type ℓ} → Caps → Caps → A → Type 0
Keeps c d a = d ≡ c

-- The cases of an answer.
pub on_bool : (P : Bool → Type 0) → P true → P false → (x : Bool) → P x
on_bool P t f true = t
on_bool P t f false = f

pub on_presence :
    (P : Presence → Type 0) → P present → P absent → P inspection_failed → (x : Presence) → P x
on_presence P p a i present = p
on_presence P p a i absent = a
on_presence P p a i inspection_failed = i

pub on_option :
    {B : Type 0} (P : Option B → Type 0) → P none → ((b : B) → P (some b)) → (x : Option B) → P x
on_option P n s none = n
on_option P n s (some b) = s b

pub choose-Obeys :
    (me : Identity) (c : Caps) {A : Type 0} (Q : Caps → A → Type 0) (p q : Program A) (b : Bool)
    → Obeys me Q c p
    → Obeys me Q c q
    → Obeys me Q c (if b then p else q)
choose-Obeys me c Q p q true h k = h
choose-Obeys me c Q p q false h k = k

pub choose_if-Obeys :
    (me : Identity) (c : Caps) {A : Type 0} (Q : Caps → A → Type 0) (p q : Program A) (b : Bool)
    → (b ≡ true → Obeys me Q c p)
    → Obeys me Q c q
    → Obeys me Q c (if b then p else q)
choose_if-Obeys me c Q p q true h k = h refl
choose_if-Obeys me c Q p q false h k = k

module _ (me : Identity) (f : Folder) (c : Caps) where
  abbrev pub AfterAcquire : Caps → Acquired → Type 0
  AfterAcquire d acquired = d ≡ own f c
  AfterAcquire d (not_acquired code) = d ≡ c

  ensure_inert_container-Obeys : Obeys me (Keeps c) c (ensure_inert_container f)
  unfolding ensure_inert_container
  ensure_inert_container-Obeys created = λ x. refl
  ensure_inert_container-Obeys exists_directory = refl
  ensure_inert_container-Obeys exists_other = refl
  ensure_inert_container-Obeys creation_failed = refl

  discard_preparation-Obeys :
      (s : Side) (code : String)
      → Obeys me AfterAcquire c (discard_preparation f s (not_acquired code))
  unfolding discard_preparation
  discard_preparation-Obeys s code = on_presence _ (on_bool _ (λ x. refl) refl) refl refl

  tidy_after_link-Obeys : (s : Side) → Obeys me AfterAcquire (own f c) (tidy_after_link f s)
  unfolding tidy_after_link
  tidy_after_link-Obeys s = on_bool _ (on_bool _ (λ x. refl) refl) refl

  link_prepared-Obeys : Obeys me AfterAcquire c (link_prepared f (preparation (me.lock_id f)))
  unfolding link_prepared
  link_prepared-Obeys = (
    discard_preparation-Obeys (preparation (me.lock_id f)) busy_code,
    discard_preparation-Obeys (preparation (me.lock_id f)) unavailable_code,
    rw (str_eq_refl (me.lock_id f)) (tidy_after_link-Obeys (preparation (me.lock_id f))),
  )

  publish_metadata-Obeys : Obeys me AfterAcquire c (publish_metadata me f)
  unfolding publish_metadata
  publish_metadata-Obeys =
      let failed = discard_preparation-Obeys (preparation (me.lock_id f)) unavailable_code in
      (refl, refl, on_bool _ (on_bool _ link_prepared-Obeys failed) failed)

  acquire_in-Obeys : (usable : Bool) → Obeys me AfterAcquire c (acquire_in me f usable)
  unfolding acquire_in
  acquire_in-Obeys false = refl
  acquire_in-Obeys true = on_presence _ refl publish_metadata-Obeys refl

  pub acquire_owned_directory-Obeys : Obeys me AfterAcquire c (acquire_owned_directory me f)
  unfolding acquire_owned_directory
  acquire_owned_directory-Obeys =
      Obeys-bind me (Keeps c) AfterAcquire _ (λ d usable same. rw same (acquire_in-Obeys usable)) c
        (ensure_inert_container f) ensure_inert_container-Obeys

  pub restore_claimed_lock_file-Obeys :
      (s : Side) → IsClaim s → Obeys me (Keeps c) c (restore_claimed_lock_file f s)
  unfolding restore_claimed_lock_file
  restore_claimed_lock_file-Obeys (claim p x u) h =
      on_presence _ (refl, refl, on_bool _ (on_bool _ (λ x. refl) refl) refl) refl refl
  restore_claimed_lock_file-Obeys (preparation id) h = absurd h

  remove_candidate-Obeys :
      (authority : ℕ) (expected : Value) (id : String)
      → Obeys me (Keeps c) c (remove_candidate f authority expected id)
  unfolding remove_candidate
  remove_candidate-Obeys authority expected id = on_option _ refl (λ n.
      choose-Obeys me c _ _ _ (n == authority)
        (λ read. choose-Obeys me c _ _ _ (names_owner read expected) (λ x. refl) refl) refl)

  remove_candidates-Obeys :
      (authority : ℕ) (expected : Value) (ids : List String)
      → Obeys me (Keeps c) c (remove_candidates f authority expected ids)
  unfolding remove_candidates
  remove_candidates-Obeys authority expected [] = refl
  remove_candidates-Obeys authority expected (id ∷ ids) =
      Obeys-bind me (Keeps c) (Keeps c) _
        (λ d removed same. rw same (
          Obeys-bind me (Keeps c) (Keeps c) _ (λ e later same_later. same_later) c
            (remove_candidates f authority expected ids)
            (remove_candidates-Obeys authority expected ids)))
        c (remove_candidate f authority expected id) (remove_candidate-Obeys authority expected id)

  sync_removed-Obeys : (ids : List String) → Obeys me (Keeps c) c (sync_removed f ids)
  unfolding sync_removed
  sync_removed-Obeys [] = refl
  sync_removed-Obeys (id ∷ ids) = λ x. refl

  pub remove_associated_preparation_files-Obeys :
      (s : Side) (expected : Value)
      → Obeys me (Keeps c) c (remove_associated_preparation_files f s expected)
  unfolding remove_associated_preparation_files
  remove_associated_preparation_files-Obeys s expected = on_option _ refl (λ n.
      on_option _ refl (λ ids.
        Obeys-bind me (Keeps c) (Keeps c) _ (λ d removed same. rw same (sync_removed-Obeys removed))
          c (remove_candidates f n expected ids) (remove_candidates-Obeys n expected ids)))

-- What is owned of the other folder stays as it is.
abbrev pub KeepsOther {ℓ} : {A : Type ℓ} → Folder → Caps → Caps → A → Type 0
KeepsOther f c d a = other f d ≡ other f c

other-lose : (f : Folder) (c : Caps) → other f (lose f c) ≡ other f c
other-lose lock c = refl
other-lose guard c = refl

other-after_read :
    (f : Folder) (x : Option Value) (c : Caps) → other f (after_read final f x c) ≡ other f c
other-after_read lock none c = refl
other-after_read lock (some v) c = refl
other-after_read guard x c = refl

module _ (me : Identity) (f : Folder) where
  refuse_claim-Obeys : (c : Caps) (r : Restoration) → Obeys me (Keeps c) c (refuse_claim r)
  unfolding refuse_claim
  refuse_claim-Obeys c restoration_threw = refl
  refuse_claim-Obeys c claim_missing = refl
  refuse_claim-Obeys c replacement_owner_won = refl
  refuse_claim-Obeys c restoration_unavailable = refl
  refuse_claim-Obeys c (restored removed) = refl

  give_back-Obeys : (c : Caps) (s : Side) → IsClaim s → Obeys me (Keeps c) c (give_back f s)
  unfolding give_back
  give_back-Obeys c s h =
      Obeys-bind me (Keeps c) (Keeps c) _ (λ d r same. rw same (refuse_claim-Obeys c r)) c
        (restore_claimed_lock_file f s) (restore_claimed_lock_file-Obeys me f c s h)

  verify_claim-Obeys :
      (c : Caps) (s : Side) (expected : Value)
      → IsClaim s
      → Obeys me (Keeps c) c (verify_claim f s expected)
  unfolding verify_claim
  verify_claim-Obeys c s expected h =
      on_option _ (give_back-Obeys c s h)
        (λ v. choose-Obeys me c _ _ _ (names_owner (some v) expected) refl (give_back-Obeys c s h))

  take_away-Obeys :
      (c : Caps) (expected : Value) (s : Side)
      → IsClaim s
      → may_take f c ≡ true
      → Obeys me (KeepsOther f c) c (take_away f expected s)
  unfolding take_away
  take_away-Obeys c expected s h may = (
    may,
    h,
    refl,
    on_bool _
        (Obeys-weaken me (Keeps (lose f c)) (KeepsOther f c) (λ d r same. rw same (other-lose f c))
          (lose f c) (verify_claim f s expected) (verify_claim-Obeys (lose f c) s expected h))
        (other-lose f c),
  )

  -- A lock file may be claimed by the id that the process expects there.
  abbrev MayClaim : Caps → Value → Type 0
  MayClaim c expected =
      (v : Value)
      → names_owner (some v) expected ≡ true
      → may_take f (after_read final f (some v) c) ≡ true

  metadata_read :
      (c : Caps) (expected : Value) (s : Side)
      → IsClaim s
      → (v : Value)
      → (names_owner (some v) expected ≡ true) ⊎ (names_owner (some v) expected ≡ false)
      → MayClaim c expected
      → Obeys me (KeepsOther f c) (after_read final f (some v) c) (
          if names_owner (some v) expected
          then take_away f expected s
          else ret (not_claimed "ownership_mismatch"))
  metadata_read c expected s h v (inl mine) may =
      let c' = after_read final f (some v) c in
      rw mine (
        Obeys-weaken me (KeepsOther f c') (KeepsOther f c)
          (λ d r same. same ∙ other-after_read f (some v) c) c' (take_away f expected s)
          (take_away-Obeys c' expected s h (may v mine)))
  metadata_read c expected s h v (inr foreign) may = rw foreign (other-after_read f (some v) c)

  pub claim_owned_lock_file-Obeys :
      (c : Caps) (expected : Value) (s : Side)
      → IsClaim s
      → MayClaim c expected
      → Obeys me (KeepsOther f c) c (claim_owned_lock_file f expected s)
  unfolding claim_owned_lock_file names_owner
  claim_owned_lock_file-Obeys c expected s h may =
      on_option _ (other-after_read f none c)
        (λ v. metadata_read c expected s h v (Bool-cases (names_owner (some v) expected)) may)
