-- ===== src/Lock/Recovery.antt =====
-- `recoverRunLock` of scripts/lib/runtime/run-lock-ownership.mjs, and a mutation under the lock as
-- `executePlannedMutation` of scripts/lib/runtime/committed-transition-replay.mjs runs it. The load of the run and
-- the removal of debris are the `work` of the owner.
use ev4_builder_assistant_re.Base.{
  String, Bool, true, false, List, [], ◌∷◌, Option, none, some, if◌then◌else◌, str_eq,
}
use ev4_builder_assistant_re.Json.{Value, str, get}
use ev4_builder_assistant_re.Lock.Metadata.{
  lock, guard, Identity, Liveness, live, dead, unknown, malformed, schema_of, valid_lock_metadata,
}
use ev4_builder_assistant_re.Lock.Calls.{
  Side, claim, final, present, absent, inspection_failed, Work, work_done, work_threw, work_refused,
  Program, ret, inspect_entry, read_metadata, remove_side, sync_container, probe_owner, work, ◌>>=◌,
}
use ev4_builder_assistant_re.Lock.Ownership.{
  Acquired, acquired, not_acquired, busy_code, acquire_owned_directory, Claim, claimed, not_claimed,
  claim_threw, claim_owned_lock_file, restore_claimed_lock_file,
  remove_associated_preparation_files, Released, release_threw, release_run_lock,
}

pub data Recovery : Type 0 where
  recovered recovery_threw : Recovery
  refused : List String → Recovery

-- What the `try` block leaves to its `finally`.
pub record Attempt : Type 0 where
  pub outcome : Recovery
  pub lock_taken : Bool
  pub claimed_file : Bool

abbrev stopped : Recovery → Program Attempt
stopped outcome = ret (record { outcome = outcome; lock_taken = false; claimed_file = false })

abbrev holding : Recovery → Program Attempt
holding outcome = ret (record { outcome = outcome; lock_taken = true; claimed_file = true })

-- Not dead: the codes of an owner that is alive, or may be.
unfoldable pub owner_code : Liveness → String
owner_code live = "RUN-LOCK-RECOVERY-LIVE-OWNER"
owner_code _ = "RUN-LOCK-RECOVERY-UNKNOWN-OWNER"

unfoldable pub remove_recovered : Side → Option (List String) → Program Attempt
remove_recovered claimed_file none = holding recovery_threw
remove_recovered claimed_file (some removed) = remove_side lock claimed_file λ gone. elim gone [
  | false ↦ holding recovery_threw
  | true ↦ sync_container lock λ synced. elim synced [
    | false ↦ holding recovery_threw
    | true ↦ ret (record { outcome = recovered; lock_taken = true; claimed_file = false })
  ]
]

-- With the stale lock claimed and the lock taken: the owner is looked at again, the run loaded, debris removed.
unfoldable pub recover_claimed : Side → Value → Value → Program Attempt
recover_claimed claimed_file expected metadata = probe_owner metadata λ liveness. elim liveness [
  | dead ↦ work λ result. elim result [
    | work_threw ↦ holding recovery_threw
    | work_refused diagnostics ↦ holding (refused diagnostics)
    | work_done ↦
        remove_associated_preparation_files lock claimed_file expected
        >>= remove_recovered claimed_file
  ]
  | live ↦ holding (refused (owner_code live ∷ []))
  | unknown ↦ holding (refused (owner_code unknown ∷ []))
  | malformed ↦ holding (refused (owner_code malformed ∷ []))
]

unfoldable pub replacement_code : String → String
replacement_code code = if str_eq code busy_code then "RUN-LOCK-RECOVERY-006" else code

unfoldable pub after_taking : Side → Value → Value → Acquired → Program Attempt
after_taking claimed_file expected metadata (not_acquired code) = ret (record {
  outcome = refused (replacement_code code ∷ []);
  lock_taken = false;
  claimed_file = true;
})
after_taking claimed_file expected metadata acquired =
    recover_claimed claimed_file expected metadata

abbrev pub recovering : Identity → Value → Side
recovering me (str id) = claim "recovering" id me.claim_id
recovering me _ = claim "recovering" "" me.claim_id

unfoldable pub take_over : Identity → Value → Claim → Program Attempt
take_over me expected (claimed metadata) =
    acquire_owned_directory me lock >>= after_taking (recovering me expected) expected metadata
take_over me expected (not_claimed reason) = stopped (refused ("RUN-LOCK-RECOVERY-006" ∷ []))
take_over me expected claim_threw = stopped recovery_threw

unfoldable pub claim_stale : Identity → Value → Program Attempt
claim_stale me expected =
    claim_owned_lock_file lock expected (recovering me expected) >>= take_over me expected

unfoldable pub inspect_valid : Identity → Value → Program Attempt
inspect_valid me metadata = probe_owner metadata λ liveness. elim liveness [
  | dead ↦ claim_stale me (get "lock_id" metadata)
  | live ↦ stopped (refused (owner_code live ∷ []))
  | unknown ↦ stopped (refused (owner_code unknown ∷ []))
  | malformed ↦ stopped (refused (owner_code malformed ∷ []))
]

unfoldable pub inspect_owner : Identity → Value → Program Attempt
inspect_owner me metadata =
    if valid_lock_metadata metadata (schema_of lock)
    then inspect_valid me metadata
    else stopped (refused ("RUN-LOCK-RECOVERY-002" ∷ []))

-- The `finally`: the lock is released, a file that is still claimed goes back, and the guard is released. An
-- exception of a release ends it.
unfoldable pub after_guard : Recovery → Released → Program Recovery
after_guard outcome release_threw = ret recovery_threw
after_guard outcome _ = ret outcome

unfoldable pub release_guard : Identity → Recovery → Program Recovery
release_guard me outcome = release_run_lock me guard >>= after_guard outcome

unfoldable pub restore_unfinished : Identity → Value → Attempt → Program Recovery
restore_unfinished me expected attempt =
    if attempt.claimed_file
    then (restore_claimed_lock_file lock (recovering me expected) >>= λ _.
        release_guard me attempt.outcome)
    else release_guard me attempt.outcome

unfoldable pub after_release : Identity → Value → Attempt → Released → Program Recovery
after_release me expected attempt release_threw = ret recovery_threw
after_release me expected attempt _ = restore_unfinished me expected attempt

unfoldable pub end_recovery : Identity → Value → Attempt → Program Recovery
end_recovery me expected attempt =
    if attempt.lock_taken
    then (release_run_lock me lock >>= after_release me expected attempt)
    else restore_unfinished me expected attempt

abbrev no_attempt : Recovery → Attempt
no_attempt outcome = record { outcome = outcome; lock_taken = false; claimed_file = false }

-- The `try` block, with its `finally`.
unfoldable pub guarded_recovery : Identity → Program Recovery
guarded_recovery me = inspect_entry lock final λ presence. elim presence [
  | inspection_failed ↦
      end_recovery me (str "") (no_attempt (refused ("RUN-LOCK-RECOVERY-002" ∷ [])))
  | absent ↦ end_recovery me (str "") (no_attempt (refused ("RUN-LOCK-RECOVERY-001" ∷ [])))
  | present ↦ read_metadata lock final λ read. elim read [
    | none ↦ end_recovery me (str "") (no_attempt (refused ("RUN-LOCK-RECOVERY-002" ∷ [])))
    | some metadata ↦ inspect_owner me metadata >>= end_recovery me (get "lock_id" metadata)
  ]
]

unfoldable pub guard_code : String → String
guard_code code = if str_eq code busy_code then "RUN-LOCK-RECOVERY-005" else code

unfoldable pub recover_guarded : Identity → Acquired → Program Recovery
recover_guarded me (not_acquired code) = ret (refused (guard_code code ∷ []))
recover_guarded me acquired = guarded_recovery me

unfoldable pub recover_run_lock : Identity → Program Recovery
recover_run_lock me = acquire_owned_directory me guard >>= recover_guarded me

pub data Mutation : Type 0 where
  blocked : String → Mutation
  finished : Work → Mutation
  mutation_threw : Mutation

unfoldable pub end_mutation : Work → Released → Program Mutation
end_mutation result release_threw = ret mutation_threw
end_mutation result _ = ret (finished result)

unfoldable pub mutate : Identity → Acquired → Program Mutation
mutate me (not_acquired code) = ret (blocked code)
mutate me acquired = work λ result. release_run_lock me lock >>= end_mutation result

-- A mutation under the lock: the work is done by the owner alone, and the lock is released whatever it came to.
unfoldable pub locked_mutation : Identity → Program Mutation
locked_mutation me = acquire_owned_directory me lock >>= mutate me
