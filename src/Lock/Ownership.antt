-- ===== src/Lock/Ownership.antt =====
-- `ensureInertContainer`, `acquireOwnedDirectory`, `restoreClaimedLockFile`, `claimOwnedLockFile`,
-- `removeAssociatedPreparationFiles`, `removeContainerIfEmpty` and `releaseRunLock` of
-- scripts/lib/runtime/run-lock-ownership.mjs.
use ev4_builder_assistant_re.Base.{
  ℕ, String, Bool, true, false, ◌==◌, List, [], ◌∷◌, Option, none, some, if◌then◌else◌,
}
use ev4_builder_assistant_re.Json.{Value, str, get, strict_eq}
use ev4_builder_assistant_re.Lock.Metadata.{Folder, Identity, lock_metadata}
use ev4_builder_assistant_re.Lock.Calls.{
  Side, preparation, claim, final, beside, created, exists_directory, exists_other, creation_failed,
  present, absent, inspection_failed, linked, link_exists, link_failed, Program, ret,
  make_container, inspect_entry, read_metadata, write_new, link_final, rename_final, remove_side,
  inode_of, list_preparations, sync_container, remove_container, ◌>>=◌,
}

abbrev pub busy_code : String
busy_code = "RUN_BUSY_OR_STALE_LOCK"

abbrev pub unavailable_code : String
unavailable_code = "RUN-LOCK-PUBLICATION-UNAVAILABLE"

-- A lock that was acquired, or the code of the result that blocks the operation.
pub data Acquired : Type 0 where
  acquired : Acquired
  not_acquired : String → Acquired

unfoldable pub ensure_inert_container : Folder → Program Bool
ensure_inert_container folder = make_container folder λ made. elim made [
  | created ↦ sync_container folder ret
  | exists_directory ↦ ret true
  | exists_other ↦ ret false
  | creation_failed ↦ ret false
]

-- The `finally` of an attempt that did not link: its preparation file goes, if that can be done.
unfoldable pub discard_preparation : Folder → Side → Acquired → Program Acquired
discard_preparation folder temporary result = inspect_entry folder (beside temporary) λ presence.
    elim presence [
      | present ↦ remove_side folder temporary λ removed. elim removed [
        | true ↦ sync_container folder λ _. ret result
        | false ↦ ret result
      ]
      | absent ↦ ret result
      | inspection_failed ↦ ret result
    ]

-- After the link the lock is held, whatever fails.
unfoldable pub tidy_after_link : Folder → Side → Program Acquired
tidy_after_link folder temporary = sync_container folder λ synced. elim synced [
  | false ↦ ret acquired
  | true ↦ remove_side folder temporary λ removed. elim removed [
    | true ↦ sync_container folder λ _. ret acquired
    | false ↦ ret acquired
  ]
]

unfoldable pub link_prepared : Folder → Side → Program Acquired
link_prepared folder temporary = link_final folder temporary λ answer. elim answer [
  | linked ↦ tidy_after_link folder temporary
  | link_exists ↦ discard_preparation folder temporary (not_acquired busy_code)
  | link_failed ↦ discard_preparation folder temporary (not_acquired unavailable_code)
]

unfoldable pub publish_metadata : Identity → Folder → Program Acquired
publish_metadata me folder =
    let temporary = preparation (me.lock_id folder) in
    write_new folder temporary (lock_metadata me folder) λ written. elim written [
      | false ↦ discard_preparation folder temporary (not_acquired unavailable_code)
      | true ↦ sync_container folder λ synced. elim synced [
        | false ↦ discard_preparation folder temporary (not_acquired unavailable_code)
        | true ↦ link_prepared folder temporary
      ]
    ]

unfoldable pub acquire_in : Identity → Folder → Bool → Program Acquired
acquire_in me folder false = ret (not_acquired unavailable_code)
acquire_in me folder true = inspect_entry folder final λ presence. elim presence [
  | present ↦ ret (not_acquired busy_code)
  | inspection_failed ↦ ret (not_acquired unavailable_code)
  | absent ↦ publish_metadata me folder
]

unfoldable pub acquire_owned_directory : Identity → Folder → Program Acquired
acquire_owned_directory me folder = ensure_inert_container folder >>= acquire_in me folder

pub data Restoration : Type 0 where
  claim_missing replacement_owner_won restoration_unavailable restoration_threw : Restoration
  restored : (claimed_entry_removed : Bool) → Restoration

unfoldable pub restore_claimed_lock_file : Folder → Side → Program Restoration
restore_claimed_lock_file folder claimed = inspect_entry folder (beside claimed) λ presence.
    elim presence [
      | absent ↦ ret claim_missing
      | inspection_failed ↦ ret claim_missing
      | present ↦ link_final folder claimed λ answer. elim answer [
        | link_exists ↦ ret replacement_owner_won
        | link_failed ↦ ret restoration_unavailable
        | linked ↦ sync_container folder λ synced. elim synced [
          | false ↦ ret restoration_threw
          | true ↦ remove_side folder claimed λ removed. elim removed [
            | false ↦ ret (restored false)
            | true ↦ sync_container folder λ _. ret (restored true)
          ]
        ]
      ]
    ]

pub data Claim : Type 0 where
  claimed : Value → Claim
  not_claimed : String → Claim
  claim_threw : Claim

-- `read.passed && read.metadata?.lock_id === expectedLockId`.
unfoldable pub names_owner : Option Value → Value → Bool
names_owner none expected = false
names_owner (some metadata) expected = strict_eq (get "lock_id" metadata) expected

unfoldable pub refuse_claim : Restoration → Program Claim
refuse_claim restoration_threw = ret claim_threw
refuse_claim _ = ret (not_claimed "ownership_changed_during_claim")

-- A claimed file of another owner goes back.
unfoldable pub give_back : Folder → Side → Program Claim
give_back folder claimed_file = restore_claimed_lock_file folder claimed_file >>= refuse_claim

-- The claimed file is read again; a file of another owner is put back.
unfoldable pub verify_claim : Folder → Side → Value → Program Claim
verify_claim folder claimed_file expected = read_metadata folder (beside claimed_file) λ after.
    elim after [
      | some metadata ↦
          if names_owner (some metadata) expected
          then ret (claimed metadata)
          else give_back folder claimed_file
      | none ↦ give_back folder claimed_file
    ]

-- The rename; when the sync after it fails, the file stays claimed though the claim is refused.
unfoldable pub take_away : Folder → Value → Side → Program Claim
take_away folder expected claimed_file = rename_final folder claimed_file λ renamed. elim renamed [
  | false ↦ ret (not_claimed "claim_failed")
  | true ↦ sync_container folder λ synced. elim synced [
    | false ↦ ret (not_claimed "claim_failed")
    | true ↦ verify_claim folder claimed_file expected
  ]
]

unfoldable pub claim_owned_lock_file : Folder → Value → Side → Program Claim
claim_owned_lock_file folder expected claimed_file = read_metadata folder final λ before.
    if names_owner before expected
    then take_away folder expected claimed_file
    else ret (not_claimed "ownership_mismatch")

-- One preparation file: it goes when it is the same file as the authority and names the owner.
unfoldable pub remove_candidate : Folder → ℕ → Value → String → Program Bool
remove_candidate folder authority expected id = inode_of folder (preparation id) λ inode.
    elim inode [
      | none ↦ ret false
      | some n ↦
          if n == authority
          then (read_metadata folder (beside (preparation id)) λ read.
              if names_owner read expected
              then remove_side folder (preparation id) ret
              else ret false)
          else ret false
    ]

unfoldable pub remove_candidates : Folder → ℕ → Value → List String → Program (List String)
remove_candidates folder authority expected [] = ret []
remove_candidates folder authority expected (id ∷ ids) =
    remove_candidate folder authority expected id >>= λ removed.
    remove_candidates folder authority expected ids >>= λ later.
    ret (if removed then id ∷ later else later)

unfoldable pub sync_removed : Folder → List String → Program (Option (List String))
sync_removed folder [] = ret (some [])
sync_removed folder (id ∷ ids) =
    sync_container folder λ synced. ret (if synced then some (id ∷ ids) else none)

-- The removed files by their ids; `none` when the code throws.
unfoldable pub remove_associated_preparation_files :
    Folder → Side → Value → Program (Option (List String))
remove_associated_preparation_files folder authority_file expected =
    inode_of folder authority_file λ authority. elim authority [
      | none ↦ ret (some [])
      | some n ↦ list_preparations folder λ listed. elim listed [
        | none ↦ ret none
        | some ids ↦ remove_candidates folder n expected ids >>= sync_removed folder
      ]
    ]

pub data Released : Type 0 where
  released release_threw : Released
  not_released : String → Released

unfoldable pub remove_authority : Folder → Side → Option (List String) → Program Released
remove_authority folder claimed_file none = ret release_threw
remove_authority folder claimed_file (some removed) = remove_side folder claimed_file λ gone.
    elim gone [
      | false ↦ ret release_threw
      | true ↦ sync_container folder λ synced. elim synced [
        | false ↦ ret release_threw
        | true ↦ remove_container folder λ _. sync_container folder λ _. ret released
      ]
    ]

-- The end of a release, with the file claimed.
unfoldable pub end_release : Folder → Side → Value → Claim → Program Released
end_release folder claimed_file expected (claimed _) =
    remove_associated_preparation_files folder claimed_file expected
    >>= remove_authority folder claimed_file
end_release folder claimed_file expected (not_claimed reason) = ret (not_released reason)
end_release folder claimed_file expected claim_threw = ret release_threw

unfoldable pub release_run_lock : Identity → Folder → Program Released
release_run_lock me folder = inspect_entry folder final λ presence. elim presence [
  | absent ↦ ret (not_released "lock_missing")
  | inspection_failed ↦ ret (not_released "lock_inspection_failed")
  | present ↦
      let claimed_file = claim "release" (me.lock_id folder) me.claim_id in
      claim_owned_lock_file folder (str (me.lock_id folder)) claimed_file
      >>= end_release folder claimed_file (str (me.lock_id folder))
]
