-- ===== src/Lock/System.antt =====
-- Processes that run the programs of the lock, interleaved call by call, over one file system: what each call may
-- answer and change.
use ev4_builder_assistant_re.Base.{
  ℕ, String, Bool, true, false, ◌&&◌, ◌==◌, List, [], ◌∷◌, Option, none, some, ◌≡◌, ◌≢◌,
  if◌then◌else◌, str_eq,
}
use ev4_builder_assistant_re.Json.{Value, num, get}
use ev4_builder_assistant_re.Lock.Metadata.{
  Folder, lock, guard, Identity, no_such_process, Probe, inspect_recorded_owner_liveness,
}
use ev4_builder_assistant_re.Lock.Calls.{
  Side, preparation, claim, Place, final, beside, Made, Presence, present, absent,
  inspection_failed, Linked, linked, link_exists, link_failed, Work, Program, make_container,
  inspect_entry, read_metadata, write_new, link_final, rename_final, remove_side, inode_of,
  list_preparations, sync_container, remove_container, probe_owner, work,
}

-- A file by its inode; metadata that is not JSON is `none`.
pub record File : Type 0 where
  pub inode : ℕ
  pub metadata : Option Value

pub record Entry : Type 0 where
  pub folder : Folder
  pub side : Side
  pub file : File

pub record Disk : Type 0 where
  pub lock_file : Option File
  pub guard_file : Option File
  pub entries : List Entry

abbrev pub final_of : Folder → Disk → Option File
final_of lock d = d.lock_file
final_of guard d = d.guard_file

abbrev pub with_final : Folder → Option File → Disk → Disk
with_final lock f d = record { lock_file = f; guard_file = d.guard_file; entries = d.entries }
with_final guard f d = record { lock_file = d.lock_file; guard_file = f; entries = d.entries }

abbrev pub with_entries : List Entry → Disk → Disk
with_entries es d = record { lock_file = d.lock_file; guard_file = d.guard_file; entries = es }

unfoldable pub same_folder : Folder → Folder → Bool
same_folder lock lock = true
same_folder guard guard = true
same_folder _ _ = false

unfoldable pub same_side : Side → Side → Bool
same_side (preparation x) (preparation y) = str_eq x y
same_side (claim p x u) (claim q y v) = str_eq p q && (str_eq x y && str_eq u v)
same_side _ _ = false

unfoldable pub find_side : Folder → Side → List Entry → Option File
find_side f s [] = none
find_side f s (e ∷ es) =
    if same_folder e.folder f && same_side e.side s then some e.file else find_side f s es

unfoldable pub drop_side : Folder → Side → List Entry → List Entry
drop_side f s [] = []
drop_side f s (e ∷ es) =
    let rest = drop_side f s es in
    if same_folder e.folder f && same_side e.side s then rest else e ∷ rest

abbrev pub put_side : Folder → Side → File → List Entry → List Entry
put_side f s file es = record { folder = f; side = s; file = file } ∷ drop_side f s es

unfoldable pub file_at : Folder → Place → Disk → Option File
file_at f final d = final_of f d
file_at f (beside s) d = find_side f s d.entries

unfoldable pub preparations : Folder → List Entry → List String
preparations f [] = []
preparations f (e ∷ es) =
    let rest = preparations f es in
    elim (e.side) [
      | preparation id ↦ if same_folder e.folder f then id ∷ rest else rest
      | claim p x u ↦ rest
    ]

-- One call: what it may answer, and the disk after it. `Honest` says what the system may tell of an owner.
pub data Step {A : Type 0} (Honest : Value → Probe → Type 0) (d : Disk)
    : Program A → Disk → Program A → Type 0 where
  made :
      {f : Folder} {k : Made → Program A} (answer : Made)
      → Step Honest d (make_container f k) d (k answer)
  is_present :
      {f : Folder} {p : Place} {k : Presence → Program A} (x : File)
      → file_at f p d ≡ some x
      → Step Honest d (inspect_entry f p k) d (k present)
  is_absent :
      {f : Folder} {p : Place} {k : Presence → Program A}
      → file_at f p d ≡ none
      → Step Honest d (inspect_entry f p k) d (k absent)
  no_inspection :
      {f : Folder} {p : Place} {k : Presence → Program A}
      → Step Honest d (inspect_entry f p k) d (k inspection_failed)
  has_read :
      {f : Folder} {p : Place} {k : Option Value → Program A} (x : File)
      → file_at f p d ≡ some x
      → Step Honest d (read_metadata f p k) d (k x.metadata)
  no_read :
      {f : Folder} {p : Place} {k : Option Value → Program A}
      → Step Honest d (read_metadata f p k) d (k none)
  has_written :
      {f : Folder} {s : Side} {v : Value} {k : Bool → Program A} (inode : ℕ)
      → find_side f s d.entries ≡ none
      → Step Honest d
          (write_new f s v k)
          (with_entries (put_side f s (record { inode = inode; metadata = some v }) d.entries) d)
          (k true)
  no_write :
      {f : Folder} {s : Side} {v : Value} {k : Bool → Program A}
      → Step Honest d (write_new f s v k) d (k false)
  has_linked :
      {f : Folder} {s : Side} {k : Linked → Program A} (x : File)
      → find_side f s d.entries ≡ some x
      → final_of f d ≡ none
      → Step Honest d (link_final f s k) (with_final f (some x) d) (k linked)
  link_blocked :
      {f : Folder} {s : Side} {k : Linked → Program A} (x : File)
      → final_of f d ≡ some x
      → Step Honest d (link_final f s k) d (k link_exists)
  no_link :
      {f : Folder} {s : Side} {k : Linked → Program A}
      → Step Honest d (link_final f s k) d (k link_failed)
  has_renamed :
      {f : Folder} {s : Side} {k : Bool → Program A} (x : File)
      → final_of f d ≡ some x
      → Step Honest d
          (rename_final f s k)
          (with_final f none (with_entries (put_side f s x d.entries) d))
          (k true)
  no_rename :
      {f : Folder} {s : Side} {k : Bool → Program A}
      → Step Honest d (rename_final f s k) d (k false)
  has_removed :
      {f : Folder} {s : Side} {k : Bool → Program A}
      → Step Honest d (remove_side f s k) (with_entries (drop_side f s d.entries) d) (k true)
  no_removal :
      {f : Folder} {s : Side} {k : Bool → Program A} → Step Honest d (remove_side f s k) d (k false)
  has_inode :
      {f : Folder} {s : Side} {k : Option ℕ → Program A} (x : File)
      → find_side f s d.entries ≡ some x
      → Step Honest d (inode_of f s k) d (k (some x.inode))
  no_inode :
      {f : Folder} {s : Side} {k : Option ℕ → Program A} → Step Honest d (inode_of f s k) d (k none)
  has_listed :
      {f : Folder} {k : Option (List String) → Program A}
      → Step Honest d (list_preparations f k) d (k (some (preparations f d.entries)))
  no_list :
      {f : Folder} {k : Option (List String) → Program A}
      → Step Honest d (list_preparations f k) d (k none)
  has_synced :
      {f : Folder} {k : Bool → Program A} (answer : Bool)
      → Step Honest d (sync_container f k) d (k answer)
  container_gone :
      {f : Folder} {k : Bool → Program A} (answer : Bool)
      → Step Honest d (remove_container f k) d (k answer)
  has_probed :
      {v : Value} {k : _ → Program A} (probe : Probe)
      → Honest v probe
      → Step Honest d (probe_owner v k) d (k (inspect_recorded_owner_liveness v probe))
  has_worked : {k : Work → Program A} (result : Work) → Step Honest d (work k) d (k result)

-- A process before its start, between, and after its end by a crash or an exit.
pub data Status : Type 0 where
  waiting running gone : Status

pub record System (A : Type 0) : Type 0 where
  pub disk : Disk
  pub program : ℕ → Program A
  pub status : ℕ → Status

abbrev pub update {ℓ} : {B : Type ℓ} → (ℕ → B) → ℕ → B → ℕ → B
update f i b j = if i == j then b else f j

-- What the system says of a process id: a signal finds no process only when none with that id is running, and the
-- start token is that of the running process.
pub record Honest {A : Type 0} (who : ℕ → Identity) (s : System A) (v : Value) (probe : Probe)
    : Type 0 where
  pub first :
      probe.first ≡ no_such_process
      → (i : ℕ) → get "process_id" v ≡ num (who i).process_id
      → s.status i ≢ running
  pub second :
      probe.second ≡ no_such_process
      → (i : ℕ) → get "process_id" v ≡ num (who i).process_id
      → s.status i ≢ running
  pub token :
      (observed own : String)
      → probe.token ≡ some observed
      → (i : ℕ) → get "process_id" v ≡ num (who i).process_id
      → (who i).start_token ≡ some own
      → own ≢ observed
      → s.status i ≢ running

pub data Run {A : Type 0} (who : ℕ → Identity) (s : System A) : System A → Type 0 where
  begin :
      (i : ℕ) → s.status i ≡ waiting → Run who s (record s { status = update s.status i running })
  call :
      (i : ℕ) {d : Disk} {p : Program A}
      → s.status i ≡ running
      → Step (Honest who s) s.disk (s.program i) d p
      → Run who s (record { disk = d; program = update s.program i p; status = s.status })
  stop : (i : ℕ) → s.status i ≡ running → Run who s (record s { status = update s.status i gone })

pub data Reach {A : Type 0} (who : ℕ → Identity) (s : System A) : System A → Type 0 where
  here : Reach who s s
  next : {t u : System A} → Reach who s t → Run who t u → Reach who s u
