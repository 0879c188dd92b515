-- ===== src/Lock/Runs.antt =====
-- Runs of one program alone: the way to the work of a lock that nobody holds, and a claim that is refused after the
-- lock file has been taken away.
use ev4_builder_assistant_re.Base.{
  ℕ, String, true, ◌==◌, arith, List, none, some, ◌≡◌, refl, ◌∙◌, str_eq_refl,
}
use ev4_builder_assistant_re.Json.{Value}
use ev4_builder_assistant_re.Lock.Metadata.{Folder, lock, guard, Identity, lock_metadata, Probe}
use ev4_builder_assistant_re.Lock.Calls.{preparation, exists_directory, Program, ret, ◌>>=◌}
use ev4_builder_assistant_re.Lock.Ownership.{
  acquired, ensure_inert_container, publish_metadata, link_prepared, tidy_after_link, acquire_in,
  acquire_owned_directory,
}
use ev4_builder_assistant_re.Lock.Recovery.{mutate, locked_mutation}
use ev4_builder_assistant_re.Lock.Exclusion.Calls.{final_with_entries}
use ev4_builder_assistant_re.Lock.Exclusion.{writer, Result, of_writer, attempt, AtWork}
use ev4_builder_assistant_re.Lock.System.{
  File, Entry, Disk, final_of, with_final, with_entries, find_side, drop_side, put_side, same_side,
  same_folder, file_at, Step, made, is_present, is_absent, no_inspection, has_read, no_read,
  has_written, no_write, has_linked, link_blocked, no_link, has_renamed, no_rename, has_removed,
  no_removal, has_inode, no_inode, has_listed, no_list, has_synced, container_gone, has_probed,
  has_worked, System, waiting, running, Honest, begin, call, Reach, here, next, update,
}

-- Calls of one program, with no other process between them.
pub data Calls {A : Type 0} (H : Value → Probe → Type 0)
    : Disk → Program A → Disk → Program A → Type 0 where
  done : {d : Disk} {p : Program A} → Calls H d p d p
  then_calls :
      {d d' d'' : Disk} {p p' p'' : Program A}
      → Step H d p d' p'
      → Calls H d' p' d'' p''
      → Calls H d p d'' p''

find-put :
    (f : Folder) (id : String) (x : File) (es : List Entry)
    → find_side f (preparation id) (put_side f (preparation id) x es) ≡ some x
unfolding find_side same_side same_folder
find-put lock id x es = rw (str_eq_refl id)
find-put guard id x es = rw (str_eq_refl id)

-- The disk after an acquisition that nothing disturbs, with an inode of the file system's choice.
abbrev own_file : Identity → Folder → ℕ → File
own_file me f inode = record { inode = inode; metadata = some (lock_metadata me f) }

abbrev prepared : Identity → Folder → ℕ → Disk → Disk
prepared me f inode d =
    with_entries (put_side f (preparation (me.lock_id f)) (own_file me f inode) d.entries) d

abbrev pub held : Identity → Folder → ℕ → Disk → Disk
held me f inode d =
    let linked_disk = with_final f (some (own_file me f inode)) (prepared me f inode d) in
    with_entries (drop_side f (preparation (me.lock_id f)) linked_disk.entries) linked_disk

-- A lock that nobody holds is acquired.
pub acquire_uncontended :
    (H : Value → Probe → Type 0) (me : Identity) (f : Folder) (inode : ℕ) (d : Disk)
    → final_of f d ≡ none
    → find_side f (preparation (me.lock_id f)) d.entries ≡ none
    → Calls H d (acquire_owned_directory me f) (held me f inode d) (ret acquired)
unfolding acquire_owned_directory ensure_inert_container acquire_in publish_metadata link_prepared
    tidy_after_link file_at
acquire_uncontended H me f inode d free unused = then_calls (made exists_directory) (
    then_calls (is_absent free) (
      then_calls (has_written inode unused) (
        then_calls (has_synced true) (
          then_calls
            (has_linked (own_file me f inode)
              (find-put f (me.lock_id f) (own_file me f inode) d.entries)
              (final_with_entries f
                  (put_side f (preparation (me.lock_id f)) (own_file me f inode) d.entries) d
                ∙ free))
            (then_calls (has_synced true)
              (then_calls has_removed (then_calls (has_synced true) done)))))))

-- A call of a program followed by another, among processes: no call of these runs asks for an owner.
abbrev Never : Value → Probe → Type 0
Never v probe = ⊥

module _ {A : Type 0} (H : Value → Probe → Type 0) where
  Step_weaken : {d d' : Disk} {p p' : Program A} → Step Never d p d' p' → Step H d p d' p'
  Step_weaken (made x) = made x
  Step_weaken (is_present x at) = is_present x at
  Step_weaken (is_absent at) = is_absent at
  Step_weaken no_inspection = no_inspection
  Step_weaken (has_read x at) = has_read x at
  Step_weaken no_read = no_read
  Step_weaken (has_written inode at) = has_written inode at
  Step_weaken no_write = no_write
  Step_weaken (has_linked x at free) = has_linked x at free
  Step_weaken (link_blocked x at) = link_blocked x at
  Step_weaken no_link = no_link
  Step_weaken (has_renamed x at) = has_renamed x at
  Step_weaken no_rename = no_rename
  Step_weaken has_removed = has_removed
  Step_weaken no_removal = no_removal
  Step_weaken (has_inode x at) = has_inode x at
  Step_weaken no_inode = no_inode
  Step_weaken has_listed = has_listed
  Step_weaken no_list = no_list
  Step_weaken (has_synced x) = has_synced x
  Step_weaken (container_gone x) = container_gone x
  Step_weaken (has_probed probe never) = absurd never
  Step_weaken (has_worked w) = has_worked w

module _ {A B : Type 0} (H : Value → Probe → Type 0) (g : A → Program B) where
  Step-bind :
      {d d' : Disk} {p p' : Program A} → Step Never d p d' p' → Step H d (p >>= g) d' (p' >>= g)
  Step-bind (made x) = made x
  Step-bind (is_present x at) = is_present x at
  Step-bind (is_absent at) = is_absent at
  Step-bind no_inspection = no_inspection
  Step-bind (has_read x at) = has_read x at
  Step-bind no_read = no_read
  Step-bind (has_written inode at) = has_written inode at
  Step-bind no_write = no_write
  Step-bind (has_linked x at free) = has_linked x at free
  Step-bind (link_blocked x at) = link_blocked x at
  Step-bind no_link = no_link
  Step-bind (has_renamed x at) = has_renamed x at
  Step-bind no_rename = no_rename
  Step-bind has_removed = has_removed
  Step-bind no_removal = no_removal
  Step-bind (has_inode x at) = has_inode x at
  Step-bind no_inode = no_inode
  Step-bind has_listed = has_listed
  Step-bind no_list = no_list
  Step-bind (has_synced x) = has_synced x
  Step-bind (container_gone x) = container_gone x
  Step-bind (has_probed probe never) = absurd never
  Step-bind (has_worked w) = has_worked w

module _ {A B : Type 0} (g : A → Program B) where
  Calls-bind :
      {d d' : Disk} {p p' : Program A}
      → Calls Never d p d' p'
      → Calls Never d (p >>= g) d' (p' >>= g)
  Calls-bind done = done
  Calls-bind (then_calls step rest) = then_calls (Step-bind Never g step) (Calls-bind rest)

-- A system that another reaches by the calls of one process.
record Moved {A : Type 0} (who : ℕ → Identity) (s : System A) (i : ℕ) (d : Disk) (p : Program A)
    : Type 0 where
  state : System A
  reach : Reach who s state
  disk : state.disk ≡ d
  program : state.program i ≡ p
  runs : state.status i ≡ running

step_at :
    {A : Type 0} (H : Value → Probe → Type 0) (x d e : Disk) (y p q : Program A)
    → x ≡ d
    → y ≡ p
    → Step H d p e q
    → Step H x y e q
step_at H x d e y p q at has step = rw (at, has) step

same_index : (i : ℕ) → (i == i) ≡ true
same_index i = ground arith

module _ {A : Type 0} (who : ℕ → Identity) (start : System A) (i : ℕ) where
  run-Calls :
      {d d' : Disk} {p p' : Program A} (s : System A)
      → Calls Never d p d' p'
      → Reach who start s
      → s.disk ≡ d
      → s.program i ≡ p
      → s.status i ≡ running
      → Moved who start i d' p'
  run-Calls s done reach at has is = record {
    state = s;
    reach = reach;
    disk = at;
    program = has;
    runs = is;
  }
  run-Calls s (then_calls {d' = e} {p' = q} step rest) reach at has is =
      let made_step = Step_weaken (Honest who s) step in
      run-Calls (record { disk = e; program = update s.program i q; status = s.status }) rest
        (next reach
          (call i is (step_at (Honest who s) s.disk _ e (s.program i) _ q at has made_step)))
        refl (rw (same_index i)) is

-- A waiting writer can reach its work by its own calls when nobody holds the lock and its preparation
-- file is unused; the lock file then holds its metadata, and its preparation file is gone.
pub writer_reaches_work :
    (who : ℕ → Identity) (s : System Result) (i : ℕ) (inode : ℕ)
    → s.status i ≡ waiting
    → s.program i ≡ attempt (who i) writer
    → s.disk.lock_file ≡ none
    → find_side lock (preparation ((who i).lock_id lock)) s.disk.entries ≡ none
    → (t : System Result) × Reach who s t
      × (t.status i ≡ running)
      × AtWork (t.program i)
      × (t.disk ≡ held (who i) lock inode s.disk)
unfolding attempt locked_mutation mutate
writer_reaches_work who s i inode waits has free unused =
    let calls =
      Calls-bind (λ r. ret (of_writer r))
        (Calls-bind (mutate (who i))
          (acquire_uncontended Never (who i) lock inode s.disk free unused)) in
    let moved =
      run-Calls who s i (record s { status = update s.status i running }) calls
        (next here (begin i waits)) refl has (rw (same_index i)) in
    (moved.state, moved.reach, moved.runs, (_, moved.program), moved.disk)
