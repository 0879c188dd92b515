-- ===== src/Lock/Obeys.antt =====
-- What a process may do to the lock files, by what it owns and knows: a program obeys when it takes a lock file away
-- only if that is its own or, under the guard, that of an owner known to be gone, and works only with the lock.
pub mod Programs
pub mod Recovery
use ev4_builder_assistant_re.Base.{
  ℕ, String, Bool, true, false, not, ◌&&◌, ◌||◌, List, Option, none, some, ◌≡◌, ◌⊎◌, inl, inr,
  if◌then◌else◌, str_eq,
}
use ev4_builder_assistant_re.Json.{Value, get, strict_eq}
use ev4_builder_assistant_re.Lock.Metadata.{
  Folder, lock, guard, Identity, lock_metadata, Liveness, live, dead, unknown, malformed,
}
use ev4_builder_assistant_re.Lock.Calls.{
  Side, preparation, claim, Place, final, beside, Made, Presence, Linked, linked, link_exists,
  link_failed, Work, Program, ret, make_container, inspect_entry, read_metadata, write_new,
  link_final, rename_final, remove_side, inode_of, list_preparations, sync_container,
  remove_container, probe_owner, work, ◌>>=◌,
}

-- The lock files that the process owns; the metadata that it has read; an id whose owner is gone; and whether the
-- lock file is still that of the id.
pub record Caps : Type 0 where
  pub locked : Bool
  pub guarded : Bool
  pub seen : Option Value
  pub buried : Option Value
  pub doomed : Bool

abbrev pub owns : Folder → Caps → Bool
owns lock c = c.locked
owns guard c = c.guarded

abbrev pub may_take : Folder → Caps → Bool
may_take lock c = c.locked || c.doomed
may_take guard c = c.guarded

abbrev pub is_buried : Option Value → Value → Bool
is_buried none id = false
is_buried (some z) id = strict_eq id z

abbrev pub after_read : Place → Folder → Option Value → Caps → Caps
after_read final lock (some v) c = record c {
  seen = some v;
  doomed = c.guarded && is_buried c.buried (get "lock_id" v);
}
after_read _ _ _ c = c

-- What the process owns of the other folder.
abbrev pub other : Folder → Caps → Bool
other lock c = c.guarded
other guard c = c.locked

abbrev pub own : Folder → Caps → Caps
own lock c = record c { locked = true }
own guard c = record c { guarded = true }

abbrev pub after_link : Identity → Folder → Side → Caps → Caps
after_link me f (preparation id) c = if str_eq id (me.lock_id f) then own f c else c
after_link me f (claim p x u) c = c

abbrev pub lose : Folder → Caps → Caps
lose lock c = record c { locked = false; doomed = false }
lose guard c = record c { guarded = false; doomed = false }

abbrev pub bury : Value → Caps → Caps
bury v c = record c { buried = some (get "lock_id" v); doomed = false }

abbrev pub IsClaim : Side → Type 0
IsClaim (claim p x u) = Unit
IsClaim (preparation id) = ⊥

module _ (me : Identity) {A : Type 0} (Q : Caps → A → Type 0) where
  abbrev pub Obeys : Caps → Program A → Type 0
  Obeys c (ret a) = Q c a
  Obeys c (make_container f k) = (x : Made) → Obeys c (k x)
  Obeys c (inspect_entry f p k) = (x : Presence) → Obeys c (k x)
  Obeys c (read_metadata f p k) = (x : Option Value) → Obeys (after_read p f x c) (k x)
  Obeys c (write_new f s v k) =
      (s ≡ preparation (me.lock_id f)) × (v ≡ lock_metadata me f) × ((x : Bool) → Obeys c (k x))
  Obeys c (link_final f s k) =
      Obeys c (k link_exists) × Obeys c (k link_failed) × Obeys (after_link me f s c) (k linked)
  Obeys c (rename_final f s k) =
      (may_take f c ≡ true) × IsClaim s × Obeys c (k false) × Obeys (lose f c) (k true)
  Obeys c (remove_side f s k) = (x : Bool) → Obeys c (k x)
  Obeys c (inode_of f s k) = (x : Option ℕ) → Obeys c (k x)
  Obeys c (list_preparations f k) = (x : Option (List String)) → Obeys c (k x)
  Obeys c (sync_container f k) = (x : Bool) → Obeys c (k x)
  Obeys c (remove_container f k) = (x : Bool) → Obeys c (k x)
  Obeys c (probe_owner v k) =
      Obeys c (k live)
      × Obeys c (k unknown)
      × Obeys c (k malformed)
      × (Obeys c (k dead) ⊎ ((c.seen ≡ some v) × Obeys (bury v c) (k dead)))
  Obeys c (work k) = (c.locked ≡ true) × ((x : Work) → Obeys c (k x))

-- A program followed by others obeys when it leaves what these ask for.
module _ (me : Identity) {A B : Type 0} (P : Caps → A → Type 0) (Q : Caps → B → Type 0)
    (f : A → Program B) (later : (c : Caps) (a : A) → P c a → Obeys me Q c (f a)) where
  pub Obeys-bind : (c : Caps) (p : Program A) → Obeys me P c p → Obeys me Q c (p >>= f)
  Obeys-bind c (ret a) h = later c a h
  Obeys-bind c (make_container d k) h = λ x. Obeys-bind c (k x) (h x)
  Obeys-bind c (inspect_entry d p k) h = λ x. Obeys-bind c (k x) (h x)
  Obeys-bind c (read_metadata d p k) h = λ x. Obeys-bind (after_read p d x c) (k x) (h x)
  Obeys-bind c (write_new d s v k) h = (h.0, h.1, λ x. Obeys-bind c (k x) (h.2 x))
  Obeys-bind c (link_final d s k) h = (
    Obeys-bind c (k link_exists) h.0,
    Obeys-bind c (k link_failed) h.1,
    Obeys-bind (after_link me d s c) (k linked) h.2,
  )
  Obeys-bind c (rename_final d s k) h =
      (h.0, h.1, Obeys-bind c (k false) h.2, Obeys-bind (lose d c) (k true) h.3)
  Obeys-bind c (remove_side d s k) h = λ x. Obeys-bind c (k x) (h x)
  Obeys-bind c (inode_of d s k) h = λ x. Obeys-bind c (k x) (h x)
  Obeys-bind c (list_preparations d k) h = λ x. Obeys-bind c (k x) (h x)
  Obeys-bind c (sync_container d k) h = λ x. Obeys-bind c (k x) (h x)
  Obeys-bind c (remove_container d k) h = λ x. Obeys-bind c (k x) (h x)
  Obeys-bind c (probe_owner v k) h = (
    Obeys-bind c (k live) h.0,
    Obeys-bind c (k unknown) h.1,
    Obeys-bind c (k malformed) h.2,
    elim (h.3) [
      | inl same ↦ inl (Obeys-bind c (k dead) same)
      | inr (seen, known) ↦ inr (seen, Obeys-bind (bury v c) (k dead) known)
    ],
  )
  Obeys-bind c (work k) h = (h.0, λ x. Obeys-bind c (k x) (h.1 x))

-- What a program leaves may be read as less.
module _ (me : Identity) {A : Type 0} (P Q : Caps → A → Type 0)
    (less : (c : Caps) (a : A) → P c a → Q c a) where
  pub Obeys-weaken : (c : Caps) (p : Program A) → Obeys me P c p → Obeys me Q c p
  Obeys-weaken c (ret a) h = less c a h
  Obeys-weaken c (make_container d k) h = λ x. Obeys-weaken c (k x) (h x)
  Obeys-weaken c (inspect_entry d p k) h = λ x. Obeys-weaken c (k x) (h x)
  Obeys-weaken c (read_metadata d p k) h = λ x. Obeys-weaken (after_read p d x c) (k x) (h x)
  Obeys-weaken c (write_new d s v k) h = (h.0, h.1, λ x. Obeys-weaken c (k x) (h.2 x))
  Obeys-weaken c (link_final d s k) h = (
    Obeys-weaken c (k link_exists) h.0,
    Obeys-weaken c (k link_failed) h.1,
    Obeys-weaken (after_link me d s c) (k linked) h.2,
  )
  Obeys-weaken c (rename_final d s k) h =
      (h.0, h.1, Obeys-weaken c (k false) h.2, Obeys-weaken (lose d c) (k true) h.3)
  Obeys-weaken c (remove_side d s k) h = λ x. Obeys-weaken c (k x) (h x)
  Obeys-weaken c (inode_of d s k) h = λ x. Obeys-weaken c (k x) (h x)
  Obeys-weaken c (list_preparations d k) h = λ x. Obeys-weaken c (k x) (h x)
  Obeys-weaken c (sync_container d k) h = λ x. Obeys-weaken c (k x) (h x)
  Obeys-weaken c (remove_container d k) h = λ x. Obeys-weaken c (k x) (h x)
  Obeys-weaken c (probe_owner v k) h = (
    Obeys-weaken c (k live) h.0,
    Obeys-weaken c (k unknown) h.1,
    Obeys-weaken c (k malformed) h.2,
    elim (h.3) [
      | inl same ↦ inl (Obeys-weaken c (k dead) same)
      | inr (seen, known) ↦ inr (seen, Obeys-weaken (bury v c) (k dead) known)
    ],
  )
  Obeys-weaken c (work k) h = (h.0, λ x. Obeys-weaken c (k x) (h.1 x))
