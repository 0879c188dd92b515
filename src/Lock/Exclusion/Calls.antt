-- ===== src/Lock/Exclusion/Calls.antt =====
-- A call of a process that obeys keeps the facts of the process, and touches only lock files that it may take.
use ev4_builder_assistant_re.Base.{
  ℕ, true, List, Option, none, some, ◌≡◌, ◌≢◌, ◌⊎◌, inl, refl, sym, ◌∙◌, ap, All, and-eq-true,
}
use mathlib.Core.Path.{subst}
use ev4_builder_assistant_re.Json.{Value, str, get}
use ev4_builder_assistant_re.Json.Laws.{strict_eq-eq}
use ev4_builder_assistant_re.Lock.Metadata.{Folder, lock, guard, Identity, lock_metadata}
use ev4_builder_assistant_re.Lock.Calls.{Side, preparation, Place, final, beside, Program}
use ev4_builder_assistant_re.Lock.System.{
  File, Entry, Disk, final_of, with_final, with_entries, put_side, file_at, Status, waiting,
  running, gone, System,
}
use ev4_builder_assistant_re.Lock.Obeys.{
  Caps, owns, may_take, is_buried, after_read, own, lose, bury, Obeys,
}
use ev4_builder_assistant_re.Lock.Exclusion.Known.{
  Unique, lock_id_of, str-injective, Written, Begun, Named, Tidy, Holds, Facts, Facts-move, Later,
}
use ev4_builder_assistant_re.Lock.Exclusion.Entries.{find_any-All, drop_side-All}

pub Later-refl : (st : ℕ → Status) → Later st st
Later-refl st = record { begun = λ j h. h; ended = λ j h. h }

pub final_with_entries :
    (f : Folder) (es : List Entry) (d : Disk) → final_of f (with_entries es d) ≡ final_of f d
final_with_entries lock es d = refl
final_with_entries guard es d = refl

pub Status_gone : (s : Status) → s ≢ waiting → s ≢ running → s ≡ gone
Status_gone waiting a b = absurd (a refl)
Status_gone running a b = absurd (b refl)
Status_gone gone a b = refl

buried_id :
    (b : Option Value) (id : Value) → is_buried b id ≡ true → (z : Value) × (b ≡ some z) × (id ≡ z)
buried_id none id h = cc
buried_id (some z) id h = (z, refl, strict_eq-eq id z h)

owns_read :
    (f : Folder) (v : Value) (c : Caps)
    → owns f (after_read final lock (some v) c) ≡ true
    → owns f c ≡ true
owns_read lock v c h = h
owns_read guard v c h = h

module _ (who : ℕ → Identity) (unique : Unique who) (st : ℕ → Status) (d : Disk)
    (tidy : Tidy who unique st d) (i : ℕ) where
  file_at-Begun :
      (f : Folder) (p : Place) (x : File) → file_at f p d ≡ some x → Begun who unique st x
  unfolding file_at
  file_at-Begun f final x at = tidy.finals f x at
  file_at-Begun f (beside s) x at =
      let (e, begun, same) =
        find_any-All (λ e. Begun who unique st e.file) f s x d.entries tidy.begun at in
      λ v has. begun v (ap (λ (y : File). y.metadata) same ∙ has)

  pub after_read-none : (p : Place) (f : Folder) (c : Caps) → after_read p f none c ≡ c
  after_read-none final lock c = refl
  after_read-none final guard c = refl
  after_read-none (beside s) f c = refl

  lock_read-Facts :
      (x : File) (v : Value) (c : Caps)
      → d.lock_file ≡ some x
      → x.metadata ≡ some v
      → Facts who unique st d i c
      → Facts who unique st d i (after_read final lock (some v) c)
  lock_read-Facts x v c at has facts = record {
    owned = λ f h. facts.owned f (owns_read f v c h);
    seen = λ w same. tidy.finals lock x at w (has ∙ same);
    buried = facts.buried;
    doomed = λ h.
        let (guarded, known) = and-eq-true _ _ h in
        let (z, has_z, same) = buried_id c.buried (get "lock_id" v) known in
        (guarded, (z, has_z, (x, v, at, has, same)));
  }

  pub read-Facts :
      (p : Place) (f : Folder) (x : File) (y : Option Value) (c : Caps)
      → file_at f p d ≡ some x
      → x.metadata ≡ y
      → Facts who unique st d i c
      → Facts who unique st d i (after_read p f y c)
  unfolding file_at
  read-Facts final lock x (some v) c at has facts = lock_read-Facts x v c at has facts
  read-Facts final lock x none c at has facts = facts
  read-Facts final guard x y c at has facts = facts
  read-Facts (beside s) f x y c at has facts = facts

-- A lock file that the process has published, and one that it has taken away.
module _ (who : ℕ → Identity) (unique : Unique who) (st : ℕ → Status) (d : Disk) (i : ℕ) (c : Caps)
    (facts : Facts who unique st d i c) where
  pub own-Facts :
      (f : Folder)
      → Holds who unique d f (str ((who i).lock_id f))
      → Facts who unique st d i (own f c)
  own-Facts lock holds = record {
    owned = λ g h.
        elim g
            as (λ g. owns g (own lock c) ≡ true → Holds who unique d g (str ((who i).lock_id g))) [
              | lock ↦ λ h. holds
              | guard ↦ λ h. facts.owned guard h
            ]
          h;
    seen = facts.seen;
    buried = facts.buried;
    doomed = facts.doomed;
  }
  own-Facts guard holds = record {
    owned = λ g h.
        elim g
            as (λ g. owns g (own guard c) ≡ true → Holds who unique d g (str ((who i).lock_id g))) [
              | lock ↦ λ h. facts.owned lock h
              | guard ↦ λ h. holds
            ]
          h;
    seen = facts.seen;
    buried = facts.buried;
    doomed = λ h. (refl, (facts.doomed h).1);
  }

  pub lose-Facts :
      (f : Folder) (es : List Entry)
      → Facts who unique st (with_final f none (with_entries es d)) i (lose f c)
  lose-Facts lock es = record {
    owned = λ g h.
        elim g
            as (λ g.
              owns g (lose lock c) ≡ true
              → Holds who unique (with_final lock none (with_entries es d)) g
                  (str ((who i).lock_id g))) [ lock ↦ λ h. cc | guard ↦ λ h. facts.owned guard h ]
          h;
    seen = facts.seen;
    buried = facts.buried;
    doomed = λ h. cc;
  }
  lose-Facts guard es = record {
    owned = λ g h.
        elim g
            as (λ g.
              owns g (lose guard c) ≡ true
              → Holds who unique (with_final guard none (with_entries es d)) g
                  (str ((who i).lock_id g))) [ lock ↦ λ h. facts.owned lock h | guard ↦ λ h. cc ]
          h;
    seen = facts.seen;
    buried = facts.buried;
    doomed = λ h. cc;
  }

  pub bury-Facts :
      (v : Value)
      → ((j : ℕ) (f : Folder) → get "lock_id" v ≡ str ((who j).lock_id f) → st j ≡ gone)
      → Facts who unique st d i (bury v c)
  bury-Facts v ended = record {
    owned = λ g h.
        elim g as (λ g. owns g (bury v c) ≡ true → Holds who unique d g (str ((who i).lock_id g))) [
          | lock ↦ λ h. facts.owned lock h
          | guard ↦ λ h. facts.owned guard h
        ]
          h;
    seen = facts.seen;
    buried = λ z same j f named. ended j f (cc);
    doomed = λ h. cc;
  }

abbrev pub Ends {ℓ} : {A : Type ℓ} → Caps → A → Type 0
Ends c a = Unit

-- What a call leaves: the process obeys with what it owns and knows now, and another lock file is as it was, unless
-- it was missing.
pub record After {A : Type 0} (who : ℕ → Identity) (unique : Unique who) (st : ℕ → Status)
    (d : Disk) (i : ℕ) (c : Caps) (d' : Disk) (p' : Program A) : Type 0 where
  pub caps : Caps
  pub obeys : Obeys (who i) Ends caps p'
  pub facts : Facts who unique st d' i caps
  pub tidy : Tidy who unique st d'
  pub untouched :
      (f : Folder)
      → (final_of f d' ≡ final_of f d) ⊎ ((final_of f d ≡ none) ⊎ (may_take f c ≡ true))

module _ {A : Type 0} (who : ℕ → Identity) (unique : Unique who) (s : System A) (i : ℕ)
    (begun : s.status i ≢ waiting) (tidy : Tidy who unique s.status s.disk) (c : Caps)
    (facts : Facts who unique s.status s.disk i c) where
  abbrev d : Disk
  d = s.disk

  -- A call that changes no file.
  pub read_only :
      (c' : Caps) (p' : Program A)
      → Obeys (who i) Ends c' p'
      → Facts who unique s.status d i c'
      → After who unique s.status d i c d p'
  read_only c' p' o f = record {
    caps = c';
    obeys = o;
    facts = f;
    tidy = tidy;
    untouched = λ g. inl refl;
  }

  pub with_entries-Tidy :
      (es : List Entry)
      → All (Named who unique) es
      → All (λ e. Begun who unique s.status e.file) es
      → Tidy who unique s.status (with_entries es d)
  with_entries-Tidy es named old = record {
    named = named;
    begun = old;
    finals = λ f x at. tidy.finals f x (sym (final_with_entries f es d) ∙ at);
  }

  pub with_entries-After :
      (es : List Entry) (p' : Program A)
      → Obeys (who i) Ends c p'
      → All (Named who unique) es
      → All (λ e. Begun who unique s.status e.file) es
      → After who unique s.status d i c (with_entries es d) p'
  with_entries-After es p' o named old = record {
    caps = c;
    obeys = o;
    facts =
        Facts-move who unique s.status s.status d (with_entries es d) i c (Later-refl s.status)
          (λ f h. final_with_entries f es d) facts;
    tidy = with_entries-Tidy es named old;
    untouched = λ f. inl (final_with_entries f es d);
  }

  -- The metadata that the process writes is its own.
  written_lem : (f : Folder) → Written who unique s.status (lock_metadata (who i) f)
  written_lem f j g named =
      let same = unique i j f g (str-injective _ _ (sym (lock_id_of (who i) f) ∙ named)) in
      ((λ w. begun (ap s.status same ∙ w)), (f, ap (λ (k : ℕ). lock_metadata (who k) f) same))

  named_lem :
      (f : Folder) (inode : ℕ)
      → Named who unique (record {
        folder = f;
        side = preparation ((who i).lock_id f);
        file = record { inode = inode; metadata = some (lock_metadata (who i) f) };
      })
  named_lem f inode j side =
      let same = unique i j f f (cc side) in ap (λ (k : ℕ). some (lock_metadata (who k) f)) same

  pub write-After :
      (f : Folder) (side : Side) (v : Value) (inode : ℕ) (p' : Program A)
      → side ≡ preparation ((who i).lock_id f)
      → v ≡ lock_metadata (who i) f
      → Obeys (who i) Ends c p'
      → After who unique s.status d i c
          (with_entries (put_side f side (record { inode = inode; metadata = some v }) d.entries) d)
          p'
  write-After f side v inode p' is_mine own_metadata o =
      rw (is_mine, own_metadata)
        (with_entries-After _ p' o
          (
            named_lem f inode,
            drop_side-All (Named who unique) f (preparation ((who i).lock_id f)) d.entries
                tidy.named,
          )
          (
            (λ w has. subst (Written who unique s.status) (cc has) (written_lem f)),
            drop_side-All (λ e. Begun who unique s.status e.file) f
                (preparation ((who i).lock_id f)) d.entries tidy.begun,
          ))
