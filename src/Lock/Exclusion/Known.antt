-- ===== src/Lock/Exclusion/Known.antt =====
-- What is true of the lock files when a process owns or knows something.
use ev4_builder_assistant_re.Base.{
  ℕ, String, true, some, ◌≡◌, ◌≢◌, inl, inr, refl, ◌∙◌, arith, All, Bool-cases,
}
use ev4_builder_assistant_re.Json.{Value, str, get}
use ev4_builder_assistant_re.Lock.Metadata.{Folder, lock, guard, Identity, lock_metadata}
use ev4_builder_assistant_re.Lock.Calls.{preparation}
use ev4_builder_assistant_re.Lock.System.{File, Entry, Disk, final_of, Status, waiting, gone}
use ev4_builder_assistant_re.Lock.Obeys.{Caps, owns, may_take}

-- No two attempts are given the same id.
abbrev pub Unique : (ℕ → Identity) → Type 0
Unique who = (i j : ℕ) (f g : Folder) → (who i).lock_id f ≡ (who j).lock_id g → i ≡ j

pub lock_id_of :
    (me : Identity) (f : Folder) → get "lock_id" (lock_metadata me f) ≡ str (me.lock_id f)
unfolding lock_metadata get
lock_id_of me f = refl

pub str-injective : (s t : String) → str s ≡ str t → s ≡ t
str-injective s t h = cc

-- A status that is later than another.
pub record Later (st st' : ℕ → Status) : Type 0 where
  pub begun : (j : ℕ) → st j ≢ waiting → st' j ≢ waiting
  pub ended : (j : ℕ) → st j ≡ gone → st' j ≡ gone

module _ (who : ℕ → Identity) (unique : Unique who) where
  -- Metadata with the id of an attempt is what the attempt wrote, once it had begun.
  abbrev pub Written : (ℕ → Status) → Value → Type 0
  Written st v =
      (j : ℕ) (f : Folder)
      → get "lock_id" v ≡ str ((who j).lock_id f)
      → (st j ≢ waiting) × ((g : Folder) × (v ≡ lock_metadata (who j) g))

  abbrev pub Begun : (ℕ → Status) → File → Type 0
  Begun st x = (v : Value) → x.metadata ≡ some v → Written st v

  abbrev pub Named : Entry → Type 0
  Named e =
      (j : ℕ)
      → e.side ≡ preparation ((who j).lock_id e.folder)
      → e.file.metadata ≡ some (lock_metadata (who j) e.folder)

  pub record Tidy (st : ℕ → Status) (d : Disk) : Type 0 where
    pub named : All Named d.entries
    pub begun : All (λ e. Begun st e.file) d.entries
    pub finals : (f : Folder) (x : File) → final_of f d ≡ some x → Begun st x

  -- The lock file is there, with metadata of the id.
  abbrev pub Holds : Disk → Folder → Value → Type 0
  Holds d f z =
      (x : File) × (v : Value) × (final_of f d ≡ some x)
      × (x.metadata ≡ some v)
      × (get "lock_id" v ≡ z)

  pub record Facts (st : ℕ → Status) (d : Disk) (i : ℕ) (c : Caps) : Type 0 where
    pub owned : (f : Folder) → owns f c ≡ true → Holds d f (str ((who i).lock_id f))
    pub seen : (v : Value) → c.seen ≡ some v → Written st v
    pub buried :
        (z : Value)
        → c.buried ≡ some z
        → (j : ℕ) (f : Folder) → z ≡ str ((who j).lock_id f)
        → st j ≡ gone
    pub doomed :
        c.doomed ≡ true → (c.guarded ≡ true) × ((z : Value) × (c.buried ≡ some z) × Holds d lock z)

  Holds-same : (d : Disk) (f : Folder) (y z : Value) → Holds d f y → Holds d f z → y ≡ z
  Holds-same d f y z (x, v, at, has, is) (x', v', at', has', is') = cc

  -- Two processes that may take a lock file away are one.
  module _ (st : ℕ → Status) (d : Disk) (i j : ℕ) (c e : Caps) (fi : Facts st d i c)
      (fj : Facts st d j e) where
    both_own : (f : Folder) → owns f c ≡ true → owns f e ≡ true → i ≡ j
    both_own f h k =
        unique i j f f (str-injective _ _ (Holds-same d f _ _ (fi.owned f h) (fj.owned f k)))

    own_doomed : owns lock c ≡ true → e.doomed ≡ true → st i ≡ gone
    own_doomed h k =
        let (guarded, (z, known, holds)) = fj.doomed k in
        fj.buried z known i lock (Holds-same d lock _ _ holds (fi.owned lock h))

  module _ (st : ℕ → Status) (d : Disk) (i j : ℕ) (c e : Caps) (fi : Facts st d i c)
      (fj : Facts st d j e) (alive_i : st i ≢ gone) (alive_j : st j ≢ gone) where
    pub rivals : (f : Folder) → may_take f c ≡ true → may_take f e ≡ true → i ≡ j
    rivals guard h k = both_own st d i j c e fi fj guard h k
    rivals lock h k = elim (Bool-cases c.locked) [
      | inl own_i ↦ elim (Bool-cases e.locked) [
        | inl own_j ↦ both_own st d i j c e fi fj lock own_i own_j
        | inr not_j ↦ absurd (alive_i (own_doomed st d i j c e fi fj own_i (ground arith)))
      ]
      | inr not_i ↦ elim (Bool-cases e.locked) [
        | inl own_j ↦ absurd (alive_j (own_doomed st d j i e c fj fi own_j (ground arith)))
        | inr not_j ↦
            both_own st d i j c e fi fj guard (fi.doomed (ground arith)).0
              (fj.doomed (ground arith)).0
      ]
    ]

  Holds-move :
      (d d' : Disk) (f : Folder) (z : Value)
      → final_of f d' ≡ final_of f d
      → Holds d f z
      → Holds d' f z
  Holds-move d d' f z same (x, v, at, has, is) = (x, v, same ∙ at, has, is)

  pub Written_later :
      (st st' : ℕ → Status) (v : Value) → Later st st' → Written st v → Written st' v
  Written_later st st' v later w j f named = (later.begun j (w j f named).0, (w j f named).1)

  -- The facts stay while the files that the process may take stay, as time goes on.
  pub Facts-move :
      (st st' : ℕ → Status) (d d' : Disk) (i : ℕ) (c : Caps)
      → Later st st'
      → ((f : Folder) → may_take f c ≡ true → final_of f d' ≡ final_of f d)
      → Facts st d i c
      → Facts st' d' i c
  Facts-move st st' d d' i c later same facts = record {
    owned = λ f h. Holds-move d d' f _ (same f (owner_may_take f h)) (facts.owned f h);
    seen = λ v h. Written_later st st' v later (facts.seen v h);
    buried = λ z h j f named. later.ended j (facts.buried z h j f named);
    doomed = λ h.
        let (guarded, (z, known, holds)) = facts.doomed h in
        (guarded, (z, known, Holds-move d d' lock z (same lock (ground arith)) holds));
  }
    where
      owner_may_take : (f : Folder) → owns f c ≡ true → may_take f c ≡ true
      owner_may_take lock h = ground arith
      owner_may_take guard h = h
