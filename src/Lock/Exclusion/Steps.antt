-- ===== src/Lock/Exclusion/Steps.antt =====
-- Every call of a process that obeys.
use ev4_builder_assistant_re.Base.{
  ℕ, String, true, false, Option, none, some, ◌≡◌, ◌≢◌, ◌⊎◌, inl, inr, refl, sym, ◌∙◌, ap, arith,
  Bool-cases, str_eq, str_eq_iff,
}
use mathlib.Core.Path.{subst}
use ev4_builder_assistant_re.Json.{Value, str, get}
use ev4_builder_assistant_re.Lock.Metadata.{
  Folder, lock, guard, Identity, lock_metadata, Probe, Liveness, live, dead, unknown, malformed,
  inspect_recorded_owner_liveness,
}
use ev4_builder_assistant_re.Lock.Calls.{Side, preparation, claim, Program}
use ev4_builder_assistant_re.Lock.System.{
  File, Disk, final_of, with_final, with_entries, find_side, drop_side, put_side, Step, made,
  is_present, is_absent, no_inspection, has_read, no_read, has_written, no_write, has_linked,
  link_blocked, no_link, has_renamed, no_rename, has_removed, no_removal, has_inode, no_inode,
  has_listed, no_list, has_synced, container_gone, has_probed, has_worked, Status, waiting, gone,
  System, Honest,
}
use ev4_builder_assistant_re.Lock.Obeys.{
  Caps, may_take, after_read, own, after_link, lose, bury, IsClaim, Obeys,
}
use ev4_builder_assistant_re.Lock.Exclusion.Known.{
  Unique, lock_id_of, Begun, Named, Tidy, Facts, Facts-move,
}
use ev4_builder_assistant_re.Lock.Exclusion.Entries.{find_side-All, find_any-All, drop_side-All}
use ev4_builder_assistant_re.Lock.Exclusion.Owner.{dead_owner}
use ev4_builder_assistant_re.Lock.Exclusion.Calls.{
  Later-refl, final_with_entries, Status_gone, after_read-none, read-Facts, own-Facts, lose-Facts,
  bury-Facts, Ends, After, read_only, with_entries-After, with_entries-Tidy, write-After,
}

final_with_final : (f : Folder) (x : Option File) (d : Disk) → final_of f (with_final f x d) ≡ x
final_with_final lock x d = refl
final_with_final guard x d = refl

-- Another folder's lock file stays.
final_elsewhere :
    (f g : Folder) (x : Option File) (d : Disk)
    → (g ≡ f) ⊎ (final_of g (with_final f x d) ≡ final_of g d)
final_elsewhere lock lock x d = inl refl
final_elsewhere guard guard x d = inl refl
final_elsewhere lock guard x d = inr refl
final_elsewhere guard lock x d = inr refl

entries_with_final :
    (f : Folder) (x : Option File) (d : Disk) → (with_final f x d).entries ≡ d.entries
entries_with_final lock x d = refl
entries_with_final guard x d = refl

-- A change of the lock file of a folder alone.
module _ (who : ℕ → Identity) (unique : Unique who) (st : ℕ → Status) (d : Disk)
    (tidy : Tidy who unique st d) where
  final-Tidy :
      (f : Folder) (x : Option File)
      → ((y : File) → x ≡ some y → Begun who unique st y)
      → Tidy who unique st (with_final f x d)
  final-Tidy f x old = record {
    named = rw (entries_with_final f x d) tidy.named;
    begun = rw (entries_with_final f x d) tidy.begun;
    finals = λ g y at. elim (final_elsewhere f g x d) [
      | inl same ↦ old y (
          sym (final_with_final f x d)
          ∙ (ap (λ (k : Folder). final_of k (with_final f x d)) (sym same) ∙ at))
      | inr kept ↦ tidy.finals g y (sym kept ∙ at)
    ];
  }

-- What a process may take is there.
pub may_take_present :
    (who : ℕ → Identity) (unique : Unique who) (st : ℕ → Status) (d : Disk) (i : ℕ) (c : Caps)
    → Facts who unique st d i c
    → (f : Folder) → may_take f c ≡ true
    → (x : File) × (final_of f d ≡ some x)
may_take_present who unique st d i c facts guard h =
    let (x, v, at, has, is) = facts.owned guard h in (x, at)
may_take_present who unique st d i c facts lock h = elim (Bool-cases c.locked) [
  | inl locked ↦ let (x, v, at, has, is) = facts.owned lock locked in (x, at)
  | inr free ↦
      let (guarded, (z, known, (x, v, at, has, is))) = facts.doomed (ground arith) in (x, at)
]

module _ {A : Type 0} (who : ℕ → Identity) (unique : Unique who) (s : System A) (i : ℕ)
    (begun : s.status i ≢ waiting) (tidy : Tidy who unique s.status s.disk) (c : Caps)
    (facts : Facts who unique s.status s.disk i c) where
  abbrev d : Disk
  d = s.disk

  abbrev Left : Disk → Program A → Type 0
  Left d' p' = After who unique s.status d i c d' p'

  -- A link into a lock file that is missing.
  published-Facts :
      (f : Folder) (x : File)
      → final_of f d ≡ none
      → Facts who unique s.status (with_final f (some x) d) i c
  published-Facts f x free =
      Facts-move who unique s.status s.status d (with_final f (some x) d) i c (Later-refl s.status)
        kept facts
    where
      kept :
          (g : Folder) → may_take g c ≡ true → final_of g (with_final f (some x) d) ≡ final_of g d
      kept g h = elim (final_elsewhere f g (some x) d) [
        | inl same ↦
            let (y, at) = may_take_present who unique s.status d i c facts g h in
            absurd (cc (sym at ∙ (ap (λ (k : Folder). final_of k d) same ∙ free)))
        | inr stays ↦ stays
      ]

  link_untouched :
      (f : Folder) (x : File)
      → final_of f d ≡ none
      → (g : Folder)
      → (final_of g (with_final f (some x) d) ≡ final_of g d)
        ⊎ ((final_of g d ≡ none) ⊎ (may_take g c ≡ true))
  link_untouched f x free g = elim (final_elsewhere f g (some x) d) [
    | inl same ↦ inr (inl (ap (λ (k : Folder). final_of k d) same ∙ free))
    | inr stays ↦ inl stays
  ]

  side-Begun :
      (f : Folder) (side : Side) (x : File)
      → find_side f side d.entries ≡ some x
      → Begun who unique s.status x
  side-Begun f side x at =
      let (e, old, same) =
        find_any-All (λ e. Begun who unique s.status e.file) f side x d.entries tidy.begun at in
      subst (Begun who unique s.status) same old

  -- The preparation file of the process holds its metadata.
  prepared :
      (f : Folder) (x : File)
      → find_side f (preparation ((who i).lock_id f)) d.entries ≡ some x
      → x.metadata ≡ some (lock_metadata (who i) f)
  prepared f x at =
      let (e, named, folder, side, same) =
        find_side-All (Named who unique) f ((who i).lock_id f) x d.entries tidy.named at in
      let mine = ap (λ (k : Folder). preparation ((who i).lock_id k)) (sym folder) in
      ap (λ (y : File). y.metadata) (sym same)
      ∙ (named i (side ∙ mine) ∙ ap (λ (k : Folder). some (lock_metadata (who i) k)) folder)

  linked-After :
      (f : Folder) (side : Side) (x : File) (p' : Program A) (c' : Caps)
      → find_side f side d.entries ≡ some x
      → final_of f d ≡ none
      → Facts who unique s.status (with_final f (some x) d) i c'
      → Obeys (who i) Ends c' p'
      → Left (with_final f (some x) d) p'
  linked-After f side x p' c' at free known o = record {
    caps = c';
    obeys = o;
    facts = known;
    tidy = final-Tidy who unique s.status d tidy f (some x) (λ z is.
        subst (Begun who unique s.status) {x = x} {y = z} (cc is) (side-Begun f side x at));
    untouched = link_untouched f x free;
  }

  link-After :
      (f : Folder) (side : Side) (x : File) (p' : Program A)
      → find_side f side d.entries ≡ some x
      → final_of f d ≡ none
      → Obeys (who i) Ends (after_link (who i) f side c) p'
      → Left (with_final f (some x) d) p'
  link-After f (claim p y u) x p' at free o =
      linked-After f (claim p y u) x p' c at free (published-Facts f x free) o
  link-After f (preparation id) x p' at free o = elim (Bool-cases (str_eq id ((who i).lock_id f))) [
    | inl mine ↦
        let mine_at =
          ap (λ (k : String). find_side f (preparation k) d.entries) (sym ((str_eq_iff _ _).0 mine))
          ∙ at in
        linked-After f (preparation id) x p' (own f c) at free
          (own-Facts who unique s.status (with_final f (some x) d) i c (published-Facts f x free) f
            (
              x,
              lock_metadata (who i) f,
              final_with_final f (some x) d,
              prepared f x mine_at,
              lock_id_of (who i) f,
            ))
          (rw mine at o)
    | inr other ↦
        linked-After f (preparation id) x p' c at free (published-Facts f x free) (rw other at o)
  ]

  Named-claim :
      (f : Folder) (side : Side) (x : File)
      → IsClaim side
      → Named who unique (record { folder = f; side = side; file = x })
  Named-claim f (claim p y u) x h j is = cc
  Named-claim f (preparation id) x h j is = absurd h

  rename-After :
      (f : Folder) (side : Side) (x : File) (p' : Program A)
      → final_of f d ≡ some x
      → may_take f c ≡ true
      → IsClaim side
      → Obeys (who i) Ends (lose f c) p'
      → Left (with_final f none (with_entries (put_side f side x d.entries) d)) p'
  rename-After f side x p' at may h o = record {
    caps = lose f c;
    obeys = o;
    facts = lose-Facts who unique s.status d i c facts f (put_side f side x d.entries);
    tidy =
        final-Tidy who unique s.status (with_entries (put_side f side x d.entries) d)
          (with_entries-Tidy who unique s i begun tidy c facts (put_side f side x d.entries)
            (Named-claim f side x h, drop_side-All (Named who unique) f side d.entries tidy.named)
            (
              tidy.finals f x at,
              drop_side-All (λ e. Begun who unique s.status e.file) f side d.entries tidy.begun,
            ))
          f none (λ y is. cc);
    untouched = λ g.
        elim (final_elsewhere f g none (with_entries (put_side f side x d.entries) d)) [
          | inl same ↦ inr (inr (ap (λ (k : Folder). may_take k c) same ∙ may))
          | inr stays ↦ inl (stays ∙ final_with_entries g (put_side f side x d.entries) d)
        ];
  }

  ended_owner :
      (v : Value) (probe : Probe)
      → Honest who s v probe
      → c.seen ≡ some v
      → inspect_recorded_owner_liveness v probe ≡ dead
      → (j : ℕ) (f : Folder) → get "lock_id" v ≡ str ((who j).lock_id f)
      → s.status j ≡ gone
  ended_owner v probe honest seen is_dead j f named =
      let (old, (g, is)) = facts.seen v seen j f named in
      Status_gone (s.status j) old (dead_owner who s j g probe (rw is at honest) (rw is at is_dead))

  probe-After :
      (v : Value) (probe : Probe) (k : Liveness → Program A)
      → Honest who s v probe
      → Obeys (who i) Ends c (k live)
        × Obeys (who i) Ends c (k unknown)
        × Obeys (who i) Ends c (k malformed)
        × (Obeys (who i) Ends c (k dead)
            ⊎ ((c.seen ≡ some v) × Obeys (who i) Ends (bury v c) (k dead)))
      → (l : Liveness) → inspect_recorded_owner_liveness v probe ≡ l
      → Left d (k l)
  probe-After v probe k honest o live is =
      read_only who unique s i begun tidy c facts c (k live) o.0 facts
  probe-After v probe k honest o unknown is =
      read_only who unique s i begun tidy c facts c (k unknown) o.1 facts
  probe-After v probe k honest o malformed is =
      read_only who unique s i begun tidy c facts c (k malformed) o.2 facts
  probe-After v probe k honest o dead is = elim (o.3) [
    | inl same ↦ read_only who unique s i begun tidy c facts c (k dead) same facts
    | inr (seen, known) ↦
        read_only who unique s i begun tidy c facts (bury v c) (k dead) known
          (bury-Facts who unique s.status d i c facts v (ended_owner v probe honest seen is))
  ]

  pub Step-After :
      {p p' : Program A} {d' : Disk}
      → Step (Honest who s) d p d' p'
      → Obeys (who i) Ends c p
      → Left d' p'
  Step-After (made x) o = read_only who unique s i begun tidy c facts c _ (o x) facts
  Step-After (is_present x at) o = read_only who unique s i begun tidy c facts c _ (o _) facts
  Step-After (is_absent at) o = read_only who unique s i begun tidy c facts c _ (o _) facts
  Step-After no_inspection o = read_only who unique s i begun tidy c facts c _ (o _) facts
  Step-After (has_read {f} {p} x at) o =
      read_only who unique s i begun tidy c facts (after_read p f x.metadata c) _ (o x.metadata)
        (read-Facts who unique s.status d tidy i p f x x.metadata c at refl facts)
  Step-After (no_read {f} {p} {k}) o =
      read_only who unique s i begun tidy c facts c (k none)
        (subst (λ (e : Caps). Obeys (who i) Ends e (k none))
          (after_read-none who unique s.status d tidy i p f c) (o none))
        facts
  Step-After (has_written {f} {s = side} {v} inode at) o =
      write-After who unique s i begun tidy c facts f side v inode _ o.0 o.1 (o.2 true)
  Step-After no_write o = read_only who unique s i begun tidy c facts c _ (o.2 false) facts
  Step-After (has_linked {f} {s = side} x at free) o = link-After f side x _ at free o.2
  Step-After (link_blocked x at) o = read_only who unique s i begun tidy c facts c _ o.0 facts
  Step-After no_link o = read_only who unique s i begun tidy c facts c _ o.1 facts
  Step-After (has_renamed {f} {s = side} x at) o = rename-After f side x _ at o.0 o.1 o.3
  Step-After no_rename o = read_only who unique s i begun tidy c facts c _ o.2 facts
  Step-After (has_removed {f} {s = side}) o =
      with_entries-After who unique s i begun tidy c facts (drop_side f side d.entries) _ (o true)
        (drop_side-All (Named who unique) f side d.entries tidy.named)
        (drop_side-All (λ e. Begun who unique s.status e.file) f side d.entries tidy.begun)
  Step-After no_removal o = read_only who unique s i begun tidy c facts c _ (o false) facts
  Step-After (has_inode x at) o = read_only who unique s i begun tidy c facts c _ (o _) facts
  Step-After no_inode o = read_only who unique s i begun tidy c facts c _ (o _) facts
  Step-After has_listed o = read_only who unique s i begun tidy c facts c _ (o _) facts
  Step-After no_list o = read_only who unique s i begun tidy c facts c _ (o _) facts
  Step-After (has_synced x) o = read_only who unique s i begun tidy c facts c _ (o x) facts
  Step-After (container_gone x) o = read_only who unique s i begun tidy c facts c _ (o x) facts
  Step-After (has_probed {v} {k} probe honest) o = probe-After v probe k honest o _ refl
  Step-After (has_worked w) o = read_only who unique s i begun tidy c facts c _ (o.1 w) facts
