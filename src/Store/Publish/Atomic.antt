-- ===== src/Store/Publish/Atomic.antt =====
-- What a publication leaves behind, wherever it stops.
use ev4_builder_assistant_re.Base.{
  ℕ, String, Bool, true, false, ◌==◌, ==_iff, List, [], ◌∷◌, ◌≡◌, ◌⊎◌, refl, sym, ap, ◌∙◌, inl, inr,
  Option, none, some, Bool-cases, Option-cases, str_eq, str_eq_iff, str_eq_refl, or-eq-false,
}
use ev4_builder_assistant_re.Planner.Types.{AuxiliaryFile}
use ev4_builder_assistant_re.Store.Directory.{
  GenerationFiles, Directory, entry_bytes, find_file, find_generation, write_auxiliary_files,
}
use ev4_builder_assistant_re.Store.Publish.{
  blocked, threw, published, Published, Expected, any_missing, is_missing, same_file, files_differ,
  at_point,
}

-- The generation that a pointer of `e` names is there, with the expected bytes.
abbrev pub Installed : Directory → Expected → Type 0
Installed a e =
    (g : GenerationFiles) × (find_generation e.next_number a.generations ≡ some g)
    × (files_differ g e.files ≡ false)

-- A directory that a publication of `e` upon `d` may leave: no generation and no file of `d` is changed, and the
-- pointer is the old one, or the new one beside its installed generation.
pub record Safe (d : Directory) (e : Expected) (a : Directory) : Type 0 where
  pub generations :
      (n : ℕ) (g : GenerationFiles)
      → find_generation n d.generations ≡ some g
      → find_generation n a.generations ≡ some g
  pub files :
      (ref text : String) → find_file ref d.files ≡ some text → find_file ref a.files ≡ some text
  pub pointer : (a.current ≡ d.current) ⊎ ((a.current ≡ some e.pointer) × Installed a e)

pub record Leaves (d : Directory) (e : Expected) (r : Published) : Type 0 where
  pub safe : Safe d e r.directory
  pub done : (way : String) → r.outcome ≡ published way → r.directory.current ≡ some e.pointer

-- The pointer of a directory that is safe so far is still the old one.
pub record Before (d : Directory) (e : Expected) (a : Directory) : Type 0 where
  pub generations :
      (n : ℕ) (g : GenerationFiles)
      → find_generation n d.generations ≡ some g
      → find_generation n a.generations ≡ some g
  pub files :
      (ref text : String) → find_file ref d.files ≡ some text → find_file ref a.files ≡ some text
  pub pointer : a.current ≡ d.current

pub unchanged : (d : Directory) (e : Expected) → Before d e d
unchanged d e = record { generations = λ n g h. h; files = λ ref text h. h; pointer = refl }

pub Before-Safe : (d : Directory) (e : Expected) (a : Directory) → Before d e a → Safe d e a
Before-Safe d e a b = record {
  generations = b.generations;
  files = b.files;
  pointer = inl b.pointer;
}

pub stopped :
    (d : Directory) (e : Expected) (a : Directory) (code : String)
    → Safe d e a
    → Leaves d e (record { directory = a; outcome = threw code })
stopped d e a code s = record { safe = s; done = λ way h. cc }

pub refused :
    (d : Directory) (e : Expected) (a : Directory) (codes : List String)
    → Safe d e a
    → Leaves d e (record { directory = a; outcome = blocked codes })
refused d e a codes s = record { safe = s; done = λ way h. cc }

pub at_point-Leaves :
    (fails : String → Bool) (point : String) (d : Directory) (e : Expected) (a : Directory)
    (next : Published)
    → Safe d e a
    → Leaves d e next
    → Leaves d e (at_point fails point a next)
unfolding at_point
at_point-Leaves fails point d e a next s l = elim (Bool-cases (fails point)) [
  | inl stop ↦ rw stop (stopped d e a "RUN-INJECTED-FAILURE" s)
  | inr go ↦ rw go l
]

same_file_refl : (o : Option String) → is_missing o ≡ false → same_file o o ≡ true
unfolding same_file is_missing
same_file_refl none h = cc
same_file_refl (some text) h = str_eq_refl text

pub files_differ_refl : (g : GenerationFiles) → any_missing g ≡ false → files_differ g g ≡ false
unfolding files_differ any_missing
files_differ_refl g h =
    let (manifest, rest) = or-eq-false _ _ h in
    let (context, others) = or-eq-false _ _ rest in
    let (session, checkpoint) = or-eq-false _ _ others in
    rw
      (
        same_file_refl g.manifest manifest,
        same_file_refl g.context context,
        same_file_refl g.session session,
        same_file_refl g.checkpoint checkpoint,
      )
      refl

find_file-cons :
    (ref text r t : String) (files : List (String × String))
    → find_file r files ≡ none
    → find_file ref files ≡ some text
    → find_file ref ((r, t) ∷ files) ≡ some text
unfolding find_file
find_file-cons ref text r t files absent h = elim (Bool-cases (str_eq r ref)) [
  | inl same ↦
      let e = (str_eq_iff r ref).0 same in
      absurd (cc (sym h ∙ ap (λ x. find_file x files) (sym e) ∙ absent))
  | inr other ↦ rw other h
]

pub find_generation-cons :
    (n m : ℕ) (g k : GenerationFiles) (gs : List (ℕ × GenerationFiles))
    → find_generation m gs ≡ none
    → find_generation n gs ≡ some g
    → find_generation n ((m, k) ∷ gs) ≡ some g
unfolding find_generation
find_generation-cons n m g k gs absent h = elim (Bool-cases (m == n)) [
  | inl same ↦
      let e = (==_iff m n).0 same in
      absurd (cc (sym h ∙ ap (λ x. find_generation x gs) (sym e) ∙ absent))
  | inr other ↦ rw other h
]

-- No file of the directory is overwritten.
pub write_auxiliary_files-keeps :
    (ref text : String) (files : List (String × String)) (entries : List AuxiliaryFile)
    → find_file ref files ≡ some text
    → find_file ref (write_auxiliary_files files entries).files ≡ some text
unfolding write_auxiliary_files
write_auxiliary_files-keeps ref text files [] h = h
write_auxiliary_files-keeps ref text files (entry ∷ entries) h =
    elim (Option-cases (find_file entry.ref files)) [
      | inl absent ↦
          rw (write_auxiliary_files, absent)
            (write_auxiliary_files-keeps ref text ((entry.ref, entry_bytes entry.content) ∷ files)
              entries
              (find_file-cons ref text entry.ref (entry_bytes entry.content) files absent h))
      | inr (actual, found) ↦ elim (Bool-cases (str_eq actual (entry_bytes entry.content))) [
        | inl same ↦
            rw (write_auxiliary_files, found, same)
              (write_auxiliary_files-keeps ref text files entries h)
        | inr other ↦ rw (write_auxiliary_files, found, other) h
      ]
    ]
