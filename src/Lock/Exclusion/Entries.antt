-- ===== src/Lock/Exclusion/Entries.antt =====
-- Entries of a container: what holds of all holds of the one that is found, and of those that are left.
use ev4_builder_assistant_re.Base.{
  String, true, ◌&&◌, List, [], ◌∷◌, some, ◌≡◌, inl, inr, refl, All, Bool-cases, str_eq_iff, ap,
  and-eq-true,
}
use ev4_builder_assistant_re.Lock.Metadata.{Folder, lock, guard}
use ev4_builder_assistant_re.Lock.Calls.{Side, preparation, claim}
use ev4_builder_assistant_re.Lock.System.{File, Entry, same_folder, same_side, find_side, drop_side}

same_folder-eq : (f g : Folder) → same_folder f g ≡ true → f ≡ g
unfolding same_folder
same_folder-eq lock lock h = refl
same_folder-eq guard guard h = refl
same_folder-eq lock guard h = cc
same_folder-eq guard lock h = cc

same_preparation :
    (s : Side) (id : String) → same_side s (preparation id) ≡ true → s ≡ preparation id
unfolding same_side
same_preparation (preparation x) id h = ap preparation ((str_eq_iff x id).0 h)
same_preparation (claim p x u) id h = cc

-- A preparation file that is found is one of the entries.
pub find_side-All {ℓ} :
    (P : Entry → Type ℓ) (f : Folder) (id : String) (x : File) (es : List Entry)
    → All P es
    → find_side f (preparation id) es ≡ some x
    → (e : Entry) × P e × (e.folder ≡ f) × (e.side ≡ preparation id) × (e.file ≡ x)
unfolding find_side
find_side-All P f id x [] h at = cc
find_side-All P f id x (e ∷ es) h at =
    elim (Bool-cases (same_folder e.folder f && same_side e.side (preparation id))) [
      | inl match ↦
          let (folder, side) = and-eq-true _ _ match in
          (e, h.0, same_folder-eq _ _ folder, same_preparation _ _ side, cc (rw match at at))
      | inr differ ↦ find_side-All P f id x es h.1 (rw differ at at)
    ]

pub find_any-All {ℓ} :
    (P : Entry → Type ℓ) (f : Folder) (s : Side) (x : File) (es : List Entry)
    → All P es
    → find_side f s es ≡ some x
    → (e : Entry) × P e × (e.file ≡ x)
unfolding find_side
find_any-All P f s x [] h at = cc
find_any-All P f s x (e ∷ es) h at =
    elim (Bool-cases (same_folder e.folder f && same_side e.side s)) [
      | inl match ↦ (e, h.0, cc (rw match at at))
      | inr differ ↦ find_any-All P f s x es h.1 (rw differ at at)
    ]

pub drop_side-All {ℓ} :
    (P : Entry → Type ℓ) (f : Folder) (s : Side) (es : List Entry)
    → All P es
    → All P (drop_side f s es)
unfolding drop_side
drop_side-All P f s [] h = tt
drop_side-All P f s (e ∷ es) h = elim (Bool-cases (same_folder e.folder f && same_side e.side s)) [
  | inl match ↦ rw match (drop_side-All P f s es h.1)
  | inr differ ↦ rw differ (h.0, drop_side-All P f s es h.1)
]
