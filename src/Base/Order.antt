-- ===== src/Base/Order.antt =====
-- The order of texts by code points, as `Array.prototype.sort` compares strings, and the sort.
use Prim.Native.Nat.{suc, Ordering, compare as compare_ℕ}
use Prim.Native.Char.{Char, code}
use Prim.Native.String.compare
use Prim.Native.String.{String, compare}
use mathlib.Core.Path.{◌≡◌, refl, ap₂, ◌∙◌}
use mathlib.Core.Logic.{◌↔◌, inl, inr, ∥∥₁_elim}
use mathlib.Core.Bool.{Bool, Bool-set, true, false, ◌&&◌}
use mathlib.Core.List.{List, [], ◌∷◌, Perm, Permᴰ}
use mathlib.Core.List.Perm
use native.Mathlib.Omega.{arith}
use text.Mathlib.TextEquality.{codes_equal}
use text.Mathlib.TextPositions.{compare_refl}
use ev4_builder_assistant_re.Base.Lists.{length}
use ev4_builder_assistant_re.Base.Tests.{str_eq, str_eq_iff, str_eq_refl, Bool-cases, if◌then◌else◌}

abbrev pub text_le : String → String → Bool
text_le s t = elim (compare s t) [ Ordering.gt ↦ false | _ ↦ true ]

pub text_le_total : (s t : String) → text_le s t ≡ false → text_le t s ≡ true
text_le_total String.[] String.[] h = ground (arith, compare_refl String.[])
text_le_total String.[] (String.◌∷◌ d t) h = ground (arith, compare.nil-cons d t)
text_le_total (String.◌∷◌ c s) String.[] h = ground (arith, compare.nil-cons c s)
text_le_total (String.◌∷◌ c s) (String.◌∷◌ d t) h =
    ground (arith, compare.cons-cons c d s t, compare.cons-cons d c t s, text_le_total s t)

pub text_le_trans : (s t u : String) → text_le s t ≡ true → text_le t u ≡ true → text_le s u ≡ true
text_le_trans String.[] t String.[] h k = ground (arith, compare_refl String.[])
text_le_trans String.[] t (String.◌∷◌ e u) h k = ground (arith, compare.nil-cons e u)
text_le_trans (String.◌∷◌ c s) String.[] u h k = ground (arith, compare.cons-nil c s)
text_le_trans (String.◌∷◌ c s) (String.◌∷◌ d t) String.[] h k = ground (arith, compare.cons-nil d t)
text_le_trans (String.◌∷◌ c s) (String.◌∷◌ d t) (String.◌∷◌ e u) h k = ground (
  arith,
  compare.cons-cons c d s t,
  compare.cons-cons d e t u,
  compare.cons-cons c e s u,
  text_le_trans s t u,
)

text_le-cons :
    (c d : Char) (s t : String)
    → text_le (String.◌∷◌ c s) (String.◌∷◌ d t) ≡ true
    → text_le (String.◌∷◌ d t) (String.◌∷◌ c s) ≡ true
    → (compare_ℕ (code c) (code d) ≡ Ordering.eq) × (text_le s t ≡ true) × (text_le t s ≡ true)
text_le-cons c d s t h k = ground (arith, compare.cons-cons c d s t, compare.cons-cons d c t s)

pub text_le_antisymm : (s t : String) → text_le s t ≡ true → text_le t s ≡ true → s ≡ t
text_le_antisymm String.[] String.[] h k = refl
text_le_antisymm String.[] (String.◌∷◌ d t) h k = ground (arith, compare.cons-nil d t)
text_le_antisymm (String.◌∷◌ c s) String.[] h k = ground (arith, compare.cons-nil c s)
text_le_antisymm (String.◌∷◌ c s) (String.◌∷◌ d t) h k =
    let (heads, below, above) = text_le-cons c d s t h k in
    ap₂ String.◌∷◌ (codes_equal c d heads) (text_le_antisymm s t below above)

-- The place of a text in an ascending list.
abbrev pub insert_text : String → List String → List String
insert_text s [] = s ∷ []
insert_text s (t ∷ ts) = if text_le s t then s ∷ t ∷ ts else t ∷ insert_text s ts

-- `[...texts].sort()`.
unfoldable pub sort_text : List String → List String
sort_text [] = []
sort_text (s ∷ ss) = insert_text s (sort_text ss)

insert_text_comm :
    (a b : String) (ts : List String)
    → insert_text a (insert_text b ts) ≡ insert_text b (insert_text a ts)
insert_text_comm a b [] = ground (arith, text_le_total a b, text_le_total b a, text_le_antisymm a b)
insert_text_comm a b (t ∷ ts) = ground (
  arith,
  text_le_total a b,
  text_le_total b a,
  text_le_antisymm a b,
  text_le_trans a b t,
  text_le_trans b a t,
  text_le_total a t,
  text_le_total b t,
  text_le_trans a t b,
  text_le_trans b t a,
  insert_text_comm a b ts,
)

sort_text-eq_of_Permᴰ : {xs ys : List String} → Permᴰ xs ys → sort_text xs ≡ sort_text ys
unfolding sort_text
sort_text-eq_of_Permᴰ Permᴰ.nil = refl
sort_text-eq_of_Permᴰ (Permᴰ.cons e p) = ap₂ insert_text e (sort_text-eq_of_Permᴰ p)
sort_text-eq_of_Permᴰ (Permᴰ.swap {a' = a} {b' = b} {l} e f) =
    ap₂ (λ x y. insert_text x (insert_text y (sort_text l))) e f
    ∙ insert_text_comm b a (sort_text l)
sort_text-eq_of_Permᴰ (Permᴰ.trans p q) = sort_text-eq_of_Permᴰ p ∙ sort_text-eq_of_Permᴰ q

insert_text-perm : (s : String) (ts : List String) → Perm (insert_text s ts) (s ∷ ts)
insert_text-perm s [] = Perm.refl (s ∷ [])
insert_text-perm s (t ∷ ts) = elim (Bool-cases (text_le s t)) [
  | inl e ↦ rw e (Perm.refl (s ∷ t ∷ ts))
  | inr e ↦ rw e (Perm.trans (Perm.cons t (insert_text-perm s ts)) (Perm.swap s t ts))
]

pub sort_text-perm : (ts : List String) → Perm (sort_text ts) ts
unfolding sort_text
sort_text-perm [] = Perm.refl []
sort_text-perm (t ∷ ts) =
    Perm.trans (insert_text-perm t (sort_text ts)) (Perm.cons t (sort_text-perm ts))

-- Two lists of texts agree position by position.
abbrev pub same_texts : List String → List String → Bool
same_texts [] [] = true
same_texts (s ∷ ss) (t ∷ ts) = str_eq s t && same_texts ss ts
same_texts _ _ = false

pub same_texts_refl : (ts : List String) → same_texts ts ts ≡ true
same_texts_refl [] = refl
same_texts_refl (t ∷ ts) = ground (arith, str_eq_refl t, same_texts_refl ts)

pub same_texts-eq : (ss ts : List String) → same_texts ss ts ≡ true → ss ≡ ts
same_texts-eq [] [] h = refl
same_texts-eq [] (t ∷ ts) h = cc
same_texts-eq (s ∷ ss) [] h = cc
same_texts-eq (s ∷ ss) (t ∷ ts) h = ground (arith, str_eq_iff s t, same_texts-eq ss ts)

-- Sorting both sides decides whether one list is a rearrangement of the other.
pub same_sorted_iff :
    (xs ys : List String) → (same_texts (sort_text xs) (sort_text ys) ≡ true) ↔ Perm xs ys
same_sorted_iff xs ys = (
  λ h.
      let e = same_texts-eq (sort_text xs) (sort_text ys) h in
      Perm.trans (Perm.symm (sort_text-perm xs)) (rw e (sort_text-perm ys)),
  λ p. ∥∥₁_elim p (Bool-set _ _) λ d. rw (sort_text-eq_of_Permᴰ d) (same_texts_refl (sort_text ys)),
)

length-insert_text : (s : String) (ts : List String) → length (insert_text s ts) ≡ suc (length ts)
length-insert_text s [] = refl
length-insert_text s (t ∷ ts) = ground (arith, length-insert_text s ts)

pub length-sort_text : (ts : List String) → length (sort_text ts) ≡ length ts
unfolding sort_text
length-sort_text [] = refl
length-sort_text (t ∷ ts) = omega (arith, length-insert_text t (sort_text ts), length-sort_text ts)
