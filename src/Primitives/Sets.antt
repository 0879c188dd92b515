-- ===== src/Primitives/Sets.antt =====
-- `sameSet` of scripts/lib/runtime/run-primitives.mjs: two arrays with the same elements in any order.
use mathlib.Core.List.{Perm}
use mathlib.Core.List.Perm
use ev4_builder_assistant_re.Base.{
  String, Bool, true, false, ◌&&◌, List, [], ◌∷◌, map, ◌≡◌, refl, ap, sym, ◌∙◌, ◌↔◌, arith, inl,
  inr, Bool-cases, suc, and-eq-true, ==_iff, ◌==◌, ==_refl, length, if◌then◌else◌,
}
use ev4_builder_assistant_re.Base.Order.{
  text_le, insert_text, sort_text, same_texts, same_sorted_iff, same_texts-eq, length-sort_text,
}
use ev4_builder_assistant_re.Json.Laws.{items-items_of}
use ev4_builder_assistant_re.Json.{Value, str, arr, items, items_of, array, to_text, strict_eq}

-- `[...values].sort()`: stable, by the texts of the values.
unfoldable pub insert_value : Value → List Value → List Value
insert_value v [] = v ∷ []
insert_value v (w ∷ ws) =
    if text_le (to_text v) (to_text w) then v ∷ w ∷ ws else w ∷ insert_value v ws

unfoldable pub sort_values : List Value → List Value
unfolding insert_value
sort_values [] = []
sort_values (v ∷ vs) = insert_value v (sort_values vs)

-- `a.every((value, index) => value === b[index])` on arrays of one length.
same_values : List Value → List Value → Bool
same_values [] ws = true
same_values (v ∷ vs) [] = false
same_values (v ∷ vs) (w ∷ ws) = strict_eq v w && same_values vs ws

unfoldable pub same_set : Value → Value → Bool
unfolding sort_values same_values
same_set (arr vs) (arr ws) =
    length (items vs) == length (items ws)
    && same_values (sort_values (items vs)) (sort_values (items ws))
same_set v w = false

insert_value-map :
    (s : String) (ts : List String) → insert_value (str s) (map str ts) ≡ map str (insert_text s ts)
unfolding insert_value
insert_value-map s [] = refl
insert_value-map s (t ∷ ts) = elim (Bool-cases (text_le s t)) [
  | inl e ↦ rw e
  | inr e ↦ rw e (ap (◌∷◌ (str t)) (insert_value-map s ts))
]

sort_values-map : (ts : List String) → sort_values (map str ts) ≡ map str (sort_text ts)
unfolding sort_values sort_text
sort_values-map [] = refl
sort_values-map (t ∷ ts) =
    ap (insert_value (str t)) (sort_values-map ts) ∙ insert_value-map t (sort_text ts)

same_values-map :
    (ss ts : List String)
    → length ss ≡ length ts
    → same_values (map str ss) (map str ts) ≡ same_texts ss ts
unfolding same_values strict_eq
same_values-map [] [] h = refl
same_values-map [] (t ∷ ts) h = absurd (omega arith)
same_values-map (s ∷ ss) [] h = absurd (omega arith)
same_values-map (s ∷ ss) (t ∷ ts) h = rw (same_values-map ss ts (omega arith))

length-map_str : (ts : List String) → length (map str ts) ≡ length ts
length-map_str [] = refl
length-map_str (t ∷ ts) = ap suc (length-map_str ts)

length-items_str : (ts : List String) → length (items (items_of (map str ts))) ≡ length ts
length-items_str ts = simp (items-items_of, length-map_str)

-- On arrays of texts the test compares the lengths and the sorted texts.
same_set-texts :
    (ss ts : List String)
    → length ss ≡ length ts
    → same_set (array (map str ss)) (array (map str ts)) ≡ same_texts (sort_text ss) (sort_text ts)
unfolding same_set
same_set-texts ss ts e =
    simp (items-items_of, sort_values-map, length-map_str, e, ==_refl)
      (same_values-map (sort_text ss) (sort_text ts)
        (omega (arith, length-sort_text ss, length-sort_text ts)))

same_set-length :
    (ss ts : List String)
    → same_set (array (map str ss)) (array (map str ts)) ≡ true
    → length ss ≡ length ts
unfolding same_set
same_set-length ss ts h =
    let (lengths, _) = and-eq-true _ _ h in
    sym (length-items_str ss) ∙ (==_iff _ _).0 lengths ∙ length-items_str ts

-- On arrays of texts sameSet decides whether one array is a rearrangement of the other, with every
-- text as often.
pub same_set_iff :
    (ss ts : List String) → (same_set (array (map str ss)) (array (map str ts)) ≡ true) ↔ Perm ss ts
same_set_iff ss ts = (
  λ h. (same_sorted_iff ss ts).0 (sym (same_set-texts ss ts (same_set-length ss ts h)) ∙ h),
  λ p.
      let same = (same_sorted_iff ss ts).1 p in
      let sorted = same_texts-eq (sort_text ss) (sort_text ts) same in
      same_set-texts ss ts (sym (length-sort_text ss) ∙ ap length sorted ∙ length-sort_text ts)
      ∙ same,
)

pub same_set_refl : (ts : List String) → same_set (array (map str ts)) (array (map str ts)) ≡ true
same_set_refl ts = (same_set_iff ts ts).1 (Perm.refl ts)
