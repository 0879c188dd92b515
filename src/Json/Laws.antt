-- ===== src/Json/Laws.antt =====
-- Laws of property access, in-place edits and strict equality.
use ev4_builder_assistant_re.Base.{
  String, ◌≢◌, inl, inr, Bool-cases, ◌∙◌, List, [], ◌∷◌, true, false, ◌≡◌, refl, ap, arith, str_eq,
  str_eq_iff, str_eq_refl, ==_iff, ==_refl, ℕ, if◌then◌else◌,
}
use ev4_builder_assistant_re.Json.{
  Value, null, bool, num, neg, frac, str, obj, Fields, no_field, field, get, get_field, put,
  put_field, is_positive, strict_eq, assign, remove, drop_field, undefined, items, items_of,
}

-- The values that JSON text in braces parses to.
abbrev pub IsObject : Value → Type 0
IsObject (obj fs) = Unit
IsObject v = ⊥

abbrev pub IsText : Value → Type 0
IsText (str s) = Unit
IsText v = ⊥

pub strict_eq-eq : (a b : Value) → strict_eq a b ≡ true → a ≡ b
unfolding strict_eq
strict_eq-eq undefined undefined h = refl
strict_eq-eq null null h = refl
strict_eq-eq (bool true) (bool true) h = refl
strict_eq-eq (bool false) (bool false) h = refl
strict_eq-eq (num m) (num n) h = ap num ((==_iff m n).0 h)
strict_eq-eq (neg m) (neg n) h = ap neg ((==_iff m n).0 h)
strict_eq-eq (frac s) (frac t) h = ap frac ((str_eq_iff s t).0 h)
strict_eq-eq (str s) (str t) h = ap str ((str_eq_iff s t).0 h)
strict_eq-eq _ _ h = cc

pub strict_eq_text : (s : String) → strict_eq (str s) (str s) ≡ true
unfolding strict_eq
strict_eq_text s = str_eq_refl s

pub strict_eq_refl : (v : Value) → IsText v → strict_eq v v ≡ true
unfolding strict_eq
strict_eq_refl (str s) h = str_eq_refl s
strict_eq_refl _ h = elim h [ ]

get_field-put_field :
    (j k : String) (w : Value) (fs : Fields)
    → get_field k (put_field j w fs) ≡ (if str_eq j k then w else get_field k fs)
get_field-put_field j k w no_field = refl
get_field-put_field j k w (field i v fs) =
    ground (arith, str_eq_iff j k, str_eq_iff i j, str_eq_iff i k, get_field-put_field j k w fs)

-- Reading after a write: the written value under its own key, and nothing else changed.
pub get-put :
    (j k : String) (w v : Value)
    → IsObject v
    → get k (put j w v) ≡ (if str_eq j k then w else get k v)
unfolding get put
get-put j k w (obj fs) h = get_field-put_field j k w fs
get-put j k w _ h = elim h [ ]

pub put-IsObject : (j : String) (w v : Value) → IsObject v → IsObject (put j w v)
unfolding put
put-IsObject j w (obj fs) h = tt
put-IsObject j w _ h = elim h [ ]

-- The elements of an array literal are the ones written in it.
pub items-items_of : (vs : List Value) → items (items_of vs) ≡ vs
items-items_of [] = refl
items-items_of (v ∷ vs) = ap (◌∷◌ v) (items-items_of vs)

-- The value that the last write to a key among `es` leaves, or `d` when none writes it.
abbrev pub last_write : String → List (String × Value) → Value → Value
last_write k [] d = d
last_write k ((j, w) ∷ es) d = last_write k es (if str_eq j k then w else d)

pub get-assign :
    (k : String) (es : List (String × Value)) (v : Value)
    → IsObject v
    → get k (assign es v) ≡ last_write k es (get k v)
unfolding assign
get-assign k [] v h = refl
get-assign k ((j, w) ∷ es) v h =
    get-assign k es (put j w v) (put-IsObject j w v h) ∙ ap (last_write k es) (get-put j k w v h)

pub assign-IsObject : (es : List (String × Value)) (v : Value) → IsObject v → IsObject (assign es v)
unfolding assign
assign-IsObject [] v h = h
assign-IsObject ((j, w) ∷ es) v h = assign-IsObject es (put j w v) (put-IsObject j w v h)

get_field-drop_field :
    (j k : String) (fs : Fields) → j ≢ k → get_field k (drop_field j fs) ≡ get_field k fs
get_field-drop_field j k no_field h = refl
get_field-drop_field j k (field i v fs) h =
    ground (arith, str_eq_iff i j, str_eq_iff i k, get_field-drop_field j k fs h)

-- Deleting a field leaves the others as they were.
pub get-remove : (j k : String) (v : Value) → j ≢ k → get k (remove j v) ≡ get k v
unfolding get remove
get-remove j k (obj fs) h = get_field-drop_field j k fs h
get-remove j k _ h = refl

-- A write to a field does not show once the field is deleted.
drop_field-put :
    (k : String) (w : Value) (fs : Fields) → drop_field k (put_field k w fs) ≡ drop_field k fs
drop_field-put k w no_field = rw (str_eq_refl k)
drop_field-put k w (field j v fs) = elim (Bool-cases (str_eq j k)) [
  | inl e ↦ ground arith
  | inr e ↦ ground (arith, drop_field-put k w fs)
]

pub remove-put : (k : String) (w v : Value) → remove k (put k w v) ≡ remove k v
unfolding remove put
remove-put k w (obj fs) = ap obj (drop_field-put k w fs)
remove-put k w _ = refl

drop_field_idem : (k : String) (fs : Fields) → drop_field k (drop_field k fs) ≡ drop_field k fs
drop_field_idem k no_field = refl
drop_field_idem k (field j v fs) = ground (arith, drop_field_idem k fs)

pub remove-remove : (k : String) (v : Value) → remove k (remove k v) ≡ remove k v
unfolding remove
remove-remove k (obj fs) = ap obj (drop_field_idem k fs)
remove-remove k _ = refl

-- What is equal to anything is equal to itself: no object or array is.
pub strict_eq_self : (a b : Value) → strict_eq a b ≡ true → strict_eq b b ≡ true
strict_eq_self a b h = let e = strict_eq-eq a b h in rw e at h

pub strict_eq_num : (n : ℕ) → strict_eq (num n) (num n) ≡ true
unfolding strict_eq
strict_eq_num n = ==_refl n

-- A value with a property that holds a text or a number is an object.
pub IsObject-text : (k : String) (v : Value) (s : String) → get k v ≡ str s → IsObject v
unfolding get
IsObject-text k (obj fs) s h = tt
IsObject-text k _ s h = cc

pub strict_eq_self_left : (a b : Value) → strict_eq a b ≡ true → strict_eq a a ≡ true
strict_eq_self_left a b h = let e = strict_eq-eq a b h in rw (← e) at h

pub strict_eq_positive : (v : Value) → is_positive v ≡ true → strict_eq v v ≡ true
unfolding is_positive strict_eq
strict_eq_positive (num n) h = ==_refl n
strict_eq_positive _ h = cc
