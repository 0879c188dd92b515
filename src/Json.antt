-- ===== src/Json.antt =====
-- JavaScript values as the runtime reads them from JSON: property access, strict equality,
-- truthiness, coercion to text, and the in-place edits of a cloned object.
-- Covers the language operations that scripts/lib/runtime/*.mjs use on parsed artifacts.
pub mod Laws
use ev4_builder_assistant_re.Base.{
  ℕ, zero, suc, ◌+◌, String, Bool, true, false, not, ◌&&◌, List, [], ◌∷◌, map, str_eq, ◌==◌,
  if◌then◌else◌, length, every, template, join, decimal,
}

-- `neg n` is the integer -(n + 1); `frac t` a number that is no integer, by its JSON text.
mutual
  pub data Value : Type 0 where
    undefined null : Value
    bool : Bool → Value
    num : ℕ → Value
    neg : ℕ → Value
    frac : String → Value
    str : String → Value
    obj : Fields → Value
    arr : Items → Value

  pub data Fields : Type 0 where
    field : String → Value → Fields → Fields
    no_field : Fields

  pub data Items : Type 0 where
    cons : Value → Items → Items
    nil : Items

abbrev pub items : Items → List Value
items nil = []
items (cons v vs) = v ∷ items vs

abbrev pub entries : Fields → List (String × Value)
entries no_field = []
entries (field k v fs) = (k, v) ∷ entries fs

abbrev pub items_of : List Value → Items
items_of [] = nil
items_of (v ∷ vs) = cons v (items_of vs)

abbrev pub fields_of : List (String × Value) → Fields
fields_of [] = no_field
fields_of ((k, v) ∷ es) = field k v (fields_of es)

-- An array literal and an object literal.
abbrev pub array : List Value → Value
array vs = arr (items_of vs)

abbrev pub object : List (String × Value) → Value
object es = obj (fields_of es)

abbrev pub get_field : String → Fields → Value
get_field k no_field = undefined
get_field k (field j v fs) = if str_eq j k then v else get_field k fs

-- `value?.k`.
unfoldable pub get : String → Value → Value
get k (obj fs) = get_field k fs
get k v = undefined

abbrev put_field : String → Value → Fields → Fields
put_field k w no_field = field k w no_field
put_field k w (field j v fs) = if str_eq j k then field j w fs else field j v (put_field k w fs)

-- `value[k] = w` on a clone of `value`.
unfoldable pub put : String → Value → Value → Value
put k w (obj fs) = obj (put_field k w fs)
put k w v = v

abbrev drop_field : String → Fields → Fields
drop_field k no_field = no_field
drop_field k (field j v fs) = if str_eq j k then drop_field k fs else field j v (drop_field k fs)

-- `delete value[k]` on a clone of `value`.
unfoldable pub remove : String → Value → Value
remove k (obj fs) = obj (drop_field k fs)
remove k v = v

-- `Object.assign(value, updates)`.
unfoldable pub assign : List (String × Value) → Value → Value
assign [] v = v
assign ((k, w) ∷ es) v = assign es (put k w v)

-- `a === b`. Two objects read from different places are different objects.
unfoldable pub strict_eq : Value → Value → Bool
strict_eq undefined undefined = true
strict_eq null null = true
strict_eq (bool true) (bool true) = true
strict_eq (bool false) (bool false) = true
strict_eq (num m) (num n) = m == n
strict_eq (neg m) (neg n) = m == n
strict_eq (frac s) (frac t) = str_eq s t
strict_eq (str s) (str t) = str_eq s t
strict_eq _ _ = false

-- `Boolean(value)`.
unfoldable pub truthy : Value → Bool
truthy undefined = false
truthy null = false
truthy (bool b) = b
truthy (num n) = not (n == 0)
truthy (str s) = not (str_eq s "")
truthy _ = true

unfoldable pub is_array : Value → Bool
is_array (arr vs) = true
is_array v = false

unfoldable pub is_string : Value → Bool
is_string (str s) = true
is_string v = false

-- `Number.isInteger(value) && value >= 1`.
unfoldable pub is_positive : Value → Bool
is_positive (num n) = not (n == 0)
is_positive v = false

-- `Number.isInteger(value)`.
unfoldable pub is_integer : Value → Bool
is_integer (num n) = true
is_integer (neg n) = true
is_integer v = false

-- The elements that `for (const x of value || [])` visits on an array or a missing value.
unfoldable pub elements : Value → List Value
elements (arr vs) = items vs
elements v = []

-- `array.includes(value)`.
unfoldable pub includes : List Value → Value → Bool
includes [] v = false
includes (w ∷ ws) v = if strict_eq w v then true else includes ws v

-- `(value || []).length !== 0`.
unfoldable pub has_length : Value → Bool
has_length (arr nil) = false
has_length (arr (cons v vs)) = true
has_length (obj fs) = not (strict_eq (get_field "length" fs) (num 0))
has_length v = truthy v

-- `value + 1` on a number.
unfoldable pub plus_one : Value → Value
plus_one (num n) = num (n + 1)
plus_one (neg zero) = num 0
plus_one (neg (suc n)) = neg n
plus_one v = v

-- `String(value)`.
abbrev mutual
  pub to_text : Value → String
  to_text undefined = "undefined"
  to_text null = "null"
  to_text (bool true) = "true"
  to_text (bool false) = "false"
  to_text (num n) = decimal n
  to_text (neg n) = template ("-" ∷ decimal (n + 1) ∷ [])
  to_text (frac t) = t
  to_text (str s) = s
  to_text (arr vs) = join "," (to_texts vs)
  to_text (obj fs) = "[object Object]"

  pub to_texts : Items → List String
  to_texts nil = []
  to_texts (cons null vs) = "" ∷ to_texts vs
  to_texts (cons undefined vs) = "" ∷ to_texts vs
  to_texts (cons v vs) = to_text v ∷ to_texts vs
