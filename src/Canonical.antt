-- ===== src/Canonical.antt =====
-- scripts/lib/canonical-builder-package.mjs: the canonical JSON text of a value, with the keys of every
-- object sorted, and the digests taken of it. SHA-256 (Node's crypto) is a parameter.
use Prim.Native.Char.{code, Char}
use Prim.Native.String.{◌++◌ as append}
use ev4_builder_assistant_re.Base.{
  ℕ, ◌+◌, ◌/◌, ◌%◌, String, true, false, List, [], ◌∷◌, map, ◌==◌, ltb, if◌then◌else◌, template,
  join, decimal,
}
use ev4_builder_assistant_re.Base.Order.{text_le}
use ev4_builder_assistant_re.Json.{
  Value, undefined, null, bool, num, neg, frac, str, arr, obj, Items, nil, cons, Fields, no_field,
  field, remove,
}

hex_digit : ℕ → String
hex_digit n =
    if ltb n 10
    then decimal n
    else if n == 10
    then "a"
    else if n == 11
    then "b"
    else if n == 12
    then "c"
    else if n == 13
    then "d"
    else if n == 14
    then "e"
    else "f"

-- One character as `JSON.stringify` writes it.
escape_char : Char → String
unfolding hex_digit
escape_char c =
    if code c == 34
    then "\\\""
    else if code c == 92
    then "\\\\"
    else if code c == 8
    then "\\b"
    else if code c == 9
    then "\\t"
    else if code c == 10
    then "\\n"
    else if code c == 12
    then "\\f"
    else if code c == 13
    then "\\r"
    else if ltb (code c) 32
    then template ("\\u00" ∷ hex_digit (code c / 16) ∷ hex_digit (code c % 16) ∷ [])
    else String.◌∷◌ c ""

escape : String → String
unfolding escape_char
escape String.[] = ""
escape (String.◌∷◌ c s) = append (escape_char c) (escape s)

-- `JSON.stringify` of a string.
unfoldable pub quote : String → String
unfolding escape
quote s = template ("\"" ∷ escape s ∷ "\"" ∷ [])

insert_pair : String → String → List (String × String) → List (String × String)
insert_pair k t [] = (k, t) ∷ []
insert_pair k t ((j, u) ∷ ps) =
    if text_le k j then (k, t) ∷ (j, u) ∷ ps else (j, u) ∷ insert_pair k t ps

sort_pairs : List (String × String) → List (String × String)
unfolding insert_pair
sort_pairs [] = []
sort_pairs ((k, t) ∷ ps) = insert_pair k t (sort_pairs ps)

abbrev pair_text : (String × String) → String
pair_text (k, t) = template (quote k ∷ ":" ∷ t ∷ [])

-- `undefined` is no JSON value: alone it compares with nothing but itself, and a template writes it
-- as it stands here; `join` leaves it out.
unfoldable mutual
  unfolding quote sort_pairs

  pub sorted_canonical_json : Value → String
  sorted_canonical_json undefined = "undefined"
  sorted_canonical_json null = "null"
  sorted_canonical_json (bool true) = "true"
  sorted_canonical_json (bool false) = "false"
  sorted_canonical_json (num n) = decimal n
  sorted_canonical_json (neg n) = template ("-" ∷ decimal (n + 1) ∷ [])
  sorted_canonical_json (frac t) = t
  sorted_canonical_json (str s) = quote s
  sorted_canonical_json (arr vs) = template ("[" ∷ join "," (canonical_items vs) ∷ "]" ∷ [])
  sorted_canonical_json (obj fs) =
      template ("{" ∷ join "," (map pair_text (sort_pairs (canonical_fields fs))) ∷ "}" ∷ [])

  canonical_items : Items → List String
  canonical_items nil = []
  canonical_items (cons undefined vs) = "" ∷ canonical_items vs
  canonical_items (cons v vs) = sorted_canonical_json v ∷ canonical_items vs

  canonical_fields : Fields → List (String × String)
  canonical_fields no_field = []
  canonical_fields (field k v fs) = (k, sorted_canonical_json v) ∷ canonical_fields fs

-- `JSON.stringify`, with the keys of objects as they stand.
unfoldable mutual
  unfolding quote

  pub json_text : Value → String
  json_text undefined = "undefined"
  json_text null = "null"
  json_text (bool b) = if b then "true" else "false"
  json_text (num n) = decimal n
  json_text (neg n) = template ("-" ∷ decimal (n + 1) ∷ [])
  json_text (frac t) = t
  json_text (str s) = quote s
  json_text (arr vs) = template ("[" ∷ join "," (json_items vs) ∷ "]" ∷ [])
  json_text (obj fs) = template ("{" ∷ join "," (json_fields fs) ∷ "}" ∷ [])

  json_items : Items → List String
  json_items nil = []
  json_items (cons undefined vs) = "null" ∷ json_items vs
  json_items (cons v vs) = json_text v ∷ json_items vs

  json_fields : Fields → List String
  json_fields no_field = []
  json_fields (field k undefined fs) = json_fields fs
  json_fields (field k v fs) = template (quote k ∷ ":" ∷ json_text v ∷ []) ∷ json_fields fs

module _ (sha256 : String → String) where
  -- `computeCanonicalDigest`.
  unfoldable pub canonical_digest : Value → String
  canonical_digest v = sha256 (sorted_canonical_json v)

  -- `digestWithout` of run-primitives.mjs: the digest of the value less one field.
  unfoldable pub digest_without : Value → String → String
  digest_without v k = canonical_digest (remove k v)
