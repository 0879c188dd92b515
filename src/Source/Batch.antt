-- ===== src/Source/Batch.antt =====
-- `batchIdentity` of scripts/lib/builder-explicit-source-runtime.mjs: the batch that the ids of the actions name.
use ev4_builder_assistant_re.Base.{
  ℕ, ◌==◌, leb, String, Bool, not, ◌&&◌, ◌||◌, List, [], ◌∷◌, map, length, every, exists, is_empty,
  codes, take_text, str_eq, Option, none, some, if◌then◌else◌, ◌≡◌, inl, inr, Bool-cases,
}
use mathlib.Core.Option
use mathlib.Core.Option.{some-injective}
use ev4_builder_assistant_re.Canonical.{canonical_digest}
use ev4_builder_assistant_re.Json.{Value, str, object, array, get, elements, is_array}
use ev4_builder_assistant_re.Json.Laws.{IsText}
use ev4_builder_assistant_re.Primitives.Blockers.{distinct_texts, nonempty_texts}
use ev4_builder_assistant_re.Validation.Manifest.{is_name}

abbrev is_digit : ℕ → Bool
is_digit c = leb 48 c && leb c 57

-- The characters that `.` does not match.
abbrev ends_line : ℕ → Bool
ends_line c = c == 10 || (c == 13 || (c == 8232 || c == 8233))

unfoldable pub backwards : List ℕ → List ℕ → List ℕ
backwards done [] = done
backwards done (c ∷ cs) = backwards (c ∷ done) cs

unfoldable pub drop_digits : List ℕ → List ℕ
drop_digits [] = []
drop_digits (c ∷ cs) = if is_digit c then drop_digits cs else c ∷ cs

-- What is before `-A`, backwards.
unfoldable pub before_mark : List ℕ → Option (List ℕ)
before_mark (a ∷ dash ∷ cs) =
    if (a == 65 && dash == 45) && (not (is_empty cs) && not (exists ends_line cs))
    then some cs
    else none
before_mark _ = none

-- `value.match(/^(.+)-A\d+$/)?.[1] ?? null`.
unfoldable pub batch_prefix : String → Option String
batch_prefix id =
    let text = backwards [] (codes id) in
    let rest = drop_digits text in
    if length rest == length text
    then none
    else elim (before_mark rest) [ none ↦ none | some front ↦ some (take_text (length front) id) ]

unfoldable pub prefixes_of : List String → Option (List String)
prefixes_of [] = some []
prefixes_of (id ∷ ids) = elim (batch_prefix id) [
  | none ↦ none
  | some first ↦ Option.map (λ rest. first ∷ rest) (prefixes_of ids)
]

-- The one prefix of a set of size 1.
unfoldable pub single : List String → Option String
single [] = none
single (p ∷ ps) = if every (str_eq p) ps then some p else none

abbrev ids_of_actions : List Value → List Value
ids_of_actions actions = map (get "action_id") actions

unfoldable pub one_of : Option (List String) → Option String
one_of none = none
one_of (some prefixes) = single prefixes

unfoldable pub one_batch : List String → Option String
one_batch ids = if length (distinct_texts ids) == length ids then one_of (prefixes_of ids) else none

unfoldable pub digest_fields : (String → String) → List Value → List String → List (String × Value)
digest_fields sha256 (action ∷ actions) (id ∷ ids) =
    (id, str (canonical_digest sha256 action)) ∷ digest_fields sha256 actions ids
digest_fields sha256 _ _ = []

module _ (sha256 : String → String) where
  unfoldable pub identity_of : List Value → List String → Option String → Option Value
  identity_of actions ids none = none
  identity_of actions ids (some batch) = some (
      object (
        ("batch_id", str batch)
        ∷ ("action_ids", array (map str ids))
        ∷ ("action_digests", object (digest_fields sha256 actions ids))
        ∷ []))

  -- `none` is an exception.
  unfoldable pub batch_identity : Value → Option Value
  batch_identity builder_package =
      let list = get "actions" (get "first_builder_batch" builder_package) in
      let actions = elements list in
      let ids = nonempty_texts (ids_of_actions actions) in
      if (is_array list && not (is_empty actions)) && every is_name (ids_of_actions actions)
      then identity_of actions ids (one_batch ids)
      else none

  identity_of-IsText :
      (actions : List Value) (ids : List String) (o : Option String) (v : Value)
      → identity_of actions ids o ≡ some v
      → IsText (get "batch_id" v)
  unfolding identity_of get
  identity_of-IsText actions ids none v h = absurd (cc h)
  identity_of-IsText actions ids (some batch) v h = rw (← some-injective _ _ h) tt

  -- The batch of an identity is named by a text.
  pub batch_identity-IsText : (p v : Value) → batch_identity p ≡ some v → IsText (get "batch_id" v)
  unfolding batch_identity
  batch_identity-IsText p v h =
      let list = get "actions" (get "first_builder_batch" p) in
      elim (Bool-cases (
        (is_array list && not (is_empty (elements list)))
        && every is_name (ids_of_actions (elements list)))) [
          | inl good ↦ identity_of-IsText _ _ _ v (rw (batch_identity, good) at h)
          | inr bad ↦ absurd (cc (rw (batch_identity, bad) at h))
        ]
