-- ===== src/Primitives/Names.antt =====
-- The names of generations, checkpoints and transitions: `generationName`, `generationRef`,
-- `timestampForSequence`, `HASH` and `GENERATION_NAME` of scripts/lib/runtime/run-primitives.mjs.
use ev4_builder_assistant_re.Base.{
  ℕ, ◌+◌, ◌-◌, ◌*◌, ◌/◌, ◌%◌, String, Bool, ◌&&◌, ◌||◌, List, [], ◌∷◌, Option, none, some, leb, ltb,
  ◌==◌, if◌then◌else◌, length, every, codes, template, decimal, pad_start,
}
use ev4_builder_assistant_re.Json.{Value, num}

abbrev pub max_generation : ℕ
max_generation = 999999

-- `none` is the `Invalid generation number` error.
unfoldable pub generation_name : ℕ → Option String
generation_name n = if ltb n 1 || ltb max_generation n then none else some (pad_start 6 (decimal n))

unfoldable pub generation_ref : ℕ → Option String
unfolding generation_name
generation_ref n = elim (generation_name n) [
  | none ↦ none
  | some name ↦ some (template ("generations/" ∷ name ∷ []))
]

abbrev is_digit : ℕ → Bool
is_digit c = leb b'0' c && leb c b'9'

abbrev is_hex : ℕ → Bool
is_hex c = is_digit c || leb b'a' c && leb c b'f'

-- `GENERATION_NAME`, the expression /^\d{6}$/.
unfoldable pub is_generation_name : String → Bool
is_generation_name s = length (codes s) == 6 && every is_digit (codes s)

-- `HASH`, the expression /^[a-f0-9]{64}$/.
unfoldable pub is_hash : String → Bool
is_hash s = length (codes s) == 64 && every is_hex (codes s)

-- The number that decimal digits stand for, after the number `acc`.
unfoldable pub parse_onto : ℕ → List ℕ → ℕ
parse_onto acc [] = acc
parse_onto acc (c ∷ cs) = parse_onto (acc * 10 + (c - b'0')) cs

-- `Number.parseInt(name, 10)` on decimal digits.
unfoldable pub parse_int : String → ℕ
unfolding parse_onto
parse_int s = parse_onto 0 (codes s)

-- The day of the year 1970 and later as year, month and day, counted in eras of 400 years that
-- begin in March.
abbrev date_text : ℕ → String
date_text days =
    let z = days + 719468 in
    let era = z / 146097 in
    let day = z % 146097 in
    let year = (day - day / 1460 + day / 36524 - day / 146096) / 365 in
    let of_year = day - (365 * year + year / 4 - year / 100) in
    let month = (5 * of_year + 2) / 153 in
    let of_month = of_year - (153 * month + 2) / 5 + 1 in
    let calendar_month = if ltb month 10 then month + 3 else month - 9 in
    let calendar_year = year + era * 400 + (if leb calendar_month 2 then 1 else 0) in
    template (
      pad_start 4 (decimal calendar_year)
      ∷ "-"
      ∷ pad_start 2 (decimal calendar_month)
      ∷ "-"
      ∷ pad_start 2 (decimal of_month)
      ∷ [])

-- `new Date(seconds * 1000).toISOString()`.
iso_text : ℕ → String
iso_text seconds =
    let rest = seconds % 86400 in
    template (
      date_text (seconds / 86400)
      ∷ "T"
      ∷ pad_start 2 (decimal (rest / 3600))
      ∷ ":"
      ∷ pad_start 2 (decimal (rest / 60 % 60))
      ∷ ":"
      ∷ pad_start 2 (decimal (rest % 60))
      ∷ ".000Z"
      ∷ [])

-- A sequence that is no natural number has the time of sequence 1, as a negative one has.
unfoldable pub timestamp_for_sequence : Value → String
unfolding iso_text
timestamp_for_sequence (num n) = iso_text (n - 1)
timestamp_for_sequence v = iso_text 0
