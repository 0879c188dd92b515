-- ===== src/Source/Synthetic.antt =====
-- `scanSynthetic` of scripts/lib/builder-explicit-source-runtime.mjs: where a package has fixture content.
use ev4_builder_assistant_re.Base.{
  ℕ, suc, ◌+◌, ◌==◌, leb, String, Bool, true, false, ◌&&◌, ◌||◌, List, [], ◌∷◌, ◌++◌, map, codes,
  decimal, template, str_eq, if◌then◌else◌,
}
use ev4_builder_assistant_re.Json.{
  Value, bool, str, obj, arr, Fields, Items, field, no_field, cons, nil, strict_eq,
}

-- The `i` flag, on the letters of the patterns.
abbrev lower : ℕ → ℕ
lower c = if leb 65 c && leb c 90 then c + 32 else c

abbrev folded : String → List ℕ
folded s = map lower (codes s)

unfoldable pub starts_with : List ℕ → List ℕ → Bool
starts_with [] cs = true
starts_with (p ∷ ps) [] = false
starts_with (p ∷ ps) (c ∷ cs) = p == c && starts_with ps cs

unfoldable pub occurs_in : List ℕ → List ℕ → Bool
occurs_in ps [] = starts_with ps []
occurs_in ps (c ∷ cs) = starts_with ps (c ∷ cs) || occurs_in ps cs

-- `/synthetic|fixture|test/i`.
unfoldable pub names_fixture : Value → Bool
names_fixture (str s) =
    occurs_in (codes "synthetic") (folded s)
    || (occurs_in (codes "fixture") (folded s) || occurs_in (codes "test") (folded s))
names_fixture v = false

-- `/^(synthetic_validation_only|test-fixture(?::|$))/i`.
unfoldable pub is_fixture_text : Value → Bool
is_fixture_text (str s) =
    starts_with (codes "synthetic_validation_only") (folded s)
    || (starts_with (codes "test-fixture:") (folded s)
        || starts_with (codes "test-fixture") (folded s)
          && starts_with (folded s) (codes "test-fixture"))
is_fixture_text v = false

abbrev found : Bool → String → List String
found b location = if b then location ∷ [] else []

unfoldable pub own_findings : String → String → Value → List String
own_findings location key entry =
    found (str_eq key "fixture_classification" && names_fixture entry) location
    ++ (found (str_eq key "synthetic" && strict_eq entry (bool true)) location
        ++ found (is_fixture_text entry) location)

unfoldable mutual
  pub scan_synthetic : String → Value → List String
  scan_synthetic location (arr vs) = scan_items location 0 vs
  scan_synthetic location (obj fs) = scan_fields location fs
  scan_synthetic location v = []

  scan_items : String → ℕ → Items → List String
  scan_items location n nil = []
  scan_items location n (cons v vs) =
      scan_synthetic (template (location ∷ "[" ∷ decimal n ∷ "]" ∷ [])) v
      ++ scan_items location (suc n) vs

  scan_fields : String → Fields → List String
  scan_fields location no_field = []
  scan_fields location (field k v fs) =
      own_findings (template (location ∷ "." ∷ k ∷ [])) k v
      ++ (scan_synthetic (template (location ∷ "." ∷ k ∷ [])) v ++ scan_fields location fs)
