-- ===== src/Base/Text.antt =====
-- Texts built from parts, decimal numerals and padding.
use Prim.Native.Nat.{ℕ, zero, suc, ◌-◌, ◌/◌, ◌%◌}
use Prim.Native.Char.{code}
use Prim.Native.String.{String, count, ◌++◌ as append}
use Prim.Native.String.append
use mathlib.Core.Path.{◌≡◌, ap, ◌∙◌}
use mathlib.Core.List.{List, [], ◌∷◌, ◌++◌, map}
use ev4_builder_assistant_re.Base.Tests.{ltb, if◌then◌else◌}

-- A template literal: its parts, one after the other.
abbrev pub template : List String → String
template [] = ""
template (s ∷ ss) = append s (template ss)

-- `Array.prototype.join`.
abbrev pub join : String → List String → String
join sep [] = ""
join sep (s ∷ []) = s
join sep (s ∷ t ∷ ss) = append s (append sep (join sep (t ∷ ss)))

-- The code points of a text. `String` has its own `[]` and `∷`.
abbrev pub codes : String → List ℕ
codes String.[] = []
codes (String.◌∷◌ c s) = code c ∷ codes s

abbrev digit_text : ℕ → String
digit_text zero = "0"
digit_text (suc zero) = "1"
digit_text (suc (suc zero)) = "2"
digit_text (suc (suc (suc zero))) = "3"
digit_text (suc (suc (suc (suc zero)))) = "4"
digit_text (suc (suc (suc (suc (suc zero))))) = "5"
digit_text (suc (suc (suc (suc (suc (suc zero)))))) = "6"
digit_text (suc (suc (suc (suc (suc (suc (suc zero))))))) = "7"
digit_text (suc (suc (suc (suc (suc (suc (suc (suc zero)))))))) = "8"
digit_text _ = "9"

-- The decimal digits of `n` before `acc`, most significant first. Fuel above `n` is enough, since
-- each round divides `n` by ten.
unfoldable pub digits_onto : ℕ → ℕ → List ℕ → List ℕ
digits_onto zero n acc = acc
digits_onto (suc fuel) n acc =
    let rest = digits_onto fuel (n / 10) ((n % 10) ∷ acc) in if ltb n 10 then n ∷ acc else rest

unfoldable pub digits : ℕ → List ℕ
unfolding digits_onto
digits n = digits_onto (suc n) n []

-- `String(n)` of a natural number.
unfoldable pub decimal : ℕ → String
unfolding digits
decimal n = template (map digit_text (digits n))

zeros : ℕ → String
zeros zero = ""
zeros (suc n) = append "0" (zeros n)

-- `text.padStart(width, '0')`.
unfoldable pub pad_start : ℕ → String → String
unfolding zeros
pad_start width s = append (zeros (width - count s)) s

-- `text.slice(0, n)`.
unfoldable pub take_text : ℕ → String → String
take_text zero s = ""
take_text (suc n) String.[] = ""
take_text (suc n) (String.◌∷◌ c s) = String.◌∷◌ c (take_text n s)

-- `text.slice(n)`.
unfoldable pub drop_text : ℕ → String → String
drop_text zero s = s
drop_text (suc n) String.[] = ""
drop_text (suc n) (String.◌∷◌ c s) = drop_text n s

pub codes-append : (s t : String) → codes (append s t) ≡ codes s ++ codes t
codes-append String.[] t = ap codes (append.nil t)
codes-append (String.◌∷◌ c s) t =
    ap codes (append.cons c s t) ∙ ap (◌∷◌ (code c)) (codes-append s t)
