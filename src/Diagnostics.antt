-- ===== src/Diagnostics.antt =====
-- The diagnostics that the validators and planners collect: `diagnostic(code, message, detail)` of
-- scripts/lib/runtime/run-primitives.mjs, kept as its code. The texts of messages and details, which
-- no decision reads, are left out.
use ev4_builder_assistant_re.Base.{
  String, not, ◌||◌, arith, not-eq-false, Bool, true, false, List, [], ◌∷◌, ◌≡◌, refl, ◌↔◌,
  if◌then◌else◌, All,
}

-- `if (condition) diagnostics.push(diagnostic(code, …))`.
abbrev pub Check : Type 0
Check = Bool × String

infix 20 ◌reports◌
abbrev pub ◌reports◌ : Bool → String → Check
b reports code = (b, code)

-- The codes of the checks whose condition holds, in the order of the checks.
unfoldable pub failures : List Check → List String
failures [] = []
failures ((b, code) ∷ cs) = if b then code ∷ failures cs else failures cs

abbrev pub Clear : Check → Type 0
Clear c = c.0 ≡ false

failures_of :
    (b : Bool) (code : String) (cs : List Check)
    → failures ((b, code) ∷ cs) ≡ []
    → (b ≡ false) × (failures cs ≡ [])
unfolding failures
failures_of true code cs h = cc
failures_of false code cs h = (refl, h)

failures_clear : (cs : List Check) → failures cs ≡ [] → All Clear cs
failures_clear [] h = tt
failures_clear ((b, code) ∷ cs) h =
    let (here, later) = failures_of b code cs h in (here, failures_clear cs later)

failures_none : (cs : List Check) → All Clear cs → failures cs ≡ []
unfolding failures
failures_none [] h = refl
failures_none ((true, code) ∷ cs) h = cc (h.0)
failures_none ((false, code) ∷ cs) h = failures_none cs h.1

-- No diagnostic is collected exactly when no condition holds.
pub failures-eq-nil : (cs : List Check) → (failures cs ≡ []) ↔ All Clear cs
failures-eq-nil cs = (failures_clear cs, failures_none cs)

-- Conditions that do not hold.
pub passes : (b : Bool) → b ≡ true → not b ≡ false
passes b h = ground arith

pub passed : (b : Bool) → not b ≡ false → b ≡ true
passed b h = not-eq-false b h

pub neither : (a b : Bool) → a ≡ false → b ≡ false → (a || b) ≡ false
neither a b h k = ground arith
