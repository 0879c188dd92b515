-- ===== src/Primitives/Blockers.antt =====
-- `collectActiveBlockers` of scripts/lib/runtime/run-primitives.mjs: what still blocks a run.
use ev4_builder_assistant_re.Base.{
  String, Bool, true, false, ◌≡◌, refl, arith, ◌||◌, List, [], ◌∷◌, ◌++◌, map, str_eq,
  if◌then◌else◌, keep,
}
use ev4_builder_assistant_re.Base.Order.{sort_text}
use ev4_builder_assistant_re.Canonical.{json_text}
use ev4_builder_assistant_re.Json.{Value, arr, array, str, get, truthy, elements, strict_eq}

-- `['not_checked', 'insufficient_evidence'].includes(entry?.status)`.
is_unresolved : Value → Bool
is_unresolved entry =
    strict_eq (get "status" entry) (str "not_checked")
    || strict_eq (get "status" entry) (str "insufficient_evidence")

-- `v || w`.
abbrev pub js_or : Value → Value → Value
js_or v w = if truthy v then v else w

-- A missing list has no elements.
pub elements-js_or : (v : Value) → elements (js_or v (array [])) ≡ elements v
unfolding elements truthy
elements-js_or (arr vs) = refl
elements-js_or Value.undefined = refl
elements-js_or Value.null = refl
elements-js_or (Value.bool true) = refl
elements-js_or (Value.bool false) = refl
elements-js_or (Value.num n) = ground arith
elements-js_or (Value.neg n) = refl
elements-js_or (Value.frac t) = refl
elements-js_or (str s) = ground arith
elements-js_or (Value.obj fs) = refl

assertion_blocker : Value → Value
assertion_blocker entry =
    js_or (get "assertion_id" entry) (js_or (get "subject_ref" entry) (str "unresolved_assertion"))

-- `values.filter((entry) => typeof entry === 'string' && entry)`.
unfoldable pub nonempty_texts : List Value → List String
nonempty_texts [] = []
nonempty_texts (str s ∷ vs) = if str_eq s "" then nonempty_texts vs else s ∷ nonempty_texts vs
nonempty_texts (v ∷ vs) = nonempty_texts vs

without : String → List String → List String
without s [] = []
without s (t ∷ ts) = if str_eq s t then without s ts else t ∷ without s ts

-- `[...new Set(texts)]`.
unfoldable pub distinct_texts : List String → List String
unfolding without
distinct_texts [] = []
distinct_texts (t ∷ ts) = t ∷ without t (distinct_texts ts)

unfoldable pub blocker_values : Value → Value → List Value
unfolding is_unresolved assertion_blocker
blocker_values session checkpoint =
    elements (get "unresolved_evidence" session)
    ++ (elements (get "unresolved_blockers" checkpoint)
        ++ map assertion_blocker (keep is_unresolved (elements (get "assertions" checkpoint))))

unfoldable pub collect_active_blockers : Value → Value → List String
unfolding distinct_texts
collect_active_blockers session checkpoint =
    sort_text (distinct_texts (nonempty_texts (blocker_values session checkpoint)))

-- `typeof entry === 'string' ? entry : entry?.code || entry?.id || JSON.stringify(entry)`.
initial_blocker : Value → Value
initial_blocker (str s) = str s
initial_blocker entry = js_or (get "code" entry) (js_or (get "id" entry) (str (json_text entry)))

-- A code or an id that is no text is not kept here; the schemas of the package admit texts only.
unfoldable pub collect_initial_blockers : Value → List String
unfolding distinct_texts initial_blocker
collect_initial_blockers builder_package = sort_text (
    distinct_texts (
      nonempty_texts (
        map initial_blocker (
          elements (get "blocking_diagnostics" (get "input_authorization" builder_package))
          ++ elements (get "unresolved_blockers" builder_package)))))
