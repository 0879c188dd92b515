-- ===== src/Store/Directory.antt =====
-- The run directory as the store reads and writes it: `stableJson` of scripts/lib/runtime/run-primitives.mjs, and
-- `entryBytes`, `writeAuxiliaryFiles` and `listFutureGenerations` of scripts/lib/runtime/run-state-store.mjs.
-- Files are texts by their references; references that leave the directory, which `safeRunRef` refuses, do not
-- occur among those that the planners write.
use ev4_builder_assistant_re.Base.{
  ℕ, suc, zero, String, Bool, true, false, List, [], ◌∷◌, map, keep, Option, none, some, template,
  join, str_eq, ltb, leb, ◌==◌, if◌then◌else◌,
}
use ev4_builder_assistant_re.Canonical.{quote, json_text}
use ev4_builder_assistant_re.Json.{
  Value, undefined, arr, obj, Items, nil, cons, Fields, no_field, field,
}
use ev4_builder_assistant_re.Planner.Types.{AuxiliaryFile, Content, json, bytes}

indentation : ℕ → String
indentation zero = ""
indentation (suc n) = template ("  " ∷ indentation n ∷ [])

-- The lines of an array or an object, indented, between its brackets.
bracketed : ℕ → String → String → List String → String
unfolding indentation
bracketed depth left right [] = template (left ∷ right ∷ [])
bracketed depth left right (line ∷ lines) = template (
    left
    ∷ "\n"
    ∷ indentation (suc depth)
    ∷ join (template (",\n" ∷ indentation (suc depth) ∷ [])) (line ∷ lines)
    ∷ "\n"
    ∷ indentation depth
    ∷ right
    ∷ [])

-- `JSON.stringify(value, null, 2)`, at a depth.
unfoldable mutual
  unfolding bracketed

  pub indented_text : ℕ → Value → String
  indented_text depth (arr vs) = bracketed depth "[" "]" (indented_items (suc depth) vs)
  indented_text depth (obj fs) = bracketed depth "{" "}" (indented_fields (suc depth) fs)
  indented_text depth v = json_text v

  indented_items : ℕ → Items → List String
  indented_items depth nil = []
  indented_items depth (cons undefined vs) = "null" ∷ indented_items depth vs
  indented_items depth (cons v vs) = indented_text depth v ∷ indented_items depth vs

  indented_fields : ℕ → Fields → List String
  indented_fields depth no_field = []
  indented_fields depth (field k undefined fs) = indented_fields depth fs
  indented_fields depth (field k v fs) =
      template (quote k ∷ ": " ∷ indented_text depth v ∷ []) ∷ indented_fields depth fs

unfoldable pub stable_json : Value → String
stable_json v = template (indented_text 0 v ∷ "\n" ∷ [])

unfoldable pub entry_bytes : Content → String
entry_bytes (bytes s) = s
entry_bytes (json v) = stable_json v

-- The files of one generation; a missing one is `none`.
pub record GenerationFiles : Type 0 where
  pub manifest : Option String
  pub context : Option String
  pub session : Option String
  pub checkpoint : Option String

pub record Directory : Type 0 where
  pub current : Option String
  pub generations : List (ℕ × GenerationFiles)
  pub files : List (String × String)

unfoldable pub find_file : String → List (String × String) → Option String
find_file ref [] = none
find_file ref ((r, text) ∷ files) = if str_eq r ref then some text else find_file ref files

unfoldable pub find_generation : ℕ → List (ℕ × GenerationFiles) → Option GenerationFiles
find_generation n [] = none
find_generation n ((m, g) ∷ gs) = if m == n then some g else find_generation n gs

-- The files after the write, and whether a file with other bytes stopped it. What was created before stays.
pub record AuxiliaryWrite : Type 0 where
  pub files : List (String × String)
  pub conflict : Bool

unfoldable pub write_auxiliary_files : List (String × String) → List AuxiliaryFile → AuxiliaryWrite
write_auxiliary_files files [] = record { files = files; conflict = false }
write_auxiliary_files files (entry ∷ entries) =
    let expected = entry_bytes entry.content in
    let reused = write_auxiliary_files files entries in
    let created = write_auxiliary_files ((entry.ref, expected) ∷ files) entries in
    elim (find_file entry.ref files) [
      | none ↦ created
      | some actual ↦
          if str_eq actual expected then reused else record { files = files; conflict = true }
    ]

insert_number : ℕ → List ℕ → List ℕ
insert_number n [] = n ∷ []
insert_number n (m ∷ ms) = if leb n m then n ∷ m ∷ ms else m ∷ insert_number n ms

sort_numbers : List ℕ → List ℕ
unfolding insert_number
sort_numbers [] = []
sort_numbers (n ∷ ns) = insert_number n (sort_numbers ns)

later_numbers : ℕ → List (ℕ × GenerationFiles) → List ℕ
later_numbers active gs = keep (ltb active) (map (λ (g : ℕ × GenerationFiles). g.0) gs)

unfoldable pub list_future_generations : Directory → ℕ → List ℕ
unfolding sort_numbers later_numbers
list_future_generations d active = sort_numbers (later_numbers active d.generations)
