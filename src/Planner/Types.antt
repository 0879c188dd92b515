-- ===== src/Planner/Types.antt =====
-- scripts/lib/runtime/transition-planner-common.mjs: the prepared predecessor that a planner reads, and
-- the plan that it returns (`failedPlan`, `successfulPlan`).
use ev4_builder_assistant_re.Base.{
  ℕ, String, List, [], ◌∷◌, Option, none, some, map, true, ◌≡◌, refl, is_empty, if◌then◌else◌,
}
use ev4_builder_assistant_re.Json.{Value, bool, str, object, array, get}
use ev4_builder_assistant_re.Publication.{Operation, Refs, expected_publication_files}

-- An evidence snapshot as `preparePlanningPredecessor` read it: its reference, and the bytes with the
-- value that they parse to, or nothing when the file is missing, unsafe or malformed.
pub record EvidenceEntry : Type 0 where
  pub ref : String
  pub content : Option (String × Value)

-- `planning`: the diagnostics of the preparation, those of the full derivation where the operation makes
-- one, and the canonical artifacts read (`null` when unreadable).
pub record Planning : Type 0 where
  pub diagnostics : List String
  pub full_derivation : Option (List String)
  pub emit_result : Value
  pub confirmation_receipt : Value
  pub confirmation_result : Value
  pub evidence_entries : List EvidenceEntry

-- A loaded run; `generation` is `current.generation`, which `validateCurrentPointer` holds to a number.
pub record Predecessor : Type 0 where
  pub manifest : Value
  pub context : Value
  pub session : Value
  pub checkpoint : Value
  pub generation : ℕ
  pub planning : Planning

pub data Content : Type 0 where
  json : Value → Content
  bytes : String → Content

pub record AuxiliaryFile : Type 0 where
  pub ref : String
  pub content : Content

pub record Successor : Type 0 where
  pub operation : Operation
  pub context : Value
  pub session : Value
  pub checkpoint : Value
  pub manifest_updates : List (String × Value)
  pub result : Value
  pub auxiliary_files : List AuxiliaryFile
  pub refs : Refs

-- `thrown` is an exception: the executor turns it into a blocked outcome.
pub data Plan : Type 0 where
  failed : List String → Plan
  thrown : Plan
  planned : Successor → Plan

-- `derivation?.diagnostics || planning?.diagnostics || []`.
unfoldable pub preparation_diagnostics : Planning → List String
preparation_diagnostics p = elim (p.full_derivation) [ none ↦ p.diagnostics | some ds ↦ ds ]

-- `{ checkpoint_id, checkpoint_sequence }` of the predecessor.
unfoldable pub predecessor_entry : Value → Value
predecessor_entry checkpoint = object (
    ("checkpoint_id", get "checkpoint_id" checkpoint)
    ∷ ("checkpoint_sequence", get "checkpoint_sequence" checkpoint)
    ∷ [])

-- `{ checkpoint_id, checkpoint_sequence, parent_checkpoint_id }` of the successor.
unfoldable pub resulting_entry : Value → Value
resulting_entry checkpoint = object (
    ("checkpoint_id", get "checkpoint_id" checkpoint)
    ∷ ("checkpoint_sequence", get "checkpoint_sequence" checkpoint)
    ∷ ("parent_checkpoint_id", get "parent_checkpoint_id" checkpoint)
    ∷ [])

-- `{ atomic: true, files: expectedPublicationFiles(operation, refs) }`.
unfoldable pub publication_entry : Operation → Refs → Value
publication_entry operation refs = object (
    ("atomic", bool true)
    ∷ ("files", array (map str (expected_publication_files operation refs)))
    ∷ [])

abbrev pub action_ids : Value → Value
action_ids context = get "action_ids" (get "action_batch" context)

abbrev pub action_digests : Value → Value
action_digests context = get "action_digests" (get "action_batch" context)

abbrev pub batch_id : Value → Value
batch_id context = get "batch_id" (get "action_batch" context)

-- A planner's last step: the successor stands only if the check of its result finds nothing.
abbrev pub checked_plan : List String → Successor → Plan
checked_plan problems s = if is_empty problems then planned s else failed problems

pub checked_plan-planned :
    (problems : List String) (s t : Successor)
    → checked_plan problems s ≡ planned t
    → (problems ≡ []) × (s ≡ t)
checked_plan-planned [] s t h = (refl, cc)
checked_plan-planned (x ∷ xs) s t h = cc
