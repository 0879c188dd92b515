-- ===== src/Replay/Inputs.antt =====
-- Which operation made a generation, and with which input: `operationCommitted`, `inferCommittedOperation`,
-- `recoverCommandInput`, `PLANNERS` and `plannerArguments` of scripts/lib/runtime/committed-transition-replay.mjs.
use ev4_builder_assistant_re.Base.{
  ◌+◌, String, Bool, false, not, ◌&&◌, ◌||◌, ◌==◌, List, [], ◌∷◌, Option, none, some, length,
  template, if◌then◌else◌,
}
use ev4_builder_assistant_re.Json.{
  Value, undefined, str, get, truthy, strict_eq, is_string, elements, to_text,
}
use ev4_builder_assistant_re.Publication.{
  Operation, real_intake, emit_batch, confirm_batch, attach_evidence, real_completion,
}
use ev4_builder_assistant_re.Planner.Types.{Predecessor, Plan, thrown}
use ev4_builder_assistant_re.Planner.Emit.{plan_emit}
use ev4_builder_assistant_re.Planner.Confirm.{plan_confirm}
use ev4_builder_assistant_re.Planner.Evidence.Attach.{plan_evidence}
use ev4_builder_assistant_re.Planner.Completion.Finish.{plan_completion}
use ev4_builder_assistant_re.Store.Directory.{find_file}

-- `commandInput`: the token of a confirmation, the bytes of the evidence and, in a replay, its reference.
pub record Input : Type 0 where
  pub user_token : Value
  pub evidence_bytes : String
  pub evidence_ref : Value

abbrev pub no_input : Input
no_input = record { user_token = undefined; evidence_bytes = ""; evidence_ref = undefined }

-- `list.at(-1)`.
unfoldable pub last_of : List Value → Value
last_of [] = undefined
last_of (v ∷ []) = v
last_of (v ∷ w ∷ vs) = last_of (w ∷ vs)

abbrev pub list_in : String → Value → List Value
list_in name manifest = elements (get name manifest)

abbrev pub changed : String → Value → Value → Bool
changed name active predecessor = not (strict_eq (get name active) (get name predecessor))

unfoldable pub evidence_committed : Value → Value → Input → Bool
evidence_committed active predecessor input =
    length (list_in "evidence_attachment_result_refs" active)
      == length (list_in "evidence_attachment_result_refs" predecessor) + 1
    && (length (list_in "evidence_snapshot_refs" active)
          == length (list_in "evidence_snapshot_refs" predecessor) + 1
        && not (
            truthy input.evidence_ref
            && not
                (strict_eq (last_of (list_in "evidence_snapshot_refs" active)) input.evidence_ref)))

unfoldable pub operation_committed : Value → Value → Operation → Input → Bool
operation_committed active predecessor emit_batch input =
    truthy (get "active_emit_result_ref" active)
    && changed "active_emit_result_ref" active predecessor
operation_committed active predecessor confirm_batch input =
    (truthy (get "active_confirmation_result_ref" active)
      && truthy (get "active_confirmation_receipt_ref" active))
    && (changed "active_confirmation_result_ref" active predecessor
        || changed "active_confirmation_receipt_ref" active predecessor)
operation_committed active predecessor attach_evidence input =
    evidence_committed active predecessor input
operation_committed active predecessor real_completion input =
    truthy (get "completion_result_ref" active)
    && changed "completion_result_ref" active predecessor
operation_committed active predecessor real_intake input = false

abbrev pub infers_completion : Value → Value → Bool
infers_completion active predecessor =
    changed "completion_result_ref" active predecessor
    && truthy (get "completion_result_ref" active)

abbrev pub infers_evidence : Value → Value → Bool
infers_evidence active predecessor =
    length (list_in "evidence_attachment_result_refs" active)
    == length (list_in "evidence_attachment_result_refs" predecessor) + 1

abbrev pub infers_confirmation : Value → Value → Bool
infers_confirmation active predecessor =
    changed "active_confirmation_result_ref" active predecessor
    && truthy (get "active_confirmation_result_ref" active)

abbrev pub infers_emit : Value → Value → Bool
infers_emit active predecessor =
    changed "active_emit_result_ref" active predecessor
    && truthy (get "active_emit_result_ref" active)

unfoldable pub infer_committed_operation : Value → Value → Option Operation
infer_committed_operation active predecessor =
    if infers_completion active predecessor
    then some real_completion
    else if infers_evidence active predecessor
    then some attach_evidence
    else if infers_confirmation active predecessor
    then some confirm_batch
    else if infers_emit active predecessor
    then some emit_batch
    else none

pub data Recovered : Type 0 where
  input_of : Input → Recovered
  unrecoverable : String → Recovered

abbrev auxiliary_of : Value → String
auxiliary_of ref = template ("auxiliary:" ∷ to_text ref ∷ [])

abbrev named_or : Value → String → String
named_or ref default =
    if truthy ref then auxiliary_of ref else template ("auxiliary:" ∷ default ∷ [])

-- The file that `safeRunRef` resolves a reference to.
unfoldable pub file_of : Value → List (String × String) → Option String
file_of (str ref) files = find_file ref files
file_of v files = none

receipt_schema : String
receipt_schema = "ev4-builder-confirmation-receipt@2.0.0"

module _ (parse : String → Option Value) where
  unfoldable pub recover_token : Value → Option Value → Recovered
  unfolding receipt_schema
  recover_token ref none = unrecoverable (auxiliary_of ref)
  recover_token ref (some receipt) =
      if strict_eq (get "schema" receipt) (str receipt_schema)
        && is_string (get "operator_token" receipt)
      then input_of (record {
        user_token = get "operator_token" receipt;
        evidence_bytes = "";
        evidence_ref = undefined;
      })
      else unrecoverable (auxiliary_of ref)

  unfoldable pub recover_command_input : List (String × String) → Value → Operation → Recovered
  recover_command_input files manifest confirm_batch =
      let ref = get "active_confirmation_receipt_ref" manifest in
      elim (file_of ref files) [
        | none ↦ unrecoverable (named_or ref "confirmation-receipt.json")
        | some text ↦ recover_token ref (parse text)
      ]
  recover_command_input files manifest attach_evidence =
      let ref = last_of (list_in "evidence_snapshot_refs" manifest) in
      elim (file_of ref files) [
        | none ↦ unrecoverable (named_or ref "evidence-snapshot")
        | some text ↦
            input_of (record { user_token = undefined; evidence_bytes = text; evidence_ref = ref })
      ]
  recover_command_input files manifest emit_batch = input_of no_input
  recover_command_input files manifest real_completion = input_of no_input
  recover_command_input files manifest real_intake = input_of no_input

  module _ (sha256 : String → String) where
    -- `PLANNERS[operation](plannerArguments(operation, prepared, commandInput))`.
    unfoldable pub run_planner : Operation → Predecessor → Input → Plan
    run_planner emit_batch p input = plan_emit sha256 p
    run_planner confirm_batch p input = plan_confirm sha256 p input.user_token
    run_planner attach_evidence p input =
        plan_evidence sha256 p input.evidence_bytes (parse input.evidence_bytes)
    run_planner real_completion p input = plan_completion sha256 p
    run_planner real_intake p input = thrown
