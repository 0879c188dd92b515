-- ===== src/Lifecycle/Phases.antt =====
-- The abstract life of a batch: drafted, issued to the operator, confirmed, finished. Every transition of
-- the runtime is a move of this machine.
use ev4_builder_assistant_re.Base.{
  ℕ, suc, String, Bool, true, false, List, ◌≡◌, ◌≢◌, refl, sym, ap, arith, inl, inr, Bool-cases,
  is_empty, if◌then◌else◌, and-eq-true, length, ==_iff, str_eq, codes, codes-append, str_eq_iff,
}
use ev4_builder_assistant_re.Json.{Value, str, arr, nil, cons, items, get, truthy, has_length}
use ev4_builder_assistant_re.Json.Laws.{last_write}
use ev4_builder_assistant_re.Primitives.Checkpoint.{
  build_active, waiting_for_confirmation, completed, build_checkpoint,
}
use ev4_builder_assistant_re.Primitives.Sets.{same_set}
use ev4_builder_assistant_re.Planner.Types.{Predecessor, Successor, action_ids}
use ev4_builder_assistant_re.Publication.{Refs}
use ev4_builder_assistant_re.Planner.Emit.{emit_successor, emit_checkpoint, emit_input}
use ev4_builder_assistant_re.Planner.Confirm.{
  confirm_successor, confirm_checkpoint, confirm_input, confirm_refs,
}
use ev4_builder_assistant_re.Planner.Evidence.Attach.{
  evidence_successor, evidence_checkpoint, evidence_input,
}
use ev4_builder_assistant_re.Planner.Completion.{Verified}
use ev4_builder_assistant_re.Planner.Completion.Finish.{
  completion_successor, completion_checkpoint, completion_input,
}

pub data Phase : Type 0 where
  drafted issued confirmed finished : Phase

pub data Moves : Phase → Phase → Type 0 where
  issuing : Moves drafted issued
  confirming : Moves issued confirmed
  attaching : Moves confirmed confirmed
  finishing : Moves confirmed finished

-- `n` moves from a draft.
pub data MovesTo : ℕ → Phase → Type 0 where
  ready : MovesTo 0 drafted
  onward : (n : ℕ) (φ ψ : Phase) → MovesTo n φ → Moves φ ψ → MovesTo (suc n) ψ

abbrev pub state_of : Predecessor → Value
state_of p = get "runtime_state" p.checkpoint

abbrev pub is_confirmed : Predecessor → Bool
is_confirmed p = truthy (get "active_confirmation_receipt_ref" p.manifest)

-- The phase of a run, as its checkpoint and its manifest tell it.
abbrev pub At : Phase → Predecessor → Type 0
At drafted p =
    (state_of p ≡ build_active)
    × (is_confirmed p ≡ false)
    × (has_length (get "confirmed_action_ids" p.checkpoint) ≡ false)
At issued p = (state_of p ≡ waiting_for_confirmation) × (is_confirmed p ≡ false)
At confirmed p = (state_of p ≡ build_active) × (is_confirmed p ≡ true)
At finished p = state_of p ≡ completed

-- The batch of the run has actions.
abbrev pub HasActions : Predecessor → Type 0
HasActions p = action_ids p.context ≢ arr nil

-- What a planner's successor does to the phase.
pub record Effect (s : Successor) (state : Value) (confirms : Bool) : Type 0 where
  pub state_after : get "runtime_state" s.checkpoint ≡ state
  pub confirmed_after :
      (d : Value)
      → truthy (last_write "active_confirmation_receipt_ref" s.manifest_updates d)
        ≡ (if confirms then true else truthy d)

pub emit-Effect :
    (p : Predecessor) (id : String) (refs : Refs)
    → Effect (emit_successor p id refs) waiting_for_confirmation false
unfolding emit_successor emit_checkpoint emit_input build_checkpoint get
emit-Effect p id refs = record { state_after = refl; confirmed_after = λ d. refl }

-- A text with a character is truthy.
pub truthy_text : (s : String) → is_empty (codes s) ≡ false → truthy (str s) ≡ true
unfolding truthy
truthy_text s h = elim (Bool-cases (str_eq s "")) [
  | inl e ↦ let none_left = ap (λ t. is_empty (codes t)) ((str_eq_iff s "").0 e) in cc
  | inr e ↦ rw e refl
]

pub confirm-Effect :
    (sha256 : String → String) (p : Predecessor) (token : Value) (id ref : String)
    → Effect (confirm_successor sha256 p token id (confirm_refs ref id)) build_active true
unfolding confirm_successor confirm_checkpoint confirm_input build_checkpoint get confirm_refs
confirm-Effect sha256 p token id ref = record {
  state_after = refl;
  confirmed_after = λ d. truthy_text _ (rw codes-append refl);
}

pub evidence-Effect :
    (p : Predecessor) (source : Value) (content sha id : String) (refs : Refs)
    → Effect (evidence_successor p source content sha id refs) build_active false
unfolding evidence_successor evidence_checkpoint evidence_input build_checkpoint get
evidence-Effect p source content sha id refs = record {
  state_after = refl;
  confirmed_after = λ d. refl;
}

pub completion-Effect :
    (p : Predecessor) (vs : List Verified) (id : String) (refs : Refs)
    → Effect (completion_successor p vs id refs) completed false
unfolding completion_successor completion_checkpoint completion_input build_checkpoint get
completion-Effect p vs id refs = record { state_after = refl; confirmed_after = λ d. refl }

no_items : (vs : _) → length (items vs) ≡ 0 → vs ≡ nil
no_items nil h = refl
no_items (cons v vs) h = absurd (omega arith)

-- Only an empty batch has the actions of a run that has confirmed none.
pub same_set-empty : (v w : Value) → has_length v ≡ false → same_set v w ≡ true → w ≡ arr nil
unfolding same_set has_length
same_set-empty (arr nil) (arr ws) h k =
    let (lengths, _) = and-eq-true _ _ k in ap arr (no_items ws (sym ((==_iff _ _).0 lengths)))
same_set-empty (arr (cons v vs)) (arr ws) h k = cc
same_set-empty _ _ h k = cc
