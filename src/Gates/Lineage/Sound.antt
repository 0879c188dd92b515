-- ===== src/Gates/Lineage/Sound.antt =====
-- What a sequence that passes the lineage validator preserves.
use ev4_builder_assistant_re.Base.{
  String, true, false, List, [], ◌∷◌, Option, none, some, is_empty, ◌≡◌, refl, inl, inr, Bool-cases,
  All, All_weaken, append-eq-nil, str_eq, str_eq_iff, and-eq-true, is_empty-eq-nil,
}
use mathlib.Core.List.{Memᴰ}
use mathlib.Core.Option.{some-injective}
use ev4_builder_assistant_re.Diagnostics.{failures, failures-eq-nil}
use ev4_builder_assistant_re.Json.{Value}
use ev4_builder_assistant_re.Json.Laws.{strict_eq-eq}
use ev4_builder_assistant_re.Gates.Lineage.{
  lineage_key, lineage_failures, get_lineage, lookup, card_of, compare_upstream, carried_failures,
  action_failures, fallback_failures, all_failures, carries_decision, carried_by, dropped_failures,
  intake_of, intake_records, output_actions, fallback_attempts, validate_sequence, intake_failures,
}

-- The intake has a record of the decision, and the lineage is the same.
pub record Upstream (intake : List (Value × Value)) (lineage : Value) : Type 0 where
  pub complete : lineage_failures lineage ≡ []
  pub upstream : Value
  pub found : lookup (card_of lineage) intake ≡ some upstream
  pub same : lineage_key lineage ≡ lineage_key upstream

-- Some action carries the lineage that the intake has of the decision.
pub record Carried (intake : List (Value × Value)) (actions : List Value) (ref : Value)
    : Type 0 where
  pub action : Value
  pub lineage : Value
  pub among : Memᴰ action actions
  pub has : get_lineage action ≡ some lineage
  pub names : card_of lineage ≡ ref
  pub upstream : Upstream intake lineage

pub record Preserved (sequence : Value) : Type 0 where
  pub records : All (λ r. lineage_failures r ≡ []) (intake_records sequence)
  pub decided : is_empty (intake_of sequence) ≡ false
  pub actions :
      All
        (λ a. (l : Value) → get_lineage a ≡ some l → Upstream (intake_of sequence) l)
        (output_actions sequence)
  pub kept :
      All
        (λ (e : Value × Value). Carried (intake_of sequence) (output_actions sequence) e.0)
        (intake_of sequence)
  pub attempts :
      All
        (λ a. (l : Value) × (get_lineage a ≡ some l) × Upstream (intake_of sequence) l)
        (fallback_attempts sequence)

all_failures-eq-nil :
    (f : Value → List String) (vs : List Value) → all_failures f vs ≡ [] → All (λ v. f v ≡ []) vs
unfolding all_failures
all_failures-eq-nil f [] h = tt
all_failures-eq-nil f (v ∷ vs) h =
    let (first, rest) = append-eq-nil (f v) _ h in (first, all_failures-eq-nil f vs rest)

intake_failures-eq-nil :
    (rs : List Value) → intake_failures rs ≡ [] → All (λ r. lineage_failures r ≡ []) rs
unfolding intake_failures
intake_failures-eq-nil [] h = tt
intake_failures-eq-nil (r ∷ rs) h =
    let (first, rest) = append-eq-nil (lineage_failures r) _ h in
    (first, intake_failures-eq-nil rs rest)

module _ (intake : List (Value × Value)) where
  compare_upstream-Upstream :
      (unknown replaced : String) (l : Value) (o : Option Value)
      → lineage_failures l ≡ []
      → lookup (card_of l) intake ≡ o
      → compare_upstream unknown replaced l o ≡ []
      → Upstream intake l
  unfolding compare_upstream
  compare_upstream-Upstream unknown replaced l none complete found h = absurd (cc h)
  compare_upstream-Upstream unknown replaced l (some up) complete found h =
      elim (Bool-cases (str_eq (lineage_key l) (lineage_key up))) [
        | inl same ↦ record {
          complete = complete;
          upstream = up;
          found = found;
          same = (str_eq_iff _ _).0 same;
        }
        | inr other ↦ absurd (cc (rw other at h))
      ]

  carried_failures-Upstream :
      (unknown replaced : String) (l : Value)
      → carried_failures intake unknown replaced l ≡ []
      → Upstream intake l
  unfolding carried_failures
  carried_failures-Upstream unknown replaced l h =
      elim (Bool-cases (is_empty (lineage_failures l))) [
        | inl complete ↦
            compare_upstream-Upstream unknown replaced l _ (is_empty-eq-nil _ complete) refl
              (rw (carried_failures, complete) at h)
        | inr wrong ↦
            let none_left : lineage_failures l ≡ [] = rw (carried_failures, wrong) at h in
            absurd (cc (rw none_left at wrong))
      ]

  action_failures-Upstream :
      (o : Option Value)
      → action_failures intake o ≡ []
      → (l : Value) → o ≡ some l
      → Upstream intake l
  unfolding action_failures
  action_failures-Upstream none h l is = absurd (cc is)
  action_failures-Upstream (some lineage) h l is =
      rw (← some-injective _ _ is) (carried_failures-Upstream _ _ lineage h)

  fallback_failures-Upstream :
      (o : Option Value)
      → fallback_failures intake o ≡ []
      → (l : Value) × (o ≡ some l) × Upstream intake l
  unfolding fallback_failures
  fallback_failures-Upstream none h = absurd (cc h)
  fallback_failures-Upstream (some lineage) h =
      (lineage, refl, carried_failures-Upstream _ _ lineage h)

  carries_decision-names :
      (ref : Value) (o : Option Value)
      → carries_decision intake ref o ≡ true
      → (l : Value) × (o ≡ some l) × (card_of l ≡ ref)
  unfolding carries_decision
  carries_decision-names ref none h = absurd (cc h)
  carries_decision-names ref (some l) h =
      (l, refl, strict_eq-eq _ _ (and-eq-true _ _ (and-eq-true _ _ h).1).1)

  carried_by-Carried :
      (ref : Value) (actions : List Value)
      → carried_by intake ref actions ≡ true
      → All (λ a. (l : Value) → get_lineage a ≡ some l → Upstream intake l) actions
      → Carried intake actions ref
  unfolding carried_by
  carried_by-Carried ref [] h good = absurd (cc h)
  carried_by-Carried ref (a ∷ actions) h good =
      elim (Bool-cases (carries_decision intake ref (get_lineage a))) [
        | inl does ↦
            let (l, has, names) = carries_decision-names ref (get_lineage a) does in
            record {
              action = a;
              lineage = l;
              among = Memᴰ.head refl;
              has = has;
              names = names;
              upstream = good.0 l has;
            }
        | inr not_here ↦
            let later = carried_by-Carried ref actions (rw not_here at h) good.1 in
            record {
              action = later.action;
              lineage = later.lineage;
              among = Memᴰ.tail later.among;
              has = later.has;
              names = later.names;
              upstream = later.upstream;
            }
      ]

  dropped_failures-Carried :
      (actions : List Value) (entries : List (Value × Value))
      → dropped_failures intake actions entries ≡ []
      → All (λ a. (l : Value) → get_lineage a ≡ some l → Upstream intake l) actions
      → All (λ (e : Value × Value). Carried intake actions e.0) entries
  unfolding dropped_failures
  dropped_failures-Carried actions [] h good = tt
  dropped_failures-Carried actions ((ref, v) ∷ rest) h good =
      elim (Bool-cases (carried_by intake ref actions)) [
        | inl does ↦ (
          carried_by-Carried ref actions does good,
          dropped_failures-Carried actions rest (rw does at h) good,
        )
        | inr dropped ↦ absurd (cc (rw dropped at h))
      ]

-- A lineage sequence that passes its validator has only complete records in its intake and at least
-- one; each lineage of an action, and the one that every fallback attempt must have, is complete and
-- has the key of the record that the intake has of its decision; and every decision of the intake is
-- carried by some action.
pub validate_sequence-Preserved :
    (sequence : Value) → validate_sequence sequence ≡ [] → Preserved sequence
unfolding validate_sequence failures
validate_sequence-Preserved sequence h =
    let intake = intake_of sequence in
    let (records, after_records) = append-eq-nil (intake_failures (intake_records sequence)) _ h in
    let (decided, after_decided) =
      append-eq-nil (failures ((is_empty intake, "EV4-LINEAGE-001") ∷ [])) _ after_records in
    let (acted, after_acted) =
      append-eq-nil (all_failures (λ a. action_failures intake (get_lineage a)) _) _
        after_decided in
    let (dropped, attempted) =
      append-eq-nil (dropped_failures intake (output_actions sequence) intake) _ after_acted in
    let actions =
      All_weaken (output_actions sequence)
        (λ a none_wrong. action_failures-Upstream intake (get_lineage a) none_wrong)
        (all_failures-eq-nil _ (output_actions sequence) acted) in
    record {
      records = intake_failures-eq-nil _ records;
      decided = ((failures-eq-nil ((is_empty intake, "EV4-LINEAGE-001") ∷ [])).0 decided).0;
      actions = actions;
      kept = dropped_failures-Carried intake (output_actions sequence) intake dropped actions;
      attempts =
          All_weaken (fallback_attempts sequence)
            (λ a none_wrong. fallback_failures-Upstream intake (get_lineage a) none_wrong)
            (all_failures-eq-nil _ (fallback_attempts sequence) attempted);
    }
