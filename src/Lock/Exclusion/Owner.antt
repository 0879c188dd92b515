-- ===== src/Lock/Exclusion/Owner.antt =====
-- An owner that the liveness check calls dead has ended: its process id names no process, or another one.
use ev4_builder_assistant_re.Base.{
  ℕ, String, Option, none, some, ◌≡◌, ◌≢◌, ◌⊎◌, inl, inr, refl, Bool-cases,
}
use ev4_builder_assistant_re.Json.{Value, num, str, get, strict_eq}
use ev4_builder_assistant_re.Json.Laws.{strict_eq_text}
use ev4_builder_assistant_re.Lock.Metadata.{
  Folder, lock, Identity, lock_metadata, token_value, schema_of, valid_lock_metadata, Signal,
  delivered, no_such_process, not_permitted, other_error, Probe, dead, after_missing_token,
  after_token, after_delivery, after_signal, inspect_recorded_owner_liveness,
}
use ev4_builder_assistant_re.Lock.System.{running, System, Honest}

-- The token that is observed is not the recorded one.
abbrev Replaced : Option String → Option String → Type 0
Replaced recorded observed =
    (own : String) × (t : String) × (recorded ≡ some own) × (observed ≡ some t) × (own ≢ t)

missing_token_dead : (s : Signal) → after_missing_token s ≡ dead → s ≡ no_such_process
unfolding after_missing_token
missing_token_dead no_such_process h = refl
missing_token_dead delivered h = cc
missing_token_dead not_permitted h = cc
missing_token_dead other_error h = cc

token_dead :
    (own : String) (observed : Option String) (s : Signal)
    → after_token (str own) observed s ≡ dead
    → (s ≡ no_such_process) ⊎ Replaced (some own) observed
unfolding after_token
token_dead own none s h = inl (missing_token_dead s h)
token_dead own (some t) s h = elim (Bool-cases (strict_eq (str t) (str own))) [
  | inl same ↦ absurd (cc (rw same at h))
  | inr differ ↦ inr (own, t, refl, refl, λ eq. cc (strict_eq_text t, rw eq at differ))
]

delivery_dead :
    (v : Value) (recorded : Option String) (probe : Probe)
    → get "process_start_token" v ≡ token_value recorded
    → after_delivery v probe ≡ dead
    → (probe.second ≡ no_such_process) ⊎ Replaced recorded probe.token
unfolding after_delivery strict_eq
delivery_dead v none probe has h = absurd (cc (rw has at h))
delivery_dead v (some own) probe has h = token_dead own probe.token probe.second (rw has at h)

signal_dead :
    (v : Value) (recorded : Option String) (probe : Probe) (first : Signal)
    → get "process_start_token" v ≡ token_value recorded
    → after_signal first v probe ≡ dead
    → (first ≡ no_such_process) ⊎ ((probe.second ≡ no_such_process) ⊎ Replaced recorded probe.token)
unfolding after_signal
signal_dead v recorded probe delivered has h = inr (delivery_dead v recorded probe has h)
signal_dead v recorded probe no_such_process has h = inl refl
signal_dead v recorded probe not_permitted has h = cc
signal_dead v recorded probe other_error has h = cc

inspected_dead :
    (v : Value) (recorded : Option String) (probe : Probe)
    → get "process_start_token" v ≡ token_value recorded
    → inspect_recorded_owner_liveness v probe ≡ dead
    → (probe.first ≡ no_such_process)
      ⊎ ((probe.second ≡ no_such_process) ⊎ Replaced recorded probe.token)
unfolding inspect_recorded_owner_liveness
inspected_dead v recorded probe has h = elim (Bool-cases (valid_lock_metadata v (schema_of lock))) [
  | inl valid ↦ signal_dead v recorded probe probe.first has (rw valid at h)
  | inr invalid ↦ absurd (cc (rw invalid at h))
]

token_of :
    (me : Identity) (g : Folder)
    → get "process_start_token" (lock_metadata me g) ≡ token_value me.start_token
unfolding lock_metadata get
token_of me g = refl

process_of :
    (me : Identity) (g : Folder) → get "process_id" (lock_metadata me g) ≡ num me.process_id
unfolding lock_metadata get
process_of me g = refl

pub dead_owner :
    {A : Type 0} (who : ℕ → Identity) (s : System A) (j : ℕ) (g : Folder) (probe : Probe)
    → Honest who s (lock_metadata (who j) g) probe
    → inspect_recorded_owner_liveness (lock_metadata (who j) g) probe ≡ dead
    → s.status j ≢ running
dead_owner who s j g probe honest h =
    elim (inspected_dead (lock_metadata (who j) g) (who j).start_token probe (token_of (who j) g)
      h) [
        | inl first ↦ honest.first first j (process_of (who j) g)
        | inr (inl second) ↦ honest.second second j (process_of (who j) g)
        | inr (inr (own, t, recorded, observed, differ)) ↦
            honest.token t own observed j (process_of (who j) g) recorded differ
      ]
