-- ===== src/Lock/Exclusion.antt =====
-- Mutual exclusion under the lock of a run, over all interleavings of writers and recoverers, with crashes.
pub mod Known
pub mod Entries
pub mod Owner
pub mod Calls
pub mod Steps
use ev4_builder_assistant_re.Base.{
  ℕ, String, Bool, true, false, List, [], ◌∷◌, Option, none, some, ◌≡◌, ◌≢◌, ◌⊎◌, inl, inr, refl,
  sym, ◌∙◌, ap, arith, All, All_weaken, ◌==◌, Bool-cases,
}
use ev4_builder_assistant_re.Json.{Value, str, get}
use ev4_builder_assistant_re.Lock.Metadata.{Folder, lock, guard, Identity}
use ev4_builder_assistant_re.Lock.Calls.{preparation, Work, Program, ret, work, ◌>>=◌}
use ev4_builder_assistant_re.Lock.Recovery.{Mutation, locked_mutation, Recovery, recover_run_lock}
use ev4_builder_assistant_re.Lock.System.{
  File, Entry, Disk, final_of, Status, waiting, running, gone, System, update, Run, begin, call,
  stop, Reach, here, next,
}
use ev4_builder_assistant_re.Lock.Obeys.{Caps, owns, may_take, Obeys, Obeys-bind}
use ev4_builder_assistant_re.Lock.Obeys.Recovery.{locked_mutation-Obeys, recover_run_lock-Obeys}
use ev4_builder_assistant_re.Lock.Exclusion.Known.{
  Unique, Written, Begun, Tidy, Facts, Facts-move, Later, Written_later, rivals,
}
use ev4_builder_assistant_re.Lock.Exclusion.Calls.{Later-refl, Ends, After}
use ev4_builder_assistant_re.Lock.Exclusion.Steps.{may_take_present, Step-After}

begin-Later : (st : ℕ → Status) (i : ℕ) → st i ≡ waiting → Later st (update st i running)
begin-Later st i was = record { begun = λ j h. ground arith; ended = λ j h. ground arith }

stop-Later : (st : ℕ → Status) (i : ℕ) → st i ≡ running → Later st (update st i gone)
stop-Later st i was = record { begun = λ j h. ground arith; ended = λ j h. ground arith }

-- Between the calls before and after its work a process is at work.
abbrev pub AtWork : {A : Type 0} → Program A → Type 0
AtWork {A} p = (k : Work → Program A) × (p ≡ work k)

self : (i : ℕ) → (i == i) ≡ true
self i = ground arith

Tidy-Later :
    (who : ℕ → Identity) (unique : Unique who) (st st' : ℕ → Status) (d : Disk)
    → Later st st'
    → Tidy who unique st d
    → Tidy who unique st' d
Tidy-Later who unique st st' d later tidy = record {
  named = tidy.named;
  begun = entries_later d.entries tidy.begun;
  finals = λ f x at v has. Written_later who unique st st' v later (tidy.finals f x at v has);
}
  where
    entries_later :
        (es : List Entry)
        → All (λ e. Begun who unique st e.file) es
        → All (λ e. Begun who unique st' e.file) es
    entries_later [] h = tt
    entries_later (e ∷ es) h =
        ((λ v has. Written_later who unique st st' v later (h.0 v has)), entries_later es h.1)

module _ {A : Type 0} (who : ℕ → Identity) (unique : Unique who) where
  record Process (s : System A) (i : ℕ) : Type 0 where
    caps : Caps
    obeys : Obeys (who i) Ends caps (s.program i)
    facts : Facts who unique s.status s.disk i caps

  record Sound (s : System A) : Type 0 where
    tidy : Tidy who unique s.status s.disk
    processes : (i : ℕ) → s.status i ≢ gone → Process s i

  other-Process :
      (s : System A) (i j : ℕ) {d : Disk} {p' : Program A} (e : Caps)
      → s.status i ≢ gone
      → Facts who unique s.status s.disk i e
      → (after : After who unique s.status s.disk i e d p') → (i == j) ≡ false
      → s.status j ≢ gone
      → Process s j
      → Process (record { disk = d; program = update s.program i p'; status = s.status }) j
  other-Process s i j {d} {p'} e alive_i known after differ alive_j process = record {
    caps = process.caps;
    obeys = rw differ process.obeys;
    facts =
        Facts-move who unique s.status s.status s.disk d j process.caps (Later-refl s.status) kept
          process.facts;
  }
    where
      kept : (f : Folder) → may_take f process.caps ≡ true → final_of f d ≡ final_of f s.disk
      kept f h = elim (after.untouched f) [
        | inl same ↦ same
        | inr (inl free) ↦
            let (x, at) =
              may_take_present who unique s.status s.disk j process.caps process.facts f h in
            absurd (cc (sym at ∙ free))
        | inr (inr may) ↦
            let one =
              rivals who unique s.status s.disk i j e process.caps known process.facts alive_i
                alive_j f may h in
            absurd (ground (arith, one))
      ]

  Later-Process :
      (s : System A) (st' : ℕ → Status) (j : ℕ)
      → Later s.status st'
      → Process s j
      → Process (record s { status = st' }) j
  Later-Process s st' j later process = record {
    caps = process.caps;
    obeys = process.obeys;
    facts =
        Facts-move who unique s.status st' s.disk s.disk j process.caps later (λ f h. refl)
          process.facts;
  }

  called-Process :
      (s : System A) (i j : ℕ) {d : Disk} {p' : Program A} (own : Process s i)
      → s.status i ≡ running
      → After who unique s.status s.disk i own.caps d p'
      → Sound s
      → s.status j ≢ gone
      → Process (record { disk = d; program = update s.program i p'; status = s.status }) j
  called-Process s i j {d} {p'} own is after sound alive = elim (Bool-cases (i == j)) [
    | inl same ↦
        let one : i ≡ j = ground arith in
        record {
          caps = after.caps;
          obeys = rw (← one) (rw (self i) after.obeys);
          facts = rw (← one) after.facts;
        }
    | inr differ ↦
        other-Process s i j own.caps (λ g. cc (is, g)) own.facts after differ alive
          (sound.processes j alive)
  ]

  Run-Sound : (s t : System A) → Run who s t → Sound s → Sound t
  Run-Sound s t (begin i was) sound = record {
    tidy =
        Tidy-Later who unique s.status (update s.status i running) s.disk
          (begin-Later s.status i was) sound.tidy;
    processes = λ j alive.
        Later-Process s (update s.status i running) j (begin-Later s.status i was)
          (sound.processes j (λ g. alive ((begin-Later s.status i was).ended j g)));
  }
  Run-Sound s t (call i {d} {p} is step) sound =
      let own = sound.processes i (λ g. cc (is, g)) in
      let after =
        Step-After who unique s i (λ w. cc (is, w)) sound.tidy own.caps own.facts step own.obeys in
      record {
        tidy = after.tidy;
        processes = λ j alive. called-Process s i j own is after sound alive;
      }
  Run-Sound s t (stop i was) sound = record {
    tidy =
        Tidy-Later who unique s.status (update s.status i gone) s.disk (stop-Later s.status i was)
          sound.tidy;
    processes = λ j alive.
        Later-Process s (update s.status i gone) j (stop-Later s.status i was)
          (sound.processes j (λ g. alive ((stop-Later s.status i was).ended j g)));
  }

  Reach-Sound : {s t : System A} → Sound s → Reach who s t → Sound t
  Reach-Sound sound here = sound
  Reach-Sound sound (next {t} {u} r run) = Run-Sound t u run (Reach-Sound sound r)

  working :
      (s : System A) (i : ℕ)
      → Sound s
      → s.status i ≡ running
      → AtWork (s.program i)
      → (own : Process s i) × (own.caps.locked ≡ true)
  working s i sound is (k, at) =
      let own = sound.processes i (λ g. cc (is, g)) in
      let obeys : Obeys (who i) Ends own.caps (work k) = rw at at own.obeys in (own, obeys.0)

-- The attempts of writers and of recoverers, each with its result.
pub data Role : Type 0 where
  writer recoverer : Role

pub data Result : Type 0 where
  of_writer : Mutation → Result
  of_recoverer : Recovery → Result

unfoldable pub attempt : Identity → Role → Program Result
attempt me writer = locked_mutation me >>= λ r. ret (of_writer r)
attempt me recoverer = recover_run_lock me >>= λ r. ret (of_recoverer r)

-- Files that are there before the attempts name none of these.
abbrev pub Foreign : (ℕ → Identity) → File → Type 0
Foreign who x =
    (v : Value)
    → x.metadata ≡ some v
    → (j : ℕ) (f : Folder) → get "lock_id" v ≢ str ((who j).lock_id f)

pub record Fresh (who : ℕ → Identity) (d : Disk) : Type 0 where
  pub entries :
      All
        (λ e. Foreign who e.file × ((j : ℕ) → e.side ≢ preparation ((who j).lock_id e.folder)))
        d.entries
  pub finals : (f : Folder) (x : File) → final_of f d ≡ some x → Foreign who x

abbrev pub initially : (ℕ → Identity) → (ℕ → Role) → Disk → System Result
initially who role d = record {
  disk = d;
  program = λ i. attempt (who i) (role i);
  status = λ i. waiting;
}

abbrev no_caps : Caps
no_caps = record { locked = false; guarded = false; seen = none; buried = none; doomed = false }

owns_nothing : (f : Folder) → owns f no_caps ≡ true → ⊥
owns_nothing lock h = cc
owns_nothing guard h = cc

module _ (who : ℕ → Identity) (unique : Unique who) (role : ℕ → Role) (d : Disk)
    (fresh : Fresh who d) where
  attempt-Obeys : (me : Identity) (r : Role) → Obeys me Ends no_caps (attempt me r)
  unfolding attempt
  attempt-Obeys me writer =
      Obeys-bind me Ends Ends _ (λ c r h. tt) no_caps (locked_mutation me)
        (locked_mutation-Obeys me no_caps)
  attempt-Obeys me recoverer =
      Obeys-bind me Ends Ends _ (λ c r h. tt) no_caps (recover_run_lock me)
        (recover_run_lock-Obeys me no_caps)

  initially-Sound : Sound who unique (initially who role d)
  initially-Sound = record {
    tidy = record {
      named = All_weaken d.entries (λ e h j side. absurd (h.1 j side)) fresh.entries;
      begun =
          All_weaken d.entries (λ e h v has j g named. absurd (h.0 v has j g named)) fresh.entries;
      finals = λ f x at v has j g named. absurd (fresh.finals f x at v has j g named);
    };
    processes = λ i alive. record {
      caps = no_caps;
      obeys = attempt-Obeys (who i) (role i);
      facts = record {
        owned = λ f h. absurd (owns_nothing f h);
        seen = λ v h. cc;
        buried = λ z h. cc;
        doomed = λ h. cc;
      };
    };
  }

  -- Of writers and recoverers that run interleaved, call by call, with failing calls and crashes, no
  -- two that have not ended are at their work under the lock at once. The ids of the attempts are
  -- distinct and new to the disk, and a signal or a start token that the system reports is true.
  pub mutual_exclusion :
      (s : System Result)
      → Reach who (initially who role d) s
      → (i j : ℕ) → s.status i ≡ running
      → s.status j ≡ running
      → AtWork (s.program i)
      → AtWork (s.program j)
      → i ≡ j
  mutual_exclusion s reach i j run_i run_j at_i at_j =
      let sound = Reach-Sound who unique initially-Sound reach in
      let (own_i, lock_i) = working who unique s i sound run_i at_i in
      let (own_j, lock_j) = working who unique s j sound run_j at_j in
      rivals who unique s.status s.disk i j own_i.caps own_j.caps own_i.facts own_j.facts
        (λ g. cc (run_i, g)) (λ g. cc (run_j, g)) lock (rw lock_i) (rw lock_j)

  -- In every state that writers and recoverers reach from a disk without files of theirs, the lock
  -- file is there and names the process that is at its work, if one is. The ids of the attempts are
  -- distinct.
  pub lock_names_worker :
      (s : System Result)
      → Reach who (initially who role d) s
      → (i : ℕ) → s.status i ≡ running
      → AtWork (s.program i)
      → (x : File) × (v : Value) × (s.disk.lock_file ≡ some x)
        × (x.metadata ≡ some v)
        × (get "lock_id" v ≡ str ((who i).lock_id lock))
  lock_names_worker s reach i run_i at_i =
      let (own_i, lock_i) =
        working who unique s i (Reach-Sound who unique initially-Sound reach) run_i at_i in
      own_i.facts.owned lock lock_i
