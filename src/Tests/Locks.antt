-- ===== src/Tests/Locks.antt =====
-- Writers that compete for a lock which nobody holds at first.
use ev4_builder_assistant_re.Base.{ℕ, zero, suc, String, [], ◌∷◌, none, some, ◌≡◌, refl, ap}
use ev4_builder_assistant_re.Json.{Value, str, object, get}
use ev4_builder_assistant_re.Lock.Metadata.{Folder, lock, guard, Identity, Probe}
use ev4_builder_assistant_re.Lock.System.{File, Disk, find_side, System, Reach, running}
use ev4_builder_assistant_re.Lock.Exclusion.{
  AtWork, Role, writer, Result, Fresh, initially, mutual_exclusion, lock_names_worker,
}
use ev4_builder_assistant_re.Lock.Exclusion.Known.{Unique}
use ev4_builder_assistant_re.Lock.Runs.{Calls, held, writer_reaches_work}

unary : ℕ → String
unary zero = ""
unary (suc n) = String.◌∷◌ "a" (unary n)

unary-injective : (m n : ℕ) → unary m ≡ unary n → m ≡ n
unfolding unary
unary-injective zero zero h = refl
unary-injective (suc m) (suc n) h = ap suc (unary-injective m n (cc h))
unary-injective zero (suc n) h = cc
unary-injective (suc m) zero h = cc

abbrev writers : ℕ → Identity
writers i = record {
  lock_id = λ f. unary i;
  claim_id = "claim";
  operation = "emit-batch";
  process_id = 41;
  start_token = some "12345";
  created_at = "2026-01-01T00:00:00.000Z";
}

writers-Unique : Unique writers
writers-Unique i j f g h = unary-injective i j h

abbrev no_files : Disk
no_files = record { lock_file = none; guard_file = none; entries = [] }

no_files-Fresh : Fresh writers no_files
no_files-Fresh = record { entries = tt; finals = no_final }
  where
    no_final :
        (f : Folder) (x : File)
        → ev4_builder_assistant_re.Lock.System.final_of f no_files ≡ some x
        → ev4_builder_assistant_re.Lock.Exclusion.Foreign writers x
    no_final lock x h = cc
    no_final guard x h = cc

abbrev start : System Result
start = initially writers (λ i. writer) no_files

first_works :
    (t : System Result) × Reach writers start t
    × (t.status 0 ≡ running)
    × AtWork (t.program 0)
    × (t.disk ≡ held (writers 0) lock 7 no_files)
unfolding find_side
first_works = writer_reaches_work writers start 0 7 refl refl refl refl

mutual_exclusion_example : ◌≡◌ {A = ℕ} 0 0
mutual_exclusion_example =
    mutual_exclusion writers writers-Unique (λ i. writer) no_files no_files-Fresh first_works.0
      first_works.1 0 0 first_works.2 first_works.2 first_works.3 first_works.3

lock_names_worker_example :
    (x : File) × (v : Value) × (first_works.0.disk.lock_file ≡ some x)
    × (x.metadata ≡ some v)
    × (get "lock_id" v ≡ str ((writers 0).lock_id lock))
lock_names_worker_example =
    lock_names_worker writers writers-Unique (λ i. writer) no_files no_files-Fresh first_works.0
      first_works.1 0 first_works.2 first_works.3

writer_reaches_work_example :
    (t : System Result) × Reach writers start t
    × (t.status 0 ≡ running)
    × AtWork (t.program 0)
    × (t.disk ≡ held (writers 0) lock 7 no_files)
unfolding find_side
writer_reaches_work_example = writer_reaches_work writers start 0 7 refl refl refl refl

abbrev stale : File
stale = record { inode = 3; metadata = some (object (("lock_id", str "stale") ∷ [])) }

abbrev left_over : Disk
left_over = record { lock_file = some stale; guard_file = none; entries = [] }

abbrev Any : Value → Probe → Type 0
Any v probe = Unit
