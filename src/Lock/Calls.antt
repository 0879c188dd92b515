-- ===== src/Lock/Calls.antt =====
-- The calls of scripts/lib/runtime/run-lock-ownership.mjs on the two containers, and programs that make them. Every
-- call but an inspection of the owner may fail, and then changes nothing.
use ev4_builder_assistant_re.Base.{ℕ, String, Bool, List, Option}
use ev4_builder_assistant_re.Json.{Value}
use ev4_builder_assistant_re.Lock.Metadata.{Folder, Liveness}

-- `lock.json`, `.lock-preparation-<id>.json` and `.lock-claim-<purpose>-<id>-<uuid>.json`.
pub data Side : Type 0 where
  preparation : String → Side
  claim : (purpose lock_id unique : String) → Side

pub data Place : Type 0 where
  final : Place
  beside : Side → Place

pub data Made : Type 0 where
  created exists_directory exists_other creation_failed : Made

pub data Presence : Type 0 where
  present absent inspection_failed : Presence

pub data Linked : Type 0 where
  linked link_exists link_failed : Linked

-- What the protected work of a lock's owner comes to.
pub data Work : Type 0 where
  work_done work_threw : Work
  work_refused : List String → Work

pub data Program {ℓ} (A : Type ℓ) : Type ℓ where
  ret : A → Program A
  make_container : Folder → (Made → Program A) → Program A
  inspect_entry : Folder → Place → (Presence → Program A) → Program A
  read_metadata : Folder → Place → (Option Value → Program A) → Program A
  write_new : Folder → Side → Value → (Bool → Program A) → Program A
  link_final : Folder → Side → (Linked → Program A) → Program A
  rename_final : Folder → Side → (Bool → Program A) → Program A
  remove_side : Folder → Side → (Bool → Program A) → Program A
  inode_of : Folder → Side → (Option ℕ → Program A) → Program A
  list_preparations : Folder → (Option (List String) → Program A) → Program A
  sync_container : Folder → (Bool → Program A) → Program A
  remove_container : Folder → (Bool → Program A) → Program A
  probe_owner : Value → (Liveness → Program A) → Program A
  work : (Work → Program A) → Program A

infixl 5 ◌>>=◌
abbrev pub ◌>>=◌ {ℓ κ} : {A : Type ℓ} {B : Type κ} → Program A → (A → Program B) → Program B
ret a >>= f = f a
make_container d k >>= f = make_container d (λ x. k x >>= f)
inspect_entry d p k >>= f = inspect_entry d p (λ x. k x >>= f)
read_metadata d p k >>= f = read_metadata d p (λ x. k x >>= f)
write_new d s v k >>= f = write_new d s v (λ x. k x >>= f)
link_final d s k >>= f = link_final d s (λ x. k x >>= f)
rename_final d s k >>= f = rename_final d s (λ x. k x >>= f)
remove_side d s k >>= f = remove_side d s (λ x. k x >>= f)
inode_of d s k >>= f = inode_of d s (λ x. k x >>= f)
list_preparations d k >>= f = list_preparations d (λ x. k x >>= f)
sync_container d k >>= f = sync_container d (λ x. k x >>= f)
remove_container d k >>= f = remove_container d (λ x. k x >>= f)
probe_owner v k >>= f = probe_owner v (λ x. k x >>= f)
work k >>= f = work (λ x. k x >>= f)
