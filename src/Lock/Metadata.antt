-- ===== src/Lock/Metadata.antt =====
-- The content of `lock.json` and the liveness of the owner that it records: `validLockMetadata`,
-- `inspectRecordedOwnerLiveness` and the metadata of `acquireOwnedDirectory`.
use ev4_builder_assistant_re.Base.{
  ℕ, String, Bool, false, ◌&&◌, ◌||◌, [], ◌∷◌, Option, none, some, leb, if◌then◌else◌, length,
  codes,
}
use ev4_builder_assistant_re.Json.{
  Value, null, num, str, object, get, strict_eq, is_positive, is_string,
}

-- The two containers: `.mutation-lock` and `.mutation-lock-recovery`.
pub data Folder : Type 0 where
  lock guard : Folder

-- One attempt of one process: the ids that `randomUUID` gives it, and what the system tells of its process.
pub record Identity : Type 0 where
  pub lock_id : Folder → String
  pub claim_id : String
  pub operation : String
  pub process_id : ℕ
  pub start_token : Option String
  pub created_at : String

abbrev pub schema_of : Folder → String
schema_of lock = "ev4-builder-local-run-lock@1.0.0"
schema_of guard = "ev4-builder-local-lock-recovery-guard@1.0.0"

abbrev pub token_value : Option String → Value
token_value none = null
token_value (some t) = str t

unfoldable pub lock_metadata : Identity → Folder → Value
lock_metadata me folder = object (
    ("schema", str (schema_of folder))
    ∷ ("lock_id", str (me.lock_id folder))
    ∷ ("operation", str me.operation)
    ∷ ("process_id", num me.process_id)
    ∷ ("process_start_token", token_value me.start_token)
    ∷ ("created_at", str me.created_at)
    ∷ [])

unfoldable pub is_long_text : Value → Bool
is_long_text (str s) = leb 16 (length (codes s))
is_long_text v = false

unfoldable pub valid_lock_metadata : Value → String → Bool
unfolding is_long_text
valid_lock_metadata metadata expected_schema =
    strict_eq (get "schema" metadata) (str expected_schema)
    && (is_long_text (get "lock_id" metadata)
        && (is_positive (get "process_id" metadata)
            && (strict_eq (get "process_start_token" metadata) null
                || is_string (get "process_start_token" metadata))))

-- What `process.kill(id, 0)` says: it returns, or throws ESRCH, EPERM or another error.
pub data Signal : Type 0 where
  delivered no_such_process not_permitted other_error : Signal

-- The answers of the system, in the order of the questions; a question that is not asked has no influence.
pub record Probe : Type 0 where
  pub first : Signal
  pub token : Option String
  pub second : Signal

pub data Liveness : Type 0 where
  live dead unknown malformed : Liveness

unfoldable pub after_missing_token : Signal → Liveness
after_missing_token no_such_process = dead
after_missing_token _ = unknown

unfoldable pub after_token : Value → Option String → Signal → Liveness
unfolding after_missing_token
after_token recorded none second = after_missing_token second
after_token recorded (some observed) second =
    if strict_eq (str observed) recorded then live else dead

unfoldable pub after_delivery : Value → Probe → Liveness
unfolding after_token
after_delivery metadata probe =
    if strict_eq (get "process_start_token" metadata) null
    then live
    else after_token (get "process_start_token" metadata) probe.token probe.second

unfoldable pub after_signal : Signal → Value → Probe → Liveness
unfolding after_delivery
after_signal delivered metadata probe = after_delivery metadata probe
after_signal no_such_process metadata probe = dead
after_signal _ metadata probe = unknown

unfoldable pub inspect_recorded_owner_liveness : Value → Probe → Liveness
unfolding after_signal
inspect_recorded_owner_liveness metadata probe =
    if valid_lock_metadata metadata (schema_of lock)
    then after_signal probe.first metadata probe
    else malformed
