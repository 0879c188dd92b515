-- ===== src/Lib.antt =====
-- The canonical Builder run runtime of scripts/lib/runtime: a run directory holds numbered generations
-- (generations/NNNNNN with run-manifest.json, runtime-context.json, session-state.json, checkpoint.json), and
-- CURRENT.json names the one in force. Four operations (emit-batch, confirm-batch, attach-evidence,
-- real-completion) each load the generation in force, prepare it, plan its successor and commit it; intake
-- makes the first generation. This library models the values, the planners, the validators and the commit.
--
-- Parts, and the code that each models:
-- - Base: helpers on Booleans, lists, texts and their order. Json: parsed JSON as JavaScript reads it
--   (`value?.key`, `===`, truthiness, `String(value)`, writes on a cloned object).
-- - Canonical (scripts/lib/canonical-builder-package.mjs): canonical JSON text and digests.
-- - Diagnostics: the lists of diagnostics, kept as their codes.
-- - Primitives (scripts/lib/runtime/run-primitives.mjs, scripts/lib/checkpoint-sequence.mjs): `sameSet` (Sets),
--   generation names and hashes (Names), blockers (Blockers), modes of intake (Sources), checkpoints and
--   sessions (Checkpoint), manifests and pointers (Manifest).
-- - Publication and Store (scripts/lib/runtime/run-state-store.mjs, `loadRunUnlocked` of run-state-validation.mjs):
--   the published files and the check of the result, the first generation (Intake), the manifest and pointer of
--   the successor (Snapshot), and on a modelled directory (Directory) the load of a run (Load) and the
--   publication of a successor with its failure points (Publish).
-- - Planner (scripts/lib/runtime/transition-planner-*.mjs): preparation and the planners of the four operations.
-- - Validation (scripts/lib/runtime/run-state-validation.mjs): manifests, pointers and generations.
-- - Gates: scripts/validate-checkpoint.mjs, scripts/validate-completion-gate.mjs,
--   scripts/validate-batch-compaction-check.mjs, scripts/validate-unit-strategy-check.mjs,
--   scripts/validate-session-state.mjs (with runtime/state-transitions.v1.json) and
--   scripts/validate-builder-lineage-sequence.mjs, each a function from the parsed file to the ids of its failures.
-- - Lock (scripts/lib/runtime/run-lock-ownership.mjs): metadata and liveness (Metadata), the functions as programs over
--   file-system calls (Calls, Ownership, Recovery), processes that run them (System), what they may do (Obeys).
-- - Source (scripts/lib/builder-explicit-source-runtime.mjs, `verifyBuilderInput` of
--   scripts/lib/builder-runtime-transition.mjs): synthetic content (Synthetic), the batch (Batch), the context of a run
--   (Context), the check of a Builder Input (Verify), the resolution of a source by its mode (Resolve) and the check of
--   a stored context (Shape).
-- - Replay (scripts/lib/runtime/committed-transition-replay.mjs): which operation made a generation (Inputs), the
--   comparison of a committed transition with its derivation (Exact), of a whole history (History), and
--   `executePlannedMutation` under the lock (Execute).
-- - Lifecycle: what holds of whole runs, over the definitions above; the sequence of load, plan and commit is
--   the step relation `Lifecycle.Runs.Step`.
-- - Tests: a sample run and every property applied to it.
--
-- Conventions. A diagnostic is its code; messages and details, which no decision reads, are left out. An
-- exception is the constructor `thrown` of a plan, or `none`. A property read of a missing object gives
-- `undefined`, where the code has `?.`; the few reads without `?.` of an object that an earlier check has
-- reported missing give `undefined` too. SHA-256 is a parameter of every definition that takes digests; where a
-- property needs it, its documented output, 64 lower-case hexadecimal digits, is the hypothesis `hashes`. The
-- files of a run directory are a parameter too (`read`), as are the full derivation of the intake and the
-- verdict of the Ajv schemas and validator scripts on the state files (`state_problems`). Texts are sequences of
-- code points, which is how the code's UTF-16 order sorts the identifiers it uses. Numbers that are no
-- integers keep their JSON text. Nothing needs fuel but the digits of a number, which get one round more than
-- the number; the generation number ends at 999999, where `generationName` throws and no successor is planned.
--
-- In the lifecycle a commit is taken as a whole (`Lifecycle.Commit.committed`); what an interrupted one leaves is
-- the subject of Store.Publish. `JSON.parse` is a parameter of the load.
--
-- A lock's processes take turns call by call. A call may fail without effect, a write that fails leaves no file, a
-- container is not a file of its own, and the answers of the system on an owner are true (`Lock.System.Honest`).
--
-- Not modelled: processes, `fsync` of the publication and temporary names, the pauses of tests, the comparison
-- of a run with its full derivation, the contract gate and normaliser of CE packages, the command line tools, the other
-- validator scripts, the schemas, and the documentation and data of the repository.
pub mod Base
pub mod Json
pub mod Diagnostics
pub mod Canonical
pub mod Primitives
pub mod Publication
pub mod Planner
pub mod Validation
pub mod Store
pub mod Lifecycle
pub mod Lock
pub mod Replay
pub mod Source
pub mod Gates
pub mod Tests
