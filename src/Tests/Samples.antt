-- ===== src/Tests/Samples.antt =====
-- A first generation of a run, as intake makes it, with two actions; SHA-256 is replaced by a constant.
use ev4_builder_assistant_re.Base.{String, List, [], ◌∷◌, map, Option, none, some, ◌≡◌, refl, true}
use ev4_builder_assistant_re.Json.{Value, null, num, str, object, array}
use ev4_builder_assistant_re.Primitives.Checkpoint.{build_checkpoint, build_session, build_active}
use ev4_builder_assistant_re.Primitives.Manifest.{ManifestInput, build_manifest}
use ev4_builder_assistant_re.Primitives.Names.{is_hash}
use ev4_builder_assistant_re.Primitives.Sources.{direct_ce}
use ev4_builder_assistant_re.Planner.Types.{Predecessor, Successor}
use ev4_builder_assistant_re.Planner.Emit.{emit_refs, emit_transition_id, emit_successor}
use ev4_builder_assistant_re.Publication.{emit_batch}
use ev4_builder_assistant_re.Planner.Prepare.{unprepared, prepare}

abbrev pub sample_digest : String
sample_digest = "0123456789abcdef0123456789abcdef0123456789abcdef0123456789abcdef"

abbrev pub sample_sha : String → String
sample_sha t = sample_digest

pub sample_hashes : (t : String) → is_hash (sample_sha t) ≡ true
unfolding is_hash
sample_hashes t = refl

abbrev pub sample_actions : List String
sample_actions = "A-1" ∷ "A-2" ∷ []

abbrev pub sample_context : Value
sample_context = object (
    ("schema", str "ev4-builder-verified-context@1.0.0")
    ∷ ("runtime_mode", str "real-builder-run")
    ∷ ("context_digest", str sample_digest)
    ∷ ("canonical_package_digest", str sample_digest)
    ∷ ("builder_input_sha256", str sample_digest)
    ∷ ("selected_candidate_id", str "candidate-1")
    ∷ (
      "confirmation",
      object (("confirmation_id", str "CONF-1") ∷ ("expected_user_token", str "CONFIRM B-1") ∷ []),
    )
    ∷ (
      "action_batch",
      object (
          ("batch_id", str "B-1")
          ∷ ("action_ids", array (map str sample_actions))
          ∷ (
            "action_digests",
            object (("A-1", str sample_digest) ∷ ("A-2", str sample_digest) ∷ []),
          )
          ∷ []),
    )
    ∷ [])

abbrev pub sample_checkpoint : Value
sample_checkpoint = build_checkpoint sample_context (record {
  run_id = str "RUN-1";
  session_id = str "S-1";
  sequence = num 1;
  parent_id = null;
  state = build_active;
  confirmed_action_ids = array [];
  unconfirmed_action_ids = array (map str sample_actions);
  unresolved_blockers = array [];
  assertions = array [];
  evidence_ledger = array [];
  created_from = str "initial";
})

abbrev pub sample_session : Value
sample_session = build_session (str "S-1") sample_context sample_checkpoint (array [])

abbrev pub sample_input : ManifestInput
sample_input = record {
  previous = none;
  run_id = str "RUN-1";
  source_mode = direct_ce;
  source_sha = str sample_digest;
  receipt_sha = null;
  generation = 1;
  predecessor_generation = null;
  predecessor_checkpoint_id = null;
  predecessor_checkpoint_sequence = null;
  updates = [];
}

abbrev manifest_or_null : Option Value → Value
manifest_or_null none = null
manifest_or_null (some m) = m

abbrev pub sample_manifest : Value
sample_manifest =
    manifest_or_null (build_manifest sample_sha sample_input sample_context sample_checkpoint)

abbrev pub sample_run : Predecessor
sample_run = record {
  manifest = sample_manifest;
  context = sample_context;
  session = sample_session;
  checkpoint = sample_checkpoint;
  generation = 1;
  planning = unprepared;
}

abbrev pub no_files : Value → Option (String × Value)
no_files ref = none

-- The sample run, prepared for the issue of its batch, and the successor that the issue plans.
abbrev pub sample_prepared : Predecessor
sample_prepared = prepare no_files [] emit_batch sample_run

abbrev pub sample_issue : Successor
sample_issue =
    emit_successor sample_prepared (emit_transition_id sample_sha sample_prepared)
      (emit_refs "generations/000002" (emit_transition_id sample_sha sample_prepared))
