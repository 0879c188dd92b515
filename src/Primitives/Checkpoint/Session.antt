-- ===== src/Primitives/Checkpoint/Session.antt =====
-- What a session says after it carries a checkpoint.
use ev4_builder_assistant_re.Base.{◌≡◌, refl, text_ne}
use ev4_builder_assistant_re.Json.{Value, str, get}
use ev4_builder_assistant_re.Json.Laws.{IsObject}
use ev4_builder_assistant_re.Primitives.Checkpoint.{
  update_session, carried_fields, capsule_field, get-update_session,
}

-- The fields of a session that identify it.
pub record SameSession (a b : Value) : Type 0 where
  pub session_id : get "session_id" a ≡ get "session_id" b
  pub package_digest : get "package_digest" a ≡ get "package_digest" b
  pub candidate : get "selected_candidate_id" a ≡ get "selected_candidate_id" b

pub record Carries (session checkpoint base : Value) : Type 0 where
  pub embeds : get "last_verified_checkpoint" session ≡ checkpoint
  pub runtime_state : get "runtime_state" session ≡ get "runtime_state" checkpoint
  pub current_state : get "current_state" session ≡ get "runtime_state" checkpoint
  pub evidence : get "unresolved_evidence" session ≡ get "unresolved_evidence" base
  pub same : SameSession session base

module _ (base checkpoint : Value) (h : IsObject base) where
  pub update_session-SameSession : SameSession (update_session base checkpoint) base
  unfolding carried_fields capsule_field
  update_session-SameSession = record {
    session_id = get-update_session "session_id" base checkpoint (text_ne _ _ refl) h;
    package_digest = get-update_session "package_digest" base checkpoint (text_ne _ _ refl) h;
    candidate = get-update_session "selected_candidate_id" base checkpoint (text_ne _ _ refl) h;
  }

  -- The checkpoint is embedded, its state is the session's, and the rest that the runtime reads stays.
  pub update_session-Carries : Carries (update_session base checkpoint) checkpoint base
  unfolding carried_fields capsule_field
  update_session-Carries = record {
    embeds = get-update_session "last_verified_checkpoint" base checkpoint (text_ne _ _ refl) h;
    runtime_state = get-update_session "runtime_state" base checkpoint (text_ne _ _ refl) h;
    current_state = get-update_session "current_state" base checkpoint (text_ne _ _ refl) h;
    evidence = get-update_session "unresolved_evidence" base checkpoint (text_ne _ _ refl) h;
    same = update_session-SameSession;
  }

  -- The mode is the approved handoff, and a repair packet stays what it was.
  pub update_session-handoff :
      (get "workflow_mode" (update_session base checkpoint) ≡ str "APPROVED_HANDOFF_MODE")
      × (get "repair_packet" (update_session base checkpoint) ≡ get "repair_packet" base)
  unfolding carried_fields capsule_field
  update_session-handoff = (
    get-update_session "workflow_mode" base checkpoint (text_ne _ _ refl) h,
    get-update_session "repair_packet" base checkpoint (text_ne _ _ refl) h,
  )
