-- ===== src/Service/Commit.antt =====
-- `_commit_orchestrator_events` and `record_runner_metrics` of src/esaa/service_core.py.
use esaa_event_sourcing_agen.Prelude.{
  ℕ, String, Bool, true, false, Option, none, some, List, [], ◌∷◌, if◌then◌else◌, eqb, length,
}
use esaa_event_sourcing_agen.Codes.{Code}
use esaa_event_sourcing_agen.Outcome.{Outcome, ok, raise, esaa_error, ◌>>=◌, ◌>>◌, guard}
use esaa_event_sourcing_agen.Machine.{Action}
use esaa_event_sourcing_agen.Event.{Runner, Event}
use esaa_event_sourcing_agen.Projector.{Projection, Materialized}
use esaa_event_sourcing_agen.Store.{Codec, Written, parse_event_store, next_event_seq}
use esaa_event_sourcing_agen.Service.Retry.{append_events_transactionally}
use esaa_event_sourcing_agen.Service.Seal.{seal}

-- The result of a commit. The keys of a dry run are `Option`s, and so are those that it takes from
-- the payload of the first event.
pub record Accepted : Type 0 where
  pub status : String
  pub actor : String
  pub action : Action
  pub event_id : String
  pub events_appended : ℕ
  pub last_event_seq : ℕ
  pub verify_status : String
  pub projection_hash_sha256 : String
  pub would_append_events : Option ℕ
  pub simulated_last_event_seq : Option ℕ
  pub simulated_projection_hash_sha256 : Option String
  pub task_id : Option String
  pub issue_id : Option String
  pub error_code : Option String
  pub source_action : Option String

-- what is decided before the append
pub record Sealed : Type 0 where
  pub first : Event
  pub base : List Event
  pub new_events : List Event
  pub final : Materialized

unfoldable pub report : Bool → Sealed → Accepted
report dry_run s = record {
  status = if dry_run then "dry_run" else "accepted";
  actor = s.first.actor;
  action = s.first.action;
  event_id = s.first.event_id;
  events_appended = length s.new_events;
  last_event_seq = s.final.roadmap.state.last_event_seq;
  verify_status = s.final.roadmap.state.verify_status;
  projection_hash_sha256 = s.final.roadmap.projection_hash_sha256;
  would_append_events = if dry_run then some (length s.new_events) else none;
  simulated_last_event_seq = if dry_run then some s.final.roadmap.state.last_event_seq else none;
  simulated_projection_hash_sha256 =
      if dry_run then some s.final.roadmap.projection_hash_sha256 else none;
  task_id = s.first.payload.task_id;
  issue_id = s.first.payload.issue_id;
  error_code = s.first.payload.error_code;
  source_action = s.first.payload.source_action;
}

module _ (k : Codec) (digest : Projection → String) (now : String) (runner : Option Runner) where
  unfoldable pub sealed : List Event → String → Outcome Sealed
  sealed [] text = raise (esaa_error Code.invalid_argument)
  sealed (e ∷ es) text = do
    events ← parse_event_store k text
    guard (eqb e.event_seq (next_event_seq events)) Code.event_seq_non_monotonic
    result ← seal digest now runner events (e ∷ es)
    ok (record { first = e; base = events; new_events = result.0; final = result.1 })

  module _ (others : ℕ → String → String) (max_retries : ℕ) where
    -- the append, unless it is a dry run, and the result
    unfoldable pub finish : Bool → String → Outcome Sealed → Written Accepted
    unfolding report
    finish dry_run text (raise f) = record { text = text; result = raise f }
    finish true text (ok s) = record { text = text; result = ok (report true s) }
    finish false text (ok s) =
        let tried =
          append_events_transactionally k digest now others s.new_events max_retries s.base text in
        record {
          text = tried.written.text;
          result = tried.written.result >>= λ r. ok (report false s);
        }

    unfoldable pub commit_orchestrator_events : List Event → Bool → String → Written Accepted
    unfolding finish
    commit_orchestrator_events candidates dry_run text =
        finish dry_run text (sealed candidates text)
