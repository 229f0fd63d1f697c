-- ===== src/Replay/Samples.antt =====
-- A small log, what it replays to, and the theorems about replays at it.
use esaa_event_sourcing_agen.Prelude.{
  ◌≡◌, ◌↔◌, refl, true, false, String, ℕ, none, some, List, [], ◌∷◌, ◌++◌, arith, All, get_elem?,
}
use esaa_event_sourcing_agen.Codes.{Code}
use esaa_event_sourcing_agen.Outcome.{esaa_error, ok, raise}
use esaa_event_sourcing_agen.Machine.{Status, Action, Decision, next_status, classify_transition}
use esaa_event_sourcing_agen.Event.{Payload, Event, empty_payload, make_event}
use esaa_event_sourcing_agen.Projector.{
  Task, State, empty_state, new_task, update_task, ensure_owner, check_transition, claim_task,
  complete_task, review_task, on_task, apply_task_create, dispatch, apply_event, replay_from,
  replay,
}
use esaa_event_sourcing_agen.Replay.Immutable.{done_is_immutable_lem}
use esaa_event_sourcing_agen.Replay.Ownership.{IsLocked, replay-IsLocked, claim_task-ok}
use esaa_event_sourcing_agen.Replay.Trail.{Approved, done_needs_review}

abbrev sample_event : ℕ → String → Action → Payload → Event
unfolding make_event
sample_event = make_event "2026-01-01T00:00:00Z" none

abbrev for_task : Payload
for_task = record empty_payload { task_id = some "T-1" }

abbrev created : Event
created =
    sample_event 1 "orchestrator" Action.task_create
      (record for_task { title = some "First"; task_kind = some "spec" })

abbrev claimed : Event
claimed = sample_event 2 "agent-a" Action.claim for_task

abbrev completed : Event
completed =
    sample_event 3 "agent-a" Action.complete
      (record for_task { verification = some (record { checks = some ("ok" ∷ []) }) })

abbrev approved : Event
approved =
    sample_event 4 "agent-a" Action.review (record for_task { decision = some Decision.approve })

program : Unit {0}
unfolding make_event empty_state new_task update_task ensure_owner check_transition claim_task
    complete_task review_task on_task apply_task_create dispatch apply_event replay_from replay
    classify_transition next_status
program = tt

abbrev fresh_task : Task
fresh_task = record {
  task_id = "T-1";
  task_kind = "spec";
  title = "First";
  description = "First";
  status = Status.todo;
  depends_on = [];
  targets = [];
  outputs = record { files = some []; external_files = [] };
  done_is_immutable = true;
  is_hotfix = false;
  issue_id = none;
  fixes = none;
  scope_patch = none;
  required_verification = none;
  baseline_id = none;
  boundary_grant = none;
  plugin = none;
  assigned_to = none;
  started_at = none;
  completed_at = none;
  verification = none;
}

abbrev stamp : String
stamp = "2026-01-01T00:00:00Z"

abbrev held_task : Task
held_task = record fresh_task {
  status = Status.in_progress;
  assigned_to = some "agent-a";
  started_at = some stamp;
}

abbrev done_task : Task
done_task = record held_task {
  status = Status.done;
  verification = some (record { checks = some ("ok" ∷ []) });
  completed_at = some stamp;
}

abbrev board : ℕ → List Task → State
board seq tasks = record {
  master_correlation_id = none;
  run_id = none;
  run_status = "initialized";
  last_event_seq = seq;
  verify_status = "unknown";
  updated_at = stamp;
  project_name = "esaa-core";
  audit_scope = ".roadmap/";
  tasks = tasks;
  issues = [];
  lessons = [];
}

abbrev short_log : List Event
short_log = created ∷ []

abbrev log : List Event
log = created ∷ claimed ∷ completed ∷ approved ∷ []

replay-short_log : replay stamp "esaa-core" short_log ≡ ok (board 1 (fresh_task ∷ []))
unfolding program
replay-short_log = refl

replay-log : replay stamp "esaa-core" log ≡ ok (board 4 (done_task ∷ []))
unfolding program
replay-log = refl

-- A second claim of a task that is held, and a change of one that is done, are refused.
refused :
    (replay stamp "esaa-core" (created ∷ claimed ∷ claimed ∷ [])
      ≡ raise (esaa_error Code.lock_violation))
    × (replay stamp "esaa-core" (log ++ claimed ∷ [])
        ≡ raise (esaa_error Code.immutable_done_violation))
unfolding program
refused = (refl, refl)

more :
    replay_from (board 4 (done_task ∷ [])) (created ∷ [])
    ≡ ok (board 1 (done_task ∷ fresh_task ∷ []))
unfolding program
more = refl

done_is_immutable_example : get_elem? (done_task ∷ fresh_task ∷ []) 0 ≡ some done_task
done_is_immutable_example =
    done_is_immutable_lem (board 4 (done_task ∷ [])) (board 1 (done_task ∷ fresh_task ∷ []))
      (created ∷ []) 0 done_task more refl refl

replay-IsLocked_example : All IsLocked (done_task ∷ [])
replay-IsLocked_example =
    replay-IsLocked stamp "esaa-core" (board 4 (done_task ∷ [])) log replay-log

fresh_task-IsLocked : IsLocked fresh_task
fresh_task-IsLocked = ground arith

claim_task-ok_example : (Status.todo ≡ Status.todo) ↔ (claim_task claimed fresh_task ≡ ok held_task)
unfolding sample_event
claim_task-ok_example = claim_task-ok claimed fresh_task fresh_task-IsLocked

done_needs_review_example :
    (actor : String) × (some "agent-a" ≡ some actor) × Approved "T-1" actor log
done_needs_review_example =
    done_needs_review stamp "esaa-core" (board 4 (done_task ∷ [])) log 0 done_task replay-log refl
      refl
