-- ===== src/Hotfix/Samples.antt =====
-- A log with a done task and an issue about it, and the hotfix that is built for it.
use esaa_event_sourcing_agen.Prelude.{
  ℕ, ◌≡◌, refl, String, true, ◌++◌, none, some, List, [], ◌∷◌, put, lookup, padded, is_blank,
}
use esaa_event_sourcing_agen.Prelude.Sorting.{sort_by}
use esaa_event_sourcing_agen.Outcome.{ok}
use esaa_event_sourcing_agen.Json.{obj, end}
use esaa_event_sourcing_agen.Machine.{Status, Action, Decision, classify_transition, next_status}
use esaa_event_sourcing_agen.Event.{Payload, Event, empty_payload, make_event}
use esaa_event_sourcing_agen.Projector.{
  Task, Issue, IssueStatus, State, Projection, Materialized, empty_state, new_task, update_task,
  ensure_owner, check_transition, claim_task, complete_task, review_task, apply_issue_report,
  on_task, apply_task_create, dispatch, apply_event, replay_from, replay, index_counts, append_to,
  open_from, issues_view, lessons_view, compute_projection_hash, roadmap_view, materialize,
}
use esaa_event_sourcing_agen.Scheduling.{by_id}
use esaa_event_sourcing_agen.Store.{next_event_seq}
use esaa_event_sourcing_agen.Hotfix.{
  issue_by_id, check_request, hotfix_payload, answer, validate_hotfix_request, build_hotfix_event,
  is_resolved_in, resolve_payload, build_issue_resolve_event,
}
use esaa_event_sourcing_agen.Hotfix.Requests.{IsJustified, IsHotfix, build_hotfix_event-IsJustified}
use esaa_event_sourcing_agen.Hotfix.Closing.{IsDue, build_issue_resolve_event-resolves}

program : Unit {0}
unfolding make_event padded is_blank put lookup sort_by empty_state new_task update_task
    ensure_owner check_transition claim_task complete_task review_task apply_issue_report on_task
    apply_task_create dispatch apply_event replay_from replay classify_transition next_status
    index_counts append_to open_from issues_view lessons_view compute_projection_hash roadmap_view
    materialize by_id next_event_seq issue_by_id check_request hotfix_payload answer
    validate_hotfix_request build_hotfix_event is_resolved_in build_issue_resolve_event
program = tt

abbrev stamp : String
stamp = "2026-01-01T00:00:00Z"

abbrev event : ℕ → Action → Payload → Event
unfolding make_event
event seq = make_event stamp none seq "agent-a"

abbrev for_task : Payload
for_task = record empty_payload { task_id = some "T-1" }

abbrev request : Payload
request = record for_task { issue_id = some "I-1"; fixes = some "T-1" }

abbrev log : List Event
log =
    event 1 Action.task_create (record for_task { title = some "First"; task_kind = some "spec" })
    ∷ event 2 Action.claim for_task
    ∷ event 3 Action.complete for_task
    ∷ event 4 Action.review (record for_task { decision = some Decision.approve })
    ∷ event 5 Action.issue_report request
    ∷ []

abbrev digest : Projection → String
digest p = p.schema_version

abbrev hotfix : Event
unfolding make_event hotfix_payload
hotfix =
    make_event stamp none 6 "orchestrator" Action.hotfix_create (hotfix_payload request "I-1" "T-1")

built : build_hotfix_event digest stamp none log request true ≡ ok (some hotfix)
unfolding program event hotfix
built = refl

build_hotfix_event-IsJustified_example :
    (views : Materialized) × (materialize digest stamp log ≡ ok views)
    × IsJustified views "I-1" "T-1"
    × IsHotfix log request hotfix
build_hotfix_event-IsJustified_example =
    build_hotfix_event-IsJustified digest stamp none log request true hotfix built

-- The hotfix, claimed, completed and approved.
abbrev for_hotfix : Payload
for_hotfix = record empty_payload { task_id = some "HF-I-1"; decision = some Decision.approve }

abbrev hotfix_task : Task
hotfix_task = record {
  task_id = "HF-I-1";
  task_kind = "impl";
  title = "Hotfix for I-1";
  description = "";
  status = Status.review;
  depends_on = [];
  targets = [];
  outputs = record { files = none; external_files = [] };
  done_is_immutable = true;
  is_hotfix = true;
  issue_id = some "I-1";
  fixes = some "T-1";
  scope_patch = none;
  required_verification = none;
  baseline_id = none;
  boundary_grant = none;
  plugin = none;
  assigned_to = none;
  started_at = none;
  completed_at = none;
  verification = none;
}

abbrev report : List Event
report = event 1 Action.issue_report request ∷ []

abbrev reported_issue : Issue
reported_issue = record {
  issue_id = "I-1";
  status = IssueStatus.open_issue;
  severity = "medium";
  title = "I-1";
  baseline_id = none;
  affected = record { baseline_id = none; components = obj end };
  evidence = obj end;
  resolution = none;
  reported_by_task_id = some "T-1";
  fixes_task_id = some "T-1";
  hotfix_task_id = none;
  created_event_seq = 1;
  resolved_event_seq = none;
}

abbrev reported_state : State
unfolding empty_state
reported_state = record (empty_state stamp "esaa-core") {
  issues = ("I-1", reported_issue) ∷ [];
  last_event_seq = 1;
  updated_at = stamp;
}

abbrev closing : Event
unfolding make_event resolve_payload
closing =
    make_event stamp none 2 "orchestrator" Action.issue_resolve
      (resolve_payload hotfix_task "I-1" "HF-I-1")

closes : build_issue_resolve_event stamp none report hotfix_task for_hotfix ≡ ok (some closing)
unfolding program event closing
closes = refl

replays : replay stamp "esaa-core" report ≡ ok reported_state
unfolding program event reported_state
replays = refl

known : lookup "I-1" reported_state.issues ≡ some reported_issue
unfolding program reported_state
known = refl

build_issue_resolve_event-resolves_example :
    IsDue report hotfix_task for_hotfix "I-1"
    × ((s' : State) × (i' : Issue) × (replay stamp "esaa-core" (report ++ closing ∷ []) ≡ ok s')
        × (lookup "I-1" s'.issues ≡ some i')
        × (i'.status ≡ IssueStatus.resolved)
        × (s'.tasks ≡ reported_state.tasks))
build_issue_resolve_event-resolves_example =
    build_issue_resolve_event-resolves stamp none report hotfix_task for_hotfix closing "I-1"
      "esaa-core" reported_state reported_issue closes refl replays known
