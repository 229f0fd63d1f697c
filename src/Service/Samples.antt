-- ===== src/Service/Samples.antt =====
-- Commits on a small store, with a codec for the events used here.
use esaa_event_sourcing_agen.Prelude.{
  ℕ, zero, suc, ◌≤◌, ◌≡◌, refl, String, true, false, Option, none, some, List, [], ◌∷◌, ◌==◌,
  if◌then◌else◌, join, padded, put, is_blank, ends_in_line_feed, or_else, arith,
}
use esaa_event_sourcing_agen.Prelude.Sorting.{sort_by}
use esaa_event_sourcing_agen.Outcome.{ok}
use esaa_event_sourcing_agen.Machine.{Action}
use esaa_event_sourcing_agen.Event.{Payload, Event, empty_payload, make_event}
use esaa_event_sourcing_agen.Projector.{
  State, Projection, Materialized, empty_state, dispatch, apply_event, replay_from, replay,
  index_counts, issues_view, lessons_by_enforcement, lessons_view, normalize_legacy_verify_status,
  compute_projection_hash, roadmap_view, materialize,
}
use esaa_event_sourcing_agen.Scheduling.{all_tasks_done}
use esaa_event_sourcing_agen.Store.{
  RawEvent, Codec, raw_of, splitlines, stored_lines, has_break, find_anchor, validate_hash_chain,
  latest_hash, lift_role, prepare_events_for_append, normalize_legacy_event, is_canonical,
  validate_runner_block, decoded, check_event, parse_lines, parse_event_store,
  verify_appended_lines, written_lines, append_lines, check_seq, check_hash, planned, persist,
  commit, carried_out, plan_append, next_event_seq, append_transactional,
}
use esaa_event_sourcing_agen.Service.{
  Accepted, is_stale, renumber, build_events, attempt, retry, expecting,
  append_events_transactionally, run_end, verify_start, verify_ok, is_complete, end_run, seal,
  sealed, report, finish, commit_orchestrator_events,
}
use esaa_event_sourcing_agen.Service.Settled.{append_events_transactionally-attempts}
use esaa_event_sourcing_agen.Service.Sealing.{IsSealed, seal-IsSealed}
use esaa_event_sourcing_agen.Service.Preview.{as_preview, commit_orchestrator_events-preview}

program : Unit {0}
unfolding make_event padded put is_blank ends_in_line_feed sort_by empty_state dispatch apply_event
    replay_from replay index_counts issues_view lessons_by_enforcement lessons_view
    normalize_legacy_verify_status compute_projection_hash roadmap_view materialize all_tasks_done
    splitlines stored_lines has_break find_anchor validate_hash_chain latest_hash lift_role
    prepare_events_for_append normalize_legacy_event is_canonical validate_runner_block decoded
    check_event parse_lines parse_event_store verify_appended_lines written_lines append_lines
    check_seq check_hash planned persist commit carried_out plan_append next_event_seq
    append_transactional is_stale renumber build_events attempt retry expecting
    append_events_transactionally run_end verify_start verify_ok is_complete end_run seal sealed
    report finish commit_orchestrator_events
program = tt

abbrev stamp : String
stamp = "2026-01-01T00:00:00Z"

abbrev event : ℕ → String → Action → Payload → Event
event seq event_id action payload = record {
  schema_version = "0.4.1";
  event_id = event_id;
  event_seq = seq;
  ts = stamp;
  actor = "orchestrator";
  runner = none;
  action = action;
  payload = payload;
  reviewer_role = none;
  prev_event_hash = none;
  event_hash = none;
}

abbrev started : Event
started = event 1 "EV-00000001" Action.run_start empty_payload

-- Another process starts a run of another project.
abbrev elsewhere : Event
elsewhere =
    event 2 "EV-00000002" Action.run_start (record empty_payload { project_name = some "other" })

abbrev verdict : Event
verdict =
    event 2 "EV-00000002" Action.verify_ok
      (record empty_payload { projection_hash_sha256 = some "esaa-core" })

abbrev measured : Event
measured = event 2 "EV-00000002" Action.runner_metrics empty_payload

abbrev loads : String → Option RawEvent
loads line =
    if line == "EV-00000001"
    then some (raw_of started)
    else if line == "EV-00000002"
    then some (raw_of elsewhere)
    else none

-- The line of an event is its id with the hash that it records.
abbrev plain : Codec
plain = record {
  dumps = λ e. join e.event_id (or_else e.payload.projection_hash_sha256 "");
  loads = loads;
  canonical = λ e. e.event_id;
  sha256 = λ s. join "h" s;
}

abbrev digest : Projection → String
digest p = p.project_name

-- The other process writes before the first attempt.
abbrev others : ℕ → String → String
others zero text = join text "EV-00000002\n"
others (suc n) text = text

abbrev alone : ℕ → String → String
alone n text = text

-- The retry renumbers the verdict, which keeps the hash of the log that it was made for.
outdated :
    (append_events_transactionally plain digest stamp others
      (verdict ∷ [])
      2
      (started ∷ [])
      "EV-00000001\n").written
    ≡ record {
      text = "EV-00000001\nEV-00000002\nEV-00000003esaa-core\n";
      result =
          ok (record { last_event_seq = 3; projection_hash_sha256 = "other"; events_appended = 1 });
    }
unfolding program
outdated = refl

append_events_transactionally-attempts_example :
    ((append_events_transactionally plain digest stamp others
        (verdict ∷ [])
        2
        (started ∷ [])
        "EV-00000001\n").attempts
      ≤ 2)
    × (is_stale
          (append_events_transactionally plain digest stamp others
            (verdict ∷ [])
            2
            (started ∷ [])
            "EV-00000001\n").written.result
        ≡ false)
append_events_transactionally-attempts_example =
    append_events_transactionally-attempts plain digest stamp others (verdict ∷ []) 2 (started ∷ [])
      "EV-00000001\n" (omega arith)

abbrev accepted : Accepted
accepted = record {
  status = "accepted";
  actor = "orchestrator";
  action = Action.runner_metrics;
  event_id = "EV-00000002";
  events_appended = 3;
  last_event_seq = 4;
  verify_status = "ok";
  projection_hash_sha256 = "esaa-core";
  would_append_events = none;
  simulated_last_event_seq = none;
  simulated_projection_hash_sha256 = none;
  task_id = none;
  issue_id = none;
  error_code = none;
  source_action = none;
}

committed :
    (commit_orchestrator_events plain digest stamp none alone 2
      (measured ∷ [])
      false
      "EV-00000001\n").result
    ≡ ok accepted
unfolding program
committed = refl

commit_orchestrator_events-preview_example :
    ((commit_orchestrator_events plain digest stamp none alone 2
        (measured ∷ [])
        true
        "EV-00000001\n").text
      ≡ "EV-00000001\n")
    × ((commit_orchestrator_events plain digest stamp none alone 2
          (measured ∷ [])
          true
          "EV-00000001\n").result
        ≡ ok (as_preview accepted))
commit_orchestrator_events-preview_example =
    commit_orchestrator_events-preview plain digest stamp none alone 2 (measured ∷ [])
      "EV-00000001\n" accepted committed

abbrev state : State
unfolding empty_state
state = record (empty_state stamp "esaa-core") {
  run_status = "initialized";
  verify_status = "ok";
  last_event_seq = 4;
  updated_at = stamp;
}

abbrev final : Materialized
unfolding roadmap_view issues_view
final = record {
  roadmap = roadmap_view digest state;
  issues = issues_view state;
  lessons = record { lessons = []; by_task_kind = []; by_enforcement_applies_to = [] };
}

abbrev finished : List Event
finished =
    measured
    ∷ event 3 "EV-00000003" Action.verify_start empty_payload
    ∷ event 4 "EV-00000004" Action.verify_ok
        (record empty_payload { projection_hash_sha256 = some "esaa-core" })
    ∷ []

sealed_log : seal digest stamp none (started ∷ []) (measured ∷ []) ≡ ok (finished, final)
unfolding program state final
sealed_log = refl

seal-IsSealed_example : IsSealed digest stamp none (started ∷ []) (measured ∷ []) finished final
seal-IsSealed_example =
    seal-IsSealed digest stamp none (started ∷ []) (measured ∷ []) finished final sealed_log
