-- ===== src/Admin/Samples.antt =====
-- A task that is created, and an output that is rejected, on a small store.
use esaa_event_sourcing_agen.Prelude.{
  ℕ, ◌≡◌, refl, String, Bool, true, false, none, some, List, [], ◌∷◌, strip, to_slashes, drop_dots,
  ends_in_line_feed, has_prefix, put, padded, is_blank,
}
use esaa_event_sourcing_agen.Prelude.Sorting.{sort_by}
use esaa_event_sourcing_agen.Prelude.Paths.{split_on, path_parts}
use esaa_event_sourcing_agen.Codes.{Code}
use esaa_event_sourcing_agen.Outcome.{ok, raise, esaa_error}
use esaa_event_sourcing_agen.Machine.{Action}
use esaa_event_sourcing_agen.Event.{Event, empty_payload, make_event}
use esaa_event_sourcing_agen.Projector.{
  Roadmap, Projection, empty_state, new_task, apply_task_create, dispatch, apply_event, replay_from,
  replay, index_counts, issues_view, lessons_by_enforcement, lessons_view,
  normalize_legacy_verify_status, compute_projection_hash, roadmap_view, materialize,
}
use esaa_event_sourcing_agen.Conflicts.{normalize_rel_path}
use esaa_event_sourcing_agen.Scheduling.{add_planned, tasks_with_planned_plugins, all_tasks_done}
use esaa_event_sourcing_agen.Store.{
  Codec, splitlines, stored_lines, has_break, find_anchor, validate_hash_chain, latest_hash,
  lift_role, prepare_events_for_append, normalize_legacy_event, is_canonical, validate_runner_block,
  decoded, check_event, parse_lines, parse_event_store, verify_appended_lines, written_lines,
  append_lines, check_seq, check_hash, planned, persist, commit, carried_out, plan_append,
  next_event_seq, append_transactional,
}
use esaa_event_sourcing_agen.Validation.{is_absolute, grant_pattern, validate_boundary_grant}
use esaa_event_sourcing_agen.Service.{
  Accepted, is_stale, renumber, build_events, attempt, retry, expecting,
  append_events_transactionally, run_end, verify_start, verify_ok, is_complete, end_run, seal,
  sealed, report, finish, commit_orchestrator_events,
}
use esaa_event_sourcing_agen.Examples.{stamp, event, codec_of}
use esaa_event_sourcing_agen.Admin.{
  TaskRequest, is_task_kind, create_payload, validate_roadmap, created_event, rejection_event,
  committed, create_task, reject_output,
}

program : Unit {0}
unfolding strip to_slashes drop_dots ends_in_line_feed has_prefix put padded is_blank sort_by
    split_on path_parts make_event empty_state new_task apply_task_create dispatch apply_event
    replay_from replay index_counts issues_view lessons_by_enforcement lessons_view
    normalize_legacy_verify_status compute_projection_hash roadmap_view materialize
    normalize_rel_path add_planned tasks_with_planned_plugins all_tasks_done splitlines stored_lines
    has_break find_anchor validate_hash_chain latest_hash lift_role prepare_events_for_append
    normalize_legacy_event is_canonical validate_runner_block decoded check_event parse_lines
    parse_event_store verify_appended_lines written_lines append_lines check_seq check_hash planned
    persist commit carried_out plan_append next_event_seq append_transactional is_absolute
    grant_pattern validate_boundary_grant is_stale renumber build_events attempt retry expecting
    append_events_transactionally run_end verify_start verify_ok is_complete end_run seal sealed
    report finish commit_orchestrator_events is_task_kind create_payload validate_roadmap
    created_event rejection_event committed create_task reject_output
program = tt

abbrev started : Event
started = event 1 "EV-00000001" Action.run_start empty_payload

abbrev plain : Codec
plain = codec_of (started ∷ [])

abbrev digest : Projection → String
digest p = p.project_name

abbrev alone : ℕ → String → String
alone n text = text

abbrev fits : Roadmap → Bool
fits r = true

abbrev request : List String → TaskRequest
request grant = record {
  task_id = " T-1 ";
  task_kind = "impl";
  title = "First";
  description = none;
  outputs = "src/a.py" ∷ [];
  depends_on = [];
  targets = [];
  boundary_grant = grant;
}

abbrev accepted : Accepted
accepted = record {
  status = "accepted";
  actor = "orchestrator";
  action = Action.task_create;
  event_id = "EV-00000002";
  events_appended = 3;
  last_event_seq = 4;
  verify_status = "ok";
  projection_hash_sha256 = "esaa-core";
  would_append_events = none;
  simulated_last_event_seq = none;
  simulated_projection_hash_sha256 = none;
  task_id = some "T-1";
  issue_id = none;
  error_code = none;
  source_action = none;
}

governed :
    (create_task plain digest stamp none alone 2 []
      (some fits)
      (request ("./.roadmap/x" ∷ []))
      false
      "EV-00000001\n").result
    ≡ raise (esaa_error Code.schema_invalid)
unfolding program
governed = refl

rejected :
    (reject_output plain digest stamp none alone 2 "T-1" "LOCK_VIOLATION" "claim" "locked" false
      "EV-00000001\n").result
    ≡ ok (record accepted {
      action = Action.output_rejected;
      error_code = some "LOCK_VIOLATION";
      source_action = some "claim";
    })
unfolding program
rejected = refl
