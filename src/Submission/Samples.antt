-- ===== src/Submission/Samples.antt =====
-- A claimed task that is completed with one file.
use esaa_event_sourcing_agen.Prelude.{
  ◌≡◌, refl, true, false, none, some, List, [], ◌∷◌, ◌==◌, strip, to_slashes, drop_dots,
  ends_in_slash, ends_in_line_feed, has_prefix, lookup, put, remove, padded, is_blank, or_else,
  join,
}
use esaa_event_sourcing_agen.Prelude.Sorting.{sort_by}
use esaa_event_sourcing_agen.Prelude.Paths.{split_on, at_root, path_parts}
use esaa_event_sourcing_agen.Actions.{action_text}
use esaa_event_sourcing_agen.Outcome.{ok}
use esaa_event_sourcing_agen.Machine.{
  Status, Action, allowed_actions_for, next_status, classify_transition,
}
use esaa_event_sourcing_agen.Event.{Payload, Event, empty_payload, make_event}
use esaa_event_sourcing_agen.Projector.{
  empty_state, new_task, update_task, ensure_owner, check_transition, claim_task, complete_task,
  on_task, apply_task_create, dispatch, apply_event, replay_from, replay, index_counts, issues_view,
  lessons_by_enforcement, lessons_view, normalize_legacy_verify_status, compute_projection_hash,
  roadmap_view, materialize,
}
use esaa_event_sourcing_agen.Conflicts.{normalize_rel_path}
use esaa_event_sourcing_agen.Scheduling.{all_tasks_done}
use esaa_event_sourcing_agen.Store.{
  splitlines, stored_lines, has_break, find_anchor, validate_hash_chain, latest_hash, lift_role,
  prepare_events_for_append, normalize_legacy_event, is_canonical, validate_runner_block, decoded,
  check_event, parse_lines, parse_event_store, verify_appended_lines, written_lines, append_lines,
  check_seq, check_hash, planned, persist, commit, carried_out, plan_append, next_event_seq,
  append_transactional,
}
use esaa_event_sourcing_agen.Policy.{
  penalizes, count_penalizing_rejections, is_blocked_by_max_attempts, runner_validation_mode,
  validate_runner_id, review_authorization_mode, resolve_role,
}
use esaa_event_sourcing_agen.Service.{
  is_stale, renumber, build_events, attempt, retry, expecting, append_events_transactionally,
  run_end, verify_start, verify_ok, is_complete, end_run,
}
use esaa_event_sourcing_agen.Validation.{
  FileUpdate, AgentOutput, resource_limits_from_policy, file_update_size, check_sizes,
  validate_file_update_resource_limits, unique_paths, validate_unique_file_update_paths,
  validate_safe_path, all_known, min_checks, check_event_fields, task_accepts_external_path,
  matches_any, is_writable, in_scope_patch, is_external_write, check_path, validate_boundary,
  each_boundary, validate_boundaries, validate_agent_output,
}
use esaa_event_sourcing_agen.Edits.Resolving.{
  resolve_update, resolve_edit_updates, normalize_file_updates,
}
use esaa_event_sourcing_agen.Effects.{
  Update, Archive, staged_path_of, staged_entry, staged_entries, write_staged, stage_file_updates,
  commit_staged, discard_staged, compute_file_metadata, write_artifact, compute_all,
  stage_and_compute,
}
use esaa_event_sourcing_agen.Examples.{stamp, event, codec_of}
use esaa_event_sourcing_agen.Submission.{
  Setting, Site, SubmitResult, find_task, checked_task, checked_output, previewed, prepare,
  role_for, unstaged_entry, stage_phase, first_named, add_event, with_write, with_hotfix,
  with_resolution, candidates, seal_started, submit_result, moved, appended, with_sealed,
  with_candidates, with_prepared, submit,
}
use esaa_event_sourcing_agen.Submission.Acceptance.{IsAccepted, submit-IsAccepted}

program : Unit {0}
unfolding strip to_slashes drop_dots ends_in_slash ends_in_line_feed has_prefix lookup put remove
    padded is_blank sort_by split_on at_root path_parts action_text allowed_actions_for next_status
    classify_transition make_event empty_state new_task update_task ensure_owner check_transition
    claim_task complete_task on_task apply_task_create dispatch apply_event replay_from replay
    index_counts issues_view lessons_by_enforcement lessons_view normalize_legacy_verify_status
    compute_projection_hash roadmap_view materialize normalize_rel_path all_tasks_done splitlines
    stored_lines has_break find_anchor validate_hash_chain latest_hash lift_role
    prepare_events_for_append normalize_legacy_event is_canonical validate_runner_block decoded
    check_event parse_lines parse_event_store verify_appended_lines written_lines append_lines
    check_seq check_hash planned persist commit carried_out plan_append next_event_seq
    append_transactional penalizes count_penalizing_rejections is_blocked_by_max_attempts
    runner_validation_mode validate_runner_id review_authorization_mode resolve_role is_stale
    renumber build_events attempt retry expecting append_events_transactionally run_end verify_start
    verify_ok is_complete end_run resource_limits_from_policy file_update_size check_sizes
    validate_file_update_resource_limits unique_paths validate_unique_file_update_paths
    validate_safe_path all_known min_checks check_event_fields task_accepts_external_path
    matches_any is_writable in_scope_patch is_external_write check_path validate_boundary
    each_boundary validate_boundaries validate_agent_output resolve_update resolve_edit_updates
    normalize_file_updates staged_path_of staged_entry staged_entries write_staged
    stage_file_updates commit_staged discard_staged compute_file_metadata write_artifact compute_all
    stage_and_compute find_task first_named checked_task checked_output previewed prepare role_for
    unstaged_entry stage_phase add_event with_write with_hotfix with_resolution candidates
    seal_started submit_result moved appended with_sealed with_candidates with_prepared submit
program = tt

abbrev for_task : Payload
for_task = record empty_payload { task_id = some "T-1" }

abbrev created : Event
created =
    event 1 "EV-00000001" Action.task_create
      (record for_task { title = some "First"; task_kind = some "spec" })

abbrev claimed : Event
claimed = event 2 "EV-00000002" Action.claim for_task

abbrev archive : Archive
archive = record {
  sha256 = λ s. join "h" s;
  canonical = λ a. or_else a.content "";
  canonical_new = λ metadata content now. content;
  written = λ metadata content now sha. content;
  loads = λ text. none;
}

abbrev as_update : FileUpdate → Update
as_update u = record {
  path = u.path;
  content = or_else u.content "";
  final_abs_path = none;
  effect_scope = none;
  source_path = none;
  target = none;
  target_root = none;
  target_path = none;
}

abbrev as_updates : List FileUpdate → List Update
as_updates [] = []
as_updates (u ∷ us) = as_update u ∷ as_updates us

abbrev setting : Setting
setting = record {
  store = codec_of (created ∷ claimed ∷ []);
  archive = archive;
  digest = λ p. p.project_name;
  fnmatch = λ path pattern. path == pattern;
  conforms = λ output. true;
  resolve_external = λ task updates. ok (as_updates updates);
  others = λ n text. text;
  now = stamp;
  runner = none;
  runner_id = "local";
  known_runners = [];
  swarm = [];
  policy = record { runner_validation = none; review_authorization = none };
  limits = record { max_file_updates = none; max_bytes_per_update = none; max_bytes_total = none };
  max_attempts = 3;
  submit_retries = 2;
  contract = record {
    allowed_agent_actions = "complete" ∷ [];
    forbidden_fields = [];
    by_task_kind =
        ("spec", record { read = []; write = some ("docs/a.md" ∷ []); forbidden_write = [] }) ∷ [];
    patch_scope_enabled = false;
  };
  root = "/w";
}

abbrev output : AgentOutput
output = record {
  root_keys = "activity_event" ∷ "file_updates" ∷ [];
  activity_event = record {
    keys = "action" ∷ [];
    action = Action.complete;
    payload = record for_task {
      prior_status = some Status.in_progress;
      verification = some (record { checks = some ("read it" ∷ []) });
    };
  };
  file_updates =
      record { path = "./docs/a.md"; content = some "text"; edits = none; base_sha256 = none } ∷ [];
}

abbrev site : Site
site = record { text = "EV-00000001\nEV-00000002\n"; disk = [] }

abbrev result : SubmitResult
result = record {
  status = "accepted";
  actor = "orchestrator";
  task_id = "T-1";
  action = Action.complete;
  events_appended = 4;
  files_written = 1;
  last_event_seq = 6;
  verify_status = "ok";
  projection_hash_sha256 = "esaa-core";
  would_append_events = none;
  simulated_last_event_seq = none;
  simulated_projection_hash_sha256 = none;
  external_effects = [];
}

accepted : (submit setting "orchestrator" output false site).result ≡ ok result
unfolding program
accepted = refl

written :
    lookup "/w/docs/a.md" (submit setting "orchestrator" output false site).site.disk ≡ some "text"
unfolding program
written = refl

submit-IsAccepted_example :
    IsAccepted setting output false site
      (submit setting "orchestrator" output false site).site
      result
submit-IsAccepted_example =
    submit-IsAccepted setting output "orchestrator" false site result accepted
