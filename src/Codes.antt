-- ===== src/Codes.antt =====
-- src/esaa/reject_codes.py: the canonical vocabulary of reject codes and its three families.
use esaa_event_sourcing_agen.Prelude.{String, Bool, true, false}

-- One constructor for each constant; `name` gives the constant's text.
pub data Code : Type 0 where
  missing_claim missing_complete missing_verification workflow_gate_violation action_collapse : Code
  prior_status_mismatch lock_violation immutable_done_violation review_role_violation : Code
  adapter_execute_failed boundary_violation edit_ambiguous edit_base_mismatch edit_invalid : Code
  edit_target_not_found external_root_not_allowed file_update_duplicate_path : Code
  resource_limit_exceeded bootstrap_profile_invalid bootstrap_target_exists : Code
  clear_requires_force duplicate_task event_seq_non_monotonic init_blocked input_invalid : Code
  input_not_found invalid_argument issue_not_found max_attempts_exceeded plugin_forbidden_file :
      Code
  plugin_input_invalid plugin_invalid_id plugin_invalid_json plugin_lock_invalid : Code
  plugin_not_a_directory plugin_not_found plugin_not_installed plugin_path_invalid : Code
  plugin_roadmap_invalid plugin_schema_invalid plugin_target_exists roadmap_lock_invalid : Code
  roadmap_dir_missing roadmap_not_found roadmap_status_invalid projection_unreadable : Code
  runner_invalid runner_unknown schema_invalid schema_missing snapshot_archive_missing : Code
  snapshot_before_unverified snapshot_tail_missing store_lock_timeout append_verify_failed : Code
  lock_takeover task_not_found unknown_action unknown_command verify_not_ok write_conflict : Code
  jsonl_invalid event_seq_invalid event_id_duplicate event_missing_fields chain_broken : Code
  chain_already_anchored chain_not_anchored stale_state_seq stale_state_hash : Code
  hotfix_invalid hotfix_already_exists hotfix_issue_not_found hotfix_issue_not_open : Code
  hotfix_target_not_found hotfix_target_not_done hotfix_scope_invalid : Code

pub name : Code → String
name missing_claim = "MISSING_CLAIM"
name missing_complete = "MISSING_COMPLETE"
name missing_verification = "MISSING_VERIFICATION"
name workflow_gate_violation = "WORKFLOW_GATE_VIOLATION"
name action_collapse = "ACTION_COLLAPSE"
name prior_status_mismatch = "PRIOR_STATUS_MISMATCH"
name lock_violation = "LOCK_VIOLATION"
name immutable_done_violation = "IMMUTABLE_DONE_VIOLATION"
name review_role_violation = "REVIEW_ROLE_VIOLATION"
name adapter_execute_failed = "ADAPTER_EXECUTE_FAILED"
name boundary_violation = "BOUNDARY_VIOLATION"
name edit_ambiguous = "EDIT_AMBIGUOUS"
name edit_base_mismatch = "EDIT_BASE_MISMATCH"
name edit_invalid = "EDIT_INVALID"
name edit_target_not_found = "EDIT_TARGET_NOT_FOUND"
name external_root_not_allowed = "EXTERNAL_ROOT_NOT_ALLOWED"
name file_update_duplicate_path = "FILE_UPDATE_DUPLICATE_PATH"
name resource_limit_exceeded = "RESOURCE_LIMIT_EXCEEDED"
name bootstrap_profile_invalid = "BOOTSTRAP_PROFILE_INVALID"
name bootstrap_target_exists = "BOOTSTRAP_TARGET_EXISTS"
name clear_requires_force = "CLEAR_REQUIRES_FORCE"
name duplicate_task = "DUPLICATE_TASK"
name event_seq_non_monotonic = "EVENT_SEQ_NON_MONOTONIC"
name init_blocked = "INIT_BLOCKED"
name input_invalid = "INPUT_INVALID"
name input_not_found = "INPUT_NOT_FOUND"
name invalid_argument = "INVALID_ARGUMENT"
name issue_not_found = "ISSUE_NOT_FOUND"
name max_attempts_exceeded = "MAX_ATTEMPTS_EXCEEDED"
name plugin_forbidden_file = "PLUGIN_FORBIDDEN_FILE"
name plugin_input_invalid = "PLUGIN_INPUT_INVALID"
name plugin_invalid_id = "PLUGIN_INVALID_ID"
name plugin_invalid_json = "PLUGIN_INVALID_JSON"
name plugin_lock_invalid = "PLUGIN_LOCK_INVALID"
name plugin_not_a_directory = "PLUGIN_NOT_A_DIRECTORY"
name plugin_not_found = "PLUGIN_NOT_FOUND"
name plugin_not_installed = "PLUGIN_NOT_INSTALLED"
name plugin_path_invalid = "PLUGIN_PATH_INVALID"
name plugin_roadmap_invalid = "PLUGIN_ROADMAP_INVALID"
name plugin_schema_invalid = "PLUGIN_SCHEMA_INVALID"
name plugin_target_exists = "PLUGIN_TARGET_EXISTS"
name roadmap_lock_invalid = "ROADMAP_LOCK_INVALID"
name roadmap_dir_missing = "ROADMAP_DIR_MISSING"
name roadmap_not_found = "ROADMAP_NOT_FOUND"
name roadmap_status_invalid = "ROADMAP_STATUS_INVALID"
name projection_unreadable = "PROJECTION_UNREADABLE"
name runner_invalid = "RUNNER_INVALID"
name runner_unknown = "RUNNER_UNKNOWN"
name schema_invalid = "SCHEMA_INVALID"
name schema_missing = "SCHEMA_MISSING"
name snapshot_archive_missing = "SNAPSHOT_ARCHIVE_MISSING"
name snapshot_before_unverified = "SNAPSHOT_BEFORE_UNVERIFIED"
name snapshot_tail_missing = "SNAPSHOT_TAIL_MISSING"
name store_lock_timeout = "STORE_LOCK_TIMEOUT"
name append_verify_failed = "APPEND_VERIFY_FAILED"
name lock_takeover = "LOCK_TAKEOVER"
name task_not_found = "TASK_NOT_FOUND"
name unknown_action = "UNKNOWN_ACTION"
name unknown_command = "UNKNOWN_COMMAND"
name verify_not_ok = "VERIFY_NOT_OK"
name write_conflict = "WRITE_CONFLICT"
name jsonl_invalid = "JSONL_INVALID"
name event_seq_invalid = "EVENT_SEQ_INVALID"
name event_id_duplicate = "EVENT_ID_DUPLICATE"
name event_missing_fields = "EVENT_MISSING_FIELDS"
name chain_broken = "CHAIN_BROKEN"
name chain_already_anchored = "CHAIN_ALREADY_ANCHORED"
name chain_not_anchored = "CHAIN_NOT_ANCHORED"
name stale_state_seq = "STALE_STATE_SEQ"
name stale_state_hash = "STALE_STATE_HASH"
name hotfix_invalid = "HOTFIX_INVALID"
name hotfix_already_exists = "HOTFIX_ALREADY_EXISTS"
name hotfix_issue_not_found = "HOTFIX_ISSUE_NOT_FOUND"
name hotfix_issue_not_open = "HOTFIX_ISSUE_NOT_OPEN"
name hotfix_target_not_found = "HOTFIX_TARGET_NOT_FOUND"
name hotfix_target_not_done = "HOTFIX_TARGET_NOT_DONE"
name hotfix_scope_invalid = "HOTFIX_SCOPE_INVALID"

pub is_workflow_gate : Code → Bool
is_workflow_gate missing_claim = true
is_workflow_gate missing_complete = true
is_workflow_gate missing_verification = true
is_workflow_gate workflow_gate_violation = true
is_workflow_gate action_collapse = true
is_workflow_gate prior_status_mismatch = true
is_workflow_gate lock_violation = true
is_workflow_gate immutable_done_violation = true
is_workflow_gate review_role_violation = true
is_workflow_gate _ = false

pub is_operational : Code → Bool
is_operational adapter_execute_failed = true
is_operational boundary_violation = true
is_operational edit_ambiguous = true
is_operational edit_base_mismatch = true
is_operational edit_invalid = true
is_operational edit_target_not_found = true
is_operational external_root_not_allowed = true
is_operational file_update_duplicate_path = true
is_operational resource_limit_exceeded = true
is_operational bootstrap_profile_invalid = true
is_operational bootstrap_target_exists = true
is_operational clear_requires_force = true
is_operational duplicate_task = true
is_operational event_seq_non_monotonic = true
is_operational init_blocked = true
is_operational input_invalid = true
is_operational input_not_found = true
is_operational invalid_argument = true
is_operational issue_not_found = true
is_operational max_attempts_exceeded = true
is_operational plugin_forbidden_file = true
is_operational plugin_input_invalid = true
is_operational plugin_invalid_id = true
is_operational plugin_invalid_json = true
is_operational plugin_lock_invalid = true
is_operational plugin_not_a_directory = true
is_operational plugin_not_found = true
is_operational plugin_not_installed = true
is_operational plugin_path_invalid = true
is_operational plugin_roadmap_invalid = true
is_operational plugin_schema_invalid = true
is_operational plugin_target_exists = true
is_operational projection_unreadable = true
is_operational runner_invalid = true
is_operational runner_unknown = true
is_operational roadmap_dir_missing = true
is_operational roadmap_lock_invalid = true
is_operational roadmap_not_found = true
is_operational roadmap_status_invalid = true
is_operational schema_invalid = true
is_operational schema_missing = true
is_operational snapshot_archive_missing = true
is_operational snapshot_before_unverified = true
is_operational snapshot_tail_missing = true
is_operational store_lock_timeout = true
is_operational append_verify_failed = true
is_operational lock_takeover = true
is_operational task_not_found = true
is_operational unknown_action = true
is_operational unknown_command = true
is_operational verify_not_ok = true
is_operational write_conflict = true
is_operational jsonl_invalid = true
is_operational event_seq_invalid = true
is_operational event_id_duplicate = true
is_operational event_missing_fields = true
is_operational chain_broken = true
is_operational chain_already_anchored = true
is_operational chain_not_anchored = true
is_operational stale_state_seq = true
is_operational stale_state_hash = true
is_operational _ = false

pub is_hotfix : Code → Bool
is_hotfix hotfix_invalid = true
is_hotfix hotfix_already_exists = true
is_hotfix hotfix_issue_not_found = true
is_hotfix hotfix_issue_not_open = true
is_hotfix hotfix_target_not_found = true
is_hotfix hotfix_target_not_done = true
is_hotfix hotfix_scope_invalid = true
is_hotfix _ = false
