-- ===== src/Validation/Samples.antt =====
-- A claimed task with an output for it, and updates against a policy.
use esaa_event_sourcing_agen.Prelude.{
  ◌≡◌, ◌↔◌, refl, String, Bool, true, false, none, some, [], ◌∷◌, strip, to_slashes, drop_dots,
  ends_in_slash, has_prefix, lookup,
}
use esaa_event_sourcing_agen.Prelude.Paths.{split_on, path_parts}
use esaa_event_sourcing_agen.Codes.{Code}
use esaa_event_sourcing_agen.Outcome.{ok, raise, esaa_error, index_error}
use esaa_event_sourcing_agen.Actions.{action_text}
use esaa_event_sourcing_agen.Machine.{Status, Action, allowed_actions_for}
use esaa_event_sourcing_agen.Event.{empty_payload}
use esaa_event_sourcing_agen.Projector.{Task}
use esaa_event_sourcing_agen.Conflicts.{normalize_rel_path}
use esaa_event_sourcing_agen.Validation.{
  FileUpdate, ResourceLimits, ActivityEvent, AgentOutput, Contract, resource_limits_from_policy,
  file_update_size, check_sizes, validate_file_update_resource_limits, unique_paths,
  validate_unique_file_update_paths, validate_safe_path, is_absolute, grant_pattern,
  validate_boundary_grant, all_known, min_checks, check_event_fields, task_accepts_external_path,
  matches_any, is_writable, in_scope_patch, is_external_write, check_path, validate_boundary,
  each_boundary, validate_boundaries, validate_agent_output,
}
use esaa_event_sourcing_agen.Validation.Resources.{IsWithinLimits, resource_limits_iff}

program : Unit {0}
unfolding action_text strip to_slashes drop_dots ends_in_slash has_prefix lookup split_on path_parts
    normalize_rel_path allowed_actions_for resource_limits_from_policy file_update_size check_sizes
    validate_file_update_resource_limits unique_paths validate_unique_file_update_paths
    validate_safe_path is_absolute grant_pattern validate_boundary_grant all_known min_checks
    check_event_fields task_accepts_external_path matches_any is_writable in_scope_patch
    is_external_write check_path validate_boundary each_boundary validate_boundaries
    validate_agent_output
program = tt

abbrev task : Task
task = record {
  task_id = "T-1";
  task_kind = "spec";
  title = "First";
  description = "";
  status = Status.in_progress;
  depends_on = [];
  targets = [];
  outputs = record { files = some []; external_files = [] };
  done_is_immutable = true;
  is_hotfix = false;
  issue_id = none;
  fixes = none;
  scope_patch = none;
  required_verification = none;
  baseline_id = none;
  boundary_grant = none;
  plugin = none;
  assigned_to = some "agent-a";
  started_at = none;
  completed_at = none;
  verification = none;
}

abbrev update : String → String → FileUpdate
update path content = record {
  path = path;
  content = some content;
  edits = none;
  base_sha256 = none;
}

abbrev contract : Contract
contract = record {
  allowed_agent_actions = "claim" ∷ "complete" ∷ [];
  forbidden_fields = "assigned_to" ∷ [];
  by_task_kind =
      (
        "spec",
        record { read = []; write = some ("docs/a.md" ∷ []); forbidden_write = "src/b.py" ∷ [] },
      )
      ∷ [];
  patch_scope_enabled = true;
}

abbrev event : ActivityEvent
event = record {
  keys = "action" ∷ "task_id" ∷ [];
  action = Action.complete;
  payload = record empty_payload {
    task_id = some "T-1";
    prior_status = some Status.in_progress;
    verification = some (record { checks = some ("read it" ∷ []) });
  };
}

abbrev output : String → AgentOutput
output path = record {
  root_keys = "activity_event" ∷ "file_updates" ∷ [];
  activity_event = event;
  file_updates = update path "text" ∷ [];
}

abbrev conforms : AgentOutput → Bool
conforms o = true

climbing :
    validate_agent_output (λ path pattern. true) conforms (output "docs/../../a") contract task
    ≡ raise (esaa_error Code.boundary_violation)
unfolding program
climbing = refl

-- The current directory has no first part.
grant_of_dot : validate_boundary_grant ("." ∷ []) ≡ raise index_error
unfolding program
grant_of_dot = refl

abbrev policy : ResourceLimits
policy = record { max_file_updates = some 1; max_bytes_per_update = none; max_bytes_total = some 9 }

within : validate_file_update_resource_limits (update "docs/a.md" "text" ∷ []) policy ≡ ok tt
unfolding program
within = refl

resource_limits_iff_example :
    (validate_file_update_resource_limits (update "docs/a.md" "text" ∷ []) policy ≡ ok tt)
    ↔ IsWithinLimits (resource_limits_from_policy policy) (update "docs/a.md" "text" ∷ [])
resource_limits_iff_example = resource_limits_iff (update "docs/a.md" "text" ∷ []) policy
