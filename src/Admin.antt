-- ===== src/Admin.antt =====
-- src/esaa/task_admin.py: the commands that create tasks, reject outputs, and open and close hotfixes,
-- each by one event that is committed. The planned tasks come from the plugin files, and `fits` is the
-- answer of `jsonschema` on the roadmap, if its schema is there. The constant key
-- `schema_validated` of the result of create_task is left out.
use esaa_event_sourcing_agen.Prelude.{
  ℕ, String, Bool, true, false, not, ◌||◌, ◌==◌, Option, none, some, List, [], ◌∷◌, ◌++◌, map,
  if◌then◌else◌, or_else, truthy, any, strip,
}
use esaa_event_sourcing_agen.Codes.{Code}
use esaa_event_sourcing_agen.Outcome.{Outcome, ok, raise, esaa_error, ◌>>=◌, ◌>>◌, guard}
use esaa_event_sourcing_agen.Json.{text, obj, end, field, Fields}
use esaa_event_sourcing_agen.Machine.{Action}
use esaa_event_sourcing_agen.Event.{Runner, Payload, Event, empty_payload, make_event}
use esaa_event_sourcing_agen.Projector.{Task, Roadmap, Projection, Materialized, materialize}
use esaa_event_sourcing_agen.Scheduling.{tasks_with_planned_plugins}
use esaa_event_sourcing_agen.Store.{Codec, Written, parse_event_store, next_event_seq}
use esaa_event_sourcing_agen.Hotfix.{build_hotfix_event}
use esaa_event_sourcing_agen.Validation.{validate_boundary_grant}
use esaa_event_sourcing_agen.Service.{Accepted, commit_orchestrator_events}
pub mod Creation
mod Samples

-- the arguments of `create_task`
pub record TaskRequest : Type 0 where
  pub task_id : String
  pub task_kind : String
  pub title : String
  pub description : Option String
  pub outputs : List String
  pub depends_on : List String
  pub targets : List String
  pub boundary_grant : List String

-- `description or title`, stripped
described : Option String → String → String
described none title = title
described (some d) title = if strip d == "" then title else strip d

unfoldable pub is_task_kind : String → Bool
is_task_kind kind = kind == "spec" || kind == "impl" || kind == "qa"

unfoldable pub create_payload : TaskRequest → List String → Payload
unfolding described
create_payload r grant = record empty_payload {
  task_id = some (strip r.task_id);
  task_kind = some r.task_kind;
  title = some (strip r.title);
  description = some (described r.description (strip r.title));
  depends_on = some (map strip r.depends_on);
  targets = some (map strip r.targets);
  outputs = some (record { files = some (map strip r.outputs); external_files = [] });
  boundary_grant = elim grant [ [] ↦ none | p ∷ ps ↦ some (p ∷ ps) ];
}

-- `_validate_roadmap_projection_schema`
unfoldable pub validate_roadmap : Option (Roadmap → Bool) → Roadmap → Outcome (Unit {0})
validate_roadmap none r = raise (esaa_error Code.schema_missing)
validate_roadmap (some fits) r = guard (fits r) Code.schema_invalid

-- `scope_patch or ["src/hotfix/"]`
abbrev or_default : List String → List String
or_default [] = "src/hotfix/" ∷ []
or_default (p ∷ ps) = p ∷ ps

unfoldable pub resolution_fields : Option String → Fields
resolution_fields none = end
resolution_fields (some hotfix) =
    if hotfix == "" then end else field "hotfix_task_id" (text hotfix) end

module _ (k : Codec) (digest : Projection → String) (now : String) (runner : Option Runner) where
  -- the event, and the stored log that it goes behind
  unfoldable pub created_event :
      List Task → Option (Roadmap → Bool) → TaskRequest → String → Outcome Event
  created_event planned fits r stored = do
    grant ← validate_boundary_grant r.boundary_grant
    guard (is_task_kind r.task_kind) Code.schema_invalid
    guard (not (strip r.task_id == "")) Code.schema_invalid
    guard (not (strip r.title == "")) Code.schema_invalid
    events ← parse_event_store k stored
    views ← materialize digest now events
    let tasks = tasks_with_planned_plugins planned views.roadmap.state.tasks
    guard (not (any (λ t. t.task_id == strip r.task_id) tasks)) Code.duplicate_task
    let e =
        make_event now runner (next_event_seq events) "orchestrator" Action.task_create
          (create_payload r grant)
    preview ← materialize digest now (events ++ e ∷ [])
    validate_roadmap fits preview.roadmap
    ok e

  unfoldable pub rejection_event : String → String → String → String → String → Outcome Event
  rejection_event task_id error_code source_action message stored = do
    events ← parse_event_store k stored
    ok (
        make_event now runner (next_event_seq events) "orchestrator" Action.output_rejected
          (record empty_payload {
            task_id = some task_id;
            error_code = some error_code;
            message = some message;
            source_action = some source_action;
          }))

  needed : Option Event → Outcome Event
  needed none = raise (esaa_error Code.hotfix_already_exists)
  needed (some e) = ok e

  unfoldable pub hotfix_event : String → String → List String → String → Outcome Event
  unfolding needed
  hotfix_event issue_id fixes scope_patch stored = do
    events ← parse_event_store k stored
    let p = record empty_payload {
      issue_id = some issue_id;
      fixes = some fixes;
      scope_patch = some (or_default scope_patch);
    }
    built ← build_hotfix_event digest now runner events p true
    needed built

  unfoldable pub resolution_event : String → Option String → String → Outcome Event
  resolution_event issue_id hotfix_task_id stored = do
    events ← parse_event_store k stored
    let resolution =
        obj (field "status" (text "resolved_by_command") (resolution_fields hotfix_task_id))
    ok (
        make_event now runner (next_event_seq events) "orchestrator" Action.issue_resolve
          (record empty_payload { issue_id = some issue_id; resolution = some resolution }))

  module _ (others : ℕ → String → String) (max_retries : ℕ) where
    unfoldable pub committed : Bool → String → Outcome Event → Written Accepted
    committed dry_run stored (raise f) = record { text = stored; result = raise f }
    committed dry_run stored (ok e) =
        commit_orchestrator_events k digest now runner others max_retries (e ∷ []) dry_run stored

    unfoldable pub create_task :
        List Task → Option (Roadmap → Bool) → TaskRequest → Bool → String → Written Accepted
    create_task planned fits r dry_run stored =
        committed dry_run stored (created_event planned fits r stored)

    unfoldable pub reject_output :
        String → String → String → String → Bool → String → Written Accepted
    reject_output task_id error_code source_action message dry_run stored =
        committed dry_run stored (rejection_event task_id error_code source_action message stored)

    unfoldable pub create_hotfix : String → String → List String → Bool → String → Written Accepted
    create_hotfix issue_id fixes scope_patch dry_run stored =
        committed dry_run stored (hotfix_event issue_id fixes scope_patch stored)

    unfoldable pub resolve_issue : String → Option String → Bool → String → Written Accepted
    resolve_issue issue_id hotfix_task_id dry_run stored =
        committed dry_run stored (resolution_event issue_id hotfix_task_id stored)
