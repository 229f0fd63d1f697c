-- ===== src/Projector/Records.antt =====
-- The state that src/esaa/projector.py folds the events into, and a new task's record. `deepcopy`
-- has no counterpart: values do not alias here.
use esaa_event_sourcing_agen.Prelude.{
  ℕ, String, Bool, true, false, Option, none, some, List, [], ◌∷◌, if◌then◌else◌, or_else, is_blank,
}
use esaa_event_sourcing_agen.Outcome.{Outcome, ok, ◌>>=◌, required}
use esaa_event_sourcing_agen.Json.{Json, is_truthy}
use esaa_event_sourcing_agen.Machine.{Status}
use esaa_event_sourcing_agen.Event.{Outputs, Verification, Affected, Lesson, Payload}

pub record Task : Type 0 where
  pub task_id : String
  pub task_kind : String
  pub title : String
  pub description : String
  pub status : Status
  pub depends_on : List String
  pub targets : List String
  pub outputs : Outputs
  pub done_is_immutable : Bool
  pub is_hotfix : Bool
  pub issue_id : Option String
  pub fixes : Option String
  pub scope_patch : Option (List String)
  pub required_verification : Option (List String)
  pub baseline_id : Option String
  pub boundary_grant : Option (List String)
  pub plugin : Option Json
  pub assigned_to : Option String
  pub started_at : Option String
  pub completed_at : Option String
  pub verification : Option Verification

pub data IssueStatus : Type 0 where
  open_issue resolved : IssueStatus

pub record Issue : Type 0 where
  pub issue_id : String
  pub status : IssueStatus
  pub severity : String
  pub title : String
  pub baseline_id : Option String
  pub affected : Affected
  pub evidence : Json
  pub resolution : Option Json
  pub reported_by_task_id : Option String
  pub fixes_task_id : Option String
  pub hotfix_task_id : Option String
  pub created_event_seq : ℕ
  pub resolved_event_seq : Option ℕ

pub record State : Type 0 where
  pub master_correlation_id : Option String
  pub run_id : Option String
  pub run_status : String
  pub last_event_seq : ℕ
  pub verify_status : String
  pub updated_at : String
  pub project_name : String
  pub audit_scope : String
  pub tasks : List Task
  pub issues : List (String × Issue)
  pub lessons : List Lesson

-- `_empty_state`; `now` is the reading of the clock.
unfoldable pub empty_state : String → String → State
empty_state now project_name = record {
  master_correlation_id = none;
  run_id = none;
  run_status = "initialized";
  last_event_seq = 0;
  verify_status = "unknown";
  updated_at = now;
  project_name = project_name;
  audit_scope = ".roadmap/";
  tasks = [];
  issues = [];
  lessons = [];
}

abbrev non_empty : {A : Type 0} → Option (List A) → Option (List A)
non_empty (some (x ∷ xs)) = some (x ∷ xs)
non_empty _ = none

abbrev non_falsy : Option Json → Option Json
non_falsy none = none
non_falsy (some j) = if is_truthy j then some j else none

abbrev when {ℓ} : {A : Type ℓ} → Bool → Option A → Option A
when true o = o
when false o = none

-- A missing or blank description is the title.
description_or : String → Option String → String
description_or title none = title
description_or title (some d) = if is_blank d then title else d

-- `_new_task`
unfoldable pub new_task : Payload → Outcome Task
unfolding description_or
new_task p = do
  title ← required p.title
  task_id ← required p.task_id
  task_kind ← required p.task_kind
  ok (record {
    task_id = task_id;
    task_kind = task_kind;
    title = title;
    description = description_or title p.description;
    status = Status.todo;
    depends_on = or_else p.depends_on [];
    targets = or_else p.targets [];
    outputs = or_else p.outputs (record { files = some []; external_files = [] });
    done_is_immutable = true;
    is_hotfix = p.is_hotfix;
    issue_id = when p.is_hotfix p.issue_id;
    fixes = when p.is_hotfix p.fixes;
    scope_patch = when p.is_hotfix p.scope_patch;
    required_verification = when p.is_hotfix p.required_verification;
    baseline_id = when p.is_hotfix p.baseline_id;
    boundary_grant = non_empty p.boundary_grant;
    plugin = non_falsy p.plugin;
    assigned_to = none;
    started_at = none;
    completed_at = none;
    verification = none;
  })
