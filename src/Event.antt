-- ===== src/Event.antt =====
-- The events of the store and the read-model records, as src/esaa/events.py, projector.py and the
-- schemas write them. A dictionary with known keys is a record: a key that may be missing is an
-- `Option`. What the program stores without looking into it is `Json`.
use esaa_event_sourcing_agen.Prelude.{ℕ, String, Bool, false, Option, none, List, [], join, padded}
use esaa_event_sourcing_agen.Json.{Json}
use esaa_event_sourcing_agen.Machine.{Status, Action, Decision}

pub record Outputs : Type 0 where
  pub files : Option (List String)
  pub external_files : List String  -- the `path` of each spec

pub record Verification : Type 0 where
  pub checks : Option (List String)

pub record Affected : Type 0 where
  pub baseline_id : Option String
  pub components : Json

pub record Scope : Type 0 where
  pub task_kinds : Option (List String)

pub record Enforcement : Type 0 where
  pub mode : Json
  pub applies_to : Option String

-- the `lesson` block of an `issue.report`
pub record LessonBody : Type 0 where
  pub mistake : Option String
  pub rule : Option String
  pub scope : Option Scope
  pub enforcement : Option Enforcement

pub record Lesson : Type 0 where
  pub lesson_id : String
  pub status : String
  pub created_at : Option String
  pub title : String
  pub mistake : String
  pub rule : String
  pub scope : Scope
  pub enforcement : Enforcement
  pub source_refs : Json

pub record Runner : Type 0 where
  pub runner_id : String
  pub runner_kind : Option String
  pub command_surface : Option String
  pub on_behalf_of : Option String

-- one metadata record of an `orchestrator.file.write`
pub record Effect : Type 0 where
  pub path : Option String
  pub after_sha256 : String
  pub artifact_path : Option String

pub record Payload : Type 0 where
  pub task_id : Option String
  pub task_kind : Option String
  pub title : Option String
  pub description : Option String
  pub depends_on : Option (List String)
  pub targets : Option (List String)
  pub outputs : Option Outputs
  pub is_hotfix : Bool
  pub issue_id : Option String
  pub fixes : Option String
  pub scope_patch : Option (List String)
  pub required_verification : Option (List String)
  pub baseline_id : Option String
  pub boundary_grant : Option (List String)
  pub plugin : Option Json
  pub prior_status : Option Status
  pub verification : Option Verification
  pub decision : Option Decision
  pub reviewer_role : Option String  -- the key `_reviewer_role`
  pub severity : Option String
  pub affected : Option Affected
  pub evidence : Option Json
  pub category : Option String
  pub subtype : Option String
  pub lesson : Option LessonBody
  pub resolution : Option Json
  pub master_correlation_id : Option String
  pub run_id : Option String
  pub status : Option String
  pub project_name : Option String
  pub audit_scope : Option String
  pub verify_status : Option String
  pub projection_hash_sha256 : Option String
  pub lessons : Option (List Lesson)
  pub error_code : Option String
  pub message : Option String
  pub source_action : Option String
  pub anchored_through_seq : Option ℕ
  pub anchor_sha256 : Option String
  pub effects : List Effect

pub record Event : Type 0 where
  pub schema_version : String
  pub event_id : String
  pub event_seq : ℕ
  pub ts : String
  pub actor : String
  pub runner : Option Runner
  pub action : Action
  pub payload : Payload
  pub reviewer_role : Option String
  pub prev_event_hash : Option String
  pub event_hash : Option String

abbrev pub empty_payload : Payload
empty_payload = record {
  task_id = none;
  task_kind = none;
  title = none;
  description = none;
  depends_on = none;
  targets = none;
  outputs = none;
  is_hotfix = false;
  issue_id = none;
  fixes = none;
  scope_patch = none;
  required_verification = none;
  baseline_id = none;
  boundary_grant = none;
  plugin = none;
  prior_status = none;
  verification = none;
  decision = none;
  reviewer_role = none;
  severity = none;
  affected = none;
  evidence = none;
  category = none;
  subtype = none;
  lesson = none;
  resolution = none;
  master_correlation_id = none;
  run_id = none;
  status = none;
  project_name = none;
  audit_scope = none;
  verify_status = none;
  projection_hash_sha256 = none;
  lessons = none;
  error_code = none;
  message = none;
  source_action = none;
  anchored_through_seq = none;
  anchor_sha256 = none;
  effects = [];
}

-- `make_event`: the time and the runner block come from the environment.
unfoldable pub make_event : String → Option Runner → ℕ → String → Action → Payload → Event
make_event now runner seq actor action payload = record {
  schema_version = "0.4.1";
  event_id = join "EV-" (padded 8 seq);
  event_seq = seq;
  ts = now;
  actor = actor;
  runner = runner;
  action = action;
  payload = payload;
  reviewer_role = none;
  prev_event_hash = none;
  event_hash = none;
}
