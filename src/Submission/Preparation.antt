-- ===== src/Submission/Preparation.antt =====
-- What `submit` works with, its checks before anything is written, and the staging of the files.
use esaa_event_sourcing_agen.Prelude.{
  ℕ, String, Bool, true, false, not, ◌||◌, ◌==◌, Option, none, some, List, [], ◌∷◌, ◌++◌,
  if◌then◌else◌, or_else,
}
use esaa_event_sourcing_agen.Codes.{Code}
use esaa_event_sourcing_agen.Outcome.{Outcome, ok, raise, esaa_error, ◌>>=◌, ◌>>◌, guard}
use esaa_event_sourcing_agen.Machine.{Action}
use esaa_event_sourcing_agen.Event.{Runner, Event, make_event}
use esaa_event_sourcing_agen.Projector.{Task, Projection, materialize}
use esaa_event_sourcing_agen.Store.{Codec, parse_event_store, next_event_seq}
use esaa_event_sourcing_agen.Policy.{
  RunPolicy, is_blocked_by_max_attempts, validate_runner_id, review_authorization_mode,
  resolve_role,
}
use esaa_event_sourcing_agen.Validation.{
  FileUpdate, ResourceLimits, ActivityEvent, AgentOutput, Contract,
  validate_file_update_resource_limits, validate_agent_output,
}
use esaa_event_sourcing_agen.Edits.Resolving.{normalize_file_updates}
use esaa_event_sourcing_agen.Effects.{
  Disk, Update, Staged, Archive, Metadata, staged_entry, compute_file_metadata, stage_and_compute,
}

pub record Setting : Type 0 where
  pub store : Codec
  pub archive : Archive
  pub digest : Projection → String
  pub fnmatch : String → String → Bool
  pub conforms : AgentOutput → Bool
  pub resolve_external : Task → List FileUpdate → Outcome (List Update)
  pub others : ℕ → String → String
  pub now : String
  pub runner : Option Runner
  pub runner_id : String
  pub known_runners : List String
  pub swarm : List (String × String)
  pub policy : RunPolicy
  pub limits : ResourceLimits
  pub max_attempts : ℕ
  pub submit_retries : ℕ
  pub contract : Contract
  pub root : String

-- The text of the store, and the files of the workspace.
pub record Site : Type 0 where
  pub text : String
  pub disk : Disk

pub record Prepared : Type 0 where
  pub base : List Event
  pub task : Task
  pub event : ActivityEvent  -- with the role of the reviewer
  pub updates : List Update
  pub agent_event : Event

abbrev pub is_review : Action → Bool
is_review Action.review = true
is_review _ = false

-- the loop that stops at the first task with the id
unfoldable pub first_named : List Task → String → Option Task
first_named [] task_id = none
first_named (t ∷ ts) task_id =
    let rest = first_named ts task_id in if t.task_id == task_id then some t else rest

unfoldable pub find_task : List Task → Option String → Outcome Task
find_task tasks none = raise (esaa_error Code.schema_invalid)
find_task tasks (some task_id) =
    if task_id == ""
    then raise (esaa_error Code.schema_invalid)
    else elim (first_named tasks task_id) [
      | none ↦ raise (esaa_error Code.task_not_found)
      | some t ↦ ok t
    ]

module _ (s : Setting) where
  -- In the mode `qa_role` a review needs the role, which goes into its payload.
  unfoldable pub role_for : String → ActivityEvent → Outcome ActivityEvent
  role_for actor e =
      let role = resolve_role s.swarm actor in
      let with_role = record e { payload = record e.payload { reviewer_role = some role } } in
      if is_review e.action
      then if review_authorization_mode s.policy == "qa_role"
        then if role == "qa" || role == "orchestrator"
          then ok with_role
          else raise (esaa_error Code.review_role_violation)
        else ok e
      else ok e

  -- the stored events and the task that the output is about, which must not be blocked
  unfoldable pub checked_task : AgentOutput → String → Outcome (List Event × Task)
  checked_task output text = do
    events ← parse_event_store s.store text
    views ← materialize s.digest s.now events
    task ← find_task views.roadmap.state.tasks output.activity_event.payload.task_id
    guard (not (is_blocked_by_max_attempts events task.task_id s.max_attempts))
        Code.max_attempts_exceeded
    validate_runner_id s.runner_id s.known_runners s.policy
    ok (events, task)

  -- the event and the updates of the output, with their contents
  unfoldable pub checked_output :
      AgentOutput → Task → Disk → Outcome (ActivityEvent × List FileUpdate)
  checked_output output task disk = do
    validated ← validate_agent_output s.fnmatch s.conforms output s.contract task
    normal ← normalize_file_updates s.archive.sha256 s.root disk validated.1
    validate_file_update_resource_limits normal s.limits
    ok (validated.0, normal)

  unfoldable pub previewed :
      String → List Event → Task → ActivityEvent → List Update → Outcome Prepared
  previewed actor events task event updates = do
    let agent_event =
        make_event s.now s.runner (next_event_seq events) actor event.action event.payload
    preview ← materialize s.digest s.now (events ++ agent_event ∷ [])
    ok (record {
      base = events;
      task = task;
      event = event;
      updates = updates;
      agent_event = agent_event;
    })

  unfoldable pub prepare : AgentOutput → String → Site → Outcome Prepared
  prepare output actor site = do
    found ← checked_task output site.text
    checked ← checked_output output found.1 site.disk
    updates ← s.resolve_external found.1 checked.1
    event ← role_for actor checked.0
    previewed actor found.0 found.1 event updates

  -- the arguments that `_dry_run_file_effects` passes on
  unfoldable pub unstaged_entry : Update → Staged
  unstaged_entry u = record (staged_entry s.archive.sha256 s.root 0 u) {
    final_path = u.path;
    source_path = or_else u.source_path u.path;
  }

  preview_all : Disk → List Update → List Metadata
  preview_all disk [] = []
  preview_all disk (u ∷ us) =
      compute_file_metadata s.archive s.root (unstaged_entry u) disk ∷ preview_all disk us

-- the disk with the staged files and their artifacts, the records, and the metadata
pub record Stage : Type 0 where
  pub disk : Disk
  pub staged : List Staged
  pub effects : List Metadata

module _ (s : Setting) where
  unfoldable pub stage_phase : Bool → List Update → Disk → Stage
  unfolding preview_all
  stage_phase true updates disk = record {
    disk = disk;
    staged = [];
    effects = preview_all s disk updates;
  }
  stage_phase false updates disk =
      let done = stage_and_compute s.archive s.root s.now updates disk in
      record { disk = done.0; staged = done.1; effects = done.2 }
