-- ===== src/Machine.antt =====
-- src/esaa/state_machine.py: the canonical state machine of a task. A status is one of
-- `TASK_STATUSES`, the only ones that the projection writes; an action is any action of an event,
-- with `other` for a text that names none, and a review decision any text.
pub mod Agreement
mod Samples
use esaa_event_sourcing_agen.Prelude.{String, Option, none, some, List, [], ◌∷◌}
use esaa_event_sourcing_agen.Codes.{Code}

pub data Status : Type 0 where
  todo in_progress review done : Status

pub data Action : Type 0 where
  run_start run_end task_create claim complete review : Action
  issue_report hotfix_create issue_resolve : Action
  runner_metrics chain_anchor output_rejected file_write view_mutate : Action
  verify_start verify_ok verify_fail : Action
  plugin_install plugin_remove plugin_update : Action
  roadmap_activate roadmap_pause roadmap_resume roadmap_deactivate : Action
  no_action : Action
  other : String → Action

pub data Decision : Type 0 where
  approve request_changes : Decision
  other : String → Decision

unfoldable pub expected_action_for : Status → Action
expected_action_for Status.todo = Action.claim
expected_action_for Status.in_progress = Action.complete
expected_action_for Status.review = Action.review
expected_action_for Status.done = Action.no_action

unfoldable pub allowed_actions_for : Status → List Action
allowed_actions_for Status.todo = Action.claim ∷ Action.issue_report ∷ []
allowed_actions_for Status.in_progress = Action.complete ∷ Action.issue_report ∷ []
allowed_actions_for Status.review = Action.review ∷ Action.issue_report ∷ []
allowed_actions_for Status.done = Action.issue_report ∷ []

reviewed : Option Decision → Option Status
reviewed (some Decision.approve) = some Status.done
reviewed (some Decision.request_changes) = some Status.in_progress
reviewed _ = none

unfoldable pub next_status : Status → Action → Option Decision → Option Status
unfolding reviewed
next_status Status.todo Action.claim decision = some Status.in_progress
next_status Status.in_progress Action.complete decision = some Status.review
next_status Status.review Action.review decision = reviewed decision
next_status _ _ _ = none

-- `(True, None)` is `none`, and `(False, code)` is `some code`.
unfoldable pub classify_transition : Status → Action → Option Code
classify_transition _ Action.issue_report = none
classify_transition Status.done _ = some Code.immutable_done_violation
classify_transition Status.todo Action.claim = none
classify_transition _ Action.claim = some Code.lock_violation
classify_transition Status.in_progress Action.complete = none
classify_transition Status.todo Action.complete = some Code.missing_claim
classify_transition _ Action.complete = some Code.workflow_gate_violation
classify_transition Status.review Action.review = none
classify_transition _ Action.review = some Code.workflow_gate_violation
classify_transition _ _ = some Code.workflow_gate_violation
