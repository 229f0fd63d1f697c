-- ===== src/Actions.antt =====
-- The texts of the actions (`CANONICAL_ACTIONS` of src/esaa/constants.py and the further ones of
-- src/esaa/projector.py), and the test whether two actions are the same.
use esaa_event_sourcing_agen.Prelude.{ℕ, String, Bool, false, ◌||◌, List, [], ◌∷◌, eqb}
use esaa_event_sourcing_agen.Machine.{Action}

unfoldable pub action_text : Action → String
action_text Action.run_start = "run.start"
action_text Action.run_end = "run.end"
action_text Action.task_create = "task.create"
action_text Action.claim = "claim"
action_text Action.complete = "complete"
action_text Action.review = "review"
action_text Action.issue_report = "issue.report"
action_text Action.hotfix_create = "hotfix.create"
action_text Action.issue_resolve = "issue.resolve"
action_text Action.runner_metrics = "runner.metrics"
action_text Action.chain_anchor = "chain.anchor"
action_text Action.output_rejected = "output.rejected"
action_text Action.file_write = "orchestrator.file.write"
action_text Action.view_mutate = "orchestrator.view.mutate"
action_text Action.verify_start = "verify.start"
action_text Action.verify_ok = "verify.ok"
action_text Action.verify_fail = "verify.fail"
action_text Action.plugin_install = "plugin.install"
action_text Action.plugin_remove = "plugin.remove"
action_text Action.plugin_update = "plugin.update"
action_text Action.roadmap_activate = "roadmap.activate"
action_text Action.roadmap_pause = "roadmap.pause"
action_text Action.roadmap_resume = "roadmap.resume"
action_text Action.roadmap_deactivate = "roadmap.deactivate"
action_text Action.no_action = "none"
action_text (Action.other name) = name

-- The actions of agents (`AGENT_ACTIONS` of src/esaa/state_machine.py) by number, any other as 0.
abbrev pub agent_number : Action → ℕ
agent_number Action.claim = 1
agent_number Action.complete = 2
agent_number Action.review = 3
agent_number Action.issue_report = 4
agent_number _ = 0

-- `action in actions`, for a list of agents' actions
abbrev pub is_among : Action → List Action → Bool
is_among a [] = false
is_among a (b ∷ bs) = eqb (agent_number a) (agent_number b) || is_among a bs
