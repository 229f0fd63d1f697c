-- ===== src/Projector/Apply.antt =====
-- `_apply_event` of src/esaa/projector.py, and the loop of `materialize` over the events.
use esaa_event_sourcing_agen.Prelude.{
  String, Option, none, some, List, [], ◌∷◌, ◌++◌, if◌then◌else◌, or_else, truthy,
}
use esaa_event_sourcing_agen.Codes.{Code}
use esaa_event_sourcing_agen.Outcome.{esaa_error, Outcome, ok, raise, ◌>>=◌, required}
use esaa_event_sourcing_agen.Machine.{Action}
use esaa_event_sourcing_agen.Event.{Lesson, Event}
use esaa_event_sourcing_agen.Projector.Records.{Task, State, empty_state, new_task}
use esaa_event_sourcing_agen.Projector.Tasks.{update_task, claim_task, complete_task, review_task}
use esaa_event_sourcing_agen.Projector.Issues.{
  apply_issue_report, apply_hotfix_create, apply_issue_resolve,
}

-- the assignments of a handler to the task that the payload names
unfoldable pub on_task : (Task → Outcome Task) → State → Event → Outcome State
on_task f s e = do
  task_id ← required e.payload.task_id
  tasks ← update_task task_id f s.tasks
  ok (record s { tasks = tasks })

apply_run_start : State → Event → Outcome State
apply_run_start s e = ok (record s {
  master_correlation_id = e.payload.master_correlation_id;
  run_id = elim e.payload.run_id [ none ↦ s.run_id | some r ↦ some r ];
  run_status = or_else e.payload.status "initialized";
  project_name =
      if truthy e.payload.project_name
      then or_else e.payload.project_name s.project_name
      else s.project_name;
  audit_scope =
      if truthy e.payload.audit_scope
      then or_else e.payload.audit_scope s.audit_scope
      else s.audit_scope;
})

unfoldable pub apply_task_create : State → Event → Outcome State
apply_task_create s e = do task ← new_task e.payload; ok (record s { tasks = s.tasks ++ task ∷ [] })

apply_view_mutate : State → Option (List Lesson) → Outcome State
apply_view_mutate s none = ok s
apply_view_mutate s (some lessons) = ok (record s { lessons = lessons })

-- The branches of `_apply_event`. An action that is known and has no effect on the state passes.
unfoldable pub dispatch : Action → State → Event → Outcome State
unfolding apply_run_start apply_view_mutate
dispatch Action.run_start s e = apply_run_start s e
dispatch Action.run_end s e = ok (record s { run_status = or_else e.payload.status "success" })
dispatch Action.task_create s e = apply_task_create s e
dispatch Action.claim s e = on_task (claim_task e) s e
dispatch Action.complete s e = on_task (complete_task e) s e
dispatch Action.review s e = on_task (review_task e) s e
dispatch Action.issue_report s e = apply_issue_report s e
dispatch Action.hotfix_create s e = apply_hotfix_create s e
dispatch Action.issue_resolve s e = apply_issue_resolve s e
dispatch Action.verify_ok s e = ok (record s { verify_status = "ok" })
dispatch Action.verify_fail s e =
    ok (record s { verify_status = or_else e.payload.verify_status "mismatch" })
dispatch Action.view_mutate s e = apply_view_mutate s e.payload.lessons
dispatch Action.output_rejected s e = ok s
dispatch Action.file_write s e = ok s
dispatch Action.runner_metrics s e = ok s
dispatch Action.chain_anchor s e = ok s
dispatch Action.verify_start s e = ok s
dispatch Action.plugin_install s e = ok s
dispatch Action.plugin_remove s e = ok s
dispatch Action.plugin_update s e = ok s
dispatch Action.roadmap_activate s e = ok s
dispatch Action.roadmap_pause s e = ok s
dispatch Action.roadmap_resume s e = ok s
dispatch Action.roadmap_deactivate s e = ok s
dispatch Action.no_action s e = raise (esaa_error Code.unknown_action)
dispatch (Action.other name) s e = raise (esaa_error Code.unknown_action)

unfoldable pub apply_event : State → Event → Outcome State
apply_event s e = do
  s' ← dispatch e.action s e
  ok (record s' { last_event_seq = e.event_seq; updated_at = e.ts })

-- the `for` loop of `materialize`
unfoldable pub replay_from : State → List Event → Outcome State
replay_from s [] = ok s
replay_from s (e ∷ es) = do s' ← apply_event s e; replay_from s' es

unfoldable pub replay : String → String → List Event → Outcome State
replay now project_name events = replay_from (empty_state now project_name) events
