-- ===== src/Hotfix.antt =====
-- The hotfix events that src/esaa/events.py builds when an issue is reported on a done task.
pub mod Requests
mod Resolution
pub mod Closing
mod Samples
unfoldable pub use Resolution.*
use esaa_event_sourcing_agen.Prelude.{
  ℕ, String, Bool, true, false, not, ◌&&◌, Option, none, some, List, [], ◌∷◌, ◌==◌, if◌then◌else◌,
  or_else, truthy, join, any,
}
use esaa_event_sourcing_agen.Codes.{Code}
use esaa_event_sourcing_agen.Outcome.{esaa_error, Outcome, ok, raise, ◌>>=◌}
use esaa_event_sourcing_agen.Machine.{Status, Action}
use esaa_event_sourcing_agen.Event.{
  Outputs, Affected, Runner, Payload, Event, empty_payload, make_event,
}
use esaa_event_sourcing_agen.Projector.{
  Task, IssueStatus, Issue, Projection, Materialized, materialize,
}
use esaa_event_sourcing_agen.Scheduling.{has_status, by_id}
use esaa_event_sourcing_agen.Store.{next_event_seq}

-- `issues_by_id.get(issue_id)`: a later entry replaces an earlier one.
unfoldable pub issue_by_id : List Issue → String → Option Issue
issue_by_id [] issue_id = none
issue_by_id (i ∷ is) issue_id = elim (issue_by_id is issue_id) [
  | none ↦ if i.issue_id == issue_id then some i else none
  | some j ↦ some j
]

abbrev pub is_open : Issue → Bool
is_open i = elim i.status [ IssueStatus.open_issue ↦ true | IssueStatus.resolved ↦ false ]

-- a `scope_patch` that is given and empty
abbrev is_empty_scope : Option (List String) → Bool
is_empty_scope (some []) = true
is_empty_scope _ = false

check_issue : Option Issue → Option Code
check_issue none = some Code.hotfix_issue_not_found
check_issue (some i) = if is_open i then none else some Code.hotfix_issue_not_open

check_scope : Payload → Option Issue → Option Code
unfolding check_issue
check_scope p issue =
    if is_empty_scope p.scope_patch then some Code.hotfix_scope_invalid else check_issue issue

check_target : Payload → Option Issue → Option Task → Option Code
unfolding check_scope
check_target p issue none = some Code.hotfix_target_not_found
check_target p issue (some t) =
    if t.done_is_immutable && not (has_status Status.done t)
    then some Code.hotfix_target_not_done
    else check_scope p issue

-- The checks on the materialized log; `none` is the answer that a hotfix can be made.
unfoldable pub check_request : Materialized → Payload → String → String → Option Code
unfolding check_target
check_request views p issue_id fixes =
    check_target p (issue_by_id views.issues.issues issue_id)
      (by_id views.roadmap.state.tasks fixes)

hotfix_task_id : String → String
hotfix_task_id issue_id = join "HF-" issue_id

is_hotfix_of : String → Event → Bool
is_hotfix_of task_id e = elim e.action [
  | Action.hotfix_create ↦ elim e.payload.task_id [ none ↦ false | some t ↦ t == task_id ]
  | _ ↦ false
]

unfoldable pub hotfix_payload : Payload → String → String → Payload
unfolding hotfix_task_id
hotfix_payload p issue_id fixes = record empty_payload {
  task_id = some (hotfix_task_id issue_id);
  task_kind = some "impl";
  title = some (join "Hotfix for " issue_id);
  description = some (
      join "Apply a minimal hotfix to resolve issue "
        (join issue_id " without regressing immutable done tasks."));
  depends_on = some [];
  targets = some (issue_id ∷ []);
  outputs = some (record {
    files = some (join "src/hotfix/" (join (hotfix_task_id issue_id) ".txt") ∷ []);
    external_files = [];
  });
  is_hotfix = true;
  issue_id = some issue_id;
  fixes = some fixes;
  scope_patch = some (or_else p.scope_patch ("src/hotfix/" ∷ []));
  required_verification = some (or_else p.required_verification ("unit" ∷ "regression" ∷ []));
  baseline_id = some (elim p.affected [ none ↦ "B-000" | some a ↦ or_else a.baseline_id "B-000" ]);
}

module _ (digest : Projection → String) (now : String) (runner : Option Runner) where
  unfoldable pub validate_hotfix_request : List Event → Payload → Outcome (Option Code)
  validate_hotfix_request events p =
      if not (truthy p.issue_id)
      then ok (some Code.hotfix_issue_not_found)
      else if not (truthy p.fixes)
      then ok (some Code.hotfix_target_not_found)
      else (do
        views ← materialize digest now events
        ok (check_request views p (or_else p.issue_id "") (or_else p.fixes "")))

  unfoldable pub answer : Bool → List Event → Payload → Option Code → Outcome (Option Event)
  unfolding is_hotfix_of hotfix_task_id
  answer raise_on_invalid events p (some code) =
      if raise_on_invalid then raise (esaa_error code) else ok none
  answer raise_on_invalid events p none =
      let issue_id = or_else p.issue_id "" in
      if any (is_hotfix_of (hotfix_task_id issue_id)) events
      then ok none
      else ok (
          some (
            make_event now runner (next_event_seq events) "orchestrator" Action.hotfix_create
              (hotfix_payload p issue_id (or_else p.fixes ""))))

  unfoldable pub build_hotfix_event : List Event → Payload → Bool → Outcome (Option Event)
  unfolding answer
  build_hotfix_event events p raise_on_invalid =
      if not (truthy p.issue_id && truthy p.fixes)
      then ok none
      else (do verdict ← validate_hotfix_request events p; answer raise_on_invalid events p verdict)
