-- ===== src/Hotfix/Resolution.antt =====
-- `build_issue_resolve_event` of src/esaa/events.py.
use esaa_event_sourcing_agen.Prelude.{
  String, Bool, true, false, not, ◌&&◌, ◌==◌, Option, none, some, List, [], ◌∷◌, if◌then◌else◌,
  or_else, truthy, any,
}
use esaa_event_sourcing_agen.Outcome.{Outcome, ok, ◌>>=◌, required}
use esaa_event_sourcing_agen.Json.{text, arr, obj, Items, nil, cons, end, field}
use esaa_event_sourcing_agen.Machine.{Action, Decision}
use esaa_event_sourcing_agen.Event.{Verification, Runner, Payload, Event, empty_payload, make_event}
use esaa_event_sourcing_agen.Projector.{Task}
use esaa_event_sourcing_agen.Store.{next_event_seq}

texts : List String → Items
texts [] = nil
texts (s ∷ ss) = cons (text s) (texts ss)

checks_of : Option Verification → List String
checks_of none = []
checks_of (some v) = or_else v.checks []

abbrev pub approves : Payload → Bool
approves p = elim p.decision [ some Decision.approve ↦ true | _ ↦ false ]

-- `issue.resolve` of this issue
resolves : String → Event → Bool
resolves issue_id e = elim e.action [
  | Action.issue_resolve ↦ elim e.payload.issue_id [ none ↦ false | some i ↦ i == issue_id ]
  | _ ↦ false
]

unfoldable pub is_resolved_in : List Event → String → Bool
unfolding resolves
is_resolved_in events issue_id = any (resolves issue_id) events

unfoldable pub resolve_payload : Task → String → String → Payload
unfolding texts checks_of
resolve_payload t issue_id review_task_id = record empty_payload {
  issue_id = some issue_id;
  resolution = some (
      obj (
        field "status" (text "resolved_by_hotfix") (
          field "hotfix_task_id" (text t.task_id) (
            field "review_task_id" (text review_task_id)
              (field "checks" (arr (texts (checks_of t.verification))) end)))));
}

unfoldable pub build_issue_resolve_event :
    String → Option Runner → List Event → Task → Payload → Outcome (Option Event)
build_issue_resolve_event now runner events t p =
    let issue_id = or_else t.issue_id "" in
    if not (t.is_hotfix && approves p && truthy t.issue_id)
    then ok none
    else if is_resolved_in events issue_id
    then ok none
    else (do
      task_id ← required p.task_id
      ok (
          some (
            make_event now runner (next_event_seq events) "orchestrator" Action.issue_resolve
              (resolve_payload t issue_id task_id))))
