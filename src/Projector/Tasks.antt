-- ===== src/Projector/Tasks.antt =====
-- The handlers of src/esaa/projector.py that move a task: claim, complete and review. A handler
-- that raises leaves no state behind, since `materialize` drops it, so it is a function into an
-- `Outcome`.
use esaa_event_sourcing_agen.Prelude.{
  String, Bool, false, not, ◌||◌, Option, none, some, List, [], ◌∷◌, ◌==◌, if◌then◌else◌, is_some,
  truthy,
}
use esaa_event_sourcing_agen.Codes.{Code}
use esaa_event_sourcing_agen.Outcome.{esaa_error, Outcome, ok, raise, ◌>>=◌, ◌>>◌, guard}
use esaa_event_sourcing_agen.Machine.{Status, Action, Decision, classify_transition}
use esaa_event_sourcing_agen.Event.{Verification, Event}
use esaa_event_sourcing_agen.Projector.Records.{Task}

-- `_task_by_id`, and the assignments that the handler then makes to the task that it finds.
unfoldable pub update_task : String → (Task → Outcome Task) → List Task → Outcome (List Task)
update_task task_id f [] = raise (esaa_error Code.task_not_found)
update_task task_id f (t ∷ ts) =
    if t.task_id == task_id
    then (do t' ← f t; ok (t' ∷ ts))
    else (do ts' ← update_task task_id f ts; ok (t ∷ ts'))

-- `owner != actor`, where a task with no owner has `None`
abbrev owned_by : Option String → String → Bool
owned_by none actor = false
owned_by (some owner) actor = owner == actor

unfoldable pub ensure_owner : Task → String → Outcome (Unit {0})
ensure_owner t actor = guard (owned_by t.assigned_to actor) Code.lock_violation

accept : Option Code → Outcome (Unit {0})
accept none = ok tt
accept (some c) = raise (esaa_error c)

unfoldable pub check_transition : Task → Action → Outcome (Unit {0})
unfolding accept
check_transition t a = accept (classify_transition t.status a)

unfoldable pub claim_task : Event → Task → Outcome Task
claim_task e t = do
  check_transition t Action.claim
  guard (not (truthy t.assigned_to)) Code.lock_violation
  ok (record t { status = Status.in_progress; assigned_to = some e.actor; started_at = some e.ts })

abbrev or_keep {ℓ} : {A : Type ℓ} → Option A → Option A → Option A
or_keep none old = old
or_keep (some a) old = some a

-- `if verification:`, false for a dictionary with no key
abbrev filled : Option Verification → Option Verification
filled none = none
filled (some v) = if is_some v.checks then some v else none

unfoldable pub complete_task : Event → Task → Outcome Task
complete_task e t = do
  check_transition t Action.complete
  ensure_owner t e.actor
  ok (record t {
    status = Status.review;
    verification = or_keep (filled e.payload.verification) t.verification;
    issue_id = or_keep e.payload.issue_id t.issue_id;
    fixes = or_keep e.payload.fixes t.fixes;
  })

-- `event.get("reviewer_role") or payload.get("_reviewer_role")`
abbrev role_of : Event → Option String
role_of e = if truthy e.reviewer_role then e.reviewer_role else e.payload.reviewer_role

abbrev is_reviewer : Option String → Bool
is_reviewer none = false
is_reviewer (some role) = role == "qa" || role == "orchestrator"

decide : Option Decision → Event → Task → Outcome Task
decide (some Decision.approve) e t =
    ok (record t { status = Status.done; completed_at = some e.ts })
decide (some Decision.request_changes) e t = ok (record t { status = Status.in_progress })
decide _ e t = raise (esaa_error Code.workflow_gate_violation)

unfoldable pub review_task : Event → Task → Outcome Task
unfolding decide
review_task e t = do
  check_transition t Action.review
  if is_reviewer (role_of e) then ok tt else ensure_owner t e.actor
  decide e.payload.decision e t
