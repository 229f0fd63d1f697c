-- ===== src/Replay/Ownership.antt =====
-- Who holds a task.
use esaa_event_sourcing_agen.Prelude.{
  ◌≡◌, ◌≢◌, ◌↔◌, ◌⊎◌, inl, inr, refl, String, Option, none, some, List, arith, All,
}
use esaa_event_sourcing_agen.Outcome.{ok}
use esaa_event_sourcing_agen.Machine.{Status, Action, Decision, next_status, classify_transition}
use esaa_event_sourcing_agen.Event.{Event}
use esaa_event_sourcing_agen.Projector.{Task, State, replay, claim_task, check_transition}
use esaa_event_sourcing_agen.Replay.Evolution.{Changed}
use esaa_event_sourcing_agen.Replay.Rule.{replay-All}

-- A task has an owner exactly when it has left `todo`.
pub record IsLocked (t : Task) : Type 0 where
  pub free : t.status ≡ Status.todo → t.assigned_to ≡ none
  pub held : t.status ≢ Status.todo → t.assigned_to ≢ none

moved_on :
    (a : Action) (d : Option Decision) (s r : Status)
    → next_status s a d ≡ some r
    → (r ≢ Status.todo) × (a ≢ Action.claim → s ≢ Status.todo)
unfolding next_status
moved_on a d s r h = (λ e. ground arith, λ n e. ground arith)

claim_cases : (a : Action) → (a ≡ Action.claim) ⊎ (a ≢ Action.claim)
claim_cases Action.claim = inl refl
claim_cases a = inr (λ e. ground arith)

Changed-IsLocked :
    (past : List Event) (e : Event) (t u : Task) → IsLocked t → Changed e.action e t u → IsLocked u
Changed-IsLocked past e t u l c = record {
  free = λ p. absurd ((moved_on e.action e.payload.decision t.status u.status c.moved).0 p);
  held = λ _ none_left. elim (claim_cases e.action) [
    | inl is_claim ↦ ground (arith, (c.claimed is_claim).1)
    | inr other ↦
        l.held ((moved_on e.action e.payload.decision t.status u.status c.moved).1 other)
          (cc (c.kept_owner other))
  ];
}

-- In every state that events replay to, a task has an owner exactly when it is not `todo`.
pub replay-IsLocked :
    (now name : String) (s : State) (es : List Event)
    → replay now name es ≡ ok s
    → All IsLocked s.tasks
replay-IsLocked =
    replay-All (λ past t. IsLocked t) (λ past t f. ground arith) (λ past e t l. l) Changed-IsLocked

-- In such a state the second lock check of a claim never fires: a claim of a task succeeds exactly
-- when the task is `todo`.
pub claim_task-ok :
    (e : Event) (t : Task)
    → IsLocked t
    → (t.status ≡ Status.todo) ↔ (
        claim_task e t
        ≡ ok (record t {
          status = Status.in_progress;
          assigned_to = some e.actor;
          started_at = some e.ts;
        }))
unfolding claim_task check_transition classify_transition
claim_task-ok e t l = (λ h. ground (arith, l.free h), λ h. ground arith)
