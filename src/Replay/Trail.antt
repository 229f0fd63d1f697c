-- ===== src/Replay/Trail.antt =====
-- How a task gets to `done`: the events that the log must hold.
use mathlib.Core.List.{append_assoc}
use esaa_event_sourcing_agen.Prelude.{
  ◌≡◌, refl, ◌∙◌, ◌⊎◌, inl, inr, String, Option, some, List, [], ◌∷◌, ◌++◌, arith, All, All-get,
  get_elem?, ℕ,
}
use esaa_event_sourcing_agen.Outcome.{ok}
use esaa_event_sourcing_agen.Machine.{Status, Action, Decision, next_status}
use esaa_event_sourcing_agen.Event.{Event}
use esaa_event_sourcing_agen.Projector.{Task, State, replay}
use esaa_event_sourcing_agen.Replay.Evolution.{Changed}
use esaa_event_sourcing_agen.Replay.Rule.{replay-All}

-- `actor` claimed the task.
pub data Claimed (task_id actor : String) (log : List Event) : Type 0 where
  claimed :
      (before after : List Event) (e : Event)
      → log ≡ before ++ e ∷ after
      → e.action ≡ Action.claim
      → e.payload.task_id ≡ some task_id
      → e.actor ≡ actor
      → Claimed task_id actor log

-- After a claim by `actor`, the same actor completed the task.
pub data Completed (task_id actor : String) (log : List Event) : Type 0 where
  completed :
      (before after : List Event) (e : Event)
      → log ≡ before ++ e ∷ after
      → e.action ≡ Action.complete
      → e.payload.task_id ≡ some task_id
      → e.actor ≡ actor
      → Claimed task_id actor before
      → Completed task_id actor log

-- After such a claim and completion, a review approved the task.
pub data Approved (task_id actor : String) (log : List Event) : Type 0 where
  approved :
      (before after : List Event) (e : Event)
      → log ≡ before ++ e ∷ after
      → e.action ≡ Action.review
      → e.payload.decision ≡ some Decision.approve
      → e.payload.task_id ≡ some task_id
      → Completed task_id actor before
      → Approved task_id actor log

longer :
    (log before after : List Event) (x e : Event)
    → log ≡ before ++ x ∷ after
    → log ++ e ∷ [] ≡ before ++ x ∷ (after ++ e ∷ [])
longer log before after x e p = rw p (append_assoc before (x ∷ after) (e ∷ []))

module _ {task_id actor : String} {log : List Event} (e : Event) where
  Claimed-append : Claimed task_id actor log → Claimed task_id actor (log ++ e ∷ [])
  Claimed-append (claimed b a x p i n o) = claimed b (a ++ e ∷ []) x (longer log b a x e p) i n o

  Completed-append : Completed task_id actor log → Completed task_id actor (log ++ e ∷ [])
  Completed-append (completed b a x p i n o c) =
      completed b (a ++ e ∷ []) x (longer log b a x e p) i n o c

  Approved-append : Approved task_id actor log → Approved task_id actor (log ++ e ∷ [])
  Approved-append (approved b a x p i d n c) =
      approved b (a ++ e ∷ []) x (longer log b a x e p) i d n c

Claimed_before :
    {task_id actor : String} {log : List Event} (b a : List Event) (x : Event)
    → log ≡ b ++ x ∷ a
    → Claimed task_id actor b
    → Claimed task_id actor log
Claimed_before b a x p (claimed b' a' y q i n o) =
    claimed b' (a' ++ x ∷ a) y (p ∙ rw q (append_assoc b' (y ∷ a') (x ∷ a))) i n o

Completed-Claimed :
    {task_id actor : String} {log : List Event}
    → Completed task_id actor log
    → Claimed task_id actor log
Completed-Claimed (completed b a x p i n o c) = Claimed_before b a x p c

-- What the log holds of a task in a status.
pub data Trail (log : List Event) (task_id : String) (owner : Option String) : Status → Type 0 where
  waiting : {s : Status} → s ≡ Status.todo → Trail log task_id owner s
  working :
      {s : Status} (actor : String)
      → s ≡ Status.in_progress
      → owner ≡ some actor
      → Claimed task_id actor log
      → Trail log task_id owner s
  submitted :
      {s : Status} (actor : String)
      → s ≡ Status.review
      → owner ≡ some actor
      → Completed task_id actor log
      → Trail log task_id owner s
  finished :
      {s : Status} (actor : String)
      → s ≡ Status.done
      → owner ≡ some actor
      → Approved task_id actor log
      → Trail log task_id owner s

abbrev HasTrail : List Event → Task → Type 0
HasTrail log t = Trail log t.task_id t.assigned_to t.status

keep-Trail :
    (past : List Event) (e : Event) (t : Task) → HasTrail past t → HasTrail (past ++ e ∷ []) t
keep-Trail past e t (waiting s) = waiting s
keep-Trail past e t (working a s o c) = working a s o (Claimed-append e c)
keep-Trail past e t (submitted a s o c) = submitted a s o (Completed-append e c)
keep-Trail past e t (finished a s o c) = finished a s o (Approved-append e c)

-- The moves out of each status.
from_todo :
    (a : Action) (d : Option Decision) (r : Status)
    → next_status Status.todo a d ≡ some r
    → (a ≡ Action.claim) × (r ≡ Status.in_progress)
unfolding next_status
from_todo a d r h = ground arith

from_in_progress :
    (a : Action) (d : Option Decision) (r : Status)
    → next_status Status.in_progress a d ≡ some r
    → (a ≡ Action.complete) × (r ≡ Status.review)
unfolding next_status
from_in_progress a d r h = ground arith

from_review :
    (a : Action) (d : Option Decision) (r : Status)
    → next_status Status.review a d ≡ some r
    → (a ≡ Action.review)
      × (((d ≡ some Decision.approve) × (r ≡ Status.done)) ⊎ (r ≡ Status.in_progress))
unfolding next_status
from_review a d r h = ground arith

from_done :
    (a : Action) (d : Option Decision) (r : Status) → next_status Status.done a d ≡ some r → ⊥
unfolding next_status
from_done a d r h = ground arith

change-Trail :
    (past : List Event) (e : Event) (t u : Task)
    → HasTrail past t
    → Changed e.action e t u
    → HasTrail (past ++ e ∷ []) u
change-Trail past e t u (waiting s) c =
    let (is_claim, r) = from_todo e.action e.payload.decision u.status (rw s at c.moved) in
    working e.actor r (c.claimed is_claim).1
      (rw c.same_id (claimed past [] e refl is_claim c.named refl))
change-Trail past e t u (working a s o k) c =
    let (is_complete, r) =
      from_in_progress e.action e.payload.decision u.status (rw s at c.moved) in
    submitted a r (c.kept_owner (λ p. cc) ∙ o)
      (rw c.same_id (completed past [] e refl is_complete c.named (cc (c.completed is_complete)) k))
change-Trail past e t u (submitted a s o k) c =
    let (is_review, r) = from_review e.action e.payload.decision u.status (rw s at c.moved) in
    let owner : u.assigned_to ≡ some a = c.kept_owner (λ p. cc) ∙ o in
    elim r [
      | inl (yes_said, d) ↦
          finished a d owner (rw c.same_id (approved past [] e refl is_review yes_said c.named k))
      | inr again ↦ working a again owner (rw c.same_id (Claimed-append e (Completed-Claimed k)))
    ]
change-Trail past e t u (finished a s o k) c =
    absurd (from_done e.action e.payload.decision u.status (rw s at c.moved))

replay-Trail :
    (now name : String) (s : State) (es : List Event)
    → replay now name es ≡ ok s
    → All (HasTrail es) s.tasks
replay-Trail = replay-All HasTrail (λ past t f. waiting f.waits) keep-Trail change-Trail

done_trail :
    (log : List Event) (t : Task)
    → HasTrail log t
    → t.status ≡ Status.done
    → (actor : String) × (t.assigned_to ≡ some actor) × Approved t.task_id actor log
done_trail log t (waiting s) d = absurd (cc)
done_trail log t (working a s o c) d = absurd (cc)
done_trail log t (submitted a s o c) d = absurd (cc)
done_trail log t (finished a s o c) d = (a, o, c)

-- A task is `done` in a replay only if the log holds, in this order, a claim of it by its owner, a
-- completion of it by the same actor, and a review of it that approves.
pub done_needs_review :
    (now name : String) (s : State) (es : List Event) (i : ℕ) (t : Task)
    → replay now name es ≡ ok s
    → get_elem? s.tasks i ≡ some t
    → t.status ≡ Status.done
    → (actor : String) × (t.assigned_to ≡ some actor) × Approved t.task_id actor es
done_needs_review now name s es i t h at d =
    done_trail es t (All-get (HasTrail es) s.tasks i t (replay-Trail now name s es h) at) d
