-- ===== src/Replay/Evolution.antt =====
-- How one event changes the list of tasks: which task, by which transition, under whose lock.
use esaa_event_sourcing_agen.Prelude.{
  ◌≡◌, ◌≢◌, refl, sym, ◌⊎◌, inl, inr, String, false, Option, none, some, List, [], ◌∷◌, ◌++◌, ◌==◌,
  eq_iff, arith, All, Bool-cases, truthy,
}
use esaa_event_sourcing_agen.Outcome.{Outcome, ok, >>=-eq-ok, required}
use esaa_event_sourcing_agen.Machine.{Status, Action, next_status, classify_transition}
use esaa_event_sourcing_agen.Event.{Payload, Event}
use esaa_event_sourcing_agen.Projector.{
  Task, State, new_task, update_task, ensure_owner, check_transition, claim_task, complete_task,
  review_task, refuse_duplicate, apply_issue_report, apply_hotfix_create, apply_issue_resolve,
  on_task, apply_task_create, dispatch, apply_event,
}

-- A change of task `t` to `u` by an event that is handled as action `a`.
pub record Changed (a : Action) (e : Event) (t u : Task) : Type 0 where
  pub named : e.payload.task_id ≡ some t.task_id
  pub same_id : u.task_id ≡ t.task_id
  pub moved : next_status t.status a e.payload.decision ≡ some u.status
  pub claimed : a ≡ Action.claim → (truthy t.assigned_to ≡ false) × (u.assigned_to ≡ some e.actor)
  pub kept_owner : a ≢ Action.claim → u.assigned_to ≡ t.assigned_to
  pub completed : a ≡ Action.complete → t.assigned_to ≡ some e.actor

abbrev pub TaskStep : Action → Event → Task → Task → Type 0
TaskStep a e t u = (u ≡ t) ⊎ Changed a e t u

-- Every old task takes a step in its place, and new tasks stand behind them.
pub data Evolves (R : Task → Task → Type 0) (N : Task → Type 0)
    : List Task → List Task → Type 0 where
  grown : (ns : List Task) → All N ns → Evolves R N [] ns
  step :
      {t u : Task} {ts us : List Task} → R t u → Evolves R N ts us → Evolves R N (t ∷ ts) (u ∷ us)

-- A new task waits for a claim and nobody has it.
pub record IsFresh (t : Task) : Type 0 where
  pub waits : t.status ≡ Status.todo
  pub unowned : t.assigned_to ≡ none

module _ (R : Task → Task → Type 0) (N : Task → Type 0) (same : (t : Task) → R t t) where
  Evolves-append : (ts ns : List Task) → All N ns → Evolves R N ts (ts ++ ns)
  Evolves-append [] ns h = grown ns h
  Evolves-append (t ∷ ts) ns h = step (same t) (Evolves-append ts ns h)

  Evolves-refl : (ts : List Task) → Evolves R N ts ts
  Evolves-refl [] = grown [] tt
  Evolves-refl (t ∷ ts) = step (same t) (Evolves-refl ts)

  update_task-Evolves :
      (task_id : String) (f : Task → Outcome Task) (ts us : List Task)
      → ((t u : Task) → task_id ≡ t.task_id → f t ≡ ok u → R t u)
      → update_task task_id f ts ≡ ok us
      → Evolves R N ts us
  unfolding update_task
  update_task-Evolves task_id f [] us steps h = ground arith
  update_task-Evolves task_id f (t ∷ ts) us steps h = elim (Bool-cases (t.task_id == task_id)) [
    | inl e ↦
        let (u, fu, ends) = >>=-eq-ok (f t) (λ t'. ok (t' ∷ ts)) (rw e at h) in
        let p : us ≡ u ∷ ts = ground arith in
        rw p (step (steps t u (sym ((eq_iff t.task_id task_id).0 e)) fu) (Evolves-refl ts))
    | inr e ↦
        let (vs, rest, ends) =
          >>=-eq-ok (update_task task_id f ts) (λ ts'. ok (t ∷ ts')) (rw e at h) in
        let p : us ≡ t ∷ vs = ground arith in
        rw p (step (same t) (update_task-Evolves task_id f ts vs steps rest))
  ]

claim_task-Changed :
    (e : Event) (t u : Task)
    → e.payload.task_id ≡ some t.task_id
    → claim_task e t ≡ ok u
    → Changed Action.claim e t u
unfolding claim_task check_transition classify_transition next_status
claim_task-Changed e t u n h = ground arith

owner_of_ok :
    (o : Option String) (t : Task) (actor : String)
    → t.assigned_to ≡ o
    → ensure_owner t actor ≡ ok tt
    → o ≡ some actor
unfolding ensure_owner
owner_of_ok none t actor e h = ground arith
owner_of_ok (some owner) t actor e h = ground (arith, eq_iff owner actor)

complete_task-Changed :
    (e : Event) (t u : Task)
    → e.payload.task_id ≡ some t.task_id
    → complete_task e t ≡ ok u
    → Changed Action.complete e t u
unfolding complete_task check_transition classify_transition next_status
complete_task-Changed e t u n h = ground (arith, owner_of_ok t.assigned_to t e.actor refl)

review_task-Changed :
    (e : Event) (t u : Task)
    → e.payload.task_id ≡ some t.task_id
    → review_task e t ≡ ok u
    → Changed Action.review e t u
unfolding review_task check_transition classify_transition next_status
review_task-Changed e t u n h = ground arith

new_task-IsFresh : (p : Payload) (t : Task) → new_task p ≡ ok t → IsFresh t
unfolding new_task
new_task-IsFresh p t h = ground arith

module _ (s s' : State) (e : Event) where
  abbrev Grows : Action → Type 0
  Grows a = Evolves (TaskStep a e) IsFresh s.tasks s'.tasks

  kept_tasks : (a : Action) → s'.tasks ≡ s.tasks → Grows a
  kept_tasks a p = rw p (Evolves-refl (TaskStep a e) IsFresh (λ t. inl refl) s.tasks)

  added_task : (a : Action) (t : Task) → IsFresh t → s'.tasks ≡ s.tasks ++ t ∷ [] → Grows a
  added_task a t h p =
      rw p (Evolves-append (TaskStep a e) IsFresh (λ t'. inl refl) s.tasks (t ∷ []) (h, tt))

  on_task-Grows :
      (a : Action) (f : Task → Outcome Task)
      → ((t u : Task) → e.payload.task_id ≡ some t.task_id → f t ≡ ok u → Changed a e t u)
      → on_task f s e ≡ ok s'
      → Grows a
  unfolding on_task
  on_task-Grows a f change h =
      let (task_id, named, rest) = >>=-eq-ok (required e.payload.task_id) _ h in
      let (us, done, ends) = >>=-eq-ok (update_task task_id f s.tasks) _ rest in
      let n : e.payload.task_id ≡ some task_id = ground arith in
      let p : s'.tasks ≡ us = ground arith in
      rw p (
        update_task-Evolves (TaskStep a e) IsFresh (λ t. inl refl) task_id f s.tasks us
          (λ t u named' fu. inr (change t u (cc) fu)) done)

  issue_report-Grows : apply_issue_report s e ≡ ok s' → Grows Action.issue_report
  unfolding apply_issue_report
  issue_report-Grows h = kept_tasks Action.issue_report (ground arith)

  issue_resolve-Grows : apply_issue_resolve s e ≡ ok s' → Grows Action.issue_resolve
  unfolding apply_issue_resolve
  issue_resolve-Grows h = kept_tasks Action.issue_resolve (ground arith)

  task_create-Grows : apply_task_create s e ≡ ok s' → Grows Action.task_create
  unfolding apply_task_create
  task_create-Grows h =
      let (t, made, ends) = >>=-eq-ok (new_task e.payload) _ h in
      added_task Action.task_create t (new_task-IsFresh e.payload t made) (ground arith)

  hotfix_create-Grows : apply_hotfix_create s e ≡ ok s' → Grows Action.hotfix_create
  unfolding apply_hotfix_create
  hotfix_create-Grows h =
      let (task_id, named, rest) = >>=-eq-ok (required e.payload.task_id) _ h in
      let (u, fresh_id, rest') = >>=-eq-ok (refuse_duplicate task_id s.tasks) _ rest in
      let (t, made, ends) = >>=-eq-ok (new_task e.payload) _ rest' in
      added_task Action.hotfix_create t (new_task-IsFresh e.payload t made) (ground arith)

  dispatch-Grows : (a : Action) → dispatch a s e ≡ ok s' → Grows a
  unfolding dispatch
  dispatch-Grows Action.claim h = on_task-Grows Action.claim (claim_task e) (claim_task-Changed e) h
  dispatch-Grows Action.complete h =
      on_task-Grows Action.complete (complete_task e) (complete_task-Changed e) h
  dispatch-Grows Action.review h =
      on_task-Grows Action.review (review_task e) (review_task-Changed e) h
  dispatch-Grows Action.task_create h = task_create-Grows h
  dispatch-Grows Action.hotfix_create h = hotfix_create-Grows h
  dispatch-Grows Action.issue_report h = issue_report-Grows h
  dispatch-Grows Action.issue_resolve h = issue_resolve-Grows h
  dispatch-Grows Action.view_mutate h = kept_tasks Action.view_mutate (ground arith)
  dispatch-Grows a h = kept_tasks a (ground arith)

pub apply_event-Evolves :
    (s s' : State) (e : Event)
    → apply_event s e ≡ ok s'
    → Evolves (TaskStep e.action e) IsFresh s.tasks s'.tasks
unfolding apply_event
apply_event-Evolves s s' e h =
    let (m, done, ends) = >>=-eq-ok (dispatch e.action s e) _ h in
    let p : s'.tasks ≡ m.tasks = ground arith in rw p (dispatch-Grows s m e e.action done)
