-- ===== src/Hotfix/Closing.antt =====
-- What the event that closes the issue of a hotfix does to the log.
use esaa_event_sourcing_agen.Prelude.{
  ◌≡◌, refl, sym, ap, subst, ◌∙◌, String, true, false, ◌&&◌, Option, none, some, List, [], ◌∷◌,
  ◌++◌, arith, Bool-cases, inl, inr, or_else, truthy, lookup, put, lookup-put_self,
}
use esaa_event_sourcing_agen.Outcome.{ok, raise, required, >>=-eq-ok}
use esaa_event_sourcing_agen.Machine.{Action, Decision}
use esaa_event_sourcing_agen.Event.{Runner, Payload, Event, make_event}
use esaa_event_sourcing_agen.Projector.{
  Task, IssueStatus, Issue, State, empty_state, resolve, apply_issue_resolve, dispatch, apply_event,
  replay_from, replay,
}
use esaa_event_sourcing_agen.Store.{next_event_seq}
use esaa_event_sourcing_agen.Replay.Last.{replay_from-append}
use esaa_event_sourcing_agen.Hotfix.{
  approves, is_resolved_in, resolve_payload, build_issue_resolve_event,
}

-- Why the event was built: the task is a hotfix for the issue, the review approves it, and no event
-- of the log resolves the issue.
pub record IsDue (events : List Event) (t : Task) (p : Payload) (issue_id : String) : Type 0 where
  pub of_hotfix : t.is_hotfix ≡ true
  pub approved : p.decision ≡ some Decision.approve
  pub for_issue : t.issue_id ≡ some issue_id
  pub still_open : is_resolved_in events issue_id ≡ false

module _ (now : String) (runner : Option Runner) (events : List Event) (t : Task)
    (p : Payload) where
  -- the event with the issue and the review's task
  built_event : String → String → Event
  built_event issue_id task_id =
      make_event now runner (next_event_seq events) "orchestrator" Action.issue_resolve
        (resolve_payload t issue_id task_id)

  built-IsDue :
      (e : Event)
      → build_issue_resolve_event now runner events t p ≡ ok (some e)
      → (issue_id : String) × (task_id : String) × IsDue events t p issue_id
        × (built_event issue_id task_id ≡ e)
  unfolding build_issue_resolve_event built_event
  built-IsDue e h = elim (Bool-cases (t.is_hotfix && approves p && truthy t.issue_id)) [
    | inr n ↦ absurd (ground (arith, h, n))
    | inl y ↦ elim (Bool-cases (is_resolved_in events (or_else t.issue_id ""))) [
      | inl r ↦ absurd (ground (arith, h, y, r))
      | inr r ↦
          let (task_id, q, rest) = >>=-eq-ok (required p.task_id) _ (rw (y, r) at h) in
          (
            or_else t.issue_id "",
            task_id,
            record {
              of_hotfix = ground (arith, y);
              approved = ground (arith, y);
              for_issue = ground (arith, y);
              still_open = r;
            },
            ap (λ o. elim o [ ok (some x) ↦ x | ok none ↦ e | raise f ↦ e ]) rest,
          )
    ]
  ]

  -- The log with the event replays, and the issue is then resolved.
  resolves_issue :
      (issue_id task_id project_name : String) (s : State) (i : Issue)
      → replay now project_name events ≡ ok s
      → lookup issue_id s.issues ≡ some i
      → (s' : State) × (i' : Issue) × (replay now project_name
            (events ++ built_event issue_id task_id ∷ [])
          ≡ ok s')
        × (lookup issue_id s'.issues ≡ some i')
        × (i'.status ≡ IssueStatus.resolved)
        × (s'.tasks ≡ s.tasks)
  unfolding replay replay_from apply_event dispatch apply_issue_resolve resolve built_event
      make_event resolve_payload
  resolves_issue issue_id task_id project_name s i r l =
      let split =
        replay_from-append (empty_state now project_name) events
          (built_event issue_id task_id ∷ []) in
      let e = built_event issue_id task_id in
      let i' = resolve e i in
      let s' = record s {
        issues = put issue_id i' s.issues;
        last_event_seq = e.event_seq;
        updated_at = e.ts;
      } in
      (s', i', rw (split, r, l) refl, lookup-put_self issue_id i' s.issues, refl, refl)

  -- If an event is built to close the issue of a task and the log replays to a state that knows this
  -- issue, then the event was due, and the log with the event replays too: to the same tasks, with
  -- the issue resolved.
  pub build_issue_resolve_event-resolves :
      (e : Event) (issue_id project_name : String) (s : State) (i : Issue)
      → build_issue_resolve_event now runner events t p ≡ ok (some e)
      → t.issue_id ≡ some issue_id
      → replay now project_name events ≡ ok s
      → lookup issue_id s.issues ≡ some i
      → IsDue events t p issue_id
        × ((s' : State) × (i' : Issue) × (replay now project_name (events ++ e ∷ []) ≡ ok s')
            × (lookup issue_id s'.issues ≡ some i')
            × (i'.status ≡ IssueStatus.resolved)
            × (s'.tasks ≡ s.tasks))
  build_issue_resolve_event-resolves e issue_id project_name s i h q r l =
      let (found, task_id, due, same) = built-IsDue e h in
      let id : found ≡ issue_id =
        ap (λ o. elim o [ some x ↦ x | none ↦ found ]) (sym due.for_issue ∙ q) in
      (
        subst (IsDue events t p) id due,
        subst
            (λ x.
              (s' : State) × (i' : Issue) × (replay now project_name (events ++ x ∷ []) ≡ ok s')
              × (lookup issue_id s'.issues ≡ some i')
              × (i'.status ≡ IssueStatus.resolved)
              × (s'.tasks ≡ s.tasks))
            (ap (λ x. built_event x task_id) (sym id) ∙ same)
            (resolves_issue issue_id task_id project_name s i r l),
      )
