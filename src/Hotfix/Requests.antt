-- ===== src/Hotfix/Requests.antt =====
-- What is known when a hotfix event is built.
use esaa_event_sourcing_agen.Prelude.{
  ◌≡◌, String, Bool, true, false, not, ◌&&◌, Option, none, some, List, arith, or_else, truthy,
  Bool-cases, Option-cases, inl, inr,
}
use esaa_event_sourcing_agen.Codes.{Code}
use esaa_event_sourcing_agen.Outcome.{ok, >>=-eq-ok}
use esaa_event_sourcing_agen.Machine.{Status, Action}
use esaa_event_sourcing_agen.Event.{Runner, Payload, Event, make_event}
use esaa_event_sourcing_agen.Store.{next_event_seq}
use esaa_event_sourcing_agen.Projector.{Task, Issue, Projection, Materialized, materialize}
use esaa_event_sourcing_agen.Scheduling.{has_status, by_id}
use esaa_event_sourcing_agen.Hotfix.{
  issue_by_id, is_open, check_request, answer, hotfix_payload, validate_hotfix_request,
  build_hotfix_event,
}

-- The views hold the task to fix, done if it is immutable once done, and an open issue.
pub record IsJustified (views : Materialized) (issue_id fixes : String) : Type 0 where
  pub target : Task
  pub issue : Issue
  pub found_target : by_id views.roadmap.state.tasks fixes ≡ some target
  pub done_target : (target.done_is_immutable && not (has_status Status.done target)) ≡ false
  pub found_issue : issue_by_id views.issues.issues issue_id ≡ some issue
  pub open_issue : is_open issue ≡ true

check_request-IsJustified :
    (views : Materialized) (p : Payload) (issue_id fixes : String)
    → check_request views p issue_id fixes ≡ none
    → IsJustified views issue_id fixes
unfolding check_request
check_request-IsJustified views p issue_id fixes h =
    elim (Option-cases (by_id views.roadmap.state.tasks fixes)) [
      | inl e ↦ absurd (cc (rw (e, check_request) at h))
      | inr (t, e) ↦ elim (Option-cases (issue_by_id views.issues.issues issue_id)) [
        | inl f ↦ absurd (ground arith)
        | inr (i, f) ↦ record {
          target = t;
          issue = i;
          found_target = e;
          done_target = ground arith;
          found_issue = f;
          open_issue = ground arith;
        }
      ]
    ]

-- The event that `answer` builds.
pub record IsHotfix (events : List Event) (p : Payload) (e : Event) : Type 0 where
  pub next : e.event_seq ≡ next_event_seq events
  pub is_hotfix_create : e.action ≡ Action.hotfix_create
  pub for_issue : e.payload.issue_id ≡ some (or_else p.issue_id "")
  pub fixes_target : e.payload.fixes ≡ some (or_else p.fixes "")

module _ (digest : Projection → String) (now : String) (runner : Option Runner) where
  answer-some :
      (b : Bool) (events : List Event) (p : Payload) (verdict : Option Code) (e : Event)
      → answer digest now runner b events p verdict ≡ ok (some e)
      → (verdict ≡ none) × IsHotfix events p e
  unfolding answer make_event hotfix_payload
  answer-some b events p verdict e h = elim (Option-cases verdict) [
    | inr (c, q) ↦ absurd (ground arith)
    | inl q ↦ (q, ground arith)
  ]

  -- A hotfix event is built only if the log materializes to views in which the task to fix is there,
  -- and done if it is immutable once done, and the issue is there and open; the event has the next
  -- sequence number and names that issue and that task.
  pub build_hotfix_event-IsJustified :
      (events : List Event) (p : Payload) (b : Bool) (e : Event)
      → build_hotfix_event digest now runner events p b ≡ ok (some e)
      → (views : Materialized) × (materialize digest now events ≡ ok views)
        × IsJustified views (or_else p.issue_id "") (or_else p.fixes "")
        × IsHotfix events p e
  unfolding build_hotfix_event validate_hotfix_request
  build_hotfix_event-IsJustified events p b e h =
      elim (Bool-cases (truthy p.issue_id && truthy p.fixes)) [
        | inl t ↦
            let i : truthy p.issue_id ≡ true = ground arith in
            let f : truthy p.fixes ≡ true = ground arith in
            let (verdict, v, a) =
              >>=-eq-ok (validate_hotfix_request digest now runner events p) _
                (rw (t, build_hotfix_event) at h) in
            let (q, built) = answer-some b events p verdict e a in
            let (views, m, r) =
              >>=-eq-ok (materialize digest now events) _
                (rw (i, f, validate_hotfix_request) at v) in
            let c : check_request views p (or_else p.issue_id "") (or_else p.fixes "") ≡ none =
              ground arith in
            (
              views,
              m,
              check_request-IsJustified views p (or_else p.issue_id "") (or_else p.fixes "") c,
              built,
            )
        | inr t ↦ absurd (ground arith)
      ]
