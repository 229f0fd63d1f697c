-- ===== src/Submission/Candidates.antt =====
-- The events of a submission, and those that close it.
use esaa_event_sourcing_agen.Prelude.{
  ◌+◌, String, true, Option, none, some, List, [], ◌∷◌, ◌++◌, if◌then◌else◌,
}
use esaa_event_sourcing_agen.Outcome.{Outcome, ok, ◌>>=◌}
use esaa_event_sourcing_agen.Machine.{Action}
use esaa_event_sourcing_agen.Event.{Effect, Payload, Event, empty_payload, make_event}
use esaa_event_sourcing_agen.Projector.{Materialized, materialize}
use esaa_event_sourcing_agen.Store.{next_event_seq}
use esaa_event_sourcing_agen.Hotfix.{build_hotfix_event, build_issue_resolve_event}
use esaa_event_sourcing_agen.Service.{verify_start, end_run, verify_ok}
use esaa_event_sourcing_agen.Effects.{Metadata}
use esaa_event_sourcing_agen.Validation.{is_report}
use esaa_event_sourcing_agen.Submission.Preparation.{Setting, Prepared, is_review}

effects_of : List Metadata → List Effect
effects_of [] = []
effects_of (m ∷ ms) =
    record { path = some m.path; after_sha256 = m.after_sha256; artifact_path = m.artifact_path }
    ∷ effects_of ms

-- `_file_write_payload`
file_write_payload : String → List Metadata → Payload
unfolding effects_of
file_write_payload task_id effects = record empty_payload {
  task_id = some task_id;
  effects = effects_of effects;
}

module _ (s : Setting) (events : List Event) where
  -- An event that is added must replay.
  unfoldable pub add_event : List Event → Option Event → Outcome (List Event)
  add_event new none = ok new
  add_event new (some e) = do
    views ← materialize s.digest s.now (events ++ (new ++ e ∷ []))
    ok (new ++ e ∷ [])

  unfoldable pub with_write : Prepared → List Metadata → List Event → Outcome (List Event)
  unfolding file_write_payload
  with_write p [] new = ok new
  with_write p (m ∷ effects) new = add_event new (
      some (
        make_event s.now s.runner (next_event_seq events + 1) "orchestrator" Action.file_write
          (file_write_payload p.task.task_id (m ∷ effects))))

  unfoldable pub with_hotfix : Prepared → List Event → Outcome (List Event)
  with_hotfix p new =
      if is_report p.event.action
      then (do
        hotfix ← build_hotfix_event s.digest s.now s.runner (events ++ new) p.event.payload true
        add_event new hotfix)
      else ok new

  unfoldable pub with_resolution : Prepared → List Event → Outcome (List Event)
  with_resolution p new =
      if is_review p.event.action
      then (do
        closing ← build_issue_resolve_event s.now s.runner (events ++ new) p.task p.event.payload
        add_event new closing)
      else ok new

  unfoldable pub candidates : Prepared → List Metadata → Outcome (List Event)
  candidates p effects = do
    written ← with_write p effects (p.agent_event ∷ [])
    reported ← with_hotfix p written
    with_resolution p reported

  -- Here the verification starts before the run ends.
  unfoldable pub seal_started : List Event → Outcome (List Event × Materialized)
  seal_started new = do
    let started = new ++ verify_start s.digest s.now s.runner events new ∷ []
    views ← materialize s.digest s.now (events ++ started)
    ended ← end_run s.digest s.now s.runner events started views
    before ← materialize s.digest s.now (events ++ ended)
    let finished = ended ++ verify_ok s.digest s.now s.runner events ended before ∷ []
    final ← materialize s.digest s.now (events ++ finished)
    ok (finished, final)
