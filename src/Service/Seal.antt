-- ===== src/Service/Seal.antt =====
-- The events that `_commit_orchestrator_events` of src/esaa/service_core.py puts behind the
-- candidates.
use esaa_event_sourcing_agen.Prelude.{
  String, Bool, not, ◌&&◌, Option, some, List, [], ◌∷◌, ◌++◌, ◌==◌, if◌then◌else◌,
}
use esaa_event_sourcing_agen.Outcome.{Outcome, ok, ◌>>=◌}
use esaa_event_sourcing_agen.Machine.{Action}
use esaa_event_sourcing_agen.Event.{Runner, Event, empty_payload, make_event}
use esaa_event_sourcing_agen.Projector.{Projection, Materialized, materialize}
use esaa_event_sourcing_agen.Scheduling.{all_tasks_done}
use esaa_event_sourcing_agen.Store.{next_event_seq}

module _ (digest : Projection → String) (now : String) (runner : Option Runner)
    (events : List Event) where
  -- `make_event` with the next number behind the events and the new ones
  unfoldable pub run_end : List Event → Event
  run_end new =
      make_event now runner (next_event_seq (events ++ new)) "orchestrator" Action.run_end
        (record empty_payload { status = some "success" })

  unfoldable pub verify_start : List Event → Event
  verify_start new =
      make_event now runner (next_event_seq (events ++ new)) "orchestrator" Action.verify_start
        empty_payload

  unfoldable pub verify_ok : List Event → Materialized → Event
  verify_ok new views =
      make_event now runner (next_event_seq (events ++ new)) "orchestrator" Action.verify_ok
        (record empty_payload {
          projection_hash_sha256 = some views.roadmap.projection_hash_sha256;
        })

  unfoldable pub is_complete : Materialized → Bool
  is_complete views =
      all_tasks_done views.roadmap.state.tasks && not (views.roadmap.state.run_status == "success")

  -- A run whose tasks are all done ends, once.
  unfoldable pub end_run : List Event → Materialized → Outcome (List Event)
  unfolding is_complete
  end_run new views =
      let ended = new ++ run_end new ∷ [] in
      if is_complete views
      then (do final ← materialize digest now (events ++ ended); ok ended)
      else ok new

  -- the new events with those put behind them, and the views of the whole log
  unfoldable pub seal : List Event → Outcome (List Event × Materialized)
  seal new = do
    views ← materialize digest now (events ++ new)
    ended ← end_run new views
    let started = ended ++ verify_start ended ∷ []
    before ← materialize digest now (events ++ started)
    let finished = started ++ verify_ok started before ∷ []
    final ← materialize digest now (events ++ finished)
    ok (finished, final)
