-- ===== src/Admin/Creation.antt =====
-- Which tasks `create_task` creates.
use esaa_event_sourcing_agen.Prelude.{
  ◌≡◌, String, true, false, ◌||◌, ◌==◌, Option, List, [], ◌∷◌, ◌++◌, All, any, strip, has_prefix,
}
use esaa_event_sourcing_agen.Prelude.Paths.{traverses}
use esaa_event_sourcing_agen.Outcome.{ok}
use esaa_event_sourcing_agen.Machine.{Action}
use esaa_event_sourcing_agen.Event.{Runner, Event, make_event}
use esaa_event_sourcing_agen.Projector.{Task, Projection, Materialized, materialize}
use esaa_event_sourcing_agen.Scheduling.{tasks_with_planned_plugins}
use esaa_event_sourcing_agen.Store.{Codec, parse_event_store, next_event_seq}
use esaa_event_sourcing_agen.Validation.{is_absolute}
use esaa_event_sourcing_agen.Admin.{TaskRequest, is_task_kind, create_payload}

-- The pattern is a relative path without a step to a parent, and not of the area of the events.
pub record IsSafePattern (norm : String) : Type 0 where
  pub relative : is_absolute norm ≡ ok false
  pub stays : traverses norm ≡ false
  pub not_governance : (norm == ".roadmap" || has_prefix ".roadmap/" norm) ≡ false

module _ (k : Codec) (digest : Projection → String) (now : String) (runner : Option Runner)
    (planned : List Task) where
  -- The event gives a task a name that neither the log nor a plan has, of a known kind, and with safe
  -- patterns; and the log replays with it.
  pub record IsNewTask (r : TaskRequest) (stored : String) (e : Event) : Type 0 where
    pub events : List Event
    pub views : Materialized
    pub preview : Materialized
    pub grant : List String
    pub parsed : parse_event_store k stored ≡ ok events
    pub replayed : materialize digest now events ≡ ok views
    pub replays_with : materialize digest now (events ++ e ∷ []) ≡ ok preview
    pub named : (strip r.task_id == "") ≡ false
    pub is_new :
        any
          (λ t. t.task_id == strip r.task_id)
          (tasks_with_planned_plugins planned views.roadmap.state.tasks)
        ≡ false
    pub known_kind : is_task_kind r.task_kind ≡ true
    pub safe : All IsSafePattern grant
    pub is_event :
        e
        ≡ make_event now runner
            (next_event_seq events)
            "orchestrator"
            Action.task_create
            (create_payload r grant)
