-- ===== src/Examples.antt =====
-- Events and codecs for tests and examples.
use esaa_event_sourcing_agen.Prelude.{
  ℕ, String, Option, none, some, List, [], ◌∷◌, ◌==◌, if◌then◌else◌, join,
}
use esaa_event_sourcing_agen.Machine.{Action}
use esaa_event_sourcing_agen.Event.{Event, Payload}
use esaa_event_sourcing_agen.Store.{RawEvent, Codec, raw_of}

abbrev pub stamp : String
stamp = "2026-01-01T00:00:00Z"

abbrev pub event : ℕ → String → Action → Payload → Event
event seq event_id action payload = record {
  schema_version = "0.4.1";
  event_id = event_id;
  event_seq = seq;
  ts = stamp;
  actor = "orchestrator";
  runner = none;
  action = action;
  payload = payload;
  reviewer_role = none;
  prev_event_hash = none;
  event_hash = none;
}

abbrev loads_from : List Event → String → Option RawEvent
loads_from [] line = none
loads_from (e ∷ es) line = if e.event_id == line then some (raw_of e) else loads_from es line

-- The line of an event is its id, which only the ids of these events give back.
abbrev pub codec_of : List Event → Codec
codec_of es = record {
  dumps = λ e. e.event_id;
  loads = loads_from es;
  canonical = λ e. e.event_id;
  sha256 = λ s. join "h" s;
}
