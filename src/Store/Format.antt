-- ===== src/Store/Format.antt =====
-- What src/esaa/store.py takes from `json` and `hashlib`: how an event is written to a line, how a
-- line is read back, the canonical text that an event's hash is taken of, and SHA-256. They are
-- parameters of the model.
use esaa_event_sourcing_agen.Prelude.{ℕ, String, false, Option, none, some, ◌≡◌, is_blank}
use esaa_event_sourcing_agen.Machine.{Action}
use esaa_event_sourcing_agen.Event.{Runner, Payload, Event}
use esaa_event_sourcing_agen.Store.Lines.{has_break}

-- A decoded `runner` that is not null: an object with a `runner_id` that is a text, or anything else.
pub data RunnerBlock : Type 0 where
  runner_block : Runner → RunnerBlock
  malformed : RunnerBlock

-- A decoded line. An `event_seq` that is not an integer counts as missing, as the same code is raised
-- for both. The other keys are taken to have the types of the event schema where they are there.
pub record RawEvent : Type 0 where
  pub schema_version : Option String
  pub event_id : Option String
  pub event_seq : Option ℕ
  pub ts : Option String
  pub actor : Option String
  pub runner : Option RunnerBlock
  pub action : Option Action
  pub payload : Option Payload
  pub old_data : Option Payload  -- the key `data` of v0.3 events
  pub reviewer_role : Option String
  pub prev_event_hash : Option String
  pub event_hash : Option String

pub record Codec : Type 0 where
  pub dumps : Event → String
  pub loads : String → Option RawEvent
  pub canonical : Event → String
  pub sha256 : String → String

abbrev pub block_of : Option Runner → Option RunnerBlock
block_of none = none
block_of (some r) = some (runner_block r)

abbrev pub raw_of : Event → RawEvent
raw_of e = record {
  schema_version = some e.schema_version;
  event_id = some e.event_id;
  event_seq = some e.event_seq;
  ts = some e.ts;
  actor = some e.actor;
  runner = block_of e.runner;
  action = some e.action;
  payload = some e.payload;
  old_data = none;
  reviewer_role = e.reviewer_role;
  prev_event_hash = e.prev_event_hash;
  event_hash = e.event_hash;
}

-- What `json` documents of an event with no line separator in its texts: the line is one line, it
-- is not blank, and reading it gives the event back.
pub record IsFaithful (k : Codec) (e : Event) : Type 0 where
  pub one_line : has_break (k.dumps e) ≡ false
  pub not_blank : is_blank (k.dumps e) ≡ false
  pub reads_back : k.loads (k.dumps e) ≡ some (raw_of e)
