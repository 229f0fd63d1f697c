-- ===== src/Policy/Samples.antt =====
-- The theorems about attempts at a small log.
use mathlib.Core.List.{Memᴰ}
use esaa_event_sourcing_agen.Prelude.{
  ℕ, ◌+◌, ◌<◌, ◌≡◌, refl, String, true, ◌&&◌, Option, none, some, [], ◌∷◌,
}
use esaa_event_sourcing_agen.Machine.{Action}
use esaa_event_sourcing_agen.Event.{Event, empty_payload}
use esaa_event_sourcing_agen.Policy.{about_task, is_claim, last_ts, attempt_expired}
use esaa_event_sourcing_agen.Policy.Attempts.{attempt_expired-claimed}

abbrev event : Action → String → Event
event action ts = record {
  schema_version = "0.4.1";
  event_id = "EV-00000001";
  event_seq = 1;
  ts = ts;
  actor = "agent-a";
  runner = none;
  action = action;
  payload = record empty_payload { task_id = some "T-1" };
  reviewer_role = none;
  prev_event_hash = none;
  event_hash = none;
}

abbrev rejected : Event
rejected = event Action.output_rejected "first"

abbrev claimed : Event
claimed = event Action.claim "first"

abbrev parse_ts : String → Option ℕ
parse_ts text = some 10

expired : attempt_expired parse_ts (claimed ∷ []) "T-1" 100 30 ≡ true
unfolding last_ts attempt_expired
expired = refl

attempt_expired-claimed_example :
    (e : Event) × (t : ℕ) × Memᴰ e (claimed ∷ [])
    × ((about_task "T-1" e && is_claim e.action) ≡ true)
    × (parse_ts e.ts ≡ some t)
    × (t + 30 < 100)
attempt_expired-claimed_example =
    attempt_expired-claimed parse_ts (claimed ∷ []) "T-1" 100 30 expired
