-- ===== src/Store/Parse.antt =====
-- `parse_event_store` of src/esaa/store.py, `normalize_legacy_event` of src/esaa/compat.py and
-- `validate_runner_block` of src/esaa/provenance.py.
use esaa_event_sourcing_agen.Prelude.{
  ℕ, ◌+◌, String, Bool, true, false, not, Option, none, some, List, [], ◌∷◌, ◌==◌, if◌then◌else◌,
  or_else, eqb, join, padded, contains, is_blank,
}
use esaa_event_sourcing_agen.Codes.{Code}
use esaa_event_sourcing_agen.Outcome.{esaa_error, Outcome, ok, raise, ◌>>=◌, ◌>>◌, guard}
use esaa_event_sourcing_agen.Machine.{Action}
use esaa_event_sourcing_agen.Event.{Runner, Payload, Event, empty_payload}
use esaa_event_sourcing_agen.Store.Format.{RunnerBlock, runner_block, malformed, RawEvent, Codec}
use esaa_event_sourcing_agen.Store.Lines.{stored_lines}
use esaa_event_sourcing_agen.Store.Chain.{validate_hash_chain}

abbrev or_old : Option Payload → Option Payload → Option Payload
or_old none old = old
or_old (some p) old = some p

-- `action == "run.init"`
abbrev pub is_run_init : Option Action → Bool
is_run_init (some (Action.other name)) = name == "run.init"
is_run_init _ = false

with_status : Payload → Payload
with_status p = record p { status = some (or_else p.status "initialized") }

unfoldable pub normalize_legacy_event : RawEvent → RawEvent
unfolding with_status
normalize_legacy_event raw =
    let moved = record raw {
      payload = or_old raw.payload raw.old_data;
      old_data = none;
      schema_version = some (or_else raw.schema_version "0.3.0");
    } in
    if is_run_init raw.action
    then record moved {
      action = some Action.run_start;
      payload = some (with_status (or_else moved.payload empty_payload));
    }
    else moved

-- membership in `CANONICAL_ACTIONS` of src/esaa/constants.py
unfoldable pub is_canonical : Action → Bool
is_canonical Action.plugin_install = false
is_canonical Action.plugin_remove = false
is_canonical Action.plugin_update = false
is_canonical Action.roadmap_activate = false
is_canonical Action.roadmap_pause = false
is_canonical Action.roadmap_resume = false
is_canonical Action.roadmap_deactivate = false
is_canonical Action.no_action = false
is_canonical (Action.other _) = false
is_canonical _ = true

unfoldable pub present : {A : Type 0} → Option A → Outcome A
present none = raise (esaa_error Code.event_missing_fields)
present (some a) = ok a

-- `validate_runner_block`, for the block that a line carries, if it does
unfoldable pub validate_runner_block : Option RunnerBlock → Outcome (Option Runner)
validate_runner_block none = ok none
validate_runner_block (some malformed) = raise (esaa_error Code.runner_invalid)
validate_runner_block (some (runner_block r)) = do
  guard (not (is_blank r.runner_id)) Code.runner_invalid
  ok (some r)

unfoldable pub sequence_number : Option ℕ → ℕ → Outcome ℕ
sequence_number none last_seq = raise (esaa_error Code.event_seq_invalid)
sequence_number (some n) last_seq =
    if eqb n (last_seq + 1) then ok n else raise (esaa_error Code.event_seq_non_monotonic)

-- One round of the loop: the checks of one decoded line.
unfoldable pub check_event : List String → ℕ → RawEvent → Outcome Event
unfolding sequence_number present
check_event seen last_seq raw = do
  let event = normalize_legacy_event raw
  seq ← sequence_number event.event_seq last_seq
  let event_id = or_else event.event_id (join "LEGACY-EV-" (padded 8 seq))
  guard (not (contains seen event_id)) Code.event_id_duplicate
  schema_version ← present event.schema_version
  ts ← present event.ts
  actor ← present event.actor
  action ← present event.action
  payload ← present event.payload
  guard (is_canonical action) Code.unknown_action
  runner ← validate_runner_block event.runner
  ok (record {
    schema_version = schema_version;
    event_id = event_id;
    event_seq = seq;
    ts = ts;
    actor = actor;
    runner = runner;
    action = action;
    payload = payload;
    reviewer_role = event.reviewer_role;
    prev_event_hash = event.prev_event_hash;
    event_hash = event.event_hash;
  })

unfoldable pub decoded : Option RawEvent → Outcome RawEvent
decoded none = raise (esaa_error Code.jsonl_invalid)
decoded (some raw) = ok raw

module _ (k : Codec) where
  unfoldable pub parse_lines : List String → ℕ → List String → Outcome (List Event)
  unfolding decoded
  parse_lines seen last_seq [] = ok []
  parse_lines seen last_seq (line ∷ lines) = do
    raw ← decoded (k.loads line)
    event ← check_event seen last_seq raw
    events ← parse_lines (event.event_id ∷ seen) event.event_seq lines
    ok (event ∷ events)

  unfoldable pub parse_event_store : String → Outcome (List Event)
  parse_event_store text = do
    events ← parse_lines [] 0 (stored_lines text)
    validate_hash_chain k (stored_lines text) events
    ok events

unfoldable pub next_event_seq : List Event → ℕ
next_event_seq [] = 1
next_event_seq (e ∷ []) = e.event_seq + 1
next_event_seq (e ∷ f ∷ es) = next_event_seq (f ∷ es)
