-- ===== src/Log/Samples.antt =====
-- The theorems about the store at small texts, with a codec for the events used here.
use esaa_event_sourcing_agen.Prelude.{
  ℕ, ◌≡◌, refl, String, true, Option, none, some, [], ◌∷◌, ◌++◌, ◌==◌, eq_iff, map, All, any,
  length, Bool-cases, inl, inr, if◌then◌else◌, is_blank, ends_in_line_feed, padded, join,
}
use esaa_event_sourcing_agen.Codes.{Code}
use esaa_event_sourcing_agen.Outcome.{Outcome, esaa_error, ok, raise}
use esaa_event_sourcing_agen.Machine.{Action}
use esaa_event_sourcing_agen.Event.{Event, Payload, empty_payload, make_event}
use esaa_event_sourcing_agen.Store.{
  RawEvent, Codec, raw_of, splitlines, stored_lines, has_break, find_anchor, anchor_hash,
  compute_event_hash, validate_links, validate_anchor, validate_hash_chain, latest_hash, lift_role,
  link, link_events, prepare_events_for_append, normalize_legacy_event, is_canonical,
  validate_runner_block, decoded, check_event, parse_lines, parse_event_store,
  verify_appended_lines, written_lines, append_lines, append_events,
}
use esaa_event_sourcing_agen.Prelude.{◌≢◌, ◌∙◌, List, arith, sym, eq_iff}
use esaa_event_sourcing_agen.Prelude.Sorting.{sort_by}
use esaa_event_sourcing_agen.Projector.{
  empty_state, dispatch, apply_event, replay_from, replay, index_counts, issues_view, lessons_view,
  compute_projection_hash, roadmap_view, materialize,
}
use esaa_event_sourcing_agen.Store.{
  Written, Receipt, check_seq, check_hash, planned, persist, commit, carried_out, plan_append,
  next_event_seq, append_transactional,
}
use esaa_event_sourcing_agen.Log.Transaction.{IsCommitted, append_transactional-IsCommitted}
use esaa_event_sourcing_agen.Log.Read.{AllRead}
use esaa_event_sourcing_agen.Log.Accepted.{
  Accepted, up_from, parse_event_store-Accepted, parse_event_store-distinct,
}
use esaa_event_sourcing_agen.Log.Append.{IsLine, stored_lines-append_lines}
use esaa_event_sourcing_agen.Log.Verify.{append_events-broken}
use esaa_event_sourcing_agen.Log.Chained.{HasDigests}
use esaa_event_sourcing_agen.Log.Roundtrip.{IsAppendable, append_events-parse}

program : Unit {0}
unfolding make_event padded is_blank ends_in_line_feed splitlines stored_lines has_break find_anchor
    anchor_hash compute_event_hash validate_links validate_anchor validate_hash_chain latest_hash
    lift_role link link_events prepare_events_for_append normalize_legacy_event is_canonical
    validate_runner_block decoded check_event parse_lines parse_event_store verify_appended_lines
    written_lines append_lines append_events Accepted
program = tt

abbrev event : ℕ → String → Action → Payload → Event
event seq event_id action payload = record {
  schema_version = "0.4.1";
  event_id = event_id;
  event_seq = seq;
  ts = "2026-01-01T00:00:00Z";
  actor = "orchestrator";
  runner = none;
  action = action;
  payload = payload;
  reviewer_role = none;
  prev_event_hash = none;
  event_hash = none;
}

abbrev started : Event
started = event 1 "EV-00000001" Action.run_start empty_payload

abbrev anchor : Event
anchor =
    event 2 "EV-00000002" Action.chain_anchor (record empty_payload {
      anchored_through_seq = some 1;
      anchor_sha256 = some "hEV-00000001\n";
    })

abbrev ended : Event
ended = event 3 "EV-00000003" Action.run_end empty_payload

abbrev chained : Event
chained = record ended { prev_event_hash = some "hEV-00000001\n"; event_hash = some "hEV-00000003" }

abbrev loads : String → Option RawEvent
loads line =
    if line == "EV-00000001"
    then some (raw_of started)
    else if line == "EV-00000002"
    then some (raw_of anchor)
    else if line == "EV-00000003"
    then some (raw_of chained)
    else none

-- Each event's line is its id.
abbrev ids_only : Codec
ids_only = record {
  dumps = λ e. e.event_id;
  loads = loads;
  canonical = λ e. e.event_id;
  sha256 = λ s. join "h" s;
}

-- The last line is open.
abbrev text : String
text = "EV-00000001\nEV-00000002"

parsed : parse_event_store ids_only text ≡ ok (started ∷ anchor ∷ [])
unfolding program
parsed = refl

appended :
    (append_events ids_only text (ended ∷ [])).text ≡ "EV-00000001\nEV-00000002\nEV-00000003\n"
unfolding program
appended = refl

line : IsLine "EV-00000003"
unfolding program
line = record { no_break = refl; not_blank = refl }

stored_lines-append_lines_example :
    stored_lines (append_lines text ("EV-00000003" ∷ [])) ≡ stored_lines text ++ "EV-00000003" ∷ []
stored_lines-append_lines_example = stored_lines-append_lines text ("EV-00000003" ∷ []) (line, tt)

parse_event_store-Accepted_example :
    AllRead ids_only (stored_lines text) (started ∷ anchor ∷ [])
    × (map (λ (e : Event). e.event_seq) (started ∷ anchor ∷ [])
        ≡ up_from 1 (length (stored_lines text)))
    × All (λ (e : Event). is_canonical e.action ≡ true) (started ∷ anchor ∷ [])
parse_event_store-Accepted_example =
    parse_event_store-Accepted ids_only text (started ∷ anchor ∷ []) parsed

parse_event_store-distinct_example : ◌≡◌ {A = ℕ} 1 1
parse_event_store-distinct_example =
    parse_event_store-distinct ids_only text (started ∷ anchor ∷ []) 1 1 anchor anchor parsed refl
      refl refl

has_digests : HasDigests ids_only
has_digests s = elim (Bool-cases (join "h" s == "")) [
  | inl e ↦ absurd (cc ((eq_iff (join "h" s) "").0 e))
  | inr e ↦ e
]

appendable : IsAppendable ids_only text (started ∷ anchor ∷ []) ended []
unfolding program
appendable = record {
  accepted = (
    record { numbered = refl; new_id = refl; known_action = refl },
    (
      record { numbered = refl; new_id = refl; known_action = refl },
      (record { numbered = refl; new_id = refl; known_action = refl }, tt),
    ),
  );
  no_anchor = refl;
  no_hash = (refl, tt);
  runners = (refl, tt);
  lines = (record { one_line = refl; not_blank = refl; reads_back = refl }, tt);
}

append_events-parse_example :
    ((append_events ids_only text (ended ∷ [])).result ≡ ok tt)
    × (parse_event_store ids_only (append_events ids_only text (ended ∷ [])).text
        ≡ ok (
            (started ∷ anchor ∷ [])
            ++ prepare_events_for_append ids_only (started ∷ anchor ∷ []) (ended ∷ [])))
append_events-parse_example =
    append_events-parse ids_only text (started ∷ anchor ∷ []) ended [] has_digests appendable parsed

-- Each line holds a line separator.
abbrev separated : Codec
separated = record ids_only { dumps = λ e. "a\u{2028}b" }

nothing_stored : parse_event_store separated "" ≡ ok []
unfolding program
nothing_stored = refl

broken :
    any has_break (map separated.dumps (prepare_events_for_append separated [] (started ∷ [])))
    ≡ true
unfolding program
broken = refl

append_events-broken_example :
    ((append_events separated "" (started ∷ [])).result
      ≡ raise (esaa_error Code.append_verify_failed))
    × ((append_events separated "" (started ∷ [])).text
        ≡ append_lines ""
            (map separated.dumps (prepare_events_for_append separated [] (started ∷ []))))
append_events-broken_example = append_events-broken separated "" [] started [] nothing_stored broken

abbrev second : Event
second = event 2 "EV-00000002" Action.run_end empty_payload

abbrev build : List Event → Outcome (List Event)
build events = ok (second ∷ [])

abbrev transact : String → Written Receipt
transact =
    append_transactional ids_only (λ p. p.schema_version) "2026-01-01T00:00:00Z" build (some 2) none

changed : (transact "EV-00000001").text ≡ "EV-00000001\nEV-00000002\n"
unfolding program empty_state dispatch apply_event replay_from replay index_counts sort_by
    issues_view lessons_view compute_projection_hash roadmap_view materialize check_seq check_hash
    planned persist commit carried_out plan_append next_event_seq append_transactional
changed = refl

other_text : ◌≢◌ {A = String} "EV-00000001\nEV-00000002\n" "EV-00000001"
other_text = ground (arith, eq_iff "EV-00000001\nEV-00000002\n" "EV-00000001")

is_changed : (transact "EV-00000001").text ≢ "EV-00000001"
is_changed = λ e. other_text (sym changed ∙ e)

append_transactional-IsCommitted_example :
    IsCommitted ids_only
      (λ p. p.schema_version)
      "2026-01-01T00:00:00Z"
      build
      (some 2)
      "EV-00000001"
      (transact "EV-00000001").text
append_transactional-IsCommitted_example =
    append_transactional-IsCommitted ids_only (λ p. p.schema_version) "2026-01-01T00:00:00Z" build
      (some 2) none "EV-00000001" is_changed
