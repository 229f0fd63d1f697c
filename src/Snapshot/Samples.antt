-- ===== src/Snapshot/Samples.antt =====
-- A log that is divided behind its first event.
use esaa_event_sourcing_agen.Prelude.{String, some, [], ◌∷◌, put, padded, is_blank}
use esaa_event_sourcing_agen.Prelude.Sorting.{sort_by}
use esaa_event_sourcing_agen.Machine.{Action}
use esaa_event_sourcing_agen.Event.{Event, empty_payload}
use esaa_event_sourcing_agen.Projector.{
  Roadmap, Projection, empty_state, dispatch, apply_event, replay_from, replay, index_counts,
  issues_view, lessons_by_enforcement, lessons_view, normalize_legacy_verify_status,
  compute_projection_hash, roadmap_view, materialize,
}
use esaa_event_sourcing_agen.Store.{
  Codec, splitlines, stored_lines, find_anchor, validate_hash_chain, normalize_legacy_event,
  is_canonical, validate_runner_block, decoded, check_event, parse_lines, parse_event_store,
  written_lines,
}
use esaa_event_sourcing_agen.Examples.{stamp, event, codec_of}
use esaa_event_sourcing_agen.Snapshot.{
  Compaction, write_jsonl, archived, tail_of, last_verify_ok_seq, create_snapshot,
  verify_projection_ok, compact_event_store,
}

program : Unit {0}
unfolding put padded is_blank sort_by empty_state dispatch apply_event replay_from replay
    index_counts issues_view lessons_by_enforcement lessons_view normalize_legacy_verify_status
    compute_projection_hash roadmap_view materialize splitlines stored_lines find_anchor
    validate_hash_chain normalize_legacy_event is_canonical validate_runner_block decoded
    check_event parse_lines parse_event_store written_lines write_jsonl archived tail_of
    last_verify_ok_seq create_snapshot verify_projection_ok compact_event_store
program = tt

abbrev started : Event
started = event 1 "EV-00000001" Action.run_start empty_payload

abbrev verdict : Event
verdict = event 2 "EV-00000002" Action.verify_ok empty_payload

abbrev plain : Codec
plain = codec_of (started ∷ verdict ∷ [])

abbrev digest : Projection → String
digest p = p.project_name

abbrev roadmap : Roadmap
unfolding roadmap_view empty_state
roadmap = roadmap_view digest (record (empty_state stamp "esaa-core") { verify_status = "ok" })

abbrev compaction : Compaction
compaction = record {
  before_event_seq = 1;
  events_archived = 1;
  tail_events = 1;
  full_projection_hash_sha256 = "esaa-core";
  replay_projection_hash_sha256 = "esaa-core";
  last_verify_ok_event_seq = 2;
  files = some ("EV-00000001\n", "EV-00000002\n");
}
