-- ===== src/Service/ViewSamples.antt =====
-- Views that are projected, and then verified, from a small store.
use esaa_event_sourcing_agen.Prelude.{◌≡◌, refl, String, true, none, [], ◌∷◌, put, padded, is_blank}
use esaa_event_sourcing_agen.Prelude.Sorting.{sort_by}
use esaa_event_sourcing_agen.Codes.{Code}
use esaa_event_sourcing_agen.Outcome.{ok}
use esaa_event_sourcing_agen.Machine.{Action}
use esaa_event_sourcing_agen.Event.{Event, empty_payload}
use esaa_event_sourcing_agen.Projector.{
  Projection, empty_state, dispatch, apply_event, replay_from, replay, index_counts, issues_view,
  lessons_by_enforcement, lessons_view, normalize_legacy_verify_status, compute_projection_hash,
  roadmap_view, materialize,
}
use esaa_event_sourcing_agen.Store.{
  Codec, splitlines, stored_lines, find_anchor, validate_hash_chain, normalize_legacy_event,
  is_canonical, validate_runner_block, decoded, check_event, parse_lines, parse_event_store,
}
use esaa_event_sourcing_agen.Examples.{stamp, event, codec_of}
use esaa_event_sourcing_agen.Service.{
  Workspace, Projected, Verdict, Until, save_views, projected, compared, through_id,
  replayed_events, views_of, saved, project, checked, verify, replay_views,
}
use esaa_event_sourcing_agen.Service.Projecting.{project-verify}

program : Unit {0}
unfolding put padded is_blank sort_by empty_state dispatch apply_event replay_from replay
    index_counts issues_view lessons_by_enforcement lessons_view normalize_legacy_verify_status
    compute_projection_hash roadmap_view materialize splitlines stored_lines find_anchor
    validate_hash_chain normalize_legacy_event is_canonical validate_runner_block decoded
    check_event parse_lines parse_event_store save_views projected compared through_id
    replayed_events views_of saved project checked verify replay_views
program = tt

abbrev started : Event
started = event 1 "EV-00000001" Action.run_start empty_payload

abbrev verdict : Event
verdict = event 2 "EV-00000002" Action.verify_ok empty_payload

abbrev plain : Codec
plain = codec_of (started ∷ verdict ∷ [])

abbrev digest : Projection → String
digest p = p.project_name

abbrev unprojected : String → Workspace
unprojected text = record { text = text; roadmap = none; issues = none; lessons = none }

abbrev workspace : Workspace
workspace = unprojected "EV-00000001\nEV-00000002\n"

abbrev outcome : Projected
outcome = record {
  last_event_seq = 2;
  projection_hash_sha256 = "esaa-core";
  tasks = 0;
  issues = 0;
  lessons = 0;
}

succeeds : (project plain digest stamp workspace).result ≡ ok outcome
unfolding program
succeeds = refl

unknown_line :
    verify plain digest stamp (unprojected "?") ≡ ok (Verdict.corrupted Code.jsonl_invalid)
unfolding program
unknown_line = refl

-- Replaying to an earlier event leaves views behind that do not match.
replayed_back :
    verify plain digest stamp
      (replay_views plain digest stamp (Until.up_to_id "EV-00000001") true workspace).workspace
    ≡ ok (Verdict.mismatch 2 "esaa-core" 1 "esaa-core")
unfolding program
replayed_back = refl

project-verify_example :
    verify plain digest stamp (project plain digest stamp workspace).workspace
    ≡ ok (Verdict.verified 2 "esaa-core")
project-verify_example = project-verify plain digest stamp workspace outcome succeeds
