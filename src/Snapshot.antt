-- ===== src/Snapshot.antt =====
-- src/esaa/snapshot.py: snapshots of the log and its division into an archive and a tail. Reading
-- the two files back is not modelled, nor is the hash of a snapshot and of a manifest.
use esaa_event_sourcing_agen.Prelude.{
  ℕ, String, Bool, true, false, not, ◌&&◌, ◌==◌, Option, none, some, List, [], ◌∷◌, ◌++◌, map,
  if◌then◌else◌, select, leb, ltb, length,
}
use esaa_event_sourcing_agen.Codes.{Code}
use esaa_event_sourcing_agen.Outcome.{Outcome, ok, raise, esaa_error, ◌>>=◌, ◌>>◌, guard}
use esaa_event_sourcing_agen.Machine.{Action}
use esaa_event_sourcing_agen.Event.{Event}
use esaa_event_sourcing_agen.Projector.{Roadmap, Projection, Materialized, materialize}
use esaa_event_sourcing_agen.Store.{Codec, parse_event_store, written_lines}
pub mod Division
mod Samples

pub record Snapshot : Type 0 where
  pub before_event_seq : ℕ
  pub events_included : ℕ
  pub compact_artifact : Bool
  pub views : Materialized
  pub archive : Option String  -- the text of `seq-*.events.jsonl`, if it is written

-- The file's text: one line for each event.
unfoldable pub write_jsonl : Codec → List Event → String
write_jsonl k events = written_lines (map k.dumps events)

unfoldable pub archived : ℕ → List Event → List Event
archived before events = select (λ e. leb e.event_seq before) events

unfoldable pub tail_of : ℕ → List Event → List Event
tail_of before events = select (λ e. ltb before e.event_seq) events

abbrev is_verify_ok : Action → Bool
is_verify_ok Action.verify_ok = true
is_verify_ok _ = false

-- `max` of the numbers of the `verify.ok` events, 0 without any
unfoldable pub last_verify_ok_seq : List Event → ℕ
last_verify_ok_seq [] = 0
last_verify_ok_seq (e ∷ es) =
    let rest = last_verify_ok_seq es in
    if is_verify_ok e.action && ltb rest e.event_seq then e.event_seq else rest

pub record Compaction : Type 0 where
  pub before_event_seq : ℕ
  pub events_archived : ℕ
  pub tail_events : ℕ
  pub full_projection_hash_sha256 : String
  pub replay_projection_hash_sha256 : String
  pub last_verify_ok_event_seq : ℕ
  pub files : Option (String × String)  -- the texts of archive and tail, if they are written

module _ (k : Codec) (digest : Projection → String) (now : String) where
  unfoldable pub create_snapshot : ℕ → Bool → Bool → String → Outcome Snapshot
  create_snapshot before compact dry_run text = do
    events ← parse_event_store k text
    views ← materialize digest now (archived before events)
    ok (record {
      before_event_seq = before;
      events_included = length (archived before events);
      compact_artifact = compact;
      views = views;
      archive =
          if compact && not dry_run then some (write_jsonl k (archived before events)) else none;
    })

  -- `_verify_projection_ok`, with the stored roadmap
  unfoldable pub verify_projection_ok : Option Roadmap → List Event → Outcome String
  verify_projection_ok none events = raise (esaa_error Code.verify_not_ok)
  verify_projection_ok (some stored) events = do
    guard (stored.state.verify_status == "ok") Code.verify_not_ok
    projected ← materialize digest now events
    guard (stored.projection_hash_sha256 == projected.roadmap.projection_hash_sha256)
        Code.verify_not_ok
    ok projected.roadmap.projection_hash_sha256

  unfoldable pub compact_event_store : Option Roadmap → ℕ → Bool → String → Outcome Compaction
  compact_event_store stored before dry_run text = do
    events ← parse_event_store k text
    full ← verify_projection_ok stored events
    guard (not (ltb (last_verify_ok_seq events) before)) Code.snapshot_before_unverified
    snapshot ← create_snapshot before false dry_run text
    replayed ← materialize digest now (archived before events ++ tail_of before events)
    ok (record {
      before_event_seq = before;
      events_archived = length (archived before events);
      tail_events = length (tail_of before events);
      full_projection_hash_sha256 = full;
      replay_projection_hash_sha256 = replayed.roadmap.projection_hash_sha256;
      last_verify_ok_event_seq = last_verify_ok_seq events;
      files =
          if dry_run
          then none
          else some (write_jsonl k (archived before events), write_jsonl k (tail_of before events));
    })
