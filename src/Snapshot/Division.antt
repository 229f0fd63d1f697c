-- ===== src/Snapshot/Division.antt =====
-- Dividing the log loses nothing.
use esaa_event_sourcing_agen.Prelude.{◌+◌, ◌≤◌, ◌≡◌, String, List, ◌++◌, length}
use esaa_event_sourcing_agen.Outcome.{ok}
use esaa_event_sourcing_agen.Event.{Event}
use esaa_event_sourcing_agen.Projector.{Projection}
use esaa_event_sourcing_agen.Store.{Codec, parse_event_store}
use esaa_event_sourcing_agen.Log.Accepted.{Accepted}
use esaa_event_sourcing_agen.Snapshot.{Compaction, archived, tail_of, last_verify_ok_seq}

module _ (k : Codec) (digest : Projection → String) (now : String) (text : String) where
  -- The archive with the tail behind it is the log, and the replay of both ends in the hash of the
  -- log; and the division does not lie behind the last `verify.ok`.
  pub record IsLossless (c : Compaction) : Type 0 where
    pub events : List Event
    pub stored : parse_event_store k text ≡ ok events
    pub divided : archived c.before_event_seq events ++ tail_of c.before_event_seq events ≡ events
    pub counted : c.events_archived + c.tail_events ≡ length events
    pub same_hash : c.replay_projection_hash_sha256 ≡ c.full_projection_hash_sha256
    pub is_verified : c.before_event_seq ≤ last_verify_ok_seq events
