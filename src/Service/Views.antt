-- ===== src/Service/Views.antt =====
-- `project`, `verify` and `replay` of src/esaa/service_core.py. A workspace is the text of the store
-- and the views that are saved beside it; a saved view reads back as it was.
use esaa_event_sourcing_agen.Prelude.{
  ℕ, String, Bool, ◌&&◌, ◌==◌, eqb, leb, Option, none, some, List, [], ◌∷◌, if◌then◌else◌, select,
  length,
}
use esaa_event_sourcing_agen.Codes.{Code}
use esaa_event_sourcing_agen.Outcome.{Outcome, ok, raise, esaa_error, ◌>>=◌}
use esaa_event_sourcing_agen.Event.{Event}
use esaa_event_sourcing_agen.Projector.{
  Roadmap, IssuesView, LessonsView, Projection, Materialized, materialize,
}
use esaa_event_sourcing_agen.Store.{Codec, parse_event_store}

pub record Workspace : Type 0 where
  pub text : String
  pub roadmap : Option Roadmap
  pub issues : Option IssuesView
  pub lessons : Option LessonsView

pub record Saved {ℓ} (A : Type ℓ) : Type ℓ where
  pub workspace : Workspace
  pub result : Outcome A

unfoldable pub save_views : Workspace → Materialized → Workspace
save_views w m = record w {
  roadmap = some m.roadmap;
  issues = some m.issues;
  lessons = some m.lessons;
}

pub record Projected : Type 0 where
  pub last_event_seq : ℕ
  pub projection_hash_sha256 : String
  pub tasks : ℕ
  pub issues : ℕ
  pub lessons : ℕ

unfoldable pub projected : Materialized → Projected
projected m = record {
  last_event_seq = m.roadmap.state.last_event_seq;
  projection_hash_sha256 = m.roadmap.projection_hash_sha256;
  tasks = length m.roadmap.state.tasks;
  issues = length m.issues.issues;
  lessons = length m.lessons.lessons;
}

-- what `verify` reports
pub data Verdict : Type 0 where
  corrupted : Code → Verdict
  roadmap_missing : ℕ → String → Verdict
  verified : ℕ → String → Verdict
  mismatch : (computed_seq : ℕ) → String → (stored_seq : ℕ) → String → Verdict

-- the comparison with the stored roadmap
unfoldable pub compared : Roadmap → Option Roadmap → Verdict
compared r none = roadmap_missing r.state.last_event_seq r.projection_hash_sha256
compared r (some stored) =
    let seq = r.state.last_event_seq in
    let hash = r.projection_hash_sha256 in
    if hash == stored.projection_hash_sha256 && eqb seq stored.state.last_event_seq
    then verified seq hash
    else mismatch seq hash stored.state.last_event_seq stored.projection_hash_sha256

-- `until`: all events, those up to a number, or those up to an id
pub data Until : Type 0 where
  whole_log : Until
  up_to_seq : ℕ → Until
  up_to_id : String → Until

-- the loop that stops behind the event with this id
unfoldable pub through_id : String → List Event → List Event
through_id until [] = []
through_id until (e ∷ es) =
    let rest = through_id until es in if e.event_id == until then e ∷ [] else e ∷ rest

unfoldable pub replayed_events : Until → List Event → List Event
replayed_events whole_log events = events
replayed_events (up_to_seq seq_limit) events = select (λ e. leb e.event_seq seq_limit) events
replayed_events (up_to_id until) events = through_id until events

pub record Replayed : Type 0 where
  pub events_replayed : ℕ
  pub last_event_seq : ℕ
  pub projection_hash_sha256 : String

module _ (k : Codec) (digest : Projection → String) (now : String) where
  unfoldable pub views_of : String → Outcome Materialized
  views_of text = do events ← parse_event_store k text; materialize digest now events

  -- the views are saved once they are known
  unfoldable pub saved : Workspace → Outcome Materialized → Saved Projected
  saved w (raise f) = record { workspace = w; result = raise f }
  saved w (ok m) = record { workspace = save_views w m; result = ok (projected m) }

  unfoldable pub project : Workspace → Saved Projected
  unfolding views_of
  project w = saved w (views_of w.text)

  -- A store that does not parse is corrupted; what `materialize` raises is not caught.
  unfoldable pub checked : Option Roadmap → Outcome (List Event) → Outcome Verdict
  checked stored (raise (esaa_error c)) = ok (corrupted c)
  checked stored (raise f) = raise f
  checked stored (ok events) = do m ← materialize digest now events; ok (compared m.roadmap stored)

  unfoldable pub verify : Workspace → Outcome Verdict
  verify w = checked w.roadmap (parse_event_store k w.text)

  replay_saved : Bool → Workspace → List Event → Outcome Materialized → Saved Replayed
  replay_saved write_views w selected (raise f) = record { workspace = w; result = raise f }
  replay_saved write_views w selected (ok m) = record {
    workspace = if write_views then save_views w m else w;
    result = ok (record {
      events_replayed = length selected;
      last_event_seq = m.roadmap.state.last_event_seq;
      projection_hash_sha256 = m.roadmap.projection_hash_sha256;
    });
  }

  replay_parsed : Until → Bool → Workspace → Outcome (List Event) → Saved Replayed
  unfolding replay_saved
  replay_parsed until write_views w (raise f) = record { workspace = w; result = raise f }
  replay_parsed until write_views w (ok events) =
      let selected = replayed_events until events in
      replay_saved write_views w selected (materialize digest now selected)

  unfoldable pub replay_views : Until → Bool → Workspace → Saved Replayed
  unfolding replay_parsed
  replay_views until write_views w = replay_parsed until write_views w (parse_event_store k w.text)
