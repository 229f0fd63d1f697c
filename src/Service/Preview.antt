-- ===== src/Service/Preview.antt =====
-- A dry run of `_commit_orchestrator_events` against the commit itself.
use esaa_event_sourcing_agen.Prelude.{
  ℕ, ◌≡◌, refl, ap, String, true, false, Option, some, List, arith,
}
use esaa_event_sourcing_agen.Outcome.{Outcome, ok, raise, >>=-eq-ok}
use esaa_event_sourcing_agen.Event.{Runner, Event}
use esaa_event_sourcing_agen.Projector.{Projection}
use esaa_event_sourcing_agen.Store.{Codec}
use esaa_event_sourcing_agen.Service.{
  Accepted, Sealed, sealed, finish, report, append_events_transactionally,
  commit_orchestrator_events,
}

-- What a dry run has in place of the result of a commit: its status, and the number of events, the
-- sequence number and the hash of this result once more as what they would be.
abbrev pub as_preview : Accepted → Accepted
as_preview r = record r {
  status = "dry_run";
  would_append_events = some r.events_appended;
  simulated_last_event_seq = some r.last_event_seq;
  simulated_projection_hash_sha256 = some r.projection_hash_sha256;
}

module _ (k : Codec) (digest : Projection → String) (now : String) (runner : Option Runner)
    (others : ℕ → String → String) (max_retries : ℕ) where
  finish-preview :
      (text : String) (o : Outcome Sealed) (r : Accepted)
      → (finish k digest now runner others max_retries false text o).result ≡ ok r
      → (finish k digest now runner others max_retries true text o).result ≡ ok (as_preview r)
  unfolding finish report
  finish-preview text (raise f) r h = ground (arith, h)
  finish-preview text (ok s) r h =
      let (x, p, q) =
        >>=-eq-ok
          (append_events_transactionally k digest now others s.new_events max_retries s.base
            text).written.result
          _ h in
      ap (λ o. elim o [ ok y ↦ ok (as_preview y) | raise f ↦ raise f ]) q

  finish-text :
      (text : String) (o : Outcome Sealed)
      → (finish k digest now runner others max_retries true text o).text ≡ text
  unfolding finish
  finish-text text (raise f) = refl
  finish-text text (ok s) = refl

  -- If a commit of the candidates succeeds, then a dry run leaves the store alone and has the same
  -- result, but for the status `dry_run` and the three keys that repeat the number of the events, the
  -- last sequence number and the projection hash of this result.
  pub commit_orchestrator_events-preview :
      (candidates : List Event) (text : String) (r : Accepted)
      → (commit_orchestrator_events k digest now runner others max_retries candidates false
          text).result
        ≡ ok r
      → ((commit_orchestrator_events k digest now runner others max_retries candidates true
            text).text
          ≡ text)
        × ((commit_orchestrator_events k digest now runner others max_retries candidates true
              text).result
            ≡ ok (as_preview r))
  unfolding commit_orchestrator_events
  commit_orchestrator_events-preview candidates text r h = (
    finish-text text (sealed k digest now runner candidates text),
    finish-preview text (sealed k digest now runner candidates text) r h,
  )
