-- ===== src/Submission/Closing.antt =====
-- The events that close a submission seal it.
use esaa_event_sourcing_agen.Prelude.{◌≡◌, sym, ap, subst, ◌∙◌, List, [], ◌∷◌, ◌++◌}
use esaa_event_sourcing_agen.Outcome.{ok, raise, >>=-eq-ok}
use esaa_event_sourcing_agen.Event.{Event}
use esaa_event_sourcing_agen.Projector.{Materialized, materialize}
use esaa_event_sourcing_agen.Service.{verify_start, end_run, verify_ok}
use esaa_event_sourcing_agen.Service.Sealing.{IsSealed, HasEnded, end_run-HasEnded, closed-IsSealed}
use esaa_event_sourcing_agen.Submission.{Setting, seal_started}

module _ (s : Setting) where
  closing_events :
      (events started ended finished : List Event) (views before after final : Materialized)
      → materialize s.digest s.now (events ++ started) ≡ ok views
      → end_run s.digest s.now s.runner events started views ≡ ok ended
      → materialize s.digest s.now (events ++ ended) ≡ ok before
      → materialize s.digest s.now
          (events ++ (ended ++ verify_ok s.digest s.now s.runner events ended before ∷ []))
        ≡ ok after
      → (ended ++ verify_ok s.digest s.now s.runner events ended before ∷ [] ≡ finished)
        × (after ≡ final)
      → IsSealed s.digest s.now s.runner events started finished final
  closing_events events started ended finished views before after final v w b f (p, q) =
      let (m, e, tasks, done) =
        end_run-HasEnded s.digest s.now s.runner events started ended views v w in
      let same : m ≡ before = ap (λ o. elim o [ ok x ↦ x | raise e' ↦ m ]) (sym e ∙ b) in
      subst (λ x. IsSealed s.digest s.now s.runner events started x final) p
        (subst (IsSealed s.digest s.now s.runner events started _) q (
          closed-IsSealed s.digest s.now s.runner events started ended views before after v b
            (subst (λ (x : Materialized). x.roadmap.state.tasks ≡ views.roadmap.state.tasks) same
              tasks)
            (subst (λ (x : Materialized). HasEnded x.roadmap) same done) f))

  -- the new events with the start of the verification behind them
  pub started_with : List Event → List Event → List Event
  started_with events new = new ++ verify_start s.digest s.now s.runner events new ∷ []

  pub seal_started-IsSealed :
      (events new finished : List Event) (final : Materialized)
      → seal_started s events new ≡ ok (finished, final)
      → IsSealed s.digest s.now s.runner events (started_with events new) finished final
  unfolding seal_started started_with
  seal_started-IsSealed events new finished final h =
      let (views, v, h1) =
        >>=-eq-ok (materialize s.digest s.now (events ++ started_with events new)) _ h in
      let (ended, w, h2) =
        >>=-eq-ok (end_run s.digest s.now s.runner events (started_with events new) views) _ h1 in
      let (before, b, h3) = >>=-eq-ok (materialize s.digest s.now (events ++ ended)) _ h2 in
      let (after, f, h4) = >>=-eq-ok (materialize s.digest s.now _) _ h3 in
      closing_events events (started_with events new) ended finished views before after final v w b
        f
        (
          ap (λ o. elim o [ ok x ↦ x.0 | raise e ↦ finished ]) h4,
          ap (λ o. elim o [ ok x ↦ x.1 | raise e ↦ final ]) h4,
        )
