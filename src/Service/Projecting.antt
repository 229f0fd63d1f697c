-- ===== src/Service/Projecting.antt =====
-- `project` and `verify` agree.
use esaa_event_sourcing_agen.Prelude.{ℕ, ◌≡◌, refl, ap, String, true, some, arith, eq_refl, eqb}
use esaa_event_sourcing_agen.Outcome.{Outcome, ok, raise, >>=-eq-ok}
use esaa_event_sourcing_agen.Projector.{Roadmap, Projection, Materialized}
use esaa_event_sourcing_agen.Store.{Codec, parse_event_store}
use esaa_event_sourcing_agen.Service.{
  Workspace, Projected, Verdict, save_views, projected, compared, saved, project, checked, verify,
  views_of,
}

eqb_refl : (n : ℕ) → eqb n n ≡ true
eqb_refl n = ground arith

compared_self :
    (r : Roadmap)
    → compared r (some r) ≡ Verdict.verified r.state.last_event_seq r.projection_hash_sha256
unfolding compared
compared_self r = rw (eq_refl r.projection_hash_sha256, eqb_refl r.state.last_event_seq) refl

module _ (k : Codec) (digest : Projection → String) (now : String) where
  saved-verify :
      (w : Workspace) (o : Outcome Materialized) (p : Projected)
      → views_of k digest now w.text ≡ o
      → (saved k digest now w o).result ≡ ok p
      → verify k digest now (saved k digest now w o).workspace
        ≡ ok (Verdict.verified p.last_event_seq p.projection_hash_sha256)
  unfolding saved verify views_of save_views projected checked
  saved-verify w (raise f) p e h = absurd (cc)
  saved-verify w (ok m) p e h =
      let (events, q, r) = >>=-eq-ok (parse_event_store k w.text) _ e in
      rw (q, r, compared_self m.roadmap)
        (ap
          (λ o. elim o [
            | ok x ↦ ok (Verdict.verified x.last_event_seq x.projection_hash_sha256)
            | raise f ↦ raise f
          ])
          h)

  -- After a `project` that succeeds, `verify` finds the views up to date, with the numbers that
  -- `project` gave.
  pub project-verify :
      (w : Workspace) (p : Projected)
      → (project k digest now w).result ≡ ok p
      → verify k digest now (project k digest now w).workspace
        ≡ ok (Verdict.verified p.last_event_seq p.projection_hash_sha256)
  unfolding project
  project-verify w p h = saved-verify w (views_of k digest now w.text) p refl h
