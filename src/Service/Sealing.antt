-- ===== src/Service/Sealing.antt =====
-- What the sealing events do to the views.
use esaa_event_sourcing_agen.Prelude.{
  ◌≡◌, refl, sym, ap, subst, ◌∙◌, ◌⊎◌, inl, inr, String, false, eq_iff, Option, some, List, [], ◌∷◌,
  ◌++◌, arith, Bool-cases,
}
use esaa_event_sourcing_agen.Outcome.{ok, raise, >>=-eq-ok}
use esaa_event_sourcing_agen.Machine.{Action}
use esaa_event_sourcing_agen.Event.{Runner, Event, make_event}
use esaa_event_sourcing_agen.Projector.{
  State, Roadmap, Projection, Materialized, dispatch, apply_event, compute_projection_hash,
  roadmap_view, normalize_legacy_verify_status, materialize,
}
use esaa_event_sourcing_agen.Scheduling.{all_tasks_done}
use esaa_event_sourcing_agen.Replay.Last.{last_of_parts}
use esaa_event_sourcing_agen.Service.{run_end, verify_start, verify_ok, is_complete, end_run, seal}

-- All tasks are done only in a run that succeeded.
abbrev pub HasEnded : Roadmap → Type 0
HasEnded r = (all_tasks_done r.state.tasks ≡ false) ⊎ (r.state.run_status ≡ "success")

module _ (digest : Projection → String) (now : String) (runner : Option Runner)
    (events : List Event) where
  -- Of the log that was read with the planned events behind it: the last planned event records its
  -- projection hash, itself included; its views say that it is verified, they show the tasks that
  -- the candidates led to, and the run has ended if all of them are done.
  pub record IsSealed (new finished : List Event) (final : Materialized) : Type 0 where
    pub views : Materialized
    pub earlier : List Event
    pub last : Event
    pub of_candidates : materialize digest now (events ++ new) ≡ ok views
    pub of_log : materialize digest now (events ++ finished) ≡ ok final
    pub whole : finished ≡ earlier ++ last ∷ []
    pub is_verdict : last.action ≡ Action.verify_ok
    pub recorded : last.payload.projection_hash_sha256 ≡ some final.roadmap.projection_hash_sha256
    pub verified : final.roadmap.state.verify_status ≡ "ok"
    pub same_tasks : final.roadmap.state.tasks ≡ views.roadmap.state.tasks
    pub ended : HasEnded final.roadmap

  module _ (s s' : State) (new : List Event) where
    run_end-step :
        apply_event s (run_end digest now runner events new) ≡ ok s'
        → (s'.tasks ≡ s.tasks) × (s'.run_status ≡ "success")
    unfolding apply_event dispatch run_end make_event
    run_end-step h = ground arith

    verify_start-step :
        apply_event s (verify_start digest now runner events new) ≡ ok s'
        → (s'.tasks ≡ s.tasks) × (s'.run_status ≡ s.run_status)
    unfolding apply_event dispatch verify_start make_event
    verify_start-step h = ground arith

    verify_ok-step :
        (views : Materialized)
        → apply_event s (verify_ok digest now runner events new views) ≡ ok s'
        → (s'.tasks ≡ s.tasks)
          × (s'.run_status ≡ s.run_status)
          × (s'.verify_status ≡ "ok")
          × (compute_projection_hash digest s' ≡ compute_projection_hash digest s)
    unfolding apply_event dispatch verify_ok make_event compute_projection_hash
    verify_ok-step views h =
        let p = ap (λ o. elim o [ ok x ↦ x | raise f ↦ s ]) h in
        subst
          (λ (x : State).
            (x.tasks ≡ s.tasks)
            × (x.run_status ≡ s.run_status)
            × (x.verify_status ≡ "ok")
            × (compute_projection_hash digest x ≡ compute_projection_hash digest s))
          p (refl, refl, refl, refl)

  -- the views of the log with an ended run, if it is due
  pub end_run-HasEnded :
      (new ended : List Event) (views : Materialized)
      → materialize digest now (events ++ new) ≡ ok views
      → end_run digest now runner events new views ≡ ok ended
      → (m : Materialized) × (materialize digest now (events ++ ended) ≡ ok m)
        × (m.roadmap.state.tasks ≡ views.roadmap.state.tasks)
        × HasEnded m.roadmap
  unfolding end_run is_complete roadmap_view
  end_run-HasEnded new ended views v h =
      elim (Bool-cases (is_complete digest now runner events views)) [
        | inl c ↦
            let (m, p, q) =
              >>=-eq-ok
                (materialize digest now
                  (events ++ (new ++ run_end digest now runner events new ∷ [])))
                _ (rw c at h) in
            let same : new ++ run_end digest now runner events new ∷ [] ≡ ended =
              ap (λ o. elim o [ ok x ↦ x | raise f ↦ ended ]) q in
            let (s, s', a, b, e) =
              last_of_parts digest now events new (run_end digest now runner events new) views m v
                p in
            let (tasks, status) = run_end-step s s' new a in
            (
              m,
              subst (λ x. materialize digest now (events ++ x) ≡ ok m) same p,
              rw (b, e) tasks,
              inr (rw e status),
            )
        | inr c ↦
            let same : new ≡ ended = ap (λ o. elim o [ ok x ↦ x | raise f ↦ ended ]) (rw c at h) in
            (
              views,
              subst (λ x. materialize digest now (events ++ x) ≡ ok views) same v,
              refl,
              incomplete views c,
            )
      ]
    where
      incomplete :
          (m : Materialized) → is_complete digest now runner events m ≡ false → HasEnded m.roadmap
      incomplete m c = elim (Bool-cases (all_tasks_done m.roadmap.state.tasks)) [
        | inr e ↦ inl e
        | inl e ↦ inr (ground (arith, eq_iff m.roadmap.state.run_status "success"))
      ]

  started_views :
      (ended : List Event) (m before : Materialized)
      → materialize digest now (events ++ ended) ≡ ok m
      → materialize digest now
          (events ++ (ended ++ verify_start digest now runner events ended ∷ []))
        ≡ ok before
      → (before.roadmap.state.tasks ≡ m.roadmap.state.tasks)
        × (before.roadmap.state.run_status ≡ m.roadmap.state.run_status)
  unfolding roadmap_view
  started_views ended m before p b =
      let (s, s', step, shown, shown') =
        last_of_parts digest now events ended (verify_start digest now runner events ended) m before
          p b in
      let (t, r) = verify_start-step s s' ended step in
      (
        ap (λ (x : Roadmap). x.state.tasks) shown'
            ∙ t
            ∙ sym (ap (λ (x : Roadmap). x.state.tasks) shown),
        ap (λ (x : Roadmap). x.state.run_status) shown'
            ∙ r
            ∙ sym (ap (λ (x : Roadmap). x.state.run_status) shown),
      )

  verified_views :
      (started : List Event) (before after : Materialized)
      → materialize digest now (events ++ started) ≡ ok before
      → materialize digest now
          (events ++ (started ++ verify_ok digest now runner events started before ∷ []))
        ≡ ok after
      → (after.roadmap.state.tasks ≡ before.roadmap.state.tasks)
        × (after.roadmap.state.run_status ≡ before.roadmap.state.run_status)
        × (after.roadmap.state.verify_status ≡ "ok")
        × (before.roadmap.projection_hash_sha256 ≡ after.roadmap.projection_hash_sha256)
  unfolding roadmap_view normalize_legacy_verify_status
  verified_views started before after b f =
      let (s, s', step, shown, shown') =
        last_of_parts digest now events started (verify_ok digest now runner events started before)
          before after b f in
      let (t, r, v, d) = verify_ok-step s s' started before step in
      (
        ap (λ (x : Roadmap). x.state.tasks) shown'
            ∙ t
            ∙ sym (ap (λ (x : Roadmap). x.state.tasks) shown),
        ap (λ (x : Roadmap). x.state.run_status) shown'
            ∙ r
            ∙ sym (ap (λ (x : Roadmap). x.state.run_status) shown),
        ap (λ (x : Roadmap). x.state.verify_status) shown' ∙ ap normalize_legacy_verify_status v,
        ap (λ (x : Roadmap). x.projection_hash_sha256) shown
            ∙ sym d
            ∙ sym (ap (λ (x : Roadmap). x.projection_hash_sha256) shown'),
      )

  -- behind an ended log: the verdict
  pub closed-IsSealed :
      (new ended : List Event) (views m after : Materialized)
      → materialize digest now (events ++ new) ≡ ok views
      → materialize digest now (events ++ ended) ≡ ok m
      → m.roadmap.state.tasks ≡ views.roadmap.state.tasks
      → HasEnded m.roadmap
      → materialize digest now
          (events ++ (ended ++ verify_ok digest now runner events ended m ∷ []))
        ≡ ok after
      → IsSealed new (ended ++ verify_ok digest now runner events ended m ∷ []) after
  unfolding verify_ok make_event
  closed-IsSealed new ended views m after v p tasks done f =
      let (t, r, o, d) = verified_views ended m after p f in
      record {
        views = views;
        earlier = ended;
        last = verify_ok digest now runner events ended m;
        of_candidates = v;
        of_log = f;
        whole = refl;
        is_verdict = refl;
        recorded = ap some d;
        verified = o;
        same_tasks = t ∙ tasks;
        ended = rw (t, r) done;
      }

  -- If the new events can be sealed behind the events that were read, then the list that `seal` plans
  -- is as `IsSealed` says: its last event is a verify.ok with the projection hash of the events and
  -- the planned ones, whose views have the verify status ok and the tasks that the new events led to;
  -- and if all of these are done, the run status is success.
  pub seal-IsSealed :
      (new finished : List Event) (final : Materialized)
      → seal digest now runner events new ≡ ok (finished, final)
      → IsSealed new finished final
  unfolding seal
  seal-IsSealed new finished final h =
      let (views, v, h1) = >>=-eq-ok (materialize digest now (events ++ new)) _ h in
      let (ended, w, h2) = >>=-eq-ok (end_run digest now runner events new views) _ h1 in
      let (before, b, h3) =
        >>=-eq-ok
          (materialize digest now
            (events ++ (ended ++ verify_start digest now runner events ended ∷ [])))
          _ h2 in
      let (after, f, h4) = >>=-eq-ok (materialize digest now _) _ h3 in
      let (m, p, tasks, done) = end_run-HasEnded new ended views v w in
      let (t, r) = started_views ended m before p b in
      subst (λ x. IsSealed new x.0 x.1)
        (ap (λ o. elim o [ ok x ↦ x | raise e ↦ (finished, final) ]) h4)
        (closed-IsSealed new _ views before after v b (t ∙ tasks) (rw (t, r) done) f)
