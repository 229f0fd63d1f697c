-- ===== src/Submission/Acceptance.antt =====
-- What a submission that is accepted went through.
use esaa_event_sourcing_agen.Prelude.{
  ◌≡◌, ◌≢◌, refl, ap, subst, String, Bool, true, false, List, [], ◌∷◌, ◌++◌, inl, inr, ◌⊎◌, length,
}
use esaa_event_sourcing_agen.Outcome.{Outcome, ok, raise, Outcome-cases}
use esaa_event_sourcing_agen.Event.{Event}
use esaa_event_sourcing_agen.Projector.{Task, Materialized}
use esaa_event_sourcing_agen.Service.{append_events_transactionally}
use esaa_event_sourcing_agen.Service.Stored.{IsStored, append_events_transactionally-IsStored}
use esaa_event_sourcing_agen.Service.Sealing.{IsSealed}
use esaa_event_sourcing_agen.Validation.{FileUpdate, AgentOutput}
use esaa_event_sourcing_agen.Effects.{Metadata, commit_staged, discard_staged}
use esaa_event_sourcing_agen.Submission.{
  Setting, Site, Prepared, Stage, moved, SubmitResult, prepare, stage_phase, candidates,
  seal_started, submit_result, appended, with_sealed, with_candidates, with_prepared, submit,
}
use esaa_event_sourcing_agen.Submission.Checks.{IsFound, IsChecked, prepare-parts}
use esaa_event_sourcing_agen.Submission.Closing.{started_with, seal_started-IsSealed}

module _ (s : Setting) where
  module _ (actor : String) (p : Prepared) (st : Stage) where
    moved-result :
        (text : String) (r0 r : SubmitResult) → (moved s actor p st text r0).result ≡ ok r → r0 ≡ r
    unfolding moved
    moved-result text r0 r h =
        elim (Outcome-cases (commit_staged s.root st.staged st.disk).result) [
          | inl (f, e) ↦ absurd (cc (rw (e, moved) at h))
          | inr (u, e) ↦ ap (λ o. elim o [ ok x ↦ x | raise f ↦ r0 ]) (rw (e, moved) at h)
        ]

    appended-result :
        (text : String) (finished : List Event) (r0 r : SubmitResult)
        → (appended s actor p st text finished r0).result ≡ ok r
        → r0 ≡ r
    unfolding appended
    appended-result text finished r0 r h =
        let tried =
          append_events_transactionally s.store s.digest s.now s.others finished s.submit_retries
            p.base text in
        elim (Outcome-cases tried.written.result) [
          | inl (f, e) ↦ absurd (cc (rw (e, appended) at h))
          | inr (u, e) ↦ moved-result tried.written.text r0 r (rw (e, appended) at h)
        ]

    sealed-result :
        (dry_run : Bool) (text : String) (finished : List Event) (final : Materialized)
        (r : SubmitResult)
        → (with_sealed s actor p st dry_run text (ok (finished, final))).result ≡ ok r
        → submit_result dry_run actor p st.effects finished final ≡ r
    unfolding with_sealed
    sealed-result true text finished final r h =
        ap
          (λ o. elim o [
            | ok x ↦ x
            | raise f ↦ submit_result true actor p st.effects finished final
          ])
          h
    sealed-result false text finished final r h =
        appended-result text finished (submit_result false actor p st.effects finished final) r h

  module _ (actor : String) (p : Prepared) (st : Stage) where
    moved-text : (text : String) (r0 : SubmitResult) → (moved s actor p st text r0).site.text ≡ text
    unfolding moved
    moved-text text r0 = elim (Outcome-cases (commit_staged s.root st.staged st.disk).result) [
      | inl (f, e) ↦ rw (e, moved) refl
      | inr (u, e) ↦ rw (e, moved) refl
    ]

    appended-Stored :
        (text : String) (finished : List Event) (r0 r : SubmitResult)
        → finished ≢ []
        → (appended s actor p st text finished r0).result ≡ ok r
        → IsStored s.store s.digest s.now s.others finished p.base text
            (appended s actor p st text finished r0).site.text
    unfolding appended
    appended-Stored text finished r0 r n h =
        let tried =
          append_events_transactionally s.store s.digest s.now s.others finished s.submit_retries
            p.base text in
        elim (Outcome-cases tried.written.result) [
          | inl (f, e) ↦ absurd (cc (rw (e, appended) at h))
          | inr (receipt, e) ↦
              rw (e, appended, moved-text tried.written.text r0)
                (append_events_transactionally-IsStored s.store s.digest s.now s.others finished
                  s.submit_retries p.base text receipt n e)
        ]

  -- A dry run leaves the site as it is; else the events are stored.
  abbrev pub SiteAfter : Bool → List Event → List Event → Site → Site → Type 0
  SiteAfter dry_run base finished site site' =
      ((dry_run ≡ true) × (site' ≡ site))
      ⊎ ((dry_run ≡ false)
          × IsStored s.store s.digest s.now s.others finished base site.text site'.text)

  -- What is behind an accepted output: its task, the checks, the events planned behind the log that
  -- was read, which seal it and which the result is read off, and what becomes of the store.
  pub record IsAccepted (output : AgentOutput) (dry_run : Bool) (site site' : Site)
      (r : SubmitResult) : Type 0 where
    pub base : List Event
    pub task : Task
    pub normal : List FileUpdate
    pub new : List Event
    pub finished : List Event
    pub final : Materialized
    pub found : IsFound s output site.text base task
    pub checked : IsChecked s output task site.disk normal
    pub sealed : IsSealed s.digest s.now s.runner base (started_with s base new) finished final
    pub effect : SiteAfter dry_run base finished site site'
    pub for_task : r.task_id ≡ task.task_id
    pub counted : r.events_appended ≡ length finished
    pub same_hash : r.projection_hash_sha256 ≡ final.roadmap.projection_hash_sha256
    pub verified : r.verify_status ≡ "ok"

  IsAccepted-from :
      (output : AgentOutput) (actor : String) (dry_run : Bool) (site site' : Site) (p : Prepared)
      (effects : List Metadata) (new finished : List Event) (final : Materialized)
      (r : SubmitResult)
      → prepare s output actor site ≡ ok p
      → seal_started s p.base new ≡ ok (finished, final)
      → submit_result dry_run actor p effects finished final ≡ r
      → SiteAfter dry_run p.base finished site site'
      → IsAccepted output dry_run site site' r
  unfolding submit_result
  IsAccepted-from output actor dry_run site site' p effects new finished final r h e q done =
      let (f, (normal, c)) = prepare-parts s output actor site p h in
      let w = seal_started-IsSealed s p.base new finished final e in
      subst (IsAccepted output dry_run site site') q (record {
        base = p.base;
        task = p.task;
        normal = normal;
        new = new;
        finished = finished;
        final = final;
        found = f;
        checked = c;
        sealed = w;
        effect = done;
        for_task = refl;
        counted = refl;
        same_hash = refl;
        verified = w.verified;
      })

  dry_site :
      (actor : String) (site : Site) (o : Outcome Prepared)
      → (with_prepared s actor true site o).site ≡ site
  unfolding with_prepared with_candidates with_sealed stage_phase discard_staged
  dry_site actor site (raise f) = refl
  dry_site actor site (ok p) =
      elim (Outcome-cases
        (candidates s p.base p (stage_phase s true p.updates site.disk).effects)) [
          | inl (f, e) ↦ rw (e, with_candidates) refl
          | inr (new, e) ↦ elim (Outcome-cases (seal_started s p.base new)) [
            | inl (f, q) ↦ rw (e, with_candidates, q, with_sealed) refl
            | inr ((finished, final), q) ↦ rw (e, with_candidates, q, with_sealed) refl
          ]
        ]

  some_planned :
      (base new finished : List Event) (final : Materialized)
      → IsSealed s.digest s.now s.runner base new finished final
      → finished ≢ []
  some_planned base new finished final w = by_earlier w.earlier w.whole
    where
      by_earlier : (es : List Event) → finished ≡ es ++ w.last ∷ [] → finished ≢ []
      by_earlier [] p = λ q. cc
      by_earlier (e ∷ es) p = λ q. cc

  site_effect :
      (output : AgentOutput) (actor : String) (dry_run : Bool) (site : Site) (p : Prepared)
      (new finished : List Event) (final : Materialized) (r : SubmitResult)
      → prepare s output actor site ≡ ok p
      → candidates s p.base p (stage_phase s dry_run p.updates site.disk).effects ≡ ok new
      → seal_started s p.base new ≡ ok (finished, final)
      → (with_prepared s actor dry_run site (prepare s output actor site)).result ≡ ok r
      → SiteAfter dry_run p.base finished site
          (with_prepared s actor dry_run site (prepare s output actor site)).site
  unfolding with_prepared with_candidates with_sealed
  site_effect output actor true site p new finished final r e e' q h =
      inl (refl, dry_site actor site (prepare s output actor site))
  site_effect output actor false site p new finished final r e e' q h =
      let st = stage_phase s false p.updates site.disk in
      let n =
        some_planned p.base (started_with s p.base new) finished final
          (seal_started-IsSealed s p.base new finished final q) in
      inr (
        refl,
        rw (e, with_prepared, e', with_candidates, q)
            (appended-Stored actor p st site.text finished
              (submit_result false actor p st.effects finished final) r n
              (rw (e, with_prepared, e', with_candidates, q) at h)),
      )

  with_prepared-IsAccepted :
      (output : AgentOutput) (actor : String) (dry_run : Bool) (site : Site) (r : SubmitResult)
      → (with_prepared s actor dry_run site (prepare s output actor site)).result ≡ ok r
      → IsAccepted output dry_run site
          (with_prepared s actor dry_run site (prepare s output actor site)).site
          r
  unfolding with_prepared with_candidates with_sealed
  with_prepared-IsAccepted output actor dry_run site r h =
      elim (Outcome-cases (prepare s output actor site)) [
        | inl (f, e) ↦ absurd (cc (rw (e, with_prepared) at h))
        | inr (p, e) ↦
            let st = stage_phase s dry_run p.updates site.disk in
            elim (Outcome-cases (candidates s p.base p st.effects)) [
              | inl (f, e') ↦ absurd (cc (rw (e, with_prepared, e', with_candidates) at h))
              | inr (new, e') ↦ elim (Outcome-cases (seal_started s p.base new)) [
                | inl (f, q) ↦
                    absurd (cc (rw (e, with_prepared, e', with_candidates, q, with_sealed) at h))
                | inr ((finished, final), q) ↦
                    IsAccepted-from output actor dry_run site
                      (with_prepared s actor dry_run site (prepare s output actor site)).site p
                      st.effects new finished final r e q
                      (sealed-result actor p st dry_run site.text finished final r
                        (rw (e, with_prepared, e', with_candidates, q) at h))
                      (site_effect output actor dry_run site p new finished final r e e' q h)
              ]
            ]
      ]

  -- If `submit` accepts an output, or a dry run of it does, then the output is about a task of the
  -- stored log that is not blocked, it is admitted for this task, and its updates are granted and
  -- within the limits. The events that it plans behind this log are sealed there, and the result is
  -- read off their views. A dry run leaves the store and the files as they are. Else the store was
  -- found with the next sequence number expected, or it was found changed and the append was tried
  -- again, and what it holds now is the text found there with the lines of the planned events behind
  -- it, numbered on from what was found and prepared, and a log that materializes.
  pub submit-IsAccepted :
      (output : AgentOutput) (actor : String) (dry_run : Bool) (site : Site) (r : SubmitResult)
      → (submit s actor output dry_run site).result ≡ ok r
      → IsAccepted output dry_run site (submit s actor output dry_run site).site r
  unfolding submit
  submit-IsAccepted output actor dry_run site r h =
      with_prepared-IsAccepted output actor dry_run site r h
