-- ===== src/Submission/Checks.antt =====
-- What is known of a submission that passes the checks before anything is written.
use esaa_event_sourcing_agen.Prelude.{◌≡◌, sym, ap, subst, String, false, not, List, arith}
use esaa_event_sourcing_agen.Codes.{Code}
use esaa_event_sourcing_agen.Outcome.{ok, raise, guard, >>=-eq-ok}
use esaa_event_sourcing_agen.Event.{Event}
use esaa_event_sourcing_agen.Projector.{Task, Materialized, materialize}
use esaa_event_sourcing_agen.Store.{parse_event_store}
use esaa_event_sourcing_agen.Policy.{is_blocked_by_max_attempts, validate_runner_id}
use esaa_event_sourcing_agen.Validation.{
  FileUpdate, ActivityEvent, AgentOutput, validate_agent_output,
  validate_file_update_resource_limits, resource_limits_from_policy,
}
use esaa_event_sourcing_agen.Validation.Admission.{
  IsAdmitted, AreGranted, validate_agent_output-IsAdmitted,
}
use esaa_event_sourcing_agen.Validation.Resources.{IsWithinLimits, resource_limits_iff}
use esaa_event_sourcing_agen.Edits.Resolving.{normalize_file_updates}
use esaa_event_sourcing_agen.Effects.{Disk, Update}
use esaa_event_sourcing_agen.Submission.{
  Setting, Site, Prepared, find_task, checked_task, checked_output, previewed, prepare, role_for,
}

module _ (s : Setting) where
  -- The task of the log that the output is about; it is not blocked.
  pub record IsFound (output : AgentOutput) (text : String) (base : List Event) (task : Task)
      : Type 0 where
    pub views : Materialized
    pub parsed : parse_event_store s.store text ≡ ok base
    pub replayed : materialize s.digest s.now base ≡ ok views
    pub found : find_task views.roadmap.state.tasks output.activity_event.payload.task_id ≡ ok task
    pub not_blocked : is_blocked_by_max_attempts base task.task_id s.max_attempts ≡ false

  checked_task-IsFound :
      (output : AgentOutput) (text : String) (base : List Event) (task : Task)
      → checked_task s output text ≡ ok (base, task)
      → IsFound output text base task
  unfolding checked_task
  checked_task-IsFound output text base task h =
      let (events, q, h1) = >>=-eq-ok (parse_event_store s.store text) _ h in
      let (views, v, h2) = >>=-eq-ok (materialize s.digest s.now events) _ h1 in
      let (t, f, h3) =
        >>=-eq-ok (find_task views.roadmap.state.tasks output.activity_event.payload.task_id) _
          h2 in
      let (u1, g, h4) =
        >>=-eq-ok
          (guard (not (is_blocked_by_max_attempts events t.task_id s.max_attempts))
            Code.max_attempts_exceeded)
          _ h3 in
      let (u2, r, h5) = >>=-eq-ok (validate_runner_id s.runner_id s.known_runners s.policy) _ h4 in
      subst (λ x. IsFound output text x.0 x.1)
        (ap (λ o. elim o [ ok y ↦ y | raise e ↦ (base, task) ]) h5)
        (record {
          views = views;
          parsed = q;
          replayed = v;
          found = f;
          not_blocked = ground (arith, g);
        })

  -- The output is admitted for the task, and its updates are granted and, once they are normalized,
  -- within the limits.
  pub record IsChecked (output : AgentOutput) (task : Task) (disk : Disk) (normal : List FileUpdate)
      : Type 0 where
    pub admitted : IsAdmitted task output.activity_event
    pub granted : AreGranted s.fnmatch s.contract task output.file_updates
    pub normalized :
        normalize_file_updates s.archive.sha256 s.root disk output.file_updates ≡ ok normal
    pub within : IsWithinLimits (resource_limits_from_policy s.limits) normal

  checked_output-IsChecked :
      (output : AgentOutput) (task : Task) (disk : Disk) (event : ActivityEvent)
      (normal : List FileUpdate)
      → checked_output s output task disk ≡ ok (event, normal)
      → IsChecked output task disk normal
  unfolding checked_output
  checked_output-IsChecked output task disk event normal h =
      let (v, a, h1) =
        >>=-eq-ok (validate_agent_output s.fnmatch s.conforms output s.contract task) _ h in
      let (n, m, h2) = >>=-eq-ok (normalize_file_updates s.archive.sha256 s.root disk v.1) _ h1 in
      let (u, l, h3) = >>=-eq-ok (validate_file_update_resource_limits n s.limits) _ h2 in
      let (p1, p2, p3, p4) =
        validate_agent_output-IsAdmitted s.fnmatch s.contract task s.conforms output v.0 v.1 a in
      subst (IsChecked output task disk) (ap (λ o. elim o [ ok y ↦ y.1 | raise e ↦ normal ]) h3)
        (record {
          admitted = subst (IsAdmitted task) (sym p1) p3;
          granted = subst (AreGranted s.fnmatch s.contract task) (sym p2) p4;
          normalized =
              subst (λ us. normalize_file_updates s.archive.sha256 s.root disk us ≡ ok n) (sym p2)
                m;
          within = (resource_limits_iff n s.limits).0 l;
        })

  previewed-parts :
      (actor : String) (events : List Event) (task : Task) (event : ActivityEvent)
      (updates : List Update) (p : Prepared)
      → previewed s actor events task event updates ≡ ok p
      → (events ≡ p.base) × (task ≡ p.task)
  unfolding previewed
  previewed-parts actor events task event updates p h =
      let (v, m, h1) = >>=-eq-ok (materialize s.digest s.now _) _ h in
      (
        ap (λ o. elim o [ ok x ↦ x.base | raise e ↦ events ]) h1,
        ap (λ o. elim o [ ok x ↦ x.task | raise e ↦ task ]) h1,
      )

  pub prepare-parts :
      (output : AgentOutput) (actor : String) (site : Site) (p : Prepared)
      → prepare s output actor site ≡ ok p
      → IsFound output site.text p.base p.task
        × ((normal : List FileUpdate) × IsChecked output p.task site.disk normal)
  unfolding prepare
  prepare-parts output actor site p h =
      let (f, q, h1) = >>=-eq-ok (checked_task s output site.text) _ h in
      let (c, r, h2) = >>=-eq-ok (checked_output s output f.1 site.disk) _ h1 in
      let (u, x, h3) = >>=-eq-ok (s.resolve_external f.1 c.1) _ h2 in
      let (e, y, h4) = >>=-eq-ok (role_for s actor c.0) _ h3 in
      let (b, t) = previewed-parts actor f.0 f.1 e u p h4 in
      (
        subst (λ (z : List Event × Task). IsFound output site.text z.0 z.1) (ap2 b t)
            (checked_task-IsFound output site.text f.0 f.1 q),
        (
          c.1,
          subst (λ z. IsChecked output z site.disk c.1) t
              (checked_output-IsChecked output f.1 site.disk c.0 c.1 r),
        ),
      )
    where
      ap2 :
          {es fs : List Event} {t u : Task}
          → es ≡ fs
          → t ≡ u
          → ◌≡◌ {A = List Event × Task} (es, t) (fs, u)
      ap2 p q = cc (p, q)
