-- ===== src/Submission/Submit.antt =====
-- The whole of `submit`.
use esaa_event_sourcing_agen.Prelude.{
  ℕ, String, Bool, true, false, Option, none, some, List, [], ◌∷◌, ◌==◌, if◌then◌else◌, length,
}
use esaa_event_sourcing_agen.Outcome.{Outcome, ok, raise}
use esaa_event_sourcing_agen.Machine.{Action}
use esaa_event_sourcing_agen.Event.{Event}
use esaa_event_sourcing_agen.Projector.{Materialized}
use esaa_event_sourcing_agen.Service.{append_events_transactionally}
use esaa_event_sourcing_agen.Effects.{Metadata, commit_staged, discard_staged}
use esaa_event_sourcing_agen.Validation.{AgentOutput}
use esaa_event_sourcing_agen.Submission.Preparation.{
  Setting, Site, Prepared, Stage, prepare, stage_phase,
}
use esaa_event_sourcing_agen.Submission.Candidates.{candidates, seal_started}

pub record ExternalEffect : Type 0 where
  pub target : Option String
  pub source : String
  pub resolved_path : Option String
  pub target_path : Option String
  pub allowed : Bool

-- The result of a submission. The last four keys are those of a dry run, and an empty list of
-- external effects is left out of it.
pub record SubmitResult : Type 0 where
  pub status : String
  pub actor : String
  pub task_id : String
  pub action : Action
  pub events_appended : ℕ
  pub files_written : ℕ
  pub last_event_seq : ℕ
  pub verify_status : String
  pub projection_hash_sha256 : String
  pub would_append_events : Option ℕ
  pub simulated_last_event_seq : Option ℕ
  pub simulated_projection_hash_sha256 : Option String
  pub external_effects : List ExternalEffect

pub record Submitted : Type 0 where
  pub site : Site
  pub result : Outcome SubmitResult

unfoldable pub external_effects_of : List Metadata → List ExternalEffect
external_effects_of [] = []
external_effects_of (m ∷ ms) =
    let rest = external_effects_of ms in
    let effect : ExternalEffect = record {
      target = m.target;
      source = if m.source_path == "" then m.path else m.source_path;
      resolved_path = m.absolute_path;
      target_path = m.target_path;
      allowed = true;
    } in
    if m.effect_scope == "external" then effect ∷ rest else rest

unfoldable pub submit_result :
    Bool → String → Prepared → List Metadata → List Event → Materialized → SubmitResult
unfolding external_effects_of
submit_result dry_run actor p effects finished final = record {
  status = if dry_run then "dry_run" else "accepted";
  actor = actor;
  task_id = p.task.task_id;
  action = p.event.action;
  events_appended = length finished;
  files_written = length p.updates;
  last_event_seq = final.roadmap.state.last_event_seq;
  verify_status = final.roadmap.state.verify_status;
  projection_hash_sha256 = final.roadmap.projection_hash_sha256;
  would_append_events = if dry_run then some (length finished) else none;
  simulated_last_event_seq = if dry_run then some final.roadmap.state.last_event_seq else none;
  simulated_projection_hash_sha256 =
      if dry_run then some final.roadmap.projection_hash_sha256 else none;
  external_effects = if dry_run then external_effects_of effects else [];
}

module _ (s : Setting) (actor : String) (p : Prepared) (st : Stage) where
  -- The staged files are moved; if that fails, those that are left are discarded.
  unfoldable pub moved : String → SubmitResult → Submitted
  moved text r =
      let done = commit_staged s.root st.staged st.disk in
      elim done.result [
        | ok u ↦ record { site = record { text = text; disk = done.disk }; result = ok r }
        | raise f ↦ record {
          site = record { text = text; disk = discard_staged st.staged done.disk };
          result = raise f;
        }
      ]

  -- first the events are appended, then the files are moved
  unfoldable pub appended : String → List Event → SubmitResult → Submitted
  unfolding moved
  appended text finished r =
      let tried =
        append_events_transactionally s.store s.digest s.now s.others finished s.submit_retries
          p.base text in
      elim tried.written.result [
        | ok receipt ↦ moved tried.written.text r
        | raise f ↦ record {
          site = record { text = tried.written.text; disk = discard_staged st.staged st.disk };
          result = raise f;
        }
      ]

  unfoldable pub with_sealed : Bool → String → Outcome (List Event × Materialized) → Submitted
  unfolding submit_result
  with_sealed dry_run text (raise f) = record {
    site = record { text = text; disk = st.disk };
    result = raise f;
  }
  with_sealed true text (ok (finished, final)) = record {
    site = record { text = text; disk = st.disk };
    result = ok (submit_result true actor p st.effects finished final);
  }
  with_sealed false text (ok (finished, final)) =
      appended text finished (submit_result false actor p st.effects finished final)

  unfoldable pub with_candidates : Bool → String → Outcome (List Event) → Submitted
  with_candidates dry_run text (raise f) = record {
    site = record { text = text; disk = discard_staged st.staged st.disk };
    result = raise f;
  }
  with_candidates dry_run text (ok new) = with_sealed dry_run text (seal_started s p.base new)

module _ (s : Setting) (actor : String) where
  unfoldable pub with_prepared : Bool → Site → Outcome Prepared → Submitted
  with_prepared dry_run site (raise f) = record { site = site; result = raise f }
  with_prepared dry_run site (ok p) =
      let st = stage_phase s dry_run p.updates site.disk in
      with_candidates s actor p st dry_run site.text (candidates s p.base p st.effects)

  unfoldable pub submit : AgentOutput → Bool → Site → Submitted
  submit output dry_run site = with_prepared dry_run site (prepare s output actor site)
