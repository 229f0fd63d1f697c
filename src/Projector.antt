-- ===== src/Projector.antt =====
-- src/esaa/projector.py: the read models are a fold of the events.
mod Records
mod Tasks
mod Issues
mod Apply
mod Views
pub use Records.{Task, IssueStatus, Issue, State}
unfoldable pub use Records.{empty_state, new_task}
unfoldable pub use Tasks.{
  update_task, ensure_owner, check_transition, claim_task, complete_task, review_task,
}
unfoldable pub use Issues.{
  refuse_duplicate, apply_issue_report, apply_hotfix_create, resolve, apply_issue_resolve,
}
unfoldable pub use Apply.{on_task, apply_task_create, dispatch, apply_event, replay_from, replay}
pub use Views.{Projection, Roadmap, IssuesView, LessonsView, Materialized}
unfoldable pub use Views.{
  status_text, sorted, index_counts, append_to, open_from, issues_view, lessons_by_enforcement,
  lessons_view, normalize_legacy_verify_status, compute_projection_hash, roadmap_view, materialize,
}
