-- ===== src/Submission.antt =====
-- `submit` of src/esaa/submission.py. The resolution of external paths is the operation
-- `resolve_external` of the setting; the rest is composed of the other components.
mod Preparation
mod Candidates
mod Submit
pub use Preparation.{Setting, Site, Prepared, Stage}
unfoldable pub use Preparation.{
  stage_phase, checked_task, checked_output, previewed, prepare, role_for, unstaged_entry,
  find_task, first_named,
}
unfoldable pub use Candidates.{
  add_event, with_write, with_hotfix, with_resolution, candidates, seal_started,
}
pub use Submit.{ExternalEffect, SubmitResult, Submitted}
unfoldable pub use Submit.*
pub mod Checks
pub mod Closing
pub mod Acceptance
mod Samples
