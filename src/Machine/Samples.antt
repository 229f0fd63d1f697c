-- ===== src/Machine/Samples.antt =====
-- The theorems about the state machine at concrete statuses and actions.
use mathlib.Core.List.{Memᴰ}
use esaa_event_sourcing_agen.Prelude.{◌≡◌, ◌≢◌, ◌↔◌, ◌⊎◌, none, arith}
use esaa_event_sourcing_agen.Machine.{
  Status, Action, allowed_actions_for, classify_transition, expected_action_for,
}
use esaa_event_sourcing_agen.Machine.Agreement.{
  Moves, classify_transition-next_status, allowed_actions_for-classify_transition,
  expected_action_for_only,
}

classify_transition-next_status_example :
    (classify_transition Status.review Action.review ≡ none)
    ↔ ((Action.review ≡ Action.issue_report) ⊎ Moves Status.review Action.review)
classify_transition-next_status_example =
    classify_transition-next_status Status.review Action.review

allowed_actions_for-classify_transition_example :
    Memᴰ Action.claim (allowed_actions_for Status.done)
    ↔ (classify_transition Status.done Action.claim ≡ none)
allowed_actions_for-classify_transition_example =
    allowed_actions_for-classify_transition Status.done Action.claim

complete_not_issue_report : Action.complete ≢ Action.issue_report
complete_not_issue_report = λ e. ground arith

expected_action_for_only_example :
    (classify_transition Status.in_progress Action.complete ≡ none) ↔ (
      (Action.complete ≡ expected_action_for Status.in_progress)
      × (Status.in_progress ≢ Status.done))
expected_action_for_only_example =
    expected_action_for_only Status.in_progress Action.complete complete_not_issue_report
