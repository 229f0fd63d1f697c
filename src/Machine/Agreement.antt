-- ===== src/Machine/Agreement.antt =====
-- The tables and functions of src/esaa/state_machine.py agree with one another.
use mathlib.Core.List.{Memᴰ}
use esaa_event_sourcing_agen.Prelude.{◌≡◌, ◌≢◌, ◌↔◌, ◌⊎◌, inl, inr, Option, none, some, refl, arith}
use esaa_event_sourcing_agen.Machine.{
  Status, Action, Decision, expected_action_for, allowed_actions_for, next_status,
  classify_transition,
}

-- Some transition leaves status `s` by action `a`.
pub data Moves (s : Status) (a : Action) : Type 0 where
  moves : (d : Option Decision) (t : Status) → next_status s a d ≡ some t → Moves s a

advances :
    (s : Status) (a : Action)
    → classify_transition s a ≡ none
    → (a ≡ Action.issue_report) ⊎ Moves s a
unfolding classify_transition next_status
advances s Action.issue_report h = inl refl
advances Status.todo Action.claim h = inr (moves none Status.in_progress refl)
advances Status.in_progress Action.complete h = inr (moves none Status.review refl)
advances Status.review Action.review h = inr (moves (some Decision.approve) Status.done refl)
advances s a h = ground arith

Moves-classify : (s : Status) (a : Action) → Moves s a → classify_transition s a ≡ none
unfolding classify_transition next_status
Moves-classify s a (moves d t e) = ground arith

issue_report-classify :
    (s : Status) (a : Action) → a ≡ Action.issue_report → classify_transition s a ≡ none
unfolding classify_transition
issue_report-classify s a e = ground arith

-- `classify_transition` accepts an action exactly when it is `issue.report` or when `next_status`
-- gives a next status for it under some review decision.
pub classify_transition-next_status :
    (s : Status) (a : Action)
    → (classify_transition s a ≡ none) ↔ ((a ≡ Action.issue_report) ⊎ Moves s a)
classify_transition-next_status s a =
    (advances s a, elim [ inl e ↦ issue_report-classify s a e | inr m ↦ Moves-classify s a m ])

classify-Memᴰ :
    (s : Status) (a : Action) → classify_transition s a ≡ none → Memᴰ a (allowed_actions_for s)
unfolding classify_transition allowed_actions_for
classify-Memᴰ Status.todo Action.claim h = Memᴰ.head refl
classify-Memᴰ Status.todo Action.issue_report h = Memᴰ.tail (Memᴰ.head refl)
classify-Memᴰ Status.in_progress Action.complete h = Memᴰ.head refl
classify-Memᴰ Status.in_progress Action.issue_report h = Memᴰ.tail (Memᴰ.head refl)
classify-Memᴰ Status.review Action.review h = Memᴰ.head refl
classify-Memᴰ Status.review Action.issue_report h = Memᴰ.tail (Memᴰ.head refl)
classify-Memᴰ Status.done Action.issue_report h = Memᴰ.head refl
classify-Memᴰ s a h = cc

Memᴰ-classify :
    (s : Status) (a : Action) → Memᴰ a (allowed_actions_for s) → classify_transition s a ≡ none
unfolding classify_transition allowed_actions_for
Memᴰ-classify Status.todo a (Memᴰ.head e) = rw e
Memᴰ-classify Status.todo a (Memᴰ.tail (Memᴰ.head e)) = rw e
Memᴰ-classify Status.in_progress a (Memᴰ.head e) = rw e
Memᴰ-classify Status.in_progress a (Memᴰ.tail (Memᴰ.head e)) = rw e
Memᴰ-classify Status.review a (Memᴰ.head e) = rw e
Memᴰ-classify Status.review a (Memᴰ.tail (Memᴰ.head e)) = rw e
Memᴰ-classify Status.done a (Memᴰ.head e) = rw e
Memᴰ-classify Status.todo a (Memᴰ.tail (Memᴰ.tail m)) = elim m [ ]
Memᴰ-classify Status.in_progress a (Memᴰ.tail (Memᴰ.tail m)) = elim m [ ]
Memᴰ-classify Status.review a (Memᴰ.tail (Memᴰ.tail m)) = elim m [ ]
Memᴰ-classify Status.done a (Memᴰ.tail m) = elim m [ ]

-- The actions that the dispatch table `allowed_actions_for` offers an agent in a status are exactly
-- those that `classify_transition` accepts there.
pub allowed_actions_for-classify_transition :
    (s : Status) (a : Action) → Memᴰ a (allowed_actions_for s) ↔ (classify_transition s a ≡ none)
allowed_actions_for-classify_transition s a = (Memᴰ-classify s a, classify-Memᴰ s a)

-- The expected action of a status is accepted in it unless the status is `done`, and any other
-- action except `issue.report` is rejected.
pub expected_action_for_only :
    (s : Status) (a : Action)
    → a ≢ Action.issue_report
    → (classify_transition s a ≡ none) ↔ ((a ≡ expected_action_for s) × (s ≢ Status.done))
unfolding classify_transition expected_action_for
expected_action_for_only s a n = (λ h. (ground arith, λ e. ground arith), λ h. ground arith)
