-- ===== src/Validation/Outputs.antt =====
-- `validate_agent_output` and `_validate_boundaries` of src/esaa/validator.py, and
-- `task_accepts_external_path` of src/esaa/external_effects.py.
use esaa_event_sourcing_agen.Prelude.{
  ℕ, String, Bool, true, false, not, ◌&&◌, ◌||◌, Option, none, some, List, [], ◌∷◌, ◌==◌,
  if◌then◌else◌, or_else, any, ltb, length, contains, has_prefix, to_slashes, truthy, lookup,
}
use esaa_event_sourcing_agen.Codes.{Code}
use esaa_event_sourcing_agen.Outcome.{Outcome, ok, ◌>>=◌, ◌>>◌, guard, required}
use esaa_event_sourcing_agen.Machine.{Status, Action, Decision, allowed_actions_for}
use esaa_event_sourcing_agen.Actions.{action_text, is_among}
use esaa_event_sourcing_agen.Event.{Payload, Verification}
use esaa_event_sourcing_agen.Projector.{Task}
use esaa_event_sourcing_agen.Conflicts.{normalize_rel_path}
use esaa_event_sourcing_agen.Validation.Limits.{FileUpdate, is_runtime, validate_safe_path}

-- `activity_event`: its keys, and those of them that the program reads.
pub record ActivityEvent : Type 0 where
  pub keys : List String
  pub action : Action
  pub payload : Payload

pub record AgentOutput : Type 0 where
  pub root_keys : List String
  pub activity_event : ActivityEvent
  pub file_updates : List FileUpdate

-- one entry of `boundaries.by_task_kind`
pub record Boundaries : Type 0 where
  pub read : List String
  pub write : Option (List String)
  pub forbidden_write : List String

pub record Contract : Type 0 where
  pub allowed_agent_actions : List String
  pub forbidden_fields : List String
  pub by_task_kind : List (String × Boundaries)
  pub patch_scope_enabled : Bool

abbrev is_known_root : String → Bool
is_known_root key = key == "activity_event" || key == "file_updates"

unfoldable pub all_known : List String → Bool
all_known [] = true
all_known (k ∷ ks) = is_known_root k && all_known ks

abbrev pub is_report : Action → Bool
is_report Action.issue_report = true
is_report _ = false

-- `declared != real`, negated
abbrev pub declares : Option Status → Status → Bool
declares none real = false
declares (some s) real = elim s [
  | Status.todo ↦ elim real [ Status.todo ↦ true | _ ↦ false ]
  | Status.in_progress ↦ elim real [ Status.in_progress ↦ true | _ ↦ false ]
  | Status.review ↦ elim real [ Status.review ↦ true | _ ↦ false ]
  | Status.done ↦ elim real [ Status.done ↦ true | _ ↦ false ]
]

-- `MIN_CHECKS_BY_KIND.get(kind_key, 1)`
unfoldable pub min_checks : Task → ℕ
min_checks t = if t.is_hotfix || t.task_kind == "hotfix" then 2 else 1

number_of_checks : Option Verification → ℕ
number_of_checks none = 0
number_of_checks (some v) = length (or_else v.checks [])

check_complete : Task → Payload → Outcome (Unit {0})
unfolding number_of_checks
check_complete t p = do
  guard (not (ltb (number_of_checks p.verification) (min_checks t))) Code.missing_verification
  guard (not (t.is_hotfix && not (truthy p.issue_id && truthy p.fixes))) Code.missing_verification

abbrev is_decided : Option Decision → Bool
is_decided (some Decision.approve) = true
is_decided (some Decision.request_changes) = true
is_decided _ = false

-- the checks of one action
check_action : Action → Task → Payload → Outcome (Unit {0})
unfolding check_complete
check_action Action.complete t p = check_complete t p
check_action Action.review t p = guard (is_decided p.decision) Code.schema_invalid
check_action _ t p = ok tt

abbrev pub names_task : Task → Option String → Bool
names_task t none = false
names_task t (some task_id) = task_id == t.task_id

-- The checks on the activity event, behind the schema's.
unfoldable pub check_event_fields : Contract → Task → ActivityEvent → Outcome (Unit {0})
unfolding check_action
check_event_fields c t e = do
  guard (contains c.allowed_agent_actions (action_text e.action)) Code.unknown_action
  guard (is_report e.action || declares e.payload.prior_status t.status) Code.prior_status_mismatch
  guard (is_among e.action (allowed_actions_for t.status)) Code.workflow_gate_violation
  guard (names_task t e.payload.task_id) Code.schema_invalid
  guard (not (any (contains c.forbidden_fields) e.keys)) Code.schema_invalid
  check_action e.action t e.payload

unfoldable pub task_accepts_external_path : Task → String → Bool
task_accepts_external_path t path = contains t.outputs.external_files path

is_empty : List String → Bool
is_empty [] = true
is_empty (x ∷ xs) = false

module _ (fnmatch : String → String → Bool) where
  unfoldable pub matches_any : String → List String → Bool
  matches_any path patterns = any (λ pattern. fnmatch path (to_slashes pattern)) patterns

  -- the allowlist of the task's kind, or the task's own grant
  unfoldable pub is_writable : Task → List String → String → Bool
  unfolding is_empty
  is_writable t allowlist path =
      let grant = or_else t.boundary_grant [] in
      matches_any path allowlist
      || (not (is_empty grant) && not (is_runtime path) && matches_any path grant)

  unfoldable pub in_scope_patch : Task → String → Bool
  in_scope_patch t path =
      any (λ prefix. has_prefix (normalize_rel_path prefix) path) (or_else t.scope_patch [])

  -- a runtime path that the task declares, or that its scope patch covers
  unfoldable pub is_external_write : Task → String → Bool
  is_external_write t path =
      is_runtime path
      && (task_accepts_external_path t path
          || (t.is_hotfix && any (λ prefix. has_prefix prefix path) (or_else t.scope_patch [])))

  check_scope : Contract → Task → String → Outcome (Unit {0})
  unfolding is_empty
  check_scope c t path =
      if c.patch_scope_enabled && t.is_hotfix
      then (do
        guard (not (is_empty (or_else t.scope_patch []))) Code.boundary_violation
        guard (in_scope_patch t path) Code.boundary_violation)
      else ok tt

  unfoldable pub check_path :
      Contract → Task → Boundaries → List String → String → Outcome (Unit {0})
  unfolding check_scope
  check_path c t b allowlist path = do
    guard (is_writable t allowlist path) Code.boundary_violation
    guard (not (matches_any path b.forbidden_write)) Code.boundary_violation
    check_scope c t path

  -- one round of the loop over the updates
  unfoldable pub validate_boundary :
      Contract → Task → Boundaries → List String → FileUpdate → Outcome (Unit {0})
  unfolding check_path
  validate_boundary c t b allowlist u = do
    path ← validate_safe_path u.path
    if is_external_write t path then ok tt else check_path c t b allowlist path

  unfoldable pub each_boundary :
      Contract → Task → Boundaries → List String → List FileUpdate → Outcome (Unit {0})
  each_boundary c t b allowlist [] = ok tt
  each_boundary c t b allowlist (u ∷ us) = do
    validate_boundary c t b allowlist u
    each_boundary c t b allowlist us

  unfoldable pub validate_boundaries : List FileUpdate → Contract → Task → Outcome (Unit {0})
  validate_boundaries updates c t = do
    b ← required (lookup t.task_kind c.by_task_kind)
    allowlist ← required b.write
    each_boundary c t b allowlist updates

  -- `conforms` is the answer of `jsonschema.validate`.
  unfoldable pub validate_agent_output :
      (AgentOutput → Bool)
      → AgentOutput
      → Contract
      → Task
      → Outcome (ActivityEvent × List FileUpdate)
  unfolding all_known
  validate_agent_output conforms output c t = do
    guard (conforms output) Code.schema_invalid
    guard (all_known output.root_keys) Code.schema_invalid
    check_event_fields c t output.activity_event
    validate_boundaries output.file_updates c t
    ok (output.activity_event, output.file_updates)
