-- ===== src/Policy.antt =====
-- src/esaa/runtime_policy.py: attempts, cooldowns and roles, all read off the event list. The YAML
-- files are given as the values read from them; `datetime.fromisoformat` is the parameter
-- `parse_ts`, with times and durations as numbers of one unit.
pub mod Attempts
mod Samples
use esaa_event_sourcing_agen.Prelude.{
  ℕ, suc, ◌+◌, String, Bool, true, false, not, ◌&&◌, ◌||◌, Option, none, some, List, [], ◌∷◌, ◌==◌,
  if◌then◌else◌, or_else, truthy, ltb, leb, has_prefix, contains, lookup,
}
use esaa_event_sourcing_agen.Codes.{Code}
use esaa_event_sourcing_agen.Outcome.{Outcome, ok, guard}
use esaa_event_sourcing_agen.Machine.{Action}
use esaa_event_sourcing_agen.Event.{Event}

-- `p.get("task_id") == task_id`
abbrev pub about_task : String → Event → Bool
about_task task_id e = elim e.payload.task_id [ none ↦ false | some t ↦ t == task_id ]

abbrev pub is_rejected : Action → Bool
is_rejected Action.output_rejected = true
is_rejected _ = false

abbrev is_mismatch : Option String → Bool
is_mismatch none = false
is_mismatch (some code) = code == "PRIOR_STATUS_MISMATCH"

-- The conditions under which the loop of `count_penalizing_rejections` counts an event.
unfoldable pub penalizes : String → Event → Bool
penalizes task_id e =
    is_rejected e.action && about_task task_id e && not (is_mismatch e.payload.error_code)

unfoldable pub count_penalizing_rejections : List Event → String → ℕ
count_penalizing_rejections [] task_id = 0
count_penalizing_rejections (e ∷ es) task_id =
    let n = count_penalizing_rejections es task_id in if penalizes task_id e then suc n else n

unfoldable pub is_blocked_by_max_attempts : List Event → String → ℕ → Bool
is_blocked_by_max_attempts events task_id max_attempts =
    leb max_attempts (count_penalizing_rejections events task_id)

-- The later of two readings: a text that is no time leaves the earlier one.
abbrev later : Option ℕ → Option ℕ → Option ℕ
later new none = new
later none (some t) = some t
later (some u) (some t) = some t

abbrev pub is_claim : Action → Bool
is_claim Action.claim = true
is_claim _ = false

abbrev pub is_complete : Action → Bool
is_complete Action.complete = true
is_complete _ = false

module _ (parse_ts : String → Option ℕ) where
  -- the loops that keep the time of the last event of a kind
  unfoldable pub last_ts : (Event → Bool) → List Event → Option ℕ
  last_ts p [] = none
  last_ts p (e ∷ es) = let rest = last_ts p es in if p e then later (parse_ts e.ts) rest else rest

  unfoldable pub last_rejection_ts : List Event → String → Option ℕ
  last_rejection_ts events task_id =
      last_ts (λ e. is_rejected e.action && about_task task_id e) events

  -- `(now - ts) < cooldown`
  unfoldable pub is_in_cooldown : List Event → String → ℕ → ℕ → Bool
  is_in_cooldown events task_id now cooldown = elim (last_rejection_ts events task_id) [
    | none ↦ false
    | some ts ↦ ltb now (ts + cooldown)
  ]

  completed_since : Option ℕ → ℕ → Bool
  completed_since none claim = false
  completed_since (some complete) claim = leb claim complete

  unfoldable pub attempt_expired : List Event → String → ℕ → ℕ → Bool
  unfolding completed_since
  attempt_expired events task_id now ttl =
      elim (last_ts (λ e. about_task task_id e && is_claim e.action) events) [
        | none ↦ false
        | some claim ↦
            not (
              completed_since (last_ts (λ e. about_task task_id e && is_complete e.action) events)
                claim)
            && ltb (claim + ttl) now
      ]

-- The role of an actor: the one that `agents_swarm.yaml` gives, or else one by the actor's name.
unfoldable pub resolve_role : List (String × String) → String → String
resolve_role swarm actor =
    let role = lookup actor swarm in
    let named = or_else role "" in
    if truthy role
    then if named == "quality" then "qa" else named
    else if has_prefix "agent-qa" actor
    then "qa"
    else if has_prefix "agent-orchestrator" actor || actor == "orchestrator"
    then "orchestrator"
    else "agent"

pub record RunPolicy : Type 0 where
  pub runner_validation : Option String
  pub review_authorization : Option String

unfoldable pub runner_validation_mode : RunPolicy → String
runner_validation_mode p = or_else p.runner_validation "permissive"

unfoldable pub validate_runner_id : String → List String → RunPolicy → Outcome (Unit {0})
validate_runner_id runner_id known_runners p =
    if not (runner_validation_mode p == "strict")
    then ok tt
    else guard (contains known_runners runner_id) Code.runner_unknown

unfoldable pub review_authorization_mode : RunPolicy → String
review_authorization_mode p =
    if or_else p.review_authorization "owner" == "qa_role" then "qa_role" else "owner"
