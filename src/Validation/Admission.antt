-- ===== src/Validation/Admission.antt =====
-- What is known of an output that `validate_agent_output` accepts.
use esaa_event_sourcing_agen.Prelude.{
  ◌≡◌, ◌⊎◌, refl, sym, ap, subst, if◌then◌else◌, String, Bool, true, false, ◌||◌, Option, none,
  some, List, [], ◌∷◌, arith, eq_iff, All, lookup, Bool-cases, inl, inr, has_prefix,
}
use esaa_event_sourcing_agen.Prelude.Paths.{traverses}
use esaa_event_sourcing_agen.Codes.{Code}
use esaa_event_sourcing_agen.Outcome.{ok, raise, required, guard, >>=-eq-ok}
use esaa_event_sourcing_agen.Machine.{Status, Action, allowed_actions_for, classify_transition}
use esaa_event_sourcing_agen.Actions.{is_among}
use esaa_event_sourcing_agen.Projector.{Task}
use esaa_event_sourcing_agen.Conflicts.{normalize_rel_path}
use esaa_event_sourcing_agen.Validation.{
  FileUpdate, ActivityEvent, AgentOutput, Boundaries, Contract, is_runtime, validate_safe_path,
  declares, is_report, names_task, check_event_fields, is_writable, matches_any, all_known,
  check_path, is_external_write, validate_boundary, each_boundary, validate_boundaries,
  validate_agent_output,
}

-- An action of an agent that a status allows is one that the state machine accepts there.
is_among-classify :
    (s : Status) (a : Action)
    → is_among a (allowed_actions_for s) ≡ true
    → classify_transition s a ≡ none
unfolding allowed_actions_for classify_transition
is_among-classify s a h = ground arith

declares-eq : (o : Option Status) (s : Status) → declares o s ≡ true → o ≡ some s
declares-eq none s h = absurd (cc)
declares-eq (some t) s h = ground arith

-- The event is one that the projector's check of the transition will accept, says the task's real
-- status unless it reports an issue, and is about the task.
pub record IsAdmitted (t : Task) (e : ActivityEvent) : Type 0 where
  pub accepted : classify_transition t.status e.action ≡ none
  pub declared : (e.action ≡ Action.issue_report) ⊎ (e.payload.prior_status ≡ some t.status)
  pub names_it : e.payload.task_id ≡ some t.task_id

is_report-eq : (a : Action) → is_report a ≡ true → a ≡ Action.issue_report
is_report-eq a h = ground arith

either_true : (a b : Bool) → (a || b) ≡ true → (a ≡ true) ⊎ (b ≡ true)
either_true true b h = inl refl
either_true false b h = inr h

names_task-eq : (t : Task) (o : Option String) → names_task t o ≡ true → o ≡ some t.task_id
names_task-eq t none h = absurd (cc)
names_task-eq t (some i) h = ground (arith, eq_iff i t.task_id)

check_event_fields-IsAdmitted :
    (c : Contract) (t : Task) (e : ActivityEvent)
    → check_event_fields c t e ≡ ok tt
    → IsAdmitted t e
unfolding check_event_fields
check_event_fields-IsAdmitted c t e h =
    let among : is_among e.action (allowed_actions_for t.status) ≡ true = ground arith in
    let said : (is_report e.action || declares e.payload.prior_status t.status) ≡ true =
      ground arith in
    let named : names_task t e.payload.task_id ≡ true = ground arith in
    record {
      accepted = is_among-classify t.status e.action among;
      declared =
          elim (either_true (is_report e.action) (declares e.payload.prior_status t.status) said) [
            | inl r ↦ inl (is_report-eq e.action r)
            | inr d ↦ inr (declares-eq e.payload.prior_status t.status d)
          ];
      names_it = names_task-eq t e.payload.task_id named;
    }

module _ (fnmatch : String → String → Bool) (t : Task) (b : Boundaries)
    (allowlist : List String) where
  -- A runtime path that the task declares or that a prefix in the scope patch of a hotfix covers, or a
  -- path that is writable for the task and not forbidden.
  pub data MayWrite (path : String) : Type 0 where
    external : is_external_write fnmatch t path ≡ true → MayWrite path
    listed :
        is_writable fnmatch t allowlist path ≡ true
        → matches_any fnmatch path b.forbidden_write ≡ false
        → MayWrite path

  -- A runtime path may be written as it is given, `..` parts included; any other is not absolute and has no `..` part
  -- once it is normalized, and may be written so.
  pub data IsGranted (u : FileUpdate) : Type 0 where
    as_given : is_runtime u.path ≡ true → MayWrite u.path → IsGranted u
    normalized :
        is_runtime u.path ≡ false
        → has_prefix "/" (normalize_rel_path u.path) ≡ false
        → traverses (normalize_rel_path u.path) ≡ false
        → MayWrite (normalize_rel_path u.path)
        → IsGranted u

  check_path-MayWrite :
      (c : Contract) (path : String)
      → check_path fnmatch c t b allowlist path ≡ ok tt
      → MayWrite path
  unfolding check_path
  check_path-MayWrite c path h = listed (ground arith) (ground arith)

  checked_MayWrite :
      (c : Contract) (path : String)
      → (if is_external_write fnmatch t path
          then ok tt
          else check_path fnmatch c t b allowlist path)
        ≡ ok tt
      → MayWrite path
  checked_MayWrite c path h = elim (Bool-cases (is_external_write fnmatch t path)) [
    | inl x ↦ external x
    | inr n ↦ check_path-MayWrite c path (rw n at h)
  ]

  safe_path :
      (raw path : String)
      → validate_safe_path raw ≡ ok path
      → ((is_runtime raw ≡ true) × (raw ≡ path))
        ⊎ ((is_runtime raw ≡ false)
            × (has_prefix "/" (normalize_rel_path raw) ≡ false)
            × (traverses (normalize_rel_path raw) ≡ false)
            × (normalize_rel_path raw ≡ path))
  unfolding validate_safe_path
  safe_path raw path h = elim (Bool-cases (is_runtime raw)) [
    | inl r ↦ inl (r, ground arith)
    | inr n ↦ inr (n, ground arith, ground arith, ground arith)
  ]

  validate_boundary-IsGranted :
      (c : Contract) (u : FileUpdate)
      → validate_boundary fnmatch c t b allowlist u ≡ ok tt
      → IsGranted u
  unfolding validate_boundary
  validate_boundary-IsGranted c u h =
      let (path, s, r) = >>=-eq-ok (validate_safe_path u.path) _ h in
      elim (safe_path u.path path s) [
        | inl (run, p) ↦ as_given run (subst MayWrite (sym p) (checked_MayWrite c path r))
        | inr (run, rel, up, p) ↦
            normalized run rel up (subst MayWrite (sym p) (checked_MayWrite c path r))
      ]

  each_boundary-IsGranted :
      (c : Contract) (us : List FileUpdate)
      → each_boundary fnmatch c t b allowlist us ≡ ok tt
      → All IsGranted us
  unfolding each_boundary
  each_boundary-IsGranted c [] h = tt
  each_boundary-IsGranted c (u ∷ us) h =
      let (v, g, r) = >>=-eq-ok (validate_boundary fnmatch c t b allowlist u) _ h in
      (validate_boundary-IsGranted c u g, each_boundary-IsGranted c us r)

-- The updates are granted by the contract's entry for the task's kind.
pub record AreGranted (fnmatch : String → String → Bool) (c : Contract) (t : Task)
    (us : List FileUpdate) : Type 0 where
  pub boundaries : Boundaries
  pub allowlist : List String
  pub for_kind : lookup t.task_kind c.by_task_kind ≡ some boundaries
  pub has_allowlist : boundaries.write ≡ some allowlist
  pub granted : All (IsGranted fnmatch t boundaries allowlist) us

required-some : {A : Type 0} (o : Option A) (a : A) → required o ≡ ok a → o ≡ some a
required-some none a h = ground arith
required-some (some b) a h = ground arith

module _ (fnmatch : String → String → Bool) (c : Contract) (t : Task) where
  validate_boundaries-AreGranted :
      (us : List FileUpdate)
      → validate_boundaries fnmatch us c t ≡ ok tt
      → AreGranted fnmatch c t us
  unfolding validate_boundaries
  validate_boundaries-AreGranted us h =
      let (b, l, h1) = >>=-eq-ok (required (lookup t.task_kind c.by_task_kind)) _ h in
      let (allowlist, w, h2) = >>=-eq-ok (required b.write) _ h1 in
      record {
        boundaries = b;
        allowlist = allowlist;
        for_kind = required-some (lookup t.task_kind c.by_task_kind) b l;
        has_allowlist = required-some b.write allowlist w;
        granted = each_boundary-IsGranted fnmatch t b allowlist c us h2;
      }

  pub validate_agent_output-IsAdmitted :
      (conforms : AgentOutput → Bool) (output : AgentOutput) (e : ActivityEvent)
      (us : List FileUpdate)
      → validate_agent_output fnmatch conforms output c t ≡ ok (e, us)
      → (output.activity_event ≡ e)
        × (output.file_updates ≡ us)
        × IsAdmitted t e
        × AreGranted fnmatch c t us
  unfolding validate_agent_output
  validate_agent_output-IsAdmitted conforms output e us h =
      let (v1, g1, h1) = >>=-eq-ok (guard (conforms output) Code.schema_invalid) _ h in
      let (v2, g2, h2) = >>=-eq-ok (guard (all_known output.root_keys) Code.schema_invalid) _ h1 in
      let (v3, g3, h3) = >>=-eq-ok (check_event_fields c t output.activity_event) _ h2 in
      let (v4, g4, h4) = >>=-eq-ok (validate_boundaries fnmatch output.file_updates c t) _ h3 in
      let p : output.activity_event ≡ e =
        ap (λ o. elim o [ ok x ↦ x.0 | raise f ↦ output.activity_event ]) h4 in
      let q : output.file_updates ≡ us =
        ap (λ o. elim o [ ok x ↦ x.1 | raise f ↦ output.file_updates ]) h4 in
      (
        p,
        q,
        subst (IsAdmitted t) p (check_event_fields-IsAdmitted c t output.activity_event g3),
        subst (AreGranted fnmatch c t) q (validate_boundaries-AreGranted output.file_updates g4),
      )
