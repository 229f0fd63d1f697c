-- ===== src/Projector/Views.antt =====
-- The views that `materialize` of src/esaa/projector.py derives from the folded state, and
-- `normalize_legacy_verify_status` of src/esaa/compat.py. The constant entries of a view's `meta`
-- are left out. `digest` is `sha256_hex` on the projection.
use esaa_event_sourcing_agen.Prelude.{
  ℕ, ◌+◌, String, List, [], ◌∷◌, ◌++◌, if◌then◌else◌, or_else, truthy, ◌==◌, map, lookup, put,
}
use esaa_event_sourcing_agen.Prelude.Sorting.{sort_by}
use esaa_event_sourcing_agen.Outcome.{Outcome, ok, ◌>>=◌, required}
use esaa_event_sourcing_agen.Machine.{Status}
use esaa_event_sourcing_agen.Event.{Lesson, Event}
use esaa_event_sourcing_agen.Projector.Records.{Task, IssueStatus, Issue, State}
use esaa_event_sourcing_agen.Projector.Apply.{replay}

abbrev pub status_text : Status → String
status_text Status.todo = "todo"
status_text Status.in_progress = "in_progress"
status_text Status.review = "review"
status_text Status.done = "done"

-- The entries of an index in the order of their keys.
abbrev pub sorted {ℓ} : {V : Type ℓ} → List (String × V) → List (String × V)
sorted m = sort_by (λ kv. kv.0) m

count_in : (Task → String) → List (String × ℕ) → List Task → List (String × ℕ)
count_in key out [] = out
count_in key out (t ∷ ts) = count_in key (put (key t) (or_else (lookup (key t) out) 0 + 1) out) ts

unfoldable pub index_counts : (Task → String) → List Task → List (String × ℕ)
unfolding count_in
index_counts key tasks = sorted (count_in key [] tasks)

-- what `compute_projection_hash` hashes
pub record Projection : Type 0 where
  pub schema_version : String
  pub project_name : String
  pub audit_scope : String
  pub tasks : List Task
  pub by_status : List (String × ℕ)
  pub by_kind : List (String × ℕ)

pub record Roadmap : Type 0 where
  pub state : State
  pub by_status : List (String × ℕ)
  pub by_kind : List (String × ℕ)
  pub projection_hash_sha256 : String

-- `out.setdefault(key, []).append(value)`
unfoldable pub append_to :
    String → String → List (String × List String) → List (String × List String)
append_to key value out = put key (or_else (lookup key out) [] ++ value ∷ []) out

baseline_of : Issue → String
baseline_of i = if truthy i.baseline_id then or_else i.baseline_id "unknown" else "unknown"

unfoldable pub open_from : List (String × List String) → List Issue → List (String × List String)
unfolding baseline_of
open_from out [] = out
open_from out (i ∷ is) = elim i.status [
  | IssueStatus.open_issue ↦ open_from (append_to (baseline_of i) i.issue_id out) is
  | IssueStatus.resolved ↦ open_from out is
]

pub record IssuesView : Type 0 where
  pub issues : List Issue
  pub open_by_baseline : List (String × List String)

unfoldable pub issues_view : State → IssuesView
issues_view s =
    let issues = sort_by (λ (i : Issue). i.issue_id) (map (λ kv. kv.1) s.issues) in
    record { issues = issues; open_by_baseline = sorted (open_from [] issues) }

kinds_from : List (String × List String) → String → List String → List (String × List String)
kinds_from out lesson_id [] = out
kinds_from out lesson_id (k ∷ kinds) = kinds_from (append_to k lesson_id out) lesson_id kinds

lessons_by_kind : List (String × List String) → List Lesson → List (String × List String)
unfolding kinds_from
lessons_by_kind out [] = out
lessons_by_kind out (l ∷ ls) =
    lessons_by_kind (kinds_from out l.lesson_id (or_else l.scope.task_kinds [])) ls

unfoldable pub lessons_by_enforcement :
    List (String × List String) → List Lesson → Outcome (List (String × List String))
lessons_by_enforcement out [] = ok out
lessons_by_enforcement out (l ∷ ls) = do
  applies_to ← required l.enforcement.applies_to
  lessons_by_enforcement (append_to applies_to l.lesson_id out) ls

pub record LessonsView : Type 0 where
  pub lessons : List Lesson
  pub by_task_kind : List (String × List String)
  pub by_enforcement_applies_to : List (String × List String)

unfoldable pub lessons_view : State → Outcome LessonsView
unfolding lessons_by_kind lessons_by_enforcement
lessons_view s = do
  by_enforcement ← lessons_by_enforcement [] s.lessons
  ok (record {
    lessons = s.lessons;
    by_task_kind = sorted (lessons_by_kind [] s.lessons);
    by_enforcement_applies_to = sorted by_enforcement;
  })

unfoldable pub normalize_legacy_verify_status : String → String
normalize_legacy_verify_status status = if status == "fail" then "mismatch" else status

pub record Materialized : Type 0 where
  pub roadmap : Roadmap
  pub issues : IssuesView
  pub lessons : LessonsView

module _ (digest : Projection → String) where
  unfoldable pub compute_projection_hash : State → String
  compute_projection_hash s = digest (record {
    schema_version = "0.4.1";
    project_name = s.project_name;
    audit_scope = s.audit_scope;
    tasks = s.tasks;
    by_status = index_counts (λ t. status_text t.status) s.tasks;
    by_kind = index_counts (λ t. t.task_kind) s.tasks;
  })

  unfoldable pub roadmap_view : State → Roadmap
  roadmap_view s = record {
    state = record s { verify_status = normalize_legacy_verify_status s.verify_status };
    by_status = index_counts (λ t. status_text t.status) s.tasks;
    by_kind = index_counts (λ t. t.task_kind) s.tasks;
    projection_hash_sha256 = compute_projection_hash s;
  }

  unfoldable pub materialize : String → List Event → Outcome Materialized
  materialize now events = do
    s ← replay now "esaa-core" events
    lessons ← lessons_view s
    ok (record { roadmap = roadmap_view s; issues = issues_view s; lessons = lessons })
