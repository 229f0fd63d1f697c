-- ===== src/Projector/Issues.antt =====
-- The handlers of src/esaa/projector.py for issues, lessons and hotfix tasks.
use esaa_event_sourcing_agen.Prelude.{
  ◌+◌, String, Bool, false, ◌&&◌, Option, none, some, List, [], ◌∷◌, ◌++◌, ◌==◌, if◌then◌else◌,
  or_else, length, any, join, padded, lookup, put,
}
use esaa_event_sourcing_agen.Codes.{Code}
use esaa_event_sourcing_agen.Outcome.{esaa_error, Outcome, ok, raise, ◌>>=◌, ◌>>◌, required}
use esaa_event_sourcing_agen.Json.{Json, text, obj, end, field, cons, nil, arr}
use esaa_event_sourcing_agen.Event.{Affected, LessonBody, Lesson, Event}
use esaa_event_sourcing_agen.Projector.Records.{Task, IssueStatus, Issue, State, new_task}

-- the value that `setdefault` stores for an issue that is not there
new_issue : String → Event → Issue
new_issue issue_id e = record {
  issue_id = issue_id;
  status = IssueStatus.open_issue;
  severity = or_else e.payload.severity "medium";
  title = or_else e.payload.title issue_id;
  baseline_id = affected.baseline_id;
  affected = affected;
  evidence = or_else e.payload.evidence (obj end);
  resolution = none;
  reported_by_task_id = e.payload.task_id;
  fixes_task_id = e.payload.fixes;
  hotfix_task_id = none;
  created_event_seq = e.event_seq;
  resolved_event_seq = none;
}
  where
    affected : Affected
    affected = or_else e.payload.affected (record { baseline_id = none; components = obj end })

-- the four assignments that every report makes
reported : Event → Issue → Issue
reported e i = record i {
  status = IssueStatus.open_issue;
  severity = or_else e.payload.severity i.severity;
  title = or_else e.payload.title i.title;
  evidence = or_else e.payload.evidence i.evidence;
}

opt_text : Option String → Json
opt_text none = Json.null
opt_text (some s) = text s

source_ref : Event → Json
unfolding opt_text
source_ref e = arr (
    cons
      (obj (field "task_id" (opt_text e.payload.task_id) (field "event_id" (text e.event_id) end)))
      nil)

make_lesson : Event → List Lesson → LessonBody → Outcome Lesson
unfolding source_ref
make_lesson e lessons b = do
  let lesson_id = join "LES-" (padded 4 (length lessons + 1))
  mistake ← required b.mistake
  rule ← required b.rule
  scope ← required b.scope
  enforcement ← required b.enforcement
  ok (record {
    lesson_id = lesson_id;
    status = "active";
    created_at = some e.ts;
    title = or_else e.payload.title lesson_id;
    mistake = mistake;
    rule = rule;
    scope = scope;
    enforcement = enforcement;
    source_refs = source_ref e;
  })

abbrev is_text : Option String → String → Bool
is_text none t = false
is_text (some s) t = s == t

-- A report of category `process` and subtype `lesson` that has a `lesson` adds a lesson.
add_lesson : Event → Option LessonBody → List Lesson → Outcome (List Lesson)
unfolding make_lesson
add_lesson e none lessons = ok lessons
add_lesson e (some b) lessons =
    if is_text e.payload.category "process" && is_text e.payload.subtype "lesson"
    then (do l ← make_lesson e lessons b; ok (lessons ++ l ∷ []))
    else ok lessons

unfoldable pub apply_issue_report : State → Event → Outcome State
unfolding new_issue reported add_lesson
apply_issue_report s e = do
  issue_id ← required e.payload.issue_id
  let issue = or_else (lookup issue_id s.issues) (new_issue issue_id e)
  lessons ← add_lesson e e.payload.lesson s.lessons
  ok (record s { issues = put issue_id (reported e issue) s.issues; lessons = lessons })

-- the loop that raises `DUPLICATE_TASK`
unfoldable pub refuse_duplicate : String → List Task → Outcome (Unit {0})
refuse_duplicate task_id tasks =
    if any (λ t. t.task_id == task_id) tasks then raise (esaa_error Code.duplicate_task) else ok tt

link_hotfix : Option String → String → List (String × Issue) → List (String × Issue)
link_hotfix none task_id issues = issues
link_hotfix (some issue_id) task_id issues = elim (lookup issue_id issues) [
  | none ↦ issues
  | some i ↦
      if issue_id == ""
      then issues
      else put issue_id (record i { hotfix_task_id = some task_id }) issues
]

unfoldable pub apply_hotfix_create : State → Event → Outcome State
unfolding link_hotfix
apply_hotfix_create s e = do
  task_id ← required e.payload.task_id
  refuse_duplicate task_id s.tasks
  task ← new_task e.payload
  ok (record s {
    tasks = s.tasks ++ task ∷ [];
    issues = link_hotfix e.payload.issue_id task_id s.issues;
  })

-- the assignments to an issue that is resolved
unfoldable pub resolve : Event → Issue → Issue
resolve e i = record i {
  status = IssueStatus.resolved;
  resolution = some (or_else e.payload.resolution (obj end));
  resolved_event_seq = some e.event_seq;
}

found_issue : Option Issue → Outcome Issue
found_issue none = raise (esaa_error Code.issue_not_found)
found_issue (some i) = ok i

unfoldable pub apply_issue_resolve : State → Event → Outcome State
unfolding resolve found_issue
apply_issue_resolve s e = do
  issue_id ← required e.payload.issue_id
  issue ← found_issue (lookup issue_id s.issues)
  ok (record s { issues = put issue_id (resolve e issue) s.issues })
