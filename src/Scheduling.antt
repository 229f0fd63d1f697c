-- ===== src/Scheduling.antt =====
-- The selection of work in src/esaa/seeds.py: which tasks may run next, and which side by side.
pub mod Next
pub mod Progress
pub mod Groups
pub mod Waves
mod Samples
use esaa_event_sourcing_agen.Prelude.{
  ℕ, zero, suc, String, Bool, true, false, not, ◌&&◌, ◌||◌, Option, none, some, List, [], ◌∷◌, ◌++◌,
  map, ◌==◌, if◌then◌else◌, or_else, all, select, contains, leb,
}
use esaa_event_sourcing_agen.Prelude.Sorting.{sort_by}
use esaa_event_sourcing_agen.Machine.{Status}
use esaa_event_sourcing_agen.Event.{Outputs}
use esaa_event_sourcing_agen.Projector.{Task}
use esaa_event_sourcing_agen.Conflicts.{normalize_write_set, conflict_between_sets}

abbrev pub has_status : Status → Task → Bool
has_status s t = same s t.status
  where
    same : Status → Status → Bool
    same Status.todo Status.todo = true
    same Status.in_progress Status.in_progress = true
    same Status.review Status.review = true
    same Status.done Status.done = true
    same _ _ = false

unfoldable pub all_tasks_done : List Task → Bool
all_tasks_done [] = false
all_tasks_done (t ∷ ts) = all (has_status Status.done) (t ∷ ts)

abbrev pub ids : List Task → List String
ids tasks = map (λ t. t.task_id) tasks

-- `{task["task_id"]: task for task in tasks}.get(task_id)`: the last task of that id.
unfoldable pub by_id : List Task → String → Option Task
by_id [] task_id = none
by_id (t ∷ ts) task_id = elim (by_id ts task_id) [
  | none ↦ if t.task_id == task_id then some t else none
  | some u ↦ some u
]

abbrev pub sort_tasks : List Task → List Task
sort_tasks = sort_by (λ t. t.task_id)

-- the candidates of one status, in the order of their ids
unfoldable pub candidates : Status → List Task → List Task
candidates s tasks = sort_tasks (select (has_status s) tasks)

-- `by_id[dep]["status"] == "done" ... if dep in by_id`: an unknown dependency does not count.
abbrev pub done_if_known : List Task → String → Bool
done_if_known tasks dep = elim (by_id tasks dep) [ none ↦ true | some t ↦ has_status Status.done t ]

-- `by_id.get(d, {}).get("status") == "done"`: an unknown dependency blocks.
abbrev pub known_done : List Task → String → Bool
known_done tasks dep = elim (by_id tasks dep) [ none ↦ false | some t ↦ has_status Status.done t ]

-- the `for` loop over the `todo` tasks
unfoldable pub first_ready : List Task → List Task → Option Task
first_ready tasks [] = none
first_ready tasks (t ∷ todo) =
    if all (done_if_known tasks) t.depends_on then some t else first_ready tasks todo

unfoldable pub select_next_task : List Task → Option Task
select_next_task tasks = elim (candidates Status.review tasks) [
  | t ∷ _ ↦ some t
  | [] ↦ elim (candidates Status.in_progress tasks) [
    | t ∷ _ ↦ some t
    | [] ↦ first_ready tasks (candidates Status.todo tasks)
  ]
]

abbrev pub is_eligible : List Task → Task → Bool
is_eligible tasks t = has_status Status.todo t && all (known_done tasks) t.depends_on

unfoldable pub list_eligible_tasks : List Task → List Task
list_eligible_tasks tasks = select (is_eligible tasks) (sort_tasks tasks)

pub record Group : Type 0 where
  pub files : List String
  pub tasks : List String

abbrev pub write_set : Task → List String
write_set t = normalize_write_set (or_else t.outputs.files [])

-- the inner `for` loop: the first group that the task does not conflict with, or a new one
unfoldable pub place : List String → String → List Group → List Group
place files task_id [] = record { files = files; tasks = task_id ∷ [] } ∷ []
place files task_id (g ∷ gs) =
    if conflict_between_sets g.files files
    then g ∷ place files task_id gs
    else record { files = g.files ++ files; tasks = g.tasks ++ task_id ∷ [] } ∷ gs

unfoldable pub group_from : List Group → List Task → List Group
group_from groups [] = groups
group_from groups (t ∷ ts) = group_from (place (write_set t) t.task_id groups) ts

unfoldable pub parallel_groups : List Task → List (List String)
parallel_groups eligible = map (λ g. g.tasks) (group_from [] eligible)

abbrev pub take {ℓ} : {A : Type ℓ} → ℕ → List A → List A
take zero xs = []
take (suc n) [] = []
take (suc n) (x ∷ xs) = x ∷ take n xs

-- `[by_id[task_id] for task_id in ids if task_id in by_id]`
unfoldable pub found_tasks : List Task → List String → List Task
found_tasks tasks [] = []
found_tasks tasks (i ∷ is) = elim (by_id tasks i) [
  | none ↦ found_tasks tasks is
  | some t ↦ t ∷ found_tasks tasks is
]

one_or_none : Option Task → List Task
one_or_none none = []
one_or_none (some t) = t ∷ []

first_group : List (List String) → List String
first_group [] = []
first_group (g ∷ gs) = g

unfoldable pub select_task_wave : List Task → ℕ → List Task
unfolding one_or_none first_group
select_task_wave tasks limit =
    if leb limit 1
    then one_or_none (select_next_task tasks)
    else elim (candidates Status.review tasks) [
      | t ∷ ts ↦ take limit (t ∷ ts)
      | [] ↦ elim (candidates Status.in_progress tasks) [
        | t ∷ ts ↦ take limit (t ∷ ts)
        | [] ↦
            found_tasks tasks
              (take limit (first_group (parallel_groups (list_eligible_tasks tasks))))
      ]
    ]

-- `tasks_with_planned_plugins`: tasks that only a plugin's roadmap plans join as `todo`. The
-- planned tasks come from the plugin files; a task brings its own record.
unfoldable pub add_planned : List String → List Task → List Task
add_planned seen [] = []
add_planned seen (p ∷ planned) =
    let rest = add_planned (p.task_id ∷ seen) planned in
    let skip = add_planned seen planned in
    if contains seen p.task_id
    then skip
    else (record p { status = Status.todo; done_is_immutable = true }) ∷ rest

unfoldable pub tasks_with_planned_plugins : List Task → List Task → List Task
tasks_with_planned_plugins planned event_tasks =
    event_tasks ++ add_planned (ids event_tasks) planned
