-- ===== src/Scheduling/Samples.antt =====
-- The theorems about the scheduler at small lists of tasks.
use mathlib.Core.List.{Memᴰ, flatten, Perm}
use esaa_event_sourcing_agen.Prelude.{
  ◌≤◌, ◌≡◌, ◌↔◌, refl, String, true, false, none, some, List, [], ◌∷◌, map, arith, All, length,
  strip, to_slashes, drop_dots, ends_in_slash, has_prefix,
}
use esaa_event_sourcing_agen.Prelude.Sorting.{sort_by}
use esaa_event_sourcing_agen.Machine.{Status}
use esaa_event_sourcing_agen.Projector.{Task}
use esaa_event_sourcing_agen.Conflicts.{
  normalize_rel_path, normal_paths, normalize_write_set, conflict_between_sets, explain_conflict,
  distinct, is_prefix_conflict,
}
use esaa_event_sourcing_agen.Scheduling.{
  ids, by_id, candidates, first_ready, select_next_task, is_eligible, list_eligible_tasks, place,
  group_from, parallel_groups, found_tasks, select_task_wave,
}
use esaa_event_sourcing_agen.Scheduling.Groups.{Apart, parallel_groups-Apart}
use esaa_event_sourcing_agen.Scheduling.Next.{Selected, select_next_task-Selected}
use esaa_event_sourcing_agen.Scheduling.Progress.{
  IsRanked, select_next_task-none, select_next_task-not_eligible,
}
use esaa_event_sourcing_agen.Scheduling.Waves.{select_task_wave_bounds}

program : Unit {0}
unfolding strip to_slashes drop_dots ends_in_slash has_prefix sort_by normalize_rel_path
    normal_paths normalize_write_set conflict_between_sets explain_conflict distinct
    is_prefix_conflict by_id candidates first_ready select_next_task list_eligible_tasks place
    group_from parallel_groups found_tasks select_task_wave
program = tt

abbrev task : String → Status → List String → List String → Task
task task_id status depends_on files = record {
  task_id = task_id;
  task_kind = "impl";
  title = task_id;
  description = task_id;
  status = status;
  depends_on = depends_on;
  targets = [];
  outputs = record { files = some files; external_files = [] };
  done_is_immutable = true;
  is_hotfix = false;
  issue_id = none;
  fixes = none;
  scope_patch = none;
  required_verification = none;
  baseline_id = none;
  boundary_grant = none;
  plugin = none;
  assigned_to = none;
  started_at = none;
  completed_at = none;
  verification = none;
}

abbrev first : Task
first = task "T-1" Status.done [] ("docs/a.md" ∷ [])

abbrev second : Task
second = task "T-2" Status.todo ("T-1" ∷ []) ("docs/b.md" ∷ [])

abbrev third : Task
third = task "T-3" Status.todo ("T-1" ∷ []) ("docs/b.md" ∷ [])

-- It depends on a task that is not there.
abbrev dangling : Task
dangling = task "T-4" Status.todo ("T-9" ∷ []) []

abbrev board : List Task
board = third ∷ second ∷ first ∷ []

groups : parallel_groups (list_eligible_tasks board) ≡ ("T-2" ∷ []) ∷ ("T-3" ∷ []) ∷ []
unfolding program
groups = refl

abbrev inner : Task
inner = task "T-5" Status.todo [] ("src/a/" ∷ [])

abbrev outer : Task
outer = task "T-6" Status.todo [] ("src/" ∷ [])

-- The tasks of this group conflict if the later one is on the left.
nested_group : parallel_groups (inner ∷ outer ∷ []) ≡ ("T-5" ∷ "T-6" ∷ []) ∷ []
unfolding program
nested_group = refl

next : select_next_task board ≡ some second
unfolding program
next = refl

parallel_groups-Apart_example :
    (gs : List (List Task)) × (parallel_groups (second ∷ third ∷ []) ≡ map ids gs)
    × Perm (flatten gs) (second ∷ third ∷ [])
    × All Apart gs
parallel_groups-Apart_example = parallel_groups-Apart (second ∷ third ∷ [])

select_next_task-Selected_example : Memᴰ second board × Selected board second
select_next_task-Selected_example = select_next_task-Selected board second next

first-IsRanked : IsRanked (λ _. 0) (first ∷ [])
first-IsRanked t (Memᴰ.head q) d m = absurd (no_dependency (rw q at m))
  where
    no_dependency : Memᴰ d [] → ⊥
    no_dependency n = elim n [ ]
first-IsRanked t (Memᴰ.tail n) d m = elim n [ ]

all_done : select_next_task (first ∷ []) ≡ none
unfolding program
all_done = refl

select_next_task-none_example : Status.done ≡ Status.done
select_next_task-none_example =
    select_next_task-none (λ _. 0) (first ∷ []) first-IsRanked all_done first (Memᴰ.head refl)

next_dangling : select_next_task (dangling ∷ []) ≡ some dangling
unfolding program
next_dangling = refl

select_next_task-not_eligible_example :
    (is_eligible (dangling ∷ []) dangling ≡ false)
    ↔ ((d : String) × Memᴰ d ("T-9" ∷ []) × (by_id (dangling ∷ []) d ≡ none))
select_next_task-not_eligible_example =
    select_next_task-not_eligible (dangling ∷ []) dangling next_dangling refl

select_task_wave_bounds_example :
    (length (select_task_wave board 2) ≤ 2) × All (λ t. Memᴰ t board) (select_task_wave board 2)
select_task_wave_bounds_example = select_task_wave_bounds board 2 (omega arith)
