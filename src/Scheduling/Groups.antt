-- ===== src/Scheduling/Groups.antt =====
-- `parallel_groups`: every eligible task is placed once, and no task of a group conflicts with a later
-- one, in this order of their write sets.
use mathlib.Core.List.{append-nil, append_assoc, flatten, perm_middle, Perm, map-append}
use mathlib.Core.List.Perm
use esaa_event_sourcing_agen.Prelude.{
  ◌≡◌, refl, ap, String, false, inl, inr, Bool-cases, if◌then◌else◌, List, [], ◌∷◌, ◌++◌, map,
  arith, All, All-append,
}
use esaa_event_sourcing_agen.Projector.{Task}
use esaa_event_sourcing_agen.Conflicts.{conflict_between_sets}
use esaa_event_sourcing_agen.Conflicts.Pairs.{conflict_between_sets-append}
use esaa_event_sourcing_agen.Scheduling.{Group, ids, write_set, place, group_from, parallel_groups}

all_files : List Task → List String
all_files [] = []
all_files (t ∷ ts) = write_set t ++ all_files ts

group_of : List Task → Group
unfolding all_files
group_of ts = record { files = all_files ts; tasks = ids ts }

all_files-append :
    (ts : List Task) (t : Task) → all_files (ts ++ t ∷ []) ≡ all_files ts ++ write_set t
unfolding all_files
all_files-append [] t = append-nil (write_set t)
all_files-append (x ∷ ts) t = rw (all_files-append ts t, append_assoc)

-- The placement with the tasks themselves in place of their ids.
place_task : Task → List (List Task) → List (List Task)
unfolding all_files
place_task t [] = (t ∷ []) ∷ []
place_task t (g ∷ gs) =
    if conflict_between_sets (all_files g) (write_set t)
    then g ∷ place_task t gs
    else (g ++ t ∷ []) ∷ gs

place_all : List (List Task) → List Task → List (List Task)
place_all gs [] = gs
place_all gs (t ∷ ts) = place_all (place_task t gs) ts

ids-append : (ts : List Task) (t : Task) → ids (ts ++ t ∷ []) ≡ ids ts ++ t.task_id ∷ []
ids-append ts t = map-append (λ (x : Task). x.task_id) ts (t ∷ [])

place-group_of :
    (t : Task) (gs : List (List Task))
    → place (write_set t) t.task_id (map group_of gs) ≡ map group_of (place_task t gs)
unfolding place place_task group_of
place-group_of t [] = rw append-nil
place-group_of t (g ∷ gs) = elim (Bool-cases (conflict_between_sets (all_files g) (write_set t))) [
  | inl e ↦ rw e (ap (λ l. group_of g ∷ l) (place-group_of t gs))
  | inr e ↦ rw e (cc (all_files-append g t, ids-append g t))
]

group_from-group_of :
    (ts : List Task) (gs : List (List Task))
    → group_from (map group_of gs) ts ≡ map group_of (place_all gs ts)
unfolding group_from place_all
group_from-group_of [] gs = refl
group_from-group_of (t ∷ ts) gs = rw place-group_of (group_from-group_of ts (place_task t gs))

-- No task's write set, on the left, conflicts with that of a task that stands behind it.
abbrev pub Apart : List Task → Type 0
Apart [] = Unit
Apart (t ∷ ts) = All (λ u. conflict_between_sets (write_set t) (write_set u) ≡ false) ts × Apart ts

Apart-append :
    (ts : List Task) (t : Task)
    → Apart ts
    → conflict_between_sets (all_files ts) (write_set t) ≡ false
    → Apart (ts ++ t ∷ [])
unfolding all_files
Apart-append [] t a h = (tt, tt)
Apart-append (x ∷ ts) t a h =
    let split = conflict_between_sets-append (write_set x) (all_files ts) (write_set t) in
    (
      All-append (λ u. conflict_between_sets (write_set x) (write_set u) ≡ false) ts (t ∷ []) a.0
          (ground arith, tt),
      Apart-append ts t a.1 (ground arith),
    )

place_task-Apart : (t : Task) (gs : List (List Task)) → All Apart gs → All Apart (place_task t gs)
unfolding place_task
place_task-Apart t [] h = ((tt, tt), tt)
place_task-Apart t (g ∷ gs) h =
    elim (Bool-cases (conflict_between_sets (all_files g) (write_set t))) [
      | inl e ↦ rw e (h.0, place_task-Apart t gs h.1)
      | inr e ↦ rw e (Apart-append g t h.0 e, h.1)
    ]

place_task-perm :
    (t : Task) (gs : List (List Task)) → Perm (flatten (place_task t gs)) (t ∷ flatten gs)
unfolding place_task flatten
place_task-perm t [] = Perm.refl (t ∷ [])
place_task-perm t (g ∷ gs) = elim (Bool-cases (conflict_between_sets (all_files g) (write_set t))) [
  | inl e ↦
      rw e (Perm.trans (Perm.append_left g (place_task-perm t gs)) (perm_middle g (flatten gs)))
  | inr e ↦ rw (e, append_assoc) (perm_middle g (flatten gs))
]

place_all-Apart :
    (ts : List Task) (gs : List (List Task)) → All Apart gs → All Apart (place_all gs ts)
unfolding place_all
place_all-Apart [] gs h = h
place_all-Apart (t ∷ ts) gs h = place_all-Apart ts (place_task t gs) (place_task-Apart t gs h)

place_all-perm :
    (ts : List Task) (gs : List (List Task)) → Perm (flatten (place_all gs ts)) (ts ++ flatten gs)
unfolding place_all
place_all-perm [] gs = Perm.refl (flatten gs)
place_all-perm (t ∷ ts) gs =
    Perm.trans (place_all-perm ts (place_task t gs))
      (Perm.trans (Perm.append_left ts (place_task-perm t gs)) (perm_middle ts (flatten gs)))

ids_of_groups :
    (gs : List (List Task)) → map (λ (g : Group). g.tasks) (map group_of gs) ≡ map ids gs
unfolding group_of
ids_of_groups [] = refl
ids_of_groups (g ∷ gs) = ap (λ l. ids g ∷ l) (ids_of_groups gs)

all_placed-perm : (ts : List Task) → Perm (flatten (place_all [] ts)) ts
unfolding flatten
all_placed-perm ts = rw append-nil at (place_all-perm ts [])

-- The groups are the ids of lists of tasks that hold every eligible task as often as it was given,
-- and for two tasks of a list `conflict_between_sets` finds no conflict with the write set of the
-- earlier one on the left. The opposite order is not excluded.
pub parallel_groups-Apart :
    (eligible : List Task)
    → (gs : List (List Task)) × (parallel_groups eligible ≡ map ids gs)
      × Perm (flatten gs) eligible
      × All Apart gs
unfolding parallel_groups
parallel_groups-Apart eligible = (
  place_all [] eligible,
  rw (group_from-group_of eligible []) (ids_of_groups (place_all [] eligible)),
  all_placed-perm eligible,
  place_all-Apart eligible [] tt,
)
