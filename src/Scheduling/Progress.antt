-- ===== src/Scheduling/Progress.antt =====
-- `select_next_task` finds work while there is any, and where it and `list_eligible_tasks` differ.
use mathlib.Core.List.{Memᴰ}
use esaa_event_sourcing_agen.Prelude.{
  ◌≡◌, ◌↔◌, ◌⊎◌, inl, inr, refl, sym, subst, ◌∙◌, ℕ, zero, suc, ◌<◌, String, true, false, ◌&&◌,
  Bool-cases, Option-cases, none, some, List, [], ◌∷◌, ◌==◌, eq_iff, arith, any, all,
}
use esaa_event_sourcing_agen.Prelude.Search.{not_any, not_all, all_Memᴰ}
use esaa_event_sourcing_agen.Machine.{Status}
use esaa_event_sourcing_agen.Projector.{Task}
use esaa_event_sourcing_agen.Scheduling.{
  has_status, by_id, candidates, done_if_known, known_done, is_eligible, first_ready,
  select_next_task,
}
use esaa_event_sourcing_agen.Scheduling.Next.{
  Selected, to_review, to_continue, to_start, select_next_task-Selected, any-candidates,
  no_candidates, List-cases,
}

pub by_id-Memᴰ :
    (tasks : List Task) (k : String) (u : Task)
    → by_id tasks k ≡ some u
    → Memᴰ u tasks × (u.task_id ≡ k)
unfolding by_id
by_id-Memᴰ [] k u h = absurd (cc)
by_id-Memᴰ (t ∷ ts) k u h = elim (Option-cases (by_id ts k)) [
  | inl e ↦ elim (Bool-cases (t.task_id == k)) [
    | inl same ↦
        let p : t ≡ u = ground arith in
        (Memᴰ.head (sym p), subst (λ (x : Task). x.task_id ≡ k) p ((eq_iff t.task_id k).0 same))
    | inr other ↦ absurd (ground arith)
  ]
  | inr (v, e) ↦ let (m, i) = by_id-Memᴰ ts k u (ground arith) in (Memᴰ.tail m, i)
]

first_ready-eq_none :
    (tasks todo : List Task)
    → first_ready tasks todo ≡ none
    → any (λ t. all (done_if_known tasks) t.depends_on) todo ≡ false
unfolding first_ready
first_ready-eq_none tasks [] h = refl
first_ready-eq_none tasks (t ∷ todo) h = ground (arith, first_ready-eq_none tasks todo)

-- Nothing is in review or in progress, and no `todo` task is ready.
record IsIdle (tasks : List Task) : Type 0 where
  no_review : any (has_status Status.review) tasks ≡ false
  no_progress : any (has_status Status.in_progress) tasks ≡ false
  no_ready :
      any (λ t. has_status Status.todo t && all (done_if_known tasks) t.depends_on) tasks ≡ false

select_next_task-IsIdle : (tasks : List Task) → select_next_task tasks ≡ none → IsIdle tasks
unfolding select_next_task
select_next_task-IsIdle tasks h = elim (List-cases (candidates Status.review tasks)) [
  | inr (y, ys, e) ↦ absurd (cc (rw (e, select_next_task) at h))
  | inl r ↦ elim (List-cases (candidates Status.in_progress tasks)) [
    | inr (y, ys, e) ↦ absurd (cc (rw (r, e, select_next_task) at h))
    | inl p ↦ record {
      no_review = no_candidates Status.review tasks r;
      no_progress = no_candidates Status.in_progress tasks p;
      no_ready =
          sym (any-candidates (λ t. all (done_if_known tasks) t.depends_on) Status.todo tasks)
          ∙ first_ready-eq_none tasks (candidates Status.todo tasks)
              (rw (r, p, select_next_task) at h);
    }
  ]
]

-- `rank` puts each dependency of a task below it, so the dependencies have no cycle.
abbrev pub IsRanked : (String → ℕ) → List Task → Type 0
IsRanked rank tasks =
    (t : Task) → Memᴰ t tasks → (d : String) → Memᴰ d t.depends_on → rank d < rank t.task_id

status_todo :
    (u : Task)
    → has_status Status.review u ≡ false
    → has_status Status.in_progress u ≡ false
    → has_status Status.done u ≡ false
    → has_status Status.todo u ≡ true
status_todo u r p d = ground arith

unfinished :
    (tasks : List Task) (d : String)
    → done_if_known tasks d ≡ false
    → (u : Task) × (by_id tasks d ≡ some u) × (has_status Status.done u ≡ false)
unfinished tasks d h = elim (Option-cases (by_id tasks d)) [
  | inl e ↦ absurd (cc (rw (e, done_if_known) at h))
  | inr (u, e) ↦ (u, e, rw (e, done_if_known) at h)
]

module _ (rank : String → ℕ) (tasks : List Task) (ranked : IsRanked rank tasks)
    (idle : IsIdle tasks) where
  no_todo_below :
      (n : ℕ) (t : Task) → Memᴰ t tasks → has_status Status.todo t ≡ true → rank t.task_id < n → ⊥
  no_todo_below zero t m h r = elim r [ ]
  no_todo_below (suc n) t m h r =
      let stuck =
        not_any (λ x. has_status Status.todo x && all (done_if_known tasks) x.depends_on) t tasks
          idle.no_ready m in
      let (d, dep, open_dep) = not_all (done_if_known tasks) t.depends_on (ground arith) in
      let (u, found, not_done) = unfinished tasks d open_dep in
      let (mu, named) = by_id-Memᴰ tasks d u found in
      no_todo_below n u mu
        (status_todo u (not_any (has_status Status.review) u tasks idle.no_review mu)
          (not_any (has_status Status.in_progress) u tasks idle.no_progress mu) not_done)
        (subst (λ x. rank x < n) (sym named) (omega (arith, ranked t m d dep)))

  idle_done : (t : Task) → Memᴰ t tasks → t.status ≡ Status.done
  idle_done t m =
      let r = not_any (has_status Status.review) t tasks idle.no_review m in
      let p = not_any (has_status Status.in_progress) t tasks idle.no_progress m in
      elim (Bool-cases (has_status Status.todo t)) [
        | inl h ↦ absurd (no_todo_below (suc (rank t.task_id)) t m h (omega arith))
        | inr h ↦ ground arith
      ]

-- If the dependencies have no cycle, `select_next_task` returns nothing only when every task is
-- done.
pub select_next_task-none :
    (rank : String → ℕ) (tasks : List Task)
    → IsRanked rank tasks
    → select_next_task tasks ≡ none
    → (t : Task) → Memᴰ t tasks
    → t.status ≡ Status.done
select_next_task-none rank tasks ranked h t m =
    idle_done rank tasks ranked (select_next_task-IsIdle tasks h) t m

same_answer :
    (tasks : List Task) (d : String)
    → (done_if_known tasks d ≡ known_done tasks d) ⊎ (by_id tasks d ≡ none)
same_answer tasks d = elim (Option-cases (by_id tasks d)) [
  | inl e ↦ inr e
  | inr (u, e) ↦ inl (rw (e, done_if_known, known_done))
]

blocked_by_unknown :
    (tasks : List Task) (deps : List String)
    → all (done_if_known tasks) deps ≡ true
    → all (known_done tasks) deps ≡ false
    → (d : String) × Memᴰ d deps × (by_id tasks d ≡ none)
blocked_by_unknown tasks deps ok_deps no_deps =
    let (d, m, missing) = not_all (known_done tasks) deps no_deps in
    (
      d,
      m,
      elim (same_answer tasks d) [
        | inr e ↦ e
        | inl e ↦ absurd (cc (all_Memᴰ (done_if_known tasks) d deps ok_deps m))
      ],
    )

unknown-not_eligible :
    (tasks : List Task) (t : Task) (d : String)
    → Memᴰ d t.depends_on
    → by_id tasks d ≡ none
    → is_eligible tasks t ≡ false
unknown-not_eligible tasks t d m e = elim (Bool-cases (all (known_done tasks) t.depends_on)) [
  | inl h ↦ absurd (cc (rw (e, known_done) at (all_Memᴰ (known_done tasks) d t.depends_on h m)))
  | inr h ↦ ground arith
]

ready_of :
    (tasks : List Task) (t : Task)
    → t.status ≡ Status.todo
    → Selected tasks t
    → all (done_if_known tasks) t.depends_on ≡ true
ready_of tasks t s (to_review r) = absurd (cc)
ready_of tasks t s (to_continue p _) = absurd (cc)
ready_of tasks t s (to_start _ _ _ ready) = ready

-- A `todo` task that `select_next_task` returns is not eligible for `list_eligible_tasks` exactly
-- when one of its dependencies names no task of the list.
pub select_next_task-not_eligible :
    (tasks : List Task) (t : Task)
    → select_next_task tasks ≡ some t
    → t.status ≡ Status.todo
    → (is_eligible tasks t ≡ false) ↔ ((d : String) × Memᴰ d t.depends_on × (by_id tasks d ≡ none))
select_next_task-not_eligible tasks t h s = (
  λ n.
      blocked_by_unknown tasks t.depends_on
        (ready_of tasks t s (select_next_task-Selected tasks t h).1) (ground arith),
  λ (d, m, e). unknown-not_eligible tasks t d m e,
)
