-- ===== src/Scheduling/Next.antt =====
-- `select_next_task`: what it returns, and that it finds work while there is any.
use mathlib.Core.List.{Memᴰ}
use esaa_event_sourcing_agen.Prelude.{
  ◌≡◌, ◌⊎◌, inl, inr, refl, sym, ap, subst, ◌∙◌, Bool, true, false, ◌&&◌, Bool-cases, some, List,
  [], ◌∷◌, arith, any, all, select,
}
use esaa_event_sourcing_agen.Prelude.Sorting.{any-sort_by, Memᴰ-sort_by}
use esaa_event_sourcing_agen.Prelude.Search.{any_ext, any-select, Memᴰ-select}
use esaa_event_sourcing_agen.Machine.{Status}
use esaa_event_sourcing_agen.Projector.{Task}
use esaa_event_sourcing_agen.Scheduling.{
  has_status, candidates, done_if_known, first_ready, select_next_task,
}

-- `select_next_task` takes a task in review, else one in progress, else one that is `todo` and
-- whose known dependencies are done.
pub data Selected (tasks : List Task) (t : Task) : Type 0 where
  to_review : t.status ≡ Status.review → Selected tasks t
  to_continue :
      t.status ≡ Status.in_progress
      → any (has_status Status.review) tasks ≡ false
      → Selected tasks t
  to_start :
      t.status ≡ Status.todo
      → any (has_status Status.review) tasks ≡ false
      → any (has_status Status.in_progress) tasks ≡ false
      → all (done_if_known tasks) t.depends_on ≡ true
      → Selected tasks t

has_status-eq : (s : Status) (t : Task) → has_status s t ≡ true → t.status ≡ s
has_status-eq Status.todo t h = ground arith
has_status-eq Status.in_progress t h = ground arith
has_status-eq Status.review t h = ground arith
has_status-eq Status.done t h = ground arith

pub any-candidates :
    (p : Task → Bool) (s : Status) (tasks : List Task)
    → any p (candidates s tasks) ≡ any (λ t. has_status s t && p t) tasks
unfolding candidates
any-candidates p s tasks =
    any-sort_by (λ t. t.task_id) p (select (has_status s) tasks) ∙ any-select p (has_status s) tasks

pub no_candidates :
    (s : Status) (tasks : List Task) → candidates s tasks ≡ [] → any (has_status s) tasks ≡ false
no_candidates s tasks h =
    any_ext (has_status s) (λ t. has_status s t && true) tasks (λ t. ground arith)
    ∙ sym (any-candidates (λ _. true) s tasks)
    ∙ ap (any (λ _. true)) h

pub Memᴰ-candidates :
    (s : Status) (tasks : List Task) (t : Task)
    → Memᴰ t (candidates s tasks)
    → Memᴰ t tasks × (t.status ≡ s)
unfolding candidates
Memᴰ-candidates s tasks t m =
    let (m', h) = Memᴰ-select (has_status s) t tasks (Memᴰ-sort_by (λ x. x.task_id) t _ m) in
    (m', has_status-eq s t h)

first_ready-eq_some :
    (tasks todo : List Task) (t : Task)
    → first_ready tasks todo ≡ some t
    → Memᴰ t todo × (all (done_if_known tasks) t.depends_on ≡ true)
unfolding first_ready
first_ready-eq_some tasks [] t h = absurd (cc)
first_ready-eq_some tasks (x ∷ todo) t h =
    elim (Bool-cases (all (done_if_known tasks) x.depends_on)) [
      | inl e ↦
          let p : x ≡ t = ground arith in
          (
            Memᴰ.head (sym p),
            subst (λ (y : Task). all (done_if_known tasks) y.depends_on ≡ true) p e,
          )
      | inr e ↦ let (m, d) = first_ready-eq_some tasks todo t (rw e at h) in (Memᴰ.tail m, d)
    ]

Selected-first_ready :
    (tasks : List Task) (t : Task)
    → candidates Status.review tasks ≡ []
    → candidates Status.in_progress tasks ≡ []
    → first_ready tasks (candidates Status.todo tasks) ≡ some t
    → Memᴰ t tasks × Selected tasks t
Selected-first_ready tasks t r p h =
    let (m, ready) = first_ready-eq_some tasks (candidates Status.todo tasks) t h in
    let (m', s) = Memᴰ-candidates Status.todo tasks t m in
    (
      m',
      to_start s (no_candidates Status.review tasks r) (no_candidates Status.in_progress tasks p)
          ready,
    )

pub List-cases : (xs : List Task) → (xs ≡ []) ⊎ ((y : Task) × (ys : List Task) × (xs ≡ y ∷ ys))
List-cases [] = inl refl
List-cases (y ∷ ys) = inr (y, ys, refl)

head-Memᴰ : (t y : Task) (ys xs : List Task) → xs ≡ y ∷ ys → some y ≡ some t → Memᴰ t xs
head-Memᴰ t y ys xs e h = let p : y ≡ t = ground arith in rw e (Memᴰ.head (sym p))

-- Whatever `select_next_task` returns is one of the tasks, chosen by the priority of `Selected`.
pub select_next_task-Selected :
    (tasks : List Task) (t : Task)
    → select_next_task tasks ≡ some t
    → Memᴰ t tasks × Selected tasks t
unfolding select_next_task
select_next_task-Selected tasks t h = elim (List-cases (candidates Status.review tasks)) [
  | inr (y, ys, e) ↦
      let (m, s) =
        Memᴰ-candidates Status.review tasks t
          (head-Memᴰ t y ys _ e (rw (e, select_next_task) at h)) in
      (m, to_review s)
  | inl r ↦ elim (List-cases (candidates Status.in_progress tasks)) [
    | inr (y, ys, e) ↦
        let (m, s) =
          Memᴰ-candidates Status.in_progress tasks t
            (head-Memᴰ t y ys _ e (rw (r, e, select_next_task) at h)) in
        (m, to_continue s (no_candidates Status.review tasks r))
    | inl p ↦ Selected-first_ready tasks t r p (rw (r, p, select_next_task) at h)
  ]
]
