-- ===== src/Scheduling/Waves.antt =====
-- `select_task_wave`: how many tasks a wave holds, and where they come from.
use mathlib.Core.List.{Memᴰ}
use esaa_event_sourcing_agen.Prelude.{
  ◌≡◌, inl, inr, refl, ap, ℕ, zero, suc, ◌<◌, ◌≤◌, String, Bool-cases, Option-cases, Option, none,
  some, List, [], ◌∷◌, arith, leb, length, All,
}
use esaa_event_sourcing_agen.Machine.{Status}
use esaa_event_sourcing_agen.Projector.{Task}
use esaa_event_sourcing_agen.Scheduling.{
  by_id, candidates, take, found_tasks, one_or_none, first_group, parallel_groups,
  list_eligible_tasks, select_next_task, select_task_wave,
}
use esaa_event_sourcing_agen.Scheduling.Next.{
  List-cases, Memᴰ-candidates, select_next_task-Selected,
}
use esaa_event_sourcing_agen.Scheduling.Progress.{by_id-Memᴰ}

module _ {ℓ} {A : Type ℓ} where
  Memᴰ-take : (x : A) (n : ℕ) (xs : List A) → Memᴰ x (take n xs) → Memᴰ x xs
  Memᴰ-take x zero xs m = elim m [ ]
  Memᴰ-take x (suc n) [] m = elim m [ ]
  Memᴰ-take x (suc n) (y ∷ ys) (Memᴰ.head q) = Memᴰ.head q
  Memᴰ-take x (suc n) (y ∷ ys) (Memᴰ.tail m) = Memᴰ.tail (Memᴰ-take x n ys m)

  length-take : (n : ℕ) (xs : List A) → length (take n xs) ≤ n
  length-take zero xs = omega arith
  length-take (suc n) [] = omega arith
  length-take (suc n) (y ∷ ys) = omega (arith, length-take n ys)

length-found_tasks :
    (tasks : List Task) (is : List String) → length (found_tasks tasks is) ≤ length is
unfolding found_tasks
length-found_tasks tasks [] = omega arith
length-found_tasks tasks (i ∷ is) = ground (arith, length-found_tasks tasks is)

-- The three ways in which a wave is chosen.
data Chosen (tasks : List Task) (limit : ℕ) (wave : List Task) : Type 0 where
  alone : wave ≡ one_or_none (select_next_task tasks) → Chosen tasks limit wave
  of_status : (s : Status) → wave ≡ take limit (candidates s tasks) → Chosen tasks limit wave
  of_group : (is : List String) → wave ≡ found_tasks tasks (take limit is) → Chosen tasks limit wave

select_task_wave-Chosen :
    (tasks : List Task) (limit : ℕ) → Chosen tasks limit (select_task_wave tasks limit)
unfolding select_task_wave
select_task_wave-Chosen tasks limit = elim (Bool-cases (leb limit 1)) [
  | inl e ↦ alone (rw (e, select_task_wave))
  | inr many ↦ elim (List-cases (candidates Status.review tasks)) [
    | inr (y, ys, e) ↦ of_status Status.review (rw (many, e, select_task_wave))
    | inl r ↦ elim (List-cases (candidates Status.in_progress tasks)) [
      | inr (y, ys, e) ↦ of_status Status.in_progress (rw (many, r, e, select_task_wave))
      | inl p ↦
          of_group (first_group (parallel_groups (list_eligible_tasks tasks)))
            (rw (many, r, p, select_task_wave))
    ]
  ]
]

length-one_or_none : (o : Option Task) → length (one_or_none o) ≤ 1
unfolding one_or_none
length-one_or_none o = ground arith

Memᴰ-one_or_none : (o : Option Task) (t : Task) → Memᴰ t (one_or_none o) → o ≡ some t
unfolding one_or_none
Memᴰ-one_or_none none t m = elim m [ ]
Memᴰ-one_or_none (some u) t (Memᴰ.head q) = rw q
Memᴰ-one_or_none (some u) t (Memᴰ.tail m) = elim m [ ]

Memᴰ-found_tasks :
    (tasks : List Task) (is : List String) (t : Task) → Memᴰ t (found_tasks tasks is) → Memᴰ t tasks
unfolding found_tasks
Memᴰ-found_tasks tasks [] t m = elim m [ ]
Memᴰ-found_tasks tasks (i ∷ is) t m = elim (Option-cases (by_id tasks i)) [
  | inl e ↦ Memᴰ-found_tasks tasks is t (rw (e, found_tasks) at m)
  | inr (u, e) ↦
      found_or_later tasks is t u (by_id-Memᴰ tasks i u e).0 (Memᴰ-found_tasks tasks is t)
        (rw (e, found_tasks) at m)
]
  where
    found_or_later :
        (tasks : List Task) (is : List String) (t u : Task)
        → Memᴰ u tasks
        → (Memᴰ t (found_tasks tasks is) → Memᴰ t tasks)
        → Memᴰ t (u ∷ found_tasks tasks is)
        → Memᴰ t tasks
    found_or_later tasks is t u mu rec (Memᴰ.head q) = rw q mu
    found_or_later tasks is t u mu rec (Memᴰ.tail m') = rec m'

All-Memᴰ : (P : Task → Type 0) (xs : List Task) → ((t : Task) → Memᴰ t xs → P t) → All P xs
All-Memᴰ P [] h = tt
All-Memᴰ P (x ∷ xs) h = (h x (Memᴰ.head refl), All-Memᴰ P xs (λ t m. h t (Memᴰ.tail m)))

-- A wave holds at most `limit` tasks, and only tasks of the list that it is chosen from.
pub select_task_wave_bounds :
    (tasks : List Task) (limit : ℕ)
    → 0 < limit
    → (length (select_task_wave tasks limit) ≤ limit)
      × All (λ t. Memᴰ t tasks) (select_task_wave tasks limit)
select_task_wave_bounds tasks limit pos = elim (select_task_wave-Chosen tasks limit) [
  | alone e ↦ (
    omega (arith, ap length e, length-one_or_none (select_next_task tasks)),
    All-Memᴰ _ _ (λ t m. (select_next_task-Selected tasks t (Memᴰ-one_or_none _ t (rw e at m))).0),
  )
  | of_status s e ↦ (
    omega (arith, ap length e, length-take limit (candidates s tasks)),
    All-Memᴰ _ _ (λ t m. (Memᴰ-candidates s tasks t (Memᴰ-take t limit _ (rw e at m))).0),
  )
  | of_group is e ↦ (
    omega (arith, ap length e, length-found_tasks tasks (take limit is), length-take limit is),
    All-Memᴰ _ _ (λ t m. Memᴰ-found_tasks tasks (take limit is) t (rw e at m)),
  )
]
