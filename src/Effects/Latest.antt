-- ===== src/Effects/Latest.antt =====
-- Which effects `recover_file_effects` takes from the log.
use mathlib.Core.List.{Memᴰ}
use esaa_event_sourcing_agen.Prelude.{
  ◌≡◌, refl, subst, sym, String, true, ◌&&◌, ◌==◌, List, [], ◌∷◌, arith, All, or_else, truthy, put,
  Bool-cases, inl, inr,
}
use esaa_event_sourcing_agen.Prelude.Sorting.{sort_by, Memᴰ-sort_by}
use esaa_event_sourcing_agen.Machine.{Action}
use esaa_event_sourcing_agen.Event.{Effect, Event}
use esaa_event_sourcing_agen.Effects.{latest_effects, latest_by_path}

-- The effect stands in a file.write event of the log, under this path, and it names an artifact.
pub record Logged (events : List Event) (entry : String × Effect) : Type 0 where
  pub event : Event
  pub in_log : Memᴰ event events
  pub is_write : event.action ≡ Action.file_write
  pub in_event : Memᴰ entry.1 event.payload.effects
  pub has_path : or_else entry.1.path "" ≡ entry.0
  pub has_artifact : truthy entry.1.artifact_path ≡ true

All-put :
    (P : String × Effect → Type 0) (k : String) (v : Effect) (m : List (String × Effect))
    → P (k, v)
    → All P m
    → All P (put k v m)
unfolding put
All-put P k v [] p a = (p, tt)
All-put P k v ((j, w) ∷ m) p a = elim (Bool-cases (j == k)) [
  | inl e ↦ rw e (p, a.1)
  | inr e ↦ rw e (a.0, All-put P k v m p a.1)
]

module _ (events : List Event) (event : Event) (in_log : Memᴰ event events)
    (is_write : event.action ≡ Action.file_write) where
  effects-Logged :
      (latest : List (String × Effect)) (es : List Effect)
      → ((e : Effect) → Memᴰ e es → Memᴰ e event.payload.effects)
      → All (Logged events) latest
      → All (Logged events) (latest_effects latest es)
  unfolding latest_effects
  effects-Logged latest [] inside a = a
  effects-Logged latest (e ∷ es) inside a =
      elim (Bool-cases (truthy e.path && truthy e.artifact_path)) [
        | inr q ↦ rw q (effects-Logged latest es (λ f m. inside f (Memᴰ.tail m)) a)
        | inl q ↦ rw q (
            effects-Logged (put (or_else e.path "") e latest) es (λ f m. inside f (Memᴰ.tail m))
              (All-put (Logged events) (or_else e.path "") e latest
                (record {
                  event = event;
                  in_log = in_log;
                  is_write = is_write;
                  in_event = inside e (Memᴰ.head refl);
                  has_path = refl;
                  has_artifact = ground arith;
                })
                a))
      ]

by_path-Logged :
    (events : List Event) (latest : List (String × Effect)) (es : List Event)
    → ((e : Event) → Memᴰ e es → Memᴰ e events)
    → All (Logged events) latest
    → All (Logged events) (latest_by_path latest es)
unfolding latest_by_path
by_path-Logged events latest [] inside a = a
by_path-Logged events latest (e ∷ es) inside a =
    by_action (λ other b. by_path-Logged events other es (λ f m. inside f (Memᴰ.tail m)) b) e.action
      refl
  where
    by_action :
        ((other : List (String × Effect))
          → All (Logged events) other
          → All (Logged events) (latest_by_path other es))
        → (action : Action) → e.action ≡ action
        → All (Logged events) (latest_by_path latest (e ∷ es))
    by_action rest Action.file_write q =
        rw (q, latest_by_path)
          (rest (latest_effects latest e.payload.effects) (
            effects-Logged events e (inside e (Memᴰ.head refl)) q latest e.payload.effects
              (λ f m. m) a))
    by_action rest _ q = rw (q, latest_by_path) (rest latest a)

member : {A : Type 0} (P : A → Type 0) (x : A) (zs : List A) → Memᴰ x zs → All P zs → P x
member P x [] m b = elim m [ ]
member P x (z ∷ zs) (Memᴰ.head q) b = subst P (sym q) b.0
member P x (z ∷ zs) (Memᴰ.tail m) b = member P x zs m b.1

All-from :
    {A : Type 0} (P : A → Type 0) (xs ys : List A)
    → ((x : A) → Memᴰ x xs → Memᴰ x ys)
    → All P ys
    → All P xs
All-from P [] ys h a = tt
All-from P (x ∷ xs) ys h a =
    (member P x ys (h x (Memᴰ.head refl)) a, All-from P xs ys (λ z m. h z (Memᴰ.tail m)) a)

-- Every effect that is recovered is logged.
pub sorted-Logged :
    (events : List Event) → All (Logged events) (sort_by (λ kv. kv.0) (latest_by_path [] events))
sorted-Logged events =
    All-from (Logged events) (sort_by (λ kv. kv.0) (latest_by_path [] events))
      (latest_by_path [] events) (λ x m. Memᴰ-sort_by (λ kv. kv.0) x (latest_by_path [] events) m)
      (by_path-Logged events [] events (λ e m. m) tt)
