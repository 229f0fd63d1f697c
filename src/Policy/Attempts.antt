-- ===== src/Policy/Attempts.antt =====
-- Attempts over a growing log.
use mathlib.Core.List.{Memᴰ}
use esaa_event_sourcing_agen.Prelude.{
  ℕ, ◌+◌, ◌<◌, ◌≡◌, refl, String, Bool, true, ◌&&◌, Option, some, List, [], ◌∷◌, arith, Bool-cases,
  Option-cases, inl, inr, ltb,
}
use esaa_event_sourcing_agen.Event.{Event}
use esaa_event_sourcing_agen.Policy.{about_task, is_claim, last_ts, attempt_expired}

-- The time that `last_ts` gives is that of an event of the list with the property.
pub last_ts-Memᴰ :
    (parse_ts : String → Option ℕ) (p : Event → Bool) (es : List Event) (t : ℕ)
    → last_ts parse_ts p es ≡ some t
    → (e : Event) × Memᴰ e es × (p e ≡ true) × (parse_ts e.ts ≡ some t)
unfolding last_ts
last_ts-Memᴰ parse_ts p [] t h = absurd (cc)
last_ts-Memᴰ parse_ts p (e ∷ es) t h = elim (Option-cases (last_ts parse_ts p es)) [
  | inr (u, q) ↦
      let s : u ≡ t = ground arith in
      let (f, m, r, v) = last_ts-Memᴰ parse_ts p es t (ground arith) in (f, Memᴰ.tail m, r, v)
  | inl q ↦ elim (Bool-cases (p e)) [
    | inl y ↦ (e, Memᴰ.head refl, y, ground arith)
    | inr n ↦ absurd (ground arith)
  ]
]

-- An attempt counts as expired only if some event claims the task at a time that lies more than
-- the time to live before now.
pub attempt_expired-claimed :
    (parse_ts : String → Option ℕ) (es : List Event) (task_id : String) (now ttl : ℕ)
    → attempt_expired parse_ts es task_id now ttl ≡ true
    → (e : Event) × (t : ℕ) × Memᴰ e es
      × ((about_task task_id e && is_claim e.action) ≡ true)
      × (parse_ts e.ts ≡ some t)
      × (t + ttl < now)
unfolding attempt_expired
attempt_expired-claimed parse_ts es task_id now ttl h =
    elim (Option-cases (last_ts parse_ts (λ e. about_task task_id e && is_claim e.action) es)) [
      | inl q ↦ absurd (cc (rw (q, attempt_expired) at h))
      | inr (t, q) ↦
          let (e, m, p, s) =
            last_ts-Memᴰ parse_ts (λ e. about_task task_id e && is_claim e.action) es t q in
          let b : ltb (t + ttl) now ≡ true = ground arith in (e, t, m, p, s, ground arith)
    ]
