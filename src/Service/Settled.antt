-- ===== src/Service/Settled.antt =====
-- The retries of `_append_events_transactionally` come to an end.
use esaa_event_sourcing_agen.Prelude.{
  ℕ, zero, suc, ◌≤◌, ◌≡◌, refl, String, false, Option, none, some, List, arith, Bool-cases, inl,
  inr,
}
use esaa_event_sourcing_agen.Outcome.{Outcome, ok, raise}
use esaa_event_sourcing_agen.Event.{Event}
use esaa_event_sourcing_agen.Projector.{Projection, Materialized, materialize}
use esaa_event_sourcing_agen.Store.{Codec, next_event_seq}
use esaa_event_sourcing_agen.Service.{
  Tried, is_stale, build_events, attempt, retry, expecting, append_events_transactionally,
}
use esaa_event_sourcing_agen.Service.Stale.{append_transactional_fresh, materialize_fresh}

module _ (k : Codec) (digest : Projection → String) (now : String) (others : ℕ → String → String)
    (new : List Event) where
  attempt_fresh :
      (n : ℕ) (text : String)
      → is_stale (attempt k digest now others new n none none text).result ≡ false
  unfolding attempt
  attempt_fresh n text = append_transactional_fresh k digest now (build_events new) (others n text)

  -- An attempt without expectations is the last one.
  pub retry_last :
      (left n : ℕ) (text : String)
      → retry k digest now others new left n none none text
        ≡ record { attempts = suc n; written = attempt k digest now others new n none none text }
  unfolding retry
  retry_last zero n text = refl
  retry_last (suc left) n text = rw (attempt_fresh n text) refl

  -- At most one further attempt follows the first, and it is not stale.
  Settles : ℕ → Tried → Type 0
  Settles max_retries tried =
      (tried.attempts ≤ 2) × (1 ≤ max_retries → is_stale tried.written.result ≡ false)

  retry-Settles :
      (left : ℕ) (first : Option ℕ) (hash : Option String) (text : String)
      → Settles left (retry k digest now others new left 0 first hash text)
  unfolding retry Settles
  retry-Settles zero first hash text = (omega arith, λ h. absurd (omega (arith, h)))
  retry-Settles (suc left) first hash text =
      let tried = attempt k digest now others new 0 first hash text in
      elim (Bool-cases (is_stale tried.result)) [
        | inl e ↦
            rw (e, retry_last left 1 tried.text) (omega arith, λ h. attempt_fresh 1 tried.text)
        | inr e ↦ rw e (omega arith, λ h. e)
      ]

  expecting-Settles :
      (max_retries : ℕ) (base : List Event) (text : String) (o : Outcome Materialized)
      → is_stale o ≡ false
      → Settles max_retries (expecting k digest now others new max_retries base text o)
  unfolding expecting Settles is_stale
  expecting-Settles max_retries base text (raise f) h = (omega arith, λ r. ground (arith, h))
  expecting-Settles max_retries base text (ok views) h =
      retry-Settles max_retries (some (next_event_seq base))
        (some views.roadmap.projection_hash_sha256) text

  -- If it may retry once at least, then `_append_events_transactionally` makes two attempts at most
  -- and does not end with a report of a stale state, whatever other processes do to the store.
  pub append_events_transactionally-attempts :
      (max_retries : ℕ) (base : List Event) (text : String)
      → 1 ≤ max_retries
      → ((append_events_transactionally k digest now others new max_retries base text).attempts ≤ 2)
        × (is_stale
              (append_events_transactionally k digest now others new max_retries base
                text).written.result
            ≡ false)
  unfolding append_events_transactionally Settles
  append_events_transactionally-attempts max_retries base text h =
      let (few, fresh) =
        expecting-Settles max_retries base text (materialize digest now base)
          (materialize_fresh digest now base) in
      (few, fresh h)
