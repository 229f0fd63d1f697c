-- ===== src/Service/Stored.antt =====
-- What `_append_events_transactionally` leaves in the store when it succeeds.
use esaa_event_sourcing_agen.Prelude.{
  ℕ, zero, suc, ◌≡◌, ◌≢◌, ◌⊎◌, refl, ap, ◌∙◌, String, true, Option, none, some, List, [], ◌∷◌,
  Bool-cases, inl, inr,
}
use esaa_event_sourcing_agen.Outcome.{Outcome, ok, raise, Outcome-cases}
use esaa_event_sourcing_agen.Event.{Event}
use esaa_event_sourcing_agen.Projector.{Projection, Materialized, materialize}
use esaa_event_sourcing_agen.Store.{
  Codec, Receipt, next_event_seq, carried_out, plan_append, append_transactional,
}
use esaa_event_sourcing_agen.Log.Transaction.{IsCommitted, append_transactional-stored}
use esaa_event_sourcing_agen.Service.{
  is_stale, renumber, build_events, attempt, retry, expecting, append_events_transactionally,
}
use esaa_event_sourcing_agen.Service.Stale.{carried_out_fresh}
use esaa_event_sourcing_agen.Service.Settled.{retry_last}

renumber_some : (n : ℕ) (es : List Event) → es ≢ [] → renumber n es ≢ []
unfolding renumber
renumber_some n [] h = absurd (h refl)
renumber_some n (e ∷ es) h = λ q. cc

module _ (k : Codec) (digest : Projection → String) (now : String) (others : ℕ → String → String)
    (new : List Event) where
  -- The store as the attempt found it that succeeded: the first, and then its next sequence number is
  -- that of the base events, or the second; and the new events, renumbered to go behind the events
  -- found there, are committed.
  pub record IsStored (base : List Event) (text text' : String) : Type 0 where
    pub found : String
    pub first : Option ℕ
    pub at_attempt :
        ((found ≡ others 0 text) × (first ≡ some (next_event_seq base)))
        ⊎ ((found ≡ others 1 (others 0 text)) × (first ≡ none))
    pub committed :
        IsCommitted k digest now (λ current. ok (build_events new current)) first found text'

  stale-text :
      (build : List Event → Outcome (List Event)) (first : Option ℕ) (hash : Option String)
      (text : String)
      → is_stale (append_transactional k digest now build first hash text).result ≡ true
      → (append_transactional k digest now build first hash text).text ≡ text
  unfolding append_transactional is_stale
  stale-text build first hash text h =
      elim (Outcome-cases (plan_append k digest now build first hash text)) [
        | inl (f, e) ↦ rw (e, carried_out) refl
        | inr (plan, e) ↦
            absurd (cc (rw e at h, carried_out_fresh k digest now text (ok plan) refl))
      ]

  attempt-committed :
      (n : ℕ) (first : Option ℕ) (hash : Option String) (text : String) (r : Receipt)
      → new ≢ []
      → (attempt k digest now others new n first hash text).result ≡ ok r
      → IsCommitted k digest now
          (λ current. ok (build_events new current))
          first
          (others n text)
          (attempt k digest now others new n first hash text).text
  unfolding attempt build_events
  attempt-committed n first hash text r some_new h =
      append_transactional-stored k digest now (λ current. ok (build_events new current)) first hash
        (others n text) r
        (λ stored built b e.
          renumber_some (next_event_seq stored) new some_new
            (ap (λ o. elim o [ ok x ↦ x | raise f ↦ [] ]) b ∙ e))
        h

  stale_attempt :
      (first : Option ℕ) (hash : Option String) (text : String)
      → is_stale (attempt k digest now others new 0 first hash text).result ≡ true
      → (attempt k digest now others new 0 first hash text).text ≡ others 0 text
  unfolding attempt
  stale_attempt first hash text e =
      stale-text (λ current. ok (build_events new current)) first hash (others 0 text) e

  retry-IsStored :
      (base : List Event) (left : ℕ) (hash : Option String) (text : String) (r : Receipt)
      → new ≢ []
      → (retry k digest now others new left 0 (some (next_event_seq base)) hash text).written.result
        ≡ ok r
      → IsStored base text
          (retry k digest now others new left 0 (some (next_event_seq base)) hash text).written.text
  unfolding retry
  retry-IsStored base zero hash text r some_new h = record {
    found = others 0 text;
    first = some (next_event_seq base);
    at_attempt = inl (refl, refl);
    committed = attempt-committed 0 (some (next_event_seq base)) hash text r some_new h;
  }
  retry-IsStored base (suc left) hash text r some_new h =
      let first = some (next_event_seq base) in
      let tried = attempt k digest now others new 0 first hash text in
      elim (Bool-cases (is_stale tried.result)) [
        | inl e ↦
            rw (e, retry_last k digest now others new left 1 tried.text)
              (record {
                found = others 1 tried.text;
                first = none;
                at_attempt = inr (ap (others 1) (stale_attempt first hash text e), refl);
                committed =
                    attempt-committed 1 none none tried.text r some_new
                      (rw (e, retry_last k digest now others new left 1 tried.text) at h);
              })
        | inr e ↦ rw e (record {
          found = others 0 text;
          first = first;
          at_attempt = inl (refl, refl);
          committed = attempt-committed 0 first hash text r some_new (rw e at h);
        })
      ]

  expecting-IsStored :
      (base : List Event) (max_retries : ℕ) (text : String) (r : Receipt) (o : Outcome Materialized)
      → new ≢ []
      → (expecting k digest now others new max_retries base text o).written.result ≡ ok r
      → IsStored base text (expecting k digest now others new max_retries base text o).written.text
  unfolding expecting
  expecting-IsStored base max_retries text r (raise f) some_new h = absurd (cc)
  expecting-IsStored base max_retries text r (ok views) some_new h =
      retry-IsStored base max_retries (some views.roadmap.projection_hash_sha256) text r some_new h

  pub append_events_transactionally-IsStored :
      (max_retries : ℕ) (base : List Event) (text : String) (r : Receipt)
      → new ≢ []
      → (append_events_transactionally k digest now others new max_retries base text).written.result
        ≡ ok r
      → IsStored base text
          (append_events_transactionally k digest now others new max_retries base text).written.text
  unfolding append_events_transactionally
  append_events_transactionally-IsStored max_retries base text r some_new h =
      expecting-IsStored base max_retries text r (materialize digest now base) some_new h
