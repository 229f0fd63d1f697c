-- ===== src/Log/Chained.antt =====
-- The hash chain over an append: `prepare_events_for_append` and `validate_hash_chain` agree.
use esaa_event_sourcing_agen.Prelude.{
  ℕ, ◌≡◌, refl, ap, String, true, false, ◌&&◌, ◌==◌, eq_iff, eq_refl, Option, none, some, List, [],
  ◌∷◌, ◌++◌, arith, Bool-cases, inl, inr, All, leb, ltb, truthy, if◌then◌else◌,
}
use esaa_event_sourcing_agen.Outcome.{ok}
use esaa_event_sourcing_agen.Event.{Event}
use esaa_event_sourcing_agen.Store.{
  Codec, compute_event_hash, is_same, validate_links, latest_hash, lift_role, link, link_events,
}

-- SHA-256 gives no empty text.
abbrev pub HasDigests : Codec → Type 0
HasDigests k = (s : String) → (k.sha256 s == "") ≡ false

-- The hash that the links behind a checked part of the chain start from.
unfoldable pub last_link : Codec → ℕ → String → List Event → String
last_link k anchor_seq prev_hash [] = prev_hash
last_link k anchor_seq prev_hash (e ∷ es) =
    let skipped = last_link k anchor_seq prev_hash es in
    let linked = last_link k anchor_seq (compute_event_hash k e) es in
    if leb e.event_seq anchor_seq then skipped else linked

pub lift_role-event_seq : (e : Event) → (lift_role e).event_seq ≡ e.event_seq
unfolding lift_role
lift_role-event_seq e = ground arith

module _ (k : Codec) (anchor_seq : ℕ) where
  pub validate_links-append :
      (prev : String) (es fs : List Event)
      → validate_links k anchor_seq prev es ≡ ok tt
      → validate_links k anchor_seq prev (es ++ fs)
        ≡ validate_links k anchor_seq (last_link k anchor_seq prev es) fs
  unfolding validate_links last_link
  validate_links-append prev [] fs h = refl
  validate_links-append prev (e ∷ es) fs h = ground (
    arith,
    validate_links-append prev es fs,
    validate_links-append (compute_event_hash k e) es fs,
  )

  is_same-eq : (o : Option String) (s : String) → is_same o s ≡ true → o ≡ some s
  is_same-eq none s h = absurd (cc)
  is_same-eq (some t) s h = ap some ((eq_iff t s).0 h)

  pub latest_hash-links :
      HasDigests k
      → (prev : String) (es : List Event) → validate_links k anchor_seq prev es ≡ ok tt
      → latest_hash anchor_seq (some prev) es ≡ some (last_link k anchor_seq prev es)
  unfolding validate_links last_link latest_hash compute_event_hash
  latest_hash-links d prev [] h = refl
  latest_hash-links d prev (e ∷ es) h = elim (Bool-cases (leb e.event_seq anchor_seq)) [
    | inl q ↦
        let n : ltb anchor_seq e.event_seq ≡ false = ground arith in
        rw (q, n) (latest_hash-links d prev es (rw (q, validate_links) at h))
    | inr q ↦
        let n : ltb anchor_seq e.event_seq ≡ true = ground arith in
        let s : is_same e.event_hash (compute_event_hash k e) ≡ true = ground arith in
        let r : validate_links k anchor_seq (compute_event_hash k e) es ≡ ok tt = ground arith in
        let t : truthy (some (compute_event_hash k e)) ≡ true = filled e in
        rw (q, n, is_same-eq e.event_hash (compute_event_hash k e) s, t)
          (latest_hash-links d (compute_event_hash k e) es r)
  ]
    where
      filled : (x : Event) → truthy (some (compute_event_hash k x)) ≡ true
      filled x = rw (d (k.canonical (record x { event_hash = none }))) refl

  pub latest_hash-append :
      (prev : Option String) (es fs : List Event)
      → All (λ (f : Event). f.event_hash ≡ none) fs
      → latest_hash anchor_seq prev (es ++ fs) ≡ latest_hash anchor_seq prev es
  unfolding latest_hash
  latest_hash-append prev [] [] h = refl
  latest_hash-append prev [] (f ∷ fs) h = ground (arith, h.0, latest_hash-append prev [] fs h.1)
  latest_hash-append prev (e ∷ es) fs h =
      latest_hash-append
        (if ltb anchor_seq e.event_seq && truthy e.event_hash then e.event_hash else prev) es fs h

  pub link_events-links :
      (prev : String) (fs : List Event)
      → All (λ (f : Event). ltb anchor_seq f.event_seq ≡ true) fs
      → validate_links k anchor_seq prev (link_events k anchor_seq (some prev) fs) ≡ ok tt
  unfolding validate_links link_events link compute_event_hash
  link_events-links prev [] h = refl
  link_events-links prev (f ∷ fs) h =
      let x = link k (some prev) (lift_role f) in
      let q : leb (lift_role f).event_seq anchor_seq ≡ false =
        omitted (lift_role-event_seq f) h.0 in
      rw (h.0, q, eq_refl prev, eq_refl (compute_event_hash k x))
        (link_events-links (compute_event_hash k x) fs h.1)
    where
      omitted : {n m : ℕ} → n ≡ m → ltb anchor_seq m ≡ true → leb n anchor_seq ≡ false
      omitted p r = ground arith
