-- ===== src/Log/Accepted.antt =====
-- What a store that `parse_event_store` accepts is known to hold.
use esaa_event_sourcing_agen.Prelude.{
  ℕ, zero, suc, ◌+◌, ◌≡◌, refl, ap, subst, ◌∙◌, String, true, false, eq_refl, some, List, [], ◌∷◌,
  arith, length, get_elem?, contains, map, All,
}
use esaa_event_sourcing_agen.Outcome.{ok, >>=-eq-ok}
use esaa_event_sourcing_agen.Event.{Event}
use esaa_event_sourcing_agen.Log.Read.{AllRead, parse_lines-AllRead}
use esaa_event_sourcing_agen.Store.{
  RawEvent, Codec, stored_lines, is_canonical, check_event, decoded, parse_lines, parse_event_store,
  validate_hash_chain,
}

-- The event carries the next number, an id not seen before, and an action of `CANONICAL_ACTIONS`.
pub record IsNext (seen : List String) (last_seq : ℕ) (e : Event) : Type 0 where
  pub numbered : e.event_seq ≡ last_seq + 1
  pub new_id : contains seen e.event_id ≡ false
  pub known_action : is_canonical e.action ≡ true

check_event-IsNext :
    (seen : List String) (last_seq : ℕ) (raw : RawEvent) (e : Event)
    → check_event seen last_seq raw ≡ ok e
    → IsNext seen last_seq e
unfolding check_event
check_event-IsNext seen last_seq raw e h = ground arith

-- Each event is next behind the ones before it.
unfoldable pub Accepted : List String → ℕ → List Event → Type 0
Accepted seen last_seq [] = Unit
Accepted seen last_seq (e ∷ es) =
    IsNext seen last_seq e × Accepted (e.event_id ∷ seen) e.event_seq es

module _ (k : Codec) where
  pub parse_lines-Accepted :
      (seen : List String) (last_seq : ℕ) (lines : List String) (events : List Event)
      → parse_lines k seen last_seq lines ≡ ok events
      → Accepted seen last_seq events × (length events ≡ length lines)
  unfolding parse_lines Accepted
  parse_lines-Accepted seen last_seq [] [] h = (tt, refl)
  parse_lines-Accepted seen last_seq [] (e ∷ es) h = absurd (cc)
  parse_lines-Accepted seen last_seq (line ∷ lines) events h =
      let (raw, r, h1) = >>=-eq-ok (decoded (k.loads line)) _ h in
      let (e, c, h2) = >>=-eq-ok (check_event seen last_seq raw) _ h1 in
      let (es, p, h3) = >>=-eq-ok (parse_lines k (e.event_id ∷ seen) e.event_seq lines) _ h2 in
      let (rest, n) = parse_lines-Accepted (e.event_id ∷ seen) e.event_seq lines es p in
      let q : e ∷ es ≡ events = ground arith in
      subst (λ x. Accepted seen last_seq x × (length x ≡ suc (length lines))) q
        ((check_event-IsNext seen last_seq raw e c, rest), omega (arith, n))

Accepted-new :
    (seen : List String) (last_seq : ℕ) (events : List Event) (i : ℕ) (e : Event)
    → Accepted seen last_seq events
    → get_elem? events i ≡ some e
    → contains seen e.event_id ≡ false
unfolding Accepted
Accepted-new seen last_seq [] i e a h = absurd (cc)
Accepted-new seen last_seq (x ∷ es) zero e a h =
    let p : x ≡ e = ground arith in
    subst (λ (y : Event). contains seen y.event_id ≡ false) p a.0.new_id
Accepted-new seen last_seq (x ∷ es) (suc i) e a h =
    let r = Accepted-new (x.event_id ∷ seen) x.event_seq es i e a.1 h in ground arith

Accepted-distinct :
    (seen : List String) (last_seq : ℕ) (events : List Event) (i j : ℕ) (e f : Event)
    → Accepted seen last_seq events
    → get_elem? events i ≡ some e
    → get_elem? events j ≡ some f
    → e.event_id ≡ f.event_id
    → i ≡ j
unfolding Accepted
Accepted-distinct seen last_seq [] i j e f a he hf s = absurd (cc)
Accepted-distinct seen last_seq (x ∷ es) zero zero e f a he hf s = refl
Accepted-distinct seen last_seq (x ∷ es) zero (suc j) e f a he hf s =
    let r = Accepted-new (x.event_id ∷ seen) x.event_seq es j f a.1 hf in
    let p : x ≡ e = ground arith in
    absurd (cc (ap (λ (y : Event). y.event_id) p, s, r, eq_refl f.event_id))
Accepted-distinct seen last_seq (x ∷ es) (suc i) zero e f a he hf s =
    let r = Accepted-new (x.event_id ∷ seen) x.event_seq es i e a.1 he in
    let p : x ≡ f = ground arith in
    absurd (cc (ap (λ (y : Event). y.event_id) p, s, r, eq_refl e.event_id))
Accepted-distinct seen last_seq (x ∷ es) (suc i) (suc j) e f a he hf s =
    ap suc (Accepted-distinct (x.event_id ∷ seen) x.event_seq es i j e f a.1 he hf s)

pub parse_event_store-lines :
    (k : Codec) (text : String) (events : List Event)
    → parse_event_store k text ≡ ok events
    → parse_lines k [] 0 (stored_lines text) ≡ ok events
unfolding parse_event_store
parse_event_store-lines k text events h =
    let (es, p, h1) = >>=-eq-ok (parse_lines k [] 0 (stored_lines text)) _ h in
    let (u, v, h2) = >>=-eq-ok (validate_hash_chain k (stored_lines text) es) _ h1 in p ∙ h2

-- `n` and the numbers behind it
abbrev pub up_from : ℕ → ℕ → List ℕ
up_from n zero = []
up_from n (suc count) = n ∷ up_from (suc n) count

Accepted-up_from :
    (seen : List String) (last_seq : ℕ) (events : List Event)
    → Accepted seen last_seq events
    → map (λ (e : Event). e.event_seq) events ≡ up_from (last_seq + 1) (length events)
unfolding Accepted
Accepted-up_from seen last_seq [] a = refl
Accepted-up_from seen last_seq (e ∷ es) a =
    let p = a.0.numbered in
    let rest = Accepted-up_from (e.event_id ∷ seen) e.event_seq es a.1 in
    let next : e.event_seq + 1 ≡ suc (last_seq + 1) = omega (arith, p) in rw (rest, next, p) refl

Accepted-canonical :
    (seen : List String) (last_seq : ℕ) (events : List Event)
    → Accepted seen last_seq events
    → All (λ (e : Event). is_canonical e.action ≡ true) events
unfolding Accepted
Accepted-canonical seen last_seq [] a = tt
Accepted-canonical seen last_seq (e ∷ es) a =
    (a.0.known_action, Accepted-canonical (e.event_id ∷ seen) e.event_seq es a.1)

-- The events of an accepted store are those of its stored lines, one by one, with the actor, the
-- action and the payload of the line; they are numbered 1, 2, 3 ... in the order of the file, and each
-- has an action of `CANONICAL_ACTIONS`.
pub parse_event_store-Accepted :
    (k : Codec) (text : String) (events : List Event)
    → parse_event_store k text ≡ ok events
    → AllRead k (stored_lines text) events
      × (map (λ (e : Event). e.event_seq) events ≡ up_from 1 (length (stored_lines text)))
      × All (λ (e : Event). is_canonical e.action ≡ true) events
parse_event_store-Accepted k text events h =
    let parsed = parse_event_store-lines k text events h in
    let (a, n) = parse_lines-Accepted k [] 0 (stored_lines text) events parsed in
    (
      parse_lines-AllRead k [] 0 (stored_lines text) events parsed,
      Accepted-up_from [] 0 events a ∙ ap (up_from 1) n,
      Accepted-canonical [] 0 events a,
    )

-- Two positions of an accepted store whose events have the same event_id are the same position.
pub parse_event_store-distinct :
    (k : Codec) (text : String) (events : List Event) (i j : ℕ) (e f : Event)
    → parse_event_store k text ≡ ok events
    → get_elem? events i ≡ some e
    → get_elem? events j ≡ some f
    → e.event_id ≡ f.event_id
    → i ≡ j
parse_event_store-distinct k text events i j e f h he hf s =
    let (a, n) =
      parse_lines-Accepted k [] 0 (stored_lines text) events
        (parse_event_store-lines k text events h) in
    Accepted-distinct [] 0 events i j e f a he hf s
