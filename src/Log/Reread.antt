-- ===== src/Log/Reread.antt =====
-- What the prepared events keep, and the hash chain of the store that they are appended to.
use esaa_event_sourcing_agen.Prelude.{
  ℕ, zero, suc, ◌+◌, ◌≤◌, ◌<◌, ◌≡◌, refl, sym, ap, subst, ◌∙◌, String, true, false, ◌==◌, Option,
  none, some, List, [], ◌∷◌, ◌++◌, arith, Bool-cases, Option-cases, inl, inr, All, length, ltb,
  or_else, truthy,
}
use esaa_event_sourcing_agen.Outcome.{ok}
use esaa_event_sourcing_agen.Event.{Event}
use esaa_event_sourcing_agen.Store.{
  Codec, is_anchor, follows, find_anchor, anchor_hash, validate_links, validate_anchor,
  validate_hash_chain, latest_hash, lift_role, lift_roles, link, link_events, take_lines,
  prepare_events_for_append,
}
use esaa_event_sourcing_agen.Log.Accepted.{Accepted}
use esaa_event_sourcing_agen.Log.Chained.{
  HasDigests, last_link, validate_links-append, latest_hash-links, latest_hash-append,
  link_events-links,
}

-- What the preparation of an event leaves as it is.
pub record IsKept (e f : Event) : Type 0 where
  pub same_seq : f.event_seq ≡ e.event_seq
  pub same_id : f.event_id ≡ e.event_id
  pub same_action : f.action ≡ e.action
  pub same_runner : f.runner ≡ e.runner

abbrev pub Kept : List Event → List Event → Type 0
Kept [] [] = Unit
Kept (e ∷ es) (f ∷ fs) = IsKept e f × Kept es fs
Kept _ _ = ⊥

lift_role-IsKept : (e : Event) → IsKept e (lift_role e)
unfolding lift_role
lift_role-IsKept e = ground arith

link-IsKept :
    (k : Codec) (prev : Option String) (e f : Event) → IsKept e f → IsKept e (link k prev f)
unfolding link
link-IsKept k prev e f h = record {
  same_seq = h.same_seq;
  same_id = h.same_id;
  same_action = h.same_action;
  same_runner = h.same_runner;
}

lift_roles-Kept : (es : List Event) → Kept es (lift_roles es)
lift_roles-Kept [] = tt
lift_roles-Kept (e ∷ es) = (lift_role-IsKept e, lift_roles-Kept es)

link_events-Kept :
    (k : Codec) (n : ℕ) (prev : Option String) (es : List Event) → Kept es (link_events k n prev es)
unfolding link_events
link_events-Kept k n prev [] = tt
link_events-Kept k n prev (e ∷ es) = elim (Bool-cases (ltb n e.event_seq)) [
  | inl q ↦ rw q (
    link-IsKept k prev e (lift_role e) (lift_role-IsKept e),
    link_events-Kept k n (link k prev (lift_role e)).event_hash es,
  )
  | inr q ↦ rw q (lift_role-IsKept e, link_events-Kept k n prev es)
]

pub prepare-Kept :
    (k : Codec) (current new : List Event) → Kept new (prepare_events_for_append k current new)
unfolding prepare_events_for_append
prepare-Kept k current new = elim (Option-cases (find_anchor (current ++ new))) [
  | inl e ↦ rw (e, prepare_events_for_append) (lift_roles-Kept new)
  | inr (a, e) ↦ rw (e, prepare_events_for_append) (link_events-Kept k a.event_seq _ new)
]

Kept-no_anchor : (es fs : List Event) → Kept es fs → find_anchor es ≡ none → find_anchor fs ≡ none
unfolding find_anchor
Kept-no_anchor [] [] h n = refl
Kept-no_anchor [] (f ∷ fs) h n = elim h [ ]
Kept-no_anchor (e ∷ es) [] h n = elim h [ ]
Kept-no_anchor (e ∷ es) (f ∷ fs) h n =
    let m : find_anchor es ≡ none = ground arith in
    let p : is_anchor e.action ≡ false = ground arith in
    rw (Kept-no_anchor es fs h.1 m, h.0.same_action, p) refl

find_anchor-append :
    (es fs : List Event) → find_anchor fs ≡ none → find_anchor (es ++ fs) ≡ find_anchor es
unfolding find_anchor
find_anchor-append [] fs h = h
find_anchor-append (e ∷ es) fs h = rw (find_anchor-append es fs h) refl

find_anchor-bound :
    (seen : List String) (n : ℕ) (es : List Event) (a : Event)
    → Accepted seen n es
    → find_anchor es ≡ some a
    → a.event_seq ≤ n + length es
unfolding find_anchor Accepted
find_anchor-bound seen n [] a h f = absurd (cc)
find_anchor-bound seen n (e ∷ es) a h f = elim (Option-cases (find_anchor es)) [
  | inr (b, q) ↦
      let p : b ≡ a = ground arith in
      let r = find_anchor-bound (e.event_id ∷ seen) e.event_seq es a h.1 (cc (q, p)) in
      let s = h.0.numbered in omega (arith, r, s)
  | inl q ↦
      let p : e ≡ a = ground arith in
      let s = subst (λ (x : Event). x.event_seq ≡ n + 1) p h.0.numbered in omega (arith, s)
]

take_lines-append :
    (n : ℕ) (ls ms : List String) → n ≤ length ls → take_lines n (ls ++ ms) ≡ take_lines n ls
take_lines-append zero ls ms h = refl
take_lines-append (suc n) [] ms h = absurd (omega (arith, h))
take_lines-append (suc n) (l ∷ ls) ms h =
    ap (λ x. l ∷ x) (take_lines-append n ls ms (omega (arith, h)))

anchor_hash-append :
    (k : Codec) (n : ℕ) (ls ms : List String)
    → n ≤ length ls
    → anchor_hash k (ls ++ ms) n ≡ anchor_hash k ls n
unfolding anchor_hash
anchor_hash-append k n ls ms h = rw (take_lines-append n ls ms h) refl

follows-bound :
    (seq n : ℕ) (through : Option ℕ) → follows seq through ≡ true → seq ≤ n → or_else through 0 ≤ n
follows-bound seq n none f h = omega arith
follows-bound seq n (some t) f h = let p : seq ≡ t + 1 = ground arith in omega (arith, p, h)

after_bound :
    (seen : List String) (n bound : ℕ) (es fs : List Event)
    → Accepted seen n (es ++ fs)
    → bound ≤ n + length es
    → All (λ (f : Event). ltb bound f.event_seq ≡ true) fs
unfolding Accepted
after_bound seen n bound (e ∷ es) fs h b =
    let s = h.0.numbered in
    after_bound (e.event_id ∷ seen) e.event_seq bound es fs h.1 (omega (arith, s, b))
after_bound seen n bound [] [] h b = tt
after_bound seen n bound [] (f ∷ fs) h b =
    let s = h.0.numbered in
    let p : bound < f.event_seq = omega (arith, s, b) in
    (ground arith, after_bound (f.event_id ∷ seen) f.event_seq bound [] fs h.1 (omega (arith, p)))

chained :
    (k : Codec) (n : ℕ) (prev : String) (current new : List Event)
    → HasDigests k
    → All (λ (f : Event). f.event_hash ≡ none) new
    → All (λ (f : Event). ltb n f.event_seq ≡ true) new
    → validate_links k n prev current ≡ ok tt
    → validate_links k n prev
        (current ++ link_events k n (latest_hash n (some prev) (current ++ new)) new)
      ≡ ok tt
chained k n prev current new d plain behind v =
    rw
      (
        latest_hash-append k n (some prev) current new plain,
        latest_hash-links k n d prev current v,
        validate_links-append k n prev current
            (link_events k n (some (last_link k n prev current)) new) v,
      )
      (link_events-links k n (last_link k n prev current) new behind)

no_chain :
    (k : Codec) (ls : List String) (es : List Event)
    → find_anchor es ≡ none
    → validate_hash_chain k ls es ≡ ok tt
unfolding validate_hash_chain
no_chain k ls es h = rw (h, validate_hash_chain) refl

one_chain :
    (k : Codec) (ls : List String) (es : List Event) (a : Event)
    → find_anchor es ≡ some a
    → validate_hash_chain k ls es ≡ validate_anchor k ls es a
unfolding validate_hash_chain
one_chain k ls es a h = rw (h, validate_hash_chain) refl

prepare_some :
    (k : Codec) (current new : List Event) (a : Event)
    → find_anchor (current ++ new) ≡ some a
    → prepare_events_for_append k current new
      ≡ link_events k a.event_seq
          (latest_hash a.event_seq (some (or_else a.payload.anchor_sha256 "None")) (current ++ new))
          new
unfolding prepare_events_for_append
prepare_some k current new a h = rw (h, prepare_events_for_append) refl

or_none : (o : Option String) → truthy o ≡ true → or_else o "None" ≡ or_else o ""
or_none o h = ground arith

module _ (k : Codec) (lines more : List String) (current new : List Event)
    (h : length current ≡ length lines) (accepted : Accepted [] 0 (current ++ new))
    (d : HasDigests k) (plain : All (λ (f : Event). f.event_hash ≡ none) new) where
  validate_anchor-append :
      (a : Event)
      → a.event_seq ≤ length current
      → validate_anchor k lines current a ≡ ok tt
      → validate_anchor k
          (lines ++ more)
          (current
            ++ link_events k a.event_seq
                (latest_hash a.event_seq
                  (some (or_else a.payload.anchor_sha256 "None"))
                  (current ++ new))
                new)
          a
        ≡ ok tt
  unfolding validate_anchor
  validate_anchor-append a bound v =
      let through = or_else a.payload.anchored_through_seq 0 in
      let declared = or_else a.payload.anchor_sha256 "" in
      let p1 : truthy a.payload.anchor_sha256 ≡ true = ground arith in
      let p2 : follows a.event_seq a.payload.anchored_through_seq ≡ true = ground arith in
      let p3 : (anchor_hash k lines through == declared) ≡ true = ground arith in
      let p4 : validate_links k a.event_seq declared current ≡ ok tt = ground arith in
      let b = follows-bound a.event_seq (length current) a.payload.anchored_through_seq p2 bound in
      rw
        (
          or_none a.payload.anchor_sha256 p1,
          p1,
          p2,
          anchor_hash-append k through lines more (omega (arith, b, h)),
          p3,
        )
        (chained k a.event_seq declared current new d plain
          (after_bound [] 0 a.event_seq current new accepted (omega (arith, bound))) p4)

  -- The chain of an accepted store goes on over the events that are prepared for it.
  pub validate_hash_chain-append :
      Accepted [] 0 current
      → find_anchor new ≡ none
      → validate_hash_chain k lines current ≡ ok tt
      → validate_hash_chain k (lines ++ more) (current ++ prepare_events_for_append k current new)
        ≡ ok tt
  validate_hash_chain-append old n v =
      let prepared = prepare_events_for_append k current new in
      let same =
        find_anchor-append current prepared
          (Kept-no_anchor new prepared (prepare-Kept k current new) n) in
      elim (Option-cases (find_anchor current)) [
        | inl e ↦ no_chain k (lines ++ more) (current ++ prepared) (same ∙ e)
        | inr (a, e) ↦
            let bound = find_anchor-bound [] 0 current a old e in
            one_chain k (lines ++ more) (current ++ prepared) a (same ∙ e)
            ∙ rw (prepare_some k current new a (find_anchor-append current new n ∙ e)) (
                validate_anchor-append a (omega (arith, bound))
                  (sym (one_chain k lines current a e) ∙ v))
      ]
