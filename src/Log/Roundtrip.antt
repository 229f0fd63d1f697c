-- ===== src/Log/Roundtrip.antt =====
-- Appended events are read back.
use esaa_event_sourcing_agen.Prelude.{
  ℕ, ◌+◌, ◌≡◌, refl, sym, ap, subst, ◌∙◌, String, true, none, List, [], ◌∷◌, ◌++◌, map, arith, All,
  eqb,
}
use esaa_event_sourcing_agen.Outcome.{ok, >>=-eq-ok}
use esaa_event_sourcing_agen.Event.{Event}
use esaa_event_sourcing_agen.Store.{
  Codec, IsFaithful, block_of, raw_of, stored_lines, find_anchor, is_canonical,
  normalize_legacy_event, validate_runner_block, decoded, check_event, parse_lines,
  parse_event_store, validate_hash_chain, prepare_events_for_append, append_lines, append_events,
}
use esaa_event_sourcing_agen.Log.Accepted.{
  IsNext, Accepted, parse_lines-Accepted, parse_event_store-lines,
}
use esaa_event_sourcing_agen.Log.Append.{IsLine, stored_lines-append_lines}
use esaa_event_sourcing_agen.Log.Verify.{verify-append_lines}
use esaa_event_sourcing_agen.Log.Chained.{HasDigests}
use esaa_event_sourcing_agen.Log.Reread.{Kept, prepare-Kept, validate_hash_chain-append}

-- The runner block, if there is one, names its runner.
abbrev pub HasRunner : Event → Type 0
HasRunner e = validate_runner_block (block_of e.runner) ≡ ok e.runner

normalize_raw_of :
    (e : Event) → is_canonical e.action ≡ true → normalize_legacy_event (raw_of e) ≡ raw_of e
unfolding normalize_legacy_event is_canonical
normalize_raw_of e h = ground arith

check_event-raw_of :
    (seen : List String) (n : ℕ) (e : Event)
    → IsNext seen n e
    → HasRunner e
    → check_event seen n (raw_of e) ≡ ok e
unfolding check_event
check_event-raw_of seen n e h r =
    let a = h.known_action in
    let i = h.new_id in
    let s : eqb e.event_seq (n + 1) ≡ true = numbered e.event_seq n h.numbered in
    rw (normalize_raw_of e a, s, i, a, r) refl
  where
    numbered : (m k : ℕ) → m ≡ k + 1 → eqb m (k + 1) ≡ true
    numbered m k p = ground arith

module _ (k : Codec) where
  parse_lines-dumps :
      (seen : List String) (n : ℕ) (es : List Event)
      → Accepted seen n es
      → All HasRunner es
      → All (IsFaithful k) es
      → parse_lines k seen n (map k.dumps es) ≡ ok es
  unfolding parse_lines Accepted
  parse_lines-dumps seen n [] a r f = refl
  parse_lines-dumps seen n (e ∷ es) a r f =
      rw
        (
          f.0.reads_back,
          check_event-raw_of seen n e a.0 r.0,
          parse_lines-dumps (e.event_id ∷ seen) e.event_seq es a.1 r.1 f.1,
        )
        refl

  parse_lines-append :
      (seen : List String) (n : ℕ) (lines : List String) (current new : List Event)
      → parse_lines k seen n lines ≡ ok current
      → Accepted seen n (current ++ new)
      → All HasRunner new
      → All (IsFaithful k) new
      → parse_lines k seen n (lines ++ map k.dumps new) ≡ ok (current ++ new)
  unfolding parse_lines Accepted
  parse_lines-append seen n [] [] new h a r f = parse_lines-dumps seen n new a r f
  parse_lines-append seen n [] (c ∷ cs) new h a r f = absurd (cc)
  parse_lines-append seen n (line ∷ lines) current new h a r f =
      let (raw, d, h1) = >>=-eq-ok (decoded (k.loads line)) _ h in
      let (e, c, h2) = >>=-eq-ok (check_event seen n raw) _ h1 in
      let (es, p, h3) = >>=-eq-ok (parse_lines k (e.event_id ∷ seen) e.event_seq lines) _ h2 in
      let q : e ∷ es ≡ current = ground arith in
      let a' = subst (λ x. Accepted seen n (x ++ new)) (sym q) a in
      rw (d, c, parse_lines-append (e.event_id ∷ seen) e.event_seq lines es new p a'.1 r f)
        (ap (λ x. ok (x ++ new)) q)

Kept-Accepted :
    (seen : List String) (n : ℕ) (es fs : List Event)
    → Kept es fs
    → Accepted seen n es
    → Accepted seen n fs
unfolding Accepted
Kept-Accepted seen n [] [] h a = tt
Kept-Accepted seen n [] (f ∷ fs) h a = elim h [ ]
Kept-Accepted seen n (e ∷ es) [] h a = elim h [ ]
Kept-Accepted seen n (e ∷ es) (f ∷ fs) h a =
    let k = h.0 in
    (
      record {
        numbered = k.same_seq ∙ a.0.numbered;
        new_id = rw k.same_id a.0.new_id;
        known_action = rw k.same_action a.0.known_action;
      },
      rw (k.same_id, k.same_seq) (Kept-Accepted (e.event_id ∷ seen) e.event_seq es fs h.1 a.1),
    )

Kept-append : (cs es fs : List Event) → Kept es fs → Kept (cs ++ es) (cs ++ fs)
Kept-append [] es fs h = h
Kept-append (c ∷ cs) es fs h = (
  record { same_seq = refl; same_id = refl; same_action = refl; same_runner = refl },
  Kept-append cs es fs h,
)

Kept-runners : (es fs : List Event) → Kept es fs → All HasRunner es → All HasRunner fs
Kept-runners [] [] h r = tt
Kept-runners [] (f ∷ fs) h r = elim h [ ]
Kept-runners (e ∷ es) [] h r = elim h [ ]
Kept-runners (e ∷ es) (f ∷ fs) h r =
    let p = h.0.same_runner in (rw p r.0, Kept-runners es fs h.1 r.1)

faithful_lines : (k : Codec) (es : List Event) → All (IsFaithful k) es → All IsLine (map k.dumps es)
faithful_lines k [] h = tt
faithful_lines k (e ∷ es) h =
    (record { no_break = h.0.one_line; not_blank = h.0.not_blank }, faithful_lines k es h.1)

module _ (k : Codec) (text : String) (current : List Event) (e : Event) (es : List Event) where
  -- What `append_events` relies on: the new events carry on the numbering with ids not used before
  -- and known actions, none is an anchor or has a hash yet, and their lines can be read back.
  pub record IsAppendable : Type 0 where
    pub accepted : Accepted [] 0 (current ++ e ∷ es)
    pub no_anchor : find_anchor (e ∷ es) ≡ none
    pub no_hash : All (λ (f : Event). f.event_hash ≡ none) (e ∷ es)
    pub runners : All HasRunner (e ∷ es)
    pub lines : All (IsFaithful k) (prepare_events_for_append k current (e ∷ es))

  checked_chain :
      parse_event_store k text ≡ ok current
      → validate_hash_chain k (stored_lines text) current ≡ ok tt
  unfolding parse_event_store
  checked_chain h =
      let (cs, p, h1) = >>=-eq-ok (parse_lines k [] 0 (stored_lines text)) _ h in
      let (u, v, h2) = >>=-eq-ok (validate_hash_chain k (stored_lines text) cs) _ h1 in
      let q : cs ≡ current = ground arith in
      subst (λ x. validate_hash_chain k (stored_lines text) x ≡ ok tt) q v

  reread :
      HasDigests k
      → IsAppendable
      → parse_event_store k text ≡ ok current
      → parse_event_store k
          (append_lines text (map k.dumps (prepare_events_for_append k current (e ∷ es))))
        ≡ ok (current ++ prepare_events_for_append k current (e ∷ es))
  unfolding parse_event_store
  reread d a h =
      let prepared = prepare_events_for_append k current (e ∷ es) in
      let kept = prepare-Kept k current (e ∷ es) in
      let stored =
        stored_lines-append_lines text (map k.dumps prepared) (faithful_lines k prepared a.lines) in
      let parsed = parse_event_store-lines k text current h in
      let (old, n) = parse_lines-Accepted k [] 0 (stored_lines text) current parsed in
      let all_accepted =
        Kept-Accepted [] 0 (current ++ e ∷ es) (current ++ prepared)
          (Kept-append current (e ∷ es) prepared kept) a.accepted in
      let chain =
        validate_hash_chain-append k (stored_lines text) (map k.dumps prepared) current (e ∷ es) n
          a.accepted d a.no_hash old a.no_anchor (checked_chain h) in
      rw
        (
          stored,
          parse_lines-append k [] 0 (stored_lines text) current prepared parsed all_accepted
              (Kept-runners (e ∷ es) prepared kept a.runners) a.lines,
          chain,
        )
        refl

  -- On a store that parses, `append_events` succeeds for events that carry on the numbering with unused
  -- ids and known actions, have no runner block or one with a `runner_id` that is not blank, hold no
  -- anchor and no hash, and whose prepared lines are read back; the store then parses to the old
  -- events and, behind them, the prepared ones, the hash chain checked. No SHA-256 is empty.
  pub append_events-parse :
      HasDigests k
      → IsAppendable
      → parse_event_store k text ≡ ok current
      → ((append_events k text (e ∷ es)).result ≡ ok tt)
        × (parse_event_store k (append_events k text (e ∷ es)).text
            ≡ ok (current ++ prepare_events_for_append k current (e ∷ es)))
  unfolding append_events
  append_events-parse d a h =
      let prepared = prepare_events_for_append k current (e ∷ es) in
      (
        rw (h, verify-append_lines text (map k.dumps prepared) (faithful_lines k prepared a.lines))
            refl,
        rw h (reread d a h),
      )
