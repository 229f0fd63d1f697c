-- ===== src/Log/Read.antt =====
-- What `parse_event_store` takes over from the lines.
use esaa_event_sourcing_agen.Prelude.{
  ℕ, ◌≡◌, ap, subst, String, Option, none, some, List, [], ◌∷◌, arith, not, contains, or_else, join,
  padded,
}
use esaa_event_sourcing_agen.Codes.{Code}
use esaa_event_sourcing_agen.Outcome.{ok, raise, guard, >>=-eq-ok}
use esaa_event_sourcing_agen.Event.{Event}
use esaa_event_sourcing_agen.Store.{
  RawEvent, Codec, is_canonical, normalize_legacy_event, sequence_number, present,
  validate_runner_block, check_event, decoded, parse_lines,
}

-- The event carries the number, the actor, the action and the payload that its line has once the keys
-- of old versions are moved.
pub record IsRead (k : Codec) (line : String) (e : Event) : Type 0 where
  pub raw : RawEvent
  pub loaded : k.loads line ≡ some raw
  pub same_seq : (normalize_legacy_event raw).event_seq ≡ some e.event_seq
  pub same_actor : (normalize_legacy_event raw).actor ≡ some e.actor
  pub same_action : (normalize_legacy_event raw).action ≡ some e.action
  pub same_payload : (normalize_legacy_event raw).payload ≡ some e.payload

-- The events are those of the lines, one by one.
abbrev pub AllRead : Codec → List String → List Event → Type 0
AllRead k [] [] = Unit
AllRead k (line ∷ lines) (e ∷ es) = IsRead k line e × AllRead k lines es
AllRead k _ _ = ⊥

decoded-some : (o : Option RawEvent) (raw : RawEvent) → decoded o ≡ ok raw → o ≡ some raw
unfolding decoded
decoded-some none raw h = absurd (cc)
decoded-some (some r) raw h = ap (λ x. elim x [ ok y ↦ some y | raise f ↦ some r ]) h

present-some : {A : Type 0} (o : Option A) (a : A) → present o ≡ ok a → o ≡ some a
unfolding present
present-some none a h = absurd (cc)
present-some (some b) a h = ap (λ x. elim x [ ok y ↦ some y | raise f ↦ some b ]) h

sequence_number-some :
    (o : Option ℕ) (last_seq n : ℕ) → sequence_number o last_seq ≡ ok n → o ≡ some n
unfolding sequence_number
sequence_number-some none last_seq n h = absurd (cc)
sequence_number-some (some m) last_seq n h = ground (arith, h)

check_event-IsRead :
    (k : Codec) (line : String) (seen : List String) (last_seq : ℕ) (raw : RawEvent) (e : Event)
    → k.loads line ≡ some raw
    → check_event seen last_seq raw ≡ ok e
    → IsRead k line e
unfolding check_event
check_event-IsRead k line seen last_seq raw e l h =
    let event = normalize_legacy_event raw in
    let (seq, s, h1) = >>=-eq-ok (sequence_number event.event_seq last_seq) _ h in
    let (u1, g1, h2) =
      >>=-eq-ok
        (guard (not (contains seen (or_else event.event_id (join "LEGACY-EV-" (padded 8 seq)))))
          Code.event_id_duplicate)
        _ h1 in
    let (version, v, h3) = >>=-eq-ok (present event.schema_version) _ h2 in
    let (ts, t, h4) = >>=-eq-ok (present event.ts) _ h3 in
    let (actor, a, h5) = >>=-eq-ok (present event.actor) _ h4 in
    let (action, c, h6) = >>=-eq-ok (present event.action) _ h5 in
    let (payload, p, h7) = >>=-eq-ok (present event.payload) _ h6 in
    let (u2, g2, h8) = >>=-eq-ok (guard (is_canonical action) Code.unknown_action) _ h7 in
    let (runner, r, h9) = >>=-eq-ok (validate_runner_block event.runner) _ h8 in
    subst (IsRead k line) (ap (λ o. elim o [ ok x ↦ x | raise f ↦ e ]) h9) (record {
      raw = raw;
      loaded = l;
      same_seq = sequence_number-some event.event_seq last_seq seq s;
      same_actor = present-some event.actor actor a;
      same_action = present-some event.action action c;
      same_payload = present-some event.payload payload p;
    })

pub parse_lines-AllRead :
    (k : Codec) (seen : List String) (last_seq : ℕ) (lines : List String) (events : List Event)
    → parse_lines k seen last_seq lines ≡ ok events
    → AllRead k lines events
unfolding parse_lines
parse_lines-AllRead k seen last_seq [] [] h = tt
parse_lines-AllRead k seen last_seq [] (e ∷ es) h = absurd (cc)
parse_lines-AllRead k seen last_seq (line ∷ lines) events h =
    let (raw, r, h1) = >>=-eq-ok (decoded (k.loads line)) _ h in
    let (e, c, h2) = >>=-eq-ok (check_event seen last_seq raw) _ h1 in
    let (es, p, h3) = >>=-eq-ok (parse_lines k (e.event_id ∷ seen) e.event_seq lines) _ h2 in
    let q : e ∷ es ≡ events = ground arith in
    subst (AllRead k (line ∷ lines)) q (
      check_event-IsRead k line seen last_seq raw e (decoded-some (k.loads line) raw r) c,
      parse_lines-AllRead k (e.event_id ∷ seen) e.event_seq lines es p,
    )
