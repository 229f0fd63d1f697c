-- ===== src/Log/Verify.antt =====
-- The check after an append: what it accepts, and the lines that it can never accept.
use esaa_event_sourcing_agen.Prelude.{
  ℕ, zero, suc, ◌-◌, ◌≡◌, refl, ap, ◌∙◌, String, true, false, ◌==◌, eq_iff, eq_refl, List, [], ◌∷◌,
  ◌++◌, map, arith, Bool-cases, inl, inr, All, any, length, length-append, not, is_blank, select,
}
use esaa_event_sourcing_agen.Codes.{Code}
use esaa_event_sourcing_agen.Outcome.{esaa_error, ok, raise}
use esaa_event_sourcing_agen.Event.{Event}
use esaa_event_sourcing_agen.Store.{
  Codec, stored_lines, has_break, drop, same_lines, verify_appended_lines, append_lines,
  prepare_events_for_append, parse_event_store, append_events,
}
use esaa_event_sourcing_agen.Log.Lines.{splitlines-All}
use esaa_event_sourcing_agen.Log.Append.{IsLine, stored_lines-append_lines}

same_lines_refl : (ls : List String) → same_lines ls ls ≡ true
same_lines_refl [] = refl
same_lines_refl (l ∷ ls) = rw (eq_refl l) (same_lines_refl ls)

same_lines-eq : (ls ms : List String) → same_lines ls ms ≡ true → ls ≡ ms
same_lines-eq [] [] h = refl
same_lines-eq [] (m ∷ ms) h = absurd (cc)
same_lines-eq (l ∷ ls) [] h = absurd (cc)
same_lines-eq (l ∷ ls) (m ∷ ms) h =
    let p : (l == m) ≡ true = ground arith in
    let q : same_lines ls ms ≡ true = ground arith in cc ((eq_iff l m).0 p, same_lines-eq ls ms q)

drop-append : (xs ys : List String) → drop (length (xs ++ ys) - length ys) (xs ++ ys) ≡ ys
drop-append xs ys = ap (λ n. drop n (xs ++ ys)) (count xs ys) ∙ drop_front xs ys
  where
    count : (us vs : List String) → (length (us ++ vs) - length vs) ≡ length us
    count us vs = omega (arith, length-append us vs)

    drop_front : (us vs : List String) → drop (length us) (us ++ vs) ≡ vs
    drop_front [] vs = refl
    drop_front (u ∷ us) vs = drop_front us vs

-- Lines with no break and no blank line pass the check behind any text.
pub verify-append_lines :
    (text : String) (lines : List String)
    → All IsLine lines
    → verify_appended_lines (append_lines text lines) lines ≡ ok tt
unfolding verify_appended_lines
verify-append_lines text [] h = refl
verify-append_lines text (l ∷ ls) h =
    rw
      (
        stored_lines-append_lines text (l ∷ ls) h,
        drop-append (stored_lines text) (l ∷ ls),
        same_lines_refl (l ∷ ls),
      )
      refl

unbroken : (ls : List String) → All (λ l. has_break l ≡ false) ls → any has_break ls ≡ false
unbroken [] h = refl
unbroken (l ∷ ls) h = ground (arith, h.0, unbroken ls h.1)

drop-All :
    (n : ℕ) (ls : List String)
    → All (λ l. has_break l ≡ false) ls
    → All (λ l. has_break l ≡ false) (drop n ls)
drop-All zero ls h = h
drop-All (suc n) [] h = tt
drop-All (suc n) (l ∷ ls) h = drop-All n ls h.1

stored_lines-unbroken : (text : String) → All (λ l. has_break l ≡ false) (stored_lines text)
unfolding stored_lines
stored_lines-unbroken text = kept _ (splitlines-All text)
  where
    kept :
        (ls : List String)
        → All (λ l. has_break l ≡ false) ls
        → All (λ l. has_break l ≡ false) (select (λ l. not (is_blank l)) ls)
    kept [] h = tt
    kept (l ∷ ls) h = elim (Bool-cases (not (is_blank l))) [
      | inl e ↦ rw e (h.0, kept ls h.1)
      | inr e ↦ rw e (kept ls h.1)
    ]

pub verify-broken :
    (text : String) (lines : List String)
    → any has_break lines ≡ true
    → verify_appended_lines text lines ≡ raise (esaa_error Code.append_verify_failed)
unfolding verify_appended_lines
verify-broken text [] h = absurd (cc)
verify-broken text (l ∷ ls) h =
    let actual = stored_lines text in
    let n = length actual - length (l ∷ ls) in
    elim (Bool-cases (same_lines (drop n actual) (l ∷ ls))) [
      | inl e ↦
          let clean = unbroken (drop n actual) (drop-All n actual (stored_lines-unbroken text)) in
          absurd (cc (same_lines-eq (drop n actual) (l ∷ ls) e, clean, h))
      | inr e ↦ rw e refl
    ]

-- If the line of an event that is appended holds a break, which `json.dumps` with
-- `ensure_ascii=False` leaves in it for U+0085, U+2028 and U+2029, then `append_events` raises
-- APPEND_VERIFY_FAILED, and the lines are in the store all the same.
pub append_events-broken :
    (k : Codec) (text : String) (current : List Event) (e : Event) (es : List Event)
    → parse_event_store k text ≡ ok current
    → any has_break (map k.dumps (prepare_events_for_append k current (e ∷ es))) ≡ true
    → ((append_events k text (e ∷ es)).result ≡ raise (esaa_error Code.append_verify_failed))
      × ((append_events k text (e ∷ es)).text
          ≡ append_lines text (map k.dumps (prepare_events_for_append k current (e ∷ es))))
unfolding append_events
append_events-broken k text current e es h b = rw h (
  rw
      (verify-broken
        (append_lines text (map k.dumps (prepare_events_for_append k current (e ∷ es))))
        (map k.dumps (prepare_events_for_append k current (e ∷ es))) b)
      refl,
  refl,
)
