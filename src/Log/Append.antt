-- ===== src/Log/Append.antt =====
-- What `append_lines` and `verify_appended_lines` do to the lines of the store.
use esaa_event_sourcing_agen.Prelude.{
  ◌≡◌, refl, sym, ap, String, true, false, not, ◌&&◌, ◌==◌, eq_iff, List, [], ◌∷◌, ◌++◌, is_blank,
  arith, Bool-cases, inl, inr, All, join, ends_in_line_feed,
}
use esaa_event_sourcing_agen.Store.{
  splitlines, stored_lines, has_break, written_lines, append_lines,
}
use esaa_event_sourcing_agen.Log.Lines.{
  splitlines-line, is_closed, is_closed-line_feed, stored_lines-line_feed, stored_lines-append,
}

-- A text that the store takes as one stored line.
pub record IsLine (l : String) : Type 0 where
  pub no_break : has_break l ≡ false
  pub not_blank : is_blank l ≡ false

ends_in_line_feed-is_closed : (t : String) → ends_in_line_feed t ≡ true → is_closed t ≡ true
unfolding ends_in_line_feed is_closed
ends_in_line_feed-is_closed String.[] h = refl
ends_in_line_feed-is_closed (String.◌∷◌ c String.[]) h = h
ends_in_line_feed-is_closed (String.◌∷◌ c (String.◌∷◌ d s)) h =
    ends_in_line_feed-is_closed (String.◌∷◌ d s) h

join_assoc : (a b c : String) → join (join a b) c ≡ join a (join b c)
join_assoc String.[] b c = refl
join_assoc (String.◌∷◌ x a) b c = ap (String.◌∷◌ x) (join_assoc a b c)

one_stored_line : (l : String) → IsLine l → stored_lines (join l "\n") ≡ l ∷ []
unfolding stored_lines
one_stored_line l h = rw (splitlines-line l h.no_break, h.not_blank) refl

stored_nothing : stored_lines "" ≡ []
unfolding stored_lines splitlines
stored_nothing = refl

stored_lines-written_lines :
    (lines : List String) → All IsLine lines → stored_lines (written_lines lines) ≡ lines
unfolding written_lines
stored_lines-written_lines [] h = stored_nothing
stored_lines-written_lines (l ∷ ls) h = rw (sym (join_assoc l "\n" (written_lines ls))) (
    rw
      (
        stored_lines-append (join l "\n") (written_lines ls) (is_closed-line_feed l),
        one_stored_line l h.0,
        stored_lines-written_lines ls h.1,
      )
      refl)

closed_empty : (t : String) → (t == "") ≡ true → is_closed t ≡ true
unfolding is_closed
closed_empty t e = rw ((eq_iff t "").0 e) refl

-- Behind a text whose last line is open, the separator keeps the lines apart.
pub stored_lines-append_lines :
    (text : String) (lines : List String)
    → All IsLine lines
    → stored_lines (append_lines text lines) ≡ stored_lines text ++ lines
unfolding append_lines
stored_lines-append_lines text lines h =
    elim (Bool-cases (not (text == "") && not (ends_in_line_feed text))) [
      | inl e ↦
          rw
            (
              e,
              stored_lines-append (join text "\n") (written_lines lines) (is_closed-line_feed text),
              stored_lines-line_feed text,
            )
            (rw (stored_lines-written_lines lines h) refl)
      | inr e ↦
          let c : is_closed text ≡ true = closed e in
          rw (e, stored_lines-append text (written_lines lines) c)
            (rw (stored_lines-written_lines lines h) refl)
    ]
  where
    closed : (not (text == "") && not (ends_in_line_feed text)) ≡ false → is_closed text ≡ true
    closed e = elim (Bool-cases (text == "")) [
      | inl q ↦ closed_empty text q
      | inr q ↦ ends_in_line_feed-is_closed text (ground arith)
    ]
