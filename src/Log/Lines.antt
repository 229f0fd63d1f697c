-- ===== src/Log/Lines.antt =====
-- The lines of a text that is appended to.
use Prim.Native.Char.{Char, code}
use mathlib.Core.List.{append-nil}
use esaa_event_sourcing_agen.Prelude.{
  ◌≡◌, refl, ◌∙◌, String, Bool, true, false, not, ◌&&◌, List, [], ◌∷◌, ◌++◌, select, is_blank,
  arith, Bool-cases, inl, inr, ◌⊎◌, All, join, eqb,
}
use esaa_event_sourcing_agen.Store.{is_break, cons_first, splitlines, stored_lines, has_break}

cons_first-All :
    (c : Char) (ls : List String)
    → is_break (code c) ≡ false
    → All (λ s. has_break s ≡ false) ls
    → All (λ s. has_break s ≡ false) (cons_first c ls)
unfolding has_break
cons_first-All c [] n h = (ground arith, tt)
cons_first-All c (l ∷ ls) n h = (ground arith, h.1)

-- No line that `splitlines` gives holds a break.
pub splitlines-All : (s : String) → All (λ l. has_break l ≡ false) (splitlines s)
unfolding splitlines has_break
splitlines-All String.[] = tt
splitlines-All (String.◌∷◌ c String.[]) = elim (Bool-cases (is_break (code c))) [
  | inl e ↦ rw e (refl, tt)
  | inr e ↦ rw e (rw e refl, tt)
]
splitlines-All (String.◌∷◌ c (String.◌∷◌ d s)) =
    elim (Bool-cases (eqb (code c) 13 && eqb (code d) 10)) [
      | inl e ↦ rw e (refl, splitlines-All s)
      | inr e ↦ elim (Bool-cases (is_break (code c))) [
        | inl b ↦ rw (e, b) (refl, splitlines-All (String.◌∷◌ d s))
        | inr b ↦ rw (e, b) (cons_first-All c _ b (splitlines-All (String.◌∷◌ d s)))
      ]
    ]

-- The text is empty or ends in a line feed.
unfoldable pub is_closed : String → Bool
is_closed String.[] = true
is_closed (String.◌∷◌ c String.[]) = eqb (code c) 10
is_closed (String.◌∷◌ c (String.◌∷◌ d s)) = is_closed (String.◌∷◌ d s)

closed_tail : (c : Char) (s : String) → is_closed (String.◌∷◌ c s) ≡ true → is_closed s ≡ true
unfolding is_closed
closed_tail c String.[] h = refl
closed_tail c (String.◌∷◌ d s) h = h

cons_first-cons :
    (c : Char) (ls : List String) → (x : String) × (xs : List String) × (cons_first c ls ≡ x ∷ xs)
cons_first-cons c [] = (String.◌∷◌ c String.[], [], refl)
cons_first-cons c (l ∷ ls) = (String.◌∷◌ c l, ls, refl)

splitlines-cons :
    (c : Char) (s : String)
    → (x : String) × (xs : List String) × (splitlines (String.◌∷◌ c s) ≡ x ∷ xs)
unfolding splitlines
splitlines-cons c String.[] = elim (Bool-cases (is_break (code c))) [
  | inl e ↦ (String.[], [], rw e)
  | inr e ↦ (String.◌∷◌ c String.[], [], rw e)
]
splitlines-cons c (String.◌∷◌ d s) = elim (Bool-cases (eqb (code c) 13 && eqb (code d) 10)) [
  | inl e ↦ (String.[], splitlines s, rw e)
  | inr e ↦ elim (Bool-cases (is_break (code c))) [
    | inl b ↦ (String.[], splitlines (String.◌∷◌ d s), rw (e, b))
    | inr b ↦
        let (x, xs, p) = cons_first-cons c (splitlines (String.◌∷◌ d s)) in (x, xs, rw (e, b) p)
  ]
]

cons_first-append :
    (c d : Char) (s : String) (ys : List String)
    → cons_first c (splitlines (String.◌∷◌ d s) ++ ys)
      ≡ cons_first c (splitlines (String.◌∷◌ d s)) ++ ys
cons_first-append c d s ys = let (x, xs, p) = splitlines-cons d s in rw p

line_feed :
    (c : Char) (u : String)
    → eqb (code c) 10 ≡ true
    → splitlines (String.◌∷◌ c u) ≡ String.[] ∷ splitlines u
unfolding splitlines
line_feed c String.[] h = ground arith
line_feed c (String.◌∷◌ d u) h = ground arith

splitlines-append :
    (t u : String) → is_closed t ≡ true → splitlines (join t u) ≡ splitlines t ++ splitlines u
unfolding is_closed splitlines
splitlines-append String.[] u h = refl
splitlines-append (String.◌∷◌ c String.[]) u h = line_feed c u h ∙ ground arith
splitlines-append (String.◌∷◌ c (String.◌∷◌ d s)) u h =
    elim (Bool-cases (eqb (code c) 13 && eqb (code d) 10)) [
      | inl e ↦ rw (e, splitlines-append s u (closed_tail d s h))
      | inr e ↦ elim (Bool-cases (is_break (code c))) [
        | inl b ↦ rw (e, b, splitlines-append (String.◌∷◌ d s) u h)
        | inr b ↦
            rw (e, b, splitlines-append (String.◌∷◌ d s) u h)
              (cons_first-append c d s (splitlines u))
      ]
    ]

no_return : (c : Char) → is_break (code c) ≡ false → eqb (code c) 13 ≡ false
no_return c h = ground arith

-- One written line, with the line feed behind it.
pub splitlines-line : (l : String) → has_break l ≡ false → splitlines (join l "\n") ≡ l ∷ []
unfolding splitlines has_break
splitlines-line String.[] h = refl
splitlines-line (String.◌∷◌ c String.[]) h =
    let n : is_break (code c) ≡ false = ground arith in rw (no_return c n, n)
splitlines-line (String.◌∷◌ c (String.◌∷◌ d s)) h =
    let n : is_break (code c) ≡ false = ground arith in
    let rest : has_break (String.◌∷◌ d s) ≡ false = ground arith in
    rw (no_return c n, n, splitlines-line (String.◌∷◌ d s) rest)

-- A line feed behind a text adds no line but, at most, an empty one.
abbrev OneBlank : String → Type 0
OneBlank t =
    (splitlines (join t "\n") ≡ splitlines t) ⊎ (splitlines (join t "\n") ≡ splitlines t ++ "" ∷ [])

one_blank : (t : String) → OneBlank t
unfolding splitlines
one_blank String.[] = inr refl
one_blank (String.◌∷◌ c String.[]) = elim (Bool-cases (eqb (code c) 13)) [
  | inl r ↦ inl (ground arith)
  | inr n ↦ elim (Bool-cases (is_break (code c))) [
    | inl b ↦ inr (rw (n, b))
    | inr b ↦ inl (rw (n, b))
  ]
]
one_blank (String.◌∷◌ c (String.◌∷◌ d s)) = elim (Bool-cases (eqb (code c) 13 && eqb (code d) 10)) [
  | inl e ↦ elim (one_blank s) [ inl p ↦ inl (rw (e, p)) | inr p ↦ inr (rw (e, p)) ]
  | inr e ↦ elim (Bool-cases (is_break (code c))) [
    | inl b ↦ elim (one_blank (String.◌∷◌ d s)) [
      | inl p ↦ inl (rw (e, b, p))
      | inr p ↦ inr (rw (e, b, p))
    ]
    | inr b ↦ elim (one_blank (String.◌∷◌ d s)) [
      | inl p ↦ inl (rw (e, b, p))
      | inr p ↦ inr (rw (e, b, p) (cons_first-append c d s ("" ∷ [])))
    ]
  ]
]

select-append :
    (xs ys : List String)
    → select (λ l. not (is_blank l)) (xs ++ ys)
      ≡ select (λ l. not (is_blank l)) xs ++ select (λ l. not (is_blank l)) ys
select-append [] ys = refl
select-append (x ∷ xs) ys = ground (arith, select-append xs ys)

pub stored_lines-line_feed : (t : String) → stored_lines (join t "\n") ≡ stored_lines t
unfolding stored_lines is_blank
stored_lines-line_feed t = elim (one_blank t) [
  | inl p ↦ rw p
  | inr p ↦ rw (p, select-append (splitlines t) ("" ∷ [])) (append-nil _)
]

pub is_closed-line_feed : (t : String) → is_closed (join t "\n") ≡ true
unfolding is_closed
is_closed-line_feed String.[] = refl
is_closed-line_feed (String.◌∷◌ c String.[]) = refl
is_closed-line_feed (String.◌∷◌ c (String.◌∷◌ d s)) = is_closed-line_feed (String.◌∷◌ d s)

pub stored_lines-append :
    (t u : String) → is_closed t ≡ true → stored_lines (join t u) ≡ stored_lines t ++ stored_lines u
unfolding stored_lines
stored_lines-append t u h =
    rw (splitlines-append t u h) (select-append (splitlines t) (splitlines u))
