-- ===== src/Edits/Places.antt =====
-- Where `str.count` finds a text, and what the replacements do there.
use Prim.Native.Char.{Char}
use esaa_event_sourcing_agen.Prelude.{
  suc, ◌-◌, ◌≤◌, ◌≡◌, refl, ap, ◌∙◌, String, true, false, arith, Bool-cases, inl, inr, join,
  has_prefix, drop_prefix, count_chars,
}
use esaa_event_sourcing_agen.Prelude.Prefixes.{has_prefix-join, has_prefix-drop}
use esaa_event_sourcing_agen.Edits.{count_from, replace_from, replace_first}

-- `old` stands in the text between the two parts.
abbrev pub Splits : String → String → String → String → Type 0
Splits old text before after = text ≡ join before (join old after)

abbrev pub Absent : String → String → Type 0
Absent old text = (before after : String) → Splits old text before after → ⊥

-- The first place at which `old` stands in the text.
pub record IsFirst (old text before after : String) : Type 0 where
  pub splits : Splits old text before after
  pub earliest : (b a : String) → Splits old text b a → count_chars before ≤ count_chars b

count_from-skip :
    (old p r : String) → count_from old (count_chars p) (join p r) ≡ count_from old 0 r
count_from-skip old String.[] r = refl
count_from-skip old (String.◌∷◌ c p) r = count_from-skip old p r

replace_from-skip :
    (old new p r : String)
    → replace_from old new (count_chars p) (join p r) ≡ replace_from old new 0 r
replace_from-skip old new String.[] r = refl
replace_from-skip old new (String.◌∷◌ c p) r = replace_from-skip old new p r

module _ (o : Char) (olds : String) where
  abbrev pub old : String
  old = String.◌∷◌ o olds

  tail_of :
      (c : Char) (s : String)
      → String.◌∷◌ c s ≡ join old (drop_prefix old (String.◌∷◌ c s))
      → s ≡ join olds (drop_prefix olds s)
  tail_of c s h = cc

  -- Nothing matches, or there is a first match and the count goes on behind it.
  pub data Found (text : String) : Type 0 where
    nowhere :
        Absent old text
        → count_from old 0 text ≡ 0
        → ((new : String) → replace_from old new 0 text ≡ text)
        → Found text
    at_first :
        (before after : String)
        → IsFirst old text before after
        → count_from old 0 text ≡ suc (count_from old 0 after)
        → ((new : String)
            → (replace_first old new text ≡ join before (join new after))
              × (replace_from old new 0 text
                  ≡ join before (join new (replace_from old new 0 after))))
        → Found text

  empty_Absent : Absent old ""
  empty_Absent String.[] a h = cc
  empty_Absent (String.◌∷◌ x b) a h = cc

  behind_head :
      (c : Char) (s : String)
      → has_prefix old (String.◌∷◌ c s) ≡ false
      → (b a : String) → Splits old (String.◌∷◌ c s) b a
      → (b' : String) × (b ≡ String.◌∷◌ c b') × Splits old s b' a
  behind_head c s n String.[] a h = absurd (cc (ap (has_prefix old) h, has_prefix-join old a, n))
  behind_head c s n (String.◌∷◌ x b) a h = (b, cc, cc)

  less_one : count_chars old - 1 ≡ count_chars olds
  less_one = omega arith

  count_matched :
      (c : Char) (s r : String)
      → s ≡ join olds r
      → has_prefix old (String.◌∷◌ c s) ≡ true
      → count_from old 0 (String.◌∷◌ c s) ≡ suc (count_from old 0 r)
  count_matched c s r q e = rw e (
      ap suc (
        ap (λ n. count_from old n s) less_one
        ∙ ap (count_from old (count_chars olds)) q
        ∙ count_from-skip old olds r))

  replace_matched :
      (new : String) (c : Char) (s r : String)
      → s ≡ join olds r
      → has_prefix old (String.◌∷◌ c s) ≡ true
      → replace_from old new 0 (String.◌∷◌ c s) ≡ join new (replace_from old new 0 r)
  replace_matched new c s r q e = rw e (
      ap (join new) (
        ap (λ n. replace_from old new n s) less_one
        ∙ ap (replace_from old new (count_chars olds)) q
        ∙ replace_from-skip old new olds r))

  match_first :
      (c : Char) (s : String) → has_prefix old (String.◌∷◌ c s) ≡ true → Found (String.◌∷◌ c s)
  match_first c s e =
      let whole = has_prefix-drop old (String.◌∷◌ c s) e in
      let rest = tail_of c s whole in
      at_first "" (drop_prefix olds s) (record { splits = whole; earliest = λ b a h. omega arith })
        (count_matched c s (drop_prefix olds s) rest e)
        (λ new. (rw e refl, replace_matched new c s (drop_prefix olds s) rest e))

  later :
      (c : Char) (s before after : String)
      → has_prefix old (String.◌∷◌ c s) ≡ false
      → IsFirst old s before after
      → IsFirst old (String.◌∷◌ c s) (String.◌∷◌ c before) after
  later c s before after n f = record {
    splits = ap (String.◌∷◌ c) f.splits;
    earliest = λ b a h.
        let (b', e, h') = behind_head c s n b a h in
        let le = f.earliest b' a h' in rw e (omega (arith, le));
  }

  -- In every text `old` is absent, or has a first place, where both replacements act.
  pub found : (text : String) → Found text
  found String.[] = nowhere empty_Absent refl (λ new. refl)
  found (String.◌∷◌ c s) = elim (Bool-cases (has_prefix old (String.◌∷◌ c s))) [
    | inl e ↦ match_first c s e
    | inr n ↦ elim (found s) [
      | nowhere no_place zero_count kept ↦
          nowhere (λ b a h. let (b', e, h') = behind_head c s n b a h in no_place b' a h')
            (rw n zero_count) (λ new. rw n (ap (String.◌∷◌ c) (kept new)))
      | at_first before after first counted acts ↦
          at_first (String.◌∷◌ c before) after (later c s before after n first) (rw n counted)
            (λ new. (rw n (ap (String.◌∷◌ c) (acts new).0), rw n (ap (String.◌∷◌ c) (acts new).1)))
    ]
  ]
