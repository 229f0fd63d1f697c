-- ===== src/Edits/Rewriting.antt =====
-- What `apply_edits` turns a text into.
use Prim.Native.Char.{Char}
use esaa_event_sourcing_agen.Prelude.{
  ℕ, zero, suc, ◌≤◌, ◌≡◌, ◌≢◌, refl, sym, ◌∙◌, subst, String, Bool, true, false, some, List, [],
  ◌∷◌, ◌==◌, if◌then◌else◌, arith, inl, inr, ◌⊎◌, join,
}
use esaa_event_sourcing_agen.Outcome.{ok, >>=-eq-ok}
use esaa_event_sourcing_agen.Edits.{
  Edit, count_from, replace_from, replace_first, replaces_all, validate_edit_item, replace_checked,
  apply_edit, apply_each, apply_edits,
}
use esaa_event_sourcing_agen.Edits.Places.{Absent, IsFirst, nowhere, at_first, old, found}

-- From left to right, each place of `old` that does not overlap the one before it becomes `new`.
pub data Replaced (old new : String) : String → String → Type 0 where
  none_left : {text : String} → Absent old text → Replaced old new text text
  at_place :
      {text text' : String} (before after after' : String)
      → IsFirst old text before after
      → text' ≡ join before (join new after')
      → Replaced old new after after'
      → Replaced old new text text'

-- What one edit does: with `replace_all` it changes every place of `old`, of which there is one at
-- least; else it changes the first place, and `old` stands nowhere behind it.
pub data Edited (e : Edit) (text text' : String) : Type 0 where
  once :
      (old new before after : String)
      → e.old_string ≡ some old
      → e.new_string ≡ some new
      → replaces_all e ≡ false
      → IsFirst old text before after
      → Absent old after
      → text' ≡ join before (join new after)
      → Edited e text text'
  everywhere :
      (old new before after : String)
      → e.old_string ≡ some old
      → e.new_string ≡ some new
      → replaces_all e ≡ true
      → IsFirst old text before after
      → Replaced old new text text'
      → Edited e text text'

-- The edits one behind the other.
pub data EditedBy : List Edit → String → String → Type 0 where
  unedited : {text : String} → EditedBy [] text text
  then_by :
      {e : Edit} {edits : List Edit} {text next text' : String}
      → Edited e text next
      → EditedBy edits next text'
      → EditedBy (e ∷ edits) text text'

module _ (o : Char) (olds new : String) where
  -- `n` bounds the places that are left.
  replace_from-upto :
      (n : ℕ) (text : String)
      → count_from (old o olds) 0 text ≤ n
      → Replaced (old o olds) new text (replace_from (old o olds) new 0 text)
  replace_from-upto zero text c = elim (found o olds text) [
    | nowhere absent zero_count kept ↦ rw (kept new) (none_left absent)
    | at_first before after first counted acts ↦ absurd (omega (arith, counted))
  ]
  replace_from-upto (suc n) text c = elim (found o olds text) [
    | nowhere absent zero_count kept ↦ rw (kept new) (none_left absent)
    | at_first before after first counted acts ↦
        at_place before after (replace_from (old o olds) new 0 after) first (acts new).1
          (replace_from-upto n after (omega (arith, counted)))
  ]

  still-Absent : (text : String) → count_from (old o olds) 0 text ≡ 0 → Absent (old o olds) text
  still-Absent text c = elim (found o olds text) [
    | nowhere absent zero_count kept ↦ absent
    | at_first before after first counted acts ↦ absurd (omega (arith, counted))
  ]

Valid : Edit → String → String → Type 0
Valid e old new = (e.old_string ≡ some old) × (e.new_string ≡ some new) × ((old == "") ≡ false)

validate_edit_item-Valid :
    (e : Edit) (old new : String) → validate_edit_item e ≡ ok (old, new) → Valid e old new
unfolding validate_edit_item Valid
validate_edit_item-Valid e old new h = ground arith

checked_count :
    (b : Bool) (old new text text' : String)
    → replace_checked b old new text ≡ ok text'
    → (count_from old 0 text ≢ 0)
      × ((b ≡ true) ⊎ (count_from old 0 text ≤ 1))
      × ((if b then replace_from old new 0 text else replace_first old new text) ≡ text')
unfolding replace_checked
checked_count true old new text text' h = (ground arith, inl refl, ground arith)
checked_count false old new text text' h = (ground arith, inr (ground arith), ground arith)

replace_checked-Edited :
    (e : Edit) (b : Bool) (old new text text' : String)
    → replaces_all e ≡ b
    → Valid e old new
    → replace_checked b old new text ≡ ok text'
    → Edited e text text'
unfolding Valid
replace_checked-Edited e b String.[] new text text' r v h = absurd (cc (v.2))
replace_checked-Edited e b (String.◌∷◌ o olds) new text text' r v h =
    let (some_place, choice, made) = checked_count b (old o olds) new text text' h in
    elim (found o olds text) [
      | nowhere absent zero_count kept ↦ absurd (some_place zero_count)
      | at_first before after first counted acts ↦
          by_choice b r choice made first counted (acts new).0
    ]
  where
    by_choice :
        (b : Bool)
        → replaces_all e ≡ b
        → (b ≡ true) ⊎ (count_from (old o olds) 0 text ≤ 1)
        → (if b then replace_from (old o olds) new 0 text else replace_first (old o olds) new text)
          ≡ text'
        → {before after : String} → IsFirst (old o olds) text before after
        → count_from (old o olds) 0 text ≡ suc (count_from (old o olds) 0 after)
        → replace_first (old o olds) new text ≡ join before (join new after)
        → Edited e text text'
    by_choice true r c m {before} {after} first counted acts =
        everywhere (old o olds) new before after v.0 v.1 r first (
          subst (Replaced (old o olds) new text) m
            (replace_from-upto o olds new (count_from (old o olds) 0 text) text (omega arith)))
    by_choice false r (inl q) m {before} {after} first counted acts = absurd (cc)
    by_choice false r (inr q) m {before} {after} first counted acts =
        once (old o olds) new before after v.0 v.1 r first
          (still-Absent o olds new after (omega (arith, counted, q))) (sym m ∙ acts)

apply_edit-Edited :
    (e : Edit) (text text' : String) → apply_edit e text ≡ ok text' → Edited e text text'
unfolding apply_edit
apply_edit-Edited e text text' h =
    let (texts, v, r) = >>=-eq-ok (validate_edit_item e) _ h in
    replace_checked-Edited e (replaces_all e) texts.0 texts.1 text text' refl
      (validate_edit_item-Valid e texts.0 texts.1 v) r

apply_each-EditedBy :
    (edits : List Edit) (text text' : String)
    → apply_each edits text ≡ ok text'
    → EditedBy edits text text'
unfolding apply_each
apply_each-EditedBy [] text text' h =
    let p : text ≡ text' = ground arith in subst (EditedBy [] text) p unedited
apply_each-EditedBy (e ∷ edits) text text' h =
    let (next, a, r) = >>=-eq-ok (apply_edit e text) _ h in
    then_by (apply_edit-Edited e text next a) (apply_each-EditedBy edits next text' r)

-- If `apply_edits` succeeds, each edit in turn did what `Edited` says of it.
pub apply_edits-EditedBy :
    (text text' : String) (edits : List Edit)
    → apply_edits text edits ≡ ok text'
    → EditedBy edits text text'
unfolding apply_edits
apply_edits-EditedBy text text' [] h = absurd (cc)
apply_edits-EditedBy text text' (e ∷ edits) h = apply_each-EditedBy (e ∷ edits) text text' h
