-- ===== src/Edits.antt =====
-- `apply_edits` of src/esaa/edits.py, and the `str.count` and `str.replace` that it calls.
pub mod Places
pub mod Rewriting
pub mod Resolving
pub mod Bases
mod Samples
use esaa_event_sourcing_agen.Prelude.{
  ℕ, zero, suc, ◌-◌, String, Bool, true, false, not, ◌&&◌, Option, none, some, List, [], ◌∷◌, ◌==◌,
  if◌then◌else◌, eqb, ltb, join, has_prefix, drop_prefix, count_chars,
}
use esaa_event_sourcing_agen.Codes.{Code}
use esaa_event_sourcing_agen.Outcome.{esaa_error, Outcome, ok, raise, ◌>>=◌, ◌>>◌, guard}
use esaa_event_sourcing_agen.Json.{Json, bool, is_truthy}

-- A key that is missing, or of the wrong type where a text is wanted, is `none`.
pub record Edit : Type 0 where
  pub old_string : Option String
  pub new_string : Option String
  pub replace_all : Option Json

-- `s.count(sub)` for a `sub` that is not empty: `skip` characters of a match are still to pass.
abbrev pub count_from : String → ℕ → String → ℕ
count_from sub skip String.[] = 0
count_from sub (suc skip) (String.◌∷◌ c s) = count_from sub skip s
count_from sub zero (String.◌∷◌ c s) =
    let matched = suc (count_from sub (count_chars sub - 1) s) in
    let next = count_from sub zero s in if has_prefix sub (String.◌∷◌ c s) then matched else next

-- `s.replace(old, new)`
abbrev pub replace_from : String → String → ℕ → String → String
replace_from old new skip String.[] = String.[]
replace_from old new (suc skip) (String.◌∷◌ c s) = replace_from old new skip s
replace_from old new zero (String.◌∷◌ c s) =
    let matched = join new (replace_from old new (count_chars old - 1) s) in
    let next = String.◌∷◌ c (replace_from old new zero s) in
    if has_prefix old (String.◌∷◌ c s) then matched else next

-- `s.replace(old, new, 1)`
abbrev pub replace_first : String → String → String → String
replace_first old new String.[] = String.[]
replace_first old new (String.◌∷◌ c s) =
    let next = String.◌∷◌ c (replace_first old new s) in
    if has_prefix old (String.◌∷◌ c s) then join new (drop_prefix old (String.◌∷◌ c s)) else next

abbrev is_boolean : Option Json → Bool
is_boolean none = true
is_boolean (some (bool b)) = true
is_boolean (some _) = false

abbrev pub replaces_all : Edit → Bool
replaces_all e = elim e.replace_all [ none ↦ false | some j ↦ is_truthy j ]

text_of : Option String → Outcome String
text_of none = raise (esaa_error Code.edit_invalid)
text_of (some s) = ok s

-- `_validate_edit_item`; it gives the two texts that it found
unfoldable pub validate_edit_item : Edit → Outcome (String × String)
unfolding text_of
validate_edit_item e = do
  old ← text_of e.old_string
  new ← text_of e.new_string
  guard (not (old == "")) Code.edit_invalid
  guard (not (old == new)) Code.edit_invalid
  guard (is_boolean e.replace_all) Code.edit_invalid
  ok (old, new)

-- The rest of the body of the loop.
unfoldable pub replace_checked : Bool → String → String → String → Outcome String
replace_checked replace_all old new current = do
  let count = count_from old 0 current
  guard (not (eqb count 0)) Code.edit_target_not_found
  guard (not (ltb 1 count && not replace_all)) Code.edit_ambiguous
  ok (if replace_all then replace_from old new 0 current else replace_first old new current)

unfoldable pub apply_edit : Edit → String → Outcome String
apply_edit e current = do
  texts ← validate_edit_item e
  replace_checked (replaces_all e) texts.0 texts.1 current

unfoldable pub apply_each : List Edit → String → Outcome String
apply_each [] current = ok current
apply_each (e ∷ edits) current = do next ← apply_edit e current; apply_each edits next

unfoldable pub apply_edits : String → List Edit → Outcome String
apply_edits text [] = raise (esaa_error Code.edit_invalid)
apply_edits text (e ∷ edits) = apply_each (e ∷ edits) text
