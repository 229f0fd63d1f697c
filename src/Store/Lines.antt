-- ===== src/Store/Lines.antt =====
-- `str.splitlines` and the non-blank lines of the event store's text (src/esaa/store.py).
use Prim.Native.Char.{Char, code}
use esaa_event_sourcing_agen.Prelude.{
  ℕ, String, Bool, false, not, ◌&&◌, ◌||◌, List, [], ◌∷◌, if◌then◌else◌, eqb, leb, select, is_blank,
}

-- the characters at which `splitlines` breaks a text
abbrev pub is_break : ℕ → Bool
is_break c =
    (leb 10 c && leb c 13) || (leb 28 c && leb c 30) || eqb c 133 || (leb 8232 c && leb c 8233)

abbrev pub cons_first : Char → List String → List String
cons_first c [] = String.◌∷◌ c String.[] ∷ []
cons_first c (l ∷ ls) = String.◌∷◌ c l ∷ ls

-- A carriage return with a line feed behind it is one break.
unfoldable pub splitlines : String → List String
splitlines String.[] = []
splitlines (String.◌∷◌ c String.[]) =
    if is_break (code c) then String.[] ∷ [] else String.◌∷◌ c String.[] ∷ []
splitlines (String.◌∷◌ c (String.◌∷◌ d s)) =
    let behind = splitlines s in
    let next = splitlines (String.◌∷◌ d s) in
    if eqb (code c) 13 && eqb (code d) 10
    then String.[] ∷ behind
    else if is_break (code c)
    then String.[] ∷ next
    else cons_first c next

-- `[ln for ln in text.splitlines() if ln.strip()]`
unfoldable pub stored_lines : String → List String
stored_lines text = select (λ l. not (is_blank l)) (splitlines text)

-- Some character of the text is a break.
unfoldable pub has_break : String → Bool
has_break String.[] = false
has_break (String.◌∷◌ c s) = is_break (code c) || has_break s
