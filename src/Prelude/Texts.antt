-- ===== src/Prelude/Texts.antt =====
-- The operations on Python strings that the program uses: joining, `strip`, zero-padded decimals.
use Prim.Native.Nat.{ℕ, zero, suc, ◌-◌, ◌/◌, ◌%◌}
use Prim.Native.Char.{Char, code}
use Prim.Native.String.{String}
use mathlib.Core.Bool.{Bool, true, false, not, ◌&&◌, ◌||◌}
use mathlib.Core.Option.{Option, none, some}
use text.Mathlib.Text.{◌==◌}
use esaa_event_sourcing_agen.Prelude.Tests.{if◌then◌else◌, ltb, leb, eqb}

abbrev pub join : String → String → String
join String.[] t = t
join (String.◌∷◌ c s) t = String.◌∷◌ c (join s t)

-- `str.isspace` of one character
abbrev pub is_space : ℕ → Bool
is_space c =
    (leb 9 c && leb c 13)
    || (leb 28 c && leb c 32)
    || eqb c 133
    || eqb c 160
    || eqb c 5760
    || (leb 8192 c && leb c 8202)
    || eqb c 8232
    || eqb c 8233
    || eqb c 8239
    || eqb c 8287
    || eqb c 12288

-- `not s.strip()`
unfoldable pub is_blank : String → Bool
is_blank String.[] = true
is_blank (String.◌∷◌ c s) = is_space (code c) && is_blank s

unfoldable pub lstrip : String → String
lstrip String.[] = String.[]
lstrip (String.◌∷◌ c s) = let rest = lstrip s in if is_space (code c) then rest else String.◌∷◌ c s

unfoldable pub rstrip : String → String
unfolding is_blank
rstrip String.[] = String.[]
rstrip (String.◌∷◌ c s) = if is_blank (String.◌∷◌ c s) then String.[] else String.◌∷◌ c (rstrip s)

unfoldable pub strip : String → String
unfolding lstrip rstrip
strip s = rstrip (lstrip s)

-- `s.startswith(prefix)`
unfoldable pub has_prefix : String → String → Bool
has_prefix String.[] s = true
has_prefix (String.◌∷◌ c p) String.[] = false
has_prefix (String.◌∷◌ c p) (String.◌∷◌ d s) = eqb (code c) (code d) && has_prefix p s

-- the truth value of an optional text: neither `None` nor empty
abbrev pub truthy : Option String → Bool
truthy none = false
truthy (some s) = not (s == "")

digit : ℕ → String
digit n =
    if eqb n 0
    then "0"
    else if eqb n 1
    then "1"
    else if eqb n 2
    then "2"
    else if eqb n 3
    then "3"
    else if eqb n 4
    then "4"
    else if eqb n 5
    then "5"
    else if eqb n 6
    then "6"
    else if eqb n 7
    then "7"
    else if eqb n 8
    then "8"
    else "9"

-- Decimal digits; `n` has at most `n + 1` of them, which is the fuel given.
digits : ℕ → ℕ → String → String
unfolding digit
digits zero n acc = acc
digits (suc f) n acc =
    let rest = digits f (n / 10) (join (digit (n % 10)) acc) in
    if ltb n 10 then join (digit n) acc else rest

zeros : ℕ → String
zeros zero = ""
zeros (suc n) = join "0" (zeros n)

-- `len(s)`
abbrev pub count_chars : String → ℕ
count_chars String.[] = 0
count_chars (String.◌∷◌ c s) = suc (count_chars s)

-- `f"{n:0<width>d}"`
unfoldable pub padded : ℕ → ℕ → String
unfolding digits zeros
padded width n = let text = digits (suc n) n "" in join (zeros (width - count_chars text)) text

slash : ℕ → Char → Char
slash c d = if eqb c 92 then "/" else d

-- `path.replace("\\", "/")`
unfoldable pub to_slashes : String → String
unfolding slash
to_slashes String.[] = String.[]
to_slashes (String.◌∷◌ c s) = String.◌∷◌ (slash (code c) c) (to_slashes s)

-- `while norm.startswith("./"): norm = norm[2:]`
unfoldable pub drop_dots : String → String
drop_dots (String.◌∷◌ c (String.◌∷◌ d s)) =
    let rest = drop_dots s in
    if eqb (code c) 46 && eqb (code d) 47 then rest else String.◌∷◌ c (String.◌∷◌ d s)
drop_dots s = s

-- `s.endswith("/")`
unfoldable pub ends_in_slash : String → Bool
ends_in_slash String.[] = false
ends_in_slash (String.◌∷◌ c String.[]) = eqb (code c) 47
ends_in_slash (String.◌∷◌ c (String.◌∷◌ d s)) = ends_in_slash (String.◌∷◌ d s)

-- `s.endswith("\n")`
unfoldable pub ends_in_line_feed : String → Bool
ends_in_line_feed String.[] = false
ends_in_line_feed (String.◌∷◌ c String.[]) = eqb (code c) 10
ends_in_line_feed (String.◌∷◌ c (String.◌∷◌ d s)) = ends_in_line_feed (String.◌∷◌ d s)

-- what stands behind a prefix of that text's length
abbrev pub drop_prefix : String → String → String
drop_prefix String.[] s = s
drop_prefix (String.◌∷◌ c p) String.[] = String.[]
drop_prefix (String.◌∷◌ c p) (String.◌∷◌ d s) = drop_prefix p s
