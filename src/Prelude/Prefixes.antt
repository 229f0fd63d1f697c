-- ===== src/Prelude/Prefixes.antt =====
-- Prefixes of texts and where a text stands in another.
use Prim.Native.Char.{Char, code}
use Prim.Native.String.{String}
use Prim.Native.Nat.{ℕ, ◌+◌}
use mathlib.Core.Path.{◌≡◌, refl, ap}
use mathlib.Core.Bool.{true}
use native.Mathlib.Omega.{arith}
use text.Mathlib.TextEquality.{Char-path}
use esaa_event_sourcing_agen.Prelude.Tests.{eqb}
use esaa_event_sourcing_agen.Prelude.Texts.{join, has_prefix, drop_prefix, count_chars}

eqb_self : (n : ℕ) → eqb n n ≡ true
eqb_self n = ground arith

pub has_prefix-join : (p r : String) → has_prefix p (join p r) ≡ true
unfolding has_prefix
has_prefix-join String.[] r = refl
has_prefix-join (String.◌∷◌ c p) r = rw (eqb_self (code c), has_prefix-join p r)

code_eq : (c d : Char) → eqb (code c) (code d) ≡ true → c ≡ d
code_eq c d h = Char-path c d (ground arith)

pub has_prefix-drop : (p s : String) → has_prefix p s ≡ true → s ≡ join p (drop_prefix p s)
unfolding has_prefix
has_prefix-drop String.[] s h = refl
has_prefix-drop (String.◌∷◌ c p) String.[] h = absurd (cc)
has_prefix-drop (String.◌∷◌ c p) (String.◌∷◌ d s) h =
    let e : c ≡ d = code_eq c d (ground arith) in
    let r : s ≡ join p (drop_prefix p s) = has_prefix-drop p s (ground arith) in cc (e, r)

pub join_assoc : (a b c : String) → join (join a b) c ≡ join a (join b c)
join_assoc String.[] b c = refl
join_assoc (String.◌∷◌ x a) b c = ap (String.◌∷◌ x) (join_assoc a b c)

pub join-empty : (a : String) → join a "" ≡ a
join-empty String.[] = refl
join-empty (String.◌∷◌ x a) = ap (String.◌∷◌ x) (join-empty a)

pub count_chars-join : (a b : String) → count_chars (join a b) ≡ count_chars a + count_chars b
count_chars-join String.[] b = omega arith
count_chars-join (String.◌∷◌ x a) b = omega (arith, count_chars-join a b)
