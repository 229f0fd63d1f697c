-- ===== src/Prelude/Paths.antt =====
-- The parts of a path as `PurePosixPath(path).parts` gives them.
use Prim.Native.Char.{Char, code}
use Prim.Native.Nat.{ℕ}
use Prim.Native.String.{String}
use mathlib.Core.Bool.{Bool, ◌||◌}
use mathlib.Core.List.{List, [], ◌∷◌}
use text.Mathlib.Text.{◌==◌}
use esaa_event_sourcing_agen.Prelude.Tests.{if◌then◌else◌, eqb}
use esaa_event_sourcing_agen.Prelude.Lists.{contains}
use esaa_event_sourcing_agen.Prelude.Texts.{has_prefix, join}

abbrev put_first : Char → List String → List String
put_first c [] = String.◌∷◌ c String.[] ∷ []
put_first c (s ∷ ss) = String.◌∷◌ c s ∷ ss

-- `s.split(sep)` for a one-character `sep`, given by its number
unfoldable pub split_on : ℕ → String → List String
split_on sep String.[] = String.[] ∷ []
split_on sep (String.◌∷◌ c s) =
    let rest = split_on sep s in if eqb (code c) sep then String.[] ∷ rest else put_first c rest

-- Empty parts and single dots do not count.
named_parts : List String → List String
named_parts [] = []
named_parts (p ∷ ps) = let rest = named_parts ps in if p == "" || p == "." then rest else p ∷ rest

unfoldable pub path_parts : String → List String
unfolding split_on named_parts has_prefix
path_parts path =
    let names = named_parts (split_on 47 path) in if has_prefix "/" path then "/" ∷ names else names

-- a directory and the parts behind it
under : String → List String → String
under dir [] = dir
under dir (p ∷ ps) = under (join dir (join "/" p)) ps

-- The text of `root / path`, for a root that is absolute and has no empty part and no dot: an absolute
-- path takes the place of the root, and empty parts and single dots are dropped. `..` stays.
unfoldable pub at_root : String → String → String
unfolding split_on named_parts has_prefix under
at_root root path =
    let names = named_parts (split_on 47 path) in
    if has_prefix "/" path then under "" names else under root names

-- `".." in parts`
abbrev pub traverses : String → Bool
traverses path = contains (path_parts path) ".."
