-- ===== src/Effects/Moves.antt =====
-- What committing and discarding staged files does to each path.
use esaa_event_sourcing_agen.Prelude.{
  ◌≡◌, refl, String, Bool, false, ◌==◌, Option, none, some, List, [], ◌∷◌, arith, All,
  if◌then◌else◌, lookup, remove, lookup-remove, any,
}
use esaa_event_sourcing_agen.Effects.{Disk, Staged, final_of, discard_staged}

-- The staged file holds its content, and no entry behind it stands for the same staged file or is
-- written to by it.
abbrev pub Apart : String → Staged → Staged → Type 0
Apart root s t =
    ((s.staged_path == t.staged_path) ≡ false) × ((final_of root s == t.staged_path) ≡ false)

unfoldable pub Ready : String → Disk → List Staged → Type 0
Ready root disk [] = Unit
Ready root disk (s ∷ staged) =
    (lookup s.staged_path disk ≡ some s.content)
    × All (Apart root s) staged
    × Ready root disk staged

-- What is to be found at a path: the content of the last entry for it, nothing at a staged file,
-- and else what was there.
unfoldable pub found_after : String → List Staged → String → Option String → Option String
found_after root [] path before = before
found_after root (s ∷ staged) path before = found_after root staged path (
    if final_of root s == path
    then some s.content
    else if s.staged_path == path
    then none
    else before)

-- The path is that of a staged file.
abbrev pub is_staged : List Staged → String → Bool
is_staged staged path = any (λ s. s.staged_path == path) staged

pub discard_staged-lookup :
    (staged : List Staged) (disk : Disk) (path : String)
    → lookup path (discard_staged staged disk)
      ≡ (if is_staged staged path then none else lookup path disk)
unfolding discard_staged
discard_staged-lookup [] disk path = refl
discard_staged-lookup (s ∷ staged) disk path = ground (
  arith,
  discard_staged-lookup staged (remove s.staged_path disk) path,
  lookup-remove s.staged_path path disk,
)
