-- ===== src/Conflicts.antt =====
-- src/esaa/conflicts.py and `normalize_rel_path` of src/esaa/utils.py: the write sets of tasks and
-- when two of them conflict.
pub mod Symmetry
pub mod Pairs
mod Samples
use esaa_event_sourcing_agen.Prelude.{
  String, Bool, true, false, ◌||◌, Option, none, some, List, [], ◌∷◌, ◌==◌, if◌then◌else◌, is_some,
  contains, strip, to_slashes, drop_dots, ends_in_slash, has_prefix,
}
use esaa_event_sourcing_agen.Prelude.Sorting.{sort_by}

unfoldable pub normalize_rel_path : String → String
normalize_rel_path path = drop_dots (to_slashes path)

-- `set(out)`: each text once
unfoldable pub distinct : List String → List String
distinct [] = []
distinct (x ∷ xs) = let rest = distinct xs in if contains rest x then rest else x ∷ rest

-- the list `out` of `normalize_write_set`, before the set is built
unfoldable pub normal_paths : List String → List String
normal_paths [] = []
normal_paths (p ∷ ps) =
    let norm = strip (normalize_rel_path p) in
    let rest = normal_paths ps in if norm == "" then rest else norm ∷ rest

unfoldable pub normalize_write_set : List String → List String
normalize_write_set paths = sort_by (λ s. s) (distinct (normal_paths paths))

unfoldable pub is_prefix_conflict : String → String → Bool
is_prefix_conflict left right =
    if ends_in_slash left
    then has_prefix left right
    else if ends_in_slash right
    then has_prefix right left
    else false

pub data Conflict : Type 0 where
  exact : String → String → Conflict
  prefix : String → String → Conflict

-- one round of the inner loop
clash : String → String → Option Conflict
clash a b =
    if a == b then some (exact a b) else if is_prefix_conflict a b then some (prefix a b) else none

first_of_two {ℓ} : {A : Type ℓ} → Option A → Option A → Option A
first_of_two (some a) rest = some a
first_of_two none rest = rest

inner : String → List String → Option Conflict
inner a [] = none
inner a (b ∷ bs) = first_of_two (clash a b) (inner a bs)

outer : List String → List String → Option Conflict
outer [] right = none
outer (a ∷ rest) right = first_of_two (inner a right) (outer rest right)

unfoldable pub explain_conflict : List String → List String → Option Conflict
unfolding inner outer clash first_of_two
explain_conflict left right = outer (normalize_write_set left) (normalize_write_set right)

unfoldable pub conflict_between_sets : List String → List String → Bool
conflict_between_sets left right = is_some (explain_conflict left right)
