-- ===== src/Conflicts/Pairs.antt =====
-- `conflict_between_sets` is a search over all pairs of normalized paths.
use esaa_event_sourcing_agen.Prelude.{
  String, Bool, true, ◌||◌, List, [], ◌∷◌, ◌++◌, ◌≡◌, ◌∙◌, refl, ◌==◌, eq_iff, arith, is_some,
  contains, any,
}
use esaa_event_sourcing_agen.Prelude.Sorting.{any-sort_by}
use esaa_event_sourcing_agen.Conflicts.{
  distinct, normal_paths, normalize_write_set, is_prefix_conflict, clash, first_of_two, inner,
  outer, explain_conflict, conflict_between_sets,
}

-- Two normalized paths are in each other's way: equal, or one is a directory that holds the other.
unfoldable pub clashes : String → String → Bool
clashes a b = a == b || is_prefix_conflict a b

abbrev pub clash_with_any : List String → String → Bool
clash_with_any bs a = any (clashes a) bs

inner-any : (a : String) (bs : List String) → is_some (inner a bs) ≡ clash_with_any bs a
unfolding inner clash first_of_two clashes
inner-any a [] = refl
inner-any a (b ∷ bs) = ground (arith, inner-any a bs)

outer-any : (ls bs : List String) → is_some (outer ls bs) ≡ any (clash_with_any bs) ls
unfolding outer first_of_two
outer-any [] bs = refl
outer-any (a ∷ rest) bs = ground (arith, inner-any a bs, outer-any rest bs)

any-contains :
    (p : String → Bool) (x : String) (xs : List String)
    → contains xs x ≡ true
    → p x ≡ true
    → any p xs ≡ true
any-contains p x [] c h = cc
any-contains p x (y ∷ ys) c h = ground (arith, eq_iff y x, any-contains p x ys)

any-distinct : (p : String → Bool) (xs : List String) → any p (distinct xs) ≡ any p xs
unfolding distinct
any-distinct p [] = refl
any-distinct p (x ∷ xs) = ground (arith, any-distinct p xs, any-contains p x (distinct xs))

any-write_set :
    (p : String → Bool) (paths : List String)
    → any p (normalize_write_set paths) ≡ any p (normal_paths paths)
unfolding normalize_write_set
any-write_set p paths =
    any-sort_by (λ s. s) p (distinct (normal_paths paths)) ∙ any-distinct p (normal_paths paths)

any_ext {ℓ} :
    {A : Type ℓ} (p q : A → Bool) (xs : List A) → ((x : A) → p x ≡ q x) → any p xs ≡ any q xs
any_ext p q [] h = refl
any_ext p q (x ∷ xs) h = ground (arith, h x, any_ext p q xs h)

-- Two write sets conflict exactly when some normalized path of the left one clashes with some
-- normalized path of the right one: sorting and removing duplicates change no answer.
pub conflict_between_sets-any :
    (left right : List String)
    → conflict_between_sets left right
      ≡ any (clash_with_any (normal_paths right)) (normal_paths left)
unfolding conflict_between_sets explain_conflict
conflict_between_sets-any left right =
    outer-any (normalize_write_set left) (normalize_write_set right)
    ∙ any-write_set (clash_with_any (normalize_write_set right)) left
    ∙ any_ext (clash_with_any (normalize_write_set right)) (clash_with_any (normal_paths right))
        (normal_paths left) (λ a. any-write_set (clashes a) right)

normal_paths-any :
    (p : String → Bool) (xs ys : List String)
    → any p (normal_paths (xs ++ ys)) ≡ (any p (normal_paths xs) || any p (normal_paths ys))
unfolding normal_paths
normal_paths-any p [] ys = refl
normal_paths-any p (x ∷ xs) ys = ground (arith, normal_paths-any p xs ys)

-- A union conflicts exactly when one of its parts does.
pub conflict_between_sets-append :
    (xs ys right : List String)
    → conflict_between_sets (xs ++ ys) right
      ≡ (conflict_between_sets xs right || conflict_between_sets ys right)
conflict_between_sets-append xs ys right =
    simp (conflict_between_sets-any) (normal_paths-any (clash_with_any (normal_paths right)) xs ys)
