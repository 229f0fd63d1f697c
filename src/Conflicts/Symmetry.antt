-- ===== src/Conflicts/Symmetry.antt =====
-- Whether the order of two write sets matters to `conflict_between_sets`.
use esaa_event_sourcing_agen.Prelude.{
  String, Bool, true, false, not, ◌||◌, List, [], ◌∷◌, ◌≡◌, ◌≢◌, ◌∙◌, sym, refl, eq_iff, arith, any,
  all, ends_in_slash, has_prefix,
}
use esaa_event_sourcing_agen.Conflicts.{normal_paths, is_prefix_conflict, conflict_between_sets}
use esaa_event_sourcing_agen.Conflicts.Pairs.{clashes, clash_with_any, conflict_between_sets-any}

abbrev pub is_file : String → Bool
is_file path = not (ends_in_slash path)

clashes_comm : (a b : String) → is_file b ≡ true → clashes a b ≡ clashes b a
unfolding clashes is_prefix_conflict
clashes_comm a b f = ground (arith, eq_iff a b, eq_iff b a)

any_or {ℓ} :
    {A : Type ℓ} (p q : A → Bool) (xs : List A) → any (λ x. p x || q x) xs ≡ (any p xs || any q xs)
any_or p q [] = refl
any_or p q (x ∷ xs) = ground (arith, any_or p q xs)

any_none {ℓ} : {A : Type ℓ} (xs : List A) → any (λ (x : A). false) xs ≡ false
any_none [] = refl
any_none (x ∷ xs) = any_none xs

clash_with_any_comm :
    (a : String) (rs : List String)
    → all is_file rs ≡ true
    → clash_with_any rs a ≡ any (λ b. clashes b a) rs
clash_with_any_comm a [] f = refl
clash_with_any_comm a (b ∷ rs) f = ground (arith, clashes_comm a b, clash_with_any_comm a rs)

swapped :
    (ls rs : List String)
    → any (λ b. any (λ a. clashes b a) ls) rs ≡ any (λ a. any (λ b. clashes b a) rs) ls
swapped [] rs = any_none rs
swapped (a ∷ ls) rs =
    any_or (λ b. clashes b a) (λ b. any (λ x. clashes b x) ls) rs ∙ ground (arith, swapped ls rs)

all_comm :
    (ls rs : List String)
    → all is_file rs ≡ true
    → any (clash_with_any rs) ls ≡ any (λ a. any (λ b. clashes b a) rs) ls
all_comm [] rs f = refl
all_comm (a ∷ ls) rs f = ground (arith, clash_with_any_comm a rs f, all_comm ls rs f)

-- If no normalized path of the right set names a directory, the order of the two sets does not
-- matter.
pub conflict_between_sets_comm :
    (left right : List String)
    → all is_file (normal_paths right) ≡ true
    → conflict_between_sets left right ≡ conflict_between_sets right left
conflict_between_sets_comm left right f =
    conflict_between_sets-any left right
    ∙ all_comm (normal_paths left) (normal_paths right) f
    ∙ sym (swapped (normal_paths left) (normal_paths right))
    ∙ sym (conflict_between_sets-any right left)

-- For two directories, one strictly inside the other, the conflict is reported if the outer one is
-- on the left, and missed if it is on the right.
pub nested_directories :
    (outer inner : String)
    → normal_paths (outer ∷ []) ≡ outer ∷ []
    → normal_paths (inner ∷ []) ≡ inner ∷ []
    → ends_in_slash outer ≡ true
    → ends_in_slash inner ≡ true
    → has_prefix outer inner ≡ true
    → has_prefix inner outer ≡ false
    → outer ≢ inner
    → (conflict_between_sets (outer ∷ []) (inner ∷ []) ≡ true)
      × (conflict_between_sets (inner ∷ []) (outer ∷ []) ≡ false)
unfolding clashes is_prefix_conflict
nested_directories outer inner eo ei so si p np d =
    simp (conflict_between_sets-any, eo, ei)
      (ground (arith, eq_iff outer inner, eq_iff inner outer))
