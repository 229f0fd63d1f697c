-- ===== src/Prelude/Sorting.antt =====
-- `sorted(xs, key=...)` for text keys: stable insertion sort by the order of the keys.
use Prim.Native.String.{String, compare}
use Prim.Native.Nat.{Ordering}
use mathlib.Core.Path.{◌≡◌, refl}
use mathlib.Core.Bool.{Bool, true, false, ◌||◌}
use native.Mathlib.Omega.{arith}
use esaa_event_sourcing_agen.Prelude.Lists.{any}
use mathlib.Core.Logic.{◌⊎◌, inl, inr}
use mathlib.Core.List.{List, [], ◌∷◌, Perm, Memᴰ}
use mathlib.Core.List.Perm
use esaa_event_sourcing_agen.Prelude.Tests.{if◌then◌else◌, Bool-cases}

-- `s <= t` on Python strings
abbrev pub le_text : String → String → Bool
le_text s t = elim (compare s t) [ Ordering.gt ↦ false | _ ↦ true ]

module _ {ℓ} {A : Type ℓ} (key : A → String) where
  unfoldable pub insert_by : A → List A → List A
  insert_by a [] = a ∷ []
  insert_by a (x ∷ xs) = if le_text (key a) (key x) then a ∷ x ∷ xs else x ∷ insert_by a xs

  unfoldable pub sort_by : List A → List A
  unfolding insert_by
  sort_by [] = []
  sort_by (x ∷ xs) = insert_by x (sort_by xs)

  in_front : (x a : A) (xs : List A) → Memᴰ x (a ∷ xs) → (x ≡ a) ⊎ Memᴰ x xs
  in_front x a xs (Memᴰ.head q) = inl q
  in_front x a xs (Memᴰ.tail m) = inr m

  behind :
      (x a y : A) (ys : List A)
      → (Memᴰ x (insert_by a ys) → (x ≡ a) ⊎ Memᴰ x ys)
      → Memᴰ x (y ∷ insert_by a ys)
      → (x ≡ a) ⊎ Memᴰ x (y ∷ ys)
  behind x a y ys rec (Memᴰ.head q) = inr (Memᴰ.head q)
  behind x a y ys rec (Memᴰ.tail m) = elim (rec m) [ inl q ↦ inl q | inr m' ↦ inr (Memᴰ.tail m') ]

  any-insert_by : (p : A → Bool) (a : A) (xs : List A) → any p (insert_by a xs) ≡ (p a || any p xs)
  unfolding insert_by
  any-insert_by p a [] = refl
  any-insert_by p a (x ∷ xs) = ground (arith, any-insert_by p a xs)

  pub any-sort_by : (p : A → Bool) (xs : List A) → any p (sort_by xs) ≡ any p xs
  unfolding sort_by
  any-sort_by p [] = refl
  any-sort_by p (x ∷ xs) = ground (arith, any-insert_by p x (sort_by xs), any-sort_by p xs)

  insert_by-perm : (a : A) (xs : List A) → Perm (insert_by a xs) (a ∷ xs)
  unfolding insert_by
  insert_by-perm a [] = Perm.refl (a ∷ [])
  insert_by-perm a (x ∷ xs) = elim (Bool-cases (le_text (key a) (key x))) [
    | inl e ↦ rw e (Perm.refl (a ∷ x ∷ xs))
    | inr e ↦ rw e (Perm.trans (Perm.cons x (insert_by-perm a xs)) (Perm.swap a x xs))
  ]

  -- Sorting keeps each element as often as it was there.
  pub sort_by-perm : (xs : List A) → Perm (sort_by xs) xs
  unfolding sort_by
  sort_by-perm [] = Perm.refl []
  sort_by-perm (x ∷ xs) = Perm.trans (insert_by-perm x (sort_by xs)) (Perm.cons x (sort_by-perm xs))

  Memᴰ-insert_by : (x a : A) (xs : List A) → Memᴰ x (insert_by a xs) → (x ≡ a) ⊎ Memᴰ x xs
  unfolding insert_by
  Memᴰ-insert_by x a [] (Memᴰ.head q) = inl q
  Memᴰ-insert_by x a [] (Memᴰ.tail m) = elim m [ ]
  Memᴰ-insert_by x a (y ∷ ys) m = elim (Bool-cases (le_text (key a) (key y))) [
    | inl e ↦ in_front x a (y ∷ ys) (rw e at m)
    | inr e ↦ behind x a y ys (Memᴰ-insert_by x a ys) (rw e at m)
  ]

  pub Memᴰ-sort_by : (x : A) (xs : List A) → Memᴰ x (sort_by xs) → Memᴰ x xs
  unfolding sort_by
  Memᴰ-sort_by x [] m = elim m [ ]
  Memᴰ-sort_by x (y ∷ ys) m = elim (Memᴰ-insert_by x y (sort_by ys) m) [
    | inl q ↦ Memᴰ.head q
    | inr m' ↦ Memᴰ.tail (Memᴰ-sort_by x ys m')
  ]
