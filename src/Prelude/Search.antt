-- ===== src/Prelude/Search.antt =====
-- Boolean searches through lists, and membership with its place kept.
use mathlib.Core.Path.{◌≡◌, refl}
use mathlib.Core.Logic.{inl, inr}
use mathlib.Core.Bool.{Bool, true, false, ◌&&◌}
use mathlib.Core.List.{List, [], ◌∷◌, Memᴰ}
use native.Mathlib.Omega.{arith}
use esaa_event_sourcing_agen.Prelude.Tests.{Bool-cases}
use esaa_event_sourcing_agen.Prelude.Lists.{any, all, select}

module _ {ℓ} {A : Type ℓ} where
  pub any_ext : (p q : A → Bool) (xs : List A) → ((x : A) → p x ≡ q x) → any p xs ≡ any q xs
  any_ext p q [] h = refl
  any_ext p q (x ∷ xs) h = ground (arith, h x, any_ext p q xs h)

  pub any-select : (p q : A → Bool) (xs : List A) → any p (select q xs) ≡ any (λ x. q x && p x) xs
  any-select p q [] = refl
  any-select p q (x ∷ xs) = ground (arith, any-select p q xs)

  in_tail :
      (p : A → Bool) (x y : A) (ys : List A)
      → Memᴰ x ys × (p x ≡ true)
      → Memᴰ x (y ∷ ys) × (p x ≡ true)
  in_tail p x y ys (m, h) = (Memᴰ.tail m, h)

  in_kept :
      (p : A → Bool) (x y : A) (ys : List A)
      → p y ≡ true
      → (Memᴰ x (select p ys) → Memᴰ x ys × (p x ≡ true))
      → Memᴰ x (y ∷ select p ys)
      → Memᴰ x (y ∷ ys) × (p x ≡ true)
  in_kept p x y ys e rec (Memᴰ.head q) = (Memᴰ.head q, rw q e)
  in_kept p x y ys e rec (Memᴰ.tail m) = in_tail p x y ys (rec m)

  pub Memᴰ-select :
      (p : A → Bool) (x : A) (xs : List A) → Memᴰ x (select p xs) → Memᴰ x xs × (p x ≡ true)
  Memᴰ-select p x [] m = elim m [ ]
  Memᴰ-select p x (y ∷ ys) m = elim (Bool-cases (p y)) [
    | inl e ↦ in_kept p x y ys e (Memᴰ-select p x ys) (rw e at m)
    | inr e ↦ in_tail p x y ys (Memᴰ-select p x ys (rw e at m))
  ]

  pub not_any : (p : A → Bool) (x : A) (xs : List A) → any p xs ≡ false → Memᴰ x xs → p x ≡ false
  not_any p x [] h m = elim m [ ]
  not_any p x (y ∷ ys) h (Memᴰ.head q) = rw q (ground arith)
  not_any p x (y ∷ ys) h (Memᴰ.tail m) = not_any p x ys (ground arith) m

  pub not_all :
      (p : A → Bool) (xs : List A) → all p xs ≡ false → (x : A) × Memᴰ x xs × (p x ≡ false)
  not_all p [] h = absurd (cc)
  not_all p (y ∷ ys) h = elim (Bool-cases (p y)) [
    | inl e ↦ later (not_all p ys (ground arith))
    | inr e ↦ (y, Memᴰ.head refl, e)
  ]
    where
      later : (x : A) × Memᴰ x ys × (p x ≡ false) → (x : A) × Memᴰ x (y ∷ ys) × (p x ≡ false)
      later (x, m, h') = (x, Memᴰ.tail m, h')

  pub all_Memᴰ : (p : A → Bool) (x : A) (xs : List A) → all p xs ≡ true → Memᴰ x xs → p x ≡ true
  all_Memᴰ p x [] h m = elim m [ ]
  all_Memᴰ p x (y ∷ ys) h (Memᴰ.head q) = rw q (ground arith)
  all_Memᴰ p x (y ∷ ys) h (Memᴰ.tail m) = all_Memᴰ p x ys (ground arith) m
