-- ===== src/Common/Sorting.antt =====
-- Python's `sorted` and comprehensions with a test: both keep the order of equal elements.
use mathlib.Core.Path.{◌≡◌}
use mathlib.Core.Logic.{inl, inr}
use mathlib.Core.Bool.{Bool, true, false, ◌||◌, ◌&&◌}
use mathlib.Core.List.Perm
use mathlib.Core.List.{List, [], ◌∷◌, Perm}
use native.Mathlib.Omega.{arith}
use blender_design.Common.Tests.{if◌then◌else◌, Bool-cases}

module _ {ℓ} {A : Type ℓ} where
  unfoldable pub filter : (A → Bool) → List A → List A
  filter p [] = []
  filter p (x ∷ xs) = let rest = filter p xs in if p x then x ∷ rest else rest

  unfoldable pub any : (A → Bool) → List A → Bool
  any p [] = false
  any p (x ∷ xs) = p x || any p xs

  unfoldable pub all : (A → Bool) → List A → Bool
  all p [] = true
  all p (x ∷ xs) = p x && all p xs

  unfoldable pub insert_by : (A → A → Bool) → A → List A → List A
  insert_by lt x [] = x ∷ []
  insert_by lt x (y ∷ ys) = let rest = insert_by lt x ys in if lt y x then y ∷ rest else x ∷ y ∷ ys

  unfoldable pub sort_by : (A → A → Bool) → List A → List A
  unfolding insert_by
  sort_by lt [] = []
  sort_by lt (x ∷ xs) = insert_by lt x (sort_by lt xs)

  -- No element is less than the one before it.
  abbrev pub IsSorted : (A → A → Bool) → List A → Type 0
  IsSorted lt [] = Unit
  IsSorted lt (x ∷ []) = Unit
  IsSorted lt (x ∷ (y ∷ ys)) = (lt y x ≡ false) × IsSorted lt (y ∷ ys)

module _ {ℓ} {A : Type ℓ} (lt : A → A → Bool) where
  insert_by-perm : (x : A) (ys : List A) → Perm (insert_by lt x ys) (x ∷ ys)
  unfolding insert_by
  insert_by-perm x [] = Perm.refl (x ∷ [])
  insert_by-perm x (y ∷ ys) = elim (Bool-cases (lt y x)) [
    | inl e ↦ rw e (Perm.trans (Perm.cons y (insert_by-perm x ys)) (Perm.swap x y ys))
    | inr e ↦ rw e (Perm.refl (x ∷ (y ∷ ys)))
  ]

  pub sort_by-perm : (xs : List A) → Perm (sort_by lt xs) xs
  unfolding sort_by
  sort_by-perm [] = Perm.refl []
  sort_by-perm (x ∷ xs) =
      Perm.trans (insert_by-perm x (sort_by lt xs)) (Perm.cons x (sort_by-perm xs))

  module _ (asym : (a b : A) → lt a b ≡ true → lt b a ≡ false) where
    insert_by-IsSorted : (x : A) (ys : List A) → IsSorted lt ys → IsSorted lt (insert_by lt x ys)
    unfolding insert_by
    insert_by-IsSorted x [] h = tt
    insert_by-IsSorted x (y ∷ []) h = ground (arith, asym y x)
    insert_by-IsSorted x (y ∷ (z ∷ zs)) h =
        ground (arith, asym y x, asym z x, insert_by-IsSorted x (z ∷ zs) h.1)

    pub sort_by-IsSorted : (xs : List A) → IsSorted lt (sort_by lt xs)
    unfolding sort_by
    sort_by-IsSorted [] = tt
    sort_by-IsSorted (x ∷ xs) = insert_by-IsSorted x (sort_by lt xs) (sort_by-IsSorted xs)

-- Elements that the order tells apart may be inserted either way round.
module _ {ℓ} {A : Type ℓ} (lt : A → A → Bool)
    (split : (x y z : A) → lt z x ≡ false → lt z y ≡ true → lt x y ≡ true)
    (asym : (x y : A) → lt x y ≡ true → lt y x ≡ false) where
  pub insert_by_comm :
      (x y : A) (zs : List A)
      → lt x y ≡ true
      → insert_by lt x (insert_by lt y zs) ≡ insert_by lt y (insert_by lt x zs)
  unfolding insert_by
  insert_by_comm x y [] h = ground (arith, asym x y)
  insert_by_comm x y (z ∷ zs) h =
      ground (arith, asym x y, split x y z, split y x z, insert_by_comm x y zs)
