-- ===== src/Common/Strings.antt =====
-- Texts as set members: Python's `in`, `set(...)` and `==` on sets of strings.
use Prim.Native.Nat.{◌≤◌}
use Prim.Native.String.{String}
use mathlib.Core.Path.{◌≡◌, refl}
use mathlib.Core.Logic.{inl, inr}
use mathlib.Core.Bool.{Bool, true, false, ◌&&◌, ◌||◌}
use mathlib.Core.List.{List, [], ◌∷◌}
use native.Mathlib.Omega.{arith}
use text.Mathlib.Text.{◌==◌}
use text.Mathlib.TextEquality.{eq_iff}
use blender_design.Common.Tests.{if◌then◌else◌, Bool-cases}
use blender_design.Common.Lists.{length}

decided : (s t : String) (b : Bool) → (s == t) ≡ b → Dec (s ≡ t)
decided s t true h = yes ((eq_iff s t).0 h)
decided s t false h = no (λ e. let p = (eq_iff s t).1 e in cc)

unfoldable pub String_discrete : Discrete String
unfolding decided
String_discrete s t = decided s t (s == t) refl

-- `x in xs`
unfoldable pub member : String → List String → Bool
member x [] = false
member x (y ∷ ys) = x == y || member x ys

-- `xs <= ys` on sets
unfoldable pub subset : List String → List String → Bool
subset [] ys = true
subset (x ∷ xs) ys = member x ys && subset xs ys

-- `xs == ys` on sets
unfoldable pub set_eq : List String → List String → Bool
unfolding subset member
set_eq xs ys = subset xs ys && subset ys xs

-- `set(xs)`: each element once
unfoldable pub distinct : List String → List String
unfolding member
distinct [] = []
distinct (x ∷ xs) = let rest = distinct xs in if member x xs then rest else x ∷ rest

-- Every element stands once.
abbrev pub NoRepeats : List String → Type 0
NoRepeats [] = Unit
NoRepeats (x ∷ xs) = (member x xs ≡ false) × NoRepeats xs

length-distinct-le : (xs : List String) → length (distinct xs) ≤ length xs
unfolding distinct
length-distinct-le [] = omega arith
length-distinct-le (x ∷ xs) = ground (arith, length-distinct-le xs)

pub NoRepeats-of_length : (xs : List String) → length (distinct xs) ≡ length xs → NoRepeats xs
unfolding distinct
NoRepeats-of_length [] h = tt
NoRepeats-of_length (x ∷ xs) h = ground (arith, length-distinct-le xs, NoRepeats-of_length xs)

pub length_of_NoRepeats : (xs : List String) → NoRepeats xs → length (distinct xs) ≡ length xs
unfolding distinct
length_of_NoRepeats [] h = refl
length_of_NoRepeats (x ∷ xs) h = ground (arith, length_of_NoRepeats xs h.1)

pub member_of_subset :
    (k : String) (xs ys : List String)
    → subset xs ys ≡ true
    → member k xs ≡ true
    → member k ys ≡ true
unfolding subset member
member_of_subset k [] ys h m = cc
member_of_subset k (x ∷ xs) ys h m = elim (Bool-cases (k == x)) [
  | inl e ↦ let p = (eq_iff k x).0 e in rw p (ground arith)
  | inr e ↦ ground (arith, member_of_subset k xs ys)
]

subset_of_member :
    (xs ys : List String)
    → ((k : String) → member k xs ≡ true → member k ys ≡ true)
    → subset xs ys ≡ true
unfolding subset member
subset_of_member [] ys h = refl
subset_of_member (x ∷ xs) ys h =
    ground (arith, h x, eq_iff x x, subset_of_member xs ys (λ k m. h k (ground arith)))

pub set_eq-member :
    (k : String) (xs ys : List String) → set_eq xs ys ≡ true → member k xs ≡ member k ys
unfolding set_eq
set_eq-member k xs ys h = ground (arith, member_of_subset k xs ys, member_of_subset k ys xs)

pub set_eq_of_member :
    (xs ys : List String) → ((k : String) → member k xs ≡ member k ys) → set_eq xs ys ≡ true
unfolding set_eq
set_eq_of_member xs ys h = ground (
  arith,
  subset_of_member xs ys (λ k m. let e = h k in cc),
  subset_of_member ys xs (λ k m. let e = h k in cc),
)
