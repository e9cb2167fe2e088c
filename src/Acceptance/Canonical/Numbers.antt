-- ===== src/Acceptance/Canonical/Numbers.antt =====
-- acceptance/canonical.py, `_number`: a number as ECMAScript writes it.
use blender_design.Common.{
  ℕ, zero, suc, ◌+◌, ◌-◌, ◌*◌, ◌/◌, ◌%◌, ◌≡◌, refl, Bool, false, ◌&&◌, [], ◌∷◌, ◌++◌, Option, none,
  some, Result, ok, err, guard, ◌>>◌, length, take, drop, ltb, leb, ◌==◌, if◌then◌else◌,
}
use blender_design.Protocol.Json.{Text, text, ℤ, pos, negsuc}

pub data CanonicalError : Type 0 where
  canonical_error : CanonicalError

-- Python's floats, each by its literal; `float_of` is none where `float(n)` raises OverflowError.
pub record Floats : Type 0 where
  pub float_of : ℤ → Option Text
  pub to_int : Text → ℤ
  pub is_finite : Text → Bool
  pub is_zero : Text → Bool
  pub is_negative : Text → Bool
  pub negate : Text → Text
  pub repr : Text → Text

abbrev pub int_eq : ℤ → ℤ → Bool
int_eq (pos m) (pos n) = m == n
int_eq (negsuc m) (negsuc n) = m == n
int_eq _ _ = false

-- `t.partition(c)`, without the separator.
unfoldable pub partition : ℕ → Text → Text × Text
partition c [] = ([], [])
partition c (x ∷ xs) =
    let rest = partition c xs in if x == c then ([], xs) else (x ∷ rest.0, rest.1)

unfoldable pub lstrip_zeros : Text → Text
lstrip_zeros [] = []
lstrip_zeros (x ∷ xs) = let rest = lstrip_zeros xs in if x == 48 then rest else x ∷ xs

unfoldable pub rstrip_zeros : Text → Text
rstrip_zeros [] = []
rstrip_zeros (x ∷ xs) = elim (rstrip_zeros xs) [
  | [] ↦ if x == 48 then [] else x ∷ []
  | y ∷ ys ↦ x ∷ y ∷ ys
]

-- `int(t)` of a text of digits, read after the number `n`.
unfoldable pub digits_value : ℕ → Text → ℕ
digits_value n [] = n
digits_value n (d ∷ ds) = digits_value (n * 10 + (d - 48)) ds

-- `int(exponent) if exponent else 0`
unfoldable pub exponent_value : Text → ℤ
unfolding digits_value
exponent_value [] = pos 0
exponent_value (c ∷ cs) =
    if c == 45
    then (elim (digits_value 0 cs) [ zero ↦ pos 0 | suc n ↦ negsuc n ])
    else if c == 43
    then pos (digits_value 0 cs)
    else pos (digits_value 0 (c ∷ cs))

-- `m - n`
abbrev pub difference : ℕ → ℕ → ℤ
difference m n = if leb n m then pos (m - n) else negsuc (n - m - 1)

-- `length + exp - leading`
abbrev pub decimal_point : ℕ → ℤ → ℕ → ℤ
decimal_point size (pos e) leading = difference (size + e) leading
decimal_point size (negsuc e) leading = difference size (leading + e + 1)

unfoldable pub zeros : ℕ → Text
zeros zero = []
zeros (suc n) = 48 ∷ zeros n

-- `str(n)`, on fuel for its digits; n + 1 is enough.
unfoldable pub decimal : ℕ → ℕ → Text
decimal zero n = []
decimal (suc fuel) n =
    let rest = decimal fuel (n / 10) in (if ltb n 10 then [] else rest) ++ (n % 10 + 48) ∷ []

-- `digits if k == 1 else digits[0] + "." + digits[1:]`
abbrev pub head_of : Text → Text
head_of (d ∷ (e ∷ es)) = d ∷ 46 ∷ e ∷ es
head_of digits = digits

-- `f"{head}e{sign}{abs(power)}"`, for the sign and the absolute value of the power.
abbrev pub scientific : Text → ℕ → ℕ → Text
scientific digits sign size = head_of digits ++ 101 ∷ sign ∷ decimal (size + 1) size

-- `digits or "0"`
abbrev pub or_zero : Text → Text
or_zero [] = 48 ∷ []
or_zero (d ∷ ds) = d ∷ ds

-- The text of the value 0.digits x 10**n.
abbrev pub layout : Text → ℤ → Text
layout digits (pos n) =
    if leb (length digits) n && leb n 21
    then digits ++ zeros (n - length digits)
    else if ltb 0 n && leb n 21
    then take n digits ++ 46 ∷ drop n digits
    else if n == 0
    then 48 ∷ 46 ∷ digits
    else scientific digits 43 (n - 1)
layout digits (negsuc m) =
    if ltb (m + 1) 6 then 48 ∷ 46 ∷ zeros (m + 1) ++ digits else scientific digits 45 (m + 2)

-- What `_number` makes of the shortest digits of a positive number.
unfoldable pub positive : Text → Text
unfolding partition lstrip_zeros rstrip_zeros exponent_value zeros decimal
positive repr =
    let parts = partition 101 repr in
    let point = partition 46 parts.0 in
    let combined = point.0 ++ point.1 in
    let stripped = lstrip_zeros combined in
    let digits = or_zero (rstrip_zeros stripped) in
    layout digits
      (decimal_point (length point.0) (exponent_value parts.1) (length combined - length stripped))

module _ (floats : Floats) where
  -- `_number` of a float. The negation of a finite negative number is finite and positive.
  unfoldable pub number : Text → Result CanonicalError Text
  unfolding positive
  number value =
      guard (floats.is_finite value) canonical_error
      >> ok (
          if floats.is_zero value
          then 48 ∷ []
          else if floats.is_negative value
          then 45 ∷ positive (floats.repr (floats.negate value))
          else positive (floats.repr value))

  unfoldable pub number_of_int : ℤ → Result CanonicalError Text
  unfolding number
  number_of_int n = elim (floats.float_of n) [
    | none ↦ err canonical_error
    | some f ↦ guard (floats.is_finite f && int_eq (floats.to_int f) n) canonical_error >> number f
  ]

-- The values that the code names: where Python's repr and ECMAScript differ.
positive_samples :
    (positive (text "1e-05") ≡ text "0.00001")
    × (positive (text "1e-06") ≡ text "0.000001")
    × (positive (text "1.5e-07") ≡ text "1.5e-7")
    × (positive (text "1e+22") ≡ text "1e+22")
    × (positive (text "120.0") ≡ text "120")
    × (positive (text "3.25") ≡ text "3.25")
unfolding positive partition lstrip_zeros rstrip_zeros exponent_value digits_value zeros decimal
positive_samples = (refl, refl, refl, refl, refl, refl)
