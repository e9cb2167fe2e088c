-- ===== src/Acceptance/Canonical/Escapes.antt =====
-- Texts in canonical JSON: a reader of JSON texts reads back what was escaped.
use blender_design.Common.{
  ℕ, zero, suc, ◌+◌, ◌-◌, ◌*◌, ◌/◌, ◌%◌, ◌≡◌, ◌<◌, ◌≤◌, refl, subst, true, false, ◌&&◌, [], ◌∷◌,
  ◌++◌, append_assoc, Option, none, some, length, length-append, ltb, leb, ◌==◌, Bool-cases, inl,
  inr, arith, if◌then◌else◌,
}
use blender_design.Protocol.Json.{Text}
use blender_design.Acceptance.Canonical.{hex_digit, escaped, escape_chars, escape}

-- A reader of JSON texts, after RFC 8259: it returns the text and what follows the closing quote.
abbrev Reading : Type 0
Reading = Option (Text × Text)

abbrev prepend : ℕ → Reading → Reading
prepend c none = none
prepend c (some (s, rest)) = some (c ∷ s, rest)

abbrev hex_value : ℕ → Option ℕ
hex_value c =
    if leb 48 c && leb c 57
    then some (c - 48)
    else if leb 97 c && leb c 102
    then some (c - 87)
    else if leb 65 c && leb c 70
    then some (c - 55)
    else none

abbrev short_escape : ℕ → Option ℕ
short_escape d =
    if d == 34
    then some 34
    else if d == 92
    then some 92
    else if d == 47
    then some 47
    else if d == 98
    then some 8
    else if d == 102
    then some 12
    else if d == 110
    then some 10
    else if d == 114
    then some 13
    else if d == 116
    then some 9
    else none

abbrev hex4 : Option ℕ → Option ℕ → Option ℕ → Option ℕ → Option ℕ
hex4 (some a) (some b) (some c) (some d) = some (a * 4096 + b * 256 + c * 16 + d)
hex4 _ _ _ _ = none

abbrev read_code : (Text → Reading) → Text → Reading
read_code next (a ∷ (b ∷ (c ∷ (d ∷ rest)))) =
    elim (hex4 (hex_value a) (hex_value b) (hex_value c) (hex_value d)) [
      | none ↦ none
      | some n ↦ prepend n (next rest)
    ]
read_code next _ = none

abbrev read_escape : (Text → Reading) → Text → Reading
read_escape next [] = none
read_escape next (d ∷ ds) =
    if d == 117
    then read_code next ds
    else (elim (short_escape d) [ none ↦ none | some c ↦ prepend c (next ds) ])

abbrev read_char : (Text → Reading) → Text → Reading
read_char next [] = none
read_char next (c ∷ cs) =
    if c == 34
    then some ([], cs)
    else if c == 92
    then read_escape next cs
    else if ltb c 32
    then none
    else prepend c (next cs)

-- On fuel for its characters.
unfoldable pub read_chars : ℕ → Text → Reading
read_chars zero cs = none
read_chars (suc fuel) cs = read_char (read_chars fuel) cs

unfoldable pub read_text : Text → Reading
unfolding read_chars
read_text [] = none
read_text (c ∷ cs) = if c == 34 then read_chars (length cs + 1) cs else none

control :
    (next : Text → Reading) (c : ℕ) (rest : Text)
    → c < 32
    → read_code next (48 ∷ 48 ∷ hex_digit (c / 16) ∷ hex_digit (c % 16) ∷ rest)
      ≡ prepend c (next rest)
control next c rest h = ground arith

-- Where a character equals a constant, it may be replaced by it.
at_constant : (P : ℕ → Type 0) (c k : ℕ) → (c == k) ≡ true → P k → P c
at_constant P c k e h = let p : k ≡ c = ground arith in subst P p h

read_char-escaped :
    (next : Text → Reading) (c : ℕ) (rest : Text)
    → read_char next (escaped c ++ rest) ≡ prepend c (next rest)
read_char-escaped next c rest = elim (Bool-cases (c == 34)) [
  | inl e ↦
      at_constant (λ c. read_char next (escaped c ++ rest) ≡ prepend c (next rest)) c 34 e refl
  | inr e₁ ↦ elim (Bool-cases (c == 92)) [
    | inl e ↦
        at_constant (λ c. read_char next (escaped c ++ rest) ≡ prepend c (next rest)) c 92 e refl
    | inr e₂ ↦ elim (Bool-cases (ltb c 32)) [ inr e ↦ plain e₁ e₂ e | inl e ↦ low e₁ e₂ e ]
  ]
]
  where
    plain :
        (c == 34) ≡ false
        → (c == 92) ≡ false
        → ltb c 32 ≡ false
        → read_char next (escaped c ++ rest) ≡ prepend c (next rest)
    plain a b e = ground arith

    low :
        (c == 34) ≡ false
        → (c == 92) ≡ false
        → ltb c 32 ≡ true
        → read_char next (escaped c ++ rest) ≡ prepend c (next rest)
    low a b e = ground (arith, control next c rest)

-- Each character takes one round of the reader.
read_chars-escape_chars :
    (fuel : ℕ) (value rest : Text)
    → length value < fuel
    → read_chars fuel (escape_chars value ++ 34 ∷ rest) ≡ some (value, rest)
unfolding read_chars escape_chars
read_chars-escape_chars zero value rest h = absurd (omega arith)
read_chars-escape_chars (suc fuel) [] rest h = refl
read_chars-escape_chars (suc fuel) (c ∷ cs) rest h =
    rw
      (
        append_assoc (escaped c) (escape_chars cs) (34 ∷ rest),
        read_char-escaped (read_chars fuel) c (escape_chars cs ++ 34 ∷ rest),
        read_chars-escape_chars fuel cs rest (omega arith),
      )
      refl

length-escaped : (c : ℕ) → 1 ≤ length (escaped c)
length-escaped c = ground arith

length-escape_chars : (value : Text) → length value ≤ length (escape_chars value)
unfolding escape_chars
length-escape_chars [] = omega arith
length-escape_chars (c ∷ cs) =
    omega
      (arith, length-append (escaped c) (escape_chars cs), length-escaped c, length-escape_chars cs)

-- A reader of JSON texts reads an escaped text back, whatever follows it.
pub read_text-escape : (value rest : Text) → read_text (escape value ++ rest) ≡ some (value, rest)
unfolding read_text escape
read_text-escape value rest = rw (append_assoc (escape_chars value) (34 ∷ []) rest) (
    read_chars-escape_chars (length (escape_chars value ++ 34 ∷ rest) + 1) value rest
      (omega (arith, length-append (escape_chars value) (34 ∷ rest), length-escape_chars value)))
