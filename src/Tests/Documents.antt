-- ===== src/Tests/Documents.antt =====
-- Canonical JSON of small documents.
use blender_design.Common.{
  ℕ, ◌≡◌, ◌↔◌, refl, ap, List, arith, true, false, [], ◌∷◌, ◌++◌, some, ok, some-injective, ◌∙◌,
  sym, sort_by, insert_by,
}
use blender_design.Protocol.Framing.{Bytes}
use blender_design.Protocol.Json.{Text, text, Json, Fields, bool, int, pos, obj, end, field}
use blender_design.Acceptance.Canonical.Numbers.{
  Floats, number, number_of_int, positive, partition, lstrip_zeros, rstrip_zeros, exponent_value,
  digits_value, zeros, decimal,
}
use blender_design.Acceptance.Canonical.{
  Unicode, emit, canonicalize, digest, check_string, escape, escape_chars, join_commas, bytes_lt,
}
use blender_design.Acceptance.Canonical.Escapes.{read_text, read_text-escape}
use blender_design.Acceptance.Strict.{pairs_of, reject_duplicate_keys}
use blender_design.Acceptance.Strict.Keys.{OneEach, reject_duplicate_keys_iff}
use blender_design.Acceptance.Canonical.Order.{same_fields, swapped, canonicalize-SameValue}

-- The only float is 1.0, and texts are ASCII.
abbrev floats : Floats
floats = record {
  float_of = λ n. some (text "1.0");
  to_int = λ f. pos 1;
  is_finite = λ f. true;
  is_zero = λ f. false;
  is_negative = λ f. false;
  negate = λ f. f;
  repr = λ f. f;
}

abbrev ascii : Unicode
ascii = record { is_nfc = λ s. true; utf16_be = λ s. some s; utf8 = λ s. some s }

abbrev ab : Json
ab = obj (field (text "a") (int (pos 1)) (field (text "b") (bool true) end))

abbrev ba : Json
ba = obj (field (text "b") (bool true) (field (text "a") (int (pos 1)) end))

written : canonicalize floats ascii ba ≡ ok (text "{\"a\":1,\"b\":true}")
unfolding canonicalize emit check_string number number_of_int positive partition lstrip_zeros
    rstrip_zeros exponent_value digits_value zeros decimal escape escape_chars join_commas sort_by
    insert_by bytes_lt
written = refl

abbrev first : Text → ℕ
first [] = 0
first (c ∷ cs) = c

canonicalize-SameValue_example :
    (canonicalize floats ascii ab ≡ canonicalize floats ascii ba)
    × ((sha256 : Bytes → Text) (kind : Text)
        → digest floats ascii sha256 kind ab ≡ digest floats ascii sha256 kind ba)
canonicalize-SameValue_example =
    canonicalize-SameValue floats ascii (λ s t bytes p q. some-injective s t (p ∙ sym q)) ab ba
      (same_fields (swapped (λ e. omega (arith, ap first e))))

read_text-escape_example :
    read_text (escape (text "a\"b") ++ text ",1") ≡ some (text "a\"b", text ",1")
read_text-escape_example = read_text-escape (text "a\"b") (text ",1")

-- Two pairs with different keys.
abbrev ab_pairs : List (Text × Json)
ab_pairs = (text "a", int (pos 1)) ∷ (text "b", bool true) ∷ []

reject_duplicate_keys_iff_example :
    ((out : Fields) × (reject_duplicate_keys ab_pairs ≡ ok out) × (pairs_of out ≡ ab_pairs))
    ↔ OneEach ab_pairs
reject_duplicate_keys_iff_example = reject_duplicate_keys_iff ab_pairs
