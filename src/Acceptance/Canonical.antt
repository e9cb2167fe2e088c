-- ===== src/Acceptance/Canonical.antt =====
-- acceptance/canonical.py: canonical JSON, and the strict reader's test of repeated keys
-- (acceptance/strict_json.py).
pub mod Numbers
pub mod Escapes
pub mod Order
use blender_design.Common.{
  ℕ, zero, suc, ◌+◌, ◌/◌, ◌%◌, Bool, true, false, ◌&&◌, List, [], ◌∷◌, ◌++◌, Option, none, some,
  Result, ok, err, guard, ◌>>=◌, ◌>>◌, ltb, ◌==◌, map, sort_by, all, if◌then◌else◌,
}
use blender_design.Protocol.Framing.{Bytes}
use blender_design.Protocol.Json.{
  Text, text, text_eq, Json, null, bool, int, float, str, arr, obj, Items, nil, cons, Fields, end,
  field,
}
use blender_design.Acceptance.Canonical.Numbers.{
  CanonicalError, canonical_error, Floats, number_of_int, number,
}

-- Python's `unicodedata.normalize("NFC", value) == value` and its encoders, none where they raise.
pub record Unicode : Type 0 where
  pub is_nfc : Text → Bool
  pub utf16_be : Text → Option Bytes
  pub utf8 : Text → Option Bytes

unfoldable pub check_string : Unicode → Text → Result CanonicalError Text
check_string unicode value = guard (unicode.is_nfc value) canonical_error >> ok value

-- `f"{n:x}"` of a digit
abbrev pub hex_digit : ℕ → ℕ
hex_digit d = if ltb d 10 then d + 48 else d + 87

abbrev pub escaped : ℕ → Text
escaped c =
    if c == 34
    then 92 ∷ 34 ∷ []
    else if c == 92
    then 92 ∷ 92 ∷ []
    else if c == 10
    then 92 ∷ 110 ∷ []
    else if c == 13
    then 92 ∷ 114 ∷ []
    else if c == 9
    then 92 ∷ 116 ∷ []
    else if c == 8
    then 92 ∷ 98 ∷ []
    else if c == 12
    then 92 ∷ 102 ∷ []
    else if ltb c 32
    then 92 ∷ 117 ∷ 48 ∷ 48 ∷ hex_digit (c / 16) ∷ hex_digit (c % 16) ∷ []
    else c ∷ []

unfoldable pub escape_chars : Text → Text
escape_chars [] = []
escape_chars (c ∷ cs) = escaped c ++ escape_chars cs

-- `_escape`
unfoldable pub escape : Text → Text
unfolding escape_chars
escape value = 34 ∷ escape_chars value ++ 34 ∷ []

-- `",".join(texts)`
unfoldable pub join_commas : List Text → Text
join_commas [] = []
join_commas (t ∷ []) = t
join_commas (t ∷ (u ∷ us)) = t ++ 44 ∷ join_commas (u ∷ us)

-- `<` on bytes
unfoldable pub bytes_lt : Bytes → Bytes → Bool
bytes_lt [] [] = false
bytes_lt [] (y ∷ ys) = true
bytes_lt (x ∷ xs) [] = false
bytes_lt (x ∷ xs) (y ∷ ys) =
    let rest = bytes_lt xs ys in if ltb x y then true else if x == y then rest else false

-- A member of an object: the bytes by which it is sorted, and its text.
abbrev pub Member : Type 0
Member = Bytes × Text

abbrev pub member_lt : Member → Member → Bool
member_lt a b = bytes_lt a.0 b.0

abbrev pub sort_bytes : Unicode → Text → Result CanonicalError Bytes
sort_bytes unicode key = check_string unicode key >>= λ k. elim (unicode.utf16_be k) [
  | none ↦ err canonical_error
  | some bytes ↦ ok bytes
]

abbrev pub member_of : Unicode → Text → Result CanonicalError Text → Result CanonicalError Member
member_of unicode key body = do
  bytes ← sort_bytes unicode key
  written ← body
  ok (bytes, escape key ++ 58 ∷ written)

abbrev pub and_more :
    {A : Type 0}
    → Result CanonicalError A
    → Result CanonicalError (List A)
    → Result CanonicalError (List A)
and_more first rest = do a ← first; more ← rest; ok (a ∷ more)

module _ (floats : Floats) (unicode : Unicode) where
  -- `_emit`; a dict has text keys, each once, so its tests on the keys have no counterpart. Every
  -- failure is the same exception, so it does not matter that members are written before sorting.
  unfoldable mutual
    unfolding check_string number_of_int number escape join_commas sort_by bytes_lt

    pub emit : Json → Result CanonicalError Text
    emit null = ok (text "null")
    emit (bool true) = ok (text "true")
    emit (bool false) = ok (text "false")
    emit (str s) = check_string unicode s >>= λ t. ok (escape t)
    emit (int n) = number_of_int floats n
    emit (float f) = number floats f
    emit (arr items) = emit_items items >>= λ texts. ok (91 ∷ join_commas texts ++ 93 ∷ [])
    emit (obj fields) = emit_fields fields >>= λ members.
        ok (123 ∷ join_commas (map (λ (m : Member). m.1) (sort_by member_lt members)) ++ 125 ∷ [])

    pub emit_items : Items → Result CanonicalError (List Text)
    emit_items nil = ok []
    emit_items (cons v rest) = and_more (emit v) (emit_items rest)

    pub emit_fields : Fields → Result CanonicalError (List Member)
    emit_fields end = ok []
    emit_fields (field k v rest) = and_more (member_of unicode k (emit v)) (emit_fields rest)

  -- `canonicalize`
  unfoldable pub canonicalize : Json → Result CanonicalError Bytes
  unfolding emit
  canonicalize value = emit value >>= λ written. elim (unicode.utf8 written) [
    | none ↦ err canonical_error
    | some bytes ↦ ok bytes
  ]

-- `digest` raises CanonicalError, or UnicodeEncodeError for a kind that is not ASCII.
pub data DigestError : Type 0 where
  not_ascii not_canonical : DigestError

abbrev pub or_not_canonical : Result CanonicalError Bytes → Result DigestError Bytes
or_not_canonical (ok bytes) = ok bytes
or_not_canonical (err e) = err not_canonical

abbrev digest_prefix : Text
digest_prefix = text "bcx.digest.v1."

-- `digest`; `sha256` is hashlib's, with the hexadecimal text of its result.
unfoldable pub digest :
    Floats → Unicode → (sha256 : Bytes → Text) → Text → Json → Result DigestError Text
unfolding canonicalize all
digest floats unicode sha256 kind value = do
  guard (all (λ c. ltb c 128) kind) not_ascii
  bytes ← or_not_canonical (canonicalize floats unicode value)
  ok (sha256 (digest_prefix ++ kind ++ 46 ∷ bytes))
