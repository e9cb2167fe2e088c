-- ===== src/Acceptance/Paths.antt =====
-- acceptance/input_bundle.py: the tests on ids and on relative paths.
use Prim.Native.Char.{Char, code}
use blender_design.Common.{
  ℕ, zero, suc, ◌≡◌, refl, Bool, true, false, not, ◌&&◌, ◌||◌, String, str_eq, List, [], ◌∷◌, all,
  leb, ◌==◌, if◌then◌else◌,
}

abbrev in_range : ℕ → ℕ → ℕ → Bool
in_range low high c = leb low c && leb c high

-- [A-Za-z0-9]
abbrev is_alphanumeric : ℕ → Bool
is_alphanumeric c = in_range 65 90 c || in_range 97 122 c || in_range 48 57 c

-- [A-Za-z0-9_.-]
abbrev is_id_char : ℕ → Bool
is_id_char c = is_alphanumeric c || c == 95 || c == 46 || c == 45

-- At most `n` characters of an id.
unfoldable valid_tail : ℕ → String → Bool
valid_tail n String.[] = true
valid_tail zero (String.◌∷◌ c s) = false
valid_tail (suc n) (String.◌∷◌ c s) = is_id_char (code c) && valid_tail n s

-- `_ID.fullmatch(value)`
unfoldable pub valid_id : String → Bool
unfolding valid_tail
valid_id String.[] = false
valid_id (String.◌∷◌ c s) = is_alphanumeric (code c) && valid_tail 127 s

abbrev on_first : Char → List String → List String
on_first c [] = (String.◌∷◌ c "") ∷ []
on_first c (s ∷ rest) = (String.◌∷◌ c s) ∷ rest

-- `value.split("/")`
unfoldable pub segments : String → List String
segments String.[] = "" ∷ []
segments (String.◌∷◌ c s) =
    let rest = segments s in if code c == 47 then "" ∷ rest else on_first c rest

-- `c in value`, for the code of a character
unfoldable has_char : ℕ → String → Bool
has_char n String.[] = false
has_char n (String.◌∷◌ c s) = code c == n || has_char n s

-- PurePosixPath.is_absolute
abbrev is_absolute : String → Bool
is_absolute String.[] = false
is_absolute (String.◌∷◌ c s) = code c == 47

abbrev pub is_ordinary : String → Bool
is_ordinary s = not (str_eq s "" || str_eq s "." || str_eq s "..")

-- Whether `relative_path` returns its argument; it raises `contract_invalid` otherwise.
unfoldable pub relative_path : String → Bool
unfolding segments has_char all
relative_path value =
    not (str_eq value "")
    && not (has_char 92 value)
    && not (has_char 0 value)
    && not (is_absolute value)
    && all is_ordinary (segments value)

paths_sample : all relative_path ("gates.json" ∷ "export/model.glb" ∷ []) ≡ true
unfolding relative_path
paths_sample = refl

escapes_sample : (relative_path "a/../b" || relative_path "/a" || relative_path "a//b") ≡ false
unfolding relative_path
escapes_sample = refl

ids_sample : (valid_id "r0.contract_1" && not (valid_id ".a") && not (valid_id "a/b")) ≡ true
unfolding valid_id
ids_sample = refl
