-- ===== src/Protocol/Json.antt =====
-- The values that Python's json module reads and writes. Reading and writing themselves are
-- parameters of the modules that use them.
use blender_design.Common.{
  ℕ, ◌≡◌, refl, ◌+◌, Bool, true, false, ◌&&◌, List, [], ◌∷◌, Option, none, some, ltb, leb,
  ℕ_discrete, if◌then◌else◌,
}
use mathlib.Core.Logic.{ite, if_pos}
use Prim.Native.Char.{code}
use Prim.Native.String.{String}

-- A Python `str`: its code points, lone surrogates included.
abbrev pub Text : Type 0
Text = List ℕ

abbrev pub text : String → Text
text String.[] = []
text (String.◌∷◌ c s) = code c ∷ text s

pub data ℤ : Type 0 where
  pos negsuc : ℕ → ℤ

-- A float is kept as its literal; an object is a dict, with each key once.
mutual
  pub data Json : Type 0 where
    null : Json
    bool : Bool → Json
    int : ℤ → Json
    float : Text → Json
    str : Text → Json
    arr : Items → Json
    obj : Fields → Json

  pub data Items : Type 0 where
    nil : Items
    cons : Json → Items → Items

  pub data Fields : Type 0 where
    end : Fields
    field : Text → Json → Fields → Fields

unfoldable pub Text_discrete : Discrete Text
unfolding ℕ_discrete
Text_discrete = hlevel ℕ_discrete

-- `==` on texts
unfoldable pub text_eq : Text → Text → Bool
unfolding Text_discrete
text_eq s t = ite (Text_discrete s t) true false

pub text_eq_refl : (s : Text) → text_eq s s ≡ true
unfolding text_eq
text_eq_refl s = if_pos (Text_discrete s s) refl _ _

pub text_eq-eq : (s t : Text) → text_eq s t ≡ true → s ≡ t
unfolding text_eq
text_eq-eq s t h = decided (Text_discrete s t) h
  where
    decided : (d : Dec (s ≡ t)) → ite d true false ≡ true → s ≡ t
    decided (yes e) q = e
    decided (no n) q = cc

-- `raw.get(key)`
unfoldable pub get_field : Text → Fields → Option Json
unfolding text_eq
get_field k end = none
get_field k (field j v rest) = if text_eq j k then some v else get_field k rest

-- The bytes that `encode("utf-8")` writes for a code point, and none for a surrogate, which it
-- refuses.
unfoldable pub utf8_width : ℕ → Option ℕ
utf8_width c =
    if ltb c 128
    then some 1
    else if ltb c 2048
    then some 2
    else if leb 55296 c && leb c 57343
    then none
    else if ltb c 65536
    then some 3
    else some 4

-- `len(value.encode("utf-8"))`; none is UnicodeEncodeError.
unfoldable pub utf8_length : Text → Option ℕ
unfolding utf8_width
utf8_length [] = some 0
utf8_length (c ∷ cs) = elim (utf8_width c) [
  | none ↦ none
  | some w ↦ elim (utf8_length cs) [ none ↦ none | some n ↦ some (w + n) ]
]
