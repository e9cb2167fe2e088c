-- ===== src/Acceptance/Strict/Keys.antt =====
-- Which lists of pairs `reject_duplicate_keys` accepts.
use blender_design.Common.{
  ◌≡◌, ◌≢◌, ◌↔◌, refl, sym, ap, ◌∙◌, Bool, true, false, not, ◌||◌, List, [], ◌∷◌, ok, guard-eq-ok,
  arith, Bool-cases, inl, inr,
}
use blender_design.Protocol.Json.{
  Text, text_eq, text_eq_refl, text_eq-eq, Json, Fields, end, field, get_field,
}
use blender_design.Acceptance.FailureCodes.{value_error}
use blender_design.Acceptance.Strict.{
  is_in, set_new, add_pairs, reject_duplicate_keys, pairs_of, reject_duplicate_keys-pairs_of,
}

-- The key stands in none of the pairs.
abbrev pub OtherKeys : Text → List (Text × Json) → Type 0
OtherKeys k [] = Unit
OtherKeys k ((l, v) ∷ pairs) = (l ≢ k) × OtherKeys k pairs

-- Every key stands in one pair only.
abbrev pub OneEach : List (Text × Json) → Type 0
OneEach [] = Unit
OneEach ((k, v) ∷ pairs) = OtherKeys k pairs × OneEach pairs

-- No key of the pairs is in the object.
abbrev AllNew : Fields → List (Text × Json) → Type 0
AllNew result [] = Unit
AllNew result ((k, v) ∷ pairs) = (is_in k result ≡ false) × AllNew result pairs

text_eq-ne : (k l : Text) → text_eq k l ≡ false → l ≢ k
text_eq-ne k l h e = absurd (contra (text_eq k l) h (ap (text_eq k) e ∙ text_eq_refl k))
  where
    contra : (b : Bool) → b ≡ false → b ≡ true → ⊥
    contra b e o = ground arith

ne-text_eq : (k l : Text) → l ≢ k → text_eq k l ≡ false
ne-text_eq k l n = elim (Bool-cases (text_eq k l)) [
  | inl e ↦ absurd (n (sym (text_eq-eq k l e)))
  | inr e ↦ e
]

is_in-set_new :
    (l k : Text) (v : Json) (result : Fields)
    → is_in l (set_new k v result) ≡ (is_in l result || text_eq k l)
unfolding set_new get_field
is_in-set_new l k v end = ground arith
is_in-set_new l k v (field j w rest) = ground (arith, is_in-set_new l k v rest)

AllNew-set_new :
    (k : Text) (v : Json) (result : Fields) (pairs : List (Text × Json))
    → AllNew (set_new k v result) pairs
    → AllNew result pairs × OtherKeys k pairs
AllNew-set_new k v result [] h = (tt, tt)
AllNew-set_new k v result ((l, w) ∷ pairs) h =
    let (a, b) = AllNew-set_new k v result pairs h.1 in
    let (c, d) =
      or-eq-false (is_in l result) (text_eq k l) (sym (is_in-set_new l k v result) ∙ h.0) in
    ((c, a), (text_eq-ne k l d, b))
  where
    or-eq-false : (a b : Bool) → (a || b) ≡ false → (a ≡ false) × (b ≡ false)
    or-eq-false a b h = ground arith

set_new-AllNew :
    (k : Text) (v : Json) (result : Fields) (pairs : List (Text × Json))
    → AllNew result pairs
    → OtherKeys k pairs
    → AllNew (set_new k v result) pairs
set_new-AllNew k v result [] a o = tt
set_new-AllNew k v result ((l, w) ∷ pairs) a o = (
  is_in-set_new l k v result ∙ both (is_in l result) (text_eq k l) a.0 (ne-text_eq k l o.0),
  set_new-AllNew k v result pairs a.1 o.1,
)
  where
    both : (a b : Bool) → a ≡ false → b ≡ false → (a || b) ≡ false
    both a b p q = ground arith

add_pairs-OneEach :
    (pairs : List (Text × Json)) (result : Fields) {out : Fields}
    → add_pairs result pairs ≡ ok out
    → AllNew result pairs × OneEach pairs
unfolding add_pairs
add_pairs-OneEach [] result h = (tt, tt)
add_pairs-OneEach ((k, v) ∷ pairs) result h =
    let (new, h₁) = guard-eq-ok (not (is_in k result)) value_error _ h in
    let (a, one) = add_pairs-OneEach pairs (set_new k v result) h₁ in
    let (b, o) = AllNew-set_new k v result pairs a in ((negated (is_in k result) new, b), (o, one))
  where
    negated : (b : Bool) → not b ≡ true → b ≡ false
    negated b h = ground arith

OneEach-add_pairs :
    (pairs : List (Text × Json)) (result : Fields)
    → AllNew result pairs
    → OneEach pairs
    → (out : Fields) × (add_pairs result pairs ≡ ok out)
unfolding add_pairs
OneEach-add_pairs [] result a one = (result, refl)
OneEach-add_pairs ((k, v) ∷ pairs) result a one =
    let (out, e) =
      OneEach-add_pairs pairs (set_new k v result) (set_new-AllNew k v result pairs a.1 one.0)
        one.1 in
    (out, rw a.0 e)

end-AllNew : (pairs : List (Text × Json)) → AllNew end pairs
unfolding get_field
end-AllNew [] = tt
end-AllNew ((k, v) ∷ pairs) = (refl, end-AllNew pairs)

-- The pairs of a JSON object are read if and only if no two of them have the same key; the object
-- then has all of the pairs, in their order.
pub reject_duplicate_keys_iff :
    (pairs : List (Text × Json))
    → ((out : Fields) × (reject_duplicate_keys pairs ≡ ok out) × (pairs_of out ≡ pairs))
      ↔ OneEach pairs
unfolding reject_duplicate_keys
reject_duplicate_keys_iff pairs = (
  λ (out, e, same). (add_pairs-OneEach pairs end e).1,
  λ one.
      let (out, e) = OneEach-add_pairs pairs end (end-AllNew pairs) one in
      (out, e, reject_duplicate_keys-pairs_of pairs e),
)
