-- ===== src/Acceptance/Strict.antt =====
-- acceptance/strict_json.py: the hooks that make the JSON reader strict.
pub mod Keys
use blender_design.Common.{
  ◌≡◌, refl, sym, ap, ◌∙◌, Bool, true, false, not, List, [], ◌∷◌, ◌++◌, append-nil, append_assoc,
  none, some, Result, ok, guard, ◌>>◌, guard-eq-ok,
}
use blender_design.Protocol.Json.{Text, text_eq, Json, Fields, end, field, get_field}
use blender_design.Acceptance.FailureCodes.{Raised, value_error}

abbrev pub is_in : Text → Fields → Bool
is_in key fields = elim (get_field key fields) [ none ↦ false | some v ↦ true ]

-- `result[key] = value`, for a new key
unfoldable pub set_new : Text → Json → Fields → Fields
set_new key value end = field key value end
set_new key value (field k v rest) = field k v (set_new key value rest)

-- The loop of `reject_duplicate_keys`.
unfoldable pub add_pairs : Fields → List (Text × Json) → Result Raised Fields
unfolding set_new get_field text_eq
add_pairs result [] = ok result
add_pairs result ((key, value) ∷ pairs) = do
  guard (not (is_in key result)) value_error
  add_pairs (set_new key value result) pairs

unfoldable pub reject_duplicate_keys : List (Text × Json) → Result Raised Fields
unfolding add_pairs
reject_duplicate_keys pairs = add_pairs end pairs

-- `finite_json_float`, over Python's float and its test.
abbrev pub finite_json_float : (is_finite : Text → Bool) → Text → Result Raised Json
finite_json_float is_finite value = do guard (is_finite value) value_error; ok (Json.float value)

-- The pairs of an object, in their order.
abbrev pub pairs_of : Fields → List (Text × Json)
pairs_of end = []
pairs_of (field k v rest) = (k, v) ∷ pairs_of rest

pairs_of-set_new :
    (key : Text) (value : Json) (fields : Fields)
    → pairs_of (set_new key value fields) ≡ pairs_of fields ++ (key, value) ∷ []
unfolding set_new
pairs_of-set_new key value end = refl
pairs_of-set_new key value (field k v rest) =
    ap (λ ps. (k, v) ∷ ps) (pairs_of-set_new key value rest)

add_pairs-pairs_of :
    (pairs : List (Text × Json)) (result : Fields) {out : Fields}
    → add_pairs result pairs ≡ ok out
    → pairs_of out ≡ pairs_of result ++ pairs
unfolding add_pairs
add_pairs-pairs_of [] result {out} h =
    let same : result ≡ out = cc h in rw (← same) (sym (append-nil (pairs_of result)))
add_pairs-pairs_of ((key, value) ∷ pairs) result h =
    let (_, h₁) = guard-eq-ok (not (is_in key result)) value_error _ h in
    add_pairs-pairs_of pairs (set_new key value result) h₁
    ∙ ap (λ ps. ps ++ pairs) (pairs_of-set_new key value result)
    ∙ append_assoc (pairs_of result) ((key, value) ∷ []) pairs

-- An object that is read has the pairs of the text, all of them and in their order.
pub reject_duplicate_keys-pairs_of :
    (pairs : List (Text × Json)) {out : Fields}
    → reject_duplicate_keys pairs ≡ ok out
    → pairs_of out ≡ pairs
unfolding reject_duplicate_keys
reject_duplicate_keys-pairs_of pairs h = add_pairs-pairs_of pairs end h
