-- ===== src/Acceptance/Canonical/Order.antt =====
-- The canonical form does not depend on the order in which the members of objects stand.
use blender_design.Common.{
  guard, ◌>>◌, all, ltb, ◌≡◌, ◌≢◌, refl, sym, ap, ◌∙◌, subst, true, false, List, [], ◌∷◌, ◌++◌,
  none, some, Result, ok, err, ◌>>=◌, >>=-eq-ok, map, insert_by, insert_by_comm, sort_by,
  Bool-cases, Option-cases, inl, inr, arith,
}
use blender_design.Protocol.Framing.{Bytes}
use blender_design.Protocol.Json.{Text, text, Json, arr, obj, Items, nil, cons, Fields, end, field}
use blender_design.Acceptance.Canonical.Numbers.{CanonicalError, canonical_error, Floats}
use blender_design.Acceptance.Canonical.{
  Unicode, Member, member_lt, bytes_lt, check_string, join_commas, sort_bytes, member_of, and_more,
  emit, emit_items, emit_fields, canonicalize, digest, not_ascii, or_not_canonical,
}

bytes_lt-asym : (xs ys : Bytes) → bytes_lt xs ys ≡ true → bytes_lt ys xs ≡ false
unfolding bytes_lt
bytes_lt-asym [] [] h = cc
bytes_lt-asym [] (y ∷ ys) h = refl
bytes_lt-asym (x ∷ xs) [] h = cc
bytes_lt-asym (x ∷ xs) (y ∷ ys) h = ground (arith, bytes_lt-asym xs ys)

bytes_lt-split :
    (xs ys zs : Bytes) → bytes_lt zs xs ≡ false → bytes_lt zs ys ≡ true → bytes_lt xs ys ≡ true
unfolding bytes_lt
bytes_lt-split [] [] [] a b = cc
bytes_lt-split [] (y ∷ ys) zs a b = refl
bytes_lt-split [] [] (z ∷ zs) a b = cc
bytes_lt-split (x ∷ xs) ys [] a b = cc
bytes_lt-split (x ∷ xs) [] (z ∷ zs) a b = cc
bytes_lt-split (x ∷ xs) (y ∷ ys) (z ∷ zs) a b = ground (arith, bytes_lt-split xs ys zs)

bytes_lt-total : (xs ys : Bytes) → bytes_lt xs ys ≡ false → bytes_lt ys xs ≡ false → xs ≡ ys
unfolding bytes_lt
bytes_lt-total [] [] a b = refl
bytes_lt-total [] (y ∷ ys) a b = cc
bytes_lt-total (x ∷ xs) [] a b = cc
bytes_lt-total (x ∷ xs) (y ∷ ys) a b = ground (arith, bytes_lt-total xs ys)

-- Members with different bytes may stand either way round before sorting.
sort_by-swap :
    (a b : Member) (rest : List Member)
    → a.0 ≢ b.0
    → sort_by member_lt (a ∷ (b ∷ rest)) ≡ sort_by member_lt (b ∷ (a ∷ rest))
unfolding sort_by
sort_by-swap a b rest n = elim (Bool-cases (bytes_lt a.0 b.0)) [
  | inl h ↦ comm a b h
  | inr h ↦ elim (Bool-cases (bytes_lt b.0 a.0)) [
    | inl k ↦ sym (comm b a k)
    | inr k ↦ absurd (n (bytes_lt-total a.0 b.0 h k))
  ]
]
  where
    comm :
        (x y : Member)
        → member_lt x y ≡ true
        → insert_by member_lt x (insert_by member_lt y (sort_by member_lt rest))
          ≡ insert_by member_lt y (insert_by member_lt x (sort_by member_lt rest))
    comm x y h =
        insert_by_comm member_lt (λ x y z. bytes_lt-split x.0 y.0 z.0)
          (λ x y. bytes_lt-asym x.0 y.0) x y (sort_by member_lt rest) h

-- The same JSON value, but for the order of members with different keys.
mutual
  pub data SameValue : Json → Json → Type 0 where
    same : (v : Json) → SameValue v v
    same_items : {xs ys : Items} → SameItems xs ys → SameValue (arr xs) (arr ys)
    same_fields : {fs gs : Fields} → SameFields fs gs → SameValue (obj fs) (obj gs)

  pub data SameItems : Items → Items → Type 0 where
    no_items : SameItems nil nil
    both_items :
        {v w : Json} {xs ys : Items}
        → SameValue v w
        → SameItems xs ys
        → SameItems (cons v xs) (cons w ys)

  pub data SameFields : Fields → Fields → Type 0 where
    no_fields : SameFields end end
    both_fields :
        {k : Text} {v w : Json} {fs gs : Fields}
        → SameValue v w
        → SameFields fs gs
        → SameFields (field k v fs) (field k w gs)
    swapped :
        {j k : Text} {v w : Json} {fs : Fields}
        → j ≢ k
        → SameFields (field j v (field k w fs)) (field k w (field j v fs))
    trans : {fs gs hs : Fields} → SameFields fs gs → SameFields gs hs → SameFields fs hs

abbrev sorted : Result CanonicalError (List Member) → Result CanonicalError (List Member)
sorted r = r >>= λ members. ok (sort_by member_lt members)

abbrev insert_more :
    Result CanonicalError Member
    → Result CanonicalError (List Member)
    → Result CanonicalError (List Member)
insert_more first rest = first >>= λ a. (rest >>= λ members. ok (insert_by member_lt a members))

sorted-and_more :
    (first : Result CanonicalError Member) (rest : Result CanonicalError (List Member))
    → sorted (and_more first rest) ≡ insert_more first (sorted rest)
unfolding sort_by
sorted-and_more (err e) rest = refl
sorted-and_more (ok a) (err e) = refl
sorted-and_more (ok a) (ok members) = refl

sort_bytes-eq-ok :
    (unicode : Unicode) (key : Text) (bytes : Bytes)
    → sort_bytes unicode key ≡ ok bytes
    → unicode.utf16_be key ≡ some bytes
unfolding check_string
sort_bytes-eq-ok unicode key bytes h = elim (Option-cases (unicode.utf16_be key)) [
  | inl e ↦ ground arith
  | inr (b, e) ↦ ground arith
]

member_of-eq-ok :
    (unicode : Unicode) (key : Text) (body : Result CanonicalError Text) (a : Member)
    → member_of unicode key body ≡ ok a
    → unicode.utf16_be key ≡ some a.0
member_of-eq-ok unicode key body a h =
    let (bytes, e, h₁) = >>=-eq-ok (sort_bytes unicode key) _ h in
    let (written, f, h₂) = >>=-eq-ok body _ h₁ in
    sort_bytes-eq-ok unicode key a.0 (e ∙ ap ok (first_eq h₂))
  where
    first_eq :
        {b : Bytes} {t : Text} → ◌≡◌ {A = Result CanonicalError Member} (ok (b, t)) (ok a) → b ≡ a.0
    first_eq q = cc

sorted-swapped :
    (m n : Result CanonicalError Member) (rest : Result CanonicalError (List Member))
    → ((a b : Member) → m ≡ ok a → n ≡ ok b → a.0 ≢ b.0)
    → sorted (and_more m (and_more n rest)) ≡ sorted (and_more n (and_more m rest))
sorted-swapped (ok a) (ok b) (ok members) differ =
    ap ok (sort_by-swap a b members (differ a b refl refl))
sorted-swapped (ok a) (ok b) (err e) differ = refl
sorted-swapped (ok a) (err e) rest differ = refl
sorted-swapped (err e) (ok b) rest differ = refl
sorted-swapped (err canonical_error) (err canonical_error) rest differ = refl

abbrev close : List Member → Result CanonicalError Text
close members = ok (123 ∷ join_commas (map (λ (m : Member). m.1) members) ++ 125 ∷ [])

closed_after_sorting :
    (r : Result CanonicalError (List Member))
    → (r >>= λ members. close (sort_by member_lt members)) ≡ (sorted r >>= close)
closed_after_sorting (err e) = refl
closed_after_sorting (ok members) = refl

module _ (floats : Floats) (unicode : Unicode)
    (injective : (s t : Text) (bytes : Bytes)
      → unicode.utf16_be s ≡ some bytes
      → unicode.utf16_be t ≡ some bytes
      → s ≡ t) where
  emit-swapped :
      (j k : Text) (v w : Json) (fs : Fields)
      → j ≢ k
      → sorted (emit_fields floats unicode (field j v (field k w fs)))
        ≡ sorted (emit_fields floats unicode (field k w (field j v fs)))
  unfolding emit
  emit-swapped j k v w fs n =
      sorted-swapped (member_of unicode j (emit floats unicode v))
        (member_of unicode k (emit floats unicode w)) (emit_fields floats unicode fs)
        (λ a b p q e. n (
          injective j k b.0
            (subst (λ x. unicode.utf16_be j ≡ some x) e
              (member_of-eq-ok unicode j (emit floats unicode v) a p))
            (member_of-eq-ok unicode k (emit floats unicode w) b q)))

  mutual
    unfolding emit

    emit-SameValue : {v w : Json} → SameValue v w → emit floats unicode v ≡ emit floats unicode w
    emit-SameValue (same v) = refl
    emit-SameValue (same_items s) =
        ap (λ r. r >>= λ texts. ok (91 ∷ join_commas texts ++ 93 ∷ [])) (emit-SameItems s)
    emit-SameValue (same_fields {fs} {gs} s) =
        closed_after_sorting (emit_fields floats unicode fs)
        ∙ ap (λ r. r >>= close) (emit-SameFields s)
        ∙ sym (closed_after_sorting (emit_fields floats unicode gs))

    emit-SameItems :
        {xs ys : Items}
        → SameItems xs ys
        → emit_items floats unicode xs ≡ emit_items floats unicode ys
    emit-SameItems no_items = refl
    emit-SameItems (both_items {v} {w} {xs} {ys} s t) =
        ap (λ r. and_more r (emit_items floats unicode xs)) (emit-SameValue s)
        ∙ ap (and_more (emit floats unicode w)) (emit-SameItems t)

    emit-SameFields :
        {fs gs : Fields}
        → SameFields fs gs
        → sorted (emit_fields floats unicode fs) ≡ sorted (emit_fields floats unicode gs)
    emit-SameFields no_fields = refl
    emit-SameFields (both_fields {k} {v} {w} {fs} {gs} s t) =
        sorted-and_more (member_of unicode k (emit floats unicode v))
          (emit_fields floats unicode fs)
        ∙ ap (λ r. insert_more (member_of unicode k r) (sorted (emit_fields floats unicode fs)))
            (emit-SameValue s)
        ∙ ap (insert_more (member_of unicode k (emit floats unicode w))) (emit-SameFields t)
        ∙ sym (
            sorted-and_more (member_of unicode k (emit floats unicode w))
              (emit_fields floats unicode gs))
    emit-SameFields (swapped {j} {k} {v} {w} {fs} n) = emit-swapped j k v w fs n
    emit-SameFields (trans s t) = emit-SameFields s ∙ emit-SameFields t

  -- Documents that differ in the order of members only, at any depth, have the same canonical bytes,
  -- or fail alike, and so have the same digest of each kind; different keys have different UTF-16
  -- encodings.
  pub canonicalize-SameValue :
      (v w : Json)
      → SameValue v w
      → (canonicalize floats unicode v ≡ canonicalize floats unicode w)
        × ((sha256 : Bytes → Text) (kind : Text)
            → digest floats unicode sha256 kind v ≡ digest floats unicode sha256 kind w)
  unfolding canonicalize digest
  canonicalize-SameValue v w s =
      let e : canonicalize floats unicode v ≡ canonicalize floats unicode w =
        ap
          (λ r. r >>= λ written. elim (unicode.utf8 written) [
            | none ↦ err canonical_error
            | some bytes ↦ ok bytes
          ])
          (emit-SameValue s) in
      (
        e,
        (λ sha256 kind.
            ap
              (λ r.
                guard (all (λ c. ltb c 128) kind) not_ascii
                >> (or_not_canonical r >>= λ bytes.
                    ok (sha256 (text "bcx.digest.v1." ++ kind ++ 46 ∷ bytes))))
              e),
      )
