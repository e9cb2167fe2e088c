-- ===== src/Acceptance/Dicts.antt =====
-- Dicts built from pairs, as acceptance/decide.py and acceptance/stages.py build them: what is found
-- under a key, and tests of all keys.
use blender_design.Common.{
  ◌≡◌, refl, sym, ◌∙◌, subst, Bool, true, false, String, eq_iff, List, [], ◌∷◌, map, Option, none,
  some, member, distinct, NoRepeats, all, Bool-cases, Option-cases, inl, inr, arith,
}
use text.Mathlib.Text.{◌==◌}
use blender_design.Acceptance.Contract.{dict_get}

abbrev pub keys {ℓ} : {V : Type ℓ} → List (String × V) → List String
keys = map (λ p. p.0)

pub dict_get-some :
    {V : Type 0} (k : String) (ps : List (String × V))
    → member k (keys ps) ≡ true
    → (v : V) × (dict_get k ps ≡ some v)
unfolding dict_get member
dict_get-some k [] h = cc
dict_get-some k ((j, v) ∷ rest) h = elim (Option-cases (dict_get k rest)) [
  | inr (w, e) ↦ (w, ground arith)
  | inl e ↦ (
    v,
    elim (Bool-cases (member k (keys rest))) [
      | inl m ↦ let (w, q) = dict_get-some k rest m in cc
      | inr m ↦ let p = eq_iff k j in let q = eq_iff j k in ground arith
    ],
  )
]

pub dict_get-none :
    {V : Type 0} (k : String) (ps : List (String × V))
    → member k (keys ps) ≡ false
    → dict_get k ps ≡ none
unfolding dict_get member
dict_get-none k [] h = refl
dict_get-none k ((j, v) ∷ rest) h = ground (arith, dict_get-none k rest, eq_iff k j, eq_iff j k)

pub member-distinct : (k : String) (xs : List String) → member k (distinct xs) ≡ member k xs
unfolding distinct member
member-distinct k [] = refl
member-distinct k (x ∷ xs) = ground (arith, member-distinct k xs, eq_iff k x)

pub all-member :
    (p : String → Bool) (xs : List String)
    → all p xs ≡ true
    → (k : String) → member k xs ≡ true
    → p k ≡ true
unfolding all member
all-member p [] h k m = cc
all-member p (x ∷ xs) h k m = elim (Bool-cases (k == x)) [
  | inl e ↦ let q = (eq_iff k x).0 e in rw q (ground arith)
  | inr e ↦ all-member p xs (ground arith) k (ground arith)
]

pub all_of_member :
    (p : String → Bool) (xs : List String)
    → ((k : String) → member k xs ≡ true → p k ≡ true)
    → all p xs ≡ true
unfolding all member
all_of_member p [] h = refl
all_of_member p (x ∷ xs) h =
    ground (arith, h x, eq_iff x x, all_of_member p xs (λ k m. h k (ground arith)))

pub all-dict_get :
    {V : Type 0} (t : String → V → Bool) (ps : List (String × V))
    → all (λ (p : String × V). t p.0 p.1) ps ≡ true
    → (k : String) (v : V) → dict_get k ps ≡ some v
    → t k v ≡ true
unfolding all dict_get
all-dict_get t [] h k v e = cc
all-dict_get t ((j, u) ∷ rest) h k v e = elim (Option-cases (dict_get k rest)) [
  | inr (w, q) ↦ all-dict_get t rest (ground arith) k v (ground arith)
  | inl q ↦ elim (Bool-cases (j == k)) [
    | inl m ↦
        let p = (eq_iff j k).0 m in
        let same : u ≡ v = ground arith in rw (← p, ← same) (ground arith)
    | inr m ↦ ground arith
  ]
]

pub all_of_dict_get :
    {V : Type 0} (t : String → V → Bool) (ps : List (String × V))
    → NoRepeats (keys ps)
    → ((k : String) (v : V) → dict_get k ps ≡ some v → t k v ≡ true)
    → all (λ (p : String × V). t p.0 p.1) ps ≡ true
unfolding all dict_get
all_of_dict_get t [] n h = refl
all_of_dict_get t ((j, u) ∷ rest) n h =
    let none_left = dict_get-none j rest n.0 in
    let first = h j u (ground (arith, eq_iff j j)) in
    let others = all_of_dict_get t rest n.1 (λ k v e. h k v (ground arith)) in ground arith

-- Dicts that agree at each key, in a sense that tells a missing key, have the same keys.
pub keys-agree :
    {A B : Type 0} (P : Option A → Option B → Type 0) (xs : List (String × A))
    (ys : List (String × B))
    → ((a : A) → P (some a) none → ⊥)
    → ((b : B) → P none (some b) → ⊥)
    → ((k : String) → P (dict_get k xs) (dict_get k ys))
    → (k : String) → member k (keys ys) ≡ member k (keys xs)
keys-agree P xs ys left right h k = elim (Bool-cases (member k (keys xs))) [
  | inl m ↦ elim (Bool-cases (member k (keys ys))) [
    | inl n ↦ n ∙ sym m
    | inr n ↦
        let (a, p) = dict_get-some k xs m in
        absurd (
          left a
            (subst (P (some a)) (dict_get-none k ys n) (subst (λ o. P o (dict_get k ys)) p (h k))))
  ]
  | inr m ↦ elim (Bool-cases (member k (keys ys))) [
    | inr n ↦ n ∙ sym m
    | inl n ↦
        let (b, p) = dict_get-some k ys n in
        absurd (
          right b
            (subst (λ o. P o (some b)) (dict_get-none k xs m) (subst (P (dict_get k xs)) p (h k))))
  ]
]
