-- ===== src/Acceptance/Decide/Priority.antt =====
-- Which failure a verdict reports.
use blender_design.Common.{
  ℕ, ◌≡◌, ◌≤◌, sym, ap, ◌∙◌, ◌⊎◌, inl, inr, Bool, List, [], ◌∷◌, Option, some, ok, >>=-eq-ok, arith,
  Bool-cases, ltb,
}
use blender_design.Acceptance.FailureCodes.{FailureCode, family_priority}
use blender_design.Acceptance.Outcome.{Verdict}
use blender_design.Acceptance.Decide.{min_by_priority, verdict_code, Inputs, decide}
use blender_design.Acceptance.Decide.Parts.{triggers, decide-Run}

abbrev pub Among : FailureCode → List FailureCode → Type 0
Among c [] = ⊥
Among c (d ∷ ds) = (c ≡ d) ⊎ Among c ds

-- Every code of the list is of a family, and none comes before `p` in their order.
abbrev pub NoneBefore : ℕ → List FailureCode → Type 0
NoneBefore p [] = Unit
NoneBefore p (d ∷ ds) = (q : ℕ) × (family_priority d ≡ ok q) × (p ≤ q) × NoneBefore p ds

-- `c` is one of the codes, and has the least priority number.
abbrev pub IsFirst : FailureCode → List FailureCode → Type 0
IsFirst c codes = Among c codes × (p : ℕ) × (family_priority c ≡ ok p) × NoneBefore p codes

same_priority :
    (d : FailureCode) (p q : ℕ) → family_priority d ≡ ok p → family_priority d ≡ ok q → p ≡ q
same_priority d p q h k = cc

pub min_by_priority-IsFirst :
    (best : FailureCode) (codes : List FailureCode) {c : FailureCode}
    → min_by_priority best codes ≡ ok c
    → IsFirst c (best ∷ codes)
unfolding min_by_priority
min_by_priority-IsFirst best [] {c} h =
    let (p, e, h') = >>=-eq-ok (family_priority best) (λ p. ok best) h in
    let q : best ≡ c = cc h' in (inl (sym q), p, rw (← q) e, (p, e, omega arith, tt))
min_by_priority-IsFirst best (d ∷ ds) {c} h =
    let (p, e, h₁) = >>=-eq-ok (family_priority best) _ h in
    let (q, e', h₂) = >>=-eq-ok (family_priority d) _ h₁ in
    elim (Bool-cases (ltb q p)) [
      | inl less ↦
          let (among, r, k, (q', e'', le, b)) = min_by_priority-IsFirst d ds (rw less at h₂) in
          let same = same_priority d q q' e' e'' in
          (inr among, r, k, (p, e, ground arith, (q', e'', le, b)))
      | inr more ↦
          let (among, r, k, (p', e'', le, b)) = min_by_priority-IsFirst best ds (rw more at h₂) in
          let same = same_priority best p p' e e'' in
          (
            elim among [ inl a ↦ inl a | inr a ↦ inr (inr a) ],
            r,
            k,
            (p', e'', le, (q, e', ground arith, b)),
          )
    ]

verdict_code-IsFirst :
    (codes : List FailureCode) (f n : Bool) (d : FailureCode) {code : Option FailureCode}
    → verdict_code codes f n ≡ ok code
    → Among d codes
    → (c : FailureCode) × (code ≡ some c) × IsFirst c codes
unfolding verdict_code
verdict_code-IsFirst [] f n d h a = absurd a
verdict_code-IsFirst (d ∷ ds) f n d' h a =
    let (c, e, h') = >>=-eq-ok (min_by_priority d ds) (λ c. ok (some c)) h in
    (c, cc h', min_by_priority-IsFirst d ds e)

-- Where anything but a failed check went wrong (an infrastructure failure that the caller passed,
-- isolation, missing or repeated checks, files, a forged declaration, a crash, missing or
-- truncated evidence), the verdict reports one of these failures, and none of them comes before it
-- in the order of the families.
pub decide-IsFirst :
    (i : Inputs) (v : Verdict) (d : FailureCode)
    → decide i ≡ ok v
    → Among d (triggers i)
    → (c : FailureCode) × (v.failure_code ≡ some c) × IsFirst c (triggers i)
decide-IsFirst i v d h a =
    let run = decide-Run i v h in
    let (c, e, f) = verdict_code-IsFirst (triggers i) _ _ d run.code_eq a in
    (c, sym (ap (λ (w : Verdict). w.failure_code) run.verdict_eq) ∙ e, f)
