-- ===== src/Acceptance/Plan/Steps.antt =====
-- What a call of each part of `assemble_plan` that returns has gone through.
use blender_design.Common.{
  ◌≡◌, refl, sym, ◌∙◌, Bool, true, false, not, ◌&&◌, ◌||◌, inl, inr, String, str_eq, List, [], ◌∷◌,
  ◌++◌, append-nil, append_assoc, some, member, NoRepeats, Result, ok, >>=-eq-ok, guard-eq-ok,
  ◌>>=◌, ◌>>◌, arith, Bool-cases, Option-cases, eq_iff,
}
use blender_design.Acceptance.FailureCodes.{Raised, acceptance_failure, contract_invalid}
use blender_design.Acceptance.Registry.{CheckSpec, checks_for_kind, find_spec}
use blender_design.Acceptance.Contract.{Contract, require}
use blender_design.Acceptance.Paths.{relative_path}
use blender_design.Acceptance.Plan.{
  FileSpec, JobSpec, file_ok, file_spec, file_specs, file_ids, claimable, claim_checks, in_job,
  plan_outputs,
}

pub require-eq-ok :
    {B : Type 0} (c : Bool) (next : Result Raised B) {out : B}
    → (require c >> next) ≡ ok out
    → (c ≡ true) × (next ≡ ok out)
unfolding require
require-eq-ok c next h = guard-eq-ok c (acceptance_failure contract_invalid) next h

-- All checks that the jobs claim, and all ids of their outputs.
abbrev pub all_check_ids : List JobSpec → List String
all_check_ids [] = []
all_check_ids (job ∷ jobs) = job.check_ids ++ all_check_ids jobs

abbrev pub all_output_ids : List JobSpec → List String
all_output_ids [] = []
all_output_ids (job ∷ jobs) = file_ids job.outputs ++ all_output_ids jobs

-- Every file lies below the directory of the run, by its path alone.
abbrev pub AllRelative : List FileSpec → Type 0
AllRelative [] = Unit
AllRelative (f ∷ fs) = (relative_path f.path ≡ true) × AllRelative fs

pub AllRelative-append :
    (fs gs : List FileSpec) → AllRelative fs → AllRelative gs → AllRelative (fs ++ gs)
AllRelative-append [] gs h k = k
AllRelative-append (f ∷ fs) gs h k = (h.0, AllRelative-append fs gs h.1 k)

file_spec-eq-ok :
    (f : FileSpec) {g : FileSpec} → file_spec f ≡ ok g → (relative_path f.path ≡ true) × (f ≡ g)
unfolding file_spec file_ok
file_spec-eq-ok f h = let (c, e) = require-eq-ok (file_ok f) (ok f) h in (ground arith, cc e)

pub file_specs-AllRelative :
    (fs : List FileSpec) {gs : List FileSpec} → file_specs fs ≡ ok gs → AllRelative gs
unfolding file_specs
file_specs-AllRelative [] {gs} h = let e : [] ≡ gs = cc h in rw (← e) tt
file_specs-AllRelative (f ∷ fs) {gs} h =
    let (f', e, h₁) = >>=-eq-ok (file_spec f) (λ g. file_specs fs >>= λ hs. ok (g ∷ hs)) h in
    let (fs', e', h₂) = >>=-eq-ok (file_specs fs) (λ hs. ok (f' ∷ hs)) h₁ in
    let same : f' ∷ fs' ≡ gs = cc h₂ in
    let (relative, equal) = file_spec-eq-ok f e in
    rw (← same) (rw (← equal) relative, file_specs-AllRelative fs e')

member-append :
    (k : String) (xs ys : List String) → member k (xs ++ ys) ≡ (member k xs || member k ys)
unfolding member
member-append k [] ys = refl
member-append k (x ∷ xs) ys = ground (arith, member-append k xs ys)

differ_sym : (a b : String) → str_eq a b ≡ false → str_eq b a ≡ false
differ_sym a b h = elim (Bool-cases (str_eq b a)) [
  | inl e ↦ let same = (eq_iff a b).1 (sym ((eq_iff b a).0 e)) in cc
  | inr e ↦ e
]

NoRepeats-snoc :
    (xs : List String) (k : String) → NoRepeats xs → member k xs ≡ false → NoRepeats (xs ++ k ∷ [])
unfolding member
NoRepeats-snoc [] k h e = (refl, tt)
NoRepeats-snoc (x ∷ xs) k h e = (
  ground (arith, member-append x xs (k ∷ []), differ_sym k x),
  NoRepeats-snoc xs k h.1 (ground arith),
)

module _ (contract : Contract) where
  -- Each check is registered for the kind of the artifact, for this writer.
  abbrev pub OwnedBy : String → List String → Type 0
  OwnedBy writer [] = Unit
  OwnedBy writer (k ∷ ks) =
      ((spec : CheckSpec) × (find_spec k (checks_for_kind contract.artifact_kind) ≡ some spec)
        × (spec.writer ≡ writer))
      × OwnedBy writer ks

  abbrev pub Owned : List JobSpec → Type 0
  Owned [] = Unit
  Owned (job ∷ jobs) = OwnedBy job.writer job.check_ids × Owned jobs

  claimable-eq-true :
      (writer : String) (claimed : List String) (k : String)
      → claimable contract writer claimed k ≡ true
      → (member k claimed ≡ false)
        × (spec : CheckSpec) × (find_spec k (checks_for_kind contract.artifact_kind) ≡ some spec)
        × (spec.writer ≡ writer)
  claimable-eq-true writer claimed k h =
      elim (Option-cases (find_spec k (checks_for_kind contract.artifact_kind))) [
        | inl e ↦ absurd (no_check (rw (e, claimable) at h))
        | inr (spec, e) ↦
            let (same, new) = both spec (rw (e, claimable) at h) in
            (new, spec, e, (eq_iff spec.writer writer).0 same)
      ]
    where
      no_check : false ≡ true → ⊥
      no_check q = cc

      both :
          (spec : CheckSpec)
          → (str_eq spec.writer writer && not (member k claimed)) ≡ true
          → (str_eq spec.writer writer ≡ true) × (member k claimed ≡ false)
      both spec q = ground arith

  pub claim_checks-eq-ok :
      (writer : String) (claimed ks : List String) {out : List String}
      → claim_checks contract writer claimed ks ≡ ok out
      → (out ≡ claimed ++ ks) × OwnedBy writer ks × (NoRepeats claimed → NoRepeats out)
  unfolding claim_checks
  claim_checks-eq-ok writer claimed [] {out} h =
      let e : claimed ≡ out = cc h in rw (← e) (sym (append-nil claimed), tt, λ n. n)
  claim_checks-eq-ok writer claimed (k ∷ ks) h =
      let (c, h₁) =
        require-eq-ok (claimable contract writer claimed k)
          (claim_checks contract writer (claimed ++ k ∷ []) ks) h in
      let (new, spec, found, owner) = claimable-eq-true writer claimed k c in
      let (e, owned, once) = claim_checks-eq-ok writer (claimed ++ k ∷ []) ks h₁ in
      (
        e ∙ append_assoc claimed (k ∷ []) ks,
        ((spec, found, owner), owned),
        λ n. once (NoRepeats-snoc claimed k n new),
      )

  pub plan_outputs-eq-ok :
      (job : JobSpec) (known : List String) (files outputs : List FileSpec)
      {out : List String × List FileSpec}
      → plan_outputs contract job known files outputs ≡ ok out
      → (out.0 ≡ known ++ file_ids outputs) × (AllRelative files → AllRelative out.1)
  unfolding plan_outputs
  plan_outputs-eq-ok job known files [] {out} h =
      let e : (known, files) ≡ out = cc h in rw (← e) (sym (append-nil known), λ n. n)
  plan_outputs-eq-ok job known files (output ∷ outputs) {out} h =
      let g : FileSpec = record output { path = in_job contract job.job_id output.path } in
      let next = λ (f : FileSpec).
        plan_outputs contract job (known ++ output.id ∷ []) (files ++ f ∷ []) outputs in
      let (_, h₁) =
        require-eq-ok (str_eq output.writer job.writer && not (str_eq output.path "result.json"))
          (require (not (member output.id known)) >> (file_spec g >>= next)) h in
      let (_, h₂) = require-eq-ok (not (member output.id known)) (file_spec g >>= next) h₁ in
      let (f, e, h₃) = >>=-eq-ok (file_spec g) next h₂ in
      let (relative, equal) = file_spec-eq-ok g e in
      let (same, kept) =
        plan_outputs-eq-ok job (known ++ output.id ∷ []) (files ++ f ∷ []) outputs h₃ in
      (
        same ∙ append_assoc known (output.id ∷ []) (file_ids outputs),
        λ n. kept (AllRelative-append files (f ∷ []) n (rw (← equal) relative, tt)),
      )
