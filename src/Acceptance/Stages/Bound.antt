-- ===== src/Acceptance/Stages/Bound.antt =====
-- The stage R1 passes exactly where the input files are the frozen ones and within the budget.
use blender_design.Common.{
  ◌≡◌, ◌≤◌, ◌↔◌, refl, ap, ◌∙◌, true, subst, String, eq_iff, List, [], Option, none, some, member,
  set_eq, set_eq-member, set_eq_of_member, all, length, leb, NoRepeats, Bool-cases, some-injective,
  inl, inr, arith,
}
use blender_design.Acceptance.Contract.{Contract, InputFile, dict_get}
use blender_design.Acceptance.Dicts.{
  keys, dict_get-some, dict_get-none, keys-agree, all-dict_get, all_of_dict_get,
}
use blender_design.Acceptance.Stages.{
  BoundFile, expected_files, same_file, identity_ok, within, total_bytes, run_r1, unless,
  error_finding,
}
use blender_design.Acceptance.Stages.Locked.{unless-nil}

-- A file is expected and there with that size and digest, or neither.
abbrev pub SameFile : Option InputFile → Option BoundFile → Type 0
SameFile none none = Unit
SameFile (some e) (some f) = (f.bytes ≡ e.bytes) × (f.sha256 ≡ e.sha256)
SameFile _ _ = ⊥

pub record Bound (c : Contract) (files : List (String × BoundFile)) : Type 0 where
  pub same : (key : String) → SameFile (dict_get key (expected_files c)) (dict_get key files)
  pub few : length files ≤ c.budget.max_files
  pub small : total_bytes files ≤ c.budget.max_total_bytes
  pub each_small :
      (key : String) (f : BoundFile)
      → dict_get key files ≡ some f
      → f.bytes ≤ c.budget.max_file_bytes

same_file-SameFile :
    (e : InputFile) (f : BoundFile) → (same_file (some e) f ≡ true) ↔ SameFile (some e) (some f)
same_file-SameFile e f = ground (arith, eq_iff f.sha256 e.sha256)

identity-SameFile :
    (expected : List (String × InputFile)) (files : List (String × BoundFile))
    → set_eq (keys files) (keys expected) ≡ true
    → all (λ (p : String × BoundFile). same_file (dict_get p.0 expected) p.1) files ≡ true
    → (key : String) → SameFile (dict_get key expected) (dict_get key files)
identity-SameFile expected files e h key = elim (Bool-cases (member key (keys expected))) [
  | inl m ↦
      let (t, p) = dict_get-some key expected m in
      let (f, q) = dict_get-some key files (set_eq-member key (keys files) (keys expected) e ∙ m) in
      let tested = all-dict_get (λ k v. same_file (dict_get k expected) v) files h key f q in
      rw (p, q) ((same_file-SameFile t f).0 (subst (λ o. same_file o f ≡ true) p tested))
  | inr m ↦
      rw
        (
          dict_get-none key expected m,
          dict_get-none key files (set_eq-member key (keys files) (keys expected) e ∙ m),
        )
        tt
]

SameFile-same : (e : Option InputFile) (f : BoundFile) → SameFile e (some f) → same_file e f ≡ true
SameFile-same none f h = refl
SameFile-same (some e) f h = (same_file-SameFile e f).1 h

module _ (c : Contract) (files : List (String × BoundFile)) where
  bound : identity_ok c files ≡ true → within c files ≡ true → Bound c files
  unfolding identity_ok within
  bound h k = record {
    same = identity-SameFile (expected_files c) files (ground arith) (ground arith);
    few = ground arith;
    small = ground arith;
    each_small = λ key f e.
        let t =
          all-dict_get (λ k v. leb v.bytes c.budget.max_file_bytes) files (ground arith) key f e in
        ground arith;
  }

  bound-ok :
      NoRepeats (keys files)
      → Bound c files
      → (identity_ok c files ≡ true) × (within c files ≡ true)
  unfolding identity_ok within
  bound-ok n b =
      let e =
        set_eq_of_member (keys files) (keys (expected_files c))
          (keys-agree SameFile (expected_files c) files (λ e h. h) (λ f h. h) b.same) in
      let s =
        all_of_dict_get (λ k v. same_file (dict_get k (expected_files c)) v) files n
          (λ k v q.
            SameFile-same (dict_get k (expected_files c)) v
              (subst (λ o. SameFile (dict_get k (expected_files c)) o) q (b.same k))) in
      let t =
        all_of_dict_get (λ k v. leb v.bytes c.budget.max_file_bytes) files n
          (λ k v q. let r = b.each_small k v q in ground arith) in
      (ground arith, ground (arith, b.few, b.small))

  -- The stage R1 has no finding exactly where every file of the contract is there with its size and
  -- its digest and no other file is, and the number of files, their total size and each single size
  -- are within the budget; the files are a mapping, with each key once.
  pub run_r1-Bound :
      NoRepeats (keys files)
      → ((dict_get "r1.input.digest_recorded" (run_r1 c files) ≡ some [])
          × (dict_get "r1.input.size_within_limit" (run_r1 c files) ≡ some []))
        ↔ Bound c files
  unfolding run_r1 dict_get
  run_r1-Bound n =
      let f = error_finding "input_identity_mismatch" none in
      let g = error_finding "input_budget_exceeded" none in
      let u = unless-nil (identity_ok c files) f in
      let v = unless-nil (within c files) g in
      (
        (λ h.
            bound (u.0 (some-injective (unless (identity_ok c files) f) [] h.0))
              (v.0 (some-injective (unless (within c files) g) [] h.1))),
        (λ b. let (i, w) = bound-ok n b in (ap some (u.1 i), ap some (v.1 w))),
      )
