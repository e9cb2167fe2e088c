-- ===== src/Acceptance/Stages/Locked.antt =====
-- The stage R0 passes exactly where the measured tools are the declared ones.
use blender_design.Common.{
  suc, subst, some-injective, ◌≡◌, ◌↔◌, refl, sym, ap, ◌∙◌, Bool, true, false, String, eq_iff, List,
  [], ◌∷◌, Option, none, some, member, distinct, set_eq, set_eq-member, set_eq_of_member, all,
  length, NoRepeats, NoRepeats-of_length, length_of_NoRepeats, Bool-cases, Option-cases, inl, inr,
  arith,
}
use blender_design.Acceptance.Contract.{Contract, Tool, ToolFile, dict_get}
use blender_design.Acceptance.Outcome.{Finding}
use blender_design.Acceptance.Dicts.{
  keys, dict_get-some, dict_get-none, keys-agree, member-distinct, all-member, all_of_member,
}
use blender_design.Acceptance.Stages.{
  MeasuredTool, declared_tools, measured_tools, same_files, same_tool, gltf_error, tools_locked,
  run_r0, unless, error_finding,
}

pub unless-nil : (b : Bool) (f : Finding) → (unless b f ≡ []) ↔ (b ≡ true)
unless-nil true f = ((λ h. refl), (λ h. refl))
unless-nil false f = ((λ h. cc), (λ h. cc))

same_files-eq : (xs ys : List ToolFile) → same_files xs ys ≡ true → xs ≡ ys
unfolding same_files
same_files-eq [] [] h = refl
same_files-eq [] (y ∷ ys) h = cc
same_files-eq (x ∷ xs) [] h = cc
same_files-eq (x ∷ xs) (y ∷ ys) h =
    ground (arith, eq_iff x.path y.path, eq_iff x.sha256 y.sha256, same_files-eq xs ys)

same_files_refl : (xs : List ToolFile) → same_files xs xs ≡ true
unfolding same_files
same_files_refl [] = refl
same_files_refl (x ∷ xs) =
    ground (arith, eq_iff x.path x.path, eq_iff x.sha256 x.sha256, same_files_refl xs)

module _ (resolve : String → String) (verify_blender_gltf : Tool → Option String) where
  -- The measurement of a declared tool: the same digest, version and files, at a path that resolves
  -- to the same place. Nothing is measured that is not declared, or declared and not measured.
  abbrev pub Matches : Option Tool → Option MeasuredTool → Type 0
  Matches none none = Unit
  Matches (some t) (some m) =
      (m.sha256 ≡ t.sha256)
      × (m.version ≡ t.version)
      × (resolve m.path ≡ resolve t.path)
      × (m.files ≡ some t.files)
  Matches _ _ = ⊥

  same_tool-Matches :
      (t : Tool) (m : MeasuredTool)
      → (same_tool resolve verify_blender_gltf (some t) (some m) ≡ true) ↔ Matches (some t) (some m)
  unfolding same_tool
  same_tool-Matches t m = elim (Option-cases m.files) [
    | inl e ↦ ground (
      arith,
      eq_iff m.sha256 t.sha256,
      eq_iff m.version t.version,
      eq_iff (resolve m.path) (resolve t.path),
    )
    | inr (fs, e) ↦ ground (
      arith,
      eq_iff m.sha256 t.sha256,
      eq_iff m.version t.version,
      eq_iff (resolve m.path) (resolve t.path),
      same_files-eq fs t.files,
      same_files_refl fs,
    )
  ]

  pub record Locked (c : Contract) (tools_measured : List MeasuredTool) : Type 0 where
    pub once : NoRepeats (keys (measured_tools tools_measured))
    pub no_gltf_error : gltf_error resolve verify_blender_gltf c ≡ none
    pub same :
        (key : String)
        → Matches (dict_get key (declared_tools c)) (dict_get key (measured_tools tools_measured))

  length-keys : (ms : List MeasuredTool) → length (keys (measured_tools ms)) ≡ length ms
  length-keys [] = refl
  length-keys (m ∷ ms) = ap suc (length-keys ms)

  -- The tests of all declared keys, key by key.
  same-Matches :
      (declared : List (String × Tool)) (measured : List (String × MeasuredTool))
      → set_eq (keys measured) (keys declared) ≡ true
      → all
          (λ key.
            same_tool resolve verify_blender_gltf (dict_get key declared) (dict_get key measured))
          (distinct (keys declared))
        ≡ true
      → (key : String) → Matches (dict_get key declared) (dict_get key measured)
  same-Matches declared measured e h key = elim (Bool-cases (member key (keys declared))) [
    | inl m ↦
        let (t, p) = dict_get-some key declared m in
        let (n, q) =
          dict_get-some key measured (set_eq-member key (keys measured) (keys declared) e ∙ m) in
        let tested =
          all-member
            (λ k. same_tool resolve verify_blender_gltf (dict_get k declared) (dict_get k measured))
            (distinct (keys declared)) h key (member-distinct key (keys declared) ∙ m) in
        rw (p, q)
          ((same_tool-Matches t n).0 (
            subst (λ o. same_tool resolve verify_blender_gltf (some t) o ≡ true) q
              (subst (λ o. same_tool resolve verify_blender_gltf o (dict_get key measured) ≡ true) p
                tested)))
    | inr m ↦
        rw
          (
            dict_get-none key declared m,
            dict_get-none key measured (set_eq-member key (keys measured) (keys declared) e ∙ m),
          )
          tt
  ]

  Matches-same :
      (t : Option Tool) (m : Option MeasuredTool) {v : Tool}
      → t ≡ some v
      → Matches t m
      → same_tool resolve verify_blender_gltf t m ≡ true
  Matches-same none m e h = cc
  Matches-same (some t) none e h = absurd h
  Matches-same (some t) (some m) e h = (same_tool-Matches t m).1 h

  tools_locked-Locked :
      (c : Contract) (ms : List MeasuredTool)
      → (tools_locked resolve verify_blender_gltf c ms ≡ true) ↔ Locked c ms
  unfolding tools_locked
  tools_locked-Locked c ms = (forward, back)
    where
      forward : tools_locked resolve verify_blender_gltf c ms ≡ true → Locked c ms
      forward h = record {
        once = NoRepeats-of_length (keys (measured_tools ms)) (ground (arith, length-keys ms));
        no_gltf_error = elim (Option-cases (gltf_error resolve verify_blender_gltf c)) [
          | inl e ↦ e
          | inr (x, e) ↦ ground arith
        ];
        same = same-Matches (declared_tools c) (measured_tools ms) (ground arith) (ground arith);
      }

      back : Locked c ms → tools_locked resolve verify_blender_gltf c ms ≡ true
      back l =
          let a = length_of_NoRepeats (keys (measured_tools ms)) l.once in
          let b = set_eq_of_member (keys (measured_tools ms)) (keys (declared_tools c)) (
            keys-agree Matches (declared_tools c) (measured_tools ms) (λ t h. h) (λ m h. h)
              l.same) in
          let d =
            all_of_member
              (λ k.
                same_tool resolve verify_blender_gltf (dict_get k (declared_tools c))
                  (dict_get k (measured_tools ms)))
              (distinct (keys (declared_tools c)))
              (λ k m.
                Matches-same (dict_get k (declared_tools c)) (dict_get k (measured_tools ms))
                  (dict_get-some k (declared_tools c)
                    (sym (member-distinct k (keys (declared_tools c))) ∙ m)).1
                  (l.same k)) in
          ground (arith, length-keys ms, l.no_gltf_error)

  -- The check of the tools has no finding exactly where no id is measured twice, each id is declared
  -- and measured or neither, a declared tool has the digest, the version and the files that were
  -- measured and the same resolved path, and Blender's glTF files, where they matter, are verified.
  pub run_r0-Locked :
      (c : Contract) (tools_measured : List MeasuredTool)
      → (dict_get "r0.contract.tools_locked" (run_r0 resolve verify_blender_gltf c tools_measured)
          ≡ some [])
        ↔ Locked c tools_measured
  unfolding run_r0 dict_get
  run_r0-Locked c ms =
      let f = error_finding "tool_identity_mismatch" (gltf_error resolve verify_blender_gltf c) in
      let u = unless-nil (tools_locked resolve verify_blender_gltf c ms) f in
      let l = tools_locked-Locked c ms in
      (
        (λ h.
            l.0 (
              u.0
                (some-injective (unless (tools_locked resolve verify_blender_gltf c ms) f) [] h))),
        (λ h. ap some (u.1 (l.1 h))),
      )
