-- ===== src/Bridge/Shutdown/Removal.antt =====
-- What removing one path does to the file system, and relations of worlds that steps keep.
use blender_design.Common.{
  ℕ, ◌≡◌, ◌⊎◌, refl, sym, ap, ◌∙◌, subst, Bool, true, ◌||◌, if_either, List, [], ◌∷◌, Option, none,
  Bool-cases, inl, inr, arith,
}
use blender_design.Bridge.Shutdown.State.{
  SessionPath, session_dir, sock_tmpdir, socket_path, session_file, path_eq, put, NodeKind, Node,
  directory, socket, regular, other_kind, is_none, FileSystem, Env, World, Step, run_steps,
  node_matches, path_matches, unlink, rmdir, remove, remove_own,
}
use blender_design.Bridge.Shutdown.{transport_closed}

path_eq-eq : (p q : SessionPath) → path_eq p q ≡ true → p ≡ q
path_eq-eq p q h = ground arith

-- What other processes make of a path between its checks and its removals.
pub data Replaced (env : Env) (p : SessionPath) (before : Option Node) : Option Node → Type 0 where
  as_found : Replaced env p before before
  replaced :
      (found : Option Node)
      → Replaced env p before found
      → Replaced env p before (env.meanwhile p found)

-- A path holds what it held, or its check found the session's own node: then it is gone, or holds
-- what other processes put there.
abbrev pub KeptOrOwn :
    Env → (SessionPath → Option ℕ) → (SessionPath → NodeKind) → FileSystem → FileSystem → Type 0
KeptOrOwn env expected kind before after =
    (p : SessionPath)
    → (after p ≡ before p)
      ⊎ ((node_matches (before p) (expected p) (kind p) ≡ true)
          × ((after p ≡ none) ⊎ Replaced env p (before p) (after p)))

abbrev pub path_kind : SessionPath → NodeKind
path_kind session_dir = directory
path_kind sock_tmpdir = directory
path_kind socket_path = socket
path_kind session_file = regular

-- The identity that the session recorded for a path.
abbrev pub own_identity : {C : Type 0} → World C → SessionPath → Option ℕ
own_identity w session_dir = w.session_dir_identity
own_identity w sock_tmpdir = w.socket_parent_identity
own_identity w socket_path = w.socket_identity
own_identity w session_file = w.session_identity

Replaced-trans :
    (env : Env) (p : SessionPath) (a b : Option Node) {c : Option Node}
    → Replaced env p a b
    → Replaced env p b c
    → Replaced env p a c
Replaced-trans env p a b r as_found = r
Replaced-trans env p a b r (replaced found s) = replaced found (Replaced-trans env p a b r s)

pub none-not-own :
    (expected : Option ℕ) (kind : NodeKind) → node_matches none expected kind ≡ true → ⊥
none-not-own expected kind h = cc

KeptOrOwn-trans :
    (env : Env) (expected : SessionPath → Option ℕ) (kind : SessionPath → NodeKind)
    {a b c : FileSystem}
    → KeptOrOwn env expected kind a b
    → KeptOrOwn env expected kind b c
    → KeptOrOwn env expected kind a c
KeptOrOwn-trans env expected kind {a} {b} {c} f g p = elim (f p) [
  | inl d ↦
      subst
        (λ node.
          (c p ≡ node)
          ⊎ ((node_matches node (expected p) (kind p) ≡ true)
              × ((c p ≡ none) ⊎ Replaced env p node (c p))))
        d (g p)
  | inr (own, left) ↦ elim (g p) [
    | inl e ↦ inr (own, subst (λ node. (node ≡ none) ⊎ Replaced env p (a p) node) (sym e) left)
    | inr (own_after, gone_after) ↦ inr (
      own,
      elim left [
        | inl gone ↦ absurd (
            none-not-own (expected p) (kind p)
              (subst (λ node. node_matches node (expected p) (kind p) ≡ true) gone own_after))
        | inr r ↦ elim gone_after [
          | inl gone ↦ inl gone
          | inr s ↦ inr (Replaced-trans env p (a p) (b p) r s)
        ]
      ],
    )
  ]
]

put-at :
    (path q : SessionPath) (left : Option Node) (files : FileSystem)
    → (put path left files q ≡ files q) ⊎ ((path ≡ q) × (put path left files q ≡ left))
put-at path q left files = elim (Bool-cases (path_eq q path)) [
  | inl d ↦ inr (sym (path_eq-eq q path d), rw d refl)
  | inr d ↦ inl (rw d refl)
]

module _ (env : Env) where
  -- What a removal leaves at its path.
  record Removed (path : SessionPath) (before after : FileSystem) : Type 0 where
    node : Option Node
    after_eq : after ≡ put path node before
    node_eq : (node ≡ none) ⊎ (node ≡ env.meanwhile path (before path))

  unlink-Removed :
      (path : SessionPath) (files : FileSystem) → Removed path files (unlink env path files).1
  unfolding unlink
  unlink-Removed path files =
      if_either (λ (r : Bool × FileSystem). Removed path files r.1) (env.refuses path) _ _
        (λ _. record { node = _; after_eq = refl; node_eq = inr refl })
        (λ _. record { node = none; after_eq = refl; node_eq = inl refl })

  rmdir-Removed :
      (path : SessionPath) (files : FileSystem) → Removed path files (rmdir env path files).1
  unfolding rmdir
  rmdir-Removed path files =
      if_either (λ (r : Bool × FileSystem). Removed path files r.1)
        (env.refuses path || is_none (env.meanwhile path (files path))) _ _
        (λ _. record { node = _; after_eq = refl; node_eq = inr refl })
        (λ _. record { node = none; after_eq = refl; node_eq = inl refl })

  remove-Removed :
      (kind : NodeKind) (path : SessionPath) (files : FileSystem)
      → Removed path files (remove env kind path files).1
  remove-Removed directory path files = rmdir-Removed path files
  remove-Removed socket path files = unlink-Removed path files
  remove-Removed regular path files = unlink-Removed path files
  remove-Removed other_kind path files = unlink-Removed path files

  Removed-at :
      (path q : SessionPath) (before after : FileSystem)
      → Removed path before after
      → (after q ≡ before q)
        ⊎ ((path ≡ q) × ((after q ≡ none) ⊎ Replaced env q (before q) (after q)))
  Removed-at path q before after r = elim (put-at path q r.node before) [
    | inl e ↦ inl (ap (λ f. f q) r.after_eq ∙ e)
    | inr (same, e) ↦
        let at : after q ≡ r.node = ap (λ f. f q) r.after_eq ∙ e in
        inr (
          same,
          elim r.node_eq [
            | inl gone ↦ inl (at ∙ gone)
            | inr found ↦ inr (
                subst (λ node. Replaced env q (before q) node)
                  (sym (at ∙ found ∙ ap (λ p. env.meanwhile p (before p)) same))
                  (replaced (before q) as_found))
          ],
        )
  ]

  pub remove_own-KeptOrOwn :
      (expected : SessionPath → Option ℕ) (kind : SessionPath → NodeKind) (path : SessionPath)
      (files : FileSystem)
      → KeptOrOwn env expected kind files (remove_own env path (expected path) (kind path) files).1
  unfolding remove_own path_matches
  remove_own-KeptOrOwn expected kind path files q =
      elim (Bool-cases (path_matches env files path (expected path) (kind path))) [
        | inr e ↦ rw e (inl refl)
        | inl e ↦ rw e (elim (Removed-at path q files _ (remove-Removed (kind path) path files)) [
          | inl d ↦ inl d
          | inr (same, left) ↦ inr (
            subst (λ p. node_matches (files p) (expected p) (kind p) ≡ true) same (matched e),
            left,
          )
        ])
      ]
    where
      matched :
          path_matches env files path (expected path) (kind path) ≡ true
          → node_matches (files path) (expected path) (kind path) ≡ true
      matched e = ground arith

-- A relation of worlds that steps keep.
module _ {C : Type 0} where
  abbrev pub Each : (World C → World C → Type 0) → List (Step C) → Type 0
  Each R [] = Unit
  Each R (step ∷ steps) = ((w : World C) → R w (step w).1) × Each R steps

  pub run_steps-Each :
      (R : World C → World C → Type 0)
      → ((w : World C) → R w w)
      → ((u v w : World C) → R u v → R v w → R u w)
      → (steps : List (Step C)) → Each R steps
      → (w : World C) → R w (run_steps steps w).1
  unfolding run_steps
  run_steps-Each R same trans [] e w = same w
  run_steps-Each R same trans (step ∷ steps) (e, es) w =
      trans w (step w).1 (run_steps steps (step w).1).1 (e w)
        (run_steps-Each R same trans steps es (step w).1)

  pub record Untouched (w v : World C) : Type 0 where
    pub files_eq : v.files ≡ w.files
    pub own_eq : own_identity v ≡ own_identity w
    pub stopped_eq : v.stopped ≡ w.stopped
    pub session_dir_eq : v.has_session_dir ≡ w.has_session_dir
    pub sock_tmpdir_eq : v.has_sock_tmpdir ≡ w.has_sock_tmpdir
    pub owned_eq : v.socket_owned ≡ w.socket_owned

  pub untouched : (w : World C) → Untouched w w
  untouched w = record {
    files_eq = refl;
    own_eq = refl;
    stopped_eq = refl;
    session_dir_eq = refl;
    sock_tmpdir_eq = refl;
    owned_eq = refl;
  }

  pub Untouched-trans : (u v w : World C) → Untouched u v → Untouched v w → Untouched u w
  Untouched-trans u v w a b = record {
    files_eq = b.files_eq ∙ a.files_eq;
    own_eq = b.own_eq ∙ a.own_eq;
    stopped_eq = b.stopped_eq ∙ a.stopped_eq;
    session_dir_eq = b.session_dir_eq ∙ a.session_dir_eq;
    sock_tmpdir_eq = b.sock_tmpdir_eq ∙ a.sock_tmpdir_eq;
    owned_eq = b.owned_eq ∙ a.owned_eq;
  }

  pub record Removes (env : Env) (w v : World C) : Type 0 where
    pub kept : KeptOrOwn env (own_identity w) path_kind w.files v.files
    pub own_eq : own_identity v ≡ own_identity w
    pub stopped_eq : v.stopped ≡ w.stopped
    pub session_dir_eq : v.has_session_dir ≡ w.has_session_dir
    pub sock_tmpdir_eq : v.has_sock_tmpdir ≡ w.has_sock_tmpdir
    pub closed_eq : (alive : Bool) → transport_closed alive v ≡ transport_closed alive w

  pub nothing_removed : (env : Env) (w : World C) → Removes env w w
  nothing_removed env w = record {
    kept = λ p. inl refl;
    own_eq = refl;
    stopped_eq = refl;
    session_dir_eq = refl;
    sock_tmpdir_eq = refl;
    closed_eq = λ b. refl;
  }

  pub Removes-trans :
      (env : Env) (u v w : World C) → Removes env u v → Removes env v w → Removes env u w
  Removes-trans env u v w a b = record {
    kept =
        KeptOrOwn-trans env (own_identity u) path_kind a.kept
          (subst (λ own. KeptOrOwn env own path_kind v.files w.files) a.own_eq b.kept);
    own_eq = b.own_eq ∙ a.own_eq;
    stopped_eq = b.stopped_eq ∙ a.stopped_eq;
    session_dir_eq = b.session_dir_eq ∙ a.session_dir_eq;
    sock_tmpdir_eq = b.sock_tmpdir_eq ∙ a.sock_tmpdir_eq;
    closed_eq = λ c. b.closed_eq c ∙ a.closed_eq c;
  }
