-- ===== src/Bridge/Shutdown/Complete.antt =====
-- A `stop` that says that it is complete: what it has left, and what a second one does.
use blender_design.Common.{
  if_either, ℕ, ◌≡◌, refl, sym, ap, ◌∙◌, subst, Bool, true, false, not, ◌&&◌, [], ◌∷◌, Option, none,
  some, inl, inr, arith,
}
use mathlib.Core.Bool.{and-eq-true_iff}
use blender_design.Bridge.Shutdown.State.{
  SessionPath, session_dir, sock_tmpdir, socket_path, session_file, path_eq, NodeKind, directory,
  socket, regular, other_kind, FileSystem, Env, World, Step, run_steps, is_none, path_absent,
  node_matches, put, unlink, rmdir, remove, remove_own,
}
use blender_design.Bridge.Shutdown.{
  unlink_socket, unlink_session, unlink_files, remove_dir, remove_sock_tmpdir, remove_session_dir,
  remove_dirs, close_steps, transport_closed, finish, remove_paths, stop,
}
use blender_design.Bridge.Shutdown.Removal.{
  remove_own-KeptOrOwn, path_kind, own_identity, Removes, none-not-own,
}
use blender_design.Bridge.Shutdown.Files.{
  close_steps-Untouched, unlink_socket-Removes, unlink_session-Removes, unlink_files-Removes,
  remove_dir-Removes, remove_dirs-Removes,
}

is_none-eq : {A : Type 0} (o : Option A) → is_none o ≡ true → o ≡ none
is_none-eq none h = refl
is_none-eq (some a) h = cc

module _ (env : Env) where
  put-gone :
      (path : SessionPath) (files : FileSystem)
      → path_eq path path ≡ true
      → put path none files path ≡ none
  put-gone path files r = rw r refl

  unlink-gone :
      (path : SessionPath) (files : FileSystem)
      → (unlink env path files).0 ≡ true
      → path_eq path path ≡ true
      → (unlink env path files).1 path ≡ none
  unfolding unlink
  unlink-gone path files h r = ground (arith, put-gone path files r)

  rmdir-gone :
      (path : SessionPath) (files : FileSystem)
      → (rmdir env path files).0 ≡ true
      → path_eq path path ≡ true
      → (rmdir env path files).1 path ≡ none
  unfolding rmdir
  rmdir-gone path files h r = ground (arith, put-gone path files r)

  remove-gone :
      (kind : NodeKind) (path : SessionPath) (files : FileSystem)
      → (remove env kind path files).0 ≡ true
      → path_eq path path ≡ true
      → (remove env kind path files).1 path ≡ none
  remove-gone directory path files h r = rmdir-gone path files h r
  remove-gone socket path files h r = unlink-gone path files h r
  remove-gone regular path files h r = unlink-gone path files h r
  remove-gone other_kind path files h r = unlink-gone path files h r

  remove_own-gone :
      (path : SessionPath) (expected : Option ℕ) (kind : NodeKind) (files : FileSystem)
      → (remove_own env path expected kind files).0 ≡ true
      → path_eq path path ≡ true
      → (remove_own env path expected kind files).1 path ≡ none
  unfolding remove_own path_absent
  remove_own-gone path expected kind files h r =
      ground (arith, is_none-eq (files path), remove-gone kind path files)

module _ {C : Type 0} (env : Env) where
  -- What is gone stays gone.
  still_gone :
      (w v : World C) (p : SessionPath) → Removes env w v → w.files p ≡ none → v.files p ≡ none
  still_gone w v p r h = elim (r.kept p) [
    | inl e ↦ e ∙ h
    | inr (own, left) ↦ absurd (
        none-not-own (own_identity w p) (path_kind p)
          (subst (λ found. node_matches found (own_identity w p) (path_kind p) ≡ true) h own))
  ]

module _ {C : Type 0} where
  run_two-eq-true :
      (first second : Step C) (w : World C)
      → (run_steps (first ∷ second ∷ []) w).0 ≡ true
      → ((first w).0 ≡ true) × ((second (first w).1).0 ≡ true)
  unfolding run_steps
  run_two-eq-true first second w h = ground arith

module _ {C : Type 0} (env : Env) where
  unlink_socket-gone :
      (w : World C)
      → (unlink_socket env w).0 ≡ true
      → w.socket_owned ≡ true
      → (unlink_socket env w).1.files socket_path ≡ none
  unfolding unlink_socket
  unlink_socket-gone w =
      if_either
        (λ (r : Bool × World C). r.0 ≡ true → w.socket_owned ≡ true → r.1.files socket_path ≡ none)
        (not w.socket_owned) (true, w) _ (λ e h o. absurd (not_both w.socket_owned e o))
        (λ _.
          if_either
            (λ (r : Bool × World C).
              r.0 ≡ true → w.socket_owned ≡ true → r.1.files socket_path ≡ none)
            _ (false, w) _ (λ _ h. absurd (false≢true h))
            (λ _ h o. remove_own-gone env socket_path w.socket_identity socket w.files h refl))
    where
      not_both : (b : Bool) → not b ≡ true → b ≡ true → ⊥
      not_both b e o = ground arith

      false≢true : false ≡ true → ⊥
      false≢true e = cc

  unlink_session-gone :
      (w : World C)
      → (unlink_session env w).0 ≡ true
      → w.has_session_dir ≡ true
      → (unlink_session env w).1.files session_file ≡ none
  unfolding unlink_session
  unlink_session-gone w =
      if_either
        (λ (r : Bool × World C).
          r.0 ≡ true → w.has_session_dir ≡ true → r.1.files session_file ≡ none)
        w.has_session_dir _ (true, w)
        (λ _ h o. remove_own-gone env session_file w.session_identity regular w.files h refl)
        (λ e h o. absurd (different w.has_session_dir e o))
    where
      different : (b : Bool) → b ≡ false → b ≡ true → ⊥
      different b e o = ground arith

  remove_dir-gone :
      (present : Bool) (path : SessionPath) (own : Option ℕ) (w : World C)
      → path_eq path path ≡ true
      → (remove_dir env present path own w).0 ≡ true
      → present ≡ true
      → (remove_dir env present path own w).1.files path ≡ none
  unfolding remove_dir
  remove_dir-gone true path own w r h o = remove_own-gone env path own directory w.files h r
  remove_dir-gone false path own w r h o = cc

  unlink_files-eq-true :
      (w : World C)
      → (unlink_files env w).0 ≡ true
      → ((unlink_socket env w).0 ≡ true)
        × ((unlink_session env (unlink_socket env w).1).0 ≡ true)
        × ((unlink_files env w).1 ≡ (unlink_session env (unlink_socket env w).1).1)
  unfolding unlink_files
  unlink_files-eq-true w =
      if_either
        (λ (r : Bool × World C).
          r.0 ≡ true
          → ((unlink_socket env w).0 ≡ true)
            × ((unlink_session env (unlink_socket env w).1).0 ≡ true)
            × (r.1 ≡ (unlink_session env (unlink_socket env w).1).1))
        (unlink_socket env w).0 _ _ (λ e h. (e, h, refl)) (λ e h. absurd (cc_false h))
    where
      cc_false : false ≡ true → ⊥
      cc_false e = cc

  -- What a complete stop of `w` has left.
  pub record Finished (w v : World C) : Type 0 where
    pub closed : transport_closed env.alive_second v ≡ true
    pub socket_gone : w.socket_owned ≡ true → v.files socket_path ≡ none
    pub session_file_gone : w.has_session_dir ≡ true → v.files session_file ≡ none
    pub session_dir_gone : w.has_session_dir ≡ true → v.files session_dir ≡ none
    pub sock_tmpdir_gone : w.has_sock_tmpdir ≡ true → v.files sock_tmpdir ≡ none
    pub complete_eq : v.cleanup_complete ≡ true
    pub stopped_eq : v.stopped ≡ w.stopped

  -- Steps 9 and 10, where both complete.
  removed :
      (w : World C) (good : Bool)
      → (unlink_files env w).0 ≡ true
      → (remove_dirs env (unlink_files env w).1).0 ≡ true
      → (finish env good (remove_dirs env (unlink_files env w).1).1).0 ≡ true
      → Finished w (finish env good (remove_dirs env (unlink_files env w).1).1).1
  unfolding remove_dirs
  removed w good f d c =
      let (s, n, e) = unlink_files-eq-true w f in
      let u = (unlink_socket env w).1 in
      let x = (unlink_files env w).1 in
      let a = unlink_socket-Removes env w in
      let b = unlink_session-Removes env u in
      let r = unlink_files-Removes env w in
      let t = remove_dirs-Removes env x in
      let (d₁, d₂) = run_two-eq-true (remove_sock_tmpdir env) (remove_session_dir env) x d in
      let y = (remove_sock_tmpdir env x).1 in
      let m =
        remove_dir-Removes env x.has_sock_tmpdir sock_tmpdir x.socket_parent_identity x
          (remove_own-KeptOrOwn env (own_identity x) path_kind sock_tmpdir x.files) in
      let l =
        remove_dir-Removes env y.has_session_dir session_dir y.session_dir_identity y
          (remove_own-KeptOrOwn env (own_identity y) path_kind session_dir y.files) in
      record {
        closed = ground arith;
        socket_gone = λ o. still_gone env x _ socket_path t (
            ap (λ (v : World C). v.files socket_path) e
            ∙ still_gone env u _ socket_path b (unlink_socket-gone w s o));
        session_file_gone = λ o. still_gone env x _ session_file t (
            ap (λ (v : World C). v.files session_file) e
            ∙ unlink_session-gone u n (a.session_dir_eq ∙ o));
        session_dir_gone = λ o.
            remove_dir-gone y.has_session_dir session_dir y.session_dir_identity y refl d₂
              (m.session_dir_eq ∙ r.session_dir_eq ∙ o);
        sock_tmpdir_gone = λ o. still_gone env y _ sock_tmpdir l (
            remove_dir-gone x.has_sock_tmpdir sock_tmpdir x.socket_parent_identity x refl d₁
              (r.sock_tmpdir_eq ∙ o));
        complete_eq = c;
        stopped_eq = t.stopped_eq ∙ r.stopped_eq;
      }

  paths-Finished :
      (good : Bool) (w : World C)
      → (remove_paths env good w).0 ≡ true
      → Finished w (remove_paths env good w).1
  unfolding remove_paths run_steps
  paths-Finished good w =
      if_either (λ (r : Bool × World C). r.0 ≡ true → Finished w r.1)
        (transport_closed env.alive_first w) _ (finish env false w)
        (λ _ h.
          let done = ((and-eq-true_iff good _).0 ((and-eq-true_iff _ _).0 h).0).1 in
          let (f, d) = run_two-eq-true (unlink_files env) (remove_dirs env) w done in
          removed w (good && (run_steps (unlink_files env ∷ remove_dirs env ∷ []) w).0) f d h)
        (λ _ h. absurd (false≢true h))
    where
      false≢true : false ≡ true → ⊥
      false≢true e = cc

-- Stopping what has stopped changes nothing.
stop-again :
    {C : Type 0} (env : Env) (v : World C)
    → v.cleanup_complete ≡ true
    → v.stopped ≡ true
    → stop env v ≡ (true, v)
unfolding stop
stop-again {C} env v c s =
    if_either (λ (r : Bool × World C). r ≡ (true, v)) v.cleanup_complete _ _
      (λ _. ap (λ b. (true, record v { stopped = b })) (sym s))
      (λ e. absurd (different v.cleanup_complete e c))
  where
    different : (b : Bool) → b ≡ false → b ≡ true → ⊥
    different b e o = ground arith

-- A stop that completes has closed the listener, the wake sockets and every connection, leaves none
-- of the session's socket, file and directories at their paths, and makes any later stop return at
-- once without a change, whatever the system does then.
pub stop-Finished :
    {C : Type 0} (env : Env) (w : World C)
    → w.cleanup_complete ≡ false
    → (stop env w).0 ≡ true
    → Finished env (record w { stopped = true }) (stop env w).1
      × ((later : Env) → stop later (stop env w).1 ≡ (true, (stop env w).1))
unfolding stop
stop-Finished {C} env w fresh =
    let stopping : World C = record w { stopped = true } in
    let closed = run_steps (close_steps env) stopping in
    let u = close_steps-Untouched env stopping in
    if_either
      (λ (r : Bool × World C).
        r.0 ≡ true → Finished env stopping r.1 × ((later : Env) → stop later r.1 ≡ (true, r.1)))
      w.cleanup_complete _ (remove_paths env closed.0 closed.1)
      (λ e. absurd (different w.cleanup_complete fresh e))
      (λ _ h.
        let f = paths-Finished env closed.0 closed.1 h in
        (
          record {
            closed = f.closed;
            socket_gone = λ o. f.socket_gone (u.owned_eq ∙ o);
            session_file_gone = λ o. f.session_file_gone (u.session_dir_eq ∙ o);
            session_dir_gone = λ o. f.session_dir_gone (u.session_dir_eq ∙ o);
            sock_tmpdir_gone = λ o. f.sock_tmpdir_gone (u.sock_tmpdir_eq ∙ o);
            complete_eq = f.complete_eq;
            stopped_eq = f.stopped_eq ∙ u.stopped_eq;
          },
          (λ later.
              stop-again later (remove_paths env closed.0 closed.1).1 f.complete_eq
                (f.stopped_eq ∙ u.stopped_eq)),
        ))
  where
    different : (b : Bool) → b ≡ false → b ≡ true → ⊥
    different b e o = ground arith
