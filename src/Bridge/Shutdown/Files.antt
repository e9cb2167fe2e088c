-- ===== src/Bridge/Shutdown/Files.antt =====
-- What `stop` does to the file system: it removes nothing that its check did not find to be the
-- session's own.
use blender_design.Common.{
  if_either, ℕ, ◌≡◌, ◌⊎◌, refl, ap, ◌∙◌, subst, Bool, true, false, not, ◌||◌, List, [], ◌∷◌, Option,
  none, some, Bool-cases, inl, inr,
}
use blender_design.Bridge.Outbox.{Conn}
use blender_design.Bridge.Queue.{Queue}
use blender_design.Bridge.Shutdown.State.{
  SessionPath, session_dir, sock_tmpdir, socket_path, session_file, directory, Env, World,
  run_steps, node_matches, path_matches, remove_own, close_conns,
}
use blender_design.Bridge.Shutdown.{
  wake, close_all_conns, close_listener, drain_queue, drain_if, unlink_socket, unlink_session,
  unlink_files, remove_dir, remove_sock_tmpdir, remove_session_dir, remove_dirs, close_steps,
  transport_closed, finish, remove_paths, stop, retry_pending_closes, after_closing, socket_parent,
}
use blender_design.Bridge.Shutdown.Removal.{
  KeptOrOwn, Replaced, Removes, Removes-trans, Untouched, Untouched-trans, nothing_removed,
  own_identity, path_kind, remove_own-KeptOrOwn, run_steps-Each, untouched,
}

module _ {C : Type 0} (env : Env) where
  wake-Untouched : (w : World C) → Untouched w (wake env w).1
  unfolding wake
  wake-Untouched w = elim (Bool-cases (w.wake_pending || not w.wake_w)) [
    | inl e ↦ rw e (untouched w)
    | inr e ↦ rw e (record {
      files_eq = refl;
      own_eq = refl;
      stopped_eq = refl;
      session_dir_eq = refl;
      sock_tmpdir_eq = refl;
      owned_eq = refl;
    })
  ]

  after_closing-Untouched :
      (left : List Conn) (w : World C) → Untouched w (after_closing env left w).1
  unfolding retry_pending_closes
  after_closing-Untouched [] w = record {
    files_eq = refl;
    own_eq = refl;
    stopped_eq = refl;
    session_dir_eq = refl;
    sock_tmpdir_eq = refl;
    owned_eq = refl;
  }
  after_closing-Untouched (c ∷ cs) w = untouched w

  close_all_conns-Untouched : (w : World C) → Untouched w (close_all_conns env w).1
  unfolding close_all_conns
  close_all_conns-Untouched w =
      Untouched-trans w (record w { conns = close_conns env w.conns })
        (after_closing env (close_conns env w.conns)
          (record w { conns = close_conns env w.conns })).1
        (record {
          files_eq = refl;
          own_eq = refl;
          stopped_eq = refl;
          session_dir_eq = refl;
          sock_tmpdir_eq = refl;
          owned_eq = refl;
        })
        (after_closing-Untouched (close_conns env w.conns)
          (record w { conns = close_conns env w.conns }))

  close_listener-Untouched : (w : World C) → Untouched w (close_listener env w).1
  unfolding close_listener
  close_listener-Untouched w = record {
    files_eq = refl;
    own_eq = refl;
    stopped_eq = refl;
    session_dir_eq = refl;
    sock_tmpdir_eq = refl;
    owned_eq = refl;
  }

  drain_if-Untouched : (q : Option (Queue C)) (w : World C) → Untouched w (drain_if env q w).1
  drain_if-Untouched none w = untouched w
  drain_if-Untouched (some q) w = record {
    files_eq = refl;
    own_eq = refl;
    stopped_eq = refl;
    session_dir_eq = refl;
    sock_tmpdir_eq = refl;
    owned_eq = refl;
  }

  drain_queue-Untouched : (w : World C) → Untouched w (drain_queue env w).1
  unfolding drain_queue
  drain_queue-Untouched w = drain_if-Untouched w.queue w

  pub close_steps-Untouched : (w : World C) → Untouched w (run_steps (close_steps env) w).1
  close_steps-Untouched = run_steps-Each Untouched untouched Untouched-trans (close_steps env) (
    wake-Untouched,
    (
      untouched,
      (
        close_all_conns-Untouched,
        (close_listener-Untouched, (untouched, (untouched, (drain_queue-Untouched, tt)))),
      ),
    ),
  )

  pub remove_dir-Removes :
      (present : Bool) (path : SessionPath) (own : Option ℕ) (w : World C)
      → KeptOrOwn env
          (own_identity w)
          path_kind
          w.files
          (remove_own env path own directory w.files).1
      → Removes env w (remove_dir env present path own w).1
  unfolding remove_dir
  remove_dir-Removes present path own w k =
      if_either (λ (r : Bool × World C). Removes env w r.1) present _ (true, w)
        (λ _. record {
          kept = k;
          own_eq = refl;
          stopped_eq = refl;
          session_dir_eq = refl;
          sock_tmpdir_eq = refl;
          closed_eq = λ b. refl;
        })
        (λ _. nothing_removed env w)

  pub remove_dirs-Removes : (w : World C) → Removes env w (remove_dirs env w).1
  unfolding remove_dirs
  remove_dirs-Removes w =
      run_steps-Each (Removes env) (nothing_removed env) (Removes-trans env)
        (remove_sock_tmpdir env ∷ remove_session_dir env ∷ [])
        (
          (λ v.
              remove_dir-Removes v.has_sock_tmpdir sock_tmpdir v.socket_parent_identity v
                (remove_own-KeptOrOwn env (own_identity v) path_kind sock_tmpdir v.files)),
          (
            (λ v.
                remove_dir-Removes v.has_session_dir session_dir v.session_dir_identity v
                  (remove_own-KeptOrOwn env (own_identity v) path_kind session_dir v.files)),
            tt,
          ),
        )
        w

  pub unlink_session-Removes : (w : World C) → Removes env w (unlink_session env w).1
  unfolding unlink_session
  unlink_session-Removes w =
      if_either (λ (r : Bool × World C). Removes env w r.1) w.has_session_dir _ (true, w)
        (λ _. record {
          kept = remove_own-KeptOrOwn env (own_identity w) path_kind session_file w.files;
          own_eq = refl;
          stopped_eq = refl;
          session_dir_eq = refl;
          sock_tmpdir_eq = refl;
          closed_eq = λ b. refl;
        })
        (λ _. nothing_removed env w)

  pub unlink_socket-Removes : (w : World C) → Removes env w (unlink_socket env w).1
  unfolding unlink_socket
  unlink_socket-Removes w =
      if_either (λ (r : Bool × World C). Removes env w r.1) (not w.socket_owned) (true, w) _
        (λ _. nothing_removed env w)
        (λ _.
          if_either (λ (r : Bool × World C). Removes env w r.1)
            (not w.has_socket_path
              || not
                  (path_matches env w.files (socket_parent w) w.socket_parent_identity directory))
            (false, w) _ (λ _. nothing_removed env w)
            (λ _. record {
              kept = remove_own-KeptOrOwn env (own_identity w) path_kind socket_path w.files;
              own_eq = refl;
              stopped_eq = refl;
              session_dir_eq = refl;
              sock_tmpdir_eq = refl;
              closed_eq = λ b. refl;
            }))

  pub unlink_files-Removes : (w : World C) → Removes env w (unlink_files env w).1
  unfolding unlink_files
  unlink_files-Removes w =
      let v = (unlink_socket env w).1 in
      if_either (λ (r : Bool × World C). Removes env w r.1) (unlink_socket env w).0
        (unlink_session env v) (false, v)
        (λ _.
          Removes-trans env w v (unlink_session env v).1 (unlink_socket-Removes w)
            (unlink_session-Removes v))
        (λ _. unlink_socket-Removes w)

  -- A path holds what it held, or the transport had been closed and the check of the path found the
  -- session's own node: then it is gone, or holds what other processes put there after the check.
  abbrev pub KeptOrRemoved : World C → World C → Type 0
  KeptOrRemoved w v =
      (p : SessionPath)
      → (v.files p ≡ w.files p)
        ⊎ ((node_matches (w.files p) (own_identity w p) (path_kind p) ≡ true)
            × ((v.files p ≡ none) ⊎ Replaced env p (w.files p) (v.files p))
            × (transport_closed env.alive_first v ≡ true))

  remove_paths-KeptOrRemoved :
      (good : Bool) (w : World C) → KeptOrRemoved w (remove_paths env good w).1
  unfolding remove_paths
  remove_paths-KeptOrRemoved good w =
      if_either (λ (r : Bool × World C). KeptOrRemoved w r.1) (transport_closed env.alive_first w) _
        (finish env false w)
        (λ closed p.
          let r =
            run_steps-Each (Removes env) (nothing_removed env) (Removes-trans env)
              (unlink_files env ∷ remove_dirs env ∷ [])
              (unlink_files-Removes, (remove_dirs-Removes, tt)) w in
          elim (r.kept p) [
            | inl e ↦ inl e
            | inr (own, left) ↦ inr (own, left, r.closed_eq env.alive_first ∙ closed)
          ])
        (λ _ p. inl refl)

  -- Stopping leaves each path of the session as it finds it, unless the check of the path finds there
  -- the node whose identity and kind the session recorded, with listener, wake sockets, connections
  -- and I/O thread closed. Then the path is gone, or holds what other processes make of it between
  -- the check and the removal, in which they may also replace the node that was checked.
  pub stop-KeptOrRemoved : (w : World C) → KeptOrRemoved w (stop env w).1
  unfolding stop
  stop-KeptOrRemoved w =
      let stopping : World C = record w { stopped = true } in
      let closed = run_steps (close_steps env) stopping in
      let u = close_steps-Untouched stopping in
      if_either (λ (r : Bool × World C). KeptOrRemoved w r.1) w.cleanup_complete (true, stopping)
        (remove_paths env closed.0 closed.1) (λ _ p. inl refl)
        (λ _ p. elim (remove_paths-KeptOrRemoved closed.0 closed.1 p) [
          | inl e ↦ inl (e ∙ ap (λ f. f p) u.files_eq)
          | inr (own, left, t) ↦ inr (
            subst (λ found. node_matches found (own_identity w p) (path_kind p) ≡ true)
                (ap (λ f. f p) u.files_eq)
                (subst (λ ids. node_matches (closed.1.files p) (ids p) (path_kind p) ≡ true)
                  u.own_eq own),
            subst
                (λ found.
                  ((remove_paths env closed.0 closed.1).1.files p ≡ none)
                  ⊎ Replaced env p found ((remove_paths env closed.0 closed.1).1.files p))
                (ap (λ f. f p) u.files_eq) left,
            t,
          )
        ])
