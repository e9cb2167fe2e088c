-- ===== src/Bridge/Shutdown.antt =====
-- bridge/core/lifecycle.py, `stop` and the steps it runs: threads, sockets, then files. What calls
-- of the system come to during one `stop` is read from an environment; `stop` runs outside the I/O
-- thread.
pub mod State
pub mod Removal
pub mod Files
pub mod Complete
use blender_design.Common.{
  ℕ, Bool, true, false, not, ◌&&◌, ◌||◌, List, [], ◌∷◌, Option, none, some, ◌==◌, filter,
  if◌then◌else◌,
}
use blender_design.Bridge.Queue.{Queue, drain}
use blender_design.Bridge.Outbox.{Conn, clear_conn}
use blender_design.Bridge.Shutdown.State.{
  Env, FileSystem, NodeKind, SessionPath, Step, World, close_conns, directory, is_none,
  node_matches, path_absent, path_eq, path_matches, regular, remove, remove_own, run_steps,
  session_dir, session_file, sock_tmpdir, socket, socket_path,
}

module _ {C : Type 0} where
  -- `_transport_closed`
  abbrev pub transport_closed : Bool → World C → Bool
  transport_closed alive w =
      not w.listener
      && not w.wake_r
      && not w.wake_w
      && (elim w.conns [ [] ↦ true | _ ∷ _ ↦ false ])
      && (elim w.pending_close [ [] ↦ true | _ ∷ _ ↦ false ])
      && (not w.io || not alive)

  -- `socket_path.parent`
  abbrev pub socket_parent : World C → SessionPath
  socket_parent w = if w.has_sock_tmpdir then sock_tmpdir else session_dir

module _ {C : Type 0} (env : Env) where
  unfoldable pub wake : Step C
  wake w =
      if w.wake_pending || not w.wake_w
      then (true, w)
      else (true, record w { wake_pending = env.wake_succeeds })

  -- `_join_io` waits, and leaves all as it is.
  abbrev pub join_io : Step C
  join_io w = (true, w)

  unfoldable pub retry_pending_closes : World C → World C
  unfolding filter
  retry_pending_closes w = record w {
    pending_close = filter (λ k. env.close_raises k && env.stays_open k) w.pending_close;
  }

  abbrev pub after_closing : List Conn → World C → Bool × World C
  after_closing [] w = (true, retry_pending_closes w)
  after_closing (c ∷ cs) w = (false, w)

  unfoldable pub close_all_conns : Step C
  unfolding close_conns retry_pending_closes
  close_all_conns w =
      let left = close_conns env w.conns in after_closing left (record w { conns = left })

  unfoldable pub close_listener : Step C
  close_listener w = (
    not (w.listener && env.listener_raises)
        && not (w.wake_r && env.wake_r_raises)
        && not (w.wake_w && env.wake_w_raises)
        && not (w.io && env.alive_after_join),
    record w {
      listener = w.listener && env.listener_raises;
      wake_r = w.wake_r && env.wake_r_raises;
      wake_w = w.wake_w && env.wake_w_raises;
      io = w.io && env.alive_after_join;
    },
  )

  abbrev pub drain_if : Option (Queue C) → Step C
  drain_if none w = (true, w)
  drain_if (some q) w = (env.drain_succeeds, record w { queue = some (drain q).0 })

  unfoldable pub drain_queue : Step C
  unfolding drain
  drain_queue w = drain_if w.queue w

  -- The first half of `_unlink_files`.
  unfoldable pub unlink_socket : Step C
  unfolding path_matches remove_own
  unlink_socket w =
      if not w.socket_owned
      then (true, w)
      else if not w.has_socket_path
          || not (path_matches env w.files (socket_parent w) w.socket_parent_identity directory)
      then (false, w)
      else (let (gone, files) = remove_own env socket_path w.socket_identity socket w.files in
          (gone, record w { files = files; socket_owned = not gone }))

  unfoldable pub unlink_session : Step C
  unfolding remove_own
  unlink_session w =
      if w.has_session_dir
      then (let (gone, files) = remove_own env session_file w.session_identity regular w.files in
          (gone, record w { files = files }))
      else (true, w)

  unfoldable pub unlink_files : Step C
  unfolding unlink_socket unlink_session
  unlink_files w = let (gone, v) = unlink_socket w in if gone then unlink_session v else (false, v)

  unfoldable pub remove_dir : Bool → SessionPath → Option ℕ → Step C
  unfolding remove_own
  remove_dir present path expected w =
      if present
      then (let (gone, files) = remove_own env path expected directory w.files in
          (gone, record w { files = files }))
      else (true, w)

  -- The fields that name the directories are read again for the second one; nothing changes them.
  abbrev pub remove_sock_tmpdir : Step C
  remove_sock_tmpdir w = remove_dir w.has_sock_tmpdir sock_tmpdir w.socket_parent_identity w

  abbrev pub remove_session_dir : Step C
  remove_session_dir w = remove_dir w.has_session_dir session_dir w.session_dir_identity w

  unfoldable pub remove_dirs : Step C
  unfolding remove_dir run_steps
  remove_dirs w = run_steps (remove_sock_tmpdir ∷ remove_session_dir ∷ []) w

  abbrev pub hook : Bool → Step C
  hook succeeds w = (succeeds, w)

  abbrev pub close_steps : List (Step C)
  close_steps =
      wake
      ∷ join_io
      ∷ close_all_conns
      ∷ close_listener
      ∷ hook env.timer_succeeds
      ∷ hook env.handlers_succeed
      ∷ drain_queue
      ∷ []

  abbrev pub finish : Bool → World C → Bool × World C
  finish good w =
      let complete = good && transport_closed env.alive_second w in
      (complete, record w { cleanup_complete = complete })

  -- Steps 9 and 10, which need the transport closed.
  unfoldable pub remove_paths : Bool → World C → Bool × World C
  unfolding unlink_files remove_dirs run_steps
  remove_paths good w =
      if transport_closed env.alive_first w
      then (let (removed, v) = run_steps (unlink_files ∷ remove_dirs ∷ []) w in
          finish (good && removed) v)
      else finish false w

  unfoldable pub stop : Step C
  unfolding wake close_all_conns close_listener drain_queue run_steps remove_paths
  stop w =
      let stopping = record w { stopped = true } in
      if w.cleanup_complete
      then (true, stopping)
      else (let (good, v) = run_steps close_steps stopping in remove_paths good v)
