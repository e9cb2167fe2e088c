-- ===== src/Tests/Stopping.antt =====
-- A session that stops with everything in place.
use blender_design.Common.{ℕ, Bool, Option, ◌≡◌, refl, true, false, [], ◌∷◌, none, some, filter}
use blender_design.Bridge.Outbox.{new_conn, clear_conn}
use blender_design.Bridge.Shutdown.State.{
  session_dir, sock_tmpdir, socket_path, session_file, SessionPath, Node, directory, socket,
  regular, FileSystem, Env, World, run_steps, path_matches, path_absent, unlink, rmdir, remove_own,
  close_conns,
}
use blender_design.Bridge.Shutdown.{
  wake, retry_pending_closes, close_all_conns, close_listener, drain_queue, unlink_socket,
  unlink_session, unlink_files, remove_dir, remove_dirs, remove_paths, stop,
}
use blender_design.Bridge.Shutdown.Files.{KeptOrRemoved, stop-KeptOrRemoved}
use blender_design.Bridge.Shutdown.Complete.{Finished, stop-Finished}

abbrev quiet : Env
quiet = record {
  wake_succeeds = true;
  close_raises = λ k. false;
  stays_open = λ k. false;
  listener_raises = false;
  wake_r_raises = false;
  wake_w_raises = false;
  alive_after_join = false;
  alive_first = false;
  alive_second = false;
  timer_succeeds = true;
  handlers_succeed = true;
  drain_succeeds = true;
  unreadable = λ p. false;
  refuses = λ p. false;
  meanwhile = λ p found. found;
}

abbrev files : FileSystem
files session_dir = some (record { identity = 1; kind = directory })
files session_file = some (record { identity = 2; kind = regular })
files socket_path = some (record { identity = 3; kind = socket })
files sock_tmpdir = none

abbrev running : World ℕ
running = record {
  stopped = false;
  cleanup_complete = false;
  wake_pending = false;
  conns = new_conn 7 ∷ [];
  pending_close = 9 ∷ [];
  listener = true;
  wake_r = true;
  wake_w = true;
  io = true;
  queue = none;
  has_socket_path = true;
  has_session_dir = true;
  has_sock_tmpdir = false;
  socket_owned = true;
  socket_identity = some 3;
  socket_parent_identity = some 1;
  session_identity = some 2;
  session_dir_identity = some 1;
  files = files;
}

stops : (stop quiet running).0 ≡ true
unfolding stop wake close_conns retry_pending_closes close_all_conns close_listener drain_queue
    run_steps remove_paths unlink_files unlink_socket unlink_session remove_dirs remove_dir
    remove_own unlink rmdir path_matches path_absent clear_conn filter
stops = refl

-- Another process puts a file of its own in the place of the session file, just after its check,
-- and the session's directory cannot be removed.
abbrev raced : Env
raced = record quiet { refuses = refuses; meanwhile = meanwhile }
  where
    refuses : SessionPath → Bool
    refuses session_dir = true
    refuses _ = false

    meanwhile : SessionPath → Option Node → Option Node
    meanwhile session_file found = some (record { identity = 8; kind = regular })
    meanwhile _ found = found

stop-KeptOrRemoved_example : KeptOrRemoved raced running (stop raced running).1
stop-KeptOrRemoved_example = stop-KeptOrRemoved raced running

stop-Finished_example :
    Finished quiet (record running { stopped = true }) (stop quiet running).1
    × ((later : Env) → stop later (stop quiet running).1 ≡ (true, (stop quiet running).1))
stop-Finished_example = stop-Finished quiet running refl stops
