-- ===== src/Bridge/Shutdown/State.antt =====
-- bridge/core/lifecycle.py: the state of a session that stops, the nodes at its paths, and the tests
-- and removals of single paths. Other processes change a path between its check and its removal, and
-- at no other time of a stop.
use blender_design.Common.{
  ℕ, Bool, true, false, not, ◌&&◌, ◌||◌, List, [], ◌∷◌, Option, none, some, ◌==◌, if◌then◌else◌,
}
use blender_design.Bridge.Queue.{Queue}
use blender_design.Bridge.Outbox.{Conn, clear_conn}

pub data NodeKind : Type 0 where
  directory socket regular other_kind : NodeKind

-- A node of the file system, by its device and inode.
pub record Node : Type 0 where
  pub identity : ℕ
  pub kind : NodeKind

-- The paths of a session: `sock_tmpdir` is the short directory under /tmp.
pub data SessionPath : Type 0 where
  session_dir sock_tmpdir socket_path session_file : SessionPath

abbrev pub path_eq : SessionPath → SessionPath → Bool
path_eq session_dir session_dir = true
path_eq sock_tmpdir sock_tmpdir = true
path_eq socket_path socket_path = true
path_eq session_file session_file = true
path_eq _ _ = false

abbrev pub kind_eq : NodeKind → NodeKind → Bool
kind_eq directory directory = true
kind_eq socket socket = true
kind_eq regular regular = true
kind_eq _ _ = false

abbrev pub FileSystem : Type 0
FileSystem = SessionPath → Option Node

abbrev pub put : SessionPath → Option Node → FileSystem → FileSystem
put path node files q = if path_eq q path then node else files q

-- The send on the wake socket succeeds where it does not raise OSError, or BlockingIOError only.
pub record Env : Type 0 where
  pub wake_succeeds : Bool
  -- sock.close() raises, and the socket stays open
  pub close_raises : ℕ → Bool
  pub stays_open : ℕ → Bool
  pub listener_raises : Bool
  pub wake_r_raises : Bool
  pub wake_w_raises : Bool
  -- the I/O thread, at the end of the joins and at the two calls of _transport_closed
  pub alive_after_join : Bool
  pub alive_first : Bool
  pub alive_second : Bool
  pub timer_succeeds : Bool
  pub handlers_succeed : Bool
  pub drain_succeeds : Bool
  -- lstat raises another OSError than FileNotFoundError
  pub unreadable : SessionPath → Bool
  -- unlink or rmdir raises another OSError than FileNotFoundError
  pub refuses : SessionPath → Bool
  -- what unlink or rmdir finds at a path, by what its check found there just before: another process
  -- may have removed or replaced it
  pub meanwhile : SessionPath → Option Node → Option Node

pub record World (C : Type 0) : Type 0 where
  pub stopped : Bool
  pub cleanup_complete : Bool
  pub wake_pending : Bool
  pub conns : List Conn
  pub pending_close : List ℕ
  pub listener : Bool
  pub wake_r : Bool
  pub wake_w : Bool
  pub io : Bool
  pub queue : Option (Queue C)
  -- `socket_path` and `session_dir` have been set, and `_sock_tmpdir` is not None.
  pub has_socket_path : Bool
  pub has_session_dir : Bool
  pub has_sock_tmpdir : Bool
  pub socket_owned : Bool
  pub socket_identity : Option ℕ
  pub socket_parent_identity : Option ℕ
  pub session_identity : Option ℕ
  pub session_dir_identity : Option ℕ
  pub files : FileSystem

-- A step says whether it neither raised nor returned False.
abbrev pub Step : Type 0 → Type 0
Step C = World C → Bool × World C

-- `for step in steps`: each runs, whatever the ones before came to.
unfoldable pub run_steps : {C : Type 0} → List (Step C) → Step C
run_steps [] w = (true, w)
run_steps (step ∷ steps) w =
    let first = step w in let rest = run_steps steps first.1 in (first.0 && rest.0, rest.1)

abbrev pub node_matches : Option Node → Option ℕ → NodeKind → Bool
node_matches (some node) (some expected) kind =
    kind_eq node.kind kind && (node.identity == expected)
node_matches _ _ _ = false

abbrev pub is_none : {A : Type 0} → Option A → Bool
is_none none = true
is_none (some a) = false

module _ (env : Env) where
  -- `_path_matches`
  unfoldable pub path_matches : FileSystem → SessionPath → Option ℕ → NodeKind → Bool
  path_matches files path expected kind =
      not (env.unreadable path) && node_matches (files path) expected kind

  -- `_path_absent`
  unfoldable pub path_absent : FileSystem → SessionPath → Bool
  path_absent files path = not (env.unreadable path) && is_none (files path)

  -- `unlink()` and its `except` clauses: whether the path is gone, also where it was gone already.
  unfoldable pub unlink : SessionPath → FileSystem → Bool × FileSystem
  unlink path files =
      if env.refuses path
      then (false, put path (env.meanwhile path (files path)) files)
      else (true, put path none files)

  -- `rmdir()` and its `except` clause, for which FileNotFoundError is a failure too.
  unfoldable pub rmdir : SessionPath → FileSystem → Bool × FileSystem
  rmdir path files =
      let found = env.meanwhile path (files path) in
      if env.refuses path || is_none found
      then (false, put path found files)
      else (true, put path none files)

  abbrev pub remove : NodeKind → SessionPath → FileSystem → Bool × FileSystem
  remove directory path files = rmdir path files
  remove _ path files = unlink path files

  -- A path is removed where its check finds the session's own node; it is done with where it is gone.
  unfoldable pub remove_own : SessionPath → Option ℕ → NodeKind → FileSystem → Bool × FileSystem
  unfolding path_matches path_absent unlink rmdir
  remove_own path expected kind files =
      if path_matches files path expected kind
      then remove kind path files
      else (path_absent files path, files)

  -- The connections that `_close_all_conns` keeps.
  unfoldable pub close_conns : List Conn → List Conn
  unfolding clear_conn
  close_conns [] = []
  close_conns (c ∷ cs) =
      let rest = close_conns cs in if env.close_raises c.id then clear_conn c ∷ rest else rest
