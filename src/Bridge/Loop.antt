-- ===== src/Bridge/Loop.antt =====
-- bridge/core/lifecycle.py, `_io_iterate`: one round of the I/O thread. What the selector and the
-- sockets come to in the round is read from an environment. What raises outside of the `try`
-- blocks, the selector itself for one, ends the thread and is not in the model.
pub mod Kept
use blender_design.Common.{
  ℕ, Bool, true, false, not, ◌&&◌, List, [], ◌∷◌, ◌++◌, map, Option, none, some, Result, ok, err,
  ◌>>=◌, length, leb, filter, if◌then◌else◌,
}
use blender_design.Protocol.Framing.{Bytes, FrameError}
use blender_design.Protocol.Json.{Text}
use blender_design.Protocol.Envelope.{JsonCodec}
use blender_design.Bridge.Outbox.{
  Conn, new_conn, SendResult, sent, would_block, os_error, find_conn, set_conn, flush_round,
}
use blender_design.Bridge.Dispatch.{Server, drop_conn, read}

abbrev pub max_connections : ℕ
max_connections = 64

-- The server, the sockets that are still to be closed, and the flag that `stop` sets.
pub record Loop (C : Type 0) : Type 0 where
  pub server : Server C
  pub pending_close : List ℕ
  pub stopped : Bool

-- The parts of a round, in each of which a socket may be closed.
pub data Part : Type 0 where
  retrying dropping accepting flushing reading : Part

-- The listener: it is not ready, or `accept` raises, or it hands out a peer, a number that no
-- connection has, on which `setblocking` may raise.
pub data Accepted : Type 0 where
  not_ready accept_raises : Accepted
  accepted : (peer : ℕ) (setblocking_raises : Bool) → Accepted

-- What one round sees. `stays_open` says whether a close in that part raises and leaves the socket
-- open; `received` is none where `recv` would block, and has no bytes where it raises another OSError.
pub record Events : Type 0 where
  pub stays_open : Part → ℕ → Bool
  pub woken : Bool
  pub listener : Accepted
  pub writable : ℕ → Bool
  pub sends : ℕ → List SendResult
  pub readable : ℕ → Bool
  pub received : ℕ → Option Bytes
  pub clock : ℕ → ℕ → ℕ

abbrev pub conn_ids : List Conn → List ℕ
conn_ids = map (λ (c : Conn). c.id)

abbrev pub raises_os_error : List Bytes → SendResult → Bool
raises_os_error (head ∷ rest) os_error = true
raises_os_error _ _ = false

-- The rounds of `_flush` on a connection: the connection then, and whether an OSError ended them.
unfoldable pub flush_rounds : Conn → List SendResult → Conn × Bool
unfolding flush_round
flush_rounds conn [] = (conn, false)
flush_rounds conn (result ∷ results) =
    let r = flush_round conn result in
    let rest = flush_rounds r.conn results in
    if r.again then rest else (r.conn, raises_os_error conn.outbox result)

module _ {C : Type 0} where
  unfoldable pub drop_all : (ℕ → Bool) → List ℕ → Server C → Server C
  drop_all stays_open [] s = s
  drop_all stays_open (k ∷ ks) s = drop_all stays_open ks (drop_conn (stays_open k) k s)

  -- The `finally` clause, for a peer that is not taken on.
  abbrev pub refuse_peer : (stays_open : Bool) → ℕ → Loop C → Loop C
  refuse_peer true k l = record l { pending_close = l.pending_close ++ k ∷ [] }
  refuse_peer false k l = l

  abbrev pub accept : (ℕ → Bool) → Accepted → Loop C → Loop C
  accept stays_open not_ready l = l
  accept stays_open accept_raises l = l
  accept stays_open (accepted k true) l = refuse_peer (stays_open k) k l
  accept stays_open (accepted k false) l =
      if leb max_connections (length l.server.conns)
      then refuse_peer (stays_open k) k l
      else record l { server = record l.server { conns = new_conn k ∷ l.server.conns } }

  abbrev pub flushed : (stays_open : Bool) → ℕ → Conn × Bool → Server C → Server C
  flushed stays_open k (conn, false) s = record s { conns = set_conn conn s.conns }
  flushed stays_open k (conn, true) s = drop_conn stays_open k s

  abbrev pub flush_found :
      (stays_open : Bool) → ℕ → List SendResult → Option Conn → Server C → Server C
  flush_found stays_open k results none s = s
  flush_found stays_open k results (some conn) s =
      flushed stays_open k (flush_rounds conn results) s

  unfoldable pub flush_ready : Events → List ℕ → Server C → Server C
  unfolding find_conn set_conn flush_rounds
  flush_ready events [] s = s
  flush_ready events (k ∷ ks) s = flush_ready events ks (
      if events.writable k
      then flush_found (events.stays_open flushing k) k (events.sends k) (find_conn k s.conns) s
      else s)

module _ {C : Type 0} (codec : JsonCodec) (token : Text) (events : Events) where
  -- `_read` of a connection that is still there, also of one that has just been dropped and stays;
  -- the read of one that is gone does nothing more.
  abbrev pub read_found : ℕ → Option Bytes → Option Conn → Server C → Result FrameError (Server C)
  read_found k (some bytes) (some conn) s =
      read codec token (events.stays_open reading k) k (events.clock k) bytes conn s
  read_found k _ _ s = ok s

  unfoldable pub read_ready : List ℕ → Server C → Result FrameError (Server C)
  unfolding read find_conn
  read_ready [] s = ok s
  read_ready (k ∷ ks) s = do
    r ← if events.readable k then read_found k (events.received k) (find_conn k s.conns) s else ok s
    read_ready ks r

  -- What follows the selector.
  unfoldable pub serve : List ℕ → Accepted → Loop C → Result FrameError (Bool × Loop C)
  unfolding flush_ready read_ready
  serve conns listener l = do
    let l' = accept (events.stays_open accepting) listener l
    s ← read_ready conns (flush_ready events conns l'.server)
    ok (false, record l' { server = s })

  -- `_io_iterate`: whether the thread ends, and the state then.
  unfoldable pub io_iterate : Loop C → Result FrameError (Bool × Loop C)
  unfolding drop_all filter serve
  io_iterate l =
      let pending = filter (events.stays_open retrying) l.pending_close in
      let closing = conn_ids (filter (λ (c : Conn). c.closing) l.server.conns) in
      let kept : Loop C = record l {
        server = drop_all (events.stays_open dropping) closing l.server;
        pending_close = pending;
      } in
      let conns = conn_ids (filter (λ (c : Conn). not c.closing) kept.server.conns) in
      if events.woken && l.stopped
      then ok (true, kept)
      else serve conns (elim pending [ [] ↦ events.listener | _ ∷ _ ↦ not_ready ]) kept
