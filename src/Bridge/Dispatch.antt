-- ===== src/Bridge/Dispatch.antt =====
-- bridge/core/lifecycle.py, `_read` and `_dispatch`, and `verify` of bridge/core/session.py: bytes
-- from a socket become requests, and those that are allowed go to the queue. `stays_open` says
-- whether the close of the socket, where it is dropped, raises and leaves it open. A FrameTooLarge
-- from an error frame leaves the loop, as it does in the code.
pub mod Admission
pub mod Reading
use blender_design.Common.{
  ℕ, ◌+◌, Bool, true, false, not, List, [], ◌∷◌, Option, none, some, min, Result, ok, err, ◌>>=◌,
  length, ltb, if◌then◌else◌,
}
use blender_design.Protocol.Framing.{Bytes, FrameError, FrameBuffer, Frames, feed, pending}
use blender_design.Protocol.Json.{Text, text, text_eq, utf8_length}
use blender_design.Protocol.Envelope.{
  Request, JsonCodec, method_timeouts, timeout_of, decode_request, error_frame,
}
use blender_design.Bridge.Queue.{Task, Queue, submit}
use blender_design.Bridge.Outbox.{Conn, find_conn, set_conn, send, drop_from}

abbrev pub max_inbound_pending : ℕ
max_inbound_pending = 33554432

abbrev pub max_request_payload : ℕ
max_request_payload = 65536

-- `SessionAuth.verify`, on a text: none of it encodes where it holds a surrogate.
unfoldable pub verify : Text → Text → Bool
unfolding text_eq
verify token presented = elim (utf8_length presented) [
  | none ↦ false
  | some n ↦ text_eq token presented
]

-- The connections, those whose event is set, and the queue.
pub record Server (C : Type 0) : Type 0 where
  pub conns : List Conn
  pub cancelled : List ℕ
  pub queue : Queue C

unfoldable pub total_pending : List Conn → ℕ
unfolding pending
total_pending [] = 0
total_pending (c ∷ cs) = pending c.buf + total_pending cs

-- The seconds that a request may take, in milliseconds.
unfoldable pub timeout : Request → ℕ
unfolding timeout_of
timeout req =
    let allowed = timeout_of req.method method_timeouts 2000 in
    elim req.budget_ms [ none ↦ allowed | some budget ↦ min allowed budget ]

module _ {C : Type 0} where
  -- `_drop`
  abbrev pub drop_conn : Bool → ℕ → Server C → Server C
  drop_conn stays_open k s = record s {
    conns = drop_from stays_open k s.conns;
    cancelled = k ∷ s.cancelled;
  }

  abbrev pub task_of : ℕ → ℕ → Request → Task C
  task_of k now req = record {
    request = req;
    deadline = now + timeout req;
    continuation = none;
    cancelled = some k;
  }

module _ {C : Type 0} (codec : JsonCodec) (token : Text) (stays_open : Bool) where
  -- From the call of `submit` on.
  unfoldable pub enqueue : ℕ → ℕ → Request → Server C → Result FrameError (Bool × Server C)
  unfolding submit
  enqueue k now req s = elim (submit s.queue (task_of k now req)) [
    | ok queue ↦ ok (true, record s { queue = queue })
    | err _ ↦ do
      frame ← error_frame codec req.id (text "BRIDGE_BUSY") (text "queue full") true
      ok (true, record s { conns = send s.conns k frame })
  ]

  -- `_dispatch` for the connection `k`, at the time `now`.
  unfoldable pub dispatch : ℕ → ℕ → Bytes → Server C → Result FrameError (Bool × Server C)
  unfolding enqueue verify
  dispatch k now payload s =
      if ltb max_request_payload (length payload)
      then ok (false, drop_conn stays_open k s)
      else (elim (decode_request codec payload) [
        | err _ ↦ ok (false, drop_conn stays_open k s)
        | ok req ↦
            if verify token req.token
            then enqueue k now req s
            else ok (false, drop_conn stays_open k s)
      ])

  -- The loop over the frames of one `_read`; `clock` tells the time at each of them.
  unfoldable pub dispatch_all : ℕ → (ℕ → ℕ) → List Bytes → Server C → Result FrameError (Server C)
  unfolding dispatch
  dispatch_all k clock [] s = ok s
  dispatch_all k clock (payload ∷ payloads) s = do
    r ← dispatch k (clock (length payloads)) payload s
    let rest = dispatch_all k clock payloads r.1
    if r.0 then rest else ok r.1

  -- `_read`, after `recv` handed out `bytes`: nothing where the peer closed, or on an OSError.
  unfoldable pub read : ℕ → (ℕ → ℕ) → Bytes → Conn → Server C → Result FrameError (Server C)
  unfolding dispatch_all feed total_pending
  read k clock [] conn s = ok (drop_conn stays_open k s)
  read k clock bytes conn s =
      let (frames, buf) = feed conn.buf bytes in
      let s' : Server C = record s { conns = set_conn (record conn { buf = buf }) s.conns } in
      elim frames [
        | err _ ↦ ok (drop_conn stays_open k s')
        | ok payloads ↦
            if ltb max_inbound_pending (total_pending s'.conns)
            then ok (drop_conn stays_open k s')
            else dispatch_all k clock payloads s'
      ]
