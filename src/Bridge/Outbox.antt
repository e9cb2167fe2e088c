-- ===== src/Bridge/Outbox.antt =====
-- bridge/core/lifecycle.py: the connections' out-boxes. Any thread hands frames to `send`; the I/O
-- thread writes them to the socket with `_flush`, of which `flush_round` is one round, and `_drop`
-- clears a connection and forgets it once its socket is closed. What a call of the socket comes to is an argument.
pub mod Wire
pub mod Limits
pub mod Counts
pub mod Changes
use blender_design.Common.{
  ℕ, ◌+◌, ◌-◌, Bool, true, false, ◌||◌, List, [], ◌∷◌, ◌++◌, Option, none, some, length, take, drop,
  ltb, leb, ◌==◌, filter, not, if◌then◌else◌,
}
use blender_design.Protocol.Framing.{Bytes, FrameBuffer, empty_buffer}

abbrev pub max_outbox : ℕ
max_outbox = 33554432

abbrev pub max_total_outbox : ℕ
max_total_outbox = 67108864

-- `id` names the object. The socket is left out, and so is the event that `_drop` sets.
pub record Conn : Type 0 where
  pub id : ℕ
  pub buf : FrameBuffer
  pub outbox : List Bytes
  pub outbox_bytes : ℕ
  pub send_offset : ℕ
  pub closing : Bool

-- `_Conn(sock)`
abbrev pub new_conn : ℕ → Conn
new_conn k = record {
  id = k;
  buf = empty_buffer;
  outbox = [];
  outbox_bytes = 0;
  send_offset = 0;
  closing = false;
}

-- What `sock.send(view)` comes to.
pub data SendResult : Type 0 where
  sent : ℕ → SendResult
  would_block os_error : SendResult

unfoldable pub find_conn : ℕ → List Conn → Option Conn
find_conn k [] = none
find_conn k (c ∷ cs) = if c.id == k then some c else find_conn k cs

-- The object `id` is changed to `conn`.
unfoldable pub set_conn : Conn → List Conn → List Conn
set_conn conn [] = []
set_conn conn (c ∷ cs) =
    let rest = set_conn conn cs in if c.id == conn.id then conn ∷ cs else c ∷ rest

unfoldable pub total_outbox : List Conn → ℕ
total_outbox [] = 0
total_outbox (c ∷ cs) = c.outbox_bytes + total_outbox cs

abbrev pub push_frame : Bytes → Conn → Conn
push_frame frame conn = record conn {
  outbox = conn.outbox ++ frame ∷ [];
  outbox_bytes = conn.outbox_bytes + length frame;
}

-- The critical section of `send`, on the connection that it found.
unfoldable pub accept_frame : List Conn → Bytes → Conn → Conn
unfolding total_outbox
accept_frame conns frame conn =
    if conn.closing
    then conn
    else if ltb max_outbox (conn.outbox_bytes + length frame)
        || ltb max_total_outbox (total_outbox conns + length frame)
    then record conn { closing = true }
    else push_frame frame conn

unfoldable pub send : List Conn → ℕ → Bytes → List Conn
unfolding find_conn set_conn accept_frame
send conns k frame = elim (find_conn k conns) [
  | none ↦ conns
  | some conn ↦ set_conn (accept_frame conns frame conn) conns
]

abbrev pub pop_frame : Bytes → List Bytes → Conn → Conn
pop_frame head rest conn = record conn {
  outbox = rest;
  outbox_bytes = conn.outbox_bytes - length head;
  send_offset = 0;
}

-- The fields that `_drop` clears, while it still holds the lock.
unfoldable pub clear_conn : Conn → Conn
clear_conn conn = record conn { outbox = []; outbox_bytes = 0; send_offset = 0; closing = true }

-- `_drop`, where the socket closes: the connection leaves `_conns`.
unfoldable pub remove_conn : ℕ → List Conn → List Conn
unfolding filter
remove_conn k conns = filter (λ (c : Conn). not (c.id == k)) conns

-- `_drop`, where the close raises and the socket stays open: the connection stays, cleared.
unfoldable pub keep_cleared : ℕ → List Conn → List Conn
unfolding find_conn set_conn clear_conn
keep_cleared k conns = elim (find_conn k conns) [
  | none ↦ conns
  | some conn ↦ set_conn (clear_conn conn) conns
]

abbrev pub drop_from : (stays_open : Bool) → ℕ → List Conn → List Conn
drop_from true k conns = keep_cleared k conns
drop_from false k conns = remove_conn k conns

-- One round of the loop of `_flush`: what it wrote to the socket, the connection then, and whether
-- the loop goes on.
pub record Flushed : Type 0 where
  pub written : Bytes
  pub conn : Conn
  pub again : Bool

unfoldable pub flush_head : Bytes → List Bytes → Conn → SendResult → Flushed
unfolding clear_conn
flush_head head rest conn would_block = record { written = []; conn = conn; again = false }
flush_head head rest conn os_error = record { written = []; conn = clear_conn conn; again = false }
flush_head head rest conn (sent n) =
    let view = drop conn.send_offset head in
    if ltb n (length view)
    then record {
      written = take n view;
      conn = record conn { send_offset = conn.send_offset + n };
      again = false;
    }
    else record { written = view; conn = pop_frame head rest conn; again = true }

unfoldable pub flush_first : List Bytes → Conn → SendResult → Flushed
unfolding flush_head
flush_first [] conn result = record { written = []; conn = conn; again = false }
flush_first (head ∷ rest) conn result = flush_head head rest conn result

unfoldable pub flush_round : Conn → SendResult → Flushed
unfolding flush_first
flush_round conn result = flush_first conn.outbox conn result

-- `_flush`, with the results of its calls of `send` in turn: where they run out, the next one is
-- left to a later call.
unfoldable pub flush : Conn → List SendResult → Bytes × Conn
unfolding flush_round
flush conn [] = ([], conn)
flush conn (result ∷ results) =
    let r = flush_round conn result in
    let rest = flush r.conn results in
    if r.again then (r.written ++ rest.0, rest.1) else (r.written, r.conn)
