-- ===== src/Tests/Rounds.antt =====
-- A round of the I/O thread: one connection is dropped but stays, one is read, and a new one is
-- accepted.
use blender_design.Common.{
  ℕ, Bool, ◌≡◌, refl, true, false, [], ◌∷◌, none, some, ok, filter, ℕ_discrete,
}
use blender_design.Protocol.Framing.{feed, split_frames, unpack_header, pending}
use blender_design.Protocol.Json.{
  text, text_eq, Text_discrete, end, get_field, utf8_length, utf8_width,
}
use blender_design.Protocol.Envelope.{
  Request, JsonCodec, body_of, decode_request, request_of, valid_text_field, budget_of, version_of,
  method_timeouts, timeout_of,
}
use blender_design.Bridge.Queue.{Queue, submit}
use blender_design.Bridge.Outbox.{Conn, new_conn, find_conn, set_conn, clear_conn, keep_cleared}
use blender_design.Bridge.Dispatch.{
  verify, timeout, total_pending, dispatch, dispatch_all, enqueue, read,
}
use blender_design.Bridge.Loop.{
  Loop, Part, dropping, Events, accepted, drop_all, flush_rounds, flush_ready, read_ready, serve,
  io_iterate,
}
use blender_design.Bridge.Loop.Kept.{Kept, io_iterate-Kept}

abbrev ping : Request
ping = record {
  id = text "a1";
  token = text "t";
  method = text "ping";
  params = end;
  v = 1;
  budget_ms = some 500;
}

abbrev codec : JsonCodec
codec = record { loads = λ bytes. some (body_of ping); pieces = λ v. [] }

abbrev queue : Queue ℕ
queue = record { capacity = 2; tasks = []; active = 0; scene_summaries = 0 }

-- The socket of the connection 7 does not close.
abbrev stuck : Conn
stuck = record (new_conn 7) { closing = true }

abbrev stays_open : Part → ℕ → Bool
stays_open dropping k = true
stays_open _ k = false

abbrev before : Loop ℕ
before = record {
  server = record { conns = new_conn 5 ∷ stuck ∷ []; cancelled = []; queue = queue };
  pending_close = 9 ∷ [];
  stopped = false;
}

abbrev events : Events
events = record {
  stays_open = stays_open;
  woken = true;
  listener = accepted 6 false;
  writable = λ k. true;
  sends = λ k. [];
  readable = λ k. true;
  received = λ k. some (0 ∷ 0 ∷ 0 ∷ 2 ∷ 123 ∷ 125 ∷ []);
  clock = λ k n. 1000;
}

abbrev after : Loop ℕ
after = record {
  server = record {
    conns = new_conn 6 ∷ new_conn 5 ∷ stuck ∷ [];
    cancelled = 7 ∷ [];
    queue = record queue {
      tasks =
          record { request = ping; deadline = 1500; continuation = none; cancelled = some 5 } ∷ [];
    };
  };
  pending_close = [];
  stopped = false;
}

round : io_iterate codec (text "t") events before ≡ ok (false, after)
unfolding io_iterate serve keep_cleared clear_conn drop_all flush_rounds flush_ready read_ready
    filter find_conn read dispatch_all feed split_frames unpack_header pending total_pending
    set_conn dispatch enqueue verify submit timeout timeout_of method_timeouts decode_request
    request_of body_of get_field text_eq Text_discrete ℕ_discrete valid_text_field utf8_length
    utf8_width budget_of version_of
round = refl

io_iterate-Kept_example : Kept none before after
io_iterate-Kept_example = io_iterate-Kept none codec (text "t") events before round
