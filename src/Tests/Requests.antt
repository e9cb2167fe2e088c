-- ===== src/Tests/Requests.antt =====
-- A request that the bridge admits.
use blender_design.Common.{ℕ, ◌≡◌, refl, true, false, [], ◌∷◌, none, some, ok, ℕ_discrete}
use blender_design.Protocol.Framing.{Bytes, feed, split_frames, unpack_header, pending}
use blender_design.Protocol.Json.{
  text, text_eq, Text_discrete, end, get_field, utf8_length, utf8_width,
}
use blender_design.Protocol.Envelope.{
  Request, JsonCodec, body_of, decode_request, request_of, valid_text_field, budget_of, version_of,
  method_timeouts, timeout_of,
}
use blender_design.Bridge.Queue.{Queue, submit}
use blender_design.Bridge.Outbox.{new_conn, find_conn, set_conn}
use blender_design.Bridge.Dispatch.{
  Server, verify, timeout, total_pending, dispatch, dispatch_all, enqueue, read,
}
use blender_design.Bridge.Dispatch.Admission.{Admitted, Dispatched, dispatch-Admitted}
use blender_design.Bridge.Dispatch.Reading.{read-Dispatched}

abbrev ping : Request
ping = record {
  id = text "a1";
  token = text "t";
  method = text "ping";
  params = end;
  v = 1;
  budget_ms = some 500;
}

-- A codec that reads every payload as this request.
abbrev codec : JsonCodec
codec = record { loads = λ bytes. some (body_of ping); pieces = λ v. [] }

abbrev queue : Queue ℕ
queue = record { capacity = 2; tasks = []; active = 0; scene_summaries = 0 }

abbrev server : Server ℕ
server = record { conns = new_conn 5 ∷ []; cancelled = []; queue = queue }

-- The deadline is the time of the dispatch and the budget of the request.
abbrev with_ping : Queue ℕ
with_ping = record queue {
  tasks = record { request = ping; deadline = 1500; continuation = none; cancelled = some 5 } ∷ [];
}

abbrev after : Server ℕ
after = record server { queue = with_ping }

dispatched : dispatch codec (text "t") false 5 1000 (123 ∷ 125 ∷ []) server ≡ ok (true, after)
unfolding dispatch enqueue verify submit timeout timeout_of method_timeouts decode_request
    request_of body_of get_field text_eq Text_discrete ℕ_discrete valid_text_field utf8_length
    utf8_width budget_of version_of
dispatched = refl

dispatch-Admitted_example : Admitted codec (text "t") 5 1000 (123 ∷ 125 ∷ []) queue with_ping
dispatch-Admitted_example =
    dispatch-Admitted codec (text "t") false 5 1000 (123 ∷ 125 ∷ []) server (true, after) dispatched

abbrev read_queue : Server ℕ
read_queue = record after { conns = record (new_conn 5) { buf = record { buf = 0 ∷ [] } } ∷ [] }

abbrev bytes : Bytes
bytes = 0 ∷ 0 ∷ 0 ∷ 2 ∷ 123 ∷ 125 ∷ 0 ∷ []

found : find_conn 5 server.conns ≡ some (new_conn 5)
unfolding find_conn
found = refl

was_read : read codec (text "t") true 5 (λ n. 1000) bytes (new_conn 5) server ≡ ok read_queue
unfolding read dispatch_all feed split_frames unpack_header pending total_pending set_conn dispatch
    enqueue verify submit timeout timeout_of method_timeouts decode_request request_of body_of
    get_field text_eq Text_discrete ℕ_discrete valid_text_field utf8_length utf8_width budget_of
    version_of
was_read = refl

read-Dispatched_example : Dispatched none server read_queue
read-Dispatched_example =
    read-Dispatched none codec (text "t") true 5 (λ n. 1000) bytes (new_conn 5) server read_queue
      found was_read
