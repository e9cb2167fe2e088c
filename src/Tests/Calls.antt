-- ===== src/Tests/Calls.antt =====
-- A call of the bridge client that gets its answer in two pieces.
use blender_design.Common.{
  ℕ, ◌*◌, ◌≡◌, ◌≢◌, refl, [], ◌∷◌, none, some, ok, err, ℕ_discrete, ◌==◌, if◌then◌else◌, arith,
}
use blender_design.Protocol.Framing.{
  Bytes, encode_frame, pack_header, feed, split_frames, unpack_header, pending,
}
use blender_design.Protocol.Json.{
  text, text_eq, Text_discrete, obj, str, Fields, end, field, get_field,
}
use blender_design.Protocol.Envelope.{
  JsonCodec, ok_fields, ok_body, encode_request, decode_response, body_of, join, method_timeouts,
  timeout_of,
}
use blender_design.Server.Response.{
  out_of_fuel, has_keys, subset_text, member_text, result_of, outcome_of, response_result,
}
use blender_design.Server.Response.Laws.{Accepted, response_result-Accepted}
use blender_design.Server.Client.Socket.{Env, World, connected, nothing, sent, received}
use blender_design.Server.Client.{
  check_deadline, poll, remaining_budget_ms, wait_connected, connect, send, receive, deadline_of,
  exchange, call,
}
use blender_design.Server.Client.Calls.{Called, call-Called}
use blender_design.Server.Client.Termination.{call-Ends}

abbrev result : Fields
result = field (text "mode") (str (text "gui")) end

-- A codec that reads every payload as the answer to the request "u1".
abbrev silent : JsonCodec
silent = record { loads = λ bytes. none; pieces = λ v. [] }

abbrev codec : JsonCodec
codec = record {
  loads = λ bytes. some (ok_body silent (text "u1") (obj result));
  pieces = λ v. (123 ∷ 125 ∷ []) ∷ [];
}

abbrev part : ℕ → Bytes
part n = if n == 11 then 0 ∷ 0 ∷ 0 ∷ [] else 2 ∷ 123 ∷ 125 ∷ []

-- A clock that moves on by 10 ms each time.
abbrev env : Env
env = record {
  clock = λ n. n * 10000;
  check_cancelled = none;
  connect = λ n. connected;
  select = λ n. nothing;
  send = λ n. sent 6;
  recv = λ n. received (part n);
  uuid = text "u1";
}

abbrev start : World
start = record { observed = 0; written = []; inbound = [] }

abbrev finish : World
finish = record {
  observed = 19;
  written = 0 ∷ 0 ∷ 0 ∷ 2 ∷ 123 ∷ 125 ∷ [];
  inbound = (0 ∷ 0 ∷ 0 ∷ []) ∷ (2 ∷ 123 ∷ 125 ∷ []) ∷ [];
}

run : call codec env 9 (text "t") (text "ping") end none none start ≡ (ok result, finish)
unfolding call exchange deadline_of check_deadline poll remaining_budget_ms wait_connected connect
    send receive decode_response encode_request encode_frame pack_header feed split_frames
    unpack_header pending method_timeouts timeout_of get_field text_eq Text_discrete ℕ_discrete
    response_result outcome_of result_of has_keys subset_text member_text join body_of
run = refl

deadline_2s : deadline_of (text "ping") none none 0 ≡ 2000000
unfolding deadline_of timeout_of method_timeouts text_eq Text_discrete ℕ_discrete
deadline_2s = refl

call-Called_example :
    Called codec env
      (text "t")
      (text "ping")
      end
      (deadline_of (text "ping") none none 0)
      result
      start
      finish
call-Called_example =
    call-Called codec env (text "t") (text "ping") end 9 none none start finish result run

call-Ends_example :
    (call codec env 201 (text "t") (text "ping") end none none start).0 ≢ err out_of_fuel
call-Ends_example =
    call-Ends codec env (text "t") (text "ping") end 201 200 none none start
      (λ n h. omega (arith, deadline_2s)) (omega arith)

accepted : response_result (ok_fields silent (text "u1") (obj result)) (text "u1") ≡ ok result
unfolding response_result outcome_of result_of get_field text_eq Text_discrete ℕ_discrete has_keys
    subset_text member_text
accepted = refl

response_result-Accepted_example :
    Accepted (ok_fields silent (text "u1") (obj result)) (text "u1") result
response_result-Accepted_example =
    response_result-Accepted (ok_fields silent (text "u1") (obj result)) (text "u1") accepted
