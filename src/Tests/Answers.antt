-- ===== src/Tests/Answers.antt =====
-- A ping, answered over a wire that delivers its frame in two pieces.
use blender_design.Common.{◌≡◌, refl, [], ◌∷◌, none, some, ok, ℕ_discrete}
use blender_design.Protocol.Framing.{Bytes, encode_frame, pack_header}
use blender_design.Protocol.Framing.RoundTrip.{concat}
use blender_design.Protocol.Json.{text, text_eq, Text_discrete, obj, end}
use blender_design.Protocol.Envelope.{
  Request, JsonCodec, join, ok_body, ok_frame, ok_frame_steps, frame_steps,
}
use blender_design.Bridge.Router.{
  SceneReader, limit_exceeded, at_once, BridgeMeta, ping_fields, handle,
}
use blender_design.Bridge.Router.Answers.{
  result, told, answer_of, answer_body, delivered, Tells, handle-Tells,
}

abbrev meta : BridgeMeta
meta = record {
  instance_id = text "gui-1";
  pid = 4;
  bridge_version = text "0.1.0";
  blender_version = text "4.5";
}

abbrev reader : SceneReader
reader = record { status_info = (none, 0); snapshot_steps = λ c m. (0, limit_exceeded) }

abbrev request : Request
request = record {
  id = text "a1";
  token = text "t";
  method = text "ping";
  params = end;
  v = 1;
  budget_ms = none;
}

abbrev silent : JsonCodec
silent = record { loads = λ bytes. none; pieces = λ v. [] }

-- A codec that reads every payload as this answer.
abbrev codec : JsonCodec
codec = record {
  loads = λ bytes. some (ok_body silent (text "a1") (obj (ping_fields meta)));
  pieces = λ v. (123 ∷ []) ∷ (125 ∷ []) ∷ [];
}

abbrev frame : Bytes
frame = 0 ∷ 0 ∷ 0 ∷ 2 ∷ 123 ∷ 125 ∷ []

promised : answer_of reader meta request ≡ some (result (ping_fields meta))
unfolding answer_of text_eq Text_discrete ℕ_discrete
promised = refl

reads :
    codec.loads (
      join (
        codec.pieces
          (answer_body codec request.id (delivered codec request.id (result (ping_fields meta))))))
    ≡ some (answer_body codec request.id (delivered codec request.id (result (ping_fields meta))))
unfolding delivered join
reads = refl

sends : ok_frame codec request.id (obj (ping_fields meta)) ≡ ok frame
unfolding ok_frame ok_frame_steps frame_steps encode_frame pack_header
sends = refl

handled :
    handle codec reader meta request ≡ at_once (ok_frame codec request.id (obj (ping_fields meta)))
unfolding handle text_eq Text_discrete ℕ_discrete
handled = refl

handle-Tells_example :
    Tells codec request.id
      ((0 ∷ 0 ∷ 0 ∷ []) ∷ (2 ∷ 123 ∷ 125 ∷ []) ∷ [])
      (told (delivered codec request.id (result (ping_fields meta))))
unfolding concat
handle-Tells_example =
    handle-Tells codec reader meta request (result (ping_fields meta))
      ((0 ∷ 0 ∷ 0 ∷ []) ∷ (2 ∷ 123 ∷ 125 ∷ []) ∷ []) frame promised reads (rw handled sends) refl
