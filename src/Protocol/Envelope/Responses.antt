-- ===== src/Protocol/Envelope/Responses.antt =====
-- A response on its way from the bridge to the server.
use blender_design.Common.{
  ◌≡◌, ◌≤◌, refl, sym, ap, ◌∙◌, List, [], ◌∷◌, append-nil, some, ok, length,
}
use blender_design.Protocol.Framing.{Bytes, max_frame, encode_frame, empty_buffer}
use blender_design.Protocol.Framing.RoundTrip.{encode_all, feed_all, concat, feed_all-encode_all}
use blender_design.Protocol.Json.{Text, Text_discrete, text_eq, Json, get_field}
use blender_design.Protocol.Envelope.{
  JsonCodec, join, ok_fields, ok_body, ok_frame, decode_response,
}
use blender_design.Protocol.Envelope.Frames.{ok_frame_steps-fits}

-- The frame of a result that fits reaches the server as one payload, however the bytes are cut on
-- the way, and is decoded to the fields of the response with the id of the request and the result,
-- where the JSON reader reads back what the JSON writer wrote for it.
pub ok_frame-decode_response :
    (codec : JsonCodec) (request_id : Text) (result : Json) (pieces : List Bytes) {frame : Bytes}
    → length (join (codec.pieces (ok_body codec request_id result))) ≤ max_frame
    → codec.loads (join (codec.pieces (ok_body codec request_id result)))
      ≡ some (ok_body codec request_id result)
    → ok_frame codec request_id result ≡ ok frame
    → concat pieces ≡ frame
    → (payload : Bytes) × ((feed_all empty_buffer pieces).0 ≡ ok (payload ∷ []))
      × (decode_response codec payload ≡ ok (ok_fields codec request_id result))
unfolding ok_frame decode_response encode_all get_field text_eq Text_discrete
ok_frame-decode_response codec request_id result pieces {frame} short reads e cut =
    let payload = join (codec.pieces (ok_body codec request_id result)) in
    let steps = ok_frame_steps-fits codec request_id result short in
    let sent : encode_frame payload ≡ ok frame = sym (ap (λ r. r.1) steps) ∙ e in
    (
      payload,
      feed_all-encode_all (payload ∷ []) pieces (rw sent (ap ok (append-nil frame))) cut,
      rw (reads, decode_response) refl,
    )
