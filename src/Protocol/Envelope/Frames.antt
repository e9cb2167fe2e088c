-- ===== src/Protocol/Envelope/Frames.antt =====
-- The frames of responses: the cooperative encoder builds the frame that the body asks for, or an
-- error frame, and never raises for the size of the result.
use native.Mathlib.Numerals.{add-one}
use blender_design.Common.{
  ◌≡◌, ◌≤◌, ◌<◌, List, [], ◌∷◌, ◌++◌, append_assoc, append-nil, Result, arith, length,
  length-append, false,
}
use blender_design.Protocol.Framing.{Bytes, FrameError, encode_frame, max_frame}
use blender_design.Protocol.Json.{Text, text, Json}
use blender_design.Protocol.Envelope.{
  JsonCodec, join, error_frame, frame_steps, ok_frame_steps, ok_body,
}

module _ (codec : JsonCodec) (request_id message : Text) where
  abbrev too_large : Result FrameError Bytes
  too_large = error_frame codec request_id (text "INTERNAL_LIMIT_EXCEEDED") message false

  fits :
      (payload : Bytes) (rest : List Bytes)
      → length (payload ++ join rest) ≤ max_frame
      → frame_steps codec request_id message payload rest
        ≡ (length rest, encode_frame (payload ++ join rest))
  unfolding frame_steps join
  fits payload [] h = rw (append-nil payload)
  fits payload (piece ∷ rest) h =
      let assoc = append_assoc payload piece (join rest) in
      let sizes = length-append (payload ++ piece) (join rest) in
      let sum = length-append payload piece in
      let whole : length ((payload ++ piece) ++ join rest) ≤ max_frame = rw assoc h in
      ground (arith, fits (payload ++ piece) rest whole, add-one (length rest))

  overflows :
      (payload : Bytes) (rest : List Bytes)
      → length payload ≤ max_frame
      → max_frame < length (payload ++ join rest)
      → (frame_steps codec request_id message payload rest).1 ≡ too_large
  unfolding frame_steps join
  overflows payload [] k h = absurd (omega (arith, length-append payload []))
  overflows payload (piece ∷ rest) k h =
      let assoc = append_assoc payload piece (join rest) in
      let sum = length-append payload piece in
      let whole : max_frame < length ((payload ++ piece) ++ join rest) = rw assoc h in
      ground (arith, overflows (payload ++ piece) rest)

-- A result whose JSON text fits in a frame is sent as that text in one frame, after one yield for
-- each piece of the encoder.
pub ok_frame_steps-fits :
    (codec : JsonCodec) (request_id : Text) (result : Json)
    → length (join (codec.pieces (ok_body codec request_id result))) ≤ max_frame
    → ok_frame_steps codec request_id result ≡ (
      length (codec.pieces (ok_body codec request_id result)),
      encode_frame (join (codec.pieces (ok_body codec request_id result))),
    )
unfolding ok_frame_steps
ok_frame_steps-fits codec request_id result h =
    fits codec request_id (text "response exceeds 16777216 bytes") []
      (codec.pieces (ok_body codec request_id result)) h

-- A result whose JSON text is longer than a frame is answered by the error frame with the code
-- INTERNAL_LIMIT_EXCEEDED.
pub ok_frame_steps-overflows :
    (codec : JsonCodec) (request_id : Text) (result : Json)
    → max_frame < length (join (codec.pieces (ok_body codec request_id result)))
    → (ok_frame_steps codec request_id result).1
      ≡ error_frame codec request_id
          (text "INTERNAL_LIMIT_EXCEEDED")
          (text "response exceeds 16777216 bytes")
          false
unfolding ok_frame_steps
ok_frame_steps-overflows codec request_id result h =
    overflows codec request_id (text "response exceeds 16777216 bytes") []
      (codec.pieces (ok_body codec request_id result)) (omega arith) h
