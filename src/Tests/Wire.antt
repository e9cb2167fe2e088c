-- ===== src/Tests/Wire.antt =====
-- Frames and requests on a small wire.
use blender_design.Common.{
  ℕ, zero, suc, ◌≡◌, ◌≤◌, ◌<◌, refl, false, List, [], ◌∷◌, ◌++◌, none, some, ok, err, arith, length,
  ℕ_discrete, length-append,
}
use blender_design.Protocol.Framing.{
  Bytes, frame_too_large, max_frame, pack_header, encode_frame, empty_buffer, feed,
}
use blender_design.Protocol.Framing.Chunks.{feed-append, feed_after}
use blender_design.Protocol.Framing.RoundTrip.{
  encode_all, feed_all, concat, feed_all-encode_all, oversize_refused,
}
use blender_design.Protocol.Json.{
  text, text_eq, null, end, get_field, utf8_length, utf8_width, Text_discrete,
}
use blender_design.Protocol.Envelope.{
  Request, JsonCodec, join, body_of, valid_text_field, ok_body, ok_fields, ok_frame, frame_steps,
  decode_response, ok_frame_steps, error_frame, decode_request, encode_request, request_of,
  budget_of, version_of,
}
use blender_design.Protocol.Envelope.RoundTrip.{
  IsValid, decode_request-IsValid, encode-decode_request,
}
use blender_design.Protocol.Envelope.Responses.{ok_frame-decode_response}
use blender_design.Protocol.Envelope.Frames.{ok_frame_steps-fits, ok_frame_steps-overflows}

feed-append_example :
    feed empty_buffer ((0 ∷ 0 ∷ []) ++ (0 ∷ 1 ∷ 7 ∷ 0 ∷ []))
    ≡ feed_after (0 ∷ 1 ∷ 7 ∷ 0 ∷ []) (feed empty_buffer (0 ∷ 0 ∷ []))
feed-append_example = feed-append empty_buffer (0 ∷ 0 ∷ []) (0 ∷ 1 ∷ 7 ∷ 0 ∷ [])

abbrev payloads : List Bytes
payloads = (7 ∷ 8 ∷ []) ∷ [] ∷ (9 ∷ []) ∷ []

abbrev wire : Bytes
wire = 0 ∷ 0 ∷ 0 ∷ 2 ∷ 7 ∷ 8 ∷ 0 ∷ 0 ∷ 0 ∷ 0 ∷ 0 ∷ 0 ∷ 0 ∷ 1 ∷ 9 ∷ []

abbrev pieces : List Bytes
pieces = (0 ∷ []) ∷ (0 ∷ 0 ∷ 2 ∷ 7 ∷ []) ∷ [] ∷ (8 ∷ 0 ∷ 0 ∷ 0 ∷ 0 ∷ 0 ∷ 0 ∷ 0 ∷ 1 ∷ 9 ∷ []) ∷ []

encoded : encode_all payloads ≡ ok wire
unfolding encode_all encode_frame pack_header
encoded = refl

cut : concat pieces ≡ wire
unfolding concat
cut = refl

feed_all-encode_all_example : (feed_all empty_buffer pieces).0 ≡ ok payloads
feed_all-encode_all_example = feed_all-encode_all payloads pieces encoded cut

-- A payload of zeros; it is longer than a frame may be, and is never written out.
zeros : ℕ → Bytes
zeros zero = []
zeros (suc n) = 0 ∷ zeros n

length-zeros : (n : ℕ) → length (zeros n) ≡ n
unfolding zeros
length-zeros zero = refl
length-zeros (suc n) = omega (arith, length-zeros n)

abbrev too_long : ℕ
too_long = 16777217

zeros-overflow : max_frame < length (zeros too_long)
zeros-overflow = omega (arith, length-zeros too_long)

size_overflow : max_frame < too_long
size_overflow = omega arith

size_fits : too_long < 4294967296
size_fits = omega arith

oversize_refused_example :
    (encode_frame (zeros too_long) ≡ err frame_too_large)
    × ((feed empty_buffer (pack_header too_long)).0 ≡ err frame_too_large)
oversize_refused_example =
    oversize_refused (zeros too_long) too_long zeros-overflow size_overflow size_fits

-- A codec that writes one value only, and reads it back.
abbrev sample : Request
sample = record {
  id = text "a1";
  token = text "t";
  method = text "ping";
  params = end;
  v = 1;
  budget_ms = some 500;
}

abbrev codec : JsonCodec
codec = record {
  loads = λ bytes. some (body_of sample);
  pieces = λ v. (123 ∷ []) ∷ (125 ∷ []) ∷ [];
}

sample-IsValid : IsValid sample
unfolding valid_text_field utf8_length utf8_width
sample-IsValid = record {
  id_ok = refl;
  token_ok = refl;
  method_ok = refl;
  budget = refl;
  version = refl;
}

decoded : decode_request codec (123 ∷ 125 ∷ []) ≡ ok sample
unfolding decode_request request_of body_of get_field text_eq Text_discrete ℕ_discrete
    valid_text_field utf8_length utf8_width budget_of version_of
decoded = refl

decode_request-IsValid_example : IsValid sample
decode_request-IsValid_example = decode_request-IsValid codec (123 ∷ 125 ∷ []) sample decoded

sent : encode_request codec sample ≡ ok (0 ∷ 0 ∷ 0 ∷ 2 ∷ 123 ∷ 125 ∷ [])
unfolding encode_request encode_frame pack_header join
sent = refl

abbrev request_pieces : List Bytes
request_pieces = (0 ∷ 0 ∷ []) ∷ (0 ∷ 2 ∷ 123 ∷ 125 ∷ []) ∷ []

request_cut : concat request_pieces ≡ 0 ∷ 0 ∷ 0 ∷ 2 ∷ 123 ∷ 125 ∷ []
unfolding concat
request_cut = refl

encode-decode_request_example :
    (payload : Bytes) × ((feed_all empty_buffer request_pieces).0 ≡ ok (payload ∷ []))
    × (decode_request codec payload ≡ ok sample)
encode-decode_request_example =
    encode-decode_request codec sample request_pieces sample-IsValid refl sent request_cut

short : length (join (codec.pieces (ok_body codec (text "a1") null))) ≤ max_frame
unfolding join
short = omega arith

ok_frame_steps-fits_example : ok_frame_steps codec (text "a1") null ≡ (
  length (codec.pieces (ok_body codec (text "a1") null)),
  encode_frame (join (codec.pieces (ok_body codec (text "a1") null))),
)
ok_frame_steps-fits_example = ok_frame_steps-fits codec (text "a1") null short

abbrev long_codec : JsonCodec
long_codec = record { loads = λ bytes. none; pieces = λ v. (123 ∷ []) ∷ zeros too_long ∷ [] }

long : max_frame < length (join (long_codec.pieces (ok_body long_codec (text "a1") null)))
unfolding join
long = omega (arith, length-append (zeros too_long) [], zeros-overflow)

ok_frame_steps-overflows_example :
    (ok_frame_steps long_codec (text "a1") null).1
    ≡ error_frame long_codec
        (text "a1")
        (text "INTERNAL_LIMIT_EXCEEDED")
        (text "response exceeds 16777216 bytes")
        false
ok_frame_steps-overflows_example = ok_frame_steps-overflows long_codec (text "a1") null long

-- A response, which the same codec reads back.
abbrev response_codec : JsonCodec
response_codec = record {
  loads = λ bytes. some (ok_body codec (text "a1") null);
  pieces = λ v. (123 ∷ []) ∷ (125 ∷ []) ∷ [];
}

response_short :
    length (join (response_codec.pieces (ok_body response_codec (text "a1") null))) ≤ max_frame
unfolding join
response_short = omega arith

answered : ok_frame response_codec (text "a1") null ≡ ok (0 ∷ 0 ∷ 0 ∷ 2 ∷ 123 ∷ 125 ∷ [])
unfolding ok_frame ok_frame_steps frame_steps encode_frame pack_header
answered = refl

ok_frame-decode_response_example :
    (payload : Bytes) × ((feed_all empty_buffer request_pieces).0 ≡ ok (payload ∷ []))
    × (decode_response response_codec payload ≡ ok (ok_fields response_codec (text "a1") null))
ok_frame-decode_response_example =
    ok_frame-decode_response response_codec (text "a1") null request_pieces response_short refl
      answered request_cut
