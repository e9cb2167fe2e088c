-- ===== src/Protocol/Envelope/RoundTrip.antt =====
-- A request that the server sends is the request that the bridge reads, and only valid requests
-- are read.
use blender_design.Common.{
  ℕ, ◌≡◌, ap, inl, inr, Bool, true, ◌&&◌, List, [], ◌∷◌, append-nil, Option, none, some, Result, ok,
  err, arith, leb, ltb, Option-cases,
}
use blender_design.Protocol.Framing.{Bytes, empty_buffer}
use blender_design.Protocol.Framing.RoundTrip.{encode_all, feed_all, concat, feed_all-encode_all}
use blender_design.Protocol.Json.{Json, str, obj}
use blender_design.Protocol.Envelope.{
  Request, DecodeError, valid_text_field, request_of, body_of, JsonCodec, join, decode_request,
  encode_request, max_request_budget_ms,
}

abbrev budget_ok : Option ℕ → Bool
budget_ok none = true
budget_ok (some b) = ltb 0 b && leb b max_request_budget_ms

-- What the bridge demands of a request.
pub record IsValid (req : Request) : Type 0 where
  pub id_ok : valid_text_field (str req.id) ≡ true
  pub token_ok : valid_text_field (str req.token) ≡ true
  pub method_ok : valid_text_field (str req.method) ≡ true
  pub budget : budget_ok req.budget_ms ≡ true
  pub version : req.v ≡ 1

request_of-body_of : (req : Request) → IsValid req → request_of (body_of req) ≡ ok req
unfolding request_of body_of
request_of-body_of req h = ground arith

pub request_of-IsValid : (raw : Json) (req : Request) → request_of raw ≡ ok req → IsValid req
unfolding request_of
request_of-IsValid (obj raw) req h = ground arith
request_of-IsValid _ req h = cc

-- What `decode_request` reads from the wire is a valid request, whatever the payload is.
pub decode_request-IsValid :
    (codec : JsonCodec) (payload : Bytes) (req : Request)
    → decode_request codec payload ≡ ok req
    → IsValid req
unfolding decode_request
decode_request-IsValid codec payload req h = elim (Option-cases (codec.loads payload)) [
  | inl e ↦ absurd (refused (rw (e, decode_request) at h))
  | inr (raw, e) ↦ request_of-IsValid raw req (rw (e, decode_request) at h)
]
  where
    refused :
        {x : DecodeError} {r : Request} → ◌≡◌ {A = Result DecodeError Request} (err x) (ok r) → ⊥
    refused q = cc

-- A valid request that the server encodes reaches the bridge as one payload, however the bytes are
-- cut on the way, and is decoded to the same request, where the JSON reader reads back what the
-- JSON writer wrote for it.
pub encode-decode_request :
    (codec : JsonCodec) (req : Request) (pieces : List Bytes) {frame : Bytes}
    → IsValid req
    → codec.loads (join (codec.pieces (body_of req))) ≡ some (body_of req)
    → encode_request codec req ≡ ok frame
    → concat pieces ≡ frame
    → (payload : Bytes) × ((feed_all empty_buffer pieces).0 ≡ ok (payload ∷ []))
      × (decode_request codec payload ≡ ok req)
unfolding encode_request decode_request encode_all
encode-decode_request codec req pieces {frame} valid reads e cut =
    let payload = join (codec.pieces (body_of req)) in
    (
      payload,
      feed_all-encode_all (payload ∷ []) pieces (rw e (ap ok (append-nil frame))) cut,
      rw (reads, decode_request) (request_of-body_of req valid),
    )
