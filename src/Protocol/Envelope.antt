-- ===== src/Protocol/Envelope.antt =====
-- protocol/envelope.py: requests, their validation, and the frames of responses.
pub mod RoundTrip
pub mod Frames
pub mod Responses
use blender_design.Common.{
  ℕ, ◌+◌, ◌≤◌, Bool, true, false, ◌&&◌, List, [], ◌∷◌, ◌++◌, Option, none, some, Result, ok, err,
  guard, ◌>>=◌, ◌>>◌, length, ltb, leb, ◌==◌, if◌then◌else◌,
}
use blender_design.Protocol.Framing.{Bytes, FrameError, encode_frame, max_frame}
use blender_design.Protocol.Json.{
  Text, text, text_eq, ℤ, pos, negsuc, Json, null, bool, int, float, str, arr, obj, Fields, end,
  field, get_field, utf8_length,
}

abbrev pub envelope_version : ℕ
envelope_version = 1

abbrev pub max_request_text_bytes : ℕ
max_request_text_bytes = 1024

-- METHOD_TIMEOUTS, in milliseconds.
unfoldable pub method_timeouts : List (Text × ℕ)
method_timeouts = (text "ping", 2000) ∷ (text "status", 2000) ∷ (text "scene_summary", 15000) ∷ []

-- `METHOD_TIMEOUTS.get(method, default)`
unfoldable pub timeout_of : Text → List (Text × ℕ) → ℕ → ℕ
timeout_of method [] default = default
timeout_of method ((m, t) ∷ rest) default =
    if text_eq m method then t else timeout_of method rest default

abbrev pub max_request_budget_ms : ℕ
max_request_budget_ms = 15000

pub record Request : Type 0 where
  pub id : Text
  pub token : Text
  pub method : Text
  pub params : Fields
  pub v : ℕ
  pub budget_ms : Option ℕ

-- The ValueError that every refusal of a payload is.
pub data DecodeError : Type 0 where
  value_error : DecodeError

unfoldable pub valid_text_field : Json → Bool
unfolding utf8_length
valid_text_field (str s) = elim (utf8_length s) [
  | none ↦ false
  | some n ↦ leb n max_request_text_bytes
]
valid_text_field _ = false

-- `raw[key]`
abbrev required : Text → Fields → Result DecodeError Json
required key raw = elim (get_field key raw) [ none ↦ err value_error | some v ↦ ok v ]

-- `raw.get("budget_ms")` and its test: none where it is refused.
unfoldable pub budget_of : Option Json → Option (Option ℕ)
budget_of none = some none
budget_of (some null) = some none
budget_of (some (int (pos n))) =
    if ltb 0 n && leb n max_request_budget_ms then some (some n) else none
budget_of (some _) = none

-- `raw.get("v", ENVELOPE_VERSION)`: none where it is no int, or a negative one, which no test lets
-- through.
unfoldable pub version_of : Option Json → Option ℕ
version_of none = some envelope_version
version_of (some (int (pos n))) = some n
version_of (some _) = none

abbrev text_of : Json → Text
text_of (str s) = s
text_of _ = []

abbrev pub fields_of : Json → Option Fields
fields_of (obj fs) = some fs
fields_of _ = none

-- `decode_request` on the value that `_load_json` made.
unfoldable pub request_of : Json → Result DecodeError Request
unfolding valid_text_field budget_of version_of get_field
request_of (obj raw) = do
  id ← required (text "id") raw
  token ← required (text "token") raw
  method ← required (text "method") raw
  params ← required (text "params") raw
  guard (valid_text_field id && valid_text_field token && valid_text_field method) value_error
  params ← elim (fields_of params) [ none ↦ err value_error | some fs ↦ ok fs ]
  budget_ms ← elim (budget_of (get_field (text "budget_ms") raw)) [
    | none ↦ err value_error
    | some b ↦ ok b
  ]
  v ← elim (version_of (get_field (text "v") raw)) [ none ↦ err value_error | some v ↦ ok v ]
  guard (v == envelope_version) value_error
  ok (record {
    id = text_of id;
    token = text_of token;
    method = text_of method;
    params = params;
    v = v;
    budget_ms = budget_ms;
  })
request_of _ = err value_error

-- The value that `encode_request` writes: the fields in their order, the budget only where set.
unfoldable pub body_of : Request → Json
body_of req =
    let budget = elim req.budget_ms as (λ _. Fields) [
      | none ↦ end
      | some b ↦ field (text "budget_ms") (int (pos b)) end
    ] in
    obj (
      field (text "id") (str req.id) (
        field (text "token") (str req.token) (
          field (text "method") (str req.method)
            (field (text "params") (obj req.params) (field (text "v") (int (pos req.v)) budget)))))

-- The json module, as configured by this file: `loads` is none where `_load_json` raises, and
-- `pieces` are the texts that `iterencode` hands out, in UTF-8. `dumps` is their concatenation.
pub record JsonCodec : Type 0 where
  pub loads : Bytes → Option Json
  pub pieces : Json → List Bytes

unfoldable pub join : List Bytes → Bytes
join [] = []
join (p ∷ ps) = p ++ join ps

module _ (codec : JsonCodec) where
  unfoldable pub decode_request : Bytes → Result DecodeError Request
  unfolding request_of
  decode_request payload = elim (codec.loads payload) [
    | none ↦ err value_error
    | some raw ↦ request_of raw
  ]

  unfoldable pub encode_request : Request → Result FrameError Bytes
  unfolding body_of join
  encode_request req = encode_frame (join (codec.pieces (body_of req)))

  -- The body of an error response.
  abbrev pub error_fields : Text → Text → Text → Bool → Fields
  error_fields request_id code message retryable =
      (field (text "v") (int (pos envelope_version)) (
        field (text "id") (str request_id) (
          field (text "ok") (bool false) (
            field (text "error")
              (obj (
                field (text "code") (str code) (
                  field (text "message") (str message)
                    (field (text "retryable") (bool retryable) end))))
              end))))

  abbrev pub error_body : Text → Text → Text → Bool → Json
  error_body request_id code message retryable =
      obj (error_fields request_id code message retryable)

  unfoldable pub error_frame : Text → Text → Text → Bool → Result FrameError Bytes
  unfolding join
  error_frame request_id code message retryable =
      encode_frame (join (codec.pieces (error_body request_id code message retryable)))

  abbrev pub ok_fields : Text → Json → Fields
  ok_fields request_id result = field (text "v") (int (pos envelope_version)) (
      field (text "id") (str request_id)
        (field (text "ok") (bool true) (field (text "result") result end)))

  abbrev pub ok_body : Text → Json → Json
  ok_body request_id result = obj (ok_fields request_id result)

  -- The loop of `ok_frame_steps`: how often it yields, and what it returns. A piece that would pass
  -- the limit ends it with an error frame.
  unfoldable pub frame_steps : Text → Text → Bytes → List Bytes → ℕ × Result FrameError Bytes
  unfolding error_frame
  frame_steps request_id message payload [] = (0, encode_frame payload)
  frame_steps request_id message payload (piece ∷ rest) =
      let next = frame_steps request_id message (payload ++ piece) rest in
      if ltb max_frame (length payload + length piece)
      then (0, error_frame request_id (text "INTERNAL_LIMIT_EXCEEDED") message false)
      else (next.0 + 1, next.1)

  unfoldable pub ok_frame_steps : Text → Json → ℕ × Result FrameError Bytes
  unfolding frame_steps
  ok_frame_steps request_id result =
      frame_steps request_id (text "response exceeds 16777216 bytes") []
        (codec.pieces (ok_body request_id result))

  -- `ok_frame`: the steps of `ok_frame_steps`, run to their end.
  unfoldable pub ok_frame : Text → Json → Result FrameError Bytes
  unfolding ok_frame_steps
  ok_frame request_id result = (ok_frame_steps request_id result).1

  -- `decode_response`: any object with a field "ok".
  unfoldable pub decode_response : Bytes → Result DecodeError Fields
  unfolding get_field
  decode_response payload = elim (codec.loads payload) [
    | none ↦ err value_error
    | some raw ↦ elim (fields_of raw) [
      | none ↦ err value_error
      | some fs ↦ elim (get_field (text "ok") fs) [ none ↦ err value_error | some v ↦ ok fs ]
    ]
  ]
