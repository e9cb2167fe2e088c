-- ===== src/Server/Response.antt =====
-- server/core/bridge_client.py, `_response_result`: what a decoded response means for the caller.
pub mod Laws
use blender_design.Common.{
  Bool, true, false, ◌&&◌, ◌||◌, List, [], ◌∷◌, Option, some, Result, ok, err, ◌>>◌, ◌==◌,
  if◌then◌else◌,
}
use blender_design.Protocol.Json.{
  Text, text, text_eq, Json, int, pos, negsuc, str, bool, obj, Fields, end, field, get_field,
}
use blender_design.Protocol.Envelope.{envelope_version}

-- What ends a call. `timeout_error`, `os_error` and `frame_error` are the exceptions of sockets and
-- of `encode_request`, `cancelled` is what `check_cancelled` raises.
pub data Failure : Type 0 where
  bridge_error : (code : Text) (retryable : Bool) → Failure
  cancelled timeout_error os_error frame_error out_of_fuel : Failure

abbrev pub timed_out : Failure
timed_out = bridge_error (text "BRIDGE_TIMEOUT") true

abbrev pub unavailable : Failure
unavailable = bridge_error (text "BRIDGE_UNAVAILABLE") true

-- The keys of an object, each once.
abbrev pub keys_of : Fields → List Text
keys_of end = []
keys_of (field k v rest) = k ∷ keys_of rest

unfoldable pub member_text : Text → List Text → Bool
unfolding text_eq
member_text k [] = false
member_text k (j ∷ js) = text_eq k j || member_text k js

unfoldable pub subset_text : List Text → List Text → Bool
unfolding member_text
subset_text [] js = true
subset_text (k ∷ ks) js = member_text k js && subset_text ks js

-- `set(response) == keys`
unfoldable pub has_keys : List Text → Fields → Bool
unfolding subset_text
has_keys keys fs = subset_text (keys_of fs) keys && subset_text keys (keys_of fs)

-- The tests of `_response_result` on the single fields.
abbrev pub check_version : Option Json → Result Failure (Unit {0})
check_version (some (int (pos n))) =
    if n == envelope_version
    then ok tt
    else err (bridge_error (text "ENVELOPE_VERSION_MISMATCH") false)
check_version (some (int (negsuc n))) = err (bridge_error (text "ENVELOPE_VERSION_MISMATCH") false)
check_version _ = err unavailable

abbrev pub id_matches : Text → Option Json → Bool
id_matches request_id (some (str s)) = text_eq s request_id
id_matches request_id _ = false

unfoldable pub result_of : Fields → Result Failure Fields
unfolding has_keys get_field
result_of response =
    if has_keys (text "v" ∷ text "id" ∷ text "ok" ∷ text "result" ∷ []) response
    then (elim (get_field (text "result") response) [ some (obj fs) ↦ ok fs | _ ↦ err unavailable ])
    else err unavailable

-- The failure that an error response stands for.
abbrev pub reported : Option Json → Option Json → Option Json → Failure
reported (some (str code)) (some (str message)) (some (bool retryable)) =
    bridge_error code retryable
reported _ _ _ = unavailable

unfoldable pub error_of : Fields → Failure
unfolding has_keys get_field
error_of response =
    if has_keys (text "v" ∷ text "id" ∷ text "ok" ∷ text "error" ∷ []) response
    then (elim (get_field (text "error") response) [
      | some (obj fs) ↦
          reported (get_field (text "code") fs) (get_field (text "message") fs)
            (get_field (text "retryable") fs)
      | _ ↦ unavailable
    ])
    else unavailable

-- What follows by the field "ok".
unfoldable pub outcome_of : Fields → Option Json → Result Failure Fields
unfolding result_of error_of
outcome_of response (some (bool true)) = result_of response
outcome_of response (some (bool false)) = err (error_of response)
outcome_of response _ = err unavailable

-- `_response_result`
unfoldable pub response_result : Fields → Text → Result Failure Fields
unfolding outcome_of get_field text_eq
response_result response request_id =
    check_version (get_field (text "v") response)
    >> (if id_matches request_id (get_field (text "id") response)
        then outcome_of response (get_field (text "ok") response)
        else err unavailable)
