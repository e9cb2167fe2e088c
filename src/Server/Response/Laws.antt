-- ===== src/Server/Response/Laws.antt =====
-- server/core/bridge_client.py, `_response_result`: which responses are a result, and what the
-- bridge's own responses mean.
use blender_design.Common.{
  ◌≡◌, refl, ap, Bool, true, false, [], ◌∷◌, Option, none, some, Result, ok, err, >>=-eq-ok, arith,
  if◌then◌else◌,
}
use blender_design.Protocol.Json.{
  Text, text, text_eq, text_eq_refl, text_eq-eq, Text_discrete, Json, null, int, float, arr, pos,
  negsuc, str, bool, obj, Fields, get_field,
}
use blender_design.Protocol.Envelope.{JsonCodec, envelope_version, ok_fields, error_fields}
use blender_design.Server.Response.{
  Failure, bridge_error, unavailable, has_keys, subset_text, member_text, check_version, id_matches,
  result_of, outcome_of, error_of, response_result,
}

pub err≢ok : {A : Type 0} {e : Failure} {a : A} → ◌≡◌ {A = Result Failure A} (err e) (ok a) → ⊥
err≢ok h = cc

check_version-eq-ok :
    (v : Option Json) {u : Unit {0}}
    → check_version v ≡ ok u
    → v ≡ some (int (pos envelope_version))
check_version-eq-ok none h = absurd (err≢ok h)
check_version-eq-ok (some null) h = absurd (err≢ok h)
check_version-eq-ok (some (bool b)) h = absurd (err≢ok h)
check_version-eq-ok (some (int (pos n))) h = ground arith
check_version-eq-ok (some (int (negsuc n))) h = absurd (err≢ok h)
check_version-eq-ok (some (float t)) h = absurd (err≢ok h)
check_version-eq-ok (some (str t)) h = absurd (err≢ok h)
check_version-eq-ok (some (arr xs)) h = absurd (err≢ok h)
check_version-eq-ok (some (obj fs)) h = absurd (err≢ok h)

id_matches-eq :
    (request_id : Text) (v : Option Json)
    → id_matches request_id v ≡ true
    → v ≡ some (str request_id)
id_matches-eq request_id none h = cc
id_matches-eq request_id (some null) h = cc
id_matches-eq request_id (some (bool b)) h = cc
id_matches-eq request_id (some (int n)) h = cc
id_matches-eq request_id (some (float t)) h = cc
id_matches-eq request_id (some (str t)) h = ap (λ s. some (str s)) (text_eq-eq t request_id h)
id_matches-eq request_id (some (arr xs)) h = cc
id_matches-eq request_id (some (obj fs)) h = cc

-- What a response says that is a result.
pub record Accepted (response : Fields) (request_id : Text) (result : Fields) : Type 0 where
  pub version : get_field (text "v") response ≡ some (int (pos envelope_version))
  pub id : get_field (text "id") response ≡ some (str request_id)
  pub succeeded : get_field (text "ok") response ≡ some (bool true)
  pub keys : has_keys (text "v" ∷ text "id" ∷ text "ok" ∷ text "result" ∷ []) response ≡ true
  pub result_eq : get_field (text "result") response ≡ some (obj result)

result_of-eq-ok :
    (response : Fields) {result : Fields}
    → result_of response ≡ ok result
    → (has_keys (text "v" ∷ text "id" ∷ text "ok" ∷ text "result" ∷ []) response ≡ true)
      × (get_field (text "result") response ≡ some (obj result))
unfolding result_of
result_of-eq-ok response {result} h =
    by_keys (has_keys (text "v" ∷ text "id" ∷ text "ok" ∷ text "result" ∷ []) response)
      (get_field (text "result") response) h
  where
    by_keys :
        (b : Bool) (v : Option Json)
        → (if b then (elim v [ some (obj fs) ↦ ok fs | _ ↦ err unavailable ]) else err unavailable)
          ≡ ok result
        → (b ≡ true) × (v ≡ some (obj result))
    by_keys false v q = absurd (err≢ok q)
    by_keys true (some (obj fs)) q = (refl, ground arith)
    by_keys true none q = absurd (err≢ok q)
    by_keys true (some null) q = absurd (err≢ok q)
    by_keys true (some (bool b)) q = absurd (err≢ok q)
    by_keys true (some (int n)) q = absurd (err≢ok q)
    by_keys true (some (float t)) q = absurd (err≢ok q)
    by_keys true (some (str t)) q = absurd (err≢ok q)
    by_keys true (some (arr xs)) q = absurd (err≢ok q)

outcome_of-eq-ok :
    (response : Fields) (v : Option Json) {result : Fields}
    → outcome_of response v ≡ ok result
    → (v ≡ some (bool true)) × (result_of response ≡ ok result)
unfolding outcome_of
outcome_of-eq-ok response none h = absurd (err≢ok h)
outcome_of-eq-ok response (some (bool true)) h = (refl, h)
outcome_of-eq-ok response (some (bool false)) h = absurd (err≢ok h)
outcome_of-eq-ok response (some null) h = absurd (err≢ok h)
outcome_of-eq-ok response (some (int n)) h = absurd (err≢ok h)
outcome_of-eq-ok response (some (float t)) h = absurd (err≢ok h)
outcome_of-eq-ok response (some (str t)) h = absurd (err≢ok h)
outcome_of-eq-ok response (some (arr xs)) h = absurd (err≢ok h)
outcome_of-eq-ok response (some (obj fs)) h = absurd (err≢ok h)

if-eq-ok :
    {A : Type 0} (b : Bool) (e : Failure) (r : Result Failure A) {a : A}
    → (if b then r else err e) ≡ ok a
    → (b ≡ true) × (r ≡ ok a)
if-eq-ok true e r h = (refl, h)
if-eq-ok false e r h = absurd (err≢ok h)

-- A response counts as the result of a call only if it has exactly the fields "v", "id", "ok" and
-- "result", the version of the envelope, the id of the request and true for "ok"; the caller then
-- gets the object under "result".
pub response_result-Accepted :
    (response : Fields) (request_id : Text) {result : Fields}
    → response_result response request_id ≡ ok result
    → Accepted response request_id result
unfolding response_result
response_result-Accepted response request_id h =
    let (_, e, h₁) = >>=-eq-ok (check_version (get_field (text "v") response)) _ h in
    let (m, h₂) =
      if-eq-ok (id_matches request_id (get_field (text "id") response)) unavailable _ h₁ in
    let (s, h₃) = outcome_of-eq-ok response (get_field (text "ok") response) h₂ in
    let (k, f) = result_of-eq-ok response h₃ in
    record {
      version = check_version-eq-ok (get_field (text "v") response) e;
      id = id_matches-eq request_id (get_field (text "id") response) m;
      succeeded = s;
      keys = k;
      result_eq = f;
    }

-- The bridge's own responses mean what it wrote: its result, and its error with the code and the
-- flag for a retry.
pub response_result-written :
    (codec : JsonCodec) (request_id : Text) (result : Fields) (code message : Text)
    (retryable : Bool)
    → (response_result (ok_fields codec request_id (obj result)) request_id ≡ ok result)
      × (response_result (error_fields codec request_id code message retryable) request_id
          ≡ err (bridge_error code retryable))
unfolding response_result outcome_of get_field text_eq Text_discrete has_keys subset_text
    member_text result_of error_of
response_result-written codec request_id result code message retryable =
    (rw (text_eq_refl request_id) refl, rw (text_eq_refl request_id) refl)
