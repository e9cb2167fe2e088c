-- ===== src/Server/Client/Termination.antt =====
-- A call of the bridge client as a whole: it ends.
use blender_design.Common.{
  ℕ, ◌<◌, ◌≤◌, ◌≢◌, Bool, true, false, Option, Result, ok, err, leb, arith, if◌then◌else◌,
}
use blender_design.Protocol.Framing.{empty_buffer}
use blender_design.Protocol.Json.{Text, Fields}
use blender_design.Protocol.Envelope.{JsonCodec, encode_request, decode_response}
use blender_design.Server.Response.{
  Failure, bridge_error, cancelled, timeout_error, os_error, frame_error, out_of_fuel, timed_out,
  unavailable, result_of, error_of, outcome_of, response_result,
}
use blender_design.Server.Client.Socket.{Env, World, return, raise}
use blender_design.Server.Client.{
  observe, remaining_budget_ms, connect, send, lift, of_result, translated, translate_outcome,
  request_of_call, exchange, deadline_of, call,
}
use blender_design.Server.Client.Ends.{
  Ends, ok≢err, raised, timed_out≢out_of_fuel, unavailable≢out_of_fuel, continue-Ends, poll-Ends,
  check_deadline-Ends, connect-Ends, send-Ends, receive-Ends,
}

lift-Ends :
    {E A : Type 0} (e : Failure) (r : Result E A) (w : World) → e ≢ out_of_fuel → Ends (lift e r w)
lift-Ends e (ok a) w n = ok≢err
lift-Ends e (err x) w n = raised n

if_raise-Ends : (b : Bool) (a : ℕ) (w : World) → Ends ((if b then raise timed_out else return a) w)
if_raise-Ends true a w = raised timed_out≢out_of_fuel
if_raise-Ends false a w = ok≢err

error_of≢out_of_fuel : (response : Fields) → error_of response ≢ out_of_fuel
unfolding error_of
error_of≢out_of_fuel response = ground arith

response_result-ends :
    (response : Fields) (request_id : Text) → response_result response request_id ≢ err out_of_fuel
unfolding response_result outcome_of result_of
response_result-ends response request_id = ground (arith, error_of≢out_of_fuel response)

translate_outcome-Ends :
    {A : Type 0} (r : Result Failure A × World) → Ends r → Ends (translate_outcome r)
translate_outcome-Ends (ok a, w) h = ok≢err
translate_outcome-Ends (err (bridge_error c b), w) h = h
translate_outcome-Ends (err cancelled, w) h = h
translate_outcome-Ends (err timeout_error, w) h = raised timed_out≢out_of_fuel
translate_outcome-Ends (err os_error, w) h = raised unavailable≢out_of_fuel
translate_outcome-Ends (err frame_error, w) h = h
translate_outcome-Ends (err out_of_fuel, w) h = h

module _ (codec : JsonCodec) (env : Env) (token method : Text) (params : Fields)
    (fuel deadline limit : ℕ) (late : (n : ℕ) → limit ≤ n → deadline ≤ env.clock n)
    (enough : limit < fuel) where
  remaining_budget_ms-Ends : (w : World) → Ends (remaining_budget_ms env deadline w)
  unfolding remaining_budget_ms
  remaining_budget_ms-Ends w = if_raise-Ends (leb deadline (env.clock w.observed)) _ (observe env w)

  exchange-Ends : (w : World) → Ends (exchange codec env fuel token method params deadline w)
  unfolding exchange
  exchange-Ends w =
      continue-Ends _ (connect env fuel deadline w)
        (connect-Ends env deadline limit late fuel w (omega (arith, enough), omega (arith, enough)))
        (λ _ w₁ _. check_deadline-Ends env deadline limit late _ w₁ (λ w₂ _ _.
          continue-Ends _ (remaining_budget_ms env deadline w₂) (remaining_budget_ms-Ends w₂)
            (λ b w₃ _.
              continue-Ends _
                (lift frame_error
                  (encode_request codec (request_of_call codec env token method params b)) w₃)
                (lift-Ends frame_error
                  (encode_request codec (request_of_call codec env token method params b)) w₃
                  (λ e. cc))
                (λ frame w₄ _. check_deadline-Ends env deadline limit late _ w₄ (λ w₅ _ _.
                  continue-Ends _ (send env fuel deadline frame w₅)
                    (send-Ends env deadline limit late fuel frame w₅
                      (omega (arith, enough), omega (arith, enough)))
                    (λ _ w₆ _. check_deadline-Ends env deadline limit late _ w₆ (λ w₇ _ _.
                      receive-Ends env deadline limit late fuel empty_buffer w₇
                        (omega (arith, enough), omega (arith, enough)))))))))

of_result-Ends :
    {A : Type 0} (r : Result Failure A) (w : World) → r ≢ err out_of_fuel → Ends (of_result r w)
of_result-Ends (ok a) w n = ok≢err
of_result-Ends (err e) w n = n

-- A call ends: once the clock has reached the deadline from some observation on, no loop of the call
-- goes on longer, whatever the socket does, so fuel for more rounds than that is enough.
pub call-Ends :
    (codec : JsonCodec) (env : Env) (token method : Text) (params : Fields) (fuel limit : ℕ)
    (timeout bound : Option ℕ) (w : World)
    → ((n : ℕ) → limit ≤ n → deadline_of method timeout bound (env.clock w.observed) ≤ env.clock n)
    → limit < fuel
    → (call codec env fuel token method params timeout bound w).0 ≢ err out_of_fuel
unfolding call
call-Ends codec env token method params fuel limit timeout bound w late enough =
    let deadline = deadline_of method timeout bound (env.clock w.observed) in
    check_deadline-Ends env deadline limit late _ (observe env w) (λ w₁ _ _.
      poll-Ends env deadline limit late _ w₁ (λ w₂ _.
        continue-Ends _ (translated (exchange codec env fuel token method params deadline) w₂)
          (translate_outcome-Ends (exchange codec env fuel token method params deadline w₂)
            (exchange-Ends codec env token method params fuel deadline limit late enough w₂))
          (λ payload w₃ _.
            continue-Ends _ (lift unavailable (decode_response codec payload) w₃)
              (lift-Ends unavailable (decode_response codec payload) w₃ unavailable≢out_of_fuel)
              (λ response w₄ _. check_deadline-Ends env deadline limit late _ w₄ (λ w₅ _ _.
                of_result-Ends (response_result response env.uuid) w₅
                  (response_result-ends response env.uuid))))))
