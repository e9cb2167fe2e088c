-- ===== src/Server/Client.antt =====
-- server/core/bridge_client.py: one call of the bridge over its socket. Times are in microseconds.
-- What the clock, the socket and `check_cancelled` answer is read from an environment, by the
-- number of answers read so far; loops run on fuel.
pub mod Socket
pub mod Effects
pub mod Answers
pub mod Calls
pub mod Ends
pub mod Termination
use blender_design.Common.{
  ℕ, zero, suc, ◌+◌, ◌-◌, ◌*◌, ◌/◌, min, max, Bool, List, [], ◌∷◌, ◌++◌, Option, none, some, Result,
  ok, err, take, drop, leb, if◌then◌else◌,
}
use blender_design.Protocol.Framing.{Bytes, Frames, FrameBuffer, empty_buffer, feed}
use blender_design.Protocol.Json.{Text, Fields}
use blender_design.Server.Response.{
  Failure, cancelled, timeout_error, os_error, frame_error, out_of_fuel, timed_out, unavailable,
  response_result,
}
use blender_design.Protocol.Envelope.{
  Request, JsonCodec, envelope_version, method_timeouts, timeout_of, max_request_budget_ms,
  encode_request, decode_response,
}
use blender_design.Server.Client.Socket.{
  Client, ConnectResult, Env, RecvResult, SelectResult, SendResult, World, again, connected,
  continue, in_progress, nothing, raise, ready, ready_timeout, ready_error, connect_timeout,
  received, recv_error, recv_timeout, refused, return, send_error, send_timeout, sent, ◌>>=◌, ◌>>◌,
}

module _ (env : Env) where
  abbrev pub observe : World → World
  observe w = record w { observed = w.observed + 1 }

  -- `time.monotonic()`
  abbrev pub now : Client ℕ
  now w = (ok (env.clock w.observed), observe w)

  -- `_check_deadline`, and the test of `_set_deadline`, whose setting of the socket is not modelled.
  unfoldable pub check_deadline : ℕ → Client (Unit {0})
  check_deadline deadline = do t ← now; if leb deadline t then raise timed_out else return tt

  -- `if check_cancelled is not None: check_cancelled()`
  unfoldable pub poll : Client (Unit {0})
  poll w = elim env.check_cancelled [
    | none ↦ (ok tt, w)
    | some raises ↦ (if raises w.observed then err cancelled else ok tt, observe w)
  ]

  -- `_remaining_budget_ms`
  unfoldable pub remaining_budget_ms : ℕ → Client ℕ
  remaining_budget_ms deadline = do
    t ← now
    if leb deadline t
        then raise timed_out
        else return (min max_request_budget_ms (max 1 ((deadline - t) / 1000)))

  abbrev pub try_connect : Client ConnectResult
  try_connect w = (ok (env.connect w.observed), observe w)

  abbrev pub try_select : Client SelectResult
  try_select w = (ok (env.select w.observed), observe w)

  abbrev pub try_send : Client SendResult
  try_send w = (ok (env.send w.observed), observe w)

  abbrev pub try_recv : Client RecvResult
  try_recv w = (ok (env.recv w.observed), observe w)

  abbrev pub wrote : Bytes → Client (Unit {0})
  wrote bytes w = (ok tt, record w { written = w.written ++ bytes })

  abbrev pub took : Bytes → Client (Unit {0})
  took bytes w = (ok tt, record w { inbound = w.inbound ++ bytes ∷ [] })

  -- What follows `select`, where `retry` is the next round of the loop.
  abbrev pub after_select : Client (Unit {0}) → SelectResult → Client (Unit {0})
  after_select retry nothing = retry
  after_select retry ready = return tt
  after_select retry ready_timeout = raise timeout_error
  after_select retry ready_error = raise os_error

  -- The inner loop of `_connect`; the clock is read for the time that `select` may wait.
  unfoldable pub wait_connected : ℕ → ℕ → Client (Unit {0})
  unfolding poll check_deadline
  wait_connected zero deadline = raise out_of_fuel
  wait_connected (suc fuel) deadline = do
    poll
    check_deadline deadline
    t ← now
    r ← try_select
    after_select (wait_connected fuel deadline) r

  abbrev pub after_connect :
      Client (Unit {0}) → Client (Unit {0}) → ConnectResult → Client (Unit {0})
  after_connect retry wait connected = return tt
  after_connect retry wait again = do t ← now; retry
  after_connect retry wait in_progress = wait
  after_connect retry wait connect_timeout = raise timeout_error
  after_connect retry wait refused = raise os_error

  unfoldable pub connect : ℕ → ℕ → Client (Unit {0})
  unfolding wait_connected
  connect zero deadline = raise out_of_fuel
  connect (suc fuel) deadline = do
    poll
    check_deadline deadline
    r ← try_connect
    after_connect (connect fuel deadline) (wait_connected fuel deadline) r

  abbrev pub after_send : ℕ → Bytes → (Bytes → Client (Unit {0})) → SendResult → Client (Unit {0})
  after_send deadline pending next (sent zero) = raise unavailable
  after_send deadline pending next (sent (suc n)) = do
    wrote (take (suc n) pending)
    next (drop (suc n) pending)
  after_send deadline pending next send_timeout = do check_deadline deadline; next pending
  after_send deadline pending next send_error = raise os_error

  -- `_send`, for the bytes that are still to be written.
  unfoldable pub send : ℕ → ℕ → Bytes → Client (Unit {0})
  unfolding poll check_deadline
  send fuel deadline [] = return tt
  send zero deadline (x ∷ xs) = raise out_of_fuel
  send (suc fuel) deadline (x ∷ xs) = do
    poll
    check_deadline deadline
    r ← try_send
    after_send deadline (x ∷ xs) (send fuel deadline) r

  abbrev pub first_frame : Client Bytes → List Bytes → Client Bytes
  first_frame next [] = next
  first_frame next (payload ∷ rest) = return payload

  abbrev pub after_feed : ℕ → (FrameBuffer → Client Bytes) → Frames × FrameBuffer → Client Bytes
  after_feed deadline next (err e, buffer) = raise unavailable
  after_feed deadline next (ok frames, buffer) = do
    check_deadline deadline
    first_frame (next buffer) frames

  abbrev pub after_recv : ℕ → FrameBuffer → (FrameBuffer → Client Bytes) → RecvResult → Client Bytes
  after_recv deadline buffer next recv_timeout = do check_deadline deadline; next buffer
  after_recv deadline buffer next recv_error = raise os_error
  after_recv deadline buffer next (received []) = do
    poll
    check_deadline deadline
    raise unavailable
  after_recv deadline buffer next (received (x ∷ xs)) = do
    took (x ∷ xs)
    poll
    check_deadline deadline
    after_feed deadline next (feed buffer (x ∷ xs))

  -- `_receive`, which returns the first frame.
  unfoldable pub receive : ℕ → ℕ → FrameBuffer → Client Bytes
  unfolding poll check_deadline feed
  receive zero deadline buffer = raise out_of_fuel
  receive (suc fuel) deadline buffer = do
    poll
    check_deadline deadline
    r ← try_recv
    after_recv deadline buffer (receive fuel deadline) r

-- The `except` clauses of `call`.
abbrev pub translate : Failure → Failure
translate timeout_error = timed_out
translate os_error = unavailable
translate e = e

abbrev pub lift {ℓ} : {E : Type ℓ} {A : Type 0} → Failure → Result E A → Client A
lift failure (ok a) = return a
lift failure (err e) = raise failure

abbrev pub of_result : {A : Type 0} → Result Failure A → Client A
of_result (ok a) = return a
of_result (err e) = raise e

abbrev pub translate_outcome : {A : Type 0} → Result Failure A × World → Result Failure A × World
translate_outcome (ok a, w) = (ok a, w)
translate_outcome (err e, w) = (err (translate e), w)

abbrev pub translated : {A : Type 0} → Client A → Client A
translated first w = translate_outcome (first w)

-- The deadline of a call that starts at `start`; `timeout` and `limit` are its optional arguments.
unfoldable pub deadline_of : Text → Option ℕ → Option ℕ → ℕ → ℕ
unfolding timeout_of
deadline_of method timeout limit start =
    let budget = elim timeout as (λ _. ℕ) [
      | none ↦ timeout_of method method_timeouts 2000 * 1000
      | some t ↦ t
    ] in
    elim limit [ none ↦ start + budget | some d ↦ min (start + budget) d ]

module _ (codec : JsonCodec) (env : Env) where
  -- `Request.new`
  abbrev pub request_of_call : Text → Text → Fields → ℕ → Request
  request_of_call token method params budget_ms = record {
    id = env.uuid;
    token = token;
    method = method;
    params = params;
    v = envelope_version;
    budget_ms = some budget_ms;
  }

  -- The body of the `try` of `call`.
  unfoldable pub exchange : ℕ → Text → Text → Fields → ℕ → Client Bytes
  unfolding connect check_deadline remaining_budget_ms send receive encode_request
  exchange fuel token method params deadline = do
    connect env fuel deadline
    check_deadline env deadline
    budget_ms ← remaining_budget_ms env deadline
    frame ← lift frame_error (encode_request codec (request_of_call token method params budget_ms))
    check_deadline env deadline
    send env fuel deadline frame
    check_deadline env deadline
    receive env fuel deadline empty_buffer

  unfoldable pub call : ℕ → Text → Text → Fields → Option ℕ → Option ℕ → Client Fields
  unfolding exchange deadline_of check_deadline poll decode_response response_result
  call fuel token method params timeout limit = do
    start ← now env
    let deadline = deadline_of method timeout limit start
    check_deadline env deadline
    poll env
    payload ← translated (exchange fuel token method params deadline)
    response ← lift unavailable (decode_response codec payload)
    check_deadline env deadline
    of_result (response_result response env.uuid)
