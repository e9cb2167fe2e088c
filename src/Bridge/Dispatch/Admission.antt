-- ===== src/Bridge/Dispatch/Admission.antt =====
-- Which requests reach the queue.
use blender_design.Common.{
  ℕ, ◌≤◌, ◌≡◌, refl, Bool, true, false, Option, none, Result, ok, err, ◌>>=◌, >>=-eq-ok, length,
  ltb, if◌then◌else◌, if-cases, ltb→le, inl, inr, arith,
}
use blender_design.Protocol.Framing.{Bytes, FrameError}
use blender_design.Protocol.Json.{Text, text}
use blender_design.Protocol.Envelope.{Request, JsonCodec, DecodeError, decode_request, error_frame}
use blender_design.Bridge.Queue.{Task, Queue, QueueFull, submit}
use blender_design.Bridge.Queue.Bounds.{IsBounded, submit-IsBounded}
use blender_design.Bridge.Outbox.{send}
use blender_design.Bridge.Outbox.Limits.{WithinLimits, send-WithinLimits}
use blender_design.Bridge.Outbox.Counts.{length-drop_from, length-send}
use blender_design.Bridge.Outbox.Changes.{drops, Change-WithinLimits}
use blender_design.Bridge.Dispatch.{
  max_request_payload, verify, Server, drop_conn, task_of, enqueue, dispatch,
}

module _ {C : Type 0} where
  -- What a dispatch keeps.
  pub record Dispatched (taken : Option (Task C)) (s s' : Server C) : Type 0 where
    pub bounded : IsBounded taken s.queue → IsBounded taken s'.queue
    pub limited : WithinLimits s.conns → WithinLimits s'.conns
    pub fewer : length s'.conns ≤ length s.conns

module _ {C : Type 0} (codec : JsonCodec) (token : Text) where
  -- What a payload may do to the queue: nothing, or one task at its end, for a request that the
  -- payload decodes to and that shows the session's token.
  pub data Admitted (k now : ℕ) (payload : Bytes) (q q' : Queue C) : Type 0 where
    untouched : q' ≡ q → Admitted k now payload q q'
    admitted :
        (req : Request)
        → decode_request codec payload ≡ ok req
        → verify token req.token ≡ true
        → length payload ≤ max_request_payload
        → submit q (task_of k now req) ≡ ok q'
        → Admitted k now payload q q'

module _ {C : Type 0} (codec : JsonCodec) (token : Text) (stays_open : Bool) where
  Both : ℕ → ℕ → Bytes → Option (Task C) → Server C → Server C → Type 0
  Both k now payload taken s s' =
      Admitted codec token k now payload s.queue s'.queue × Dispatched taken s s'

  dropped :
      (k now : ℕ) (payload : Bytes) (taken : Option (Task C)) (s : Server C)
      → Both k now payload taken s (drop_conn stays_open k s)
  unfolding Both
  dropped k now payload taken s = (
    untouched refl,
    record {
      bounded = λ b. b;
      limited = Change-WithinLimits (drops s.conns k stays_open);
      fewer = length-drop_from stays_open k s.conns;
    },
  )

  enqueue-Both :
      (k now : ℕ) (payload : Bytes) (taken : Option (Task C)) (req : Request) (s : Server C)
      (result : Result QueueFull (Queue C)) {out : Bool × Server C}
      → decode_request codec payload ≡ ok req
      → verify token req.token ≡ true
      → length payload ≤ max_request_payload
      → submit s.queue (task_of k now req) ≡ result
      → (elim result as (λ _. Result FrameError (Bool × Server C)) [
        | ok queue ↦ ok (true, record s { queue = queue })
        | err _ ↦
            error_frame codec req.id (text "BRIDGE_BUSY") (text "queue full") true >>= λ frame.
            ok (true, record s { conns = send s.conns k frame })
      ])
        ≡ ok out
      → Both k now payload taken s out.1
  unfolding Both
  enqueue-Both k now payload taken req s (ok queue) {out} decoded shown few e h =
      let same : (true, record s { queue = queue }) ≡ out = cc h in
      rw (← same) (
        admitted req decoded shown few e,
        record {
          bounded = λ b. submit-IsBounded taken s.queue queue (task_of k now req) b e;
          limited = λ w. w;
          fewer = omega arith;
        },
      )
  enqueue-Both k now payload taken req s (err full) {out} decoded shown few e h =
      let (frame, _, h₁) =
        >>=-eq-ok (error_frame codec req.id (text "BRIDGE_BUSY") (text "queue full") true)
          (λ frame. ok (true, record s { conns = send s.conns k frame })) h in
      let same : (true, record s { conns = send s.conns k frame }) ≡ out = cc h₁ in
      rw (← same) (
        untouched refl,
        record {
          bounded = λ b. b;
          limited = λ w. send-WithinLimits s.conns k frame w;
          fewer = length-send s.conns k frame;
        },
      )

  decoded-Both :
      (k now : ℕ) (payload : Bytes) (taken : Option (Task C)) (s : Server C)
      (decoded : Result DecodeError Request) {out : Bool × Server C}
      → length payload ≤ max_request_payload
      → decode_request codec payload ≡ decoded
      → (elim decoded as (λ _. Result FrameError (Bool × Server C)) [
        | err _ ↦ ok (false, drop_conn stays_open k s)
        | ok req ↦
            if verify token req.token
            then enqueue codec token stays_open k now req s
            else ok (false, drop_conn stays_open k s)
      ])
        ≡ ok out
      → Both k now payload taken s out.1
  unfolding enqueue
  decoded-Both k now payload taken s (err e) {out} few d h =
      let same : (false, drop_conn stays_open k s) ≡ out = cc h in
      rw (← same) (dropped k now payload taken s)
  decoded-Both k now payload taken s (ok req) {out} few d h =
      elim (if-cases (verify token req.token) (enqueue codec token stays_open k now req s)
        (ok (false, drop_conn stays_open k s)) (ok out) h) [
          | inl (shown, h₁) ↦
              enqueue-Both k now payload taken req s (submit s.queue (task_of k now req)) d shown
                few refl h₁
          | inr (_, h₁) ↦
              let same : (false, drop_conn stays_open k s) ≡ out = cc h₁ in
              rw (← same) (dropped k now payload taken s)
        ]

  dispatch-Both :
      (k now : ℕ) (payload : Bytes) (taken : Option (Task C)) (s : Server C) (out : Bool × Server C)
      → dispatch codec token stays_open k now payload s ≡ ok out
      → Both k now payload taken s out.1
  unfolding dispatch
  dispatch-Both k now payload taken s out h =
      elim (if-cases (ltb max_request_payload (length payload))
        (ok (false, drop_conn stays_open k s)) _ (ok out) h) [
          | inl (_, h₁) ↦
              let same : (false, drop_conn stays_open k s) ≡ out = cc h₁ in
              rw (← same) (dropped k now payload taken s)
          | inr (few, h₁) ↦
              decoded-Both k now payload taken s (decode_request codec payload)
                (ltb→le max_request_payload (length payload) few) refl h₁
        ]

  -- A dispatch leaves the queue as it was, or adds one task to it: only for a payload of at most 64
  -- KiB that decodes to a request with the session's token, which the limits of the queue let in.
  pub dispatch-Admitted :
      (k now : ℕ) (payload : Bytes) (s : Server C) (out : Bool × Server C)
      → dispatch codec token stays_open k now payload s ≡ ok out
      → Admitted codec token k now payload s.queue out.1.queue
  unfolding Both
  dispatch-Admitted k now payload s out h = (dispatch-Both k now payload none s out h).0

  -- A dispatch keeps the queue within its bounds, whatever task the main thread has in hand, and the
  -- out-boxes within their limits, and adds no connection.
  pub dispatch-Dispatched :
      (k now : ℕ) (payload : Bytes) (taken : Option (Task C)) (s : Server C) (out : Bool × Server C)
      → dispatch codec token stays_open k now payload s ≡ ok out
      → Dispatched taken s out.1
  unfolding Both
  dispatch-Dispatched k now payload taken s out h = (dispatch-Both k now payload taken s out h).1
