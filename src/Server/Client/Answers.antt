-- ===== src/Server/Client/Answers.antt =====
-- What a call that returns has done: the request it wrote, the answer it read, and when.
use blender_design.Common.{
  ℕ, zero, suc, ◌-◌, ◌/◌, min, max, ◌<◌, ◌≤◌, ◌≡◌, refl, sym, ap, ◌∙◌, Bool, true, false, List, [],
  ◌∷◌, ◌++◌, append-nil, append_assoc, Result, ok, err, leb, arith, if◌then◌else◌,
}
use blender_design.Protocol.Framing.{Bytes, FrameBuffer, Frames, prepend_frames, feed}
use blender_design.Protocol.Framing.RoundTrip.{feed_all, and_then}
use blender_design.Protocol.Envelope.{max_request_budget_ms}
use blender_design.Server.Response.{Failure, unavailable, timed_out}
use blender_design.Server.Client.Socket.{
  RecvResult, received, recv_timeout, recv_error, Env, World, return, raise,
}
use blender_design.Server.Client.{
  observe, check_deadline, remaining_budget_ms, receive, after_recv, after_feed,
}
use blender_design.Server.Response.Laws.{err≢ok}
use blender_design.Server.Client.Effects.{
  world_eq, continue-eq-ok, Same, Same-trans, Same-observe, check_deadline-Same, round,
}

-- Pieces were read for which `frames` gives the answer first; nothing was written.
pub record Read (frames : List Bytes → Frames) (payload : Bytes) (w w' : World) : Type 0 where
  pub written_eq : w'.written ≡ w.written
  pub pieces : List Bytes
  pub others : List Bytes
  pub inbound_eq : w'.inbound ≡ w.inbound ++ pieces
  pub frames_eq : frames pieces ≡ ok (payload ∷ others)

pub Same-Read :
    {frames : List Bytes → Frames} {payload : Bytes} {u v w : World}
    → Same u v
    → Read frames payload v w
    → Read frames payload u w
Same-Read a b = record {
  written_eq = b.written_eq ∙ a.written_eq;
  pieces = b.pieces;
  others = b.others;
  inbound_eq = b.inbound_eq ∙ ap (λ xs. xs ++ b.pieces) a.inbound_eq;
  frames_eq = b.frames_eq;
}

pub value_eq :
    {A : Type 0} {a b : A} {w w' : World}
    → ◌≡◌ {A = Result Failure A × World} (ok a, w) (ok b, w')
    → a ≡ b
value_eq h = ok_injective (ap (λ p. p.0) h)
  where
    ok_injective : {A : Type 0} {a b : A} → ◌≡◌ {A = Result Failure A} (ok a) (ok b) → a ≡ b
    ok_injective q = cc

module _ (env : Env) where
  after_feed-Read :
      (fuel deadline : ℕ) (r : Frames × FrameBuffer) (w w' : World) {payload : Bytes}
      → (after_feed env deadline (receive env fuel deadline) r) w ≡ (ok payload, w')
      → ((buffer : FrameBuffer) (v : World)
          → receive env fuel deadline buffer v ≡ (ok payload, w')
          → Read (λ ps. (feed_all buffer ps).0) payload v w')
      → Read (λ ps. (and_then (λ c. feed_all c ps) r).0) payload w w'
  unfolding feed_all
  after_feed-Read fuel deadline (err e, buffer) w w' h k = absurd (err≢ok (ap (λ p. p.0) h))
  after_feed-Read fuel deadline (ok [], buffer) w w' h k =
      let (_, (v, e, h₁)) =
        continue-eq-ok (λ _. receive env fuel deadline buffer) (check_deadline env deadline w) h in
      let r = k buffer v h₁ in
      Same-Read (check_deadline-Same env deadline w v e) (record {
        written_eq = r.written_eq;
        pieces = r.pieces;
        others = r.others;
        inbound_eq = r.inbound_eq;
        frames_eq = ap (prepend_frames []) r.frames_eq;
      })
  after_feed-Read fuel deadline (ok (p ∷ ps), buffer) w w' {payload} h k =
      let (_, (v, e, h₁)) = continue-eq-ok (λ _. return p) (check_deadline env deadline w) h in
      let same : p ≡ payload = value_eq h₁ in
      Same-Read (check_deadline-Same env deadline w v e) (
        rw (← world_eq h₁) (record {
          written_eq = refl;
          pieces = [];
          others = ps;
          inbound_eq = sym (append-nil v.inbound);
          frames_eq = ap (λ xs. ok xs) (append-nil (p ∷ ps) ∙ ap (λ q. q ∷ ps) same);
        }))

  took-Read :
      (deadline : ℕ) (bytes : Bytes) (buffer : FrameBuffer) (w v w' : World) {payload : Bytes}
      → Same (record w { inbound = w.inbound ++ bytes ∷ [] }) v
      → Read (λ ps. (and_then (λ c. feed_all c ps) (feed buffer bytes)).0) payload v w'
      → Read (λ ps. (feed_all buffer ps).0) payload w w'
  unfolding feed_all
  took-Read deadline bytes buffer w v w' a b = record {
    written_eq = b.written_eq ∙ a.written_eq;
    pieces = bytes ∷ b.pieces;
    others = b.others;
    inbound_eq =
        b.inbound_eq
        ∙ ap (λ xs. xs ++ b.pieces) a.inbound_eq
        ∙ append_assoc w.inbound (bytes ∷ []) b.pieces;
    frames_eq = b.frames_eq;
  }

  after_recv-Read :
      (fuel deadline : ℕ) (buffer : FrameBuffer) (r : RecvResult) (w w' : World) {payload : Bytes}
      → (after_recv env deadline buffer (receive env fuel deadline) r) w ≡ (ok payload, w')
      → ((b : FrameBuffer) (v : World)
          → receive env fuel deadline b v ≡ (ok payload, w')
          → Read (λ ps. (feed_all b ps).0) payload v w')
      → Read (λ ps. (feed_all buffer ps).0) payload w w'
  after_recv-Read fuel deadline buffer recv_timeout w w' h k =
      let (_, (v, e, h₁)) =
        continue-eq-ok (λ _. receive env fuel deadline buffer) (check_deadline env deadline w) h in
      Same-Read (check_deadline-Same env deadline w v e) (k buffer v h₁)
  after_recv-Read fuel deadline buffer recv_error w w' h k = absurd (err≢ok (ap (λ p. p.0) h))
  after_recv-Read fuel deadline buffer (received []) w w' h k =
      let (v, _, h₁) = round env deadline (raise unavailable) w h in
      absurd (err≢ok (ap (λ p. p.0) h₁))
  after_recv-Read fuel deadline buffer (received (x ∷ xs)) w w' h k =
      let u : World = record w { inbound = w.inbound ++ (x ∷ xs) ∷ [] } in
      let (v, same, h₁) =
        round env deadline
          (after_feed env deadline (receive env fuel deadline) (feed buffer (x ∷ xs))) u h in
      took-Read deadline (x ∷ xs) buffer w v w' same
        (after_feed-Read fuel deadline (feed buffer (x ∷ xs)) v w' h₁ k)

  pub receive-Read :
      (fuel deadline : ℕ) (buffer : FrameBuffer) (w w' : World) {payload : Bytes}
      → receive env fuel deadline buffer w ≡ (ok payload, w')
      → Read (λ ps. (feed_all buffer ps).0) payload w w'
  unfolding receive
  receive-Read zero deadline buffer w w' h = absurd (err≢ok (ap (λ p. p.0) h))
  receive-Read (suc fuel) deadline buffer w w' h =
      let (v, same, h₁) = round env deadline _ w h in
      Same-Read (Same-trans same (Same-observe env v)) (
        after_recv-Read fuel deadline buffer (env.recv v.observed) (observe env v) w' h₁
          (λ b u. receive-Read fuel deadline b u w'))

  pub remaining_budget_ms-eq-ok :
      (deadline : ℕ) (w w' : World) {b : ℕ}
      → remaining_budget_ms env deadline w ≡ (ok b, w')
      → (0 < b) × (b ≤ max_request_budget_ms) × Same w w'
  unfolding remaining_budget_ms
  remaining_budget_ms-eq-ok deadline w w' {b} h =
      let t = env.clock w.observed in budget (leb deadline t) ((deadline - t) / 1000) h
    where
      budget :
          (late : Bool) (ms : ℕ)
          → (if late then raise timed_out else return (min max_request_budget_ms (max 1 ms)))
              (observe env w)
            ≡ (ok b, w')
          → (0 < b) × (b ≤ max_request_budget_ms) × Same w w'
      budget true ms q = absurd (err≢ok (ap (λ p. p.0) q))
      budget false ms q =
          let same : min max_request_budget_ms (max 1 ms) ≡ b = value_eq q in
          (omega (arith, same), omega (arith, same), rw (← world_eq q) (Same-observe env w))
