-- ===== src/Server/Client/Ends.antt =====
-- A call ends: no loop of it runs out of fuel once the clock reaches the deadline.
use blender_design.Common.{
  ℕ, zero, suc, ◌+◌, ◌<◌, ◌≤◌, ◌≡◌, ◌≢◌, refl, ap, Bool, true, false, [], ◌∷◌, ◌++◌, Option, none,
  some, Result, ok, err, take, drop, leb, arith, if◌then◌else◌,
}
use blender_design.Protocol.Framing.{Bytes, FrameBuffer, Frames, feed}
use blender_design.Server.Response.{
  Failure, cancelled, timeout_error, os_error, out_of_fuel, timed_out, unavailable,
}
use blender_design.Server.Client.Socket.{
  ConnectResult, connected, again, in_progress, connect_timeout, refused, SelectResult, nothing,
  ready, ready_timeout, ready_error, SendResult, sent, send_timeout, send_error, RecvResult,
  received, recv_timeout, recv_error, Env, World, Client, return, raise, continue, ◌>>◌,
}
use blender_design.Server.Client.{
  observe, check_deadline, poll, wait_connected, connect, send, receive, after_select,
  after_connect, after_send, after_recv, after_feed,
}

-- The block was not cut short by the model.
abbrev pub Ends : {A : Type 0} → Result Failure A × World → Type 0
Ends {A} r = r.0 ≢ err out_of_fuel

pub ok≢err : {A : Type 0} {a : A} {e : Failure} → ◌≡◌ {A = Result Failure A} (ok a) (err e) → ⊥
ok≢err h = cc

pub raised : {A : Type 0} {e f : Failure} → e ≢ f → ◌≡◌ {A = Result Failure A} (err e) (err f) → ⊥
raised n h = n (failure_eq h)
  where
    failure_eq : {A : Type 0} {e f : Failure} → ◌≡◌ {A = Result Failure A} (err e) (err f) → e ≡ f
    failure_eq q = cc

pub timed_out≢out_of_fuel : timed_out ≢ out_of_fuel
timed_out≢out_of_fuel e = cc

pub unavailable≢out_of_fuel : unavailable ≢ out_of_fuel
unavailable≢out_of_fuel e = cc

os_error≢out_of_fuel : os_error ≢ out_of_fuel
os_error≢out_of_fuel e = cc

timeout_error≢out_of_fuel : timeout_error ≢ out_of_fuel
timeout_error≢out_of_fuel e = cc

cancelled≢out_of_fuel : cancelled ≢ out_of_fuel
cancelled≢out_of_fuel e = cc

pub continue-Ends :
    {A B : Type 0} (next : A → Client B) (r : Result Failure A × World)
    → Ends r
    → ((a : A) (w : World) → r ≡ (ok a, w) → Ends (next a w))
    → Ends (continue next r)
continue-Ends next (ok a, w) e k = k a w refl
continue-Ends next (err f, w) e k = raised (λ q. e (ap (λ x. err x) q))

module _ (env : Env) (deadline limit : ℕ)
    (late : (n : ℕ) → limit ≤ n → deadline ≤ env.clock n) where
  pub check_deadline-Ends :
      {A : Type 0} (next : Client A) (w : World)
      → ((v : World) → v.observed ≡ w.observed + 1 → w.observed < limit → Ends (next v))
      → Ends ((check_deadline env deadline >> next) w)
  unfolding check_deadline
  check_deadline-Ends {A} next w k =
      by_time (leb deadline (env.clock w.observed)) (λ e. ground (arith, late w.observed))
    where
      by_time :
          (b : Bool)
          → (b ≡ false → w.observed < limit)
          → Ends (continue (λ _. next) ((if b then raise timed_out else return tt) (observe env w)))
      by_time true early = raised timed_out≢out_of_fuel
      by_time false early = k (observe env w) refl (early refl)

  pub poll-Ends :
      {A : Type 0} (next : Client A) (w : World)
      → ((v : World) → w.observed ≤ v.observed → Ends (next v))
      → Ends ((poll env >> next) w)
  unfolding poll
  poll-Ends next w k = polled env.check_cancelled
    where
      polled :
          (c : Option (ℕ → Bool))
          → Ends (
              continue
                (λ _. next)
                (elim c as (λ _. Result Failure (Unit {0}) × World) [
                  | none ↦ (ok tt, w)
                  | some raises ↦
                      (if raises w.observed then err cancelled else ok tt, observe env w)
                ]))
      polled none = k w (omega arith)
      polled (some raises) = asked (raises w.observed)
        where
          asked :
              (b : Bool)
              → Ends (continue (λ _. next) (if b then err cancelled else ok tt, observe env w))
          asked true = raised cancelled≢out_of_fuel
          asked false = k (observe env w) (omega arith)

  -- A round that starts when the deadline has come raises.
  round-Ends :
      {A : Type 0} (next : Client A) (w : World)
      → ((v : World) → w.observed < v.observed → w.observed < limit → Ends (next v))
      → Ends ((poll env >> (check_deadline env deadline >> next)) w)
  round-Ends next w k =
      poll-Ends (check_deadline env deadline >> next) w
        (λ u p. check_deadline-Ends next u (λ v e early. k v (omega arith) (omega arith)))

  -- There is fuel for every round that starts before the clock reaches the deadline.
  abbrev Enough : ℕ → World → Type 0
  Enough fuel w = (0 < fuel) × (limit < fuel + w.observed)

  wait_connected-Ends :
      (fuel : ℕ) (w : World) → Enough fuel w → Ends (wait_connected env fuel deadline w)
  unfolding wait_connected
  wait_connected-Ends zero w h = absurd (omega (arith, h.0))
  wait_connected-Ends (suc fuel) w h = round-Ends _ w (λ v p early.
      selected (env.select (observe env v).observed) (observe env (observe env v)) (
        wait_connected-Ends fuel (observe env (observe env v))
          (omega (arith, h.1), omega (arith, h.1))))
    where
      selected :
          (r : SelectResult) (u : World)
          → Ends (wait_connected env fuel deadline u)
          → Ends (after_select env (wait_connected env fuel deadline) r u)
      selected nothing u k = k
      selected ready u k = ok≢err
      selected ready_timeout u k = raised timeout_error≢out_of_fuel
      selected ready_error u k = raised os_error≢out_of_fuel

  pub connect-Ends : (fuel : ℕ) (w : World) → Enough fuel w → Ends (connect env fuel deadline w)
  unfolding connect
  connect-Ends zero w h = absurd (omega (arith, h.0))
  connect-Ends (suc fuel) w h = round-Ends _ w (λ v p early.
      tried (env.connect v.observed) (observe env v)
        (connect-Ends fuel (observe env (observe env v)) (omega (arith, h.1), omega (arith, h.1)))
        (wait_connected-Ends fuel (observe env v) (omega (arith, h.1), omega (arith, h.1))))
    where
      tried :
          (r : ConnectResult) (u : World)
          → Ends (connect env fuel deadline (observe env u))
          → Ends (wait_connected env fuel deadline u)
          → Ends
              (after_connect env (connect env fuel deadline) (wait_connected env fuel deadline) r u)
      tried connected u k j = ok≢err
      tried again u k j = k
      tried in_progress u k j = j
      tried connect_timeout u k j = raised timeout_error≢out_of_fuel
      tried refused u k j = raised os_error≢out_of_fuel

  pub send-Ends :
      (fuel : ℕ) (bytes : Bytes) (w : World) → Enough fuel w → Ends (send env fuel deadline bytes w)
  unfolding send
  send-Ends fuel [] w h = ok≢err
  send-Ends zero (x ∷ xs) w h = absurd (omega (arith, h.0))
  send-Ends (suc fuel) (x ∷ xs) w h = round-Ends _ w (λ v p early.
      tried (env.send v.observed) (observe env v)
        (λ rest u q. send-Ends fuel rest u (omega (arith, h.1), omega (arith, h.1))))
    where
      tried :
          (r : SendResult) (u : World)
          → ((rest : Bytes) (v : World)
              → u.observed ≤ v.observed
              → Ends (send env fuel deadline rest v))
          → Ends (after_send env deadline (x ∷ xs) (send env fuel deadline) r u)
      tried (sent zero) u k = raised unavailable≢out_of_fuel
      tried (sent (suc n)) u k =
          k (drop (suc n) (x ∷ xs)) (record u { written = u.written ++ take (suc n) (x ∷ xs) })
            (omega arith)
      tried send_timeout u k =
          check_deadline-Ends (send env fuel deadline (x ∷ xs)) u
            (λ v e early. k (x ∷ xs) v (omega arith))
      tried send_error u k = raised os_error≢out_of_fuel

  pub receive-Ends :
      (fuel : ℕ) (buffer : FrameBuffer) (w : World)
      → Enough fuel w
      → Ends (receive env fuel deadline buffer w)
  unfolding receive
  receive-Ends zero buffer w h = absurd (omega (arith, h.0))
  receive-Ends (suc fuel) buffer w h = round-Ends _ w (λ v p early.
      tried (env.recv v.observed) (observe env v)
        (λ b u q. receive-Ends fuel b u (omega (arith, h.1), omega (arith, h.1))))
    where
      fed :
          (r : Frames × FrameBuffer) (u : World)
          → ((b : FrameBuffer) (v : World)
              → u.observed ≤ v.observed
              → Ends (receive env fuel deadline b v))
          → Ends (after_feed env deadline (receive env fuel deadline) r u)
      fed (err e, b) u k = raised unavailable≢out_of_fuel
      fed (ok [], b) u k =
          check_deadline-Ends (receive env fuel deadline b) u (λ v e early. k b v (omega arith))
      fed (ok (f ∷ fs), b) u k = check_deadline-Ends (return f) u (λ v e early. ok≢err)

      tried :
          (r : RecvResult) (u : World)
          → ((b : FrameBuffer) (v : World)
              → u.observed ≤ v.observed
              → Ends (receive env fuel deadline b v))
          → Ends (after_recv env deadline buffer (receive env fuel deadline) r u)
      tried recv_timeout u k =
          check_deadline-Ends (receive env fuel deadline buffer) u
            (λ v e early. k buffer v (omega arith))
      tried recv_error u k = raised os_error≢out_of_fuel
      tried (received []) u k =
          round-Ends (raise unavailable) u (λ v p early. raised unavailable≢out_of_fuel)
      tried (received (x ∷ xs)) u k =
          round-Ends _ (record u { inbound = u.inbound ++ (x ∷ xs) ∷ [] })
            (λ v p early. fed (feed buffer (x ∷ xs)) v (λ b t q. k b t (omega arith)))
