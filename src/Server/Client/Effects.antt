-- ===== src/Server/Client/Effects.antt =====
-- What the loops of a call do to the bytes written and read, where they return.
use blender_design.Common.{
  ℕ, zero, suc, ◌<◌, ◌≡◌, refl, sym, ap, ◌∙◌, Bool, true, false, [], ◌∷◌, ◌++◌, append-nil,
  append_assoc, Option, none, some, Result, ok, err, take, drop, leb, arith, if◌then◌else◌,
}
use blender_design.Protocol.Framing.{Bytes}
use blender_design.Server.Response.Laws.{err≢ok}
use blender_design.Server.Response.{Failure, cancelled, timed_out}
use blender_design.Server.Client.Socket.{
  ConnectResult, connected, again, in_progress, connect_timeout, refused, SelectResult, nothing,
  ready, ready_timeout, ready_error, SendResult, sent, send_timeout, send_error, Env, World, Client,
  return, raise, continue, ◌>>◌,
}
use blender_design.Server.Client.{
  observe, check_deadline, poll, wait_connected, connect, send, after_select, after_connect,
  after_send,
}

-- A block that returns went through its first part, and returned from the rest.
pub continue-eq-ok :
    {A B : Type 0} (next : A → Client B) (r : Result Failure A × World) {b : B} {w' : World}
    → continue next r ≡ (ok b, w')
    → (a : A) × ((w : World) × (r ≡ (ok a, w)) × (next a w ≡ (ok b, w')))
continue-eq-ok next (ok a, w) h = (a, (w, refl, h))
continue-eq-ok next (err e, w) h = let same = ap (λ p. p.0) h in absurd (err≢ok same)

-- Nothing was written or read.
pub record Same (w w' : World) : Type 0 where
  pub written_eq : w'.written ≡ w.written
  pub inbound_eq : w'.inbound ≡ w.inbound

pub Same-trans : {u v w : World} → Same u v → Same v w → Same u w
Same-trans a b = record {
  written_eq = b.written_eq ∙ a.written_eq;
  inbound_eq = b.inbound_eq ∙ a.inbound_eq;
}

-- A result is of the world that comes with it.
pub world_eq :
    {A : Type 0} {r s : Result Failure A} {w w' : World}
    → ◌≡◌ {A = Result Failure A × World} (r, w) (s, w')
    → w ≡ w'
world_eq h = ap (λ p. p.1) h

-- The bytes `bytes` were written, and nothing was read.
pub record Wrote (bytes : Bytes) (w w' : World) : Type 0 where
  pub written_eq : w'.written ≡ w.written ++ bytes
  pub inbound_eq : w'.inbound ≡ w.inbound

pub Same-Wrote : {bytes : Bytes} {u v w : World} → Same u v → Wrote bytes v w → Wrote bytes u w
Same-Wrote {bytes} a b = record {
  written_eq = b.written_eq ∙ ap (λ xs. xs ++ bytes) a.written_eq;
  inbound_eq = b.inbound_eq ∙ a.inbound_eq;
}

take-drop : (n : ℕ) (xs : Bytes) → take n xs ++ drop n xs ≡ xs
take-drop zero xs = refl
take-drop (suc n) [] = refl
take-drop (suc n) (x ∷ xs) = ap (λ ys. x ∷ ys) (take-drop n xs)

module _ (env : Env) where
  pub Same-observe : (w : World) → Same w (observe env w)
  Same-observe w = record { written_eq = refl; inbound_eq = refl }

  pub check_deadline-eq-ok :
      (deadline : ℕ) (w w' : World)
      → check_deadline env deadline w ≡ (ok tt, w')
      → (env.clock w.observed < deadline) × (w' ≡ observe env w)
  unfolding check_deadline
  check_deadline-eq-ok deadline w w' h =
      let (b, e) = in_time (leb deadline (env.clock w.observed)) (observe env w) h in
      (ground arith, e)
    where
      in_time :
          (b : Bool) (v : World)
          → (if b then raise timed_out else return tt) v ≡ (ok tt, w')
          → (b ≡ false) × (w' ≡ v)
      in_time true v q = absurd (err≢ok (ap (λ p. p.0) q))
      in_time false v q = (refl, sym (world_eq q))

  pub poll-Same : (w w' : World) → poll env w ≡ (ok tt, w') → Same w w'
  unfolding poll
  poll-Same w w' h = polled env.check_cancelled h
    where
      polled :
          (c : Option (ℕ → Bool))
          → (elim c as (λ _. Result Failure (Unit {0}) × World) [
            | none ↦ (ok tt, w)
            | some raises ↦ (if raises w.observed then err cancelled else ok tt, observe env w)
          ])
            ≡ (ok tt, w')
          → Same w w'
      polled none q = rw (← world_eq q) (record { written_eq = refl; inbound_eq = refl })
      polled (some raises) q = rw (← world_eq q) (Same-observe w)

  pub check_deadline-Same :
      (deadline : ℕ) (w w' : World) → check_deadline env deadline w ≡ (ok tt, w') → Same w w'
  check_deadline-Same deadline w w' h = rw (check_deadline-eq-ok deadline w w' h).1 (Same-observe w)

  -- A round of a loop: `poll` and `check_deadline`, and what follows.
  pub round :
      {A : Type 0} (deadline : ℕ) (next : Client A) (w : World) {a : A} {w' : World}
      → (poll env >> (check_deadline env deadline >> next)) w ≡ (ok a, w')
      → (v : World) × Same w v × (next v ≡ (ok a, w'))
  round deadline next w h =
      let (_, (w₁, e₁, h₁)) =
        continue-eq-ok (λ _. check_deadline env deadline >> next) (poll env w) h in
      let (_, (w₂, e₂, h₂)) = continue-eq-ok (λ _. next) (check_deadline env deadline w₁) h₁ in
      (w₂, Same-trans (poll-Same w w₁ e₁) (check_deadline-Same deadline w₁ w₂ e₂), h₂)

  after_select-Same :
      (retry : Client (Unit {0})) (r : SelectResult) (w w' : World)
      → (after_select env retry r) w ≡ (ok tt, w')
      → (retry w ≡ (ok tt, w') → Same w w')
      → Same w w'
  after_select-Same retry nothing w w' h k = k h
  after_select-Same retry ready w w' h k =
      rw (← world_eq h) (record { written_eq = refl; inbound_eq = refl })
  after_select-Same retry ready_timeout w w' h k = absurd (err≢ok (ap (λ p. p.0) h))
  after_select-Same retry ready_error w w' h k = absurd (err≢ok (ap (λ p. p.0) h))

  wait_connected-Same :
      (fuel deadline : ℕ) (w w' : World)
      → wait_connected env fuel deadline w ≡ (ok tt, w')
      → Same w w'
  unfolding wait_connected
  wait_connected-Same zero deadline w w' h = absurd (err≢ok (ap (λ p. p.0) h))
  wait_connected-Same (suc fuel) deadline w w' h =
      let (v, same, h₁) = round deadline _ w h in
      let u = observe env (observe env v) in
      Same-trans same (
        Same-trans (Same-trans (Same-observe v) (Same-observe (observe env v))) (
          after_select-Same (wait_connected env fuel deadline) (env.select (observe env v).observed)
            u w' h₁ (wait_connected-Same fuel deadline u w')))

  after_connect-Same :
      (fuel deadline : ℕ) (r : ConnectResult) (w w' : World)
      → (after_connect env (connect env fuel deadline) (wait_connected env fuel deadline) r) w
        ≡ (ok tt, w')
      → ((v : World) → connect env fuel deadline v ≡ (ok tt, w') → Same v w')
      → Same w w'
  after_connect-Same fuel deadline connected w w' h k =
      rw (← world_eq h) (record { written_eq = refl; inbound_eq = refl })
  after_connect-Same fuel deadline again w w' h k =
      Same-trans (Same-observe w) (k (observe env w) h)
  after_connect-Same fuel deadline in_progress w w' h k = wait_connected-Same fuel deadline w w' h
  after_connect-Same fuel deadline connect_timeout w w' h k = absurd (err≢ok (ap (λ p. p.0) h))
  after_connect-Same fuel deadline refused w w' h k = absurd (err≢ok (ap (λ p. p.0) h))

  pub connect-Same :
      (fuel deadline : ℕ) (w w' : World) → connect env fuel deadline w ≡ (ok tt, w') → Same w w'
  unfolding connect
  connect-Same zero deadline w w' h = absurd (err≢ok (ap (λ p. p.0) h))
  connect-Same (suc fuel) deadline w w' h =
      let (v, same, h₁) = round deadline _ w h in
      Same-trans same (
        Same-trans (Same-observe v) (
          after_connect-Same fuel deadline (env.connect v.observed) (observe env v) w' h₁
            (λ u. connect-Same fuel deadline u w')))

  after_send-Wrote :
      (fuel deadline : ℕ) (pending : Bytes) (r : SendResult) (w w' : World)
      → (after_send env deadline pending (send env fuel deadline) r) w ≡ (ok tt, w')
      → ((rest : Bytes) (v : World) → send env fuel deadline rest v ≡ (ok tt, w') → Wrote rest v w')
      → Wrote pending w w'
  after_send-Wrote fuel deadline pending (sent zero) w w' h k = absurd (err≢ok (ap (λ p. p.0) h))
  after_send-Wrote fuel deadline pending (sent (suc n)) w w' h k =
      let v : World = record w { written = w.written ++ take (suc n) pending } in
      let rest = k (drop (suc n) pending) v h in
      record {
        written_eq =
            rest.written_eq
            ∙ append_assoc w.written (take (suc n) pending) (drop (suc n) pending)
            ∙ ap (λ xs. w.written ++ xs) (take-drop (suc n) pending);
        inbound_eq = rest.inbound_eq;
      }
  after_send-Wrote fuel deadline pending send_timeout w w' h k =
      let (_, (v, e, h₁)) =
        continue-eq-ok (λ _. send env fuel deadline pending) (check_deadline env deadline w) h in
      Same-Wrote (check_deadline-Same deadline w v e) (k pending v h₁)
  after_send-Wrote fuel deadline pending send_error w w' h k = absurd (err≢ok (ap (λ p. p.0) h))

  pub send-Wrote :
      (fuel deadline : ℕ) (bytes : Bytes) (w w' : World)
      → send env fuel deadline bytes w ≡ (ok tt, w')
      → Wrote bytes w w'
  unfolding send
  send-Wrote fuel deadline [] w w' h =
      rw (← world_eq h) (record { written_eq = sym (append-nil w.written); inbound_eq = refl })
  send-Wrote zero deadline (x ∷ xs) w w' h = absurd (err≢ok (ap (λ p. p.0) h))
  send-Wrote (suc fuel) deadline (x ∷ xs) w w' h =
      let (v, same, h₁) = round deadline _ w h in
      Same-Wrote (Same-trans same (Same-observe v)) (
        after_send-Wrote fuel deadline (x ∷ xs) (env.send v.observed) (observe env v) w' h₁
          (λ rest u. send-Wrote fuel deadline rest u w'))
