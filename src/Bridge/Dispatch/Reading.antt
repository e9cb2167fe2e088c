-- ===== src/Bridge/Dispatch/Reading.antt =====
-- What one `_read` of a connection keeps.
use blender_design.Common.{
  ℕ, Bool, ◌≡◌, refl, List, [], ◌∷◌, Option, some, Result, ok, err, >>=-eq-ok, length, ltb, arith,
  if◌then◌else◌, if-cases, inl, inr,
}
use blender_design.Protocol.Framing.{Bytes, FrameError, FrameBuffer, Frames, feed}
use blender_design.Protocol.Json.{Text}
use blender_design.Protocol.Envelope.{JsonCodec}
use blender_design.Bridge.Queue.{Task}
use blender_design.Bridge.Outbox.{Conn, find_conn, set_conn}
use blender_design.Bridge.Outbox.Limits.{find_conn-AllCounted, replace-WithinLimits}
use blender_design.Bridge.Outbox.Counts.{length-drop_from, length-set_conn}
use blender_design.Bridge.Outbox.Changes.{drops, Change-WithinLimits}
use blender_design.Bridge.Dispatch.{
  max_inbound_pending, Server, total_pending, drop_conn, dispatch, dispatch_all, read,
}
use blender_design.Bridge.Dispatch.Admission.{Dispatched, dispatch-Dispatched}

module _ {C : Type 0} (taken : Option (Task C)) where
  pub Dispatched-refl : (s : Server C) → Dispatched taken s s
  Dispatched-refl s = record { bounded = λ b. b; limited = λ w. w; fewer = omega arith }

  pub Dispatched-trans :
      {s t u : Server C} → Dispatched taken s t → Dispatched taken t u → Dispatched taken s u
  Dispatched-trans a b = record {
    bounded = λ x. b.bounded (a.bounded x);
    limited = λ x. b.limited (a.limited x);
    fewer = omega (arith, a.fewer, b.fewer);
  }

  pub drop_conn-Dispatched :
      (stays_open : Bool) (k : ℕ) (s : Server C) → Dispatched taken s (drop_conn stays_open k s)
  drop_conn-Dispatched stays_open k s = record {
    bounded = λ b. b;
    limited = Change-WithinLimits (drops s.conns k stays_open);
    fewer = length-drop_from stays_open k s.conns;
  }

  -- New bytes in the buffer of a connection.
  set_buf-Dispatched :
      (k : ℕ) (conn : Conn) (buf : FrameBuffer) (s : Server C)
      → find_conn k s.conns ≡ some conn
      → Dispatched taken s (record s { conns = set_conn (record conn { buf = buf }) s.conns })
  set_buf-Dispatched k conn buf s found = record {
    bounded = λ b. b;
    limited = λ w.
        let (c, _) = find_conn-AllCounted k s.conns w.counted found in
        replace-WithinLimits k s.conns conn (record conn { buf = buf }) w found refl
          (record { bytes_eq = c.bytes_eq; within = c.within }) (omega (arith, w.total));
    fewer = omega (arith, length-set_conn (record conn { buf = buf }) s.conns);
  }

  module _ (codec : JsonCodec) (token : Text) (stays_open : Bool) where
    dispatch_all-Dispatched :
        (k : ℕ) (clock : ℕ → ℕ) (payloads : List Bytes) (s : Server C) {s' : Server C}
        → dispatch_all codec token stays_open k clock payloads s ≡ ok s'
        → Dispatched taken s s'
    unfolding dispatch_all
    dispatch_all-Dispatched k clock [] s {s'} h =
        let same : s ≡ s' = cc h in rw (← same) (Dispatched-refl s)
    dispatch_all-Dispatched k clock (payload ∷ payloads) s {s'} h =
        let (r, e, h₁) =
          >>=-eq-ok (dispatch codec token stays_open k (clock (length payloads)) payload s)
            (λ r. if r.0 then dispatch_all codec token stays_open k clock payloads r.1 else ok r.1)
            h in
        let first =
          dispatch-Dispatched codec token stays_open k (clock (length payloads)) payload taken s r
            e in
        elim (if-cases r.0 (dispatch_all codec token stays_open k clock payloads r.1) (ok r.1)
          (ok s') h₁) [
            | inl (_, h₂) ↦ Dispatched-trans first (dispatch_all-Dispatched k clock payloads r.1 h₂)
            | inr (_, h₂) ↦ let same : r.1 ≡ s' = cc h₂ in rw (← same) first
          ]

    frames-Dispatched :
        (k : ℕ) (clock : ℕ → ℕ) (frames : Frames) (s : Server C) {s' : Server C}
        → (elim frames as (λ _. Result FrameError (Server C)) [
          | err _ ↦ ok (drop_conn stays_open k s)
          | ok payloads ↦
              if ltb max_inbound_pending (total_pending s.conns)
              then ok (drop_conn stays_open k s)
              else dispatch_all codec token stays_open k clock payloads s
        ])
          ≡ ok s'
        → Dispatched taken s s'
    frames-Dispatched k clock (err e) s {s'} h =
        let same : drop_conn stays_open k s ≡ s' = cc h in
        rw (← same) (drop_conn-Dispatched stays_open k s)
    frames-Dispatched k clock (ok payloads) s {s'} h =
        elim (if-cases (ltb max_inbound_pending (total_pending s.conns))
          (ok (drop_conn stays_open k s)) (dispatch_all codec token stays_open k clock payloads s)
          (ok s') h) [
            | inl (_, h₁) ↦
                let same : drop_conn stays_open k s ≡ s' = cc h₁ in
                rw (← same) (drop_conn-Dispatched stays_open k s)
            | inr (_, h₁) ↦ dispatch_all-Dispatched k clock payloads s h₁
          ]

    -- Whatever bytes a peer sends, and whether or not its socket closes where the read drops it, one
    -- read of its connection keeps the queue within its bounds, whatever task the main thread has in
    -- hand, and the out-boxes within their limits, and adds no connection.
    pub read-Dispatched :
        (k : ℕ) (clock : ℕ → ℕ) (bytes : Bytes) (conn : Conn) (s s' : Server C)
        → find_conn k s.conns ≡ some conn
        → read codec token stays_open k clock bytes conn s ≡ ok s'
        → Dispatched taken s s'
    unfolding read
    read-Dispatched k clock [] conn s s' found h =
        let same : drop_conn stays_open k s ≡ s' = cc h in
        rw (← same) (drop_conn-Dispatched stays_open k s)
    read-Dispatched k clock (x ∷ xs) conn s s' found h =
        let r = feed conn.buf (x ∷ xs) in
        Dispatched-trans (set_buf-Dispatched k conn r.1 s found) (
          frames-Dispatched k clock r.0
            (record s { conns = set_conn (record conn { buf = r.1 }) s.conns }) h)
