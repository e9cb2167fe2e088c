-- ===== src/Bridge/Loop/Kept.antt =====
-- What a round of the I/O thread keeps, whatever the peers do.
use blender_design.Common.{
  ℕ, ◌≤◌, ◌≡◌, refl, ◌∙◌, subst, Bool, true, false, not, ◌&&◌, List, [], ◌∷◌, Option, none, some,
  ok, >>=-eq-ok, length, leb, filter, if_either, if-cases, inl, inr, arith, if◌then◌else◌,
}
use blender_design.Protocol.Framing.{Bytes}
use blender_design.Protocol.Json.{Text}
use blender_design.Protocol.Envelope.{JsonCodec}
use blender_design.Bridge.Queue.{Task}
use blender_design.Bridge.Queue.Bounds.{IsBounded}
use blender_design.Bridge.Outbox.{Conn, SendResult, find_conn, flush_round}
use blender_design.Bridge.Outbox.Limits.{
  Counted, WithinLimits, find_conn-AllCounted, replace-WithinLimits,
}
use blender_design.Bridge.Outbox.Counts.{length-set_conn}
use blender_design.Bridge.Outbox.Changes.{opens, Change-WithinLimits, Smaller, flush_first-Smaller}
use blender_design.Bridge.Dispatch.{Server, drop_conn}
use blender_design.Bridge.Dispatch.Admission.{Dispatched}
use blender_design.Bridge.Dispatch.Reading.{
  Dispatched-refl, Dispatched-trans, drop_conn-Dispatched, read-Dispatched,
}
use blender_design.Bridge.Loop.{
  max_connections, Loop, Events, retrying, dropping, accepting, flushing, reading, Accepted,
  not_ready, accept_raises, accepted, refuse_peer, conn_ids, flush_rounds, drop_all, accept,
  flushed, flush_found, flush_ready, read_found, read_ready, serve, io_iterate,
}

Smaller-trans : {a b c : Conn} → Smaller a b → Smaller b c → Smaller a c
Smaller-trans s t = record {
  id_eq = t.id_eq ∙ s.id_eq;
  counted = t.counted;
  fewer = omega (arith, s.fewer, t.fewer);
}

flush_rounds-Smaller :
    (results : List SendResult) (conn : Conn)
    → Counted conn
    → Smaller conn (flush_rounds conn results).0
unfolding flush_rounds flush_round
flush_rounds-Smaller [] conn c = record { id_eq = refl; counted = c; fewer = omega arith }
flush_rounds-Smaller (result ∷ results) conn c =
    let s = flush_first-Smaller conn.outbox conn result refl c in
    if_either (λ (r : Conn × Bool). Smaller conn r.0) _ (flush_rounds _ results) _
      (λ _. Smaller-trans s (flush_rounds-Smaller results (flush_round conn result).conn s.counted))
      (λ _. s)

module _ {C : Type 0} (taken : Option (Task C)) where
  drop_all-Dispatched :
      (stays_open : ℕ → Bool) (ks : List ℕ) (s : Server C)
      → Dispatched taken s (drop_all stays_open ks s)
  unfolding drop_all
  drop_all-Dispatched stays_open [] s = Dispatched-refl taken s
  drop_all-Dispatched stays_open (k ∷ ks) s =
      Dispatched-trans taken (drop_conn-Dispatched taken (stays_open k) k s)
        (drop_all-Dispatched stays_open ks (drop_conn (stays_open k) k s))

  flushed-Dispatched :
      (stays_open : Bool) (k : ℕ) (conn : Conn) (r : Conn × Bool) (s : Server C)
      → find_conn k s.conns ≡ some conn
      → (Counted conn → Smaller conn r.0)
      → Dispatched taken s (flushed stays_open k r s)
  flushed-Dispatched stays_open k conn (new, true) s found smaller =
      drop_conn-Dispatched taken stays_open k s
  flushed-Dispatched stays_open k conn (new, false) s found smaller = record {
    bounded = λ b. b;
    limited = λ w.
        let t = smaller (find_conn-AllCounted k s.conns w.counted found).0 in
        replace-WithinLimits k s.conns conn new w found t.id_eq t.counted
          (omega (arith, w.total, t.fewer));
    fewer = omega (arith, length-set_conn new s.conns);
  }

  flush_found-Dispatched :
      (stays_open : Bool) (k : ℕ) (results : List SendResult) (o : Option Conn) (s : Server C)
      → find_conn k s.conns ≡ o
      → Dispatched taken s (flush_found stays_open k results o s)
  flush_found-Dispatched stays_open k results none s e = Dispatched-refl taken s
  flush_found-Dispatched stays_open k results (some conn) s e =
      flushed-Dispatched stays_open k conn (flush_rounds conn results) s e
        (flush_rounds-Smaller results conn)

  flush_ready-Dispatched :
      (events : Events) (ks : List ℕ) (s : Server C) → Dispatched taken s (flush_ready events ks s)
  unfolding flush_ready
  flush_ready-Dispatched events [] s = Dispatched-refl taken s
  flush_ready-Dispatched events (k ∷ ks) s =
      Dispatched-trans taken
        (if_either (Dispatched taken s) (events.writable k) _ s
          (λ _.
            flush_found-Dispatched (events.stays_open flushing k) k (events.sends k)
              (find_conn k s.conns) s refl)
          (λ _. Dispatched-refl taken s))
        (flush_ready-Dispatched events ks _)

  -- The queue stays within its bounds, the out-boxes within their limits, and the connections within
  -- their number.
  pub record Kept (l l' : Loop C) : Type 0 where
    pub bounded : IsBounded taken l.server.queue → IsBounded taken l'.server.queue
    pub limited : WithinLimits l.server.conns → WithinLimits l'.server.conns
    pub few : length l.server.conns ≤ max_connections → length l'.server.conns ≤ max_connections

  Kept-trans : {l m n : Loop C} → Kept l m → Kept m n → Kept l n
  Kept-trans a b = record {
    bounded = λ x. b.bounded (a.bounded x);
    limited = λ x. b.limited (a.limited x);
    few = λ x. b.few (a.few x);
  }

  Dispatched-Kept : (l l' : Loop C) → Dispatched taken l.server l'.server → Kept l l'
  Dispatched-Kept l l' d = record {
    bounded = d.bounded;
    limited = d.limited;
    few = λ h. omega (arith, h, d.fewer);
  }

  refuse_peer-Kept : (stays_open : Bool) (k : ℕ) (l : Loop C) → Kept l (refuse_peer stays_open k l)
  refuse_peer-Kept true k l = Dispatched-Kept l _ (Dispatched-refl taken l.server)
  refuse_peer-Kept false k l = Dispatched-Kept l l (Dispatched-refl taken l.server)

  accept-Kept :
      (stays_open : ℕ → Bool) (listener : Accepted) (l : Loop C)
      → Kept l (accept stays_open listener l)
  accept-Kept stays_open not_ready l = Dispatched-Kept l l (Dispatched-refl taken l.server)
  accept-Kept stays_open accept_raises l = Dispatched-Kept l l (Dispatched-refl taken l.server)
  accept-Kept stays_open (accepted k true) l = refuse_peer-Kept (stays_open k) k l
  accept-Kept stays_open (accepted k false) l =
      if_either (Kept l) (leb max_connections (length l.server.conns)) _ _
        (λ _. refuse_peer-Kept (stays_open k) k l)
        (λ room. record {
          bounded = λ b. b;
          limited = Change-WithinLimits (opens l.server.conns k);
          few = λ h. ground arith;
        })

  module _ (codec : JsonCodec) (token : Text) (events : Events) where
    read_found-Dispatched :
        (k : ℕ) (bytes : Option Bytes) (o : Option Conn) (s : Server C) {s' : Server C}
        → find_conn k s.conns ≡ o
        → read_found codec token events k bytes o s ≡ ok s'
        → Dispatched taken s s'
    read_found-Dispatched k none o s {s'} e h =
        let same : s ≡ s' = cc h in rw (← same) (Dispatched-refl taken s)
    read_found-Dispatched k (some bytes) none s {s'} e h =
        let same : s ≡ s' = cc h in rw (← same) (Dispatched-refl taken s)
    read_found-Dispatched k (some bytes) (some conn) s {s'} e h =
        read-Dispatched taken codec token (events.stays_open reading k) k (events.clock k) bytes
          conn s s' e h

    read_ready-Dispatched :
        (ks : List ℕ) (s : Server C) {s' : Server C}
        → read_ready codec token events ks s ≡ ok s'
        → Dispatched taken s s'
    unfolding read_ready
    read_ready-Dispatched [] s {s'} h =
        let same : s ≡ s' = cc h in rw (← same) (Dispatched-refl taken s)
    read_ready-Dispatched (k ∷ ks) s {s'} h =
        let (r, e, h₁) =
          >>=-eq-ok
            (if events.readable k
              then read_found codec token events k (events.received k) (find_conn k s.conns) s
              else ok s)
            (read_ready codec token events ks) h in
        let first : Dispatched taken s r =
          elim (if-cases (events.readable k)
            (read_found codec token events k (events.received k) (find_conn k s.conns) s) (ok s)
            (ok r) e) [
              | inl (_, q) ↦
                  read_found-Dispatched k (events.received k) (find_conn k s.conns) s refl q
              | inr (_, q) ↦ let same : s ≡ r = cc q in rw (← same) (Dispatched-refl taken s)
            ] in
        Dispatched-trans taken first (read_ready-Dispatched ks r h₁)

    serve-Kept :
        (ks : List ℕ) (listener : Accepted) (l : Loop C) {out : Bool × Loop C}
        → serve codec token events ks listener l ≡ ok out
        → Kept l out.1
    unfolding serve
    serve-Kept ks listener l {out} h =
        let m = accept (events.stays_open accepting) listener l in
        let (s, e, h₁) =
          >>=-eq-ok (read_ready codec token events ks (flush_ready events ks m.server))
            (λ s. ok (false, record m { server = s })) h in
        let same : (false, record m { server = s }) ≡ out = cc h₁ in
        let served =
          Dispatched-trans taken (flush_ready-Dispatched events ks m.server)
            (read_ready-Dispatched ks (flush_ready events ks m.server) e) in
        Kept-trans (accept-Kept (events.stays_open accepting) listener l) (
          subst (λ (o : Bool × Loop C). Kept m o.1) same
            (Dispatched-Kept m (record m { server = s }) served))

    -- A round of the I/O thread that ends without an exception, whatever the peers send, whether
    -- `accept` and `setblocking` raise, and whether the sockets that it closes do close, keeps the queue within its bounds, whatever task the main thread has in hand, the
    -- out-boxes within their limits, and at most 64 connections.
    pub io_iterate-Kept :
        (l : Loop C) {out : Bool × Loop C} → io_iterate codec token events l ≡ ok out → Kept l out.1
    unfolding io_iterate
    io_iterate-Kept l {out} h =
        let pending = filter (events.stays_open retrying) l.pending_close in
        let closing = conn_ids (filter (λ (c : Conn). c.closing) l.server.conns) in
        let kept : Loop C = record l {
          server = drop_all (events.stays_open dropping) closing l.server;
          pending_close = pending;
        } in
        let conns = conn_ids (filter (λ (c : Conn). not c.closing) kept.server.conns) in
        let dropped =
          Dispatched-Kept l kept
            (drop_all-Dispatched (events.stays_open dropping) closing l.server) in
        elim (if-cases (events.woken && l.stopped) (ok (true, kept)) _ (ok out) h) [
          | inl (_, q) ↦
              let same : (true, kept) ≡ out = cc q in
              subst (λ (o : Bool × Loop C). Kept l o.1) same dropped
          | inr (_, q) ↦ Kept-trans dropped (serve-Kept conns _ kept q)
        ]
