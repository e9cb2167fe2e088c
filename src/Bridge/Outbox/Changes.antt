-- ===== src/Bridge/Outbox/Changes.antt =====
-- Every change of the connections keeps the limits on what the out-boxes hold.
use blender_design.Common.{
  ℕ, ◌+◌, ◌≤◌, ◌≡◌, refl, ap, ◌∙◌, List, [], ◌∷◌, some, length, drop, ltb, ◌==◌, filter, arith,
  Bool, true, false, Bool-cases, Option-cases, inl, inr,
}
use blender_design.Protocol.Framing.{Bytes}
use blender_design.Bridge.Outbox.{
  Conn, new_conn, SendResult, sent, would_block, os_error, find_conn, set_conn, total_outbox, send,
  clear_conn, remove_conn, keep_cleared, drop_from, flush_head, flush_first, flush_round,
}
use blender_design.Bridge.Outbox.Limits.{
  held, Counted, AllCounted, WithinLimits, find_conn-AllCounted, replace-WithinLimits,
  send-WithinLimits,
}

-- A round of `_flush` keeps the count exact, and lets it only fall.
pub record Smaller (old new : Conn) : Type 0 where
  pub id_eq : new.id ≡ old.id
  pub counted : Counted new
  pub fewer : new.outbox_bytes ≤ old.outbox_bytes

flush_head-Smaller :
    (head : Bytes) (rest : List Bytes) (conn : Conn) (r : SendResult)
    → conn.outbox ≡ head ∷ rest
    → Counted conn
    → Smaller conn (flush_head head rest conn r).conn
unfolding flush_head clear_conn
flush_head-Smaller head rest conn would_block e c = record {
  id_eq = refl;
  counted = c;
  fewer = omega arith;
}
flush_head-Smaller head rest conn os_error e c = record {
  id_eq = refl;
  counted = record { bytes_eq = refl; within = omega arith };
  fewer = omega arith;
}
flush_head-Smaller head rest conn (sent n) e c =
    let size : conn.outbox_bytes ≡ length head + held rest = c.bytes_eq ∙ ap held e in
    elim (Bool-cases (ltb n (length (drop conn.send_offset head)))) [
      | inl l ↦ simp l (record {
        id_eq = refl;
        counted = record { bytes_eq = c.bytes_eq; within = c.within };
        fewer = omega arith;
      })
      | inr l ↦ simp l (record {
        id_eq = refl;
        counted = record { bytes_eq = omega (arith, size); within = omega (arith, c.within) };
        fewer = omega arith;
      })
    ]

pub flush_first-Smaller :
    (outbox : List Bytes) (conn : Conn) (r : SendResult)
    → conn.outbox ≡ outbox
    → Counted conn
    → Smaller conn (flush_first outbox conn r).conn
unfolding flush_first
flush_first-Smaller [] conn r e c = record { id_eq = refl; counted = c; fewer = omega arith }
flush_first-Smaller (head ∷ rest) conn r e c = flush_head-Smaller head rest conn r e c

remove_conn-AllCounted :
    (k : ℕ) (conns : List Conn) → AllCounted conns → AllCounted (remove_conn k conns)
unfolding remove_conn filter
remove_conn-AllCounted k [] a = tt
remove_conn-AllCounted k (c ∷ cs) a = elim (Bool-cases (c.id == k)) [
  | inl t ↦ rw t (remove_conn-AllCounted k cs a.1)
  | inr f ↦ rw f (a.0, remove_conn-AllCounted k cs a.1)
]

total-remove_conn :
    (k : ℕ) (conns : List Conn) → total_outbox (remove_conn k conns) ≤ total_outbox conns
unfolding remove_conn filter total_outbox
total-remove_conn k [] = omega arith
total-remove_conn k (c ∷ cs) = elim (Bool-cases (c.id == k)) [
  | inl t ↦ rw t (omega (arith, total-remove_conn k cs))
  | inr f ↦ rw f (omega (arith, total-remove_conn k cs))
]

keep_cleared-WithinLimits :
    (k : ℕ) (conns : List Conn) → WithinLimits conns → WithinLimits (keep_cleared k conns)
unfolding keep_cleared clear_conn
keep_cleared-WithinLimits k conns w = elim (Option-cases (find_conn k conns)) [
  | inl e ↦ rw (e, keep_cleared) w
  | inr (conn, e) ↦
      rw (e, keep_cleared)
        (replace-WithinLimits k conns conn (clear_conn conn) w e refl
          (record { bytes_eq = refl; within = omega arith }) (omega (arith, w.total)))
]

-- What the threads do to `_conns`: any thread sends, the I/O thread accepts, flushes and drops, and a socket
-- that is dropped closes or stays open.
pub data Change : List Conn → List Conn → Type 0 where
  opens : (conns : List Conn) (k : ℕ) → Change conns (new_conn k ∷ conns)
  sends : (conns : List Conn) (k : ℕ) (frame : Bytes) → Change conns (send conns k frame)
  flushes :
      (conns : List Conn) (k : ℕ) (conn : Conn) (r : SendResult)
      → find_conn k conns ≡ some conn
      → Change conns (set_conn (flush_round conn r).conn conns)
  drops :
      (conns : List Conn) (k : ℕ) (stays_open : Bool) → Change conns (drop_from stays_open k conns)

-- Whatever the threads do, the count of each connection is the length of the frames that its
-- out-box holds, no out-box holds more than its limit, and all together no more than theirs.
pub Change-WithinLimits :
    {before after : List Conn} → Change before after → WithinLimits before → WithinLimits after
unfolding flush_round total_outbox
Change-WithinLimits (opens conns k) w = record {
  counted = (record { bytes_eq = refl; within = omega arith }, w.counted);
  total = omega (arith, w.total);
}
Change-WithinLimits (sends conns k frame) w = send-WithinLimits conns k frame w
Change-WithinLimits (flushes conns k conn r e) w =
    let s =
      flush_first-Smaller conn.outbox conn r refl (find_conn-AllCounted k conns w.counted e).0 in
    replace-WithinLimits k conns conn (flush_first conn.outbox conn r).conn w e s.id_eq s.counted
      (omega (arith, w.total, s.fewer))
Change-WithinLimits (drops conns k true) w = keep_cleared-WithinLimits k conns w
Change-WithinLimits (drops conns k false) w = record {
  counted = remove_conn-AllCounted k conns w.counted;
  total = omega (arith, w.total, total-remove_conn k conns);
}
