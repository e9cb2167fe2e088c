-- ===== src/Bridge/Outbox/Counts.antt =====
-- How many connections there are.
use blender_design.Common.{
  ℕ, ◌≤◌, ◌≡◌, refl, List, [], ◌∷◌, length, filter, Bool, true, false, arith, Option-cases, inl,
  inr,
}
use blender_design.Protocol.Framing.{Bytes}
use blender_design.Bridge.Outbox.{
  Conn, find_conn, set_conn, accept_frame, send, clear_conn, remove_conn, keep_cleared, drop_from,
}

length-remove_conn : (k : ℕ) (conns : List Conn) → length (remove_conn k conns) ≤ length conns
unfolding remove_conn filter
length-remove_conn k [] = omega arith
length-remove_conn k (c ∷ cs) = ground (arith, length-remove_conn k cs)

pub length-set_conn :
    (conn : Conn) (conns : List Conn) → length (set_conn conn conns) ≡ length conns
unfolding set_conn
length-set_conn conn [] = refl
length-set_conn conn (c ∷ cs) = ground (arith, length-set_conn conn cs)

pub length-send :
    (conns : List Conn) (k : ℕ) (frame : Bytes) → length (send conns k frame) ≤ length conns
unfolding send
length-send conns k frame = elim (Option-cases (find_conn k conns)) [
  | inl e ↦ ground arith
  | inr (conn, e) ↦ ground (arith, length-set_conn (accept_frame conns frame conn) conns)
]

length-keep_cleared : (k : ℕ) (conns : List Conn) → length (keep_cleared k conns) ≤ length conns
unfolding keep_cleared
length-keep_cleared k conns = elim (Option-cases (find_conn k conns)) [
  | inl e ↦ ground arith
  | inr (conn, e) ↦ ground (arith, length-set_conn (clear_conn conn) conns)
]

pub length-drop_from :
    (stays_open : Bool) (k : ℕ) (conns : List Conn)
    → length (drop_from stays_open k conns) ≤ length conns
length-drop_from true k conns = length-keep_cleared k conns
length-drop_from false k conns = length-remove_conn k conns
