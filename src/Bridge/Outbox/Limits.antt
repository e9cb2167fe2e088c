-- ===== src/Bridge/Outbox/Limits.antt =====
-- The limits on what the out-boxes hold.
use blender_design.Common.{
  ℕ, ◌+◌, ◌≤◌, ◌≡◌, refl, sym, ap, ◌∙◌, true, false, ◌||◌, List, [], ◌∷◌, ◌++◌, some, length, ltb,
  ◌==◌, arith, Bool-cases, Option-cases, inl, inr, none≢some, if-cases, some-injective, subst,
}
use blender_design.Protocol.Framing.{Bytes}
use blender_design.Bridge.Outbox.{
  max_outbox, max_total_outbox, Conn, find_conn, set_conn, total_outbox, accept_frame, send,
}

-- The bytes of the frames that an out-box holds.
abbrev pub held : List Bytes → ℕ
held [] = 0
held (f ∷ fs) = length f + held fs

-- The count of a connection is exact, and within its limit.
pub record Counted (conn : Conn) : Type 0 where
  pub bytes_eq : conn.outbox_bytes ≡ held conn.outbox
  pub within : conn.outbox_bytes ≤ max_outbox

abbrev pub AllCounted : List Conn → Type 0
AllCounted [] = Unit
AllCounted (c ∷ cs) = Counted c × AllCounted cs

pub record WithinLimits (conns : List Conn) : Type 0 where
  pub counted : AllCounted conns
  pub total : total_outbox conns ≤ max_total_outbox

held-append : (fs gs : List Bytes) → held (fs ++ gs) ≡ held fs + held gs
held-append [] gs = omega arith
held-append (f ∷ fs) gs = omega (arith, held-append fs gs)

eq_of_test : (a b : ℕ) → (a == b) ≡ true → a ≡ b
eq_of_test a b h = ground arith

pub find_conn-AllCounted :
    (k : ℕ) (conns : List Conn) {conn : Conn}
    → AllCounted conns
    → find_conn k conns ≡ some conn
    → Counted conn × (conn.id ≡ k)
unfolding find_conn
find_conn-AllCounted k [] a h = absurd (none≢some h)
find_conn-AllCounted k (c ∷ cs) {conn} a h =
    elim (if-cases (c.id == k) (some c) (find_conn k cs) (some conn) h) [
      | inl (t, s) ↦
          subst (λ x. Counted x × (x.id ≡ k)) (some-injective c conn s) (a.0, eq_of_test c.id k t)
      | inr (f, s) ↦ find_conn-AllCounted k cs a.1 s
    ]

set_conn-AllCounted :
    (conn : Conn) (conns : List Conn)
    → Counted conn
    → AllCounted conns
    → AllCounted (set_conn conn conns)
unfolding set_conn
set_conn-AllCounted conn [] c a = tt
set_conn-AllCounted conn (d ∷ ds) c a = elim (Bool-cases (d.id == conn.id)) [
  | inl t ↦ rw t (c, a.1)
  | inr f ↦ rw f (a.0, set_conn-AllCounted conn ds c a.1)
]

-- Only the found connection's count changes.
total-set_conn :
    (k : ℕ) (conns : List Conn) (old new : Conn)
    → find_conn k conns ≡ some old
    → new.id ≡ k
    → total_outbox (set_conn new conns) + old.outbox_bytes ≡ total_outbox conns + new.outbox_bytes
unfolding find_conn set_conn total_outbox
total-set_conn k [] old new h e = absurd (none≢some h)
total-set_conn k (c ∷ cs) old new h e =
    elim (if-cases (c.id == k) (some c) (find_conn k cs) (some old) h) [
      | inl (t, s) ↦
          let t' : (c.id == new.id) ≡ true = subst (λ x. (c.id == x) ≡ true) (sym e) t in
          let same : c.outbox_bytes ≡ old.outbox_bytes =
            ap (λ (x : Conn). x.outbox_bytes) (some-injective c old s) in
          rw t' (omega (arith, same))
      | inr (f, s) ↦
          let f' : (c.id == new.id) ≡ false = subst (λ x. (c.id == x) ≡ false) (sym e) f in
          rw f' (omega (arith, total-set_conn k cs old new s e))
    ]

-- A connection that is put in the place of one it does not outgrow, or that there is room for.
pub replace-WithinLimits :
    (k : ℕ) (conns : List Conn) (old new : Conn)
    → WithinLimits conns
    → find_conn k conns ≡ some old
    → new.id ≡ old.id
    → Counted new
    → total_outbox conns + new.outbox_bytes ≤ max_total_outbox + old.outbox_bytes
    → WithinLimits (set_conn new conns)
replace-WithinLimits k conns old new w found same c room =
    let (_, id_eq) = find_conn-AllCounted k conns w.counted found in
    let total = total-set_conn k conns old new found (same ∙ id_eq) in
    record {
      counted = set_conn-AllCounted new conns c w.counted;
      total = omega (arith, total, room);
    }

-- What `send` makes of the connection that it found.
record Accepted (conns : List Conn) (old new : Conn) : Type 0 where
  id_eq : new.id ≡ old.id
  counted : Counted new
  room : total_outbox conns + new.outbox_bytes ≤ max_total_outbox + old.outbox_bytes

accept_frame-Accepted :
    (conns : List Conn) (frame : Bytes) (conn : Conn)
    → Counted conn
    → total_outbox conns ≤ max_total_outbox
    → Accepted conns conn (accept_frame conns frame conn)
unfolding accept_frame
accept_frame-Accepted conns frame conn c total =
    let unchanged : Counted (record conn { closing = true }) = record {
      bytes_eq = c.bytes_eq;
      within = c.within;
    } in
    elim (Bool-cases conn.closing) [
      | inl e ↦ simp e (record { id_eq = refl; counted = c; room = omega (arith, total) })
      | inr e ↦
          elim (Bool-cases (
            ltb max_outbox (conn.outbox_bytes + length frame)
            || ltb max_total_outbox (total_outbox conns + length frame))) [
              | inl l ↦
                  simp (e, l)
                    (record { id_eq = refl; counted = unchanged; room = omega (arith, total) })
              | inr l ↦
                  let (a, b) =
                    fits (conn.outbox_bytes + length frame) (total_outbox conns + length frame) l in
                  simp (e, l)
                    (record {
                      id_eq = refl;
                      counted = record {
                        bytes_eq = omega (arith, c.bytes_eq, held-append conn.outbox (frame ∷ []));
                        within = a;
                      };
                      room = omega (arith, b);
                    })
            ]
    ]
  where
    fits :
        (m n : ℕ)
        → (ltb max_outbox m || ltb max_total_outbox n) ≡ false
        → (m ≤ max_outbox) × (n ≤ max_total_outbox)
    fits m n h = ground arith

pub send-WithinLimits :
    (conns : List Conn) (k : ℕ) (frame : Bytes)
    → WithinLimits conns
    → WithinLimits (send conns k frame)
unfolding send
send-WithinLimits conns k frame w = elim (Option-cases (find_conn k conns)) [
  | inl e ↦ rw (e, send) w
  | inr (conn, e) ↦
      let (c, _) = find_conn-AllCounted k conns w.counted e in
      let a = accept_frame-Accepted conns frame conn c w.total in
      rw (e, send)
        (replace-WithinLimits k conns conn (accept_frame conns frame conn) w e a.id_eq a.counted
          a.room)
]
