-- ===== src/Bridge/Outbox/Wire.antt =====
-- The bytes on the wire: whatever the socket does, and whenever frames are sent, what was written
-- and what is still to be written are together the frames that were accepted, in their order.
use blender_design.Common.{
  ℕ, zero, suc, ◌+◌, ◌≤◌, ◌<◌, ◌≡◌, refl, sym, ap, ◌∙◌, List, [], ◌∷◌, ◌++◌, append-nil,
  append_assoc, length, take, drop, ltb, length-append, length-drop, subst, ltb→lt, ok, drop-append,
  arith, Bool-cases, inl, inr,
}
use blender_design.Protocol.Framing.{Bytes, empty_buffer}
use blender_design.Protocol.Framing.RoundTrip.{encode_all, feed_all, concat, feed_all-encode_all}
use blender_design.Bridge.Outbox.{
  Conn, new_conn, sent, would_block, push_frame, flush_head, flush_first, flush_round,
}

abbrev pub joined : List Bytes → Bytes
joined [] = []
joined (f ∷ fs) = f ++ joined fs

joined-append : (fs gs : List Bytes) → joined (fs ++ gs) ≡ joined fs ++ joined gs
joined-append [] gs = refl
joined-append (f ∷ fs) gs =
    ap (λ xs. f ++ xs) (joined-append fs gs) ∙ sym (append_assoc f (joined fs) (joined gs))

-- The bytes that the socket has yet to take.
abbrev pub unsent : Conn → Bytes
unsent conn = drop conn.send_offset (joined conn.outbox)

-- The offset lies in the first frame.
abbrev pub InHead : ℕ → List Bytes → Type 0
InHead n [] = n ≡ 0
InHead n (f ∷ fs) = n ≤ length f

take-drop : (n : ℕ) (xs : Bytes) → take n xs ++ drop n xs ≡ xs
take-drop zero xs = refl
take-drop (suc n) [] = refl
take-drop (suc n) (x ∷ xs) = ap (λ ys. x ∷ ys) (take-drop n xs)

zero_add : (n : ℕ) → 0 + n ≡ n
zero_add n = omega arith

suc_add : (m n : ℕ) → suc m + n ≡ suc (m + n)
suc_add m n = omega arith

drop-nil : (n : ℕ) → drop {A = ℕ} n [] ≡ []
drop-nil zero = refl
drop-nil (suc n) = refl

drop-drop : (m n : ℕ) (xs : Bytes) → drop (m + n) xs ≡ drop n (drop m xs)
drop-drop zero n xs = rw (zero_add n) refl
drop-drop (suc m) n [] = rw (suc_add m n, drop-nil n) refl
drop-drop (suc m) n (x ∷ xs) = rw (suc_add m n) (drop-drop m n xs)

-- What holds of a connection that took the frames `fs` and wrote `wire`.
pub record Faithful (conn : Conn) (fs : List Bytes) (wire : Bytes) : Type 0 where
  pub in_head : InHead conn.send_offset conn.outbox
  pub wire_eq : wire ++ unsent conn ≡ joined fs

InHead-append : (n : ℕ) (fs : List Bytes) (f : Bytes) → InHead n fs → InHead n (fs ++ f ∷ [])
InHead-append n [] f h = omega (arith, h)
InHead-append n (g ∷ fs) f h = h

drop-joined :
    (n : ℕ) (fs : List Bytes) (xs : Bytes)
    → InHead n fs
    → drop n (joined fs ++ xs) ≡ drop n (joined fs) ++ xs
drop-joined n [] xs h = rw h refl
drop-joined n (f ∷ fs) xs h =
    drop-append n (f ++ joined fs) xs (omega (arith, h, length-append f (joined fs)))

joined_snoc : (fs : List Bytes) (f : Bytes) → joined (fs ++ f ∷ []) ≡ joined fs ++ f
joined_snoc fs f = joined-append fs (f ∷ []) ∙ ap (λ xs. joined fs ++ xs) (append-nil f)

push_frame-Faithful :
    (conn : Conn) (fs : List Bytes) (wire frame : Bytes)
    → Faithful conn fs wire
    → Faithful (push_frame frame conn) (fs ++ frame ∷ []) wire
push_frame-Faithful conn fs wire frame h = record {
  in_head = InHead-append conn.send_offset conn.outbox frame h.in_head;
  wire_eq =
      ap (λ xs. wire ++ drop conn.send_offset xs) (joined_snoc conn.outbox frame)
      ∙ ap (λ xs. wire ++ xs) (drop-joined conn.send_offset conn.outbox frame h.in_head)
      ∙ sym (append_assoc wire (unsent conn) frame)
      ∙ ap (λ xs. xs ++ frame) h.wire_eq
      ∙ sym (joined_snoc fs frame);
}

-- A write of `n` bytes of the first frame, `head`, from the offset on: a part of them, or all.
module _ (off n : ℕ) (head more wire : Bytes) (inside : off ≤ length head) where
  partial_write :
      n < length (drop off head)
      → (wire ++ take n (drop off head)) ++ drop (off + n) (head ++ more)
        ≡ wire ++ drop off (head ++ more)
  partial_write few =
      let view = drop off head in
      append_assoc wire (take n view) (drop (off + n) (head ++ more))
      ∙ ap (λ xs. wire ++ xs)
          (ap (λ xs. take n view ++ xs)
              (drop-drop off n (head ++ more)
                ∙ ap (drop n) (drop-append off head more inside)
                ∙ drop-append n view more (omega (arith, few)))
            ∙ sym (append_assoc (take n view) (drop n view) more)
            ∙ ap (λ xs. xs ++ more) (take-drop n view)
            ∙ sym (drop-append off head more inside))

  whole_write : (wire ++ drop off head) ++ more ≡ wire ++ drop off (head ++ more)
  whole_write =
      append_assoc wire (drop off head) more
      ∙ ap (λ xs. wire ++ xs) (sym (drop-append off head more inside))

InHead-zero : (fs : List Bytes) → InHead 0 fs
InHead-zero [] = refl
InHead-zero (f ∷ fs) = omega arith

flush_head-Faithful :
    (head : Bytes) (rest : List Bytes) (conn : Conn) (n : ℕ) (fs : List Bytes) (wire : Bytes)
    → conn.outbox ≡ head ∷ rest
    → Faithful conn fs wire
    → Faithful
        (flush_head head rest conn (sent n)).conn
        fs
        (wire ++ (flush_head head rest conn (sent n)).written)
unfolding flush_head
flush_head-Faithful head rest conn n fs wire e h =
    let off = conn.send_offset in
    let inside : off ≤ length head = subst (InHead off) e h.in_head in
    let all : wire ++ drop off (head ++ joined rest) ≡ joined fs =
      subst (λ o. wire ++ drop off (joined o) ≡ joined fs) e h.wire_eq in
    elim (Bool-cases (ltb n (length (drop off head)))) [
      | inl c ↦
          let few : n < length (drop off head) = ltb→lt n (length (drop off head)) c in
          rw c (record {
            in_head = subst (InHead (off + n)) (sym e) (omega (arith, few, length-drop off head));
            wire_eq =
                subst
                  (λ o. (wire ++ take n (drop off head)) ++ drop (off + n) (joined o) ≡ joined fs)
                  (sym e) (partial_write off n head (joined rest) wire inside few ∙ all);
          })
      | inr c ↦ rw c (record {
        in_head = InHead-zero rest;
        wire_eq = whole_write off n head (joined rest) wire inside ∙ all;
      })
    ]

-- What may happen to a connection while its socket works: a frame is accepted, and a round of
-- `_flush` writes some bytes or finds the socket full. `fs` are the frames, `wire` the bytes.
pub data Traffic : Conn → List Bytes → Bytes → Type 0 where
  opened : (k : ℕ) → Traffic (new_conn k) [] []
  accepted :
      {conn : Conn} {fs : List Bytes} {wire : Bytes} (frame : Bytes)
      → Traffic conn fs wire
      → Traffic (push_frame frame conn) (fs ++ frame ∷ []) wire
  wrote :
      {conn : Conn} {fs : List Bytes} {wire : Bytes} (n : ℕ)
      → Traffic conn fs wire
      → Traffic (flush_round conn (sent n)).conn fs (wire ++ (flush_round conn (sent n)).written)
  blocked :
      {conn : Conn} {fs : List Bytes} {wire : Bytes}
      → Traffic conn fs wire
      → Traffic
          (flush_round conn would_block).conn
          fs
          (wire ++ (flush_round conn would_block).written)

nothing_written :
    (conn : Conn) (fs : List Bytes) (wire : Bytes)
    → Faithful conn fs wire
    → Faithful conn fs (wire ++ [])
nothing_written conn fs wire h = rw (append-nil wire) h

wrote-Faithful :
    (n : ℕ) (conn : Conn) (fs : List Bytes) (wire : Bytes) (outbox : List Bytes)
    → conn.outbox ≡ outbox
    → Faithful conn fs wire
    → Faithful
        (flush_first outbox conn (sent n)).conn
        fs
        (wire ++ (flush_first outbox conn (sent n)).written)
unfolding flush_first
wrote-Faithful n conn fs wire [] e h = nothing_written conn fs wire h
wrote-Faithful n conn fs wire (head ∷ rest) e h = flush_head-Faithful head rest conn n fs wire e h

blocked-Faithful :
    (conn : Conn) (fs : List Bytes) (wire : Bytes) (outbox : List Bytes)
    → Faithful conn fs wire
    → Faithful
        (flush_first outbox conn would_block).conn
        fs
        (wire ++ (flush_first outbox conn would_block).written)
unfolding flush_first flush_head
blocked-Faithful conn fs wire [] h = nothing_written conn fs wire h
blocked-Faithful conn fs wire (head ∷ rest) h = nothing_written conn fs wire h

-- While a connection lives, the bytes that its socket has taken, followed by those that it has yet
-- to take, are the accepted frames, each once and in their order, however `send` cuts them and
-- whenever frames come in between.
pub Traffic-Faithful :
    {conn : Conn} {fs : List Bytes} {wire : Bytes} → Traffic conn fs wire → Faithful conn fs wire
unfolding flush_round
Traffic-Faithful (opened k) = record { in_head = refl; wire_eq = refl }
Traffic-Faithful (accepted {conn} {fs} {wire} frame t) =
    push_frame-Faithful conn fs wire frame (Traffic-Faithful t)
Traffic-Faithful (wrote {conn} {fs} {wire} n t) =
    wrote-Faithful n conn fs wire conn.outbox refl (Traffic-Faithful t)
Traffic-Faithful (blocked {conn} {fs} {wire} t) =
    blocked-Faithful conn fs wire conn.outbox (Traffic-Faithful t)

-- Once the out-box of a living connection is empty, a receiver that starts with an empty buffer
-- has been handed exactly the payloads whose frames were accepted, in their order, however the wire
-- cut the bytes into pieces.
pub Traffic-feed_all :
    {conn : Conn} {fs : List Bytes} {wire : Bytes} (ps pieces : List Bytes)
    → Traffic conn fs wire
    → unsent conn ≡ []
    → encode_all ps ≡ ok (joined fs)
    → concat pieces ≡ wire
    → (feed_all empty_buffer pieces).0 ≡ ok ps
Traffic-feed_all {conn} {fs} {wire} ps pieces traffic done encoded cut =
    let all = ap (λ xs. wire ++ xs) (sym done) ∙ (Traffic-Faithful traffic).wire_eq in
    feed_all-encode_all ps pieces encoded (cut ∙ sym (append-nil wire) ∙ all)
