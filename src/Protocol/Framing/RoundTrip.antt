-- ===== src/Protocol/Framing/RoundTrip.antt =====
-- Encoding frames and feeding the bytes back, however the stream is cut.
use blender_design.Common.{
  ℕ, zero, suc, ◌+◌, ◌≤◌, ◌<◌, ◌≡◌, refl, sym, subst, append_assoc, ap, ◌∙◌, List, [], ◌∷◌, ◌++◌,
  Result, ok, err, length, drop, arith, length-append, take-length, drop-length, append-nil, ◌>>=◌,
  >>=-eq-ok,
}
use blender_design.Protocol.Framing.{
  Bytes, FrameError, max_frame, pack_header, unpack_header, encode_frame, frame_too_large,
  FrameBuffer, empty_buffer, Frames, prepend, prepend_frames, split_frames, feed,
}
use blender_design.Protocol.Framing.Chunks.{feed_after, feed-append, split_frames-round}

unpack-pack :
    (n : ℕ) (payload : Bytes) → n ≤ max_frame → unpack_header (pack_header n ++ payload) ≡ n
unfolding unpack_header pack_header
unpack-pack n payload h = omega arith

length-header : (n : ℕ) (rest : Bytes) → length (pack_header n ++ rest) ≡ 4 + length rest
unfolding pack_header
length-header n rest = omega arith

drop_header : (n k : ℕ) (rest : Bytes) → drop (4 + k) (pack_header n ++ rest) ≡ drop k rest
unfolding pack_header
drop_header n k rest = let e : 4 + k ≡ suc (suc (suc (suc k))) = omega arith in rw e

-- Several frames on the wire, as the sender writes them.
unfoldable pub encode_all : List Bytes → Result FrameError Bytes
encode_all [] = ok []
encode_all (p ∷ ps) = do frame ← encode_frame p; rest ← encode_all ps; ok (frame ++ rest)

abbrev pub and_then :
    (FrameBuffer → Frames × FrameBuffer) → Frames × FrameBuffer → Frames × FrameBuffer
and_then k (ok fs, b) = (prepend_frames fs (k b).0, (k b).1)
and_then k (err e, b) = (err e, b)

-- The receiver: one call of `feed` for each piece that the socket returns, until one raises.
unfoldable pub feed_all : FrameBuffer → List Bytes → Frames × FrameBuffer
feed_all b [] = (ok [], b)
feed_all b (x ∷ xs) = and_then (λ c. feed_all c xs) (feed b x)

unfoldable pub concat : List Bytes → Bytes
concat [] = []
concat (x ∷ xs) = x ++ concat xs

split_frames-frame :
    (f : ℕ) (p rest : Bytes)
    → length p ≤ max_frame
    → length (pack_header (length p) ++ (p ++ rest)) ≤ f
    → split_frames f (pack_header (length p) ++ (p ++ rest))
      ≡ prepend (p ∷ []) (split_frames f rest)
split_frames-frame f p rest h l =
    let buf = pack_header (length p) ++ (p ++ rest) in
    let e = unpack-pack (length p) (p ++ rest) h in
    let size = length-header (length p) (p ++ rest) in
    let sum = length-append p rest in
    split_frames-round f buf (rw e (omega arith)) (rw e h) l
    ∙ rw (
      e,
      drop_header (length p) (length p) (p ++ rest),
      drop-length,
      drop_header (length p) 0 (p ++ rest),
      take-length,
    )

encode_frame-eq-ok :
    (p frame : Bytes)
    → encode_frame p ≡ ok frame
    → (length p ≤ max_frame) × (frame ≡ pack_header (length p) ++ p)
unfolding encode_frame
encode_frame-eq-ok p frame h = ground arith

wire-eq :
    (p : Bytes) (ps : List Bytes) (wire : Bytes)
    → encode_all (p ∷ ps) ≡ ok wire
    → (rest : Bytes) × (encode_all ps ≡ ok rest)
      × (length p ≤ max_frame)
      × (wire ≡ pack_header (length p) ++ (p ++ rest))
unfolding encode_all
wire-eq p ps wire h =
    let (frame, e, h') =
      >>=-eq-ok (encode_frame p) (λ frame. encode_all ps >>= λ rest. ok (frame ++ rest)) h in
    let (rest, e', h'') = >>=-eq-ok (encode_all ps) (λ rest. ok (frame ++ rest)) h' in
    let (le, q) = encode_frame-eq-ok p frame e in
    let joined : frame ++ rest ≡ wire = cc h'' in
    (rest, e', le, sym joined ∙ rw q (append_assoc (pack_header (length p)) p rest))

split_frames-encode_all :
    (f : ℕ) (ps : List Bytes) {wire : Bytes}
    → encode_all ps ≡ ok wire
    → length wire ≤ f
    → split_frames f wire ≡ (ok ps, [])
unfolding encode_all split_frames
split_frames-encode_all zero [] {wire} h l = let e : [] ≡ wire = cc h in rw (← e)
split_frames-encode_all (suc f) [] {wire} h l = let e : [] ≡ wire = cc h in rw (← e)
split_frames-encode_all f (p ∷ ps) {wire} h l =
    let (rest, e, le, q) = wire-eq p ps wire h in
    let sizes = length-header (length p) (p ++ rest) in
    let sum = length-append p rest in
    let l' : length (pack_header (length p) ++ (p ++ rest)) ≤ f = rw q at l in
    rw (q, split_frames-frame f p rest le l', split_frames-encode_all f ps e (omega arith))

-- A buffer that holds no complete frame, as every call of `feed` that returns leaves it.
abbrev IsSettled : FrameBuffer → Type 0
IsSettled b = feed b [] ≡ (ok [], b)

abbrev Settles : Frames × FrameBuffer → Type 0
Settles (ok fs, b) = IsSettled b
Settles (err e, b) = Unit

append_self : (fs gs : List Bytes) → fs ≡ fs ++ gs → gs ≡ []
append_self fs [] h = refl
append_self fs (g ∷ gs) h = absurd (omega (arith, ap length h, length-append fs (g ∷ gs)))

settled_of_fixed : (r : Frames × FrameBuffer) → r ≡ feed_after [] r → Settles r
settled_of_fixed (ok fs, b) h = go (feed b []) (ap (λ r. r.0) h) (ap (λ r. r.1) h)
  where
    go : (r : Frames × FrameBuffer) → ok fs ≡ prepend_frames fs r.0 → b ≡ r.1 → r ≡ (ok [], b)
    go (ok gs, b') p q = let e = append_self fs gs (cc p) in cc
    go (err e, b') p q = cc
settled_of_fixed (err e, b) h = tt

feed-Settles : (b : FrameBuffer) (xs : Bytes) → Settles (feed b xs)
feed-Settles b xs =
    settled_of_fixed (feed b xs)
      (subst (λ l. feed b l ≡ feed_after [] (feed b xs)) (append-nil xs) (feed-append b xs []))

feed_all-frames :
    (b : FrameBuffer) (pieces : List Bytes)
    → IsSettled b
    → (feed_all b pieces).0 ≡ (feed b (concat pieces)).0
unfolding feed_all concat
feed_all-frames b [] h = rw h
feed_all-frames b (x ∷ xs) h =
    rw (feed-append b x (concat xs)) (go (feed b x) (feed-Settles b x) (λ c. feed_all-frames c xs))
  where
    go :
        (r : Frames × FrameBuffer)
        → Settles r
        → ((c : FrameBuffer) → IsSettled c → (feed_all c xs).0 ≡ (feed c (concat xs)).0)
        → (and_then (λ c. feed_all c xs) r).0 ≡ (feed_after (concat xs) r).0
    go (ok fs, c) k ih = ap (prepend_frames fs) (ih c k)
    go (err e, c) k ih = refl

-- However the bytes of the encoded payloads are cut into pieces, a receiver that starts with an
-- empty buffer is handed exactly those payloads, in order and without an error.
pub feed_all-encode_all :
    (ps pieces : List Bytes) {wire : Bytes}
    → encode_all ps ≡ ok wire
    → concat pieces ≡ wire
    → (feed_all empty_buffer pieces).0 ≡ ok ps
unfolding feed split_frames
feed_all-encode_all ps pieces {wire} h e =
    feed_all-frames empty_buffer pieces refl
    ∙ rw e (
        ap (λ (r : Frames × Bytes). r.0) (split_frames-encode_all (length wire) ps h (omega arith)))

-- A payload above the limit is refused by the sender, and a header that declares one is refused
-- by the receiver as soon as its four bytes are there, with none of the payload.
pub oversize_refused :
    (payload : Bytes) (size : ℕ)
    → max_frame < length payload
    → max_frame < size
    → size < 4294967296
    → (encode_frame payload ≡ err frame_too_large)
      × ((feed empty_buffer (pack_header size)).0 ≡ err frame_too_large)
unfolding encode_frame feed split_frames unpack_header pack_header
oversize_refused payload size h k l = (ground arith, ground arith)
