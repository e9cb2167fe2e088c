-- ===== src/Protocol/Framing/Chunks.antt =====
-- Feeding a byte stream in pieces gives what feeding it whole gives.
use blender_design.Common.{
  ℕ, zero, suc, ◌+◌, ◌≤◌, ◌<◌, ◌≡◌, ◌⊎◌, refl, sym, inl, inr, dec_lt, ◌∙◌, ap, append_assoc, List,
  length-append, [], ◌∷◌, ◌++◌, ok, err, length, take, drop, arith, length-drop, take-append,
  drop-append,
}
use blender_design.Protocol.Framing.{
  Bytes, frame_too_large, max_frame, unpack_header, FrameBuffer, Frames, prepend, prepend_frames,
  split_frames, feed,
}

pub prepend-prepend :
    (fs gs : List Bytes) (r : Frames × Bytes) → prepend fs (prepend gs r) ≡ prepend (fs ++ gs) r
prepend-prepend fs gs (ok hs, rest) = ap (λ l. (ok l, rest)) (sym (append_assoc fs gs hs))
prepend-prepend fs gs (err e, rest) = refl

pub split_frames-fuel :
    (f g : ℕ) (buf : Bytes)
    → length buf ≤ f
    → length buf ≤ g
    → split_frames f buf ≡ split_frames g buf
unfolding split_frames
split_frames-fuel zero zero buf p q = refl
split_frames-fuel zero (suc g) buf p q = ground arith
split_frames-fuel (suc f) zero buf p q = ground arith
split_frames-fuel (suc f) (suc g) buf p q = ground (
  arith,
  length-drop (4 + unpack_header buf) buf,
  split_frames-fuel f g (drop (4 + unpack_header buf) buf),
)

-- What a complete round does to a longer buffer.
unpack_header-append :
    (buf more : Bytes) → 4 ≤ length buf → unpack_header (buf ++ more) ≡ unpack_header buf
unfolding unpack_header
unpack_header-append (a ∷ b ∷ c ∷ d ∷ rest) more h = refl
unpack_header-append (a ∷ b ∷ c ∷ []) more h = absurd (omega arith)
unpack_header-append (a ∷ b ∷ []) more h = absurd (omega arith)
unpack_header-append (a ∷ []) more h = absurd (omega arith)
unpack_header-append [] more h = absurd (omega arith)

-- The three outcomes of a round, as equations over a buffer.
split_frames-wait :
    (f : ℕ) (buf : Bytes)
    → length buf < 4 + unpack_header buf
    → (length buf < 4) ⊎ (unpack_header buf ≤ max_frame)
    → split_frames f buf ≡ (ok [], buf)
unfolding split_frames
split_frames-wait zero buf h k = refl
split_frames-wait (suc f) buf h k = ground arith

pub split_frames-round :
    (f : ℕ) (buf : Bytes)
    → 4 + unpack_header buf ≤ length buf
    → unpack_header buf ≤ max_frame
    → length buf ≤ f
    → split_frames f buf
      ≡ prepend
          (take (unpack_header buf) (drop 4 buf) ∷ [])
          (split_frames f (drop (4 + unpack_header buf) buf))
unfolding split_frames
split_frames-round zero buf h k l = absurd (omega arith)
split_frames-round (suc f) buf h k l = ground (
  arith,
  length-drop (4 + unpack_header buf) buf,
  split_frames-fuel f (suc f) (drop (4 + unpack_header buf) buf),
)

-- What is left to do when `more` arrives after a call that came out so.
abbrev pub resume : ℕ → Bytes → Frames × Bytes → Frames × Bytes
resume g more (ok fs, rest) = prepend fs (split_frames g (rest ++ more))
resume g more (err e, rest) = (err e, rest ++ more)

prepend-nil : (r : Frames × Bytes) → prepend [] r ≡ r
prepend-nil (ok gs, rest) = refl
prepend-nil (err e, rest) = refl

resume-prepend :
    (g : ℕ) (more : Bytes) (fs : List Bytes) (r : Frames × Bytes)
    → resume g more (prepend fs r) ≡ prepend fs (resume g more r)
resume-prepend g more fs (ok gs, rest) = sym (prepend-prepend fs gs (split_frames g (rest ++ more)))
resume-prepend g more fs (err e, rest) = refl

split_frames-reject :
    (f : ℕ) (buf : Bytes)
    → 4 ≤ length buf
    → max_frame < unpack_header buf
    → length buf ≤ f
    → split_frames f buf ≡ (err frame_too_large, buf)
unfolding split_frames
split_frames-reject zero buf h k l = absurd (omega arith)
split_frames-reject (suc f) buf h k l = ground arith

-- Which of the three a buffer takes.
data Round (buf : Bytes) : Type 0 where
  short :
      length buf < 4 + unpack_header buf
      → (length buf < 4) ⊎ (unpack_header buf ≤ max_frame)
      → Round buf
  large : 4 ≤ length buf → max_frame < unpack_header buf → Round buf
  whole : 4 + unpack_header buf ≤ length buf → unpack_header buf ≤ max_frame → Round buf

round : (buf : Bytes) → Round buf
round buf = elim (dec_lt (length buf) 4) [
  | yes a ↦ short (omega arith) (inl a)
  | no a ↦ elim (dec_lt max_frame (unpack_header buf)) [
    | yes b ↦ large (omega arith) b
    | no b ↦ elim (dec_lt (length buf) (4 + unpack_header buf)) [
      | yes c ↦ short c (inr (omega arith))
      | no c ↦ whole (omega arith) (omega arith)
    ]
  ]
]

module _ (g : ℕ) (more : Bytes) where
  append-reject :
      (f : ℕ) (buf : Bytes)
      → 4 ≤ length buf
      → max_frame < unpack_header buf
      → length buf ≤ f
      → length (buf ++ more) ≤ g
      → split_frames g (buf ++ more) ≡ resume g more (split_frames f buf)
  append-reject f buf a b q r =
      let e = unpack_header-append buf more a in
      split_frames-reject g (buf ++ more) (omega (arith, length-append buf more)) (rw e b) r
      ∙ sym (ap (resume g more) (split_frames-reject f buf a b q))

  append-round :
      (f : ℕ) (buf : Bytes)
      → 4 + unpack_header buf ≤ length buf
      → unpack_header buf ≤ max_frame
      → length buf ≤ f
      → length (buf ++ more) ≤ g
      → split_frames g (drop (4 + unpack_header buf) buf ++ more)
        ≡ resume g more (split_frames f (drop (4 + unpack_header buf) buf))
      → split_frames g (buf ++ more) ≡ resume g more (split_frames f buf)
  append-round f buf a b q r ih =
      let e = unpack_header-append buf more (omega arith) in
      rw
        (
          split_frames-round f buf a b q,
          resume-prepend,
          ← ih,
          split_frames-round g (buf ++ more) (rw e (omega (arith, length-append buf more))) (rw e b)
              r,
          e,
        )
        (rw (
          drop-append 4 buf more (omega arith),
          take-append (unpack_header buf) (drop 4 buf) more (omega (arith, length-drop 4 buf)),
          drop-append (4 + unpack_header buf) buf more a,
        ))

  split_frames-append :
      (k f : ℕ) (buf : Bytes)
      → length buf ≤ k
      → length buf ≤ f
      → length (buf ++ more) ≤ g
      → split_frames g (buf ++ more) ≡ resume g more (split_frames f buf)
  split_frames-append zero f buf p q r =
      rw (split_frames-wait f buf (omega arith) (inl (omega arith)))
        (sym (prepend-nil (split_frames g (buf ++ more))))
  split_frames-append (suc k) f buf p q r = elim (round buf) [
    | short a b ↦
        rw (split_frames-wait f buf a b) (sym (prepend-nil (split_frames g (buf ++ more))))
    | large a b ↦ append-reject f buf a b q r
    | whole a b ↦ append-round f buf a b q r (
        split_frames-append k f (drop (4 + unpack_header buf) buf)
          (omega (arith, length-drop (4 + unpack_header buf) buf))
          (omega (arith, length-drop (4 + unpack_header buf) buf))
          (omega (
            arith,
            length-drop (4 + unpack_header buf) buf,
            length-append (drop (4 + unpack_header buf) buf) more,
            length-append buf more,
          )))
  ]

-- What a call of `feed` hands out, with the buffer it leaves, followed by a call on `more`.
abbrev pub feed_after : Bytes → Frames × FrameBuffer → Frames × FrameBuffer
feed_after more (ok fs, b) = (prepend_frames fs (feed b more).0, (feed b more).1)
feed_after more (err e, b) = (err e, record { buf = b.buf ++ more })

pub length-split_frames-le : (f : ℕ) (buf : Bytes) → length (split_frames f buf).1 ≤ length buf
unfolding split_frames
length-split_frames-le zero buf = omega arith
length-split_frames-le (suc f) buf = ground (
  arith,
  length-drop (4 + unpack_header buf) buf,
  length-split_frames-le f (drop (4 + unpack_header buf) buf),
)

abbrev store : Frames × Bytes → Frames × FrameBuffer
store (frames, rest) = (frames, record { buf = rest })

store-resume :
    (g : ℕ) (more : Bytes) (r : Frames × Bytes)
    → length (r.1 ++ more) ≤ g
    → store (resume g more r) ≡ feed_after more (store r)
unfolding feed
store-resume g more (ok fs, rest) h =
    rw (split_frames-fuel g (length (rest ++ more)) (rest ++ more) h (omega arith))
store-resume g more (err e, rest) h = refl

-- Feeding two pieces one after the other hands out the frames that feeding their concatenation
-- hands out, in the same order, and leaves the same bytes pending; where the first piece raises,
-- so does the concatenation, with the same error.
pub feed-append : (b : FrameBuffer) (xs ys : Bytes) → feed b (xs ++ ys) ≡ feed_after ys (feed b xs)
unfolding feed
feed-append b xs ys =
    let all = b.buf ++ xs in
    let le = length-split_frames-le (length all) all in
    rw (sym (append_assoc b.buf xs ys)) (
      ap store (
        split_frames-append (length (all ++ ys)) ys (length all) (length all) all (omega arith)
          (omega arith) (omega arith))
      ∙ store-resume (length (all ++ ys)) ys (split_frames (length all) all)
          (omega (arith, length-append all ys, length-append (split_frames (length all) all).1 ys)))
