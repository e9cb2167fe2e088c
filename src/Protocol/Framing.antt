-- ===== src/Protocol/Framing.antt =====
-- protocol/framing.py: frames with a 4-byte big-endian length prefix.
pub mod Chunks
pub mod RoundTrip
use blender_design.Common.{
  ℕ, zero, suc, ◌+◌, ◌*◌, ◌/◌, ◌%◌, List, [], ◌∷◌, ◌++◌, Result, ok, err, length, take, drop, ltb,
  if◌then◌else◌,
}

-- A byte string: each element is a byte, a number below 256.
abbrev pub Bytes : Type 0
Bytes = List ℕ

pub data FrameError : Type 0 where
  frame_too_large : FrameError

abbrev pub max_frame : ℕ
max_frame = 16777216

abbrev pub header_size : ℕ
header_size = 4

-- struct.Struct(">I").pack
unfoldable pub pack_header : ℕ → Bytes
pack_header n = n / 16777216 % 256 ∷ n / 65536 % 256 ∷ n / 256 % 256 ∷ n % 256 ∷ []

-- struct.Struct(">I").unpack_from. The last clause is not reached: `feed` looks at the length first.
unfoldable pub unpack_header : Bytes → ℕ
unpack_header (a ∷ b ∷ c ∷ d ∷ _) = a * 16777216 + b * 65536 + c * 256 + d
unpack_header _ = 0

unfoldable pub encode_frame : Bytes → Result FrameError Bytes
encode_frame payload =
    if ltb max_frame (length payload)
    then err frame_too_large
    else ok (pack_header (length payload) ++ payload)

pub record FrameBuffer : Type 0 where
  pub buf : Bytes

abbrev pub empty_buffer : FrameBuffer
empty_buffer = record { buf = [] }

abbrev pub Frames : Type 0
Frames = Result FrameError (List Bytes)

abbrev pub prepend_frames : List Bytes → Frames → Frames
prepend_frames fs (ok gs) = ok (fs ++ gs)
prepend_frames fs (err e) = err e

abbrev pub prepend : List Bytes → Frames × Bytes → Frames × Bytes
prepend fs (frames, rest) = (prepend_frames fs frames, rest)

-- The `while` loop of `feed`, with what it leaves in the buffer; a raise leaves the bytes from the
-- offending header on. Each round removes four bytes or more, so a fuel of the buffer's length is
-- never used up.
unfoldable pub split_frames : ℕ → Bytes → Frames × Bytes
split_frames zero buf = (ok [], buf)
split_frames (suc fuel) buf =
    let size = unpack_header buf in
    let rest = split_frames fuel (drop (header_size + size) buf) in
    if ltb (length buf) header_size
    then (ok [], buf)
    else if ltb max_frame size
    then (err frame_too_large, buf)
    else if ltb (length buf) (header_size + size)
    then (ok [], buf)
    else prepend (take size (drop header_size buf) ∷ []) rest

unfoldable pub feed : FrameBuffer → Bytes → Frames × FrameBuffer
feed self bytes =
    let all = self.buf ++ bytes in
    let (frames, rest) = split_frames (length all) all in (frames, record { buf = rest })

unfoldable pub pending : FrameBuffer → ℕ
pending self = length self.buf
