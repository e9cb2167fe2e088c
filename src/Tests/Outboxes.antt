-- ===== src/Tests/Outboxes.antt =====
-- A connection that writes two frames in three pieces, and a full out-box.
use blender_design.Common.{◌≡◌, refl, List, [], ◌∷◌, ok, arith}
use blender_design.Protocol.Framing.{Bytes, empty_buffer, encode_frame, pack_header}
use blender_design.Protocol.Framing.RoundTrip.{encode_all, feed_all, concat}
use blender_design.Bridge.Outbox.{
  Conn, new_conn, total_outbox, send, flush_head, flush_first, flush_round,
}
use blender_design.Bridge.Outbox.Wire.{
  joined, unsent, Faithful, Traffic, opened, accepted, wrote, Traffic-Faithful, Traffic-feed_all,
}
use blender_design.Bridge.Outbox.Limits.{WithinLimits}
use blender_design.Bridge.Outbox.Changes.{sends, Change-WithinLimits}

abbrev frames : List Bytes
frames = (0 ∷ 0 ∷ 0 ∷ 1 ∷ 7 ∷ []) ∷ (0 ∷ 0 ∷ 0 ∷ 1 ∷ 8 ∷ []) ∷ []

abbrev wire : Bytes
wire = 0 ∷ 0 ∷ 0 ∷ 1 ∷ 7 ∷ 0 ∷ 0 ∷ 0 ∷ 1 ∷ 8 ∷ []

-- The second frame comes while the first is half written.
traffic : Traffic (new_conn 5) frames wire
unfolding flush_round flush_first flush_head
traffic = wrote 5 (
    wrote 2
      (accepted (0 ∷ 0 ∷ 0 ∷ 1 ∷ 8 ∷ []) (wrote 3 (accepted (0 ∷ 0 ∷ 0 ∷ 1 ∷ 7 ∷ []) (opened 5)))))

Traffic-Faithful_example : Faithful (new_conn 5) frames wire
Traffic-Faithful_example = Traffic-Faithful traffic

encoded : encode_all ((7 ∷ []) ∷ (8 ∷ []) ∷ []) ≡ ok (joined frames)
unfolding encode_all encode_frame pack_header
encoded = refl

abbrev pieces : List Bytes
pieces = (0 ∷ 0 ∷ []) ∷ (0 ∷ 1 ∷ 7 ∷ 0 ∷ 0 ∷ 0 ∷ 1 ∷ []) ∷ (8 ∷ []) ∷ []

cut : concat pieces ≡ wire
unfolding concat
cut = refl

nothing_left : unsent (new_conn 5) ≡ []
nothing_left = refl

Traffic-feed_all_example : (feed_all empty_buffer pieces).0 ≡ ok ((7 ∷ []) ∷ (8 ∷ []) ∷ [])
Traffic-feed_all_example =
    Traffic-feed_all ((7 ∷ []) ∷ (8 ∷ []) ∷ []) pieces traffic nothing_left encoded cut

abbrev full : Conn
full = record (new_conn 5) { outbox = (1 ∷ 2 ∷ []) ∷ []; outbox_bytes = 2 }

start : WithinLimits (full ∷ new_conn 6 ∷ [])
unfolding total_outbox
start = record {
  counted = (
    record { bytes_eq = refl; within = omega arith },
    (record { bytes_eq = refl; within = omega arith }, tt),
  );
  total = omega arith;
}

Change-WithinLimits_example : WithinLimits (send (full ∷ new_conn 6 ∷ []) 5 (3 ∷ []))
Change-WithinLimits_example = Change-WithinLimits (sends (full ∷ new_conn 6 ∷ []) 5 (3 ∷ [])) start
