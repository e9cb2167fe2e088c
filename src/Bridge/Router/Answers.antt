-- ===== src/Bridge/Router/Answers.antt =====
-- What the bridge promises to answer, and that the client is told exactly this: the router's
-- frame, cut on its way in any manner, reassembled, decoded and interpreted.
use blender_design.Common.{
  ℕ, ◌≡◌, refl, sym, ap, ◌∙◌, subst, Bool, true, false, List, [], ◌∷◌, append-nil, Option, none,
  some, some-injective, Result, ok, err, length, leb, Bool-cases, inl, inr, arith, if◌then◌else◌,
}
use blender_design.Protocol.Framing.{Bytes, max_frame, encode_frame, empty_buffer}
use blender_design.Protocol.Framing.RoundTrip.{encode_all, feed_all, concat, feed_all-encode_all}
use blender_design.Protocol.Json.{
  Text, text, text_eq, Text_discrete, Json, obj, Fields, end, get_field,
}
use blender_design.Protocol.Envelope.{
  Request, JsonCodec, join, ok_fields, error_fields, ok_body, error_body, ok_frame, ok_frame_steps,
  error_frame, decode_response,
}
use blender_design.Protocol.Envelope.Frames.{ok_frame_steps-fits, ok_frame_steps-overflows}
use blender_design.Server.Response.{Failure, bridge_error, response_result}
use blender_design.Server.Response.Laws.{response_result-written}
use blender_design.Bridge.Router.{
  SnapshotResult, snapshot, limit_exceeded, invalidated, SceneReader, BridgeMeta, framed,
  snapshot_invalidated, Handled, at_once, in_steps, ping_fields, status_fields, scene_fields,
  flag_of, after_snapshot, scene_summary, with_flags, handle,
}

-- The abstract answers: a result, or a failure that is not to be retried.
pub data Answer : Type 0 where
  result : Fields → Answer
  failure : (code message : Text) → Answer

-- What a summary is answered, none where the scene changed under the snapshot.
abbrev summary_answer : Bool → Bool → ℕ × SnapshotResult → Option Answer
summary_answer include_collections include_managed (n, snapshot s) =
    some (result (scene_fields include_collections include_managed s))
summary_answer include_collections include_managed (n, limit_exceeded) =
    some (failure (text "INTERNAL_LIMIT_EXCEEDED") (text "scene snapshot exceeds resource limit"))
summary_answer include_collections include_managed (n, invalidated) = none

abbrev flagged_answer : SceneReader → Option Bool → Option Bool → Option Answer
flagged_answer reader (some c) (some m) = summary_answer c m (reader.snapshot_steps c m)
flagged_answer reader _ _ =
    some (failure (text "SCENE_QUERY_FAILED") (text "invalid scene_summary parameters"))

-- The bridge's promise for each method.
unfoldable pub answer_of : SceneReader → BridgeMeta → Request → Option Answer
unfolding text_eq get_field
answer_of reader meta req =
    if text_eq req.method (text "ping")
    then some (result (ping_fields meta))
    else if text_eq req.method (text "status")
    then some (result (status_fields meta reader.status_info))
    else if text_eq req.method (text "scene_summary")
    then flagged_answer reader (flag_of (get_field (text "include_collections") req.params))
        (flag_of (get_field (text "include_managed_objects") req.params))
    else some (failure (text "UNKNOWN_METHOD") req.method)

-- What a caller gets for an answer.
abbrev pub told : Answer → Result Failure Fields
told (result fields) = ok fields
told (failure code message) = err (bridge_error code false)

-- The frame that a handler's result sends.
abbrev pub Sends : Handled → Bytes → Type 0
Sends (at_once r) frame = r ≡ ok frame
Sends (in_steps n (framed r)) frame = r ≡ ok frame
Sends (in_steps n snapshot_invalidated) frame = ⊥

module _ (codec : JsonCodec) where
  abbrev pub answer_body : Text → Answer → Json
  answer_body request_id (result fields) = ok_body codec request_id (obj fields)
  answer_body request_id (failure code message) = error_body codec request_id code message false

  -- A result that does not fit in a frame becomes a failure.
  unfoldable pub delivered : Text → Answer → Answer
  delivered request_id (result fields) =
      if leb (length (join (codec.pieces (ok_body codec request_id (obj fields))))) max_frame
      then result fields
      else failure (text "INTERNAL_LIMIT_EXCEEDED") (text "response exceeds 16777216 bytes")
  delivered request_id (failure code message) = failure code message

  -- The frame carries the body of the delivered answer.
  abbrev Carries : Text → Answer → Bytes → Type 0
  Carries request_id a frame =
      encode_frame (join (codec.pieces (answer_body request_id (delivered request_id a))))
      ≡ ok frame

  result-Carries :
      (request_id : Text) (fields : Fields) (frame : Bytes)
      → (ok_frame_steps codec request_id (obj fields)).1 ≡ ok frame
      → Carries request_id (result fields) frame
  unfolding delivered error_frame
  result-Carries request_id fields frame h =
      elim (Bool-cases
        (leb (length (join (codec.pieces (ok_body codec request_id (obj fields))))) max_frame)) [
          | inl e ↦ rw e (
              sym (ap (λ r. r.1) (ok_frame_steps-fits codec request_id (obj fields) (ground arith)))
              ∙ h)
          | inr e ↦
              rw e (sym (ok_frame_steps-overflows codec request_id (obj fields) (ground arith)) ∙ h)
        ]

  failure-Carries :
      (request_id code message : Text) (frame : Bytes)
      → error_frame codec request_id code message false ≡ ok frame
      → Carries request_id (failure code message) frame
  unfolding delivered error_frame
  failure-Carries request_id code message frame h = h

  abbrev Faithful : Text → Handled → Option Answer → Type 0
  Faithful request_id h a =
      (x : Answer) (frame : Bytes) → a ≡ some x → Sends h frame → Carries request_id x frame

  of_result :
      (request_id : Text) (fields : Fields)
      → Faithful request_id
          (at_once (ok_frame codec request_id (obj fields)))
          (some (result fields))
  unfolding ok_frame
  of_result request_id fields x frame e s =
      subst (λ a. Carries request_id a frame) (some-injective (result fields) x e)
        (result-Carries request_id fields frame s)

  of_failure :
      (request_id code message : Text)
      → Faithful request_id
          (at_once (error_frame codec request_id code message false))
          (some (failure code message))
  of_failure request_id code message x frame e s =
      subst (λ a. Carries request_id a frame) (some-injective (failure code message) x e)
        (failure-Carries request_id code message frame s)

  module _ (reader : SceneReader) (meta : BridgeMeta) where
    of_snapshot :
        (request_id : Text) (c m : Bool) (r : ℕ × SnapshotResult)
        → Faithful request_id
            (after_snapshot codec reader meta request_id c m r)
            (summary_answer c m r)
    of_snapshot request_id c m (n, snapshot s) x frame e h =
        subst (λ a. Carries request_id a frame) (some-injective (result (scene_fields c m s)) x e)
          (result-Carries request_id (scene_fields c m s) frame h)
    of_snapshot request_id c m (n, limit_exceeded) x frame e h =
        of_failure request_id (text "INTERNAL_LIMIT_EXCEEDED")
          (text "scene snapshot exceeds resource limit") x frame e h
    of_snapshot request_id c m (n, invalidated) x frame e h = absurd h

    of_flags :
        (request_id : Text) (c m : Option Bool)
        → Faithful request_id
            (with_flags codec reader meta request_id c m)
            (flagged_answer reader c m)
    unfolding scene_summary
    of_flags request_id (some c) (some m) = of_snapshot request_id c m (reader.snapshot_steps c m)
    of_flags request_id (some c) none =
        of_failure request_id (text "SCENE_QUERY_FAILED") (text "invalid scene_summary parameters")
    of_flags request_id none m =
        of_failure request_id (text "SCENE_QUERY_FAILED") (text "invalid scene_summary parameters")

    if_both :
        (request_id : Text) (b : Bool) (h k : Handled) (a c : Option Answer)
        → Faithful request_id h a
        → Faithful request_id k c
        → Faithful request_id (if b then h else k) (if b then a else c)
    if_both request_id true h k a c p q = p
    if_both request_id false h k a c p q = q

    handle-Faithful :
        (req : Request) → Faithful req.id (handle codec reader meta req) (answer_of reader meta req)
    unfolding handle answer_of
    handle-Faithful req =
        if_both req.id (text_eq req.method (text "ping")) _ _ _ _
          (of_result req.id (ping_fields meta))
          (if_both req.id (text_eq req.method (text "status")) _ _ _ _
            (of_result req.id (status_fields meta reader.status_info))
            (if_both req.id (text_eq req.method (text "scene_summary")) _ _ _ _
              (of_flags req.id (flag_of (get_field (text "include_collections") req.params))
                (flag_of (get_field (text "include_managed_objects") req.params)))
              (of_failure req.id (text "UNKNOWN_METHOD") req.method)))

  -- The pieces arrive as one payload, which is decoded to a response that tells this.
  abbrev pub Tells : Text → List Bytes → Result Failure Fields → Type 0
  Tells request_id pieces outcome =
      (payload : Bytes) × ((response : Fields) × ((feed_all empty_buffer pieces).0
          ≡ ok (payload ∷ []))
        × (decode_response codec payload ≡ ok response)
        × (response_result response request_id ≡ outcome))

  response_of : Text → Answer → Fields
  response_of request_id (result fields) = ok_fields codec request_id (obj fields)
  response_of request_id (failure code message) = error_fields codec request_id code message false

  answer-Tells :
      (request_id : Text) (a : Answer) (pieces : List Bytes) (payload : Bytes)
      → (feed_all empty_buffer pieces).0 ≡ ok (payload ∷ [])
      → codec.loads payload ≡ some (answer_body request_id a)
      → Tells request_id pieces (told a)
  unfolding decode_response get_field text_eq Text_discrete
  answer-Tells request_id (result fields) pieces payload f r = (
    payload,
    (
      ok_fields codec request_id (obj fields),
      f,
      rw (r, decode_response) refl,
      (response_result-written codec request_id fields [] [] false).0,
    ),
  )
  answer-Tells request_id (failure code message) pieces payload f r = (
    payload,
    (
      error_fields codec request_id code message false,
      f,
      rw (r, decode_response) refl,
      (response_result-written codec request_id end code message false).1,
    ),
  )

-- The wire refines the promise: where the bridge has an answer for a request and sends a frame, then
-- however the frame is cut on its way, the client reads one response, and is told this answer, or
-- that the result was too large for a frame; the JSON reader reads back what the writer wrote.
pub handle-Tells :
    (codec : JsonCodec) (reader : SceneReader) (meta : BridgeMeta) (req : Request) (a : Answer)
    (pieces : List Bytes) (frame : Bytes)
    → answer_of reader meta req ≡ some a
    → codec.loads (join (codec.pieces (answer_body codec req.id (delivered codec req.id a))))
      ≡ some (answer_body codec req.id (delivered codec req.id a))
    → Sends (handle codec reader meta req) frame
    → concat pieces ≡ frame
    → Tells codec req.id pieces (told (delivered codec req.id a))
unfolding encode_all
handle-Tells codec reader meta req a pieces frame e reads sends cut =
    let payload = join (codec.pieces (answer_body codec req.id (delivered codec req.id a))) in
    let carried = handle-Faithful codec reader meta req a frame e sends in
    answer-Tells codec req.id (delivered codec req.id a) pieces payload
      (feed_all-encode_all (payload ∷ []) pieces (rw carried (ap ok (append-nil frame))) cut) reads
