-- ===== src/Bridge/Router.antt =====
-- bridge/core/router.py: from a method to the frame of its response, and the snapshot of
-- bridge/core/contracts.py.
pub mod Answers
use blender_design.Common.{
  ℕ, ◌+◌, Bool, true, false, List, [], ◌∷◌, Option, none, some, Result, if◌then◌else◌,
}
use blender_design.Protocol.Framing.{Bytes, FrameError}
use blender_design.Protocol.Json.{
  Text, text, text_eq, Json, null, bool, int, pos, float, str, arr, obj, Items, nil, cons, Fields,
  end, field, get_field,
}
use blender_design.Protocol.Envelope.{
  Request, JsonCodec, envelope_version, ok_frame, ok_frame_steps, error_frame,
}

pub record ManagedObject : Type 0 where
  pub stable_id : Text
  pub name : Text
  pub type : Text

-- `units_scale_length` is the literal of a float.
pub record SceneSnapshot : Type 0 where
  pub scene_revision : ℕ
  pub scene_hash : Text
  pub scene_name : Text
  pub scene_path : Option Text
  pub units_system : Text
  pub units_scale_length : Text
  pub object_count : ℕ
  pub mesh_count : ℕ
  pub camera_count : ℕ
  pub light_count : ℕ
  pub collections : List Text
  pub managed_objects : List ManagedObject

-- What the generator of `snapshot_steps` comes to.
pub data SnapshotResult : Type 0 where
  snapshot : SceneSnapshot → SnapshotResult
  limit_exceeded invalidated : SnapshotResult

-- SceneReader, the interface to Blender: the path and revision of the scene, and the yields and the
-- result of a snapshot with or without its collections and managed objects.
pub record SceneReader : Type 0 where
  pub status_info : Option Text × ℕ
  pub snapshot_steps : (include_collections include_managed_objects : Bool) → ℕ × SnapshotResult

pub record BridgeMeta : Type 0 where
  pub instance_id : Text
  pub pid : ℕ
  pub bridge_version : Text
  pub blender_version : Text

-- The bytes of a frame, or the exception that leaves the handler.
pub data Outcome : Type 0 where
  framed : Result FrameError Bytes → Outcome
  snapshot_invalidated : Outcome

-- `handle` returns a frame, or a generator: its yields before its result.
pub data Handled : Type 0 where
  at_once : Result FrameError Bytes → Handled
  in_steps : ℕ → Outcome → Handled

abbrev pub optional_text : Option Text → Json
optional_text none = null
optional_text (some t) = str t

abbrev pub texts : List Text → Items
texts [] = nil
texts (t ∷ ts) = cons (str t) (texts ts)

abbrev pub managed : List ManagedObject → Items
managed [] = nil
managed (m ∷ ms) =
    cons
      (obj (
        field (text "stable_id") (str m.stable_id)
          (field (text "name") (str m.name) (field (text "type") (str m.type) end))))
      (managed ms)

abbrev pub ping_fields : BridgeMeta → Fields
ping_fields meta = field (text "instance_id") (str meta.instance_id) (
    field (text "bridge_version") (str meta.bridge_version) (
      field (text "blender_version") (str meta.blender_version)
        (field (text "envelope_version") (int (pos envelope_version)) end)))

abbrev pub status_fields : BridgeMeta → Option Text × ℕ → Fields
status_fields meta (scene_path, scene_revision) =
    field (text "instance_id") (str meta.instance_id) (
      field (text "pid") (int (pos meta.pid)) (
        field (text "mode") (str (text "gui")) (
          field (text "blender_version") (str meta.blender_version) (
            field (text "scene_path") (optional_text scene_path)
              (field (text "scene_revision") (int (pos scene_revision)) end)))))

-- The counts and lists of a summary; a list that was not asked for is empty.
abbrev pub summary_fields : Bool → Bool → SceneSnapshot → Fields
summary_fields include_collections include_managed s =
    field (text "object_count") (int (pos s.object_count)) (
      field (text "mesh_count") (int (pos s.mesh_count)) (
        field (text "camera_count") (int (pos s.camera_count)) (
          field (text "light_count") (int (pos s.light_count)) (
            field (text "collections")
              (arr (if include_collections then texts s.collections else nil))
              (field (text "managed_objects")
                (arr (if include_managed then managed s.managed_objects else nil)) end)))))

abbrev pub scene_fields : Bool → Bool → SceneSnapshot → Fields
scene_fields include_collections include_managed s =
    field (text "scene_revision") (int (pos s.scene_revision)) (
      field (text "scene_hash") (str s.scene_hash) (
        field (text "scene_name") (str s.scene_name) (
          field (text "scene_path") (optional_text s.scene_path) (
            field (text "units")
              (obj (
                field (text "system") (str s.units_system)
                  (field (text "scale_length") (float s.units_scale_length) end)))
              (field (text "summary") (obj (summary_fields include_collections include_managed s))
                end)))))

-- `req.params.get(key, True)`, where it is a bool.
abbrev pub flag_of : Option Json → Option Bool
flag_of none = some true
flag_of (some (bool b)) = some b
flag_of (some _) = none

module _ (codec : JsonCodec) (reader : SceneReader) (meta : BridgeMeta) where
  abbrev pub after_snapshot : Text → Bool → Bool → ℕ × SnapshotResult → Handled
  after_snapshot request_id include_collections include_managed (yields, snapshot s) =
      let encoded =
        ok_frame_steps codec request_id
          (obj (scene_fields include_collections include_managed s)) in
      in_steps (yields + encoded.0) (framed encoded.1)
  after_snapshot request_id include_collections include_managed (yields, limit_exceeded) =
      in_steps yields (
        framed (
          error_frame codec request_id (text "INTERNAL_LIMIT_EXCEEDED")
            (text "scene snapshot exceeds resource limit") false))
  after_snapshot request_id include_collections include_managed (yields, invalidated) =
      in_steps yields snapshot_invalidated

  -- `_scene_summary`
  unfoldable pub scene_summary : Text → Bool → Bool → Handled
  unfolding ok_frame_steps error_frame
  scene_summary request_id include_collections include_managed =
      after_snapshot request_id include_collections include_managed
        (reader.snapshot_steps include_collections include_managed)

  abbrev pub with_flags : Text → Option Bool → Option Bool → Handled
  with_flags request_id (some include_collections) (some include_managed) =
      scene_summary request_id include_collections include_managed
  with_flags request_id _ _ = at_once (
      error_frame codec request_id (text "SCENE_QUERY_FAILED")
        (text "invalid scene_summary parameters") false)

  unfoldable pub handle : Request → Handled
  unfolding scene_summary ok_frame error_frame text_eq get_field
  handle req =
      if text_eq req.method (text "ping")
      then at_once (ok_frame codec req.id (obj (ping_fields meta)))
      else if text_eq req.method (text "status")
      then at_once (ok_frame codec req.id (obj (status_fields meta reader.status_info)))
      else if text_eq req.method (text "scene_summary")
      then with_flags req.id (flag_of (get_field (text "include_collections") req.params))
          (flag_of (get_field (text "include_managed_objects") req.params))
      else at_once (error_frame codec req.id (text "UNKNOWN_METHOD") req.method false)
