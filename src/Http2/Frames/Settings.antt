-- ===== src/Http2/Frames/Settings.antt =====
-- solvetls/http2/frames.py: `_parse_settings`.
pub mod Valid
use solvetls.Base.{
  ℕ, zero, suc, ◌/◌, ◌%◌, Bool, not, ◌&&◌, ◌||◌, List, [], ◌∷◌, ◌++◌, Option, none, some, ltb, leb,
  ◌==◌, if◌then◌else◌, true, false,
}
use solvetls.Exec.{Exec, pure, raise_if, ◌>>=◌, ◌>>◌}
use solvetls.Http2.Frames.Codes.{
  flow_control_error, enable_push, initial_window_size, max_frame_size_setting,
  default_max_frame_size, max_allowed_frame_size, max_stream_id, settings_entry_size, ack_flag,
}
use solvetls.Http2.Frames.Data.{FrameHeader, Settings, Payload, settings_payload, FrameError, plain}
use solvetls.Http2.Frames.Cursor.{
  Read, protocol_fault, size_fault, has_flag, reserve_entries, read_uint16, read_uint32,
}

-- settings[id] = value: a new key goes last, an old one keeps its place.
unfoldable pub dict_set : ℕ → ℕ → Settings → Settings
dict_set k v [] = (k, v) ∷ []
dict_set k v ((j, w) ∷ d) = if k == j then (j, v) ∷ d else (j, w) ∷ dict_set k v d

-- The three checks on one parameter.
unfoldable pub check_setting : ℕ → ℕ → Read (Unit {0})
check_setting setting_id setting_value = do
  raise_if (setting_id == enable_push && not (setting_value == 0 || setting_value == 1))
      (protocol_fault (plain "SETTINGS_ENABLE_PUSH must be 0 or 1"))
  raise_if (setting_id == initial_window_size && ltb max_stream_id setting_value) (record {
    message = plain "SETTINGS_INITIAL_WINDOW_SIZE exceeds maximum";
    code = flow_control_error;
  })
  raise_if
      (setting_id == max_frame_size_setting
        && not
            (leb default_max_frame_size setting_value && leb setting_value max_allowed_frame_size))
      (protocol_fault (plain "SETTINGS_MAX_FRAME_SIZE is outside the allowed range"))

-- The `for` loop, with the rounds that are left.
unfoldable pub read_settings : ℕ → Settings → List (ℕ × ℕ) → Read (Settings × List (ℕ × ℕ))
read_settings zero settings entries = pure (settings, entries)
read_settings (suc n) settings entries = do
  setting_id ← read_uint16
  setting_value ← read_uint32
  check_setting setting_id setting_value
  read_settings n (dict_set setting_id setting_value settings)
      (entries ++ (setting_id, setting_value) ∷ [])

unfoldable pub read_settings_payload : FrameHeader → Read Payload
read_settings_payload header = do
  raise_if (not (header.length % settings_entry_size == 0))
      (size_fault (plain "Invalid SETTINGS payload length"))
  reserve_entries (header.length / settings_entry_size)
  (settings, entries) ← read_settings (header.length / settings_entry_size) [] []
  pure (settings_payload (record { ack = false; settings = some settings; entries = entries }))

unfoldable pub acknowledge_settings : FrameHeader → Read Payload
acknowledge_settings header = do
  raise_if (not (header.length == 0)) (size_fault (plain "SETTINGS ACK must have empty payload"))
  pure (settings_payload (record { ack = true; settings = none; entries = [] }))

unfoldable pub parse_settings : FrameHeader → Read Payload
parse_settings header = do
  raise_if (not (header.stream_id == 0))
      (protocol_fault (plain "SETTINGS frame must have stream ID = 0"))
  if has_flag header.flags ack_flag
      then acknowledge_settings header
      else read_settings_payload header
