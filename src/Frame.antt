-- ===== src/Frame.antt =====
-- The frames of frame.go, their byte layout and the flags.
pub mod Wire
pub mod Reader
pub mod Writer
pub mod RoundTrip
pub mod FrameType
pub mod Flag
use copper.Prelude.{
  ℕ, ◌-◌, ◌*◌, ◌^◌, List, [], ◌∷◌, Bool, true, false, ◌==◌, if◌then◌else◌, bit_and,
}
use copper.Errors.{GoError}

abbrev pub max_stream_id : ℕ
max_stream_id = 2 ^ 31 - 1

abbrev pub min_window_size : ℕ
min_window_size = 1024

abbrev pub max_window_size : ℕ
max_window_size = 2 ^ 31 - 1

abbrev pub max_frame_payload_size : ℕ
max_frame_payload_size = 0xffffff

abbrev pub max_data_frame_payload_size : ℕ
max_data_frame_payload_size = max_frame_payload_size

abbrev pub max_reset_frame_message_size : ℕ
max_reset_frame_message_size = max_frame_payload_size - 4

abbrev pub max_settings_frame_payload_size : ℕ
max_settings_frame_payload_size = 6 * 1024

abbrev pub initial_stream_window : ℕ
initial_stream_window = 65536

-- `InitialInactivityTimeout`, in milliseconds.
abbrev pub initial_inactivity_milliseconds : ℕ
initial_inactivity_milliseconds = 60000

-- `type Setting struct`
pub record Setting : Type 0 where
  pub id : ℕ
  pub value : ℕ

abbrev pub setting_stream_window : ℕ
setting_stream_window = 1

abbrev pub setting_inactivity_milliseconds : ℕ
setting_inactivity_milliseconds = 2

-- `func (f FrameFlags) Has(v FrameFlags) bool`
abbrev pub has : ℕ → ℕ → Bool
has f v = bit_and f v == v

abbrev pub frame_header_size : ℕ
frame_header_size = 9

pub record FrameHeader : Type 0 where
  pub type : ℕ
  pub flags : ℕ
  pub length : ℕ
  pub stream_id : ℕ

-- The implementations of the interface `Frame`. Ping data is a list of 8 bytes.
pub data Frame : Type 0 where
  -- flags, data
  ping_frame : ℕ → List ℕ → Frame
  -- stream id, flags, data
  data_frame : ℕ → ℕ → List ℕ → Frame
  -- stream id, flags, error
  reset_frame : ℕ → ℕ → GoError → Frame
  -- stream id, flags, increment
  window_frame : ℕ → ℕ → ℕ → Frame
  -- flags, settings
  settings_frame : ℕ → List Setting → Frame
  -- type, flags, stream id, payload
  unknown_frame : ℕ → ℕ → ℕ → List ℕ → Frame

-- `SettingsFrame.Value`. The code returns the named result `ok`, which nothing sets, also where it
-- finds the setting.
unfoldable pub value : List Setting → ℕ → ℕ × Bool
value [] id = (0, false)
value (s ∷ rest) id = let later = value rest id in if s.id == id then (s.value, false) else later
