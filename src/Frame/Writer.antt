-- ===== src/Frame/Writer.antt =====
-- `FrameWriter` of frame.go.
use copper.Prelude.{
  ℕ, ◌+◌, ◌*◌, List, [], ◌∷◌, ◌++◌, Option, none, some, ltb, if◌then◌else◌, length, take,
}
use copper.Errors.{
  GoError, error_code, copper_error, copper_error_value, timeout_error, eof, unexpected_eof,
  other_error,
}
use copper.Errors.Code
use copper.Frame.{
  Frame, ping_frame, data_frame, reset_frame, window_frame, settings_frame, unknown_frame, Setting,
  has, max_frame_payload_size, max_data_frame_payload_size, max_reset_frame_message_size,
  max_settings_frame_payload_size,
}
use copper.Frame.FrameType
use copper.Frame.Flag
use copper.Frame.Wire.{put_uint16, put_uint32, header_bytes}

-- A writer: the bytes written, and how the next calls of `Write` end. A call takes the first entry:
-- `none` (or no entry left) is success, `some (k, e)` is the error `e` behind `k` bytes.
pub record Writer : Type 0 where
  pub out : List ℕ
  pub outcomes : List (Option (ℕ × GoError))

-- A method of the writer: nil or an error, and the writer.
abbrev pub Write : Type 0
Write = Writer → Option GoError × Writer

-- `w.Write(data)` of the writer below.
write_with : List (Option (ℕ × GoError)) → List ℕ → List ℕ → Option GoError × Writer
write_with [] out bytes = (none, record { out = out ++ bytes; outcomes = [] })
write_with (none ∷ rest) out bytes = (none, record { out = out ++ bytes; outcomes = rest })
write_with (some (k, e) ∷ rest) out bytes =
    (some e, record { out = out ++ take k bytes; outcomes = rest })

unfoldable pub write : List ℕ → Write
unfolding write_with
write bytes w = write_with w.outcomes w.out bytes

abbrev pub next : Write → Option GoError × Writer → Option GoError × Writer
next k (none, w) = k w
next k (some x, w) = (some x, w)

-- `err := m; if err == nil { err = k }; return err`
infixl 5 ◌>>◌
abbrev pub ◌>>◌ : Write → Write → Write
◌>>◌ m k w = next k (m w)

abbrev pub done : Write
done w = (none, w)

abbrev pub fail : GoError → Write
fail e w = (some e, w)

unfoldable pub write_header : ℕ → ℕ → ℕ → ℕ → Write
write_header type flags size stream_id = write (header_bytes type flags size stream_id)

unfoldable pub write_ping : ℕ → List ℕ → Write
write_ping flags bytes = write_header FrameType.ping flags 8 0 >> write (take 8 bytes)

unfoldable pub write_data : ℕ → ℕ → List ℕ → Write
write_data stream_id flags bytes =
    if ltb max_data_frame_payload_size (length bytes)
    then fail (error_code Code.einvalidframe)
    else write_header FrameType.data_type flags (length bytes) stream_id
      >> (if ltb 0 (length bytes) then write bytes else done)

-- The text of errors.go and io: "i/o timeout", "EOF", "unexpected EOF".
abbrev pub timeout_message : List ℕ
timeout_message = 105 ∷ 47 ∷ 111 ∷ 32 ∷ 116 ∷ 105 ∷ 109 ∷ 101 ∷ 111 ∷ 117 ∷ 116 ∷ []

abbrev pub eof_message : List ℕ
eof_message = 69 ∷ 79 ∷ 70 ∷ []

abbrev pub unexpected_eof_message : List ℕ
unexpected_eof_message =
    117 ∷ 110 ∷ 101 ∷ 120 ∷ 112 ∷ 101 ∷ 99 ∷ 116 ∷ 101 ∷ 100 ∷ 32 ∷ 69 ∷ 79 ∷ 70 ∷ []

-- The type switch of `WriteReset`: the code and the message that are sent for an error. A
-- `copperError` value is no `Error`, so it falls to the default case.
unfoldable pub reset_error : GoError → ℕ × List ℕ
reset_error (error_code c) = (c, [])
reset_error (copper_error c message) = (c, message)
reset_error (copper_error_value c message) = (Code.einternal, message)
reset_error timeout_error = (Code.etimeout, timeout_message)
reset_error eof = (Code.einternal, eof_message)
reset_error unexpected_eof = (Code.einternal, unexpected_eof_message)
reset_error (other_error message) = (Code.einternal, message)

unfoldable pub write_reset : ℕ → ℕ → GoError → Write
write_reset stream_id flags e =
    let (code, message) = reset_error e in
    if ltb max_reset_frame_message_size (length message)
    then fail (error_code Code.einvalidframe)
    else write_header FrameType.reset flags (4 + length message) stream_id
      >> (write (put_uint32 code) >> (if ltb 0 (length message) then write message else done))

unfoldable pub write_window_flags : ℕ → ℕ → ℕ → Write
write_window_flags stream_id flags increment =
    write_header FrameType.window flags 4 stream_id >> write (put_uint32 increment)

unfoldable pub write_window : ℕ → ℕ → Write
write_window stream_id increment = write_window_flags stream_id 0 increment

-- The loop over the settings, which stops at the first error.
unfoldable pub write_entries : List Setting → Write
write_entries [] = done
write_entries (s ∷ rest) = write (put_uint16 s.id ++ put_uint32 s.value) >> write_entries rest

unfoldable pub write_settings : List Setting → Write
write_settings settings =
    let size = length settings * 6 in
    if ltb max_settings_frame_payload_size size
    then fail (error_code Code.einvalidframe)
    else write_header FrameType.settings 0 size 0 >> write_entries settings

unfoldable pub write_settings_ack : Write
write_settings_ack = write_header FrameType.settings Flag.settings_ack 0 0

-- `writeFrameTo`, by the kind of the frame.
unfoldable pub write_frame : Frame → Write
write_frame (ping_frame flags bytes) = write_ping flags bytes
write_frame (data_frame stream_id flags bytes) = write_data stream_id flags bytes
write_frame (reset_frame stream_id flags e) = write_reset stream_id flags e
write_frame (window_frame stream_id flags increment) = write_window_flags stream_id flags increment
write_frame (settings_frame flags settings) =
    if has flags Flag.settings_ack then write_settings_ack else write_settings settings
write_frame (unknown_frame type flags stream_id payload) =
    if ltb max_frame_payload_size (length payload)
    then fail (error_code Code.einvalidframe)
    else write_header type flags (length payload) stream_id
      >> (if ltb 0 (length payload) then write payload else done)
