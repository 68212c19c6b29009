-- ===== src/Frame/Reader.antt =====
-- `FrameReader` and the frame parsers of frame.go.
use copper.Prelude.{
  ℕ, zero, suc, ◌/◌, ◌%◌, ◌^◌, List, [], ◌∷◌, Bool, not, ◌==◌, ◌||◌, ltb, leb, if◌then◌else◌,
  length, take, drop, bit_and,
}
use copper.Pow2.{minpow2}
use copper.Errors.{
  GoError, error_code, copper_error, unexpected_eof, is_eof, Result, ok, err, ◌>>=◌,
}
use copper.Errors.Code
use copper.Frame.{
  Frame, ping_frame, data_frame, reset_frame, window_frame, settings_frame, unknown_frame, Setting,
  FrameHeader, has, frame_header_size, max_settings_frame_payload_size,
}
use copper.Frame.FrameType
use copper.Frame.Flag
use copper.Frame.Wire.{uint16, uint32, decode_header}

-- A reader over the bytes that the connection still delivers, and the error that `Read` gives behind
-- them. `scratch` is the length of the payload buffer that is kept between frames.
pub record Reader : Type 0 where
  pub input : List ℕ
  pub fin : GoError
  pub scratch : ℕ

-- `io.ReadFull` into `n` bytes: all of them, the reader's error if there is not one byte, or
-- `io.ErrUnexpectedEOF` in the place of `io.EOF` if there are fewer than `n`.
unfoldable pub read_full : Reader → ℕ → Result (List ℕ) × Reader
read_full r n =
    if leb n (length r.input)
    then (ok (take n r.input), record r { input = drop n r.input })
    else if length r.input == 0
    then (err r.fin, r)
    else (err (if is_eof r.fin then unexpected_eof else r.fin), record r { input = [] })

-- The test of the top bit, `h.StreamID&0x80000000 != 0`.
abbrev pub top_bit : ℕ → Bool
top_bit id = not (bit_and id (2 ^ 31) == 0)

unfoldable pub parse_ping_frame : FrameHeader → List ℕ → Result Frame
parse_ping_frame h payload =
    if not (h.stream_id == 0) || not (length payload == 8)
    then err (error_code Code.einvalidframe)
    else ok (ping_frame h.flags payload)

unfoldable pub parse_data_frame : FrameHeader → List ℕ → Result Frame
parse_data_frame h payload =
    if top_bit h.stream_id
    then err (error_code Code.einvalidframe)
    else ok (data_frame h.stream_id h.flags payload)

unfoldable pub parse_reset_frame : FrameHeader → List ℕ → Result Frame
parse_reset_frame h payload =
    if top_bit h.stream_id || ltb (length payload) 4
    then err (error_code Code.einvalidframe)
    else (let code = uint32 payload 0 in
        ok (
          reset_frame h.stream_id h.flags (
            if ltb 4 (length payload)
            then copper_error code (drop 4 payload)
            else error_code code)))

unfoldable pub parse_window_frame : FrameHeader → List ℕ → Result Frame
parse_window_frame h payload =
    if top_bit h.stream_id || not (length payload == 4)
    then err (error_code Code.einvalidframe)
    else ok (window_frame h.stream_id h.flags (uint32 payload 0))

-- The loop over six-byte entries, one round for each of the `len(payload) / 6`.
unfoldable pub parse_settings : ℕ → List ℕ → List Setting
parse_settings zero payload = []
parse_settings (suc n) payload =
    record { id = uint16 payload 0; value = uint32 payload 2 } ∷ parse_settings n (drop 6 payload)

unfoldable pub parse_settings_frame : FrameHeader → List ℕ → Result Frame
parse_settings_frame h payload =
    let n = length payload in
    if not (h.stream_id == 0)
    then err (error_code Code.einvalidframe)
    else if has h.flags Flag.settings_ack
    then (if not (n == 0)
        then err (error_code Code.einvalidframe)
        else ok (settings_frame h.flags []))
    else if ltb max_settings_frame_payload_size n || not (n % 6 == 0)
    then err (error_code Code.einvalidframe)
    else ok (settings_frame h.flags (parse_settings (n / 6) payload))

unfoldable pub parse_unknown_frame : FrameHeader → List ℕ → Result Frame
parse_unknown_frame h payload = ok (unknown_frame h.type h.flags h.stream_id payload)

-- The lookup in `frameParsers`, and the parser that stands in for a missing one.
unfoldable pub parse : FrameHeader → List ℕ → Result Frame
parse h payload =
    if h.type == FrameType.ping
    then parse_ping_frame h payload
    else if h.type == FrameType.data_type
    then parse_data_frame h payload
    else if h.type == FrameType.reset
    then parse_reset_frame h payload
    else if h.type == FrameType.window
    then parse_window_frame h payload
    else if h.type == FrameType.settings
    then parse_settings_frame h payload
    else parse_unknown_frame h payload

unfoldable pub read_header : Reader → Result FrameHeader × Reader
read_header r =
    let (res, r') = read_full r frame_header_size in (res >>= (λ buf. ok (decode_header buf)), r')

-- The payload of a frame whose header announces `n` bytes.
unfoldable pub read_payload : Reader → ℕ → Result (List ℕ) × Reader
read_payload r n =
    if ltb 0 n
    then (let r1 = record r { scratch = if ltb r.scratch n then minpow2 n else r.scratch } in
        let (res, r2) = read_full r1 n in
        (elim res [ ok p ↦ ok p | err e ↦ err (if is_eof e then unexpected_eof else e) ], r2))
    else (ok [], r)

-- What `ReadFrame` does behind the header.
unfoldable pub read_body : Result FrameHeader → Reader → Result Frame × Reader
read_body (err e) r = (err e, r)
read_body (ok h) r =
    let (res, r') = read_payload r h.length in (res >>= (λ payload. parse h payload), r')

unfoldable pub read_frame : Reader → Result Frame × Reader
read_frame r = let (h, r') = read_header r in read_body h r'
