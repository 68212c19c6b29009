-- ===== src/Frame/RoundTrip/Received.antt =====
-- What the parsers make of each packet.
use copper.Prelude.{
  ℕ, ◌/◌, ◌%◌, ◌^◌, ◌<◌, ◌≡◌, refl, ap₂, arith, List, [], ◌∷◌, ◌++◌, false, not, ◌||◌, ltb,
  Bool-cases, inl, inr, if◌then◌else◌, length, ◌==◌,
}
use copper.Prelude.Bits.{bit_and-pow}
use copper.Errors.{GoError, error_code, copper_error, ok, err}
use copper.Frame.{
  Frame, ping_frame, data_frame, reset_frame, window_frame, settings_frame, unknown_frame, Setting,
  FrameHeader, has,
}
use copper.Frame.Wire.{put_uint32, uint32}
use copper.Frame.Writer.{reset_error}
use copper.Frame.Reader.{
  top_bit, parse, parse_ping_frame, parse_data_frame, parse_reset_frame, parse_window_frame,
  parse_settings, parse_settings_frame, parse_unknown_frame,
}
use copper.Frame.RoundTrip.Sent.{Packet, packet, entries, Fits, length-entries}

abbrev pub IsSetting : Setting → Type 0
IsSetting s = (s.id < 2 ^ 16) × (s.value < 2 ^ 32)

abbrev pub All {ℓ κ} : {A : Type ℓ} → (A → Type κ) → List A → Type κ
All P [] = Unit
All P (x ∷ xs) = P x × All P xs

-- The fields fit their widths, and stream ids are below 2^31. An unknown frame has none of the
-- types that a parser is registered for.
abbrev pub InRange : Frame → Type 0
InRange (ping_frame flags bytes) = flags < 256
InRange (data_frame id flags bytes) = (id < 2 ^ 31) × (flags < 256)
InRange (reset_frame id flags e) = (id < 2 ^ 31) × (flags < 256) × ((reset_error e).0 < 2 ^ 32)
InRange (window_frame id flags increment) = (id < 2 ^ 31) × (flags < 256) × (increment < 2 ^ 32)
InRange (settings_frame flags settings) = All IsSetting settings
InRange (unknown_frame type flags id payload) =
    (4 < type) × (type < 256) × (flags < 256) × (id < 2 ^ 32)

-- The error that the peer sees in place of the one that was sent.
abbrev pub received_error : ℕ × List ℕ → GoError
received_error (code, []) = error_code code
received_error (code, x ∷ xs) = copper_error code (x ∷ xs)

-- The frame that the peer reads. Flags of SETTINGS are cut to ACK, and an ACK has no settings.
abbrev pub received : Frame → Frame
received (reset_frame id flags e) = reset_frame id flags (received_error (reset_error e))
received (settings_frame flags settings) =
    if has flags 1 then settings_frame 1 [] else settings_frame 0 settings
received f = f

abbrev pub header : Packet → FrameHeader
header p = record { type = p.type; flags = p.flags; length = length p.payload; stream_id = p.id }

top_bit-small : (id : ℕ) → id < 2 ^ 31 → top_bit id ≡ false
top_bit-small id h = ground (arith, bit_and-pow 31 id)

uint32-append : (x : ℕ) (rest : List ℕ) → x < 2 ^ 32 → uint32 (put_uint32 x ++ rest) 0 ≡ x
uint32-append x rest h = omega arith

parse_settings-entries :
    (settings : List Setting)
    → All IsSetting settings
    → parse_settings (length settings) (entries settings) ≡ settings
unfolding parse_settings
parse_settings-entries [] h = refl
parse_settings-entries (s ∷ rest) ((hi, hv), h) =
    ap₂ ◌∷◌ (ground arith) (parse_settings-entries rest h)

parse_reset_frame-ok :
    (id flags code : ℕ) (message : List ℕ)
    → id < 2 ^ 31
    → code < 2 ^ 32
    → parse_reset_frame
        (record {
          type = 2;
          flags = flags;
          length = length (put_uint32 code ++ message);
          stream_id = id;
        })
        (put_uint32 code ++ message)
      ≡ ok (reset_frame id flags (received_error (code, message)))
unfolding parse_reset_frame
parse_reset_frame-ok id flags code [] hi hc = ground (arith, top_bit-small id)
parse_reset_frame-ok id flags code (x ∷ xs) hi hc = ground (arith, top_bit-small id)

settings_ok :
    (settings : List Setting)
    → Fits (settings_frame 0 settings)
    → All IsSetting settings
    → (let n = length (entries settings) in
        if ltb 6144 n || not (n % 6 == 0)
        then err (error_code 203)
        else ok (settings_frame 0 (parse_settings (n / 6) (entries settings))))
      ≡ ok (settings_frame 0 settings)
settings_ok settings h r =
    ground (arith, length-entries settings, parse_settings-entries settings r)

pub parse-packet :
    (f : Frame)
    → Fits f
    → InRange f
    → parse (header (packet f)) (packet f).payload ≡ ok (received f)
unfolding parse parse_ping_frame parse_data_frame parse_reset_frame parse_window_frame
    parse_settings_frame parse_unknown_frame
parse-packet (ping_frame flags bytes) h r = ground arith
parse-packet (data_frame id flags bytes) h r = rw (top_bit-small id r.0) refl
parse-packet (reset_frame id flags e) h r =
    parse_reset_frame-ok id flags (reset_error e).0 (reset_error e).1 r.0 r.2
parse-packet (window_frame id flags increment) h r = ground (arith, top_bit-small id r.0)
parse-packet (settings_frame flags settings) h r = elim (Bool-cases (has flags 1)) [
  | inl ack ↦ rw ack refl
  | inr plain ↦ rw plain (settings_ok settings h r)
]
parse-packet (unknown_frame type flags id payload) h r = ground arith
