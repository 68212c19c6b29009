-- ===== src/Frame/RoundTrip/Sent.antt =====
-- Each frame on the wire: the header's fields and the payload, and what the writer makes of it.
use copper.Prelude.{
  ℕ, ◌+◌, ◌*◌, ◌≤◌, ◌≡◌, refl, ◌∙◌, ap, sym, arith, List, [], ◌∷◌, ◌++◌, ltb, Bool-cases, inl, inr,
  if◌then◌else◌, length, append_assoc, append-nil, none, take_self, not_ltb, lt→ltb,
}
use copper.Frame.{
  Frame, ping_frame, data_frame, reset_frame, window_frame, settings_frame, unknown_frame, Setting,
  has, max_frame_payload_size, max_reset_frame_message_size, max_settings_frame_payload_size,
}
use copper.Frame.Wire.{header_bytes, put_uint16, put_uint32}
use copper.Frame.Writer.{
  Writer, Write, next, done, write, write_header, write_ping, write_data, write_reset,
  write_window_flags, write_entries, write_settings, write_settings_ack, write_frame, reset_error,
  ◌>>◌,
}

-- The fields of a frame's header, without the length, and its payload.
pub record Packet : Type 0 where
  pub type : ℕ
  pub flags : ℕ
  pub id : ℕ
  pub payload : List ℕ

abbrev pub entries : List Setting → List ℕ
entries [] = []
entries (s ∷ rest) = (put_uint16 s.id ++ put_uint32 s.value) ++ entries rest

abbrev pub packet : Frame → Packet
packet (ping_frame flags bytes) = record { type = 0; flags = flags; id = 0; payload = bytes }
packet (data_frame id flags bytes) = record { type = 1; flags = flags; id = id; payload = bytes }
packet (reset_frame id flags e) = record {
  type = 2;
  flags = flags;
  id = id;
  payload = put_uint32 (reset_error e).0 ++ (reset_error e).1;
}
packet (window_frame id flags increment) = record {
  type = 3;
  flags = flags;
  id = id;
  payload = put_uint32 increment;
}
packet (settings_frame flags settings) =
    if has flags 1
    then record { type = 4; flags = 1; id = 0; payload = [] }
    else record { type = 4; flags = 0; id = 0; payload = entries settings }
packet (unknown_frame type flags id payload) = record {
  type = type;
  flags = flags;
  id = id;
  payload = payload;
}

abbrev pub wire : Packet → List ℕ
wire p = header_bytes p.type p.flags (length p.payload) p.id ++ p.payload

-- The limits on the payload that the writer checks, and the size of ping data.
abbrev pub Fits : Frame → Type 0
Fits (ping_frame flags bytes) = length bytes ≡ 8
Fits (data_frame id flags bytes) = length bytes ≤ max_frame_payload_size
Fits (reset_frame id flags e) = length (reset_error e).1 ≤ max_reset_frame_message_size
Fits (window_frame id flags increment) = Unit {0}
Fits (settings_frame flags settings) = length settings * 6 ≤ max_settings_frame_payload_size
Fits (unknown_frame type flags id payload) = length payload ≤ max_frame_payload_size

-- A writer whose calls all succeed, with the bytes written so far.
abbrev pub sink : List ℕ → Writer
sink out = record { out = out; outcomes = [] }

write-sink : (bytes out : List ℕ) → write bytes (sink out) ≡ (none, sink (out ++ bytes))
unfolding write
write-sink bytes out = refl

write_entries-sink :
    (settings : List Setting) (out : List ℕ)
    → write_entries settings (sink out) ≡ (none, sink (out ++ entries settings))
unfolding write_entries write
write_entries-sink [] out = ap (λ l. (none, sink l)) (sym (append-nil out))
write_entries-sink (s ∷ rest) out =
    write_entries-sink rest (out ++ (put_uint16 s.id ++ put_uint32 s.value))
    ∙ ap (λ l. (none, sink l)) (append_assoc out _ (entries rest))

pub length-entries : (settings : List Setting) → length (entries settings) ≡ length settings * 6
length-entries [] = omega arith
length-entries (s ∷ rest) = omega (arith, length-entries rest)

-- Optional bytes: nothing is written for none.
write_rest :
    (bytes out : List ℕ)
    → (if ltb 0 (length bytes) then write bytes else done) (sink out) ≡ (none, sink (out ++ bytes))
write_rest [] out = ap (λ l. (none, sink l)) (sym (append-nil out))
write_rest (x ∷ xs) out = rw (lt→ltb 0 (length (x ∷ xs)) (omega arith)) (write-sink (x ∷ xs) out)

-- One write behind another, into a writer that does not fail.
write-write :
    (m k : Write) (out first second : List ℕ)
    → m (sink out) ≡ (none, sink (out ++ first))
    → k (sink (out ++ first)) ≡ (none, sink ((out ++ first) ++ second))
    → (m >> k) (sink out) ≡ (none, sink (out ++ (first ++ second)))
write-write m k out first second p q =
    ap (next k) p ∙ (q ∙ ap (λ l. (none, sink l)) (append_assoc out first second))

-- Into a writer that does not fail, a frame that fits is written as its header and payload.
pub write_frame-sink :
    (f : Frame) (out : List ℕ)
    → Fits f
    → write_frame f (sink out) ≡ (none, sink (out ++ wire (packet f)))
unfolding write_frame write_header write_ping write_data write_reset write_window_flags
    write_settings write_settings_ack
write_frame-sink (ping_frame flags bytes) out h =
    rw (h, take_self bytes 8 (omega arith))
      (write-write (write (header_bytes 0 flags 8 0)) (write bytes) out _ bytes (write-sink _ out)
        (write-sink bytes _))
write_frame-sink (data_frame id flags bytes) out h = rw (not_ltb _ _ h) (
    write-write (write (header_bytes 1 flags (length bytes) id)) _ out _ bytes (write-sink _ out)
      (write_rest bytes _))
write_frame-sink (reset_frame id flags e) out h =
    let (code, message) = reset_error e in
    let bytes = put_uint32 code ++ message in
    let size : 4 + length message ≡ length bytes = omega arith in
    rw (not_ltb _ _ h, size)
      (write-write (write (header_bytes 2 flags (length bytes) id)) _ out _ bytes (write-sink _ out)
        (write-write (write (put_uint32 code)) _ _ _ message (write-sink _ _)
          (write_rest message _)))
write_frame-sink (window_frame id flags increment) out h =
    write-write (write (header_bytes 3 flags 4 id)) (write (put_uint32 increment)) out _ _
      (write-sink _ out) (write-sink _ _)
write_frame-sink (settings_frame flags settings) out h = elim (Bool-cases (has flags 1)) [
  | inl ack ↦ rw ack (write-sink _ out ∙ ap (λ l. (none, sink (out ++ l))) (sym (append-nil _)))
  | inr plain ↦
      rw (plain, not_ltb _ _ h, length-entries settings)
        (write-write (write (header_bytes 4 0 (length settings * 6) 0)) (write_entries settings) out
          _ _ (write-sink _ out) (write_entries-sink settings _))
]
write_frame-sink (unknown_frame type flags id payload) out h = rw (not_ltb _ _ h) (
    write-write (write (header_bytes type flags (length payload) id)) _ out _ payload
      (write-sink _ out) (write_rest payload _))
