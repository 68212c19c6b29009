-- ===== src/Stream/Output.antt =====
-- The frames that a stream writes: `prepareDataLocked`, `outgoingFlags`, `writeCtrl`, `writeData`.
use copper.Prelude.{
  ℕ, zero, suc, ◌+◌, ◌%◌, ◌^◌, List, [], length, take, min, Bool, true, false, not, ◌==◌, ◌&&◌,
  ◌||◌, ltb, if◌then◌else◌, Option, none, some,
}
use copper.Prelude.Int.{pos_part, sub_ℕ, neg_part, is_pos}
use copper.Errors.{GoError, error_code, is_eof, is_code}
use copper.Errors.Code
use copper.Buffer
use copper.Frame.{Frame, data_frame, reset_frame, window_frame, max_data_frame_payload_size}
use copper.Frame.Flag
use copper.Frame.Writer.{Writer, write_frame}
use copper.Outgoing.{shutdown_error}
use copper.Stream.{Stream, no_flags, ctrl, bulk, request, cleanup, pending_bytes}

abbrev pub stream_write_buffer_size : ℕ
stream_write_buffer_size = 65536

-- The size of the next chunk. A window that is not positive allows none.
abbrev pub chunk : Stream → ℕ → ℕ
chunk s maxpayload = min (min s.write.buf.size (pos_part s.write.left)) maxpayload

-- `prepareDataLocked`: the chunk, marked as wired and paid for.
unfoldable pub prepare_data : Stream → ℕ → List ℕ × Stream
prepare_data s maxpayload =
    let n = chunk s maxpayload in
    if ltb 0 n
    then (let (bytes, b) = Buffer.peek s.write.buf in
        (
          take n bytes,
          record s {
            write = record (s.write) {
              buf = b;
              wired = n;
              left = sub_ℕ (pos_part s.write.left) (neg_part s.write.left + n);
            };
          },
        ))
    else ([], s)

-- `err == code`, where `err` may be nil.
abbrev pub holds_code : ℕ → Option GoError → Bool
holds_code c none = false
holds_code c (some e) = is_code c e

-- `activeEOF`
abbrev pub active_eof : Stream → Bool
active_eof s =
    (s.write.buf.size == s.write.wired)
    && s.flags.need_eof
    && (not s.flags.need_reset && holds_code Code.eclosed s.write.err)

-- The write side's EOF is sent: `flags &^= NeedEOF; flags |= SentEOF; cleanupLocked()`.
unfoldable pub send_eof : Stream → Stream
send_eof s = cleanup (record s { flags = record (s.flags) { need_eof = false; sent_eof = true } })

abbrev pub one_of : Bool → ℕ → ℕ
one_of b flag = if b then flag else 0

-- `outgoingFlags`. The flags that it sets differ, so or-ing them adds them.
unfoldable pub outgoing_flags : Stream → ℕ × Stream
outgoing_flags s =
    let s1 = record s { flags = record (s.flags) { need_open = false; need_ack = false } } in
    (
      one_of s.flags.need_open Flag.data_open
          + one_of s.flags.need_ack Flag.data_ack
          + one_of (active_eof s) Flag.data_eof,
      if active_eof s then send_eof s1 else s1,
    )

-- What both writers do when a DATA frame is written.
unfoldable pub after_data : Stream → Stream
after_data s =
    let b = (Buffer.discard s.write.buf s.write.wired).1 in
    record s {
      write = record (s.write) {
        buf = b;
        wired = 0;
        ready = s.write.ready + (if ltb b.size stream_write_buffer_size then 1 else 0);
        flushed = s.write.flushed + (if b.size == 0 then 1 else 0);
      };
    }

-- A frame to write, the state when the mutex is given up, and what follows the write.
pub data Output : Type 0 where
  output : Frame → Stream → (Stream → Stream) → Output
  nothing : Stream → Output

abbrev pub keep : Stream → Stream
keep s = s

abbrev pub data_output : ℕ × Stream → List ℕ → Output
data_output (flags, s) bytes = output (data_frame s.id flags bytes) s after_data

-- `if reset == io.EOF { reset = ECLOSED }`
abbrev pub eof_code : Option GoError → Option GoError
eof_code none = none
eof_code (some e) = if is_eof e then some (error_code Code.eclosed) else some e

-- The error that a RESET carries; for nil, where the code would panic, the model has ECLOSED.
abbrev pub sent_error : Option GoError → GoError
sent_error none = error_code Code.eclosed
sent_error (some e) = shutdown_error e

-- `s.flags & flagStreamDiscard == flagStreamDiscard && s.write.buf.size == 0`
abbrev pub never_opened : Stream → Bool
never_opened s =
    (s.flags.need_open && s.flags.need_reset && s.flags.need_eof) && s.write.buf.size == 0

-- Nothing was ever sent: `s.flags = SeenEOF | SentEOF`, and clean up.
unfoldable pub forget : Stream → Stream
forget s = cleanup (record s { flags = record no_flags { seen_eof = true; sent_eof = true } })

-- The four kinds of frames that `writeCtrl` writes: DATA with OPEN or ACK, WINDOW, RESET for the
-- read side (coalesced with the write side's where `both` says so), and the write side's EOF.
unfoldable pub open_output : Stream → Output
unfolding prepare_data outgoing_flags
open_output s =
    let (bytes, s1) = prepare_data s max_data_frame_payload_size in
    data_output (outgoing_flags s1) bytes

unfoldable pub window_output : Stream → Output
window_output s =
    output (window_frame s.id 0 (s.read.increment % 2 ^ 32))
      (record s { read = record (s.read) { left = s.read.left + s.read.increment; increment = 0 } })
      keep

unfoldable pub reset_output : Stream → Bool → Output
unfolding send_eof
reset_output s both =
    let s1 = record s { flags = record (s.flags) { need_reset = false } } in
    let e = sent_error (eof_code s.read.err) in
    if both
    then output (reset_frame s.id (Flag.reset_read + Flag.reset_write) e) (send_eof s1) keep
    else output (reset_frame s.id Flag.reset_read e) s1 keep

unfoldable pub eof_output : Stream → Output
unfolding send_eof
eof_output s =
    if holds_code Code.eclosed s.write.err
    then output (data_frame s.id Flag.data_eof []) (send_eof s) keep
    else output (reset_frame s.id Flag.reset_write (sent_error s.write.err)) (send_eof s) keep

-- `alias` is Go's `==` on two errors.
module _ (alias : Option GoError → Option GoError → Bool) where
  -- One round of the loop of `writeCtrl`.
  unfoldable pub ctrl_round : Stream → Output
  ctrl_round s =
      if (s.flags.need_open || s.flags.need_ack) && not s.flags.sent_eof
      then open_output s
      else if ltb 0 s.read.increment
      then window_output s
      else if s.flags.need_reset
      then reset_output s
          ((s.write.buf.size == 0 && s.flags.need_eof) && alias s.write.err (eof_code s.read.err))
      else if s.write.buf.size == 0 && s.flags.need_eof
      then eof_output s
      else nothing s

  -- The loop, with the rounds left; `none` is no Go value: the rounds ran out.
  unfoldable pub ctrl_loop : ℕ → Stream → Writer → Option (Option GoError × Stream × Writer)
  ctrl_loop zero s w = none
  ctrl_loop (suc fuel) s w = elim (ctrl_round s) [
    | nothing s' ↦ some (none, s', w)
    | output f s' k ↦
        let (e, w') = write_frame f w in
        elim e [ none ↦ ctrl_loop fuel (k s') w' | some x ↦ some (some x, s', w') ]
  ]

  -- The loop is given five rounds, one more than the kinds of frames.
  unfoldable pub write_ctrl : Stream → Writer → Option (Option GoError × Stream × Writer)
  write_ctrl s w = if never_opened s then some (none, forget s, w) else ctrl_loop 5 s w

-- `activeData`
abbrev pub active_data : Stream → Bool
active_data s = is_pos s.write.left && ltb 0 (pending_bytes s)

-- What `writeData` schedules when it gives the mutex up.
unfoldable pub reschedule : Stream → Stream
reschedule s =
    if active_data s
    then request s bulk
    else if s.write.buf.size == s.write.wired && s.flags.need_eof
    then request s ctrl
    else s

unfoldable pub data_round : Stream → Output
unfolding prepare_data outgoing_flags reschedule
data_round s =
    let (bytes, s1) = prepare_data s max_data_frame_payload_size in
    if ltb 0 (length bytes)
    then (let (flags, s2) = outgoing_flags s1 in
        output (data_frame s.id flags bytes) (reschedule s2) after_data)
    else nothing s1

-- `writeData`, behind the round that holds the mutex.
unfoldable pub finish_data : Output → Writer → Option GoError × Stream × Writer
finish_data (nothing s) w = (none, s, w)
finish_data (output f s k) w =
    let (e, w') = write_frame f w in elim e [ none ↦ (none, k s, w') | some x ↦ (some x, s, w') ]

unfoldable pub write_data : Stream → Writer → Option GoError × Stream × Writer
unfolding data_round finish_data
write_data s w = finish_data (data_round s) w
