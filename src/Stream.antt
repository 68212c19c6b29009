-- ===== src/Stream.antt =====
-- A stream's two sides and their state machine (rawstream.go). The stream's mutex makes each
-- operation one step; `writeCtrl` and `writeData` give it up while they write a frame.
pub mod Output
pub mod Api
use copper.Prelude.{
  ℕ, zero, suc, ◌+◌, ◌-◌, List, [], ◌∷◌, ◌++◌, length, min, Bool, true, false, not, ◌==◌, ◌&&◌,
  ◌||◌, ltb, leb, if◌then◌else◌, Option, none, some,
}
use copper.Prelude.Int.{ℤ, pos, ◌+ℤ◌, is_pos}
use copper.Errors.{GoError, error_code, copper_error_value, eof, is_eof, is_code}
use copper.Errors.Code
use copper.Buffer
use copper.Buffer.{Buffer}
use copper.Frame.{has}
use copper.Frame.Flag

-- The bits of `flags`.
pub record Flags : Type 0 where
  pub seen_eof : Bool
  pub sent_eof : Bool
  pub seen_ack : Bool
  pub seen_reset : Bool
  pub need_open : Bool
  pub need_ack : Bool
  pub need_reset : Bool
  pub need_eof : Bool

-- A channel that is only ever closed is the number of times that it was: a second time panics.
-- A condition variable is the number of broadcasts.
pub record ReadSide : Type 0 where
  pub err : Option GoError
  pub buf : Buffer
  pub left : ℕ
  pub acked : ℕ
  pub closed : ℕ
  pub increment : ℕ
  pub ready : ℕ

pub record WriteSide : Type 0 where
  pub err : Option GoError
  pub buf : Buffer
  pub left : ℤ
  pub wired : ℕ
  pub acked : Bool
  pub closed : ℕ
  pub ready : ℕ
  pub flushed : ℕ

-- The calls of the connection's components: `scheduleCtrl`, `scheduleData` and `streams.remove`.
pub data Request : Type 0 where
  ctrl bulk remove : Request

-- `requests` lists the calls made, oldest first.
pub record Stream : Type 0 where
  pub id : ℕ
  pub flags : Flags
  pub read : ReadSide
  pub write : WriteSide
  pub err : Option GoError
  pub closed : ℕ
  pub requests : List Request

abbrev pub no_flags : Flags
no_flags = record {
  seen_eof = false;
  sent_eof = false;
  seen_ack = false;
  seen_reset = false;
  need_open = false;
  need_ack = false;
  need_reset = false;
  need_eof = false;
}

-- `newStream`, with the connection's two window sizes.
unfoldable pub new_stream : ℕ → ℕ → ℕ → Stream
new_stream id local_window remote_window = record {
  id = id;
  flags = no_flags;
  read = record {
    err = none;
    buf = Buffer.empty;
    left = local_window;
    acked = 0;
    closed = 0;
    increment = 0;
    ready = 0;
  };
  write = record {
    err = none;
    buf = Buffer.empty;
    left = pos remote_window;
    wired = 0;
    acked = false;
    closed = 0;
    ready = 0;
    flushed = 0;
  };
  err = none;
  closed = 0;
  requests = [];
}

abbrev pub is_none {ℓ} : {A : Type ℓ} → Option A → Bool
is_none none = true
is_none (some a) = false

abbrev pub request : Stream → Request → Stream
request s r = record s { requests = s.requests ++ (r ∷ []) }

-- `newOutgoingStream`
unfoldable pub new_outgoing_stream : ℕ → ℕ → ℕ → Stream
unfolding new_stream
new_outgoing_stream id local_window remote_window =
    let s = new_stream id local_window remote_window in
    request (record s { flags = record no_flags { need_open = true } }) ctrl

abbrev pub cleanup : Stream → Stream
cleanup s = if s.flags.seen_eof && s.flags.sent_eof then request s remove else s

-- `clearWriteBufferLocked`
unfoldable pub clear_write_buffer : Stream → Stream
clear_write_buffer s =
    let s1 = record s {
      write = record (s.write) {
        buf = Buffer.clear s.write.buf;
        wired = 0;
        flushed = s.write.flushed + 1;
      };
    } in
    if s.flags.need_eof then request s1 ctrl else s1

abbrev pub one_if : Bool → ℕ
one_if b = if b then 1 else 0

-- `setReadErrorLocked`: the state behind it; its result is the error kept before.
unfoldable pub set_read_error : Stream → GoError → Stream
set_read_error s e =
    if is_none s.read.err
    then (let s1 = record s {
      read = record (s.read) {
        err = some e;
        closed = s.read.closed + 1;
        acked = s.read.acked + one_if (not s.flags.seen_ack);
        increment = 0;
        ready = s.read.ready + 1;
      };
      closed = s.closed + one_if (not (is_none s.write.err));
    } in
        if s.flags.seen_eof
        then s1
        else request (record s1 { flags = record (s.flags) { need_reset = true } }) ctrl)
    else s

-- `setWriteErrorLocked`
unfoldable pub set_write_error : Stream → GoError → Stream
set_write_error s e =
    if is_none s.write.err
    then (let s1 = record s {
      write = record (s.write) {
        err = some e;
        closed = s.write.closed + 1;
        ready = s.write.ready + 1;
        flushed = s.write.flushed + 1;
      };
      closed = s.closed + one_if (not (is_none s.read.err));
      flags = record (s.flags) { need_eof = true };
    } in
        if s.write.buf.size == s.write.wired then request s1 ctrl else s1)
    else s

-- nil and io.EOF become ECLOSED.
abbrev pub close_error : Option GoError → GoError
close_error none = error_code Code.eclosed
close_error (some e) = if is_eof e then error_code Code.eclosed else e

-- `closeWithErrorLocked`
unfoldable pub close_with_error : Stream → Option GoError → Stream
close_with_error s e =
    if is_none s.err
    then set_write_error (set_read_error (record s { err = some (close_error e) }) (close_error e))
        (close_error e)
    else s

-- A connection-level error of this file: a `copperError` value. Its message is not modelled.
abbrev pub stream_error : ℕ → Option GoError
stream_error code = some (copper_error_value code [])

-- The parts of `processDataLocked`: the ACK flag, the data, and the EOF flag.
unfoldable pub receive_ack : Stream → Stream
receive_ack s = record s {
  flags = record (s.flags) { seen_ack = true };
  read = record (s.read) {
    acked = s.read.acked + one_if (is_none s.read.err && not s.flags.seen_ack);
  };
}

unfoldable pub receive_data : Stream → List ℕ → Stream
receive_data s bytes = record s {
  read = record (s.read) {
    buf = if is_none s.read.err then Buffer.write s.read.buf bytes else s.read.buf;
    ready = s.read.ready + one_if (is_none s.read.err);
    left = s.read.left - length bytes;
  };
}

unfoldable pub receive_eof : Stream → GoError → Stream
receive_eof s e = cleanup (
    set_read_error (record s { flags = record (s.flags) { seen_eof = true; need_reset = false } })
      e)

-- `processDataLocked` behind the ACK flag.
unfoldable pub accept_data : Stream → List ℕ → ℕ → Option GoError × Stream
accept_data s bytes flags =
    if ltb s.read.left (length bytes)
    then (stream_error Code.ewindowoverflow, s)
    else (let s2 = if ltb 0 (length bytes) then receive_data s bytes else s in
        (none, if has flags Flag.data_eof then receive_eof s2 eof else s2))

-- `processDataLocked`
unfoldable pub process_data : Stream → List ℕ → ℕ → Option GoError × Stream
unfolding accept_data
process_data s bytes flags =
    if s.flags.seen_eof
    then (stream_error Code.einvalidstream, s)
    else accept_data (if has flags Flag.data_ack then receive_ack s else s) bytes flags

-- The two parts of `processResetFrame`.
unfoldable pub reset_write_side : Stream → GoError → Stream
reset_write_side s e =
    set_write_error
      (clear_write_buffer (record s { flags = record (s.flags) { seen_reset = true } })) e

abbrev pub reset_read_error : GoError → GoError
reset_read_error e = if is_code Code.eclosed e then eof else e

unfoldable pub process_reset : Stream → ℕ → GoError → Stream
process_reset s flags e =
    let s1 = if has flags Flag.reset_read then reset_write_side s e else s in
    if has flags Flag.reset_write then receive_eof s1 (reset_read_error e) else s1

-- `pendingBytes`; the source subtracts ints, here the difference stops at 0.
abbrev pub pending_bytes : Stream → ℕ
pending_bytes s = s.write.buf.size - s.write.wired

-- `changeWriteWindow`
unfoldable pub change_write_window : Stream → ℤ → Stream
change_write_window s diff =
    let s1 = record s { write = record (s.write) { left = s.write.left +ℤ diff } } in
    if not (is_pos s.write.left) && ltb 0 (pending_bytes s)
    then (if is_pos s1.write.left then request s1 bulk else s1)
    else s1

-- `processWindowFrame`
unfoldable pub process_window : Stream → ℕ → Option GoError × Stream
process_window s increment =
    if leb increment 0
    then (stream_error Code.einvalidframe, s)
    else (none, change_write_window s (pos increment))
