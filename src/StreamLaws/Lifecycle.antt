-- ===== src/StreamLaws/Lifecycle.antt =====
-- The life of a stream's two sides: each channel is closed once at most, and each side ends once.
use copper.Prelude.{
  ℕ, ◌≡◌, refl, arith, List, [], ◌∷◌, length, ltb, ◌==◌, Bool, true, false, not, ◌&&◌, ◌||◌, Option,
  if◌then◌else◌,
}
use copper.Prelude.Int.{ℤ, pos}
use copper.Errors.{GoError}
use copper.Errors.Code
use copper.Frame.{data_frame, max_data_frame_payload_size}
use copper.StreamLaws.Events.{
  Event, data_in, reset_in, window_in, settings_in, peek_call, discard_call, read_call, write_call,
  write_byte_call, acknowledge_call, close_call, close_read_call, close_write_call, ctrl_start,
  ctrl_turn, data_turn, data_written, settled, released, step, run,
}
use copper.StreamLaws.Keeping.{process_data-keeps, process_reset-keeps, released-branch, only_if}
use copper.Stream.Api.{
  peek, discard, read, write_some, write_byte, acknowledge, close_read_with, close_write_with,
}
use copper.Stream.Output.{
  output, nothing, prepare_data, outgoing_flags, open_output, window_output, reset_output,
  eof_output, ctrl_round, data_round, never_opened, forget, after_data, send_eof, reschedule,
  holds_code, eof_code,
}
use copper.Stream.{
  new_outgoing_stream, close_error, Stream, is_none, one_if, new_stream, set_read_error,
  set_write_error, close_with_error, receive_ack, receive_data, receive_eof, process_data,
  process_reset, reset_write_side, clear_write_buffer, change_write_window, process_window,
}

-- The counts of closed channels, and the flags that each side's end decides. A side that is open
-- owes nothing; a read side that ended owes a RESET at most while the peer's EOF is not seen; a
-- write side that ended owes its EOF or has sent it, and not both.
pub record Alive (s : Stream) : Type 0 where
  pub read_closed : s.read.closed ≡ one_if (not (is_none s.read.err))
  pub read_acked : s.read.acked ≡ (if is_none s.read.err then one_if s.flags.seen_ack else 1)
  pub write_closed : s.write.closed ≡ one_if (not (is_none s.write.err))
  pub closed : s.closed ≡ one_if (not (is_none s.read.err) && not (is_none s.write.err))
  pub read_owes :
      s.flags.need_reset
      ≡ (s.flags.need_reset && (not (is_none s.read.err) && not s.flags.seen_eof))
  pub write_owes : s.flags.need_eof ≡ (not (is_none s.write.err) && not s.flags.sent_eof)
  pub sent : s.flags.sent_eof ≡ (s.flags.sent_eof && not (is_none s.write.err))

set_read_error-Alive : (s : Stream) (e : GoError) → Alive s → Alive (set_read_error s e)
unfolding set_read_error
set_read_error-Alive s e v = ground arith

set_write_error-Alive : (s : Stream) (e : GoError) → Alive s → Alive (set_write_error s e)
unfolding set_write_error
set_write_error-Alive s e v = ground arith

close_with_error-Alive : (s : Stream) (e : Option GoError) → Alive s → Alive (close_with_error s e)
unfolding close_with_error
close_with_error-Alive s e v = grind (arith, set_write_error-Alive, set_read_error-Alive)

receive_ack-Alive : (s : Stream) → Alive s → Alive (receive_ack s)
unfolding receive_ack
receive_ack-Alive s v = ground arith

receive_data-Alive : (s : Stream) (bytes : List ℕ) → Alive s → Alive (receive_data s bytes)
unfolding receive_data
receive_data-Alive s bytes v = ground arith

receive_eof-Alive : (s : Stream) (e : GoError) → Alive s → Alive (receive_eof s e)
unfolding receive_eof set_read_error
receive_eof-Alive s e v = ground arith

reset_write_side-Alive : (s : Stream) (e : GoError) → Alive s → Alive (reset_write_side s e)
unfolding reset_write_side clear_write_buffer set_write_error
reset_write_side-Alive s e v = ground arith

process_data-Alive :
    (s : Stream) (bytes : List ℕ) (flags : ℕ) → Alive s → Alive (process_data s bytes flags).1
process_data-Alive =
    process_data-keeps Alive receive_eof-Alive receive_ack-Alive
      (λ s bytes some_bytes room v. receive_data-Alive s bytes v)

process_reset-Alive :
    (s : Stream) (flags : ℕ) (e : GoError) → Alive s → Alive (process_reset s flags e)
process_reset-Alive = process_reset-keeps Alive receive_eof-Alive reset_write_side-Alive

change_write_window-Alive : (s : Stream) (d : ℤ) → Alive s → Alive (change_write_window s d)
unfolding change_write_window
change_write_window-Alive s d v = ground arith

process_window-Alive : (s : Stream) (n : ℕ) → Alive s → Alive (process_window s n).1
unfolding process_window
process_window-Alive s n v = ground (arith, change_write_window-Alive s (pos n) v)

calls-Alive :
    (s : Stream) (n : ℕ) (bytes : List ℕ)
    → Alive s
    → Alive (settled s (peek s))
      × Alive (discard s n).1
      × Alive (settled s (read s n))
      × Alive (settled s (write_some s bytes))
      × Alive (settled s (write_byte s n))
      × Alive (acknowledge s).1
unfolding peek discard read write_some write_byte acknowledge
calls-Alive s n bytes v =
    (ground arith, ground arith, ground arith, ground arith, ground arith, ground arith)

forget-Alive : (s : Stream) → never_opened s ≡ true → Alive s → Alive (forget s)
unfolding forget
forget-Alive s e v = ground arith

prepare_data-Alive : (s : Stream) (n : ℕ) → Alive s → Alive (prepare_data s n).1
unfolding prepare_data
prepare_data-Alive s n v = ground arith

outgoing_flags-Alive : (s : Stream) → Alive s → Alive (outgoing_flags s).1
unfolding outgoing_flags send_eof
outgoing_flags-Alive s v = ground arith

send_eof-Alive : (s : Stream) → s.flags.need_eof ≡ true → Alive s → Alive (send_eof s)
unfolding send_eof
send_eof-Alive s e v = ground arith

open_output-Alive : (s : Stream) → Alive s → Alive (released (open_output s))
unfolding open_output
open_output-Alive s v = outgoing_flags-Alive _ (prepare_data-Alive s max_data_frame_payload_size v)

window_output-Alive : (s : Stream) → Alive s → Alive (released (window_output s))
unfolding window_output
window_output-Alive s v = ground arith

reset_output-Alive :
    (s : Stream) (both : Bool)
    → (both ≡ true → s.flags.need_eof ≡ true)
    → Alive s
    → Alive (released (reset_output s both))
unfolding reset_output
reset_output-Alive s true h v =
    send_eof-Alive (record s { flags = record (s.flags) { need_reset = false } }) (h refl)
      (ground arith)
reset_output-Alive s false h v = ground arith

eof_output-Alive :
    (s : Stream) → s.flags.need_eof ≡ true → Alive s → Alive (released (eof_output s))
unfolding eof_output
eof_output-Alive s e v =
    let w = send_eof-Alive s e v in
    released-branch Alive (holds_code Code.eclosed s.write.err) _ _ (λ h. w) (λ h. w)

both_needs : (a b c : Bool) → ((a && b) && c) ≡ true → b ≡ true
both_needs a b c h = ground arith

right_needs : (a b : Bool) → (a && b) ≡ true → b ≡ true
right_needs a b h = ground arith

ctrl_round-Alive :
    (alias : Option GoError → Option GoError → Bool) (s : Stream)
    → Alive s
    → Alive (released (ctrl_round alias s))
unfolding ctrl_round
ctrl_round-Alive alias s v =
    let both =
      (s.write.buf.size == 0 && s.flags.need_eof) && alias s.write.err (eof_code s.read.err) in
    let eof_round = if s.write.buf.size == 0 && s.flags.need_eof then eof_output s else nothing s in
    let reset_round = if s.flags.need_reset then reset_output s both else eof_round in
    let window_round = if ltb 0 s.read.increment then window_output s else reset_round in
    released-branch Alive ((s.flags.need_open || s.flags.need_ack) && not s.flags.sent_eof)
      (open_output s) window_round (λ h. open_output-Alive s v)
      (λ h.
        released-branch Alive (ltb 0 s.read.increment) (window_output s) reset_round
          (λ h. window_output-Alive s v)
          (λ h.
            released-branch Alive s.flags.need_reset (reset_output s both) eof_round
              (λ h.
                reset_output-Alive s both
                  (both_needs (s.write.buf.size == 0) s.flags.need_eof
                    (alias s.write.err (eof_code s.read.err)))
                  v)
              (λ h.
                released-branch Alive (s.write.buf.size == 0 && s.flags.need_eof) (eof_output s)
                  (nothing s)
                  (λ h.
                    eof_output-Alive s (right_needs (s.write.buf.size == 0) s.flags.need_eof h) v)
                  (λ h. v))))

reschedule-Alive : (s : Stream) → Alive s → Alive (reschedule s)
unfolding reschedule
reschedule-Alive s v = ground arith

data_round-Alive : (s : Stream) → Alive s → Alive (released (data_round s))
unfolding data_round
data_round-Alive s v =
    let p = prepare_data s max_data_frame_payload_size in
    let f = outgoing_flags p.1 in
    let w = prepare_data-Alive s max_data_frame_payload_size v in
    released-branch Alive (ltb 0 (length p.0))
      (output (data_frame s.id f.0 p.0) (reschedule f.1) after_data) (nothing p.1)
      (λ h. reschedule-Alive f.1 (outgoing_flags-Alive p.1 w)) (λ h. w)

after_data-Alive : (s : Stream) → Alive s → Alive (after_data s)
unfolding after_data
after_data-Alive s v = ground arith

module _ (alias : Option GoError → Option GoError → Bool) where
  step-Alive : (s : Stream) (e : Event) → Alive s → Alive (step alias s e)
  unfolding step close_read_with close_write_with
  step-Alive s (data_in bytes flags) v = process_data-Alive s bytes flags v
  step-Alive s (reset_in flags e) v = process_reset-Alive s flags e v
  step-Alive s (window_in n) v = process_window-Alive s n v
  step-Alive s (settings_in d) v = change_write_window-Alive s d v
  step-Alive s peek_call v = (calls-Alive s 0 [] v).0
  step-Alive s (discard_call n) v = (calls-Alive s n [] v).1
  step-Alive s (read_call n) v = (calls-Alive s n [] v).2
  step-Alive s (write_call bytes) v = (calls-Alive s 0 bytes v).3
  step-Alive s (write_byte_call c) v = (calls-Alive s c [] v).4
  step-Alive s acknowledge_call v = (calls-Alive s 0 [] v).5
  step-Alive s (close_call e) v = close_with_error-Alive s e v
  step-Alive s (close_read_call e) v = set_read_error-Alive s (close_error e) v
  step-Alive s (close_write_call e) v = set_write_error-Alive s (close_error e) v
  step-Alive s ctrl_start v = only_if Alive (never_opened s) (λ e. forget-Alive s e v) v
  step-Alive s ctrl_turn v = ctrl_round-Alive alias s v
  step-Alive s data_turn v = data_round-Alive s v
  step-Alive s data_written v = after_data-Alive s v

  run-Alive : (events : List Event) (s : Stream) → Alive s → Alive (run alias s events)
  unfolding run
  run-Alive [] s v = v
  run-Alive (e ∷ rest) s v = run-Alive rest (step alias s e) (step-Alive s e v)

  new_stream-Alive : (id local remote : ℕ) → Alive (new_stream id local remote)
  unfolding new_stream
  new_stream-Alive id local remote = ground arith

  new_outgoing_stream-Alive : (id local remote : ℕ) → Alive (new_outgoing_stream id local remote)
  unfolding new_outgoing_stream
  new_outgoing_stream-Alive id local remote = ground arith

  -- Whatever frames, calls and rounds of the writer a stream sees, accepted or opened, in any order:
  -- each channel of a side is closed exactly when its side has ended and never twice, the stream's
  -- own channel exactly when both sides have, and a write side that has ended owes its EOF or has
  -- sent it, and not both.
  pub stream_lifecycle :
      (id local remote : ℕ) (events : List Event)
      → Alive (run alias (new_stream id local remote) events)
        × Alive (run alias (new_outgoing_stream id local remote) events)
  stream_lifecycle id local remote events = (
    run-Alive events (new_stream id local remote) (new_stream-Alive id local remote),
    run-Alive events (new_outgoing_stream id local remote)
        (new_outgoing_stream-Alive id local remote),
  )
