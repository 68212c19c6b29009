-- ===== src/StreamLaws/Credit.antt =====
-- Flow control on the receiving side: what the peer may still send, what is buffered and what is to
-- be given back are within the window.
use copper.Prelude.{
  ℕ, ◌+◌, ◌≤◌, ◌<◌, ◌^◌, arith, List, [], ◌∷◌, length, length-append, length-drop, length-take, ltb,
  Bool, true, false, Option, if◌then◌else◌, ◌==◌, ◌&&◌, ◌||◌, not, ap,
}
use copper.Prelude.Int.{ℤ, pos}
use copper.Errors.{GoError}
use copper.Buffer
use copper.Buffer.{Buffer}
use copper.Buffer.Valid
use copper.Buffer.Valid.{contents, length-contents}
use copper.Buffer.Write.{contents-write}
use copper.Buffer.Read.{contents-read, contents-discard}
use copper.Buffer.Peek.{contents-peek}
use copper.StreamLaws.Events.{
  Event, data_in, reset_in, window_in, settings_in, peek_call, discard_call, read_call, write_call,
  write_byte_call, acknowledge_call, close_call, close_read_call, close_write_call, ctrl_start,
  ctrl_turn, data_turn, data_written, settled, released, step, run,
}
use copper.StreamLaws.Keeping.{process_data-keeps, process_reset-keeps, released-branch, choice}
use copper.Stream.Api.{
  peek, discard, read, write_some, write_byte, acknowledge, close_read_with, close_write_with,
  consumed,
}
use copper.Stream.Output.{
  nothing, prepare_data, outgoing_flags, open_output, window_output, reset_output, eof_output,
  ctrl_round, data_round, never_opened, forget, after_data, send_eof, reschedule, eof_code,
}
use copper.Stream.{
  Stream, new_stream, set_read_error, set_write_error, close_with_error, receive_ack, receive_data,
  receive_eof, reset_write_side, clear_write_buffer, change_write_window, process_window,
  close_error,
}

-- A valid read buffer, and the sum that is within the window.
pub record Within (window : ℕ) (s : Stream) : Type 0 where
  pub valid : Valid.IsValid s.read.buf
  pub credit : s.read.left + s.read.buf.size + s.read.increment ≤ window

module _ (window : ℕ) (small : window < 2 ^ 31) where
  set_read_error-Within :
      (s : Stream) (e : GoError) → Within window s → Within window (set_read_error s e)
  unfolding set_read_error
  set_read_error-Within s e v = ground (arith, v.credit)

  receive_eof-Within :
      (s : Stream) (e : GoError) → Within window s → Within window (receive_eof s e)
  unfolding receive_eof set_read_error
  receive_eof-Within s e v = ground (arith, v.credit)

  receive_ack-Within : (s : Stream) → Within window s → Within window (receive_ack s)
  unfolding receive_ack
  receive_ack-Within s v = ground (arith, v.credit)

  receive_data-Within :
      (s : Stream) (bytes : List ℕ)
      → 0 < length bytes
      → length bytes ≤ s.read.left
      → Within window s
      → Within window (receive_data s bytes)
  unfolding receive_data
  receive_data-Within s bytes some_bytes room v =
      let (e, w) = contents-write s.read.buf bytes v.valid (omega (arith, v.credit, small)) in
      let l = ap (λ l. length l) e in
      ground (
        arith,
        length-contents s.read.buf,
        length-contents (Buffer.write s.read.buf bytes),
        length-append (contents s.read.buf) bytes,
      )

  reset_write_side-Within :
      (s : Stream) (e : GoError) → Within window s → Within window (reset_write_side s e)
  unfolding reset_write_side clear_write_buffer set_write_error
  reset_write_side-Within s e v = ground (arith, v.credit)

  peek-Within : (s : Stream) → Within window s → Within window (settled s (peek s))
  unfolding peek
  peek-Within s v =
      let (all, same, w) = contents-peek s.read.buf v.valid in
      let l = ap (λ l. length l) same in
      ground
        (arith, length-contents s.read.buf, length-contents (Buffer.peek s.read.buf).1, v.credit)

  discard-Within : (s : Stream) (n : ℕ) → Within window s → Within window (discard s n).1
  unfolding discard consumed
  discard-Within s n v =
      let (k, rest, w) = contents-discard s.read.buf n v.valid in
      let l = ap (λ l. length l) rest in
      ground (
        arith,
        length-contents s.read.buf,
        length-contents (Buffer.discard s.read.buf n).1,
        length-drop n (contents s.read.buf),
        v.credit,
      )

  read-Within : (s : Stream) (n : ℕ) → Within window s → Within window (settled s (read s n))
  unfolding read consumed
  read-Within s n v =
      let (got, rest, w) = contents-read s.read.buf n v.valid in
      let l = ap (λ l. length l) rest in
      let g = ap (λ l. length l) got in
      ground (
        arith,
        length-contents s.read.buf,
        length-contents (Buffer.read s.read.buf n).1,
        length-drop n (contents s.read.buf),
        length-take n (contents s.read.buf),
        v.credit,
      )

  write_some-Within :
      (s : Stream) (bytes : List ℕ)
      → Within window s
      → Within window (settled s (write_some s bytes))
  unfolding write_some
  write_some-Within s bytes v = ground (arith, v.credit)

  write_byte-Within :
      (s : Stream) (c : ℕ) → Within window s → Within window (settled s (write_byte s c))
  unfolding write_byte
  write_byte-Within s c v = ground (arith, v.credit)

  acknowledge-Within : (s : Stream) → Within window s → Within window (acknowledge s).1
  unfolding acknowledge
  acknowledge-Within s v = ground (arith, v.credit)

  set_write_error-Within :
      (s : Stream) (e : GoError) → Within window s → Within window (set_write_error s e)
  unfolding set_write_error
  set_write_error-Within s e v = ground (arith, v.credit)

  close_with_error-Within :
      (s : Stream) (e : Option GoError) → Within window s → Within window (close_with_error s e)
  unfolding close_with_error
  close_with_error-Within s e v = grind (arith, set_write_error-Within, set_read_error-Within)

  change_write_window-Within :
      (s : Stream) (d : ℤ) → Within window s → Within window (change_write_window s d)
  unfolding change_write_window
  change_write_window-Within s d v = ground (arith, v.credit)

  process_window-Within :
      (s : Stream) (n : ℕ) → Within window s → Within window (process_window s n).1
  unfolding process_window
  process_window-Within s n v = ground (arith, change_write_window-Within s (pos n) v)

  forget-Within : (s : Stream) → Within window s → Within window (forget s)
  unfolding forget
  forget-Within s v = ground (arith, v.credit)

  after_data-Within : (s : Stream) → Within window s → Within window (after_data s)
  unfolding after_data
  after_data-Within s v = ground (arith, v.credit)

  open_output-Within : (s : Stream) → Within window s → Within window (released (open_output s))
  unfolding open_output prepare_data outgoing_flags send_eof
  open_output-Within s v = ground (arith, v.credit)

  window_output-Within : (s : Stream) → Within window s → Within window (released (window_output s))
  unfolding window_output
  window_output-Within s v = ground (arith, v.credit)

  reset_output-Within :
      (s : Stream) (both : Bool) → Within window s → Within window (released (reset_output s both))
  unfolding reset_output send_eof
  reset_output-Within s true v = ground (arith, v.credit)
  reset_output-Within s false v = ground (arith, v.credit)

  eof_output-Within : (s : Stream) → Within window s → Within window (released (eof_output s))
  unfolding eof_output send_eof
  eof_output-Within s v = ground (arith, v.credit)

  data_round-Within : (s : Stream) → Within window s → Within window (released (data_round s))
  unfolding data_round prepare_data outgoing_flags send_eof reschedule
  data_round-Within s v = ground (arith, v.credit)

  module _ (alias : Option GoError → Option GoError → Bool) where
    ctrl_round-Within :
        (s : Stream) → Within window s → Within window (released (ctrl_round alias s))
    unfolding ctrl_round
    ctrl_round-Within s v =
        let both =
          (s.write.buf.size == 0 && s.flags.need_eof) && alias s.write.err (eof_code s.read.err) in
        let eof_round =
          if s.write.buf.size == 0 && s.flags.need_eof then eof_output s else nothing s in
        let reset_round = if s.flags.need_reset then reset_output s both else eof_round in
        let window_round = if ltb 0 s.read.increment then window_output s else reset_round in
        let pick = released-branch (Within window) in
        pick ((s.flags.need_open || s.flags.need_ack) && not s.flags.sent_eof) (open_output s)
          window_round (λ h. open_output-Within s v)
          (λ h.
            pick (ltb 0 s.read.increment) (window_output s) reset_round
              (λ h. window_output-Within s v)
              (λ h.
                pick s.flags.need_reset (reset_output s both) eof_round
                  (λ h. reset_output-Within s both v)
                  (λ h.
                    pick (s.write.buf.size == 0 && s.flags.need_eof) (eof_output s) (nothing s)
                      (λ h. eof_output-Within s v) (λ h. v))))

    step-Within : (s : Stream) (e : Event) → Within window s → Within window (step alias s e)
    unfolding step close_read_with close_write_with
    step-Within s (data_in bytes flags) v =
        process_data-keeps (Within window) receive_eof-Within receive_ack-Within receive_data-Within
          s bytes flags v
    step-Within s (reset_in flags e) v =
        process_reset-keeps (Within window) receive_eof-Within reset_write_side-Within s flags e v
    step-Within s (window_in n) v = process_window-Within s n v
    step-Within s (settings_in d) v = change_write_window-Within s d v
    step-Within s peek_call v = peek-Within s v
    step-Within s (discard_call n) v = discard-Within s n v
    step-Within s (read_call n) v = read-Within s n v
    step-Within s (write_call bytes) v = write_some-Within s bytes v
    step-Within s (write_byte_call c) v = write_byte-Within s c v
    step-Within s acknowledge_call v = acknowledge-Within s v
    step-Within s (close_call e) v = close_with_error-Within s e v
    step-Within s (close_read_call e) v = set_read_error-Within s (close_error e) v
    step-Within s (close_write_call e) v = set_write_error-Within s (close_error e) v
    step-Within s ctrl_start v = choice (Within window) (never_opened s) (forget-Within s v) v
    step-Within s ctrl_turn v = ctrl_round-Within s v
    step-Within s data_turn v = data_round-Within s v
    step-Within s data_written v = after_data-Within s v

    run-Within :
        (events : List Event) (s : Stream) → Within window s → Within window (run alias s events)
    unfolding run
    run-Within [] s v = v
    run-Within (e ∷ rest) s v = run-Within rest (step alias s e) (step-Within s e v)

    new_stream-Within : (id remote : ℕ) → Within window (new_stream id window remote)
    unfolding new_stream
    new_stream-Within id remote = record {
      valid = record { fits = omega arith; start = omega arith };
      credit = omega arith;
    }

    -- Whatever frames, calls and rounds of the writer a stream sees in any order, its read buffer is
    -- valid, and the bytes in it, those that the peer may still send and those of the next WINDOW
    -- frame are together at most the window that the stream was given, below 2^31.
    pub receive_window-Within :
        (id remote : ℕ) (events : List Event)
        → Within window (run alias (new_stream id window remote) events)
    receive_window-Within id remote events =
        run-Within events (new_stream id window remote) (new_stream-Within id remote)
