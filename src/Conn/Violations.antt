-- ===== src/Conn/Violations.antt =====
-- A DATA frame that was parsed, and that the connection refuses: the errors of `processDataFrame`
-- (rawconn.go, rawstream.go), how they fail the connection, and what the writer (rawconn_outgoing.go)
-- then tells the peer by `WriteReset` (frame.go).
use copper.Prelude.{
  ℕ, ◌+◌, ◌≡◌, refl, ◌∙◌, ap, arith, List, ◌∷◌, [], ◌++◌, length, Bool, true, false, Option, none,
  some, if◌then◌else◌, append-nil, sym,
}
use copper.Errors.{
  GoError, error_code, copper_error, copper_error_value, timeout_error, eof, unexpected_eof,
  other_error,
}
use copper.Errors.Code
use copper.Frame.{has, data_frame}
use copper.Frame.Flag
use copper.Frame.FrameType
use copper.Frame.Wire.{put_uint32, header_bytes}
use copper.Frame.Writer.{reset_error, write_reset, write_header, write}
use copper.Outgoing.{
  Outgoing, send_error, choose, choose_with, fail, fail_with, wakeup, clear_ping_queue,
  shutdown_error,
}
use copper.Stream.{Stream, process_data, accept_data, receive_ack, new_stream}
use copper.StreamIds.{find}
use copper.Conn.{Conn, close, close_with}
use copper.Conn.Pending.{process_data_frame-err, fail_streams-err}
use copper.Conn.Failure.{process_data_frame-Same}
use copper.Conn.Dispatch.{
  register, deliver, accept, open_incoming, process_data_with, process_data_frame, dispatch,
  conclude, process_frame,
}

-- No error, or a value of `copperError` whose message is not modelled.
abbrev is_value : Option GoError → Bool
is_value none = true
is_value (some (copper_error_value code [])) = true
is_value (some _) = false

accept_data-is_value :
    (s : Stream) (bytes : List ℕ) (flags : ℕ) → is_value (accept_data s bytes flags).0 ≡ true
unfolding accept_data
accept_data-is_value s bytes flags = ground arith

process_data-is_value :
    (s : Stream) (bytes : List ℕ) (flags : ℕ) → is_value (process_data s bytes flags).0 ≡ true
unfolding process_data
process_data-is_value s bytes flags =
    let p =
      accept_data-is_value (if has flags Flag.data_ack then receive_ack s else s) bytes flags in
    ground arith

deliver-is_value :
    (c : Conn) (n : ℕ) (bytes : List ℕ) (flags : ℕ) → is_value (deliver c n bytes flags).0 ≡ true
unfolding deliver
deliver-is_value c n bytes flags = process_data-is_value (c.table n) bytes flags

accept-is_value :
    (c : Conn) (n : ℕ) (bytes : List ℕ) (flags : ℕ) (e : Option GoError)
    → is_value (accept c n bytes flags e).0 ≡ true
unfolding accept
accept-is_value c n bytes flags (some e) = refl
accept-is_value c n bytes flags none =
    let p = deliver-is_value (record c { handled = c.handled ++ (n ∷ []) }) n bytes flags in
    ground arith

open_incoming-is_value :
    (c : Conn) (id : ℕ) (bytes : List ℕ) (flags : ℕ)
    → is_value (open_incoming c id bytes flags).0 ≡ true
unfolding open_incoming
open_incoming-is_value c id bytes flags =
    let r = register c (new_stream id c.settings.local_window c.settings.remote_window) in
    let p = accept-is_value r.1 r.0 bytes flags c.failure in ground arith

process_data_with-is_value :
    (c : Conn) (id flags : ℕ) (bytes : List ℕ) (n : Option ℕ)
    → is_value (process_data_with c id flags bytes n).0 ≡ true
unfolding process_data_with
process_data_with-is_value c id flags bytes none =
    let p = open_incoming-is_value c id bytes flags in ground arith
process_data_with-is_value c id flags bytes (some n) =
    let p = deliver-is_value c n bytes flags in ground arith

process_data_frame-is_value :
    (c : Conn) (id flags : ℕ) (bytes : List ℕ)
    → is_value (process_data_frame c id flags bytes).0 ≡ true
unfolding process_data_frame
process_data_frame-is_value c id flags bytes =
    let p = process_data_with-is_value c id flags bytes (find c.streams.live id) in ground arith

-- What the writer of `o` sends next: the connection's error, in a RESET frame of stream 0 with the
-- code `code`, after which it ends.
abbrev pub Tells : Outgoing → ℕ → Type 0
Tells o code =
    (e : GoError) × ((choose o).0 ≡ send_error e)
    × (message : List ℕ) × ((out : List ℕ)
        → write_reset 0 0 e (record { out = out; outcomes = [] }) ≡ (
          none,
          record {
            out =
                out
                ++ header_bytes FrameType.reset 0 (4 + length message) 0
                ++ put_uint32 code
                ++ message;
            outcomes = [];
          },
        ))

told_value :
    (o : Outgoing) (code : ℕ) → o.err ≡ some (copper_error_value code []) → Tells o Code.einternal
unfolding choose choose_with write_reset reset_error write_header write
told_value o code h = (
  copper_error_value code [],
  rw h refl,
  [],
  λ out. ap (λ z. (none, record { out = z; outcomes = [] })) (sym (append-nil _)),
)

module _ (timeout : GoError → Bool)
    (no_timeout : (code : ℕ) (m : List ℕ) → timeout (copper_error_value code m) ≡ false) where
  close_with-err :
      (c : Conn) (e : GoError)
      → c.outgoing.err ≡ none
      → (close_with timeout c e none).1.outgoing.err ≡ some (shutdown_error e)
  unfolding close_with fail fail_with wakeup clear_ping_queue
  close_with-err c e o =
      let failed : (clear_ping_queue (fail c.outgoing e)).err ≡ some (shutdown_error e) =
        rw o refl in
      fail_streams-err
        (record c {
          failure = some e;
          closed = c.closed + 1;
          outgoing = clear_ping_queue (fail c.outgoing e);
        })
        e
      ∙ failed

  closed_value :
      (c : Conn) (code : ℕ)
      → c.failure ≡ none
      → c.outgoing.err ≡ none
      → (close timeout c (some (copper_error_value code []))).1.outgoing.err
        ≡ some (copper_error_value code [])
  unfolding close
  closed_value c code f o =
      rw (f, no_timeout code []) (close_with-err c (copper_error_value code []) o)

  conclude-Tells :
      (r : Option GoError × Conn)
      → is_value r.0 ≡ true
      → r.1.failure ≡ none
      → r.1.outgoing.err ≡ none
      → (conclude timeout r).0 ≡ false
      → Tells (conclude timeout r).1.outgoing Code.einternal
  unfolding conclude
  conclude-Tells (none, c) v f o h = absurd cc
  conclude-Tells (some (copper_error_value code []), c) v f o h =
      told_value _ code (closed_value c code f o)
  conclude-Tells (some (copper_error_value code (m ∷ ms)), c) v f o h = absurd cc
  conclude-Tells (some (error_code code), c) v f o h = absurd cc
  conclude-Tells (some (copper_error code m), c) v f o h = absurd cc
  conclude-Tells (some timeout_error, c) v f o h = absurd cc
  conclude-Tells (some eof, c) v f o h = absurd cc
  conclude-Tells (some unexpected_eof, c) v f o h = absurd cc
  conclude-Tells (some (other_error m), c) v f o h = absurd cc

  -- On a connection that has not failed and has no error to send, if `processFrame` refuses a DATA
  -- frame, which the parser has let through, then the writer, whose calls of `Write` succeed, sends a
  -- RESET of stream 0 next, with the code EINTERNAL, and never the code that the handler put into its
  -- error; `isTimeout` is assumed to be false for a `copperError` value, which is no `net.Error`.
  pub violations_are_internal :
      (c : Conn) (id flags : ℕ) (bytes : List ℕ)
      → c.failure ≡ none
      → c.outgoing.err ≡ none
      → (process_frame timeout c (data_frame id flags bytes)).0 ≡ false
      → Tells (process_frame timeout c (data_frame id flags bytes)).1.outgoing Code.einternal
  unfolding process_frame dispatch
  violations_are_internal c id flags bytes f o h =
      conclude-Tells (process_data_frame c id flags bytes)
        (process_data_frame-is_value c id flags bytes)
        ((process_data_frame-Same c id flags bytes).failure ∙ f)
        (process_data_frame-err c id flags bytes ∙ o) h
