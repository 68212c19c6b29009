-- ===== src/Conn/Failure.antt =====
-- The failure of a connection: which frames bring it about, and what they leave alone.
use copper.Prelude.{
  ℕ, ◌+◌, ◌≡◌, refl, arith, List, [], ◌∷◌, ◌++◌, Bool, true, false, ◌&&◌, not, inl, inr, Option,
  none, some, Bool-cases, Option-cases,
}
use copper.Errors.{GoError, error_code}
use copper.Errors.Code
use copper.Frame.Flag
use copper.Frame.{
  has, Frame, ping_frame, data_frame, reset_frame, window_frame, settings_frame, unknown_frame,
  Setting, value, setting_stream_window, setting_inactivity_milliseconds,
}
use copper.Outgoing
use copper.Stream.{
  Stream, Request, ctrl, bulk, remove, is_none, one_if, new_stream, process_data, process_reset,
  process_window, close_with_error,
}
use copper.StreamIds.{Live, find}
use copper.Conn.{
  Conn, perform_one, perform, update, close_streams, fail_streams, close_with, close, failure_of,
}
use copper.Conn.Dispatch.{
  register, deliver, accept, open_incoming, process_data_with, process_data_frame,
  process_reset_with, process_reset_frame, process_window_with, process_window_frame,
  process_ping_frame, set_window, set_timeout, and_then, handle_settings, process_settings_frame,
  dispatch, conclude, process_frame,
}

-- A setting that is found is reported as missing, and so is one that is not.
value_missing : (settings : List Setting) (id : ℕ) → (value settings id).1 ≡ false
unfolding value
value_missing [] id = refl
value_missing (s ∷ rest) id = ground (arith, value_missing rest id)

missing_window : (c : Conn) (r : ℕ × Bool) → r.1 ≡ false → set_window c r ≡ (none, c)
unfolding set_window
missing_window c (n, false) e = refl
missing_window c (n, true) e = ground arith

missing_timeout : (c : Conn) (r : ℕ × Bool) → r.1 ≡ false → set_timeout c r ≡ (none, c)
unfolding set_timeout
missing_timeout c (n, false) e = refl
missing_timeout c (n, true) e = ground arith

-- A SETTINGS frame, whatever settings it holds, valid ones or not, is acknowledged and changes
-- nothing else: the peer's window and timeout are never applied.
pub settings_are_ignored :
    (c : Conn) (settings : List Setting)
    → handle_settings c settings
      ≡ (none, record c { outgoing = Outgoing.add_settings_ack c.outgoing })
unfolding handle_settings and_then
settings_are_ignored c settings =
    rw
      (
        missing_window c (value settings setting_stream_window)
            (value_missing settings setting_stream_window),
        missing_timeout c (value settings setting_inactivity_milliseconds)
            (value_missing settings setting_inactivity_milliseconds),
      )
      refl

-- The failure, and the count of the times that its channel was closed.
pub record Same (c c' : Conn) : Type 0 where
  pub failure : c'.failure ≡ c.failure
  pub closed : c'.closed ≡ c.closed

perform-Same : (c : Conn) (n id : ℕ) (requests : List Request) → Same c (perform c n id requests)
unfolding perform perform_one
perform-Same c n id [] = ground arith
perform-Same c n id (ctrl ∷ rest) = ground (arith, perform-Same (perform_one c n id ctrl) n id rest)
perform-Same c n id (bulk ∷ rest) = ground (arith, perform-Same (perform_one c n id bulk) n id rest)
perform-Same c n id (remove ∷ rest) =
    ground (arith, perform-Same (perform_one c n id remove) n id rest)

same_after : (a b c : Conn) → Same a b → Same b c → Same a c
same_after a b c p q = ground arith

update-Same : (c : Conn) (n : ℕ) (s : Stream) → Same c (update c n s)
unfolding update
update-Same c n s =
    same_after c _ _ (record { failure = refl; closed = refl }) (perform-Same _ n s.id s.requests)

register-Same : (c : Conn) (s : Stream) → Same c (register c s).1
unfolding register
register-Same c s =
    same_after c _ _ (record { failure = refl; closed = refl }) (update-Same _ c.fresh s)

deliver-Same : (c : Conn) (n : ℕ) (bytes : List ℕ) (flags : ℕ) → Same c (deliver c n bytes flags).1
unfolding deliver
deliver-Same c n bytes flags = update-Same c n (process_data (c.table n) bytes flags).1

same : (c : Conn) → Same c c
same c = record { failure = refl; closed = refl }

accept-Same :
    (c : Conn) (n : ℕ) (bytes : List ℕ) (flags : ℕ) (e : Option GoError)
    → Same c (accept c n bytes flags e).1
unfolding accept
accept-Same c n bytes flags (some e) = update-Same c n (close_with_error (c.table n) (some e))
accept-Same c n bytes flags none =
    let shut =
      update-Same c n (close_with_error (c.table n) (some (error_code Code.econnshutdown))) in
    let go = deliver-Same (record c { handled = c.handled ++ (n ∷ []) }) n bytes flags in
    ground arith

open_incoming-Same :
    (c : Conn) (id : ℕ) (bytes : List ℕ) (flags : ℕ) → Same c (open_incoming c id bytes flags).1
unfolding open_incoming
open_incoming-Same c id bytes flags =
    let s = new_stream id c.settings.local_window c.settings.remote_window in
    let c' = (register c s).1 in
    let p = register-Same c s in
    let q = accept-Same c' c.fresh bytes flags c.failure in ground arith

process_data_with-Same :
    (c : Conn) (id flags : ℕ) (bytes : List ℕ) (n : Option ℕ)
    → Same c (process_data_with c id flags bytes n).1
unfolding process_data_with
process_data_with-Same c id flags bytes none =
    let p = open_incoming-Same c id bytes flags in ground arith
process_data_with-Same c id flags bytes (some n) =
    let p = deliver-Same c n bytes flags in ground arith

pub process_data_frame-Same :
    (c : Conn) (id flags : ℕ) (bytes : List ℕ) → Same c (process_data_frame c id flags bytes).1
unfolding process_data_frame
process_data_frame-Same c id flags bytes =
    let p = process_data_with-Same c id flags bytes (find c.streams.live id) in ground arith

process_reset_with-Same :
    (c : Conn) (flags : ℕ) (e : GoError) (n : Option ℕ) → Same c (process_reset_with c flags e n)
unfolding process_reset_with
process_reset_with-Same c flags e none = same c
process_reset_with-Same c flags e (some n) =
    let p = update-Same c n (process_reset (c.table n) flags e) in ground arith

process_reset_frame-Same :
    (c : Conn) (id flags : ℕ) (e : GoError) → Same c (process_reset_frame c id flags e).1
unfolding process_reset_frame
process_reset_frame-Same c id flags e =
    let p = process_reset_with-Same c flags e (find c.streams.live id) in ground arith

process_window_with-Same : (c : Conn) (n : ℕ) (s : Option ℕ) → Same c (process_window_with c n s).1
unfolding process_window_with
process_window_with-Same c n none = same c
process_window_with-Same c n (some s) = update-Same c s (process_window (c.table s) n).1

process_ping_frame-Same :
    (c : Conn) (flags : ℕ) (bytes : List ℕ) → Same c (process_ping_frame c flags bytes)
unfolding process_ping_frame
process_ping_frame-Same c flags bytes = ground arith

process_settings_frame-Same :
    (c : Conn) (flags : ℕ) (settings : List Setting)
    → Same c (process_settings_frame c flags settings).1
unfolding process_settings_frame
process_settings_frame-Same c flags settings =
    let p = settings_are_ignored c settings in
    elim (Bool-cases (has flags Flag.settings_ack)) [
      | inl e ↦ rw e (record { failure = refl; closed = refl })
      | inr e ↦ rw (e, p) (record { failure = refl; closed = refl })
    ]

dispatch-Same : (c : Conn) (f : Frame) → Same c (dispatch c f).1
unfolding dispatch process_window_frame
dispatch-Same c (ping_frame flags bytes) = process_ping_frame-Same c flags bytes
dispatch-Same c (data_frame id flags bytes) = process_data_frame-Same c id flags bytes
dispatch-Same c (reset_frame id flags e) = process_reset_frame-Same c id flags e
dispatch-Same c (window_frame id flags n) = process_window_with-Same c n (find c.streams.live id)
dispatch-Same c (settings_frame flags settings) = process_settings_frame-Same c flags settings
dispatch-Same c (unknown_frame type flags id payload) = same c

close_streams-Same : (c : Conn) (live : Live) (e : GoError) → Same c (close_streams c live e)
unfolding close_streams
close_streams-Same c [] e = same c
close_streams-Same c ((id, n) ∷ rest) e =
    let s = close_with_error (c.table n) (some e) in
    same_after c (update c n s) (close_streams (update c n s) rest e) (update-Same c n s)
      (close_streams-Same (update c n s) rest e)

fail_streams-Same : (c : Conn) (e : GoError) → Same c (fail_streams c e)
unfolding fail_streams
fail_streams-Same c e =
    let p =
      close_streams-Same (record c { streams = record (c.streams) { err = some e } }) c.streams.live
        e in
    ground arith

module _ (timeout : GoError → Bool) where
  -- A failure that is known stays, else the connection fails with the error given; the channel that
  -- tells of it is closed in the latter case only.
  pub record Closes (c : Conn) (e : GoError) (c' : Conn) : Type 0 where
    pub failure : c'.failure ≡ elim c.failure [ none ↦ some e | some previous ↦ some previous ]
    pub closed : c'.closed ≡ c.closed + one_if (is_none c.failure)

  close_with-Closes :
      (c : Conn) (e : GoError) (previous : Option GoError)
      → c.failure ≡ previous
      → Closes c e (close_with timeout c e previous).1
  unfolding close_with
  close_with-Closes c e (some previous) p = ground arith
  close_with-Closes c e none p =
      let q =
        fail_streams-Same
          (record c {
            failure = some e;
            closed = c.closed + 1;
            outgoing = Outgoing.clear_ping_queue (Outgoing.fail c.outgoing e);
          })
          e in
      ground arith

  conclude-outcome :
      (c : Conn) (r : Option GoError × Conn)
      → Same c r.1
      → (is_none (conclude timeout r).1.failure ≡ (is_none c.failure && (conclude timeout r).0))
        × ((conclude timeout r).1.failure
            ≡ elim c.failure [ none ↦ (conclude timeout r).1.failure | some e ↦ some e ])
        × ((conclude timeout r).1.closed
            ≡ c.closed + one_if (is_none c.failure && not (conclude timeout r).0))
  unfolding conclude close
  conclude-outcome c (none, c') p = elim (Option-cases c.failure) [
    | inl h ↦ ground arith
    | inr (x, h) ↦ ground arith
  ]
  conclude-outcome c (some e, c') p =
      let q = close_with-Closes c' (failure_of timeout (some e)) c'.failure refl in
      elim (Option-cases c.failure) [ inl h ↦ ground arith | inr (x, h) ↦ ground arith ]

  -- A connection fails by a frame exactly when the frame is refused. The first failure stays, and the
  -- channel that tells of it is closed only then, so it is never closed a second time.
  pub process_frame_outcome :
      (c : Conn) (f : Frame)
      → (is_none (process_frame timeout c f).1.failure
          ≡ (is_none c.failure && (process_frame timeout c f).0))
        × ((process_frame timeout c f).1.failure
            ≡ elim c.failure [ none ↦ (process_frame timeout c f).1.failure | some e ↦ some e ])
        × ((process_frame timeout c f).1.closed
            ≡ c.closed + one_if (is_none c.failure && not (process_frame timeout c f).0))
  unfolding process_frame
  process_frame_outcome c f = conclude-outcome c (dispatch c f) (dispatch-Same c f)
