-- ===== src/Conn.antt =====
-- A connection (rawconn.go), its parts, and its failure. The objects `*rawStream` stand in a table,
-- by the number that is a stream's identity.
pub mod Dispatch
pub mod Failure
pub mod Pending
pub mod Violations
use copper.Prelude.{
  ℕ, ◌+◌, List, [], ◌∷◌, ◌++◌, length, Bool, true, false, ◌==◌, ◌&&◌, ◌||◌, not, ltb, if◌then◌else◌,
  Option, none, some,
}
use copper.Prelude.Int.{ℤ, sub_ℕ}
use copper.Errors.{GoError, Result, ok, err, error_code, copper_error, copper_error_value}
use copper.Errors.Code
use copper.Frame.{
  Frame, ping_frame, data_frame, reset_frame, window_frame, settings_frame, unknown_frame, Setting,
  has, value, setting_stream_window, setting_inactivity_milliseconds, min_window_size,
  max_window_size,
}
use copper.Frame.Flag
use copper.Outgoing
use copper.Outgoing.{Outgoing}
use copper.Pings
use copper.Pings.{Pings, Called}
use copper.Settings
use copper.Settings.{Settings}
use copper.Stream.{
  Stream, Request, ctrl, bulk, remove, new_stream, new_outgoing_stream, process_data, process_reset,
  process_window, change_write_window, close_with_error, is_none, stream_error,
}
use copper.StreamIds
use copper.StreamIds.{Streams, Live, find, is_owned_id, allocate}

-- `closed` counts the times that `closedchan` was closed, `handled` lists the streams that a handler
-- was started for, `calls` the calls of callbacks. `shutdown` says that `shutdownchan` is there.
pub record Conn : Type 0 where
  pub failure : Option GoError
  pub closed : ℕ
  pub shutdown : Bool
  pub pings : Pings
  pub streams : Streams
  pub settings : Settings
  pub outgoing : Outgoing
  pub table : ℕ → Stream
  pub fresh : ℕ
  pub handled : List ℕ
  pub calls : List Called

-- The call of a stream on the connection's parts.
unfoldable pub perform_one : Conn → ℕ → ℕ → Request → Conn
perform_one c n id ctrl = record c { outgoing = Outgoing.add_ctrl c.outgoing n }
perform_one c n id bulk = record c { outgoing = Outgoing.add_data c.outgoing n }
perform_one c n id remove = record c { streams = StreamIds.remove c.streams id n }

unfoldable pub perform : Conn → ℕ → ℕ → List Request → Conn
unfolding perform_one
perform c n id [] = c
perform c n id (r ∷ rest) = perform (perform_one c n id r) n id rest

-- Stream `n` becomes `s`, whose calls are carried out.
unfoldable pub update : Conn → ℕ → Stream → Conn
unfolding perform
update c n s =
    perform (record c { table = λ m. if m == n then record s { requests = [] } else c.table m }) n
      s.id s.requests

-- `changeWriteWindowLocked` and `streams.failLocked`, over the live streams.
unfoldable pub change_windows : Conn → Live → ℤ → Conn
unfolding update
change_windows c [] diff = c
change_windows c ((id, n) ∷ rest) diff =
    change_windows (update c n (change_write_window (c.table n) diff)) rest diff

unfoldable pub close_streams : Conn → Live → GoError → Conn
unfolding update
close_streams c [] e = c
close_streams c ((id, n) ∷ rest) e =
    close_streams (update c n (close_with_error (c.table n) (some e))) rest e

unfoldable pub fail_streams : Conn → GoError → Conn
unfolding close_streams
fail_streams c e =
    if is_none c.streams.err
    then close_streams (record c { streams = record (c.streams) { err = some e } }) c.streams.live e
    else c

-- `timeout` is `isTimeout`, which asks the error itself.
module _ (timeout : GoError → Bool) where
  -- The error that a connection is closed with.
  abbrev pub failure_of : Option GoError → GoError
  failure_of none = error_code Code.econnclosed
  failure_of (some e) = if timeout e then copper_error Code.econntimeout [] else e

  -- `closeWithError`, by the failure that is known; it returns that one.
  unfoldable pub close_with : Conn → GoError → Option GoError → Option GoError × Conn
  unfolding fail_streams
  close_with c e (some previous) = (some previous, c)
  close_with c e none = (
    none,
    fail_streams
        (record c {
          failure = some e;
          closed = c.closed + 1;
          outgoing = Outgoing.clear_ping_queue (Outgoing.fail c.outgoing e);
        })
        e,
  )

  unfoldable pub close : Conn → Option GoError → Option GoError × Conn
  unfolding close_with
  close c e = close_with c (failure_of e) c.failure
