-- ===== src/Conn/Dispatch.antt =====
-- What a frame that was read does to a connection: `processFrame` and its handlers (rawconn.go),
-- `handleSettings` (rawconn_settings.go), and `NewStream`.
use copper.Prelude.{
  ℕ, ◌+◌, List, [], ◌∷◌, ◌++◌, length, Bool, true, false, ◌==◌, ◌||◌, not, ltb, if◌then◌else◌,
  Option, none, some,
}
use copper.Prelude.Int.{sub_ℕ}
use copper.Errors.{GoError, Result, ok, err, error_code}
use copper.Errors.Code
use copper.Frame.{
  Frame, ping_frame, data_frame, reset_frame, window_frame, settings_frame, unknown_frame, Setting,
  has, value, setting_stream_window, setting_inactivity_milliseconds, min_window_size,
  max_window_size,
}
use copper.Frame.Flag
use copper.Outgoing
use copper.Outgoing.{Outgoing}
use copper.Pings
use copper.Pings.{Pings, Called}
use copper.Settings
use copper.Settings.{Settings}
use copper.Stream.{
  Stream, new_stream, new_outgoing_stream, process_data, process_reset, process_window,
  close_with_error, is_none, stream_error,
}
use copper.StreamIds
use copper.StreamIds.{Streams, Live, find, is_owned_id, allocate}
use copper.Conn.{Conn, update, change_windows, close}

-- `newStream` and its registration, as identity `fresh`.
unfoldable pub register : Conn → Stream → ℕ × Conn
unfolding update
register c s = (
  c.fresh,
  update (record c { fresh = c.fresh + 1; streams = StreamIds.add c.streams s.id c.fresh }) c.fresh
      s,
)

-- `NewStream`
unfoldable pub open_stream_with : Conn → Result ℕ × Streams → Result ℕ × Conn
unfolding register
open_stream_with c (err e, streams) = (err e, record c { streams = streams })
open_stream_with c (ok id, streams) =
    let (n, c') =
      register (record c { streams = streams })
        (new_outgoing_stream id c.settings.local_window c.settings.remote_window) in
    (ok n, c')

unfoldable pub open_stream : Conn → Result ℕ × Conn
unfolding open_stream_with
open_stream c = open_stream_with c (allocate c.streams)

-- `processPingFrame`
unfoldable pub process_ping_frame : Conn → ℕ → List ℕ → Conn
process_ping_frame c flags bytes =
    if has flags Flag.ping_ack
    then (let (calls, pings) = Pings.handle_ack c.pings bytes in
        record c { pings = pings; calls = c.calls ++ calls })
    else record c { outgoing = Pings.handle_ping c.outgoing bytes }

-- `stream.processDataFrame(frame)`
unfoldable pub deliver : Conn → ℕ → List ℕ → ℕ → Option GoError × Conn
unfolding update
deliver c n bytes flags = let (e, s) = process_data (c.table n) bytes flags in (e, update c n s)

-- The end of an OPEN, by the failure of the connection: a stream of a connection that has failed or
-- shuts down is closed at once, and its data ignored.
unfoldable pub accept : Conn → ℕ → List ℕ → ℕ → Option GoError → Option GoError × Conn
unfolding update deliver
accept c n bytes flags (some e) = (none, update c n (close_with_error (c.table n) (some e)))
accept c n bytes flags none =
    if c.shutdown
    then (none, update c n (close_with_error (c.table n) (some (error_code Code.econnshutdown))))
    else deliver (record c { handled = c.handled ++ (n ∷ []) }) n bytes flags

-- A DATA frame with the flag OPEN, behind the tests of its id.
unfoldable pub open_incoming : Conn → ℕ → List ℕ → ℕ → Option GoError × Conn
unfolding register accept
open_incoming c id bytes flags =
    if ltb c.settings.local_window (length bytes)
    then (stream_error Code.ewindowoverflow, c)
    else (let (n, c') =
          register c (new_stream id c.settings.local_window c.settings.remote_window) in
        accept c' n bytes flags c.failure)

-- A DATA frame by its stream, if there is one.
unfoldable pub process_data_with : Conn → ℕ → ℕ → List ℕ → Option ℕ → Option GoError × Conn
unfolding open_incoming deliver
process_data_with c id flags bytes none =
    if has flags Flag.data_open
    then (if is_owned_id c.streams id
        then (stream_error Code.einvalidstream, c)
        else open_incoming c id bytes flags)
    else (stream_error Code.einvalidstream, c)
process_data_with c id flags bytes (some n) =
    if has flags Flag.data_open
    then (stream_error Code.einvalidstream, c)
    else if is_none c.failure
    then deliver c n bytes flags
    else (none, c)

-- `processDataFrame`
unfoldable pub process_data_frame : Conn → ℕ → ℕ → List ℕ → Option GoError × Conn
unfolding process_data_with
process_data_frame c id flags bytes =
    if id == 0
    then (if not (flags == 0) || not (length bytes == 0)
        then (stream_error Code.einvalidstream, c)
        else (none, c))
    else process_data_with c id flags bytes (find c.streams.live id)

-- `processResetFrame`
unfoldable pub process_reset_with : Conn → ℕ → GoError → Option ℕ → Conn
unfolding update
process_reset_with c flags e none = c
process_reset_with c flags e (some n) =
    if is_none c.failure then update c n (process_reset (c.table n) flags e) else c

unfoldable pub process_reset_frame : Conn → ℕ → ℕ → GoError → Option GoError × Conn
unfolding process_reset_with
process_reset_frame c id flags e =
    if id == 0
    then (some e, record c { outgoing = Outgoing.fail c.outgoing (error_code Code.econnshutdown) })
    else (none, process_reset_with c flags e (find c.streams.live id))

-- `processWindowFrame`
unfoldable pub process_window_with : Conn → ℕ → Option ℕ → Option GoError × Conn
unfolding update
process_window_with c increment none = (none, c)
process_window_with c increment (some n) =
    let (e, s) = process_window (c.table n) increment in (e, update c n s)

unfoldable pub process_window_frame : Conn → ℕ → ℕ → Option GoError × Conn
unfolding process_window_with
process_window_frame c id increment = process_window_with c increment (find c.streams.live id)

-- `handleSettings`: the two settings in turn, by what `Value` returns for them.
unfoldable pub set_window : Conn → ℕ × Bool → Option GoError × Conn
unfolding change_windows
set_window c (n, false) = (none, c)
set_window c (n, true) =
    if ltb n min_window_size || ltb max_window_size n
    then (stream_error Code.einvalidframe, c)
    else (
      none,
      (let c' = change_windows c c.streams.live (sub_ℕ n c.settings.remote_window) in
          record c' { settings = record (c'.settings) { remote_window = n } }),
    )

unfoldable pub set_timeout : Conn → ℕ × Bool → Option GoError × Conn
set_timeout c (n, false) = (none, c)
set_timeout c (n, true) =
    if ltb n 1000
    then (stream_error Code.einvalidframe, c)
    else (none, record c { settings = record (c.settings) { remote_timeout = n } })

-- Goes on where there was no error.
unfoldable pub and_then :
    Option GoError × Conn → (Conn → Option GoError × Conn) → Option GoError × Conn
and_then (some e, c) f = (some e, c)
and_then (none, c) f = f c

unfoldable pub handle_settings : Conn → List Setting → Option GoError × Conn
unfolding and_then set_window set_timeout
handle_settings c settings = and_then (set_window c (value settings setting_stream_window)) (λ c1.
    and_then (set_timeout c1 (value settings setting_inactivity_milliseconds))
      (λ c2. (none, record c2 { outgoing = Outgoing.add_settings_ack c2.outgoing })))

-- `processSettingsFrame`
unfoldable pub process_settings_frame : Conn → ℕ → List Setting → Option GoError × Conn
unfolding handle_settings
process_settings_frame c flags settings =
    if has flags Flag.settings_ack
    then (let (calls, s) = Settings.handle_ack c.settings in
        (none, record c { settings = s; calls = c.calls ++ calls }))
    else handle_settings c settings

-- The switch of `processFrame`.
unfoldable pub dispatch : Conn → Frame → Option GoError × Conn
unfolding process_ping_frame process_data_frame process_reset_frame process_window_frame
    process_settings_frame
dispatch c (ping_frame flags bytes) = (none, process_ping_frame c flags bytes)
dispatch c (data_frame id flags bytes) = process_data_frame c id flags bytes
dispatch c (reset_frame id flags e) = process_reset_frame c id flags e
dispatch c (window_frame id flags increment) = process_window_frame c id increment
dispatch c (settings_frame flags settings) = process_settings_frame c flags settings
dispatch c (unknown_frame type flags id payload) = (some (error_code Code.eunknownframe), c)

-- `processFrame`
module _ (timeout : GoError → Bool) where
  unfoldable pub conclude : Option GoError × Conn → Bool × Conn
  unfolding close
  conclude (none, c) = (true, c)
  conclude (some e, c) = (false, (close timeout c (some e)).1)

  unfoldable pub process_frame : Conn → Frame → Bool × Conn
  unfolding dispatch conclude
  process_frame c f = conclude (dispatch c f)
