-- ===== src/Settings.antt =====
-- The settings of a connection (rawconn_settings.go): the two stream windows, the two inactivity
-- timeouts in milliseconds, and the callbacks that wait for the peer to acknowledge.
use copper.Prelude.{ℕ, List, [], ◌∷◌, Option, none, some}
use copper.Errors.{GoError}
use copper.Frame.{initial_stream_window, initial_inactivity_milliseconds}
use copper.Pings.{Called}

-- A callback is a number, or nil.
pub record Settings : Type 0 where
  pub callbacks : List (Option ℕ)
  pub local_window : ℕ
  pub remote_window : ℕ
  pub local_timeout : ℕ
  pub remote_timeout : ℕ

abbrev pub init : Settings
init = record {
  callbacks = [];
  local_window = initial_stream_window;
  remote_window = initial_stream_window;
  local_timeout = initial_inactivity_milliseconds;
  remote_timeout = initial_inactivity_milliseconds;
}

-- The calls of the callbacks that are not nil.
unfoldable pub call_back : List (Option ℕ) → Option GoError → List Called
call_back [] e = []
call_back (none ∷ rest) e = call_back rest e
call_back (some c ∷ rest) e = (c, e) ∷ call_back rest e

-- `failLocked`
unfoldable pub fail : Settings → GoError → List Called × Settings
unfolding call_back
fail s e = (call_back s.callbacks (some e), record s { callbacks = [] })

-- `handleAck`, by the callbacks that wait.
unfoldable pub handle_ack_with : Settings → List (Option ℕ) → List Called × Settings
unfolding call_back
handle_ack_with s [] = ([], s)
handle_ack_with s (c ∷ rest) = (call_back (c ∷ []) none, record s { callbacks = rest })

unfoldable pub handle_ack : Settings → List Called × Settings
unfolding handle_ack_with
handle_ack s = handle_ack_with s s.callbacks
