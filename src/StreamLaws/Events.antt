-- ===== src/StreamLaws/Events.antt =====
-- All that can happen to a stream: frames of the peer, calls of the application, and the rounds of
-- the writer, each of which holds the stream's mutex.
use copper.Prelude.{ℕ, List, [], ◌∷◌, Bool, Option, if◌then◌else◌}
use copper.Prelude.Int.{ℤ}
use copper.Errors.{GoError}
use copper.Stream.{
  Stream, close_with_error, process_data, process_reset, change_write_window, process_window,
}
use copper.Stream.Output.{
  Output, output, nothing, ctrl_round, data_round, never_opened, forget, after_data,
}
use copper.Stream.Api.{
  Wait, blocked, ready, peek, discard, read, write_some, write_byte, acknowledge, close_read_with,
  close_write_with,
}

pub data Event : Type 0 where
  -- bytes and flags of a DATA frame, flags and error of a RESET frame, a WINDOW frame, a changed
  -- SETTINGS value
  data_in : List ℕ → ℕ → Event
  reset_in : ℕ → GoError → Event
  window_in : ℕ → Event
  settings_in : ℤ → Event
  -- calls
  peek_call : Event
  discard_call read_call : ℕ → Event
  write_call : List ℕ → Event
  write_byte_call : ℕ → Event
  acknowledge_call : Event
  close_call close_read_call close_write_call : Option GoError → Event
  -- the start of `writeCtrl`, a round of its loop, the round of `writeData`, and a DATA frame written
  ctrl_start ctrl_turn data_turn data_written : Event

-- The state behind a call, which is the one before where the caller waits.
abbrev pub settled : {A : Type 0} → Stream → Wait A → Stream
settled s blocked = s
settled s (ready a s') = s'

-- The state when the mutex is given up for writing a frame.
abbrev pub released : Output → Stream
released (output f s k) = s
released (nothing s) = s

module _ (alias : Option GoError → Option GoError → Bool) where
  unfoldable pub step : Stream → Event → Stream
  step s (data_in bytes flags) = (process_data s bytes flags).1
  step s (reset_in flags e) = process_reset s flags e
  step s (window_in n) = (process_window s n).1
  step s (settings_in d) = change_write_window s d
  step s peek_call = settled s (peek s)
  step s (discard_call n) = (discard s n).1
  step s (read_call n) = settled s (read s n)
  step s (write_call bytes) = settled s (write_some s bytes)
  step s (write_byte_call c) = settled s (write_byte s c)
  step s acknowledge_call = (acknowledge s).1
  step s (close_call e) = close_with_error s e
  step s (close_read_call e) = (close_read_with s e).1
  step s (close_write_call e) = (close_write_with s e).1
  step s ctrl_start = if never_opened s then forget s else s
  step s ctrl_turn = released (ctrl_round alias s)
  step s data_turn = released (data_round s)
  step s data_written = after_data s

  unfoldable pub run : Stream → List Event → Stream
  run s [] = s
  run s (e ∷ rest) = run (step s e) rest
