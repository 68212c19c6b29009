-- ===== src/Tests/Frames.antt =====
-- Frames on the wire (frame.go).
use copper.Prelude.{ℕ, ◌≡◌, arith, List, [], ◌∷◌, ◌++◌, length, none}
use copper.Errors.{eof, error_code, ok}
use copper.Errors.Code
use copper.Frame.{Frame, reset_frame}
use copper.Frame.Reader.{read_frame}
use copper.Frame.Writer.{write_frame, reset_error}
use copper.Frame.RoundTrip.Framing.{grow}
use copper.Frame.RoundTrip.{read_frame-write_frame}
use copper.Frame.RoundTrip.Sent.{sink, packet}
use copper.Frame.RoundTrip.Received.{received}

abbrev reset : Frame
reset = reset_frame 5 3 (error_code Code.enotarget)

read_frame-write_frame_example :
    (bytes : List ℕ) × (write_frame reset (sink (1 ∷ [])) ≡ (none, sink ((1 ∷ []) ++ bytes)))
    × (read_frame (record { input = bytes ++ (2 ∷ []); fin = eof; scratch = 0 }) ≡ (
      ok (received reset),
      record { input = 2 ∷ []; fin = eof; scratch = grow 0 (length (packet reset).payload) },
    ))
unfolding reset_error
read_frame-write_frame_example =
    read_frame-write_frame reset (1 ∷ []) (2 ∷ []) eof 0 (omega arith)
      (omega arith, omega arith, omega arith)
