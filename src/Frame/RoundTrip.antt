-- ===== src/Frame/RoundTrip.antt =====
-- What `FrameReader` makes of the bytes that `FrameWriter` wrote.
pub mod Framing
pub mod Sent
pub mod Received
use copper.Prelude.{
  ℕ, ◌+◌, ◌^◌, ◌≤◌, ◌<◌, ◌≡◌, refl, ◌∙◌, ap, sym, arith, List, [], ◌∷◌, ◌++◌, Bool-cases, inl, inr,
  length, append_assoc, none, some, true,
}
use copper.Errors.{GoError, Result, ok}
use copper.Frame.{
  Frame, ping_frame, data_frame, reset_frame, window_frame, settings_frame, unknown_frame, has,
}
use copper.Frame.Wire.{header_bytes}
use copper.Frame.Reader.{Reader, read_frame}
use copper.Frame.Writer.{Writer, write_frame}
use copper.Frame.RoundTrip.Framing.{read_frame-packet, grow}
use copper.Frame.RoundTrip.Sent.{
  Packet, packet, wire, Fits, sink, write_frame-sink, length-entries, entries,
}
use copper.Frame.RoundTrip.Received.{InRange, received, parse-packet, header}

record Narrow (p : Packet) : Type 0 where
  type : p.type < 256
  flags : p.flags < 256
  size : length p.payload < 2 ^ 24
  id : p.id < 2 ^ 32

packet-Narrow : (f : Frame) → Fits f → InRange f → Narrow (packet f)
packet-Narrow (ping_frame flags bytes) h r = omega arith
packet-Narrow (data_frame id flags bytes) h r = omega arith
packet-Narrow (reset_frame id flags e) h r = omega arith
packet-Narrow (window_frame id flags increment) h r = omega arith
packet-Narrow (settings_frame flags settings) h r = elim (Bool-cases (has flags 1)) [
  | inl ack ↦ rw ack (omega arith)
  | inr plain ↦ rw plain (omega (arith, length-entries settings))
]
packet-Narrow (unknown_frame type flags id payload) h r = omega arith

-- A frame whose fields are in range is written without error into a writer that does not fail, and
-- a reader over those bytes and any others behind them reads the frame that the peer is to see
-- and stops exactly behind it.
pub read_frame-write_frame :
    (f : Frame) (out rest : List ℕ) (fin : GoError) (scratch : ℕ)
    → Fits f
    → InRange f
    → (bytes : List ℕ) × (write_frame f (sink out) ≡ (none, sink (out ++ bytes)))
      × (read_frame (record { input = bytes ++ rest; fin = fin; scratch = scratch }) ≡ (
        ok (received f),
        record { input = rest; fin = fin; scratch = grow scratch (length (packet f).payload) },
      ))
read_frame-write_frame f out rest fin scratch h r =
    let p = packet f in
    let n : Narrow p = packet-Narrow f h r in
    let assoc : wire p ++ rest
        ≡ header_bytes p.type p.flags (length p.payload) p.id ++ (p.payload ++ rest) =
      append_assoc _ p.payload rest in
    (
      wire p,
      write_frame-sink f out h,
      rw assoc (
          read_frame-packet p.type p.flags p.id p.payload rest fin scratch n.type n.flags n.size
            n.id
          ∙ ap
              (λ x.
                (x, record { input = rest; fin = fin; scratch = grow scratch (length p.payload) }))
              (parse-packet f h r)),
    )
