-- ===== src/StreamLaws/Sending.antt =====
-- The loop of `writeCtrl`: each round settles what the stream owes, so the loop ends.
use copper.Prelude.{
  ℕ, zero, suc, ◌+◌, ◌<◌, [], ◌≡◌, arith, ltb, ◌==◌, Bool, true, false, refl, not, ◌&&◌, ◌||◌,
  Option, none, some, if◌then◌else◌,
}
use copper.Errors.{GoError}
use copper.Errors.Code
use copper.Frame.{data_frame, reset_frame}
use copper.Frame.Writer.{Writer, write_frame}
use copper.Frame.Flag
use copper.Stream.{Stream}
use copper.Stream.Output.{
  Output, output, nothing, prepare_data, outgoing_flags, open_output, window_output, reset_output,
  eof_output, ctrl_round, ctrl_loop, write_ctrl, never_opened, forget, after_data, send_eof,
  eof_code, holds_code, keep, sent_error,
}

abbrev count : Bool → ℕ
count b = if b then 1 else 0

-- How many kinds of control frames the stream owes.
abbrev owed : Stream → ℕ
owed s =
    count (s.flags.need_open || s.flags.need_ack)
    + count (ltb 0 s.read.increment)
    + (count s.flags.need_reset + count s.flags.need_eof)

-- No frame is left to write: no OPEN or ACK while the stream may still send, no RESET, no EOF that
-- is not behind buffered data.
pub record Settled (s : Stream) : Type 0 where
  pub opened : ((s.flags.need_open || s.flags.need_ack) && not s.flags.sent_eof) ≡ false
  pub reset : s.flags.need_reset ≡ false
  pub ended : (s.write.buf.size == 0 && s.flags.need_eof) ≡ false

-- A round that writes lowers what is owed, one that does not leaves nothing.
abbrev Settles : Stream → Output → Type 0
Settles s (nothing s') = Settled s' × (ltb 0 s'.read.increment ≡ false)
Settles s (output f s' k) = owed (k s') < owed s

open_output-Settles :
    (s : Stream) → (s.flags.need_open || s.flags.need_ack) ≡ true → Settles s (open_output s)
unfolding open_output prepare_data outgoing_flags send_eof after_data
open_output-Settles s e = ground arith

window_output-Settles : (s : Stream) → ltb 0 s.read.increment ≡ true → Settles s (window_output s)
unfolding window_output
window_output-Settles s e = ground arith

reset_output-Settles :
    (s : Stream) (both : Bool) → s.flags.need_reset ≡ true → Settles s (reset_output s both)
unfolding reset_output send_eof
reset_output-Settles s true e = ground arith
reset_output-Settles s false e = ground arith

pick :
    (s : Stream) (b : Bool) (x y : Output)
    → (b ≡ true → Settles s x)
    → (b ≡ false → Settles s y)
    → Settles s (if b then x else y)
pick s true x y p q = p refl
pick s false x y p q = q refl

first_true : (a b : Bool) → (a && b) ≡ true → a ≡ true
first_true a b h = ground arith

second_true : (a b : Bool) → (a && b) ≡ true → b ≡ true
second_true a b h = ground arith

eof_output-Settles : (s : Stream) → s.flags.need_eof ≡ true → Settles s (eof_output s)
unfolding eof_output send_eof
eof_output-Settles s e =
    let after = send_eof s in
    pick s (holds_code Code.eclosed s.write.err)
      (output (data_frame s.id Flag.data_eof []) after keep)
      (output (reset_frame s.id Flag.reset_write (sent_error s.write.err)) after keep)
      (λ h. ground arith) (λ h. ground arith)

ctrl_round-Settles :
    (alias : Option GoError → Option GoError → Bool) (s : Stream) → Settles s (ctrl_round alias s)
unfolding ctrl_round
ctrl_round-Settles alias s =
    let both =
      (s.write.buf.size == 0 && s.flags.need_eof) && alias s.write.err (eof_code s.read.err) in
    let eof_round = if s.write.buf.size == 0 && s.flags.need_eof then eof_output s else nothing s in
    let reset_round = if s.flags.need_reset then reset_output s both else eof_round in
    let window_round = if ltb 0 s.read.increment then window_output s else reset_round in
    pick s ((s.flags.need_open || s.flags.need_ack) && not s.flags.sent_eof) (open_output s)
      window_round
      (λ h.
        open_output-Settles s
          (first_true (s.flags.need_open || s.flags.need_ack) (not s.flags.sent_eof) h))
      (λ o.
        pick s (ltb 0 s.read.increment) (window_output s) reset_round (window_output-Settles s)
          (λ i.
            pick s s.flags.need_reset (reset_output s both) eof_round (reset_output-Settles s both)
              (λ r.
                pick s (s.write.buf.size == 0 && s.flags.need_eof) (eof_output s) (nothing s)
                  (λ h.
                    eof_output-Settles s (second_true (s.write.buf.size == 0) s.flags.need_eof h))
                  (λ e. (record { opened = o; reset = r; ended = e }, i)))))

-- What `writeCtrl` comes to: an error of the write, or a stream that owes no frame.
abbrev pub Finished : Bool → Option (Option GoError × Stream × Writer) → Type 0
Finished quiet none = ⊥
Finished quiet (some (some e, s, w)) = Unit
Finished quiet (some (none, s, w)) = Settled s × ((ltb 0 s.read.increment && quiet) ≡ false)

wrote :
    (e : Option GoError) (s : Stream) (w : Writer) (r : Option (Option GoError × Stream × Writer))
    → Finished true r
    → Finished true (elim e [ none ↦ r | some x ↦ some (some x, s, w) ])
wrote none s w r p = p
wrote (some x) s w r p = tt

started :
    (b : Bool) (s : Stream) (w : Writer) (r : Option (Option GoError × Stream × Writer))
    → Finished true r
    → Finished (not b) (if b then some (none, forget s, w) else r)
unfolding forget
started true s w r p = (record { opened = refl; reset = refl; ended = ground arith }, ground arith)
started false s w r p = p

module _ (alias : Option GoError → Option GoError → Bool) where
  turn :
      (fuel : ℕ)
      → ((s : Stream) (w : Writer) → owed s < fuel → Finished true (ctrl_loop alias fuel s w))
      → (s : Stream) (w : Writer) → owed s < suc fuel
      → (o : Output) → Settles s o
      → Finished true (elim o [
        | nothing s' ↦ some (none, s', w)
        | output f s' k ↦
            let (e, w') = write_frame f w in
            elim e [ none ↦ ctrl_loop alias fuel (k s') w' | some x ↦ some (some x, s', w') ]
      ])
  turn fuel later s w h (nothing s') q = (q.0, ground arith)
  turn fuel later s w h (output f s' k) q =
      wrote (write_frame f w).0 s' (write_frame f w).1 _
        (later (k s') (write_frame f w).1 (omega arith))

  ctrl_loop-Finished :
      (fuel : ℕ) (s : Stream) (w : Writer)
      → owed s < fuel
      → Finished true (ctrl_loop alias fuel s w)
  unfolding ctrl_loop
  ctrl_loop-Finished zero s w h = ground arith
  ctrl_loop-Finished (suc fuel) s w h =
      turn fuel (ctrl_loop-Finished fuel) s w h (ctrl_round alias s) (ctrl_round-Settles alias s)

  -- `writeCtrl`, with no other step between its rounds, returns: the five rounds of its loop are
  -- enough. Without an error of the write, the stream is left with no control frame to write, be it
  -- an OPEN or ACK while its EOF is not sent, a RESET, or an EOF that no buffered data is before; nor
  -- with a window to give back, which a stream that was never opened may keep.
  pub write_ctrl_ends :
      (s : Stream) (w : Writer) → Finished (not (never_opened s)) (write_ctrl alias s w)
  unfolding write_ctrl
  write_ctrl_ends s w =
      started (never_opened s) s w (ctrl_loop alias 5 s w) (ctrl_loop-Finished 5 s w (ground arith))
