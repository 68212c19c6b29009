-- ===== src/Conn/Pending.antt =====
-- The error that a connection has yet to send: what a DATA frame does to its streams leaves it alone
-- (rawconn.go, rawstream.go), and so does failing the streams (rawconn_streams.go).
use copper.Prelude.{ℕ, ◌≡◌, refl, ◌∙◌, arith, List, [], ◌∷◌, ◌++◌, Option, none, some}
use copper.Errors.{GoError, error_code}
use copper.Errors.Code
use copper.Outgoing
use copper.Stream.{Stream, Request, ctrl, bulk, remove, new_stream, process_data, close_with_error}
use copper.StreamIds.{Live, find}
use copper.Conn.{Conn, perform_one, perform, update, close_streams, fail_streams}
use copper.Conn.Dispatch.{
  register, deliver, accept, open_incoming, process_data_with, process_data_frame,
}

perform-err :
    (c : Conn) (n id : ℕ) (requests : List Request)
    → (perform c n id requests).outgoing.err ≡ c.outgoing.err
unfolding perform perform_one Outgoing.add_ctrl Outgoing.add_data Outgoing.wakeup
perform-err c n id [] = refl
perform-err c n id (ctrl ∷ rest) = ground (arith, perform-err (perform_one c n id ctrl) n id rest)
perform-err c n id (bulk ∷ rest) = ground (arith, perform-err (perform_one c n id bulk) n id rest)
perform-err c n id (remove ∷ rest) = perform-err (perform_one c n id remove) n id rest

update-err : (c : Conn) (n : ℕ) (s : Stream) → (update c n s).outgoing.err ≡ c.outgoing.err
unfolding update
update-err c n s = perform-err _ n s.id s.requests

register-err : (c : Conn) (s : Stream) → (register c s).1.outgoing.err ≡ c.outgoing.err
unfolding register
register-err c s = update-err _ c.fresh s

deliver-err :
    (c : Conn) (n : ℕ) (bytes : List ℕ) (flags : ℕ)
    → (deliver c n bytes flags).1.outgoing.err ≡ c.outgoing.err
unfolding deliver
deliver-err c n bytes flags = update-err c n (process_data (c.table n) bytes flags).1

accept-err :
    (c : Conn) (n : ℕ) (bytes : List ℕ) (flags : ℕ) (e : Option GoError)
    → (accept c n bytes flags e).1.outgoing.err ≡ c.outgoing.err
unfolding accept
accept-err c n bytes flags (some e) = update-err c n (close_with_error (c.table n) (some e))
accept-err c n bytes flags none =
    let shut =
      update-err c n (close_with_error (c.table n) (some (error_code Code.econnshutdown))) in
    let go = deliver-err (record c { handled = c.handled ++ (n ∷ []) }) n bytes flags in
    ground (arith, shut, go)

open_incoming-err :
    (c : Conn) (id : ℕ) (bytes : List ℕ) (flags : ℕ)
    → (open_incoming c id bytes flags).1.outgoing.err ≡ c.outgoing.err
unfolding open_incoming
open_incoming-err c id bytes flags =
    let s = new_stream id c.settings.local_window c.settings.remote_window in
    let p = register-err c s in
    let q = accept-err (register c s).1 (register c s).0 bytes flags c.failure in
    ground (arith, p, q)

process_data_with-err :
    (c : Conn) (id flags : ℕ) (bytes : List ℕ) (n : Option ℕ)
    → (process_data_with c id flags bytes n).1.outgoing.err ≡ c.outgoing.err
unfolding process_data_with
process_data_with-err c id flags bytes none =
    let p = open_incoming-err c id bytes flags in ground (arith, p)
process_data_with-err c id flags bytes (some n) =
    let p = deliver-err c n bytes flags in ground (arith, p)

pub process_data_frame-err :
    (c : Conn) (id flags : ℕ) (bytes : List ℕ)
    → (process_data_frame c id flags bytes).1.outgoing.err ≡ c.outgoing.err
unfolding process_data_frame
process_data_frame-err c id flags bytes =
    let p = process_data_with-err c id flags bytes (find c.streams.live id) in ground (arith, p)

close_streams-err :
    (c : Conn) (live : Live) (e : GoError) → (close_streams c live e).outgoing.err ≡ c.outgoing.err
unfolding close_streams
close_streams-err c [] e = refl
close_streams-err c ((id, n) ∷ rest) e =
    let s = close_with_error (c.table n) (some e) in
    close_streams-err (update c n s) rest e ∙ update-err c n s

pub fail_streams-err : (c : Conn) (e : GoError) → (fail_streams c e).outgoing.err ≡ c.outgoing.err
unfolding fail_streams
fail_streams-err c e =
    let p =
      close_streams-err (record c { streams = record (c.streams) { err = some e } }) c.streams.live
        e in
    ground (arith, p)
