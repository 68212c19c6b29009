-- ===== src/Stream/Api.antt =====
-- The operations of the `Stream` interface. One that has to wait gives `blocked`, and is tried again
-- when its condition variable is signalled; deadlines are not modelled.
use copper.Prelude.{
  ℕ, ◌+◌, ◌-◌, List, [], length, take, min, true, not, ◌==◌, ◌&&◌, ltb, leb, if◌then◌else◌, Option,
  none,
}
use copper.Prelude.Int.{is_pos}
use copper.Errors.{GoError, error_code}
use copper.Errors.Code
use copper.Buffer
use copper.Stream.{
  Stream, ctrl, bulk, request, is_none, set_read_error, set_write_error, close_with_error,
  close_error,
}
use copper.Stream.Output.{stream_write_buffer_size}

-- A caller waits, or has its result and the new state.
pub data Wait (A : Type 0) : Type 0 where
  blocked : Wait A
  ready : A → Stream → Wait A

-- Bytes were taken out of the read buffer: the window grows by them while the read side is open.
unfoldable pub consumed : Stream → ℕ → Stream
consumed s n =
    if is_none s.read.err
    then request (record s { read = record (s.read) { increment = s.read.increment + n } }) ctrl
    else s

-- `Peek`
unfoldable pub peek : Stream → Wait (List ℕ × Option GoError)
peek s =
    if s.read.buf.size == 0
    then (if is_none s.read.err then blocked else ready ([], s.read.err) s)
    else (let (bytes, b) = Buffer.peek s.read.buf in
        ready (bytes, s.read.err) (record s { read = record (s.read) { buf = b } }))

-- `Discard`
unfoldable pub discard : Stream → ℕ → ℕ × Stream
unfolding consumed
discard s n =
    let (k, b) = Buffer.discard s.read.buf n in
    let s1 = record s { read = record (s.read) { buf = b } } in
    (k, if ltb 0 k then consumed s1 k else s1)

-- The error that `Read` returns beside the bytes.
abbrev pub end_error : Stream → Option GoError
end_error s = if s.read.buf.size == 0 then s.read.err else none

-- `Read` into `room` bytes.
unfoldable pub read : Stream → ℕ → Wait (List ℕ × Option GoError)
unfolding consumed
read s room =
    if ltb 0 room
    then (if s.read.buf.size == 0
        then (if is_none s.read.err then blocked else ready ([], s.read.err) s)
        else (let (bytes, b) = Buffer.read s.read.buf room in
            let s1 = consumed (record s { read = record (s.read) { buf = b } }) (length bytes) in
            ready (bytes, end_error s1) s1))
    else ready ([], end_error s) s

-- One pass of the loop of `Write`: what fits is taken. The loop goes on with the rest.
unfoldable pub write_some : Stream → List ℕ → Wait ℕ
write_some s bytes =
    if is_none s.write.err
    then (if leb stream_write_buffer_size s.write.buf.size
        then blocked
        else (let n = min (length bytes) (stream_write_buffer_size - s.write.buf.size) in
            let s1 = record s {
              write = record (s.write) { buf = Buffer.write s.write.buf (take n bytes) };
            } in
            ready n (if is_pos s.write.left then request s1 bulk else s1)))
    else ready 0 s

-- `WriteByte`
unfoldable pub write_byte : Stream → ℕ → Wait (Option GoError)
write_byte s c =
    if is_none s.write.err
    then (if leb stream_write_buffer_size s.write.buf.size
        then blocked
        else (let s1 = record s {
          write = record (s.write) { buf = Buffer.writebyte s.write.buf c };
        } in
            ready none (if is_pos s.write.left then request s1 bulk else s1)))
    else ready s.write.err s

-- `Flush`
unfoldable pub flush : Stream → Wait (Option GoError)
flush s = if is_none s.write.err && ltb 0 s.write.buf.size then blocked else ready s.write.err s

-- `Acknowledge`
unfoldable pub acknowledge : Stream → Option GoError × Stream
acknowledge s = (
  s.write.err,
  if is_none s.write.err && not s.write.acked
      then request
          (record s {
            flags = record (s.flags) { need_ack = true };
            write = record (s.write) { acked = true };
          })
          ctrl
      else s,
)

-- `Close`, `CloseWithError`, `CloseRead`, `CloseReadWithError`, `CloseWrite`, `CloseWriteWithError`
unfoldable pub close : Stream → Option GoError × Stream
close s = (s.err, close_with_error s none)

unfoldable pub close_with : Stream → Option GoError → Option GoError × Stream
close_with s e = (s.err, close_with_error s e)

unfoldable pub close_read : Stream → Option GoError × Stream
close_read s = (s.read.err, set_read_error s (error_code Code.eclosed))

unfoldable pub close_read_with : Stream → Option GoError → Option GoError × Stream
close_read_with s e = (s.read.err, set_read_error s (close_error e))

unfoldable pub close_write : Stream → Option GoError × Stream
close_write s = (s.write.err, set_write_error s (error_code Code.eclosed))

unfoldable pub close_write_with : Stream → Option GoError → Option GoError × Stream
close_write_with s e = (s.write.err, set_write_error s (close_error e))
