-- ===== src/Rpc.antt =====
-- Remote calls: requests and their messages on a stream (rpc_io.go, rpc_server.go, rpc_client.go).
pub mod Conversions
pub mod Messages
pub mod Targets
use copper.Prelude.{
  ℕ, ◌+◌, ◌-◌, ◌*◌, ◌/◌, ◌%◌, ◌^◌, List, [], ◌∷◌, ◌++◌, length, take, drop, get_or, Bool, true,
  false, ◌==◌, ltb, leb, if◌then◌else◌, Option, none, some, Bool,
}
use copper.Errors.{GoError, error_code, unexpected_eof, is_eof, Result, ok, err, ◌>>=◌}
use copper.Errors.Code
use copper.Frame.Wire.{put_uint32, uint32}

-- A stream that is read from: what arrived, in the pieces in which a `Read` finds it, and the error
-- behind the last piece; `ended` says that the error is set before the last piece is read. A `Read`
-- waits for the next piece.
pub record Incoming : Type 0 where
  pub pieces : List (List ℕ)
  pub fin : GoError
  pub ended : Bool

-- The error that a `Read` gives with the bytes: there will be no more data, and it is known.
abbrev pub known_end : List (List ℕ) → Bool → GoError → Option GoError
known_end [] ended fin = if ended then some fin else none
known_end (p ∷ rest) ended fin = none

-- `Read` into `n` bytes, of which there is one at least: no more than one piece, and an error too.
abbrev pub read_first : Incoming → ℕ → List (List ℕ) → List ℕ × Option GoError × Incoming
read_first s n [] = ([], some s.fin, s)
read_first s n (p ∷ rest) =
    let left = if ltb n (length p) then drop n p ∷ rest else rest in
    (take n p, known_end left s.ended s.fin, record s { pieces = left })

unfoldable pub read_piece : Incoming → ℕ → List ℕ × Option GoError × Incoming
read_piece s n = read_first s n s.pieces

-- The loop of `io.ReadFull`: as many bytes as there are, up to `n`, and the pieces left. It ignores
-- an error that comes with the last byte it needs, and ends with one that comes before.
unfoldable pub gather : ℕ → List (List ℕ) → List ℕ × List (List ℕ)
gather n [] = ([], [])
gather n (p ∷ rest) =
    let more = gather (n - length p) rest in
    if ltb n (length p) then (take n p, drop n p ∷ rest) else (p ++ more.0, more.1)

unfoldable pub read_full : Incoming → ℕ → Result (List ℕ) × Incoming
unfolding gather
read_full s n =
    let g = gather n s.pieces in
    let left = record s { pieces = g.1 } in
    if leb n (length g.0)
    then (ok g.0, left)
    else if length g.0 == 0
    then (err s.fin, left)
    else (err (if is_eof s.fin then unexpected_eof else s.fin), left)

-- `if err == io.EOF { err = io.ErrUnexpectedEOF }`
abbrev pub no_eof {ℓ} : {A : Type ℓ} → Result A → Result A
no_eof (ok a) = ok a
no_eof (err e) = err (if is_eof e then unexpected_eof else e)

-- `rpcReadRequestType` and `rpcWriteRequestType`
unfoldable pub read_request_type : Incoming → Result ℕ × Incoming
unfolding read_full
read_request_type s = let r = read_full s 1 in (r.0 >>= (λ b. ok (get_or b 0 0)), r.1)

unfoldable pub write_request_type : ℕ → List ℕ
write_request_type rtype = rtype % 256 ∷ []

-- Messages of one type, with what `proto.Marshal` and `proto.Unmarshal` do for it.
module _ {M : Type 0} (marshal : M → Result (List ℕ)) (unmarshal : List ℕ → Result M) where
  abbrev pub read_payload : Result (List ℕ) × Incoming → Result M × Incoming
  read_payload (r, s) = (no_eof r >>= unmarshal, s)

  abbrev pub read_sized : Result (List ℕ) × Incoming → Result M × Incoming
  read_sized (err e, s) = (no_eof (err e), s)
  read_sized (ok b, s) =
      if ltb 0 (uint32 b 0) then read_payload (read_full s (uint32 b 0)) else (unmarshal [], s)

  -- `rpcReadMessage` and `rpcWriteMessage`: what is written, one piece after the other.
  unfoldable pub read_message : Incoming → Result M × Incoming
  unfolding read_full
  read_message s = read_sized (read_full s 4)

  unfoldable pub write_message : M → Result (List ℕ)
  write_message m =
      marshal m
      >>= (λ b. ok (put_uint32 (length b % 2 ^ 32) ++ (if ltb 0 (length b) then b else [])))

-- `binary.BigEndian.PutUint64` and `Uint64`; a target id is taken as the uint64 with its bits.
abbrev pub put_uint64 : ℕ → List ℕ
put_uint64 x = put_uint32 (x / 2 ^ 32) ++ put_uint32 x

abbrev pub uint64 : List ℕ → ℕ
uint64 bs = uint32 bs 0 * 2 ^ 32 + uint32 bs 4

-- What `rpcNewStream` writes, and the reading of the target id in `rpcWrapServer` and
-- `rpcWrapClient`: one `Read` into a buffer of zeros.
unfoldable pub write_new_stream : ℕ → List ℕ
unfolding write_request_type
write_new_stream target_id = write_request_type 0 ++ put_uint64 target_id

abbrev pub target_of : List ℕ × Option GoError × Incoming → Result ℕ × Incoming
target_of (b, none, s) = (ok (uint64 b), s)
target_of (b, some e, s) = (err (error_code Code.einvalid), s)

unfoldable pub read_target : Incoming → Result ℕ × Incoming
unfolding read_piece
read_target s = target_of (read_piece s 8)
