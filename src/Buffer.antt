-- ===== src/Buffer.antt =====
-- The growing byte ring of buffer.go. Bytes are only moved, so a byte is any number.
-- A method that changes `*b` returns the new buffer beside its result.
pub mod Valid
pub mod Write
pub mod Read
pub mod Peek
use copper.Prelude.{
  ℕ, ◌+◌, ◌-◌, ◌*◌, List, [], ◌∷◌, ◌++◌, length, take, replicate, set, get_elem?, ltb, leb, min,
  ◌==◌, if◌then◌else◌, Option, none, some,
}
use copper.Prelude.Arrays.{slice, copy_at}
use copper.Pow2.{minpow2}

pub record Buffer : Type 0 where
  pub buf : List ℕ
  pub off : ℕ
  pub size : ℕ

abbrev pub empty : Buffer
empty = record { buf = []; off = 0; size = 0 }

-- `if b.size == 0 { b.off = 0 }`
abbrev pub rewind : Buffer → Buffer
rewind b = if b.size == 0 then record b { off = 0 } else b

-- The two ways in which `read` fills a destination of `room` bytes: from data that does not wrap,
-- and from data that does.
pub read_straight : Buffer → ℕ → List ℕ × Buffer
read_straight b room =
    let out = take room (slice b.buf b.off (b.off + b.size)) in
    (out, rewind (record b { off = b.off + length out; size = b.size - length out }))

pub read_wrapped : Buffer → ℕ → List ℕ × Buffer
read_wrapped b room =
    let cap = length b.buf in
    let first = take room (slice b.buf b.off cap) in
    let n = length first in
    let second = take (room - n) (slice b.buf 0 (b.size - n)) in
    if b.off + n == cap
    then (
      first ++ second,
      rewind (record b { off = length second; size = b.size - (n + length second) }),
    )
    else (first, rewind (record b { off = b.off + n; size = b.size - n }))

-- `read` into a destination of `room` bytes: the bytes copied, and the buffer.
pub read : Buffer → ℕ → List ℕ × Buffer
read b room =
    if leb (b.off + b.size) (length b.buf) then read_straight b room else read_wrapped b room

-- The buffer after `readbyte` has taken a byte.
pub after_byte : Buffer → Buffer
after_byte b =
    if b.size == 1
    then record b { off = 0; size = 0 }
    else record b { off = if b.off + 1 == length b.buf then 0 else b.off + 1; size = b.size - 1 }

-- `readbyte`; `none` is the panic of an index out of range.
unfoldable pub readbyte : Buffer → Option (ℕ × Buffer)
readbyte b = elim (get_elem? b.buf b.off) [ none ↦ none | some c ↦ some (c, after_byte b) ]

-- The copy into a new array that `write` and `writebyte` share.
pub moved : Buffer → List ℕ → List ℕ
moved b dst =
    let stop = b.off + b.size in
    let cap = length b.buf in
    if leb stop cap
    then copy_at dst 0 (length dst) (slice b.buf b.off stop)
    else (let z = min (length dst) (cap - b.off) in
        copy_at (copy_at dst 0 (length dst) (slice b.buf b.off cap)) z (length dst - z)
          (slice b.buf 0 (b.size - z)))

-- The four ways in which `write` stores `src`: in a new array, behind data that wraps, behind data
-- that does not, and in two parts.
pub write_grown : Buffer → List ℕ → Buffer
write_grown b src =
    let n = b.size + length src in
    let dst = moved b (replicate (minpow2 n) 0) in
    record { buf = copy_at dst b.size (length dst - b.size) src; off = 0; size = n }

pub write_wrapped : Buffer → List ℕ → Buffer
write_wrapped b src =
    let cap = length b.buf in
    let at = b.off + b.size - cap in
    record b { buf = copy_at b.buf at (cap - at) src; size = b.size + length src }

pub write_behind : Buffer → List ℕ → Buffer
write_behind b src = record b {
  buf = copy_at b.buf (b.off + b.size) (length src) src;
  size = b.size + length src;
}

pub write_split : Buffer → List ℕ → Buffer
write_split b src =
    let stop = b.off + b.size in
    let cap = length b.buf in
    let z = min (cap - stop) (length src) in
    record b {
      buf = copy_at (copy_at b.buf stop (cap - stop) src) 0 cap (slice src z (length src));
      size = b.size + length src;
    }

pub write : Buffer → List ℕ → Buffer
write b src =
    let stop = b.off + b.size in
    let cap = length b.buf in
    if ltb cap (b.size + length src)
    then write_grown b src
    else if leb cap stop
    then write_wrapped b src
    else if leb (stop + length src) cap
    then write_behind b src
    else write_split b src

pub writebyte : Buffer → ℕ → Buffer
writebyte b c =
    let m = b.size in
    let stop = b.off + m in
    let cap = length b.buf in
    if m == cap
    then record { buf = set (moved b (replicate (minpow2 (m + 1)) 0)) m c; off = 0; size = m + 1 }
    else if leb cap stop
    then record b { buf = set b.buf (stop - cap) c; size = m + 1 }
    else record b { buf = set b.buf stop c; size = m + 1 }

pub clear : Buffer → Buffer
clear b = empty

-- The two ways in which `peek` makes wrapped data contiguous: in a new array, and within the array.
pub straighten_grown : Buffer → Buffer
straighten_grown b =
    let cap = length b.buf in
    let n = min (cap * 2) (cap - b.off) in
    record b {
      buf =
          copy_at (copy_at (replicate (cap * 2) 0) 0 (cap * 2) (slice b.buf b.off cap)) n
            (cap * 2 - n) (slice b.buf 0 (b.off + b.size - cap));
      off = 0;
    }

pub straighten_within : Buffer → Buffer
straighten_within b =
    let cap = length b.buf in
    let tail = b.off + b.size - cap in
    let n = min (cap - tail) (cap - b.off) in
    let once = copy_at b.buf tail (cap - tail) (slice b.buf b.off cap) in
    record b { buf = copy_at once (tail + n) (b.off - (tail + n)) (slice once 0 tail); off = tail }

-- The state after `peek` has made the data contiguous.
pub straighten : Buffer → Buffer
straighten b =
    if leb (b.off + b.size) (length b.buf)
    then b
    else if ltb (length b.buf) (b.size * 2)
    then straighten_grown b
    else straighten_within b

pub peek : Buffer → List ℕ × Buffer
peek b = let s = straighten b in (slice s.buf s.off (s.off + s.size), s)

pub discard : Buffer → ℕ → ℕ × Buffer
discard b n = if ltb b.size n then (b.size, record b { off = 0; size = 0 }) else (
  n,
  record b {
    off = if leb (length b.buf) (b.off + n) then b.off + n - length b.buf else b.off + n;
    size = b.size - n;
  },
)
