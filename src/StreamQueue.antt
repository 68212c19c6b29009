-- ===== src/StreamQueue.antt =====
-- The queue of stream pointers of rawstream_queue.go. A pointer is a number, nil is `none`.
pub mod Fifo
use copper.Prelude.{
  ℕ, ◌+◌, ◌-◌, List, [], ◌∷◌, length, min, replicate, set, get_or, ltb, leb, ◌==◌, ◌||◌,
  if◌then◌else◌, Option, none, some,
}
use copper.Prelude.Arrays.{slice, copy_at}
use copper.Pow2.{minpow2}

pub record StreamQueue : Type 0 where
  pub buf : List (Option ℕ)
  pub off : ℕ
  pub size : ℕ

abbrev pub empty : StreamQueue
empty = record { buf = []; off = 0; size = 0 }

-- The array that `push` allocates when the queue is full, with the pointers held copied to its front.
pub grown : StreamQueue → List (Option ℕ)
grown q =
    let cap = length q.buf in
    let size = minpow2 (cap + 1) in
    let dst = replicate size none in
    if q.off + q.size == cap
    then copy_at dst 0 size q.buf
    else (let z = min size (cap - q.off) in
        copy_at (copy_at dst 0 size (slice q.buf q.off cap)) z (size - z)
          (slice q.buf 0 (q.size - z)))

pub push : StreamQueue → ℕ → StreamQueue
push q s =
    let cap = length q.buf in
    let pos = q.off + q.size in
    if q.size == cap
    then record {
      buf = set (grown q) (if pos == cap then pos else q.size) (some s);
      off = 0;
      size = q.size + 1;
    }
    else record q {
      buf = set q.buf (if leb cap pos then pos - cap else pos) (some s);
      size = q.size + 1;
    }

-- `take`: nil on an empty queue.
pub take : StreamQueue → Option ℕ × StreamQueue
take q = if q.size == 0 then (none, q) else (
  get_or q.buf q.off none,
  record {
    buf = set q.buf q.off none;
    off = if (q.off + 1 == length q.buf) || (q.size - 1 == 0) then 0 else q.off + 1;
    size = q.size - 1;
  },
)
