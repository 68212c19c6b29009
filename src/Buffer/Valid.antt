-- ===== src/Buffer/Valid.antt =====
-- The representation invariant of `buffer`, and the bytes that it stands for.
use copper.Prelude.{ℕ, ◌+◌, ◌-◌, ◌≤◌, ◌<◌, ◌≡◌, arith, List, length, get_or, min}
use copper.Prelude.Arrays.{
  slice, copy_at, length-copy_at, get_or-copy_at, get_or-slice, length-slice,
}
use copper.Ring.{cell, window, length-window}
use copper.Buffer.{Buffer, moved}

pub record IsValid (b : Buffer) : Type 0 where
  pub fits : b.size ≤ length b.buf
  pub start : b.off ≤ length b.buf - 1

-- The bytes held, oldest first.
abbrev pub contents : Buffer → List ℕ
contents b = window 0 b.buf b.off b.size

pub length-contents : (b : Buffer) → length (contents b) ≡ b.size
length-contents b = length-window 0 b.buf b.off b.size

abbrev pub byte_at : Buffer → ℕ → ℕ
byte_at b i = cell 0 b.buf b.off i

pub length-moved : (b : Buffer) (dst : List ℕ) → length (moved b dst) ≡ length dst
unfolding moved
length-moved b dst =
    let stop = b.off + b.size in
    let cap = length b.buf in
    let z = min (length dst) (cap - b.off) in
    ground (
      arith,
      length-copy_at dst 0 (length dst) (slice b.buf b.off stop),
      length-copy_at dst 0 (length dst) (slice b.buf b.off cap),
      length-copy_at (copy_at dst 0 (length dst) (slice b.buf b.off cap)) z (length dst - z)
          (slice b.buf 0 (b.size - z)),
    )

-- The new array begins with the bytes held, in order.
pub get_or-moved :
    (b : Buffer) (dst : List ℕ) (i : ℕ)
    → IsValid b
    → b.size ≤ length dst
    → i < b.size
    → get_or (moved b dst) i 0 ≡ byte_at b i
unfolding moved
get_or-moved b dst i v h p =
    let stop = b.off + b.size in
    let cap = length b.buf in
    let z = min (length dst) (cap - b.off) in
    let front = slice b.buf b.off cap in
    ground (
      arith,
      length-slice b.buf b.off stop,
      length-slice b.buf b.off cap,
      length-slice b.buf 0 (b.size - z),
      get_or-slice b.buf b.off stop i 0,
      get_or-slice b.buf b.off cap i 0,
      get_or-slice b.buf 0 (b.size - z) (i - z) 0,
      length-copy_at dst 0 (length dst) front,
      get_or-copy_at dst 0 (length dst) (slice b.buf b.off stop) i 0,
      get_or-copy_at dst 0 (length dst) front i 0,
      get_or-copy_at (copy_at dst 0 (length dst) front) z (length dst - z)
          (slice b.buf 0 (b.size - z)) i 0,
    )
