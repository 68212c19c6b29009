-- ===== src/Buffer/Write.antt =====
-- `write` and `writebyte` append to the bytes held.
use copper.Prelude.{
  ℕ, ◌+◌, ◌-◌, ◌^◌, ◌≤◌, ◌<◌, ◌≡◌, arith, List, [], ◌∷◌, leb, Bool-cases, inl, inr, ltb→lt, ◌++◌,
  length, get_or, ltb, if◌then◌else◌, min, get_or-append, length-append, replicate,
  length-replicate, length-set, get_or-set,
}
use copper.Prelude.Arrays.{
  slice, copy_at, length-copy_at, get_or-copy_at, get_or-slice, length-slice,
}
use copper.Pow2.{minpow2}
use copper.Pow2.Bounds.{minpow2_bounds}
use copper.Ring.{slot, window-eq, get_or-window}
use copper.Buffer.{
  Buffer, moved, write_grown, write_wrapped, write_behind, write_split, write, writebyte,
}
use copper.Buffer.Valid.{IsValid, contents, length-contents, byte_at, length-moved, get_or-moved}

-- A buffer that holds `m` bytes as before and then `src` has the appended contents.
append_eq :
    (b c : Buffer) (src : List ℕ)
    → c.size ≡ b.size + length src
    → ((i : ℕ)
        → i < c.size
        → byte_at c i ≡ (if ltb i b.size then byte_at b i else get_or src (i - b.size) 0))
    → contents c ≡ contents b ++ src
append_eq b c src e h =
    window-eq 0 c.buf c.off c.size (contents b ++ src)
      (omega (arith, length-append (contents b) src, length-contents b))
      (λ i p. ground (
        arith,
        h i,
        get_or-append (contents b) src i 0,
        length-contents b,
        get_or-window 0 b.buf b.off b.size i,
      ))

size-write : (b : Buffer) (src : List ℕ) → (write b src).size ≡ b.size + length src
unfolding write write_grown write_wrapped write_behind write_split
size-write b src = ground arith

module _ (b : Buffer) (src : List ℕ) (v : IsValid b) where
  -- What a write of `src` has to leave: the bytes in order, in a valid buffer.
  abbrev Appended : Buffer → Type 0
  Appended c =
      ((i : ℕ)
        → i < b.size + length src
        → byte_at c i ≡ (if ltb i b.size then byte_at b i else get_or src (i - b.size) 0))
      × IsValid c

  write_grown_lem :
      length b.buf < b.size + length src
      → b.size + length src ≤ 2 ^ 62
      → Appended (write_grown b src)
  unfolding write_grown
  write_grown_lem g h =
      let m = b.size in
      let n = m + length src in
      let fresh : List ℕ = replicate (minpow2 n) 0 in
      let dst = moved b fresh in
      let l : length dst ≡ minpow2 n =
        omega (arith, length-replicate {A = ℕ} (minpow2 n) 0, length-moved b fresh) in
      let big : n ≤ minpow2 n = (minpow2_bounds n (omega arith) h).1 in
      let l' = length-copy_at dst m (length dst - m) src in
      (
        (λ i p. ground (
          arith,
          length-replicate {A = ℕ} (minpow2 n) 0,
          get_or-moved b fresh i v,
          get_or-copy_at dst m (length dst - m) src i 0,
        )),
        ground arith,
      )

  module _ (g : b.size + length src ≤ length b.buf) where
    write_wrapped_lem : length b.buf ≤ b.off + b.size → Appended (write_wrapped b src)
    unfolding write_wrapped
    write_wrapped_lem w =
        let cap = length b.buf in
        let at = b.off + b.size - cap in
        let l = length-copy_at b.buf at (cap - at) src in
        (
          (λ i p. ground (arith, get_or-copy_at b.buf at (cap - at) src (slot cap b.off i) 0)),
          ground arith,
        )

    write_behind_lem : b.off + b.size + length src ≤ length b.buf → Appended (write_behind b src)
    unfolding write_behind
    write_behind_lem w =
        let stop = b.off + b.size in
        let l = length-copy_at b.buf stop (length src) src in
        (
          (λ i p.
              ground (
                arith,
                get_or-copy_at b.buf stop (length src) src (slot (length b.buf) b.off i) 0,
              )),
          ground arith,
        )

    write_split_lem :
        b.off + b.size < length b.buf
        → length b.buf < b.off + b.size + length src
        → Appended (write_split b src)
    unfolding write_split
    write_split_lem w x =
        let stop = b.off + b.size in
        let cap = length b.buf in
        let z = min (cap - stop) (length src) in
        let first = copy_at b.buf stop (cap - stop) src in
        let rest = slice src z (length src) in
        let l = length-copy_at b.buf stop (cap - stop) src in
        let l' = length-copy_at first 0 cap rest in
        let r = length-slice src z (length src) in
        (
          (λ i p.
              let j = slot cap b.off i in
              ground (
                arith,
                get_or-copy_at b.buf stop (cap - stop) src j 0,
                get_or-copy_at first 0 cap rest j 0,
                get_or-slice src z (length src) j 0,
              )),
          ground arith,
        )

  write-Appended : b.size + length src ≤ 2 ^ 62 → Appended (write b src)
  unfolding write
  write-Appended h = elim (Bool-cases (ltb (length b.buf) (b.size + length src))) [
    | inl g ↦ rw g (write_grown_lem (ltb→lt _ _ g) h)
    | inr g ↦ rw g (fitting (ground arith))
  ]
    where
      fitting :
          b.size + length src ≤ length b.buf
          → Appended (
              if leb (length b.buf) (b.off + b.size)
              then write_wrapped b src
              else if leb (b.off + b.size + length src) (length b.buf)
              then write_behind b src
              else write_split b src)
      fitting f = elim (Bool-cases (leb (length b.buf) (b.off + b.size))) [
        | inl w ↦ rw w (write_wrapped_lem f (ground arith))
        | inr w ↦ rw w (elim (Bool-cases (leb (b.off + b.size + length src) (length b.buf))) [
          | inl x ↦ rw x (write_behind_lem f (ground arith))
          | inr x ↦ rw x (write_split_lem f (ground arith) (ground arith))
        ])
      ]

-- Writing appends the bytes and keeps the representation valid, whether the array grows, wraps or
-- has room, as long as the new size is at most 2^62.
pub contents-write :
    (b : Buffer) (src : List ℕ)
    → IsValid b
    → b.size + length src ≤ 2 ^ 62
    → (contents (write b src) ≡ contents b ++ src) × IsValid (write b src)
contents-write b src v h =
    let (bytes, valid) = write-Appended b src v h in
    (
      append_eq b (write b src) src (size-write b src)
          (λ i p. bytes i (omega (arith, size-write b src))),
      valid,
    )

size-writebyte : (b : Buffer) (c : ℕ) → (writebyte b c).size ≡ b.size + 1
unfolding writebyte
size-writebyte b c = ground arith

byte_at-writebyte :
    (b : Buffer) (c i : ℕ)
    → IsValid b
    → b.size + 1 ≤ 2 ^ 62
    → i < b.size + 1
    → byte_at (writebyte b c) i
      ≡ (if ltb i b.size then byte_at b i else get_or (c ∷ []) (i - b.size) 0)
unfolding writebyte
byte_at-writebyte b c i v h p =
    let m = b.size in
    let stop = b.off + m in
    let cap = length b.buf in
    let fresh : List ℕ = replicate (minpow2 (m + 1)) 0 in
    let dst = moved b fresh in
    let j = if ltb (b.off + i) cap then b.off + i else b.off + i - cap in
    ground (
      arith,
      minpow2_bounds (m + 1),
      length-replicate {A = ℕ} (minpow2 (m + 1)) 0,
      length-moved b fresh,
      get_or-moved b fresh i,
      length-set dst m c,
      get_or-set dst m i c 0,
      length-set b.buf (stop - cap) c,
      get_or-set b.buf (stop - cap) j c 0,
      length-set b.buf stop c,
      get_or-set b.buf stop j c 0,
    )

-- `writebyte` appends its byte and keeps the representation valid, up to 2^62 bytes.
pub contents-writebyte :
    (b : Buffer) (c : ℕ)
    → IsValid b
    → b.size + 1 ≤ 2 ^ 62
    → (contents (writebyte b c) ≡ contents b ++ (c ∷ [])) × IsValid (writebyte b c)
contents-writebyte b c v h = (
  append_eq b (writebyte b c) (c ∷ []) (size-writebyte b c)
      (λ i p. byte_at-writebyte b c i v h (omega (arith, size-writebyte b c))),
  valid,
)
  where
    valid : IsValid (writebyte b c)
    valid =
        unfold writebyte in
        ground (
          arith,
          minpow2_bounds (b.size + 1),
          length-replicate {A = ℕ} (minpow2 (b.size + 1)) 0,
          length-moved b (replicate (minpow2 (b.size + 1)) 0),
          length-set (moved b (replicate (minpow2 (b.size + 1)) 0)) b.size c,
          length-set b.buf (b.off + b.size - length b.buf) c,
          length-set b.buf (b.off + b.size) c,
        )
