-- ===== src/Buffer/Peek.antt =====
-- `peek` moves the data when it wraps, and returns all of it in one piece.
use copper.Prelude.{
  ℕ, ◌+◌, ◌-◌, ◌*◌, ◌≤◌, ◌<◌, ◌≡◌, refl, arith, leb, ltb, Bool-cases, inl, inr, List, length, min,
  replicate, length-replicate, ◌∙◌, sym,
}
use copper.Prelude.Arrays.{
  slice, copy_at, length-copy_at, get_or-copy_at, get_or-slice, length-slice,
}
use copper.Ring.{window-eq, get_or-window}
use copper.Buffer.{Buffer, straighten_grown, straighten_within, straighten, peek}
use copper.Buffer.Valid.{IsValid, contents, length-contents, byte_at}

module _ (b : Buffer) (v : IsValid b) where
  abbrev Straight : Buffer → Type 0
  Straight c =
      ((i : ℕ) → i < b.size → byte_at c i ≡ byte_at b i)
      × (c.size ≡ b.size)
      × (c.off + c.size ≤ length c.buf)
      × IsValid c

  grown_lem : length b.buf < b.off + b.size → Straight (straighten_grown b)
  unfolding straighten_grown
  grown_lem w =
      let cap = length b.buf in
      let tail = b.off + b.size - cap in
      let front = slice b.buf b.off cap in
      let n = min (cap * 2) (cap - b.off) in
      let fresh : List ℕ = replicate (cap * 2) 0 in
      let grown = copy_at fresh 0 (cap * 2) front in
      let l1 = length-replicate {A = ℕ} (cap * 2) 0 in
      let l2 = length-copy_at fresh 0 (cap * 2) front in
      let l3 = length-copy_at grown n (cap * 2 - n) (slice b.buf 0 tail) in
      let f = length-slice b.buf b.off cap in
      let g = length-slice b.buf 0 tail in
      (
        (λ i p. ground (
          arith,
          get_or-slice b.buf b.off cap i 0,
          get_or-slice b.buf 0 tail (i - n) 0,
          get_or-copy_at fresh 0 (cap * 2) front i 0,
          get_or-copy_at grown n (cap * 2 - n) (slice b.buf 0 tail) i 0,
        )),
        refl,
        ground arith,
        ground arith,
      )

  within_lem :
      length b.buf < b.off + b.size → b.size * 2 ≤ length b.buf → Straight (straighten_within b)
  unfolding straighten_within
  within_lem w x =
      let cap = length b.buf in
      let tail = b.off + b.size - cap in
      let front = slice b.buf b.off cap in
      let n = min (cap - tail) (cap - b.off) in
      let e : n ≡ cap - b.off = omega arith in
      let once = copy_at b.buf tail (cap - tail) front in
      let l4 = length-copy_at b.buf tail (cap - tail) front in
      let l5 = length-copy_at once (tail + n) (b.off - (tail + n)) (slice once 0 tail) in
      let f = length-slice b.buf b.off cap in
      let g = length-slice once 0 tail in
      (
        (λ i p. ground (
          arith,
          get_or-slice b.buf b.off cap i 0,
          get_or-copy_at b.buf tail (cap - tail) front (tail + i) 0,
          get_or-copy_at b.buf tail (cap - tail) front (i - n) 0,
          get_or-slice once 0 tail (i - n) 0,
          get_or-copy_at once (tail + n) (b.off - (tail + n)) (slice once 0 tail) (tail + i) 0,
        )),
        refl,
        ground arith,
        ground arith,
      )

  straighten-Straight : Straight (straighten b)
  unfolding straighten
  straighten-Straight = elim (Bool-cases (leb (b.off + b.size) (length b.buf))) [
    | inl w ↦ rw w ((λ i p. refl), refl, ground arith, v)
    | inr w ↦ rw w (elim (Bool-cases (ltb (length b.buf) (b.size * 2))) [
      | inl x ↦ rw x (grown_lem (ground arith))
      | inr x ↦ rw x (within_lem (ground arith) (ground arith))
    ])
  ]

-- `peek` returns all the bytes held, in order, and changes neither them nor the validity of the
-- representation.
pub contents-peek :
    (b : Buffer)
    → IsValid b
    → ((peek b).0 ≡ contents b) × (contents (peek b).1 ≡ contents b) × IsValid (peek b).1
unfolding peek
contents-peek b v =
    let (bytes, size, flat, valid) = straighten-Straight b v in
    let c = straighten b in
    let same : contents c ≡ contents b =
      window-eq 0 c.buf c.off c.size (contents b) (omega (arith, size, length-contents b))
        (λ i p. ground (arith, bytes i, size, get_or-window 0 b.buf b.off b.size i)) in
    (
      sym (
            window-eq 0 c.buf c.off c.size (slice c.buf c.off (c.off + c.size))
              (omega (arith, length-slice c.buf c.off (c.off + c.size)))
              (λ i p. ground (arith, get_or-slice c.buf c.off (c.off + c.size) i 0)))
          ∙ same,
      same,
      valid,
    )
