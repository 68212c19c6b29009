-- ===== src/Buffer/Read.antt =====
-- `read`, `readbyte` and `discard` take from the front of the bytes held.
use copper.Prelude.{
  ℕ, ◌+◌, ◌-◌, ◌≤◌, ◌<◌, ◌≡◌, arith, refl, leb, Bool-cases, inl, inr, List, [], ◌∷◌, length, get_or,
  min, take, drop, ext, length-take, length-drop, get_or-take, get_or-drop, length-append,
  get_or-append, some, get_elem?-eq-get_or,
}
use copper.Prelude.Arrays.{slice, length-slice, get_or-slice}
use copper.Ring.{window-eq, get_or-window}
use copper.Buffer.{Buffer, read_straight, read_wrapped, read, after_byte, readbyte, discard}
use copper.Buffer.Valid.{IsValid, contents, length-contents, byte_at}

-- A buffer whose bytes are those of `b` from `n` on holds the rest.
drop_eq :
    (b c : Buffer) (n : ℕ)
    → c.size ≡ b.size - n
    → ((i : ℕ) → i < c.size → byte_at c i ≡ byte_at b (n + i))
    → contents c ≡ drop n (contents b)
drop_eq b c n e h =
    window-eq 0 c.buf c.off c.size (drop n (contents b))
      (omega (arith, length-drop n (contents b), length-contents b))
      (λ i p.
        ground
          (arith, h i, get_or-drop n (contents b) i 0, get_or-window 0 b.buf b.off b.size (n + i)))

take_eq :
    (b : Buffer) (n : ℕ) (xs : List ℕ)
    → length xs ≡ min n b.size
    → ((i : ℕ) → i < length xs → get_or xs i 0 ≡ byte_at b i)
    → xs ≡ take n (contents b)
take_eq b n xs e h =
    ext xs (take n (contents b)) 0 (omega (arith, e, length-take n (contents b), length-contents b))
      (λ i p.
        ground
          (arith, e, h i, get_or-take n (contents b) i 0, get_or-window 0 b.buf b.off b.size i))

-- Discarding up to what is held drops that many bytes from the front; asking for more drops all.
-- The count returned is what was dropped, and the representation stays valid.
pub contents-discard :
    (b : Buffer) (n : ℕ)
    → IsValid b
    → ((discard b n).0 ≡ min n b.size)
      × (contents (discard b n).1 ≡ drop n (contents b))
      × IsValid (discard b n).1
contents-discard b n v = (count, drop_eq b (discard b n).1 n size (λ i p. bytes i p), valid)
  where
    count : (discard b n).0 ≡ min n b.size
    count = unfold discard in ground arith

    size : (discard b n).1.size ≡ b.size - n
    size = unfold discard in ground arith

    bytes : (i : ℕ) → i < (discard b n).1.size → byte_at (discard b n).1 i ≡ byte_at b (n + i)
    bytes i p = unfold discard in ground (arith, p)

    valid : IsValid (discard b n).1
    valid = unfold discard in ground arith

after_byte_lem :
    (b : Buffer)
    → IsValid b
    → 0 < b.size
    → ((after_byte b).size ≡ b.size - 1)
      × ((i : ℕ) → i < (after_byte b).size → byte_at (after_byte b) i ≡ byte_at b (1 + i))
      × IsValid (after_byte b)
unfolding after_byte
after_byte_lem b v h = (ground arith, (λ i p. ground arith), ground arith)

-- `readbyte` on a buffer with data returns the oldest byte and keeps the rest, in a valid buffer.
pub contents-readbyte :
    (b : Buffer)
    → IsValid b
    → 0 < b.size
    → (c : ℕ) × (b' : Buffer) × (readbyte b ≡ some (c, b'))
      × (contents b ≡ c ∷ contents b')
      × IsValid b'
contents-readbyte b v h =
    let c = get_or b.buf b.off 0 in
    let b' = after_byte b in
    let (size, bytes, valid) = after_byte_lem b v h in
    (
      c,
      b',
      unfold readbyte in rw (get_elem?-eq-get_or b.buf b.off 0 (omega arith), readbyte) refl,
      window-eq 0 b.buf b.off b.size (c ∷ contents b') (omega (arith, size, length-contents b'))
          (λ i p. ground (
            arith,
            size,
            bytes (i - 1),
            get_or-append (c ∷ []) (contents b') i 0,
            get_or-window 0 b'.buf b'.off b'.size (i - 1),
          )),
      valid,
    )

module _ (b : Buffer) (room : ℕ) (v : IsValid b) where
  abbrev Taken : List ℕ × Buffer → Type 0
  Taken r =
      (length r.0 ≡ min room b.size)
      × ((i : ℕ) → i < length r.0 → get_or r.0 i 0 ≡ byte_at b i)
      × (r.1.size ≡ b.size - room)
      × ((i : ℕ) → i < r.1.size → byte_at r.1 i ≡ byte_at b (room + i))
      × IsValid r.1

  straight_lem : b.off + b.size ≤ length b.buf → Taken (read_straight b room)
  unfolding read_straight
  straight_lem w =
      let stop = b.off + b.size in
      let s1 = slice b.buf b.off stop in
      let l1 = length-slice b.buf b.off stop in
      let t1 = length-take room s1 in
      (
        ground arith,
        (λ i p. ground (arith, get_or-take room s1 i 0, get_or-slice b.buf b.off stop i 0)),
        ground arith,
        (λ i p. ground arith),
        ground arith,
      )

  wrapped_lem : length b.buf < b.off + b.size → Taken (read_wrapped b room)
  unfolding read_wrapped
  wrapped_lem w =
      let cap = length b.buf in
      let s2 = slice b.buf b.off cap in
      let n = length (take room s2) in
      let s3 = slice b.buf 0 (b.size - n) in
      let l2 = length-slice b.buf b.off cap in
      let l3 = length-slice b.buf 0 (b.size - n) in
      let t2 = length-take room s2 in
      let t3 = length-take (room - n) s3 in
      let a = length-append (take room s2) (take (room - n) s3) in
      (
        ground arith,
        (λ i p. ground (
          arith,
          get_or-take room s2 i 0,
          get_or-slice b.buf b.off cap i 0,
          get_or-append (take room s2) (take (room - n) s3) i 0,
          get_or-take (room - n) s3 (i - n) 0,
          get_or-slice b.buf 0 (b.size - n) (i - n) 0,
        )),
        ground arith,
        (λ i p. ground arith),
        ground arith,
      )

  read-Taken : Taken (read b room)
  unfolding read
  read-Taken = elim (Bool-cases (leb (b.off + b.size) (length b.buf))) [
    | inl w ↦ rw w (straight_lem (ground arith))
    | inr w ↦ rw w (wrapped_lem (ground arith))
  ]

-- Reading into `room` bytes returns the first `room` of the bytes held, or all, and keeps the rest,
-- in a valid buffer.
pub contents-read :
    (b : Buffer) (room : ℕ)
    → IsValid b
    → ((read b room).0 ≡ take room (contents b))
      × (contents (read b room).1 ≡ drop room (contents b))
      × IsValid (read b room).1
contents-read b room v =
    let (l, bytes, s, rest, valid) = read-Taken b room v in
    (take_eq b room (read b room).0 l bytes, drop_eq b (read b room).1 room s rest, valid)
