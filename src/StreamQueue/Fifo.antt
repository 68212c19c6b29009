-- ===== src/StreamQueue/Fifo.antt =====
-- The queue of stream pointers refines a plain list: `push` appends and `take` takes the head.
use copper.Prelude.{
  ◌*◌, ℕ, ◌+◌, ◌-◌, ◌^◌, ◌≤◌, ◌<◌, ◌≡◌, ap, sym, ◌∙◌, suc, refl, arith, List, [], ◌∷◌, ◌++◌, length,
  get_or, ltb, leb, ◌==◌, if◌then◌else◌, Option, none, some, map, min, replicate, length-replicate,
  length-set, get_or-set, get_or-append, length-append,
}
use copper.Prelude.Arrays.{
  slice, copy_at, length-copy_at, get_or-copy_at, get_or-slice, length-slice,
}
use copper.Pow2.{minpow2}
use copper.Pow2.Bounds.{minpow2_bounds}
use copper.Ring.{slot, cell, window, window-eq, get_or-window, length-window}
use copper.StreamQueue.{StreamQueue, grown, push, take}

pub record IsValid (q : StreamQueue) : Type 0 where
  pub fits : q.size ≤ length q.buf
  pub start : q.off ≤ length q.buf - 1

-- The pointers held, oldest first.
abbrev pub pointers : StreamQueue → List (Option ℕ)
pointers q = window none q.buf q.off q.size

-- The queue holds the streams `xs`.
abbrev pub Holds : StreamQueue → List ℕ → Type 0
Holds q xs = IsValid q × (pointers q ≡ map some xs)

length-grown : (q : StreamQueue) → length (grown q) ≡ minpow2 (length q.buf + 1)
unfolding grown
length-grown q =
    let cap = length q.buf in
    let size = minpow2 (cap + 1) in
    let dst : List (Option ℕ) = replicate size none in
    let z = min size (cap - q.off) in
    let once = copy_at dst 0 size (slice q.buf q.off cap) in
    ground (
      arith,
      length-replicate {A = Option ℕ} size none,
      length-copy_at dst 0 size q.buf,
      length-copy_at dst 0 size (slice q.buf q.off cap),
      length-copy_at once z (size - z) (slice q.buf 0 (q.size - z)),
    )

module _ (q : StreamQueue) (v : IsValid q) where
  abbrev pointer : StreamQueue → ℕ → Option ℕ
  pointer q i = cell none q.buf q.off i

  get_or-grown :
      (i : ℕ)
      → q.size ≡ length q.buf
      → length q.buf + 1 ≤ 2 ^ 62
      → i < q.size
      → get_or (grown q) i none ≡ pointer q i
  unfolding grown
  get_or-grown i full h p =
      let cap = length q.buf in
      let size = minpow2 (cap + 1) in
      let dst : List (Option ℕ) = replicate size none in
      let z = min size (cap - q.off) in
      let once = copy_at dst 0 size (slice q.buf q.off cap) in
      ground (
        arith,
        minpow2_bounds (cap + 1),
        length-replicate {A = Option ℕ} size none,
        length-copy_at dst 0 size q.buf,
        get_or-copy_at dst 0 size q.buf i none,
        length-slice q.buf q.off cap,
        length-slice q.buf 0 (q.size - z),
        get_or-slice q.buf q.off cap i none,
        get_or-slice q.buf 0 (q.size - z) (i - z) none,
        length-copy_at dst 0 size (slice q.buf q.off cap),
        get_or-copy_at dst 0 size (slice q.buf q.off cap) i none,
        get_or-copy_at once z (size - z) (slice q.buf 0 (q.size - z)) i none,
      )

  pointer-push :
      (s i : ℕ)
      → length q.buf + 1 ≤ 2 ^ 62
      → i < q.size + 1
      → pointer (push q s) i ≡ (if ltb i q.size then pointer q i else some s)
  unfolding push
  pointer-push s i h p =
      let cap = length q.buf in
      let pos = q.off + q.size in
      ground (
        arith,
        minpow2_bounds (cap + 1),
        length-grown q,
        get_or-grown i,
        length-set (grown q) (if pos == cap then pos else q.size) (some s),
        get_or-set (grown q) (if pos == cap then pos else q.size) i (some s) none,
        length-set q.buf (if leb cap pos then pos - cap else pos) (some s),
        get_or-set q.buf (if leb cap pos then pos - cap else pos) (slot cap q.off i) (some s) none,
      )

  push-IsValid : (s : ℕ) → length q.buf + 1 ≤ 2 ^ 62 → IsValid (push q s)
  unfolding push
  push-IsValid s h =
      let cap = length q.buf in
      let pos = q.off + q.size in
      ground (
        arith,
        minpow2_bounds (cap + 1),
        length-grown q,
        length-set (grown q) (if pos == cap then pos else q.size) (some s),
        length-set q.buf (if leb cap pos then pos - cap else pos) (some s),
      )

pub size-push : (q : StreamQueue) (s : ℕ) → (push q s).size ≡ q.size + 1
unfolding push
size-push q s = ground arith

map-append_one : (xs : List ℕ) (s : ℕ) → map some (xs ++ (s ∷ [])) ≡ map some xs ++ (some s ∷ [])
map-append_one [] s = refl
map-append_one (x ∷ xs) s = ap (λ l. some x ∷ l) (map-append_one xs s)

pointers-push :
    (q : StreamQueue) (s : ℕ)
    → IsValid q
    → length q.buf + 1 ≤ 2 ^ 62
    → pointers (push q s) ≡ pointers q ++ (some s ∷ [])
pointers-push q s v h =
    let c = push q s in
    window-eq none c.buf c.off c.size (pointers q ++ (some s ∷ []))
      (omega (
        arith,
        size-push q s,
        length-append (pointers q) (some s ∷ []),
        length-window none q.buf q.off q.size,
      ))
      (λ i p. ground (
        arith,
        size-push q s,
        pointer-push q v s i h,
        length-window none q.buf q.off q.size,
        get_or-append (pointers q) (some s ∷ []) i none,
        get_or-window none q.buf q.off q.size i,
      ))

-- Pushing a stream puts it behind those that the queue holds, whether the array grows or wraps,
-- as long as the array is shorter than 2^62.
pub Holds-push :
    (q : StreamQueue) (xs : List ℕ) (s : ℕ)
    → Holds q xs
    → length q.buf + 1 ≤ 2 ^ 62
    → Holds (push q s) (xs ++ (s ∷ []))
Holds-push q xs s (v, e) h = (
  push-IsValid q v s h,
  pointers-push q s v h ∙ ap (λ l. l ++ (some s ∷ [])) e ∙ sym (map-append_one xs s),
)

take-nil : (q : StreamQueue) → q.size ≡ 0 → take q ≡ (none, q)
unfolding take
take-nil q e = rw e

take-IsValid : (q : StreamQueue) → IsValid q → IsValid (take q).1
unfolding take
take-IsValid q v = ground (arith, length-set q.buf q.off none)

pub size-take : (q : StreamQueue) → (take q).1.size ≡ q.size - 1
unfolding take
size-take q = ground arith

pointer-take :
    (q : StreamQueue) (i : ℕ)
    → IsValid q
    → i < q.size - 1
    → cell none (take q).1.buf (take q).1.off i ≡ cell none q.buf q.off (1 + i)
unfolding take
pointer-take q i v h =
    let cap = length q.buf in
    ground (
      arith,
      length-set q.buf q.off none,
      get_or-set q.buf q.off (q.off + 1 + i) none none,
      get_or-set q.buf q.off (1 + i) none none,
      get_or-set q.buf q.off (q.off + 1 + i - cap) none none,
      get_or-set q.buf q.off i none none,
    )

head-take : (q : StreamQueue) → 0 < q.size → (take q).0 ≡ get_or q.buf q.off none
unfolding take
head-take q h = ground arith

-- Taking from a queue that holds no stream gives nil and changes nothing.
pub take-empty : (q : StreamQueue) → Holds q [] → take q ≡ (none, q)
take-empty q (v, e) = take-nil q (omega (arith, ap length e, length-window none q.buf q.off q.size))

module _ (q : StreamQueue) (x : ℕ) (xs : List ℕ) (v : IsValid q)
    (e : pointers q ≡ some x ∷ map some xs) where
  size_lem : q.size ≡ suc (length (map some xs))
  size_lem = sym (length-window none q.buf q.off q.size) ∙ ap length e

  head_lem : (take q).0 ≡ some x
  head_lem = ground (
    arith,
    size_lem,
    head-take q,
    get_or-window none q.buf q.off q.size 0,
    ap (λ l. get_or l 0 none) e,
  )

  tail_lem : pointers (take q).1 ≡ map some xs
  tail_lem =
      let c = (take q).1 in
      window-eq none c.buf c.off c.size (map some xs) (omega (arith, size_lem, size-take q)) (λ i p.
        pointer-take q i v (omega (arith, p, size-take q))
        ∙ sym (get_or-window none q.buf q.off q.size (1 + i) (omega (arith, p, size-take q)))
        ∙ ap (λ l. get_or l (1 + i) none) e
        ∙ shift i)
    where
      shift : (i : ℕ) → get_or (some x ∷ map some xs) (1 + i) none ≡ get_or (map some xs) i none
      shift i = ground (arith, get_or-append (some x ∷ []) (map some xs) (1 + i) none)

-- Taking from a queue that holds streams gives the oldest and leaves the others, in order.
pub Holds-take :
    (q : StreamQueue) (x : ℕ) (xs : List ℕ)
    → Holds q (x ∷ xs)
    → ((take q).0 ≡ some x) × Holds (take q).1 xs
Holds-take q x xs (v, e) = (head_lem q x xs v e, (take-IsValid q v, tail_lem q x xs v e))

-- The array at most doubles when the queue is full, and is kept otherwise.
pub length-push :
    (q : StreamQueue) (s n : ℕ)
    → IsValid q
    → q.size < n
    → n ≤ 2 ^ 61
    → length q.buf ≤ 2 * n
    → length (push q s).buf ≤ 2 * n
unfolding push
length-push q s n v h k l =
    let cap = length q.buf in
    let pos = q.off + q.size in
    ground (
      arith,
      minpow2_bounds (cap + 1),
      length-grown q,
      length-set (grown q) (if pos == cap then pos else q.size) (some s),
      length-set q.buf (if leb cap pos then pos - cap else pos) (some s),
    )

pub length-take_buf : (q : StreamQueue) → length (take q).1.buf ≡ length q.buf
unfolding take
length-take_buf q = ground (arith, length-set q.buf q.off none)

pub length-pointers : (q : StreamQueue) → length (pointers q) ≡ q.size
length-pointers q = length-window none q.buf q.off q.size
