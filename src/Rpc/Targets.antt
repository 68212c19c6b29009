-- ===== src/Rpc/Targets.antt =====
-- The target id of a new stream is read by one `Read`, which may bring less than its eight bytes.
use copper.Prelude.{
  ℕ, ◌/◌, ◌%◌, ◌^◌, ◌<◌, ◌≤◌, ◌≡◌, ◌∙◌, refl, ap, zero, suc, false, true, arith, List, [], ◌∷◌,
  ◌++◌, length, take, drop, get_or, ltb, Bool, Option, none, some,
}
use copper.Errors.{GoError, error_code, ok, err}
use copper.Errors.Code
use copper.Rpc.{
  read_request_type, read_full, gather, known_end, read_piece, read_target, write_new_stream,
  uint64, put_uint64,
}

-- A number that is not below its own length stands for the zero that the buffer began with.
short : (p : List ℕ) (i : ℕ) → length p ≤ i → get_or p i 0 ≡ 0
short [] i h = refl
short (x ∷ p) zero h = absurd (omega arith)
short (x ∷ p) (suc i) h = short p i (omega arith)

last_byte : (p : List ℕ) → length p < 8 → uint64 p % 256 ≡ 0
last_byte p h = omega (arith, short p 7 (omega arith))

take_all : (n : ℕ) (p : List ℕ) → length p ≤ n → take n p ≡ p
take_all zero [] h = refl
take_all zero (x ∷ p) h = absurd (omega arith)
take_all (suc n) [] h = refl
take_all (suc n) (x ∷ p) h = ap (x ∷◌) (take_all n p (omega arith))

-- What `read_target` makes of a first piece that is short, by the error that comes with it.
abbrev pub Misread : List ℕ → List (List ℕ) → GoError → Bool → Option GoError → Type 0
Misread p rest fin ended none =
    (n : ℕ) × (read_target (record { pieces = p ∷ rest; fin = fin; ended = ended })
      ≡ (ok n, record { pieces = rest; fin = fin; ended = ended }))
    × (n % 256 ≡ 0)
Misread p rest fin ended (some e) =
    (read_target (record { pieces = p ∷ rest; fin = fin; ended = ended })).0
    ≡ err (error_code Code.einvalid)

-- If the first piece that arrives behind the request type holds fewer than the eight bytes of the
-- target id, then: where more pieces are to come, or the end of the stream is not known yet, the read
-- succeeds with a number whose last byte is 0, whatever target id was sent, and leaves the later pieces
-- on the stream; where it is the last piece and the end is known, the answer is EINVALID.
pub short_read_misses :
    (p : List ℕ) (rest : List (List ℕ)) (fin : GoError) (ended : Bool)
    → length p < 8
    → Misread p rest fin ended (known_end rest ended fin)
unfolding read_target read_piece
short_read_misses p rest fin ended h = by_end (known_end rest ended fin) refl
  where
    by_end : (o : Option GoError) → known_end rest ended fin ≡ o → Misread p rest fin ended o
    by_end none e =
        let f : ltb 8 (length p) ≡ false = ground arith in
        (uint64 p, rw (f, e, take_all 8 p (omega arith)) refl, last_byte p h)
    by_end (some x) e = let f : ltb 8 (length p) ≡ false = ground arith in rw (f, e) refl

-- A complete target id that the end of the stream is right behind, and known, is refused too.
pub ended_target_refused :
    (t : ℕ) (fin : GoError)
    → (read_target (record { pieces = put_uint64 t ∷ []; fin = fin; ended = true })).0
      ≡ err (error_code Code.einvalid)
unfolding read_target read_piece
ended_target_refused t fin = refl

first_byte :
    (b c : ℕ) (q : List ℕ) (rest : List (List ℕ)) (fin : GoError) (ended : Bool)
    → read_request_type (record { pieces = (b ∷ (c ∷ q)) ∷ rest; fin = fin; ended = ended })
      ≡ (ok b, record { pieces = (c ∷ q) ∷ rest; fin = fin; ended = ended })
unfolding read_request_type read_full gather
first_byte b c q rest fin ended =
    let l : ltb 1 (length (b ∷ (c ∷ q))) ≡ true = ground arith in rw l refl

full_target :
    (t m : ℕ) (more : List ℕ) (rest : List (List ℕ)) (fin : GoError) (ended : Bool)
    → t < 2 ^ 64
    → (read_target
        (record { pieces = (put_uint64 t ++ (m ∷ more)) ∷ rest; fin = fin; ended = ended })).0
      ≡ ok t
unfolding read_target read_piece
full_target t m more rest fin ended h =
    let l : ltb 8 (length (put_uint64 t ++ (m ∷ more))) ≡ true = ground arith in
    rw l (ap ok (omega arith))

-- If the request type and the target id arrive in one piece with something behind them, then the
-- request is read as one for a new stream and its target id, below 2^64, is the one sent.
pub new_stream_target :
    (t m : ℕ) (more : List ℕ) (rest : List (List ℕ)) (fin : GoError) (ended : Bool)
    → t < 2 ^ 64
    → let r =
        read_request_type (record {
          pieces = (write_new_stream t ++ (m ∷ more)) ∷ rest;
          fin = fin;
          ended = ended;
        }) in
      (r.0 ≡ ok 0) × ((read_target r.1).0 ≡ ok t)
unfolding write_new_stream
new_stream_target t m more rest fin ended h =
    let e =
      first_byte 0 (t / 2 ^ 32 / 2 ^ 24 % 256) (drop 1 (put_uint64 t) ++ (m ∷ more)) rest fin
        ended in
    (ap (λ r. r.0) e, ap (λ r. (read_target r.1).0) e ∙ full_target t m more rest fin ended h)
