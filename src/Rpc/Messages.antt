-- ===== src/Rpc/Messages.antt =====
-- Messages are read as they were written, in whatever pieces they arrive.
use copper.Prelude.{
  ℕ, zero, suc, ◌+◌, ◌-◌, ◌%◌, ◌^◌, ◌<◌, ◌≤◌, ◌≡◌, refl, ap, sym, ◌∙◌, arith, List, [], ◌∷◌, ◌++◌,
  length, take, drop, true, false, ◌==◌, ltb, leb, if◌then◌else◌, length-append, length-take,
  length-drop, Bool-cases, inl, inr,
}
use copper.Errors.{GoError, eof, unexpected_eof, is_eof, Result, ok, err}
use copper.Frame.Wire.{put_uint32, uint32}
use copper.Rpc.{Incoming, read_full, gather, read_message, write_message, read_payload}

-- All that is still to be read.
unfoldable pub joined : List (List ℕ) → List ℕ
joined [] = []
joined (p ∷ rest) = p ++ joined rest

take-append_short :
    (n : ℕ) (xs ys : List ℕ) → length xs ≤ n → take n (xs ++ ys) ≡ xs ++ take (n - length xs) ys
take-append_short n [] ys h = ap (λ m. take m ys) (omega arith)
take-append_short zero (x ∷ xs) ys h = absurd (omega arith)
take-append_short (suc n) (x ∷ xs) ys h =
    ap (x ∷◌) (take-append_short n xs ys (omega arith) ∙ ap (λ m. xs ++ take m ys) (omega arith))

take-append_long : (n : ℕ) (xs ys : List ℕ) → n ≤ length xs → take n (xs ++ ys) ≡ take n xs
take-append_long zero xs ys h = refl
take-append_long (suc n) [] ys h = absurd (omega arith)
take-append_long (suc n) (x ∷ xs) ys h = ap (x ∷◌) (take-append_long n xs ys (omega arith))

drop-append_short :
    (n : ℕ) (xs ys : List ℕ) → length xs ≤ n → drop n (xs ++ ys) ≡ drop (n - length xs) ys
drop-append_short n [] ys h = ap (λ m. drop m ys) (omega arith)
drop-append_short zero (x ∷ xs) ys h = absurd (omega arith)
drop-append_short (suc n) (x ∷ xs) ys h =
    drop-append_short n xs ys (omega arith) ∙ ap (λ m. drop m ys) (omega arith)

drop-append_long : (n : ℕ) (xs ys : List ℕ) → n ≤ length xs → drop n (xs ++ ys) ≡ drop n xs ++ ys
drop-append_long zero xs ys h = refl
drop-append_long (suc n) [] ys h = absurd (omega arith)
drop-append_long (suc n) (x ∷ xs) ys h = drop-append_long n xs ys (omega arith)

gather_lem :
    (n : ℕ) (ps : List (List ℕ))
    → ((gather n ps).0 ≡ take n (joined ps)) × (joined (gather n ps).1 ≡ drop n (joined ps))
unfolding gather joined
gather_lem zero [] = (refl, refl)
gather_lem (suc n) [] = (refl, refl)
gather_lem n (p ∷ rest) =
    let more = gather_lem (n - length p) rest in
    elim (Bool-cases (ltb n (length p))) [
      | inl b ↦ rw b (
        sym (take-append_long n p (joined rest) (ground arith)),
        sym (drop-append_long n p (joined rest) (ground arith)),
      )
      | inr b ↦ rw b (
        ap (p ++◌) more.0 ∙ sym (take-append_short n p (joined rest) (ground arith)),
        more.1 ∙ sym (drop-append_short n p (joined rest) (ground arith)),
      )
    ]

-- A read of all the bytes that are asked for gives the first of what is still to be read, and leaves
-- the others.
read_full-enough :
    (s : Incoming) (n : ℕ)
    → n ≤ length (joined s.pieces)
    → (t : Incoming) × (read_full s n ≡ (ok (take n (joined s.pieces)), t))
      × (joined t.pieces ≡ drop n (joined s.pieces))
      × (t.fin ≡ s.fin)
unfolding read_full
read_full-enough s n h =
    let g = gather_lem n s.pieces in
    let l : leb n (length (gather n s.pieces).0) ≡ true =
      rw g.0 (ground (arith, length-take n (joined s.pieces))) in
    (record s { pieces = (gather n s.pieces).1 }, rw (read_full, l, g.0) refl, g.1, refl)

-- Fewer bytes than asked for, and then the end of the stream.
read_full-short :
    (s : Incoming) (n : ℕ)
    → length (joined s.pieces) < n
    → s.fin ≡ eof
    → (t : Incoming) × (e : GoError) × (read_full s n ≡ (err e, t))
      × ((if is_eof e then unexpected_eof else e) ≡ unexpected_eof)
unfolding read_full
read_full-short s n h e =
    let g = gather_lem n s.pieces in
    let t = record s { pieces = (gather n s.pieces).1 } in
    let l : leb n (length (gather n s.pieces).0) ≡ false =
      rw g.0 (ground (arith, length-take n (joined s.pieces))) in
    elim (Bool-cases (length (gather n s.pieces).0 == 0)) [
      | inl z ↦ (t, s.fin, rw (read_full, l, z) refl, rw e refl)
      | inr z ↦ (t, unexpected_eof, rw (read_full, l, z, e) refl, refl)
    ]

take_exact : (xs ys : List ℕ) → take (length xs) (xs ++ ys) ≡ xs
take_exact [] ys = refl
take_exact (x ∷ xs) ys = ap (x ∷◌) (take_exact xs ys)

drop_exact : (xs ys : List ℕ) → drop (length xs) (xs ++ ys) ≡ ys
drop_exact [] ys = refl
drop_exact (x ∷ xs) ys = drop_exact xs ys

uint32-put_uint32 : (n : ℕ) → n < 2 ^ 32 → uint32 (put_uint32 (n % 2 ^ 32)) 0 ≡ n
uint32-put_uint32 n h = omega arith

-- What protobuf does for the messages of one type: what `Marshal` makes, `Unmarshal` reads back.
module _ {M : Type 0} (marshal : M → Result (List ℕ)) (unmarshal : List ℕ → Result M)
    (decodes : (m : M) (b : List ℕ) → marshal m ≡ ok b → unmarshal b ≡ ok m) where
  abbrev framed : List ℕ → List ℕ
  framed b = put_uint32 (length b % 2 ^ 32) ++ b

  write_message-framed :
      (m : M) (b : List ℕ) → marshal m ≡ ok b → write_message marshal unmarshal m ≡ ok (framed b)
  unfolding write_message
  write_message-framed m [] e = rw e refl
  write_message-framed m (x ∷ b) e =
      let l : ltb 0 (length (x ∷ b)) ≡ true = ground arith in rw (e, l) refl

  sized :
      (m : M) (b rest : List ℕ) (s : Incoming)
      → marshal m ≡ ok b
      → joined s.pieces ≡ b ++ rest
      → (t : Incoming) × ((if ltb 0 (length b)
            then read_payload marshal unmarshal (read_full s (length b))
            else (unmarshal [], s))
          ≡ (ok m, t))
        × (joined t.pieces ≡ rest)
  sized m [] rest s e j = (s, rw (decodes m [] e) refl, j)
  sized m (x ∷ b) rest s e j =
      let (t, r, left, f) =
        read_full-enough s (length (x ∷ b)) (rw j (omega (arith, length-append (x ∷ b) rest))) in
      let l : ltb 0 (length (x ∷ b)) ≡ true = ground arith in
      let got : take (length (x ∷ b)) (joined s.pieces) ≡ x ∷ b = rw j (take_exact (x ∷ b) rest) in
      let full : read_full s (length (x ∷ b)) ≡ (ok (x ∷ b), t) = r ∙ ap (λ z. (ok z, t)) got in
      (t, rw (l, full, decodes m (x ∷ b) e) refl, left ∙ rw j (drop_exact (x ∷ b) rest))

  ok-injective : (b c : List ℕ) → ◌≡◌ {A = Result (List ℕ)} (ok b) (ok c) → b ≡ c
  ok-injective b c h = ap payload h
    where
      payload : Result (List ℕ) → List ℕ
      payload (ok d) = d
      payload (err e) = []

  framed-bytes :
      (m : M) (b bytes : List ℕ)
      → marshal m ≡ ok b
      → write_message marshal unmarshal m ≡ ok bytes
      → bytes ≡ framed b
  framed-bytes m b bytes e w = ok-injective bytes (framed b) (sym w ∙ write_message-framed m b e)

  -- A message that was written is read back from any stream that delivers it, in whatever pieces, and
  -- what follows it is left on the stream, if it has fewer than 2^32 bytes.
  pub read_message-write_message :
      (m : M) (b bytes rest : List ℕ) (s : Incoming)
      → marshal m ≡ ok b
      → length b < 2 ^ 32
      → write_message marshal unmarshal m ≡ ok bytes
      → joined s.pieces ≡ bytes ++ rest
      → (t : Incoming) × (read_message marshal unmarshal s ≡ (ok m, t)) × (joined t.pieces ≡ rest)
  unfolding read_message
  read_message-write_message m b bytes rest s e h w j =
      let j' : joined s.pieces ≡ framed b ++ rest =
        j ∙ ap (λ x. x ++ rest) (framed-bytes m b bytes e w) in
      let (t, r, left, f) = read_full-enough s 4 (rw j' (omega arith)) in
      let got : read_full s 4 ≡ (ok (put_uint32 (length b % 2 ^ 32)), t) =
        r ∙ ap (λ z. (ok z, t)) (rw j' refl) in
      let n = uint32-put_uint32 (length b) h in
      let (u, q, k) = sized m b rest t e (left ∙ rw j' refl) in (u, rw (got, n) q, k)

  -- A stream that ends in the middle of a message, or before it, gives no message, but the error for
  -- an unexpected end, in whatever pieces it arrives.
  pub read_message-cut :
      (m : M) (b bytes more : List ℕ) (s : Incoming)
      → marshal m ≡ ok b
      → length b < 2 ^ 32
      → write_message marshal unmarshal m ≡ ok bytes
      → bytes ≡ joined s.pieces ++ more
      → 0 < length more
      → s.fin ≡ eof
      → (read_message marshal unmarshal s).0 ≡ err unexpected_eof
  unfolding read_message
  read_message-cut m b bytes more s e h w j c f =
      let all : framed b ≡ joined s.pieces ++ more = sym (framed-bytes m b bytes e w) ∙ j in
      let long = ap length all in
      elim (Bool-cases (ltb (length (joined s.pieces)) 4)) [
        | inl b4 ↦ (let (t, er, r, en) = read_full-short s 4 (ground arith) f in rw r (rw en refl))
        | inr b4 ↦
            (let (t, r, left, fe) = read_full-enough s 4 (ground arith) in
              let front : take 4 (joined s.pieces) ≡ put_uint32 (length b % 2 ^ 32) =
                sym (take-append_long 4 (joined s.pieces) more (ground arith))
                ∙ ap (take 4) (sym all) in
              let got : read_full s 4 ≡ (ok (put_uint32 (length b % 2 ^ 32)), t) =
                r ∙ ap (λ z. (ok z, t)) front in
              let n = uint32-put_uint32 (length b) h in
              let sum : length b + 4 ≡ length (joined s.pieces) + length more =
                omega (arith, long, length-append (joined s.pieces) more) in
              let still : length (joined t.pieces) ≡ length (joined s.pieces) - 4 =
                ap length left ∙ length-drop 4 (joined s.pieces) in
              let pos : ltb 0 (length b) ≡ true = ground (arith, sum, b4, c) in
              let (u, er, q, en) =
                read_full-short t (length b) (ground (arith, still, sum, b4, c)) (fe ∙ f) in
              rw (got, n, pos, q, en) refl)
      ]
