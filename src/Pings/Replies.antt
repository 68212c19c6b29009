-- ===== src/Pings/Replies.antt =====
-- Pings and their replies: for each ping data the callbacks form a queue.
use copper.Prelude.{
  ℕ, ◌≡◌, refl, sym, ap, arith, List, [], ◌∷◌, true, if◌then◌else◌, none, map, take, drop,
}
use copper.Pings.{
  Pings, Waiting, Called, same, callbacks, store, delete, handle_ack, handle_ack_with,
}

pub same_refl : (xs : List ℕ) → same xs xs ≡ true
unfolding same
same_refl [] = refl
same_refl (x ∷ xs) = ground (arith, same_refl xs)

pub same→eq : (xs ys : List ℕ) → same xs ys ≡ true → xs ≡ ys
unfolding same
same→eq [] [] h = refl
same→eq [] (y ∷ ys) h = cc
same→eq (x ∷ xs) [] h = cc
same→eq (x ∷ xs) (y ∷ ys) h = ground (arith, same→eq xs ys)

callbacks-store :
    (m : Waiting) (key value other : List ℕ)
    → callbacks (store m key value) other ≡ (if same key other then value else callbacks m other)
unfolding callbacks store
callbacks-store [] key value other = refl
callbacks-store ((k, cs) ∷ rest) key value other = ground (
  arith,
  callbacks-store rest key value other,
  same→eq k key,
  same→eq k other,
  same_refl k,
  same→eq key other,
  same_refl key,
)

callbacks-delete :
    (m : Waiting) (key other : List ℕ)
    → callbacks (delete m key) other ≡ (if same key other then [] else callbacks m other)
unfolding callbacks delete
callbacks-delete [] key other = ground arith
callbacks-delete ((k, cs) ∷ rest) key other = ground (
  arith,
  callbacks-delete rest key other,
  same→eq k key,
  same→eq k other,
  same_refl k,
  same→eq key other,
)

callbacks_same :
    (m : Waiting) (key other : List ℕ) → same key other ≡ true → callbacks m other ≡ callbacks m key
callbacks_same m key other h = ap (callbacks m) (sym (same→eq key other h))

module _ (p : Pings) (key : List ℕ) where
  abbrev pub Answered : List Called × Pings → Type 0
  Answered (called, p') =
      (called ≡ take 1 (map (λ c. (c, none)) (callbacks p.pings key)))
      × (p'.err ≡ p.err)
      × ((other : List ℕ)
          → callbacks p'.pings other
            ≡ (if same key other then drop 1 (callbacks p.pings key) else callbacks p.pings other))

  handle_ack_with-Answered :
      (cs : List ℕ) → callbacks p.pings key ≡ cs → Answered (handle_ack_with p key cs)
  unfolding handle_ack_with
  handle_ack_with-Answered [] e =
      rw e (refl, refl, (λ other. ground (arith, callbacks_same p.pings key other, e)))
  handle_ack_with-Answered (c ∷ []) e =
      rw e (refl, refl, (λ other. callbacks-delete p.pings key other))
  handle_ack_with-Answered (c ∷ d ∷ cs) e =
      rw e (refl, refl, (λ other. callbacks-store p.pings key (d ∷ cs) other))

  -- A reply calls the oldest callback that waits for its data, with nil, and removes it; a reply
  -- that nobody waits for calls none. Callbacks for other data are left alone.
  pub handle_ack_lem : Answered (handle_ack p key)
  unfolding handle_ack
  handle_ack_lem = handle_ack_with-Answered (callbacks p.pings key) refl
