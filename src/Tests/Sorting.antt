-- ===== src/Tests/Sorting.antt =====
-- A sort that does what is asked of Go's.
use copper.Prelude.{
  ℕ, ◌≤◌, ◌≡◌, refl, arith, List, [], ◌∷◌, leb, if◌then◌else◌, Bool-cases, inl, inr,
}
use copper.Prelude.Counts.{count}
use copper.Subscription.Order.{NoneBelow, NoneBelow-le, Ordered, IsSort}

unfoldable pub insert_by : (ℕ → ℕ) → ℕ → List ℕ → List ℕ
insert_by f x [] = x ∷ []
insert_by f x (y ∷ ys) =
    let later = insert_by f x ys in if leb (f x) (f y) then x ∷ (y ∷ ys) else y ∷ later

unfoldable pub sort_by : (ℕ → ℕ) → List ℕ → List ℕ
unfolding insert_by
sort_by f [] = []
sort_by f (x ∷ xs) = insert_by f x (sort_by f xs)

count-insert_by :
    (f : ℕ → ℕ) (x z : ℕ) (xs : List ℕ) → count z (insert_by f x xs) ≡ count z (x ∷ xs)
unfolding insert_by count
count-insert_by f x z [] = refl
count-insert_by f x z (y ∷ ys) = ground (arith, count-insert_by f x z ys)

insert_by-NoneBelow :
    (f : ℕ → ℕ) (n x : ℕ) (xs : List ℕ)
    → n ≤ f x
    → NoneBelow f n xs
    → NoneBelow f n (insert_by f x xs)
unfolding insert_by
insert_by-NoneBelow f n x [] h b = (h, tt)
insert_by-NoneBelow f n x (y ∷ ys) h b = elim (Bool-cases (leb (f x) (f y))) [
  | inl l ↦ rw l (h, b)
  | inr l ↦ rw l (b.0, insert_by-NoneBelow f n x ys h b.1)
]

insert_by-Ordered : (f : ℕ → ℕ) (x : ℕ) (xs : List ℕ) → Ordered f xs → Ordered f (insert_by f x xs)
unfolding insert_by
insert_by-Ordered f x [] o = (tt, tt)
insert_by-Ordered f x (y ∷ ys) o = elim (Bool-cases (leb (f x) (f y))) [
  | inl l ↦ rw l ((ground (arith, l), NoneBelow-le f (f x) (f y) ys (ground (arith, l)) o.0), o)
  | inr l ↦
      rw l (insert_by-NoneBelow f (f y) x ys (ground (arith, l)) o.0, insert_by-Ordered f x ys o.1)
]

sort_by-Ordered : (f : ℕ → ℕ) (xs : List ℕ) → Ordered f (sort_by f xs)
unfolding sort_by
sort_by-Ordered f [] = tt
sort_by-Ordered f (x ∷ xs) = insert_by-Ordered f x (sort_by f xs) (sort_by-Ordered f xs)

count-sort_by : (f : ℕ → ℕ) (xs : List ℕ) (z : ℕ) → count z (sort_by f xs) ≡ count z xs
unfolding sort_by count
count-sort_by f [] z = refl
count-sort_by f (x ∷ xs) z =
    ground (arith, count-insert_by f x z (sort_by f xs), count-sort_by f xs z)

pub sort_by-IsSort : IsSort sort_by
sort_by-IsSort = record { ordered = sort_by-Ordered; same_elements = count-sort_by }
