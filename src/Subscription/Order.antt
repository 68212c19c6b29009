-- ===== src/Subscription/Order.antt =====
-- Lists in the order of their priorities.
use copper.Prelude.{
  ℕ, zero, suc, ◌≤◌, ◌<◌, ◌≡◌, refl, arith, List, [], ◌∷◌, take, get_elem?, Option, none, some,
}
use copper.Prelude.Counts.{count, remove}
use copper.Subscription.{leading, best_remotes}

-- No priority is below `n`.
abbrev pub NoneBelow : (ℕ → ℕ) → ℕ → List ℕ → Type 0
NoneBelow f n [] = Unit
NoneBelow f n (x ∷ xs) = (n ≤ f x) × NoneBelow f n xs

abbrev pub Ordered : (ℕ → ℕ) → List ℕ → Type 0
Ordered f [] = Unit
Ordered f (x ∷ xs) = NoneBelow f (f x) xs × Ordered f xs

-- What is asked of Go's `sort.Sort`: the same elements, ordered.
pub record IsSort (sort : (ℕ → ℕ) → List ℕ → List ℕ) : Type 0 where
  pub ordered : (f : ℕ → ℕ) (xs : List ℕ) → Ordered f (sort f xs)
  pub same_elements : (f : ℕ → ℕ) (xs : List ℕ) (x : ℕ) → count x (sort f xs) ≡ count x xs

pub NoneBelow-le : (f : ℕ → ℕ) (m n : ℕ) (xs : List ℕ) → m ≤ n → NoneBelow f n xs → NoneBelow f m xs
NoneBelow-le f m n [] h b = tt
NoneBelow-le f m n (x ∷ xs) h b = (omega (arith, b.0), NoneBelow-le f m n xs h b.1)

NoneBelow-remove :
    (f : ℕ → ℕ) (n x : ℕ) (xs : List ℕ) → NoneBelow f n xs → NoneBelow f n (remove x xs)
unfolding remove
NoneBelow-remove f n x [] b = tt
NoneBelow-remove f n x (y ∷ ys) b = ground (arith, NoneBelow-remove f n x ys b.1)

pub Ordered-remove : (f : ℕ → ℕ) (x : ℕ) (xs : List ℕ) → Ordered f xs → Ordered f (remove x xs)
unfolding remove
Ordered-remove f x [] o = tt
Ordered-remove f x (y ∷ ys) o =
    ground (arith, NoneBelow-remove f (f y) x ys o.0, Ordered-remove f x ys o.1)

none_best :
    (f : ℕ → ℕ) (n m : ℕ) (xs : List ℕ) → n < m → NoneBelow f m xs → best_remotes f n xs ≡ []
unfolding best_remotes
none_best f n m [] h b = refl
none_best f n m (x ∷ xs) h b = ground (arith, none_best f n m xs h b.1)

-- The ones in front with the least priority are all that have it.
pub take-leading :
    (f : ℕ → ℕ) (n : ℕ) (xs : List ℕ)
    → NoneBelow f n xs
    → Ordered f xs
    → take (leading f n xs) xs ≡ best_remotes f n xs
unfolding leading best_remotes
take-leading f n [] b o = refl
take-leading f n (x ∷ xs) b o = ground (arith, take-leading f n xs b.1 o.1, none_best f n (f x) xs)

-- An element within the leading ones has their priority.
abbrev pub Leads : (ℕ → ℕ) → ℕ → List ℕ → Option ℕ → Type 0
Leads f n xs none = ⊥
Leads f n xs (some r) = (f r ≡ n) × (0 < count r xs)

Leads-cons :
    (f : ℕ → ℕ) (n x : ℕ) (xs : List ℕ) (r : Option ℕ) → Leads f n xs r → Leads f n (x ∷ xs) r
unfolding count
Leads-cons f n x xs none l = l
Leads-cons f n x xs (some r) l = ground arith

pub get_elem?-leading :
    (f : ℕ → ℕ) (n : ℕ) (xs : List ℕ) (i : ℕ) → i < leading f n xs → Leads f n xs (get_elem? xs i)
unfolding leading count
get_elem?-leading f n [] i h = absurd (omega arith)
get_elem?-leading f n (x ∷ xs) zero h = ground arith
get_elem?-leading f n (x ∷ xs) (suc i) h =
    Leads-cons f n x xs (get_elem? xs i) (get_elem?-leading f n xs i (ground arith))
