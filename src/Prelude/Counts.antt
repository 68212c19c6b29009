-- ===== src/Prelude/Counts.antt =====
-- Lists of numbers as multisets, by how often each number stands in them, and Go sets kept as lists.
use Prim.Native.Nat.{ℕ, ◌+◌, ◌-◌}
use mathlib.Core.Path.{◌≡◌}
use mathlib.Core.List.{List, [], ◌∷◌, ◌++◌}
use native.Mathlib.Omega.{arith}
use copper.Prelude.Tests.{◌==◌, ltb, if◌then◌else◌}
use copper.Prelude.Lists.{length}

unfoldable pub count : ℕ → List ℕ → ℕ
count s [] = 0
count s (x ∷ xs) = (if s == x then 1 else 0) + count s xs

pub count-append : (s : ℕ) (xs ys : List ℕ) → count s (xs ++ ys) ≡ count s xs + count s ys
unfolding count
count-append s [] ys = omega arith
count-append s (x ∷ xs) ys = omega (arith, count-append s xs ys)

pub count-last :
    (s : ℕ) (xs : List ℕ) (y : ℕ)
    → count s (xs ++ (y ∷ [])) ≡ count s xs + (if s == y then 1 else 0)
unfolding count
count-last s xs y = ground (arith, count-append s xs (y ∷ []))

-- `delete(set, x)`
unfoldable pub erase : ℕ → List ℕ → List ℕ
erase x [] = []
erase x (y ∷ ys) = let rest = erase x ys in if x == y then rest else y ∷ rest

pub count-erase :
    (s x : ℕ) (xs : List ℕ) → count s (erase x xs) ≡ (if s == x then 0 else count s xs)
unfolding count erase
count-erase s x [] = ground arith
count-erase s x (y ∷ ys) = ground (arith, count-erase s x ys)

-- `set[x] = struct{}{}`: an element that is there is not put in again.
unfoldable pub include : ℕ → List ℕ → List ℕ
unfolding count
include x xs = if ltb 0 (count x xs) then xs else xs ++ (x ∷ [])

pub count-include :
    (s x : ℕ) (xs : List ℕ)
    → count s (include x xs)
      ≡ (if s == x then (if ltb 0 (count s xs) then count s xs else 1) else count s xs)
unfolding include
count-include s x xs = ground (arith, count-last s xs x)

-- The first `x` is taken out of a slice.
unfoldable pub remove : ℕ → List ℕ → List ℕ
remove x [] = []
remove x (y ∷ ys) = let rest = remove x ys in if x == y then ys else y ∷ rest

pub count-remove :
    (s x : ℕ) (xs : List ℕ)
    → count s (remove x xs) ≡ (if s == x then count s xs - 1 else count s xs)
unfolding count remove
count-remove s x [] = ground arith
count-remove s x (y ∷ ys) = ground (arith, count-remove s x ys)

pub length-remove :
    (x : ℕ) (xs : List ℕ)
    → length (remove x xs) ≡ (if ltb 0 (count x xs) then length xs - 1 else length xs)
unfolding count remove
length-remove x [] = ground arith
length-remove x (y ∷ ys) = elim_length x y ys (length-remove x ys)
  where
    elim_length :
        (x y : ℕ) (ys : List ℕ)
        → length (remove x ys) ≡ (if ltb 0 (count x ys) then length ys - 1 else length ys)
        → length (remove x (y ∷ ys))
          ≡ (if ltb 0 (count x (y ∷ ys)) then length (y ∷ ys) - 1 else length (y ∷ ys))
    elim_length x y [] h = ground arith
    elim_length x y (z ∷ zs) h = ground arith
