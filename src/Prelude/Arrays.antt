-- ===== src/Prelude/Arrays.antt =====
-- Go slices as lists: slice expressions, `copy`, and lists given by their elements.
use copper.Prelude.Tests.{ltb, if◌then◌else◌}
use copper.Prelude.Lists.{
  length, get_or, take, drop, length-take, length-drop, get_or-take, get_or-drop,
}
use Prim.Native.Nat.{ℕ, zero, suc, ◌+◌, ◌-◌, ◌<◌, min}
use mathlib.Core.Path.{◌≡◌, refl, ap}
use mathlib.Core.List.{List, [], ◌∷◌}
use mathlib.Core.Bool.{◌&&◌}
use native.Mathlib.Omega.{arith}

module _ {ℓ} {A : Type ℓ} where
  -- `xs[lo:hi]`, where `lo <= hi <= len(xs)`.
  abbrev pub slice : List A → ℕ → ℕ → List A
  slice xs lo hi = take (hi - lo) (drop lo xs)

  -- `copy(dst[at:at+room], src)`: the destination afterwards. It writes no more than fits.
  pub copy_at : List A → ℕ → ℕ → List A → List A
  copy_at [] start room src = []
  copy_at (x ∷ xs) (suc start) room src = x ∷ copy_at xs start room src
  copy_at (x ∷ xs) zero zero src = x ∷ xs
  copy_at (x ∷ xs) zero (suc room) [] = x ∷ xs
  copy_at (x ∷ xs) zero (suc room) (y ∷ ys) = y ∷ copy_at xs zero room ys

  -- What `f` gives at 0, 1, ..., n - 1.
  unfoldable pub tabulate : ℕ → (ℕ → A) → List A
  tabulate zero f = []
  tabulate (suc n) f = f zero ∷ tabulate n (λ i. f (suc i))

module _ {ℓ} {A : Type ℓ} where
  pub length-slice :
      (xs : List A) (lo hi : ℕ) → length (slice xs lo hi) ≡ min (hi - lo) (length xs - lo)
  length-slice xs lo hi = omega (arith, length-take (hi - lo) (drop lo xs), length-drop lo xs)

  pub get_or-slice :
      (xs : List A) (lo hi i : ℕ) (d : A)
      → get_or (slice xs lo hi) i d ≡ (if ltb i (hi - lo) then get_or xs (lo + i) d else d)
  get_or-slice xs lo hi i d =
      ground (arith, get_or-take (hi - lo) (drop lo xs) i d, get_or-drop lo xs i d)

  pub length-copy_at :
      (dst : List A) (start room : ℕ) (src : List A)
      → length (copy_at dst start room src) ≡ length dst
  unfolding copy_at
  length-copy_at [] start room src = refl
  length-copy_at (x ∷ xs) (suc start) room src = ap suc (length-copy_at xs start room src)
  length-copy_at (x ∷ xs) zero zero src = refl
  length-copy_at (x ∷ xs) zero (suc room) [] = refl
  length-copy_at (x ∷ xs) zero (suc room) (y ∷ ys) = ap suc (length-copy_at xs zero room ys)

  -- Inside the part written stands the source, elsewhere what stood there before.
  pub get_or-copy_at :
      (dst : List A) (start room : ℕ) (src : List A) (i : ℕ) (d : A)
      → get_or (copy_at dst start room src) i d ≡ (
          if ltb i start
          then get_or dst i d
          else if ltb i (start + room) && ltb i (start + length src) && ltb i (length dst)
          then get_or src (i - start) d
          else get_or dst i d)
  unfolding copy_at
  get_or-copy_at [] start room src i d = ground arith
  get_or-copy_at (x ∷ xs) (suc start) room src zero d = ground arith
  get_or-copy_at (x ∷ xs) (suc start) room src (suc i) d =
      ground (arith, get_or-copy_at xs start room src i d)
  get_or-copy_at (x ∷ xs) zero zero src i d = ground arith
  get_or-copy_at (x ∷ xs) zero (suc room) [] i d = ground arith
  get_or-copy_at (x ∷ xs) zero (suc room) (y ∷ ys) zero d = ground arith
  get_or-copy_at (x ∷ xs) zero (suc room) (y ∷ ys) (suc i) d =
      ground (arith, get_or-copy_at xs zero room ys i d)

  pub length-tabulate : (n : ℕ) (f : ℕ → A) → length (tabulate n f) ≡ n
  unfolding tabulate
  length-tabulate zero f = refl
  length-tabulate (suc n) f = ap suc (length-tabulate n (λ i. f (suc i)))

  pub get_or-tabulate :
      (n : ℕ) (f : ℕ → A) (i : ℕ) (d : A) → i < n → get_or (tabulate n f) i d ≡ f i
  unfolding tabulate
  get_or-tabulate zero f i d h = absurd (omega arith)
  get_or-tabulate (suc n) f zero d h = refl
  get_or-tabulate (suc n) f (suc i) d h = get_or-tabulate n (λ j. f (suc j)) i d (omega arith)
