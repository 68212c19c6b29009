-- ===== src/Prelude/Assoc.antt =====
-- Go maps with numbers for keys, as lists of pairs.
use Prim.Native.Nat.{ℕ, ◌+◌, ◌≤◌}
use mathlib.Core.Bool.{false}
use mathlib.Core.Logic.{inl, inr}
use mathlib.Core.Path.{◌≡◌, refl}
use mathlib.Core.List.{List, [], ◌∷◌}
use mathlib.Core.Option.{Option, none, some}
use native.Mathlib.Omega.{arith}
use copper.Prelude.Tests.{Bool-cases, ◌==◌, ltb, if◌then◌else◌}
use copper.Prelude.Counts.{count}

module _ {ℓ} {A : Type ℓ} where
  unfoldable pub lookup : List (ℕ × A) → ℕ → Option A
  lookup [] k = none
  lookup (e ∷ rest) k = let later = lookup rest k in if k == e.0 then some e.1 else later

  unfoldable pub delete : List (ℕ × A) → ℕ → List (ℕ × A)
  delete [] k = []
  delete (e ∷ rest) k = let later = delete rest k in if k == e.0 then later else e ∷ later

  -- `m[k] = v`
  unfoldable pub insert : List (ℕ × A) → ℕ → A → List (ℕ × A)
  unfolding delete
  insert m k v = (k, v) ∷ delete m k

  abbrev pub keys : List (ℕ × A) → List ℕ
  keys [] = []
  keys (e ∷ rest) = e.0 ∷ keys rest

module _ {ℓ} {A : Type ℓ} where
  pub lookup-delete :
      (m : List (ℕ × A)) (k j : ℕ) → lookup (delete m k) j ≡ (if j == k then none else lookup m j)
  unfolding lookup delete
  lookup-delete [] k j = ground arith
  lookup-delete (e ∷ rest) k j = ground (arith, lookup-delete rest k j)

  pub lookup-insert :
      (m : List (ℕ × A)) (k : ℕ) (v : A) (j : ℕ)
      → lookup (insert m k v) j ≡ (if j == k then some v else lookup m j)
  unfolding lookup insert
  lookup-insert m k v j = ground (arith, lookup-delete m k j)

  -- What is found has its key in the list.
  pub lookup-keys :
      (m : List (ℕ × A)) (k : ℕ) → (if ltb 0 (count k (keys m)) then none else lookup m k) ≡ none
  unfolding lookup count
  lookup-keys [] k = ground arith
  lookup-keys (e ∷ rest) k = ground (arith, lookup-keys rest k)

-- Entries by key, and their values, which are numbers.
pub count-keys-delete {ℓ} :
    {A : Type ℓ} (m : List (ℕ × A)) (k j : ℕ)
    → count j (keys (delete m k)) ≡ (if j == k then 0 else count j (keys m))
unfolding delete count
count-keys-delete [] k j = ground arith
count-keys-delete (e ∷ rest) k j = ground (arith, count-keys-delete rest k j)

abbrev pub values : List (ℕ × ℕ) → List ℕ
values [] = []
values (e ∷ rest) = e.1 ∷ values rest

-- How often `x` is the value under `k`, where a key stands once at most.
abbrev pub found_is : Option ℕ → ℕ → ℕ
found_is none x = 0
found_is (some v) x = if x == v then 1 else 0

delete-missing :
    (m : List (ℕ × ℕ)) (k : ℕ) → count k (keys m) ≡ 0 → (delete m k ≡ m) × (lookup m k ≡ none)
unfolding delete lookup count
delete-missing [] k h = (refl, refl)
delete-missing (e ∷ rest) k h =
    let d : (k == e.0) ≡ false = ground (arith, h) in
    let ih = delete-missing rest k (ground (arith, h)) in (rw (d, ih.0) refl, rw (d, ih.1) refl)

pub count-values-delete :
    (m : List (ℕ × ℕ)) (k x : ℕ)
    → count k (keys m) ≤ 1
    → count x (values (delete m k)) + found_is (lookup m k) x ≡ count x (values m)
unfolding delete lookup count
count-values-delete [] k x h = ground arith
count-values-delete (e ∷ rest) k x h = elim (Bool-cases (k == e.0)) [
  | inl b ↦ (let ih = delete-missing rest k (ground (arith, h, b)) in rw (b, ih.0) (ground arith))
  | inr b ↦ rw b (ground (arith, count-values-delete rest k x (ground (arith, h, b))))
]
