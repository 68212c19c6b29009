-- ===== src/Prelude/Bits.antt =====
-- `bit_or` and `bit_and` at variables: one equation for the lowest digit.
use Prim.Native.Nat.{
  ℕ, zero, suc, ◌+◌, ◌*◌, ◌/◌, ◌%◌, ◌^◌, ◌≤◌, ◌<◌, max, min, bit_and, bit_or, digits, bitwise,
  bit_or-bitwise, bit_and-bitwise,
}
use mathlib.Core.Path.{◌≡◌, refl, ap, ◌∙◌}
use copper.Prelude.Tests.{Bool-cases, leb, ltb}
use mathlib.Core.Logic.{inl, inr}
use native.Mathlib.Nat.{pow-suc, div-div-eq-div-mul, mul_comm}
use native.Mathlib.Omega.{arith}

-- The native operations recurse on binary digits, on as much fuel as their first argument.
module _ (rest : ℕ → ℕ) (digit : ℕ → ℕ → ℕ) where
  -- A unit of fuel too many is not looked at.
  spare_unit : (n x y : ℕ) → x ≤ n → digits rest digit (suc n) x y ≡ digits rest digit n x y
  spare_unit zero zero y h = refl
  spare_unit zero (suc x) y h = absurd (omega arith)
  spare_unit (suc n) zero y h = refl
  spare_unit (suc n) (suc x) y h =
      ap (λ (t : ℕ). t * 2 + digit (suc x % 2) (y % 2))
        (spare_unit n (suc x / 2) (y / 2) (omega arith))

  all_spare : (n x y : ℕ) → x ≤ n → digits rest digit n x y ≡ bitwise rest digit x y
  all_spare zero zero y h = refl
  all_spare zero (suc x) y h = absurd (omega arith)
  all_spare (suc n) x y h = elim (Bool-cases (leb x n)) [
    | inl below ↦ spare_unit n x y (ground arith) ∙ all_spare n x y (ground arith)
    | inr top ↦ (let e : x ≡ suc n = ground arith in rw e refl)
  ]

  lowest_digit :
      (x y : ℕ)
      → 0 < x
      → bitwise rest digit x y ≡ bitwise rest digit (x / 2) (y / 2) * 2 + digit (x % 2) (y % 2)
  lowest_digit zero y h = absurd (omega arith)
  lowest_digit (suc x) y h =
      ap (λ (t : ℕ). t * 2 + digit (suc x % 2) (y % 2))
        (all_spare x (suc x / 2) (y / 2) (omega arith))

pub bit_or_step : (x y : ℕ) → bit_or x y ≡ bit_or (x / 2) (y / 2) * 2 + max (x % 2) (y % 2)
bit_or_step x y = elim (Bool-cases (ltb 0 x)) [
  | inl pos ↦ simp bit_or-bitwise (lowest_digit (λ t. t) max x y (ground arith))
  | inr none_left ↦ (let e : x ≡ 0 = ground arith in rw e (simp bit_or-bitwise (omega arith)))
]

pub bit_and_step : (x y : ℕ) → bit_and x y ≡ bit_and (x / 2) (y / 2) * 2 + min (x % 2) (y % 2)
bit_and_step x y = elim (Bool-cases (ltb 0 x)) [
  | inl pos ↦ simp bit_and-bitwise (lowest_digit (λ t. 0) min x y (ground arith))
  | inr none_left ↦ (let e : x ≡ 0 = ground arith in rw e (simp bit_and-bitwise (omega arith)))
]

-- Zero on the right, by halving as often as a bound allows.
bit_or-zero_below : (n a : ℕ) → a ≤ n → bit_or a 0 ≡ a
bit_or-zero_below n zero h = refl
bit_or-zero_below zero (suc a) h = absurd (omega arith)
bit_or-zero_below (suc n) (suc a) h =
    omega (arith, bit_or_step (suc a) 0, bit_or-zero_below n (suc a / 2) (omega arith))

bit_and-zero_below : (n a : ℕ) → a ≤ n → bit_and a 0 ≡ 0
bit_and-zero_below n zero h = refl
bit_and-zero_below zero (suc a) h = absurd (omega arith)
bit_and-zero_below (suc n) (suc a) h =
    omega (arith, bit_and_step (suc a) 0, bit_and-zero_below n (suc a / 2) (omega arith))

pub bit_and-zero : (a : ℕ) → bit_and a 0 ≡ 0
bit_and-zero a = bit_and-zero_below a a (omega arith)

times-pow_suc : (q k : ℕ) → q * 2 ^ suc k ≡ q * 2 ^ k * 2
times-pow_suc q k = omega (arith, ap (λ (t : ℕ). q * t) (pow-suc 2 k))

pub div-pow_suc : (n k : ℕ) → n / 2 ^ suc k ≡ n / 2 / 2 ^ k
div-pow_suc n k = rw (div-div-eq-div-mul, pow-suc) (ap (λ (t : ℕ). n / t) (mul_comm _ _))

-- Or-ing a multiple of 2^k with a number below 2^k adds them.
pub bit_or-disjoint : (k q r : ℕ) → r < 2 ^ k → bit_or (q * 2 ^ k) r ≡ q * 2 ^ k + r
bit_or-disjoint zero q r h = ground (arith, bit_or-zero_below q q)
bit_or-disjoint (suc k) q r h = ground (
  arith,
  times-pow_suc q k,
  pow-suc 2 k,
  bit_or_step (q * 2 ^ suc k) r,
  bit_or-disjoint k q (r / 2) (omega (arith, pow-suc 2 k)),
)

-- And-ing with 2^k keeps the digit of that weight.
pub bit_and-pow : (k a : ℕ) → bit_and a (2 ^ k) ≡ a / 2 ^ k % 2 * 2 ^ k
bit_and-pow zero a = omega (arith, bit_and_step a 1, bit_and-zero (a / 2))
bit_and-pow (suc k) a = ground (
  arith,
  pow-suc 2 k,
  bit_and_step a (2 ^ suc k),
  bit_and-pow k (a / 2),
  div-pow_suc a k,
  times-pow_suc (a / 2 / 2 ^ k % 2) k,
)
