-- ===== src/Pow2/Bounds.antt =====
-- `minpow2` rounds up to the nearest power of two.
use copper.Prelude.{ℕ, zero, suc, ◌+◌, ◌-◌, ◌*◌, ◌/◌, ◌%◌, ◌^◌, ◌≤◌, ◌<◌, ◌≡◌, refl, arith}
use copper.Prelude.Order.{lt_wf}
use copper.Pow2.{smear_all, minpow2}
use copper.Pow2.Smear.{smear_all-half, smear_all-odd}
use mathlib.Core.WellFounded
use native.Mathlib.Nat.{pow-suc}

-- Smearing fills up to the highest digit that is set.
record Filled (n : ℕ) : Type 0 where
  width : ℕ
  full : smear_all n + 1 ≡ 2 ^ width
  above : n < 2 ^ width
  tight : 2 ^ width ≤ 2 * n + (1 - n)

smear_all-zero : smear_all 0 ≡ 0
unfolding smear_all
smear_all-zero = refl

grow : (m : ℕ) → suc m < 2 ^ 64 → Filled (suc m / 2) → Filled (suc m)
grow m h r = record {
  width = suc r.width;
  full = omega (
    arith,
    r.full,
    smear_all-half (suc m),
    smear_all-odd (suc m) (omega arith) h,
    pow-suc 2 r.width,
  );
  above = omega (arith, r.above, pow-suc 2 r.width);
  tight = omega (arith, r.tight, pow-suc 2 r.width);
}

smear_all-Filled : (n : ℕ) → n < 2 ^ 64 → Filled n
smear_all-Filled n = WellFounded.induction lt_wf {C = λ n. n < 2 ^ 64 → Filled n} n step
  where
    step : (n : ℕ) → ((m : ℕ) → m < n → m < 2 ^ 64 → Filled m) → n < 2 ^ 64 → Filled n
    step zero ih h = record {
      width = 0;
      full = omega (arith, smear_all-zero);
      above = omega arith;
      tight = omega arith;
    }
    step (suc m) ih h = grow m h (ih (suc m / 2) (omega arith) (omega arith))

-- `minpow2` of 1 to 2^62 is a power of two, at least `n` and below twice `n`.
pub minpow2_bounds :
    (n : ℕ)
    → 0 < n
    → n ≤ 2 ^ 62
    → ((k : ℕ) × (minpow2 n ≡ 2 ^ k)) × (n ≤ minpow2 n) × (minpow2 n < 2 * n)
unfolding minpow2
minpow2_bounds n h k =
    let m = (n + 2 ^ 64 - 1) % 2 ^ 64 in
    let e : m ≡ n - 1 = omega arith in
    let f : Filled m = smear_all-Filled m (omega arith) in
    let g : (smear_all m + 1) % 2 ^ 64 ≡ 2 ^ f.width = omega (arith, f.full, f.tight) in
    ((f.width, g), omega (arith, f.above, g), omega (arith, f.tight, g))
