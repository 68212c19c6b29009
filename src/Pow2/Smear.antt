-- ===== src/Pow2/Smear.antt =====
-- The bits that a run of `n |= n >> k` sets, from the lowest digit up.
use copper.Prelude.{
  ℕ, zero, suc, ◌/◌, ◌%◌, ◌^◌, ◌<◌, max, ◌≡◌, arith, if◌then◌else◌, ◌==◌, ap, ◌∙◌, sym, refl,
}
use copper.Prelude.Bits.{bit_or_step, div-pow_suc}
use copper.Pow2.{smear, smear_all}
use native.Mathlib.Nat.{div-div-eq-div-mul, div-one, mul_comm}

-- `f` works digit by digit.
abbrev pub Halves : (ℕ → ℕ) → Type 0
Halves f = (n : ℕ) → f n / 2 ≡ f (n / 2)

-- The lowest digit of `f n` is set when one of the `w` lowest digits of `n` is.
abbrev pub Covers : ℕ → (ℕ → ℕ) → Type 0
Covers w f = (n : ℕ) → f n % 2 ≡ (if n % 2 ^ w == 0 then 0 else 1)

Halves-shift : (f : ℕ → ℕ) → Halves f → (k n : ℕ) → f n / 2 ^ k ≡ f (n / 2 ^ k)
Halves-shift f h zero n = div-one (f n) ∙ ap f (sym (div-one n))
Halves-shift f h (suc k) n =
    div-pow_suc (f n) k
    ∙ ap (λ (t : ℕ). t / 2 ^ k) (h n)
    ∙ Halves-shift f h k (n / 2)
    ∙ ap f (sym (div-pow_suc n k))

div-pow-half : (n k : ℕ) → n / 2 ^ k / 2 ≡ n / 2 / 2 ^ k
div-pow-half n k =
    div-div-eq-div-mul n (2 ^ k) 2
    ∙ ap (λ (t : ℕ). n / t) (mul_comm _ _)
    ∙ sym (div-div-eq-div-mul n 2 (2 ^ k))

smear-half : (k a : ℕ) → smear k a / 2 ≡ smear k (a / 2)
smear-half k a = rw (← div-pow-half a k) (omega (arith, bit_or_step a (a / 2 ^ k)))

smear-Halves : (f : ℕ → ℕ) (k : ℕ) → Halves f → Halves (λ n. smear k (f n))
smear-Halves f k h n = smear-half k (f n) ∙ ap (smear k) (h n)

-- A shift by `w` after `w` digits were gathered gathers `v` of them, twice as many.
smear-Covers :
    (f : ℕ → ℕ) (w v : ℕ)
    → Halves f
    → Covers w f
    → ((n : ℕ)
        → (if n % 2 ^ v == 0 then 0 else 1)
          ≡ max (if n % 2 ^ w == 0 then 0 else 1) (if n / 2 ^ w % 2 ^ w == 0 then 0 else 1))
    → Covers v (λ n. smear w (f n))
smear-Covers f w v h c split n = omega (
  arith,
  bit_or_step (f n) (f n / 2 ^ w),
  ap (λ (t : ℕ). t % 2) (Halves-shift f h w n),
  c n,
  c (n / 2 ^ w),
  split n,
)

abbrev stage : ℕ → ℕ → ℕ
stage zero n = n
stage (suc k) n = smear (2 ^ k) (stage k n)

stage-Halves : (k : ℕ) → Halves (stage k)
stage-Halves zero n = refl
stage-Halves (suc k) n = smear-Halves (stage k) (2 ^ k) (stage-Halves k) n

Covers-1 : Covers 1 (stage 0)
Covers-1 n = ground arith

Covers-2 : Covers 2 (stage 1)
Covers-2 = smear-Covers (stage 0) 1 2 (stage-Halves 0) Covers-1 (λ n. ground arith)

Covers-4 : Covers 4 (stage 2)
Covers-4 = smear-Covers (stage 1) 2 4 (stage-Halves 1) Covers-2 (λ n. ground arith)

Covers-8 : Covers 8 (stage 3)
Covers-8 = smear-Covers (stage 2) 4 8 (stage-Halves 2) Covers-4 (λ n. ground arith)

Covers-16 : Covers 16 (stage 4)
Covers-16 = smear-Covers (stage 3) 8 16 (stage-Halves 3) Covers-8 (λ n. ground arith)

Covers-32 : Covers 32 (stage 5)
Covers-32 = smear-Covers (stage 4) 16 32 (stage-Halves 4) Covers-16 (λ n. ground arith)

Covers-64 : Covers 64 (stage 6)
Covers-64 = smear-Covers (stage 5) 32 64 (stage-Halves 5) Covers-32 (λ n. ground arith)

pub smear_all-half : (n : ℕ) → smear_all n / 2 ≡ smear_all (n / 2)
unfolding smear_all
smear_all-half n = stage-Halves 6 n

-- On a 64-bit number other than 0 the lowest digit is set.
pub smear_all-odd : (n : ℕ) → 0 < n → n < 2 ^ 64 → smear_all n % 2 ≡ 1
unfolding smear_all
smear_all-odd n h k = ground (arith, Covers-64 n)
