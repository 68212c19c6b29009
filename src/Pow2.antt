-- ===== src/Pow2.antt =====
-- `minpow2` of buffer.go: rounding up to a power of two by smearing the bits of a 64-bit int.
mod Smear
pub mod Bounds
use copper.Prelude.{ℕ, ◌+◌, ◌-◌, ◌/◌, ◌%◌, ◌^◌, bit_or}

-- `n |= n >> k`
abbrev pub smear : ℕ → ℕ → ℕ
smear k n = bit_or n (n / 2 ^ k)

-- The six steps in a row.
pub smear_all : ℕ → ℕ
smear_all n = smear 32 (smear 16 (smear 8 (smear 4 (smear 2 (smear 1 n)))))

-- An `int` is its 64-bit pattern. Where the top bit is set, `>>` shifts ones in, which the
-- or-ing of the steps before has set already.
unfoldable pub minpow2 : ℕ → ℕ
unfolding smear_all
minpow2 n = (smear_all ((n + 2 ^ 64 - 1) % 2 ^ 64) + 1) % 2 ^ 64
