-- ===== src/Ring.antt =====
-- What a ring of cells holds: the reading shared by `buffer` (buffer.go) and `rawStreamQueue`
-- (rawstream_queue.go), which keep `size` elements from index `off` on, going round at `len(buf)`.
use copper.Prelude.{
  ℕ, ◌+◌, ◌-◌, ◌<◌, ◌≡◌, ◌∙◌, arith, List, length, get_or, ltb, if◌then◌else◌, ext,
}
use copper.Prelude.Arrays.{tabulate, length-tabulate, get_or-tabulate}

-- The index of element `i`.
abbrev pub slot : ℕ → ℕ → ℕ → ℕ
slot len off i = if ltb (off + i) len then off + i else off + i - len

module _ {ℓ} {A : Type ℓ} (d : A) where
  abbrev pub cell : List A → ℕ → ℕ → A
  cell buf off i = get_or buf (slot (length buf) off i) d

  unfoldable pub window : List A → ℕ → ℕ → List A
  window buf off n = tabulate n (cell buf off)

  pub length-window : (buf : List A) (off n : ℕ) → length (window buf off n) ≡ n
  unfolding window
  length-window buf off n = length-tabulate n (cell buf off)

  pub get_or-window :
      (buf : List A) (off n i : ℕ) → i < n → get_or (window buf off n) i d ≡ cell buf off i
  unfolding window
  get_or-window buf off n i h = get_or-tabulate n (cell buf off) i d h

  -- A ring holds `xs` when its cells do, one by one.
  pub window-eq :
      (buf : List A) (off n : ℕ) (xs : List A)
      → n ≡ length xs
      → ((i : ℕ) → i < n → cell buf off i ≡ get_or xs i d)
      → window buf off n ≡ xs
  window-eq buf off n xs e h = ext (window buf off n) xs d (length-window buf off n ∙ e) (λ i p.
      let q : i < n = omega (arith, length-window buf off n) in get_or-window buf off n i q ∙ h i q)
