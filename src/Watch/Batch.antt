-- ===== src/Watch/Batch.antt =====
-- What a batch of changes does to what was sent and to what the reader knows.
use copper.Prelude.{
  ℕ, zero, suc, ◌+◌, ◌≡◌, refl, arith, List, [], ◌∷◌, take, drop, Bool, true, false, ◌==◌, ltb, leb,
  if◌then◌else◌, Option, none, some,
}
use copper.Prelude.Counts.{count, erase, include, count-erase, count-include}
use copper.Watch.{Service, Services, erase_all, include_all, describe}

-- The reader's services after a batch.
abbrev pub forget_all : Services → List ℕ → Services
forget_all view [] = view
forget_all view (t ∷ ts) = forget_all (λ u. if u == t then none else view u) ts

abbrev pub learn_all : Services → List (ℕ × Option Service) → Services
learn_all view [] = view
learn_all view ((t, v) ∷ ts) = learn_all (λ u. if u == t then v else view u) ts

abbrev pub is_some : Option Service → Bool
is_some none = false
is_some (some v) = true

pub count-erase_all :
    (s : ℕ) (ts xs : List ℕ)
    → count s (erase_all ts xs) ≡ (if ltb 0 (count s ts) then 0 else count s xs)
unfolding erase_all count
count-erase_all s [] xs = refl
count-erase_all s (t ∷ ts) xs =
    ground (arith, count-erase_all s ts (erase t xs), count-erase s t xs)

pub count-include_all :
    (s : ℕ) (ts xs : List ℕ) → ltb 0 (count s (include_all ts xs)) ≡ ltb 0 (count s ts + count s xs)
unfolding include_all count
count-include_all s [] xs = ground arith
count-include_all s (t ∷ ts) xs =
    ground (arith, count-include_all s ts (include t xs), count-include s t xs)

pub forget_all_lem :
    (view : Services) (ts : List ℕ) (t : ℕ)
    → forget_all view ts t ≡ (if ltb 0 (count t ts) then none else view t)
unfolding count
forget_all_lem view [] t = refl
forget_all_lem view (u ∷ ts) t =
    ground (arith, forget_all_lem (λ s. if s == u then none else view s) ts t)

pub learn_all-describe :
    (services view : Services) (ts : List ℕ) (t : ℕ)
    → learn_all view (describe services ts) t ≡ (if ltb 0 (count t ts) then services t else view t)
unfolding count
learn_all-describe services view [] t = refl
learn_all-describe services view (u ∷ ts) t =
    ground (arith, learn_all-describe services (λ s. if s == u then services u else view s) ts t)

pub count-split : (t n : ℕ) (xs : List ℕ) → count t (take n xs) + count t (drop n xs) ≡ count t xs
unfolding count
count-split t zero xs = omega arith
count-split t (suc n) [] = refl
count-split t (suc n) (x ∷ xs) = omega (arith, count-split t n xs)

-- The numbers of a target: `c` changed and `r` removed before the batch, `n` of the changed in it and
-- `d` left, and `m` sent; `v` is the service and `k` what the reader knows.
pub still_changed :
    (v : Option Service) (n d c : ℕ)
    → n + d ≡ c
    → leb c (if is_some v then 1 else 0) ≡ true
    → leb d (if is_some v then 1 else 0) ≡ true
still_changed none n d c e h = ground arith
still_changed (some s) n d c e h = ground arith

pub none_removed : (v : Option Service) → leb 0 (if is_some v then 0 else 1) ≡ true
none_removed none = refl
none_removed (some s) = refl

pub sent_known :
    (v k : Option Service) (n d c r m : ℕ)
    → n + d ≡ c
    → leb c (if is_some v then 1 else 0) ≡ true
    → leb r (if is_some v then 0 else 1) ≡ true
    → ltb 0 m ≡ is_some k
    → (if ltb 0 (c + r) then v else k) ≡ v
    → ltb 0 (n + (if ltb 0 r then 0 else m))
      ≡ is_some (if ltb 0 n then v else if ltb 0 r then none else k)
sent_known none k n d c r m e h1 h2 h3 h4 = ground arith
sent_known (some s) k n d c r m e h1 h2 h3 h4 = ground arith

pub all_known :
    (v k : Option Service) (n d c r : ℕ)
    → n + d ≡ c
    → leb c (if is_some v then 1 else 0) ≡ true
    → leb r (if is_some v then 0 else 1) ≡ true
    → (if ltb 0 (c + r) then v else k) ≡ v
    → (if ltb 0 (d + 0) then v else if ltb 0 n then v else if ltb 0 r then none else k) ≡ v
all_known none k n d c r e h1 h2 h4 = ground arith
all_known (some s) k n d c r e h1 h2 h4 = ground arith
