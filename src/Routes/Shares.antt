-- ===== src/Routes/Shares.antt =====
-- Each case is drawn by exactly as many numbers as its weight.
use copper.Prelude.{
  ℕ, ◌+◌, ◌-◌, ◌<◌, max, ◌≡◌, ◌∙◌, ap, refl, arith, List, [], ◌∷◌, ◌++◌, Bool, true, false, ◌==◌,
  ltb, if◌then◌else◌, Bool-cases, inl, inr,
}
use copper.Routes.{Case, Draw, no_route, drawn, is_open, sum_weights, find_bin, draw}

module _ (is_active : ℕ → Bool) where
  -- A case that is open is passed by a number not below its weight, any other case by every number.
  find_bin-pass :
      (b : Case) (rest : List Case) (k : ℕ)
      → find_bin is_active (b ∷ rest) ((if is_open is_active b then b.weight else 0) + k)
        ≡ find_bin is_active rest k
  unfolding find_bin
  find_bin-pass b rest k = elim (Bool-cases (is_open is_active b)) [
    | inl p ↦
        (let e : b.weight + k - b.weight ≡ k = omega arith in
          let l : ltb (b.weight + k) b.weight ≡ false = ground arith in rw (p, l, e) refl)
    | inr p ↦ rw p (ap (find_bin is_active rest) (omega arith))
  ]

  find_bin-append :
      (before after : List Case) (c : Case) (j : ℕ)
      → is_open is_active c ≡ true
      → j < c.weight
      → find_bin is_active (before ++ (c ∷ after)) (sum_weights is_active before + j) ≡ drawn c.sub
  unfolding find_bin sum_weights
  find_bin-append [] after c j o h =
      let e : 0 + j ≡ j = omega arith in
      let l : ltb j c.weight ≡ true = ground arith in rw (e, o, l) refl
  find_bin-append (b ∷ before) after c j o h =
      ap (find_bin is_active (b ∷ (before ++ (c ∷ after)))) (omega arith)
      ∙ find_bin-pass b (before ++ (c ∷ after)) (sum_weights is_active before + j)
      ∙ find_bin-append before after c j o h

  sum_weights-append :
      (before after : List Case)
      → sum_weights is_active (before ++ after)
        ≡ sum_weights is_active before + sum_weights is_active after
  unfolding sum_weights
  sum_weights-append [] after = omega arith
  sum_weights-append (b ∷ before) after = omega (arith, sum_weights-append before after)

  -- Where a number below the sum of the weights falls: in one open case, `offset` above the weights
  -- of the open cases before it.
  pub record Place (cases : List Case) (number : ℕ) : Type 0 where
    pub before : List Case
    pub after : List Case
    pub it : Case
    pub offset : ℕ
    pub divided : cases ≡ before ++ (it ∷ after)
    pub opened : is_open is_active it ≡ true
    pub inside : offset < it.weight
    pub placed : number ≡ sum_weights is_active before + offset

  place :
      (cases : List Case) (number : ℕ) → number < sum_weights is_active cases → Place cases number
  unfolding sum_weights
  place [] number h = absurd (omega arith)
  place (c ∷ rest) number h = elim (Bool-cases (is_open is_active c)) [
    | inl p ↦ elim (Bool-cases (ltb number c.weight)) [
      | inl here ↦ record {
        before = [];
        after = rest;
        it = c;
        offset = number;
        divided = refl;
        opened = p;
        inside = ground arith;
        placed = omega arith;
      }
      | inr later ↦ behind c (place rest (number - c.weight) (ground arith)) (ground arith)
    ]
    | inr p ↦ behind c (place rest number (ground arith)) (ground arith)
  ]
    where
      behind :
          (c : Case) {number n : ℕ} {rest : List Case} (q : Place rest n)
          → number ≡ (if is_open is_active c then c.weight else 0) + n
          → Place (c ∷ rest) number
      behind c q e = record {
        before = c ∷ q.before;
        after = q.after;
        it = q.it;
        offset = q.offset;
        divided = ap (c ∷◌) q.divided;
        opened = q.opened;
        inside = q.inside;
        placed = omega (arith, q.placed, e);
      }

  -- Where a request to the route goes: nowhere, since no case is open, or to the case in whose place
  -- the number stands.
  pub data Share (cases : List Case) (number : ℕ) (result : Draw) : Type 0 where
    none_open : sum_weights is_active cases ≡ 0 → result ≡ no_route → Share cases number result
    shared : (p : Place cases number) → result ≡ drawn p.it.sub → Share cases number result

  -- With the weights of the open cases laid end to end, `weight` numbers in a row to each: for every
  -- number, if it stands in the place of an open case then the request goes to that case.
  pub draw_shares :
      (cases : List Case) (number : ℕ) (p : Place cases number)
      → draw is_active cases number ≡ drawn p.it.sub
  unfolding draw sum_weights
  draw_shares cases number p = rw p.divided (
      let later : (sum_weights is_active (p.before ++ (p.it ∷ p.after)) == 0) ≡ false =
        ground (arith, sum_weights-append p.before (p.it ∷ p.after), p.opened, p.inside) in
      rw (later, p.placed) (find_bin-append p.before p.after p.it p.offset p.opened p.inside))

  -- For every number below the sum of the open cases' weights, as the generator gives it, and for 0
  -- when that sum is 0: the request ends with no route if the sum is 0, and with the subscription of
  -- the open case in whose place the number stands otherwise, so the panic behind the loop is not
  -- reached.
  pub draw-Share :
      (cases : List Case) (number : ℕ)
      → number < max 1 (sum_weights is_active cases)
      → Share cases number (draw is_active cases number)
  unfolding draw
  draw-Share cases number h = elim (Bool-cases (sum_weights is_active cases == 0)) [
    | inl z ↦ none_open (ground arith) (rw z refl)
    | inr z ↦ (let p = place cases number (ground arith) in shared p (draw_shares cases number p))
  ]
