-- ===== src/StreamIds/Allocate.antt =====
-- Which ids `allocateLocked` hands out.
use copper.Prelude.{
  ℕ, zero, suc, ◌+◌, ◌-◌, ◌/◌, ◌%◌, ◌^◌, ◌≤◌, ◌<◌, ◌≡◌, ◌≢◌, refl, ◌∙◌, ap, arith, Bool, true,
  false, ltb, ltb→lt, if◌then◌else◌, none, some, Bool-cases, Option-cases, inl, inr, ◌==◌, ==_iff,
  ◌&&◌, leb,
}
use mathlib.Core.Path.{subst}
use copper.Errors.{Result, ok, err}
use copper.Frame.{max_stream_id}
use copper.StreamIds.{
  Live, Streams, find, Allocated, got, full, stuck, after, wrap, search, rounds, settle,
  allocate_with, allocate, no_free_stream_id,
}

-- The parity `flag` of the ids and a next id in range.
pub record IsValid (s : Streams) : Type 0 where
  pub side : s.flag < 2
  pub positive : 0 < s.next
  pub within : s.next ≤ max_stream_id
  pub owned : s.next % 2 ≡ s.flag

wrap-even : (n : ℕ) → n ≡ 2 ^ 31 → wrap n ≡ 2
unfolding wrap
wrap-even n e = rw e refl

wrap-odd : (n : ℕ) → n ≡ 2 ^ 31 + 1 → wrap n ≡ 1
unfolding wrap
wrap-odd n e = rw e refl

-- Behind the last id of a parity the ids go on with the first.
wrap-after : (id : ℕ) → id ≤ max_stream_id → max_stream_id < after id → wrap (after id) ≡ 2 - id % 2
wrap-after id h k = ground (arith, wrap-even (after id), wrap-odd (after id))

module _ (live : Live) (flag : ℕ) where
  -- An id that the loop may look at.
  record Candidate (id : ℕ) : Type 0 where
    positive : 0 < id
    within : id ≤ max_stream_id
    owned : id % 2 ≡ flag

  Candidate-after : (id : ℕ) → Candidate id → after id ≤ max_stream_id → Candidate (after id)
  Candidate-after id c h = omega arith

  Candidate-wrap : (id : ℕ) → Candidate id → max_stream_id < after id → Candidate (wrap (after id))
  Candidate-wrap id c h = let e = wrap-after id c.within h in rw e (omega (arith, c.owned))

  -- What a result promises: a free id in range with the next one in range, or an error behind the
  -- last id.
  abbrev Promise : Allocated → Type 0
  Promise (got id n) = Candidate id × (find live id ≡ none) × Candidate n
  Promise (full n) = (max_stream_id < n) × (n < 2 ^ 31 + 2)
  Promise stuck = Unit {0}

  search-Promise :
      (fuel : ℕ) (wrapped : Bool) (id : ℕ) → Candidate id → Promise (search fuel live wrapped id)
  unfolding search
  search-Promise zero wrapped id c = tt
  search-Promise (suc fuel) wrapped id c = elim (Bool-cases (ltb max_stream_id (after id))) [
    | inr more ↦ elim (Option-cases (find live id)) [
      | inl free ↦ rw (more, free, search) (c, free, Candidate-after id c (ground arith))
      | inr (s, taken) ↦
          rw (more, taken, search)
            (search-Promise fuel wrapped (after id) (Candidate-after id c (ground arith)))
    ]
    | inl last ↦
        ending wrapped last
          (λ k. search-Promise fuel true (wrap (after id)) (Candidate-wrap id c k))
  ]
    where
      ending :
          (w : Bool)
          → ltb max_stream_id (after id) ≡ true
          → (max_stream_id < after id → Promise (search fuel live true (wrap (after id))))
          → Promise (search (suc fuel) live w id)
      ending true last again = rw (last, search) (ltb→lt _ _ last, omega (arith, c.within))
      ending false last again = elim (Option-cases (find live id)) [
        | inl free ↦ rw (last, free, search) (c, free, Candidate-wrap id c (ltb→lt _ _ last))
        | inr (s, taken) ↦ rw (last, taken, search) (again (ltb→lt _ _ last))
      ]

  -- The ids still to be looked at.
  abbrev left : Bool → ℕ → ℕ
  left wrapped id = (2 ^ 31 + 1 - id) / 2 + (if wrapped then 0 else 2 ^ 30)

  -- With as many rounds as there are ids to look at the loop ends by itself.
  search-ends :
      (fuel : ℕ) (wrapped : Bool) (id : ℕ)
      → Candidate id
      → left wrapped id ≤ fuel
      → search fuel live wrapped id ≢ stuck
  unfolding search
  search-ends zero true id c h = absurd (omega (arith, c.within))
  search-ends zero false id c h = absurd (omega (arith, c.within))
  search-ends (suc fuel) true id c h =
      ground (arith, search-ends fuel true (after id), Candidate-after id c, c.within, c.positive)
  search-ends (suc fuel) false id c h = ground (
    arith,
    search-ends fuel false (after id),
    Candidate-after id c,
    search-ends fuel true (wrap (after id)),
    Candidate-wrap id c,
    wrap-after id,
    c.within,
    c.positive,
  )

  -- Every id of the parity in a range stands for a live stream.
  abbrev TakenIn : ℕ → ℕ → Type 0
  TakenIn lo hi = (k : ℕ) → lo ≤ k → k < hi → k % 2 ≡ flag → (s : ℕ) × (find live k ≡ some s)

  -- One more id in front of a range.
  TakenIn-cons :
      (id m hi s : ℕ)
      → m ≡ id + 2
      → id % 2 ≡ flag
      → find live id ≡ some s
      → TakenIn m hi
      → TakenIn id hi
  TakenIn-cons id m hi s w p e t k lo h q = elim (Bool-cases (k == id)) [
    | inl same ↦ (s, rw ((==_iff k id).0 same) e)
    | inr other ↦ t k (ground arith) h q
  ]

  -- The last id of the parity.
  abbrev last : ℕ
  last = 2 ^ 31 - 2 + flag

  -- What an error says of the ids that the loop went through.
  abbrev Exhausted : Bool → ℕ → Type 0
  Exhausted true id = TakenIn id last
  Exhausted false id = TakenIn id (2 ^ 31) × TakenIn 1 last

  search-full :
      (fuel : ℕ) (wrapped : Bool) (id n : ℕ)
      → Candidate id
      → search fuel live wrapped id ≡ full n
      → Exhausted wrapped id
  unfolding search
  search-full zero wrapped id n c e = cc
  search-full (suc fuel) true id n c e = elim (Bool-cases (ltb max_stream_id (after id))) [
    | inl end ↦ λ k lo h q. absurd (omega (arith, ltb→lt _ _ end))
    | inr more ↦ elim (Option-cases (find live id)) [
      | inl free ↦ cc (rw (more, free, search) at e)
      | inr (s, taken) ↦ TakenIn-cons id (after id) last s (ground arith) c.owned taken (
          search-full fuel true (after id) n (Candidate-after id c (ground arith))
            (rw (more, taken, search) at e))
    ]
  ]
  search-full (suc fuel) false id n c e = elim (Option-cases (find live id)) [
    | inl free ↦ elim (Bool-cases (ltb max_stream_id (after id))) [
      | inl end ↦ cc (rw (end, free, search) at e)
      | inr more ↦ cc (rw (more, free, search) at e)
    ]
    | inr (s, taken) ↦ elim (Bool-cases (ltb max_stream_id (after id))) [
      | inl end ↦
          let rest =
            search-full fuel true (wrap (after id)) n (Candidate-wrap id c (ltb→lt _ _ end))
              (rw (end, taken, search) at e) in
          (
            TakenIn-cons id (id + 2) (2 ^ 31) s refl c.owned taken
                (λ k lo h q. absurd (omega (arith, lo, h, ltb→lt _ _ end))),
            (λ k lo h q.
                rest k (omega (arith, lo, q, c.owned, wrap-after id c.within (ltb→lt _ _ end))) h
                  q),
          )
      | inr more ↦
          let (high, low) =
            search-full fuel false (after id) n (Candidate-after id c (ground arith))
              (rw (more, taken, search) at e) in
          (TakenIn-cons id (after id) (2 ^ 31) s (ground arith) c.owned taken high, low)
    ]
  ]

-- The ids of the connection's parity, and those that no stream has.
abbrev is_candidate : ℕ → ℕ → Bool
is_candidate flag id = ltb 0 id && (leb id max_stream_id && id % 2 == flag)

abbrev is_free : Live → ℕ → Bool
is_free live id = elim (find live id) [ none ↦ true | some t ↦ false ]

not_free :
    (flag : ℕ) (live : Live) (id : ℕ)
    → (is_candidate flag id ≡ true → (t : ℕ) × (find live id ≡ some t))
    → (is_candidate flag id && is_free live id) ≡ false
not_free flag live id h = elim (Bool-cases (is_candidate flag id)) [
  | inl e ↦
      (let (t, f) = h e in
        let free : is_free live id ≡ false = rw (is_free, f) refl in ground (arith, e, free))
  | inr e ↦ ground (arith, e)
]

module _ (s : Streams) where
  Candidate-next : IsValid s → Candidate s.live s.flag s.next
  Candidate-next v = record { positive = v.positive; within = v.within; owned = v.owned }

  abbrev pub Outcome : Result ℕ × Streams → Type 0
  Outcome (ok id, s') =
      (0 < id)
      × (id ≤ max_stream_id)
      × (id % 2 ≡ s.flag)
      × (find s.live id ≡ none)
      × (s' ≡ record s { next = s'.next })
      × IsValid s'
  Outcome (err e, s') =
      (e ≡ no_free_stream_id)
      × (max_stream_id < s'.next)
      × (s'.next < 2 ^ 31 + 2)
      × (s' ≡ record s { next = s'.next })
      × ((id : ℕ) → (is_candidate s.flag id && is_free s.live id) ≡ false)

  settle-Outcome :
      (r : Allocated)
      → IsValid s
      → search rounds s.live false s.next ≡ r
      → Promise s.live s.flag r
      → r ≢ stuck
      → Outcome (settle s r)
  unfolding settle
  settle-Outcome (got id n) v e (c, free, c') h = (
    c.positive,
    c.within,
    c.owned,
    free,
    refl,
    record { side = v.side; positive = c'.positive; within = c'.within; owned = c'.owned },
  )
  settle-Outcome (full n) v e p h =
      let (high, low) = search-full s.live s.flag rounds false s.next n (Candidate-next v) e in
      let taken : (id : ℕ)
          → 0 < id
          → id ≤ max_stream_id
          → id % 2 ≡ s.flag
          → (t : ℕ) × (find s.live id ≡ some t) =
        λ id pos lim q. elim (Bool-cases (ltb id s.next)) [
          | inl under ↦ low id pos (omega (arith, ltb→lt _ _ under, v.within, v.owned, q, v.side)) q
          | inr above ↦ high id (ground arith) (omega arith) q
        ] in
      (
        refl,
        p.0,
        p.1,
        refl,
        (λ id.
            not_free s.flag s.live id (λ c. taken id (ground arith) (ground arith) (ground arith))),
      )
  settle-Outcome stuck v e p h = absurd (h refl)

  allocate-open : s.err ≡ none → allocate s ≡ settle s (search rounds s.live false s.next)
  unfolding allocate allocate_with
  allocate-open o = ap (allocate_with s) o

  -- On an open connection `allocateLocked` always ends. It gives an id of the connection's parity,
  -- between 1 and 2^31 - 1, that stands for no live stream, and a state that is valid again and
  -- differs in the next id only. Or it gives the error that no id is free: then every id of the
  -- parity between 1 and 2^31 - 1 stands for a live stream, and the next id is left out of range.
  pub allocate-Outcome : IsValid s → s.err ≡ none → Outcome (allocate s)
  allocate-Outcome v o =
      let c = Candidate-next v in
      rw (allocate-open o) (
        settle-Outcome (search rounds s.live false s.next) v refl
          (search-Promise s.live s.flag rounds false s.next c)
          (search-ends s.live s.flag rounds false s.next c (omega (arith, v.positive))))

  search-first :
      (fuel id : ℕ)
      → find s.live id ≡ none
      → max_stream_id < after id
      → search (suc fuel) s.live false id ≡ got id (wrap (after id))
  unfolding search
  search-first fuel id free h = ground arith

-- After the error that no id is free, the next call hands out the id left out of range, 2^31 or
-- 2^31 + 1, if no live stream has it.
pub allocate_overrun :
    (s s' : Streams)
    → IsValid s
    → s.err ≡ none
    → allocate s ≡ (err no_free_stream_id, s')
    → find s'.live s'.next ≡ none
    → ((allocate s').0 ≡ ok s'.next) × (max_stream_id < s'.next)
allocate_overrun s s' v o e free =
    let (same, high, low, kept, all) = subst (Outcome s) e (allocate-Outcome s v o) in
    let step = search-first s' (2 ^ 31 + 1) s'.next free (ground (arith, high, low)) in
    (
      ap (λ r. r.0) (allocate-open s' (ap (λ t. t.err) kept ∙ o))
          ∙ ap (λ r. (settle s' r).0) step
          ∙ (unfold settle in refl),
      high,
    )
