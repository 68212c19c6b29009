-- ===== src/Subscription/Best.antt =====
-- An option hands a request to the best that it has.
use copper.Prelude.{
  ℕ, suc, ◌^◌, ◌<◌, ◌≡◌, refl, ap, sym, ◌∙◌, Bool-cases, inl, inr, lt→ltb, ltb→lt, arith, List, [],
  ◌∷◌, length, take, get_elem?, false, ◌==◌, leb, ltb, max, if◌then◌else◌, Option, none, some,
}
use mathlib.Core.Path.{subst}
use copper.Prelude.Counts.{count}
use copper.Subscription.Order.{
  NoneBelow, Ordered, NoneBelow-le, take-leading, Leads, get_elem?-leading,
}
use copper.Subscription.{
  Choice, Target, to_route, to_publication, to_remote, no_priority, is_active_option,
  first_priority, leading, handle_request, handle_option, handle_local, handle_remote, to_remote?,
  get_endpoints, all_remotes,
}

-- The lists of an option are in order, and what it keeps of them is right.
pub record IsValid (locals remotes : ℕ → ℕ) (o : Choice) : Type 0 where
  pub locals_ordered : Ordered locals o.locals
  pub remotes_ordered : Ordered remotes o.remotes
  pub local_first : o.local_priority ≡ first_priority locals o.locals
  pub remote_first : o.remote_priority ≡ first_priority remotes o.remotes
  pub leaders : o.remote_count ≡ leading remotes o.remote_priority o.remotes

-- What an option may hand a request to: its route; or else a publication of the least priority among
-- all publications and remotes; or else a remote of the least priority among the remotes, which is
-- below that of every publication; and nothing only where it has nothing.
abbrev pub IsBest : (ℕ → ℕ) → (ℕ → ℕ) → Choice → Option Target → Type 0
IsBest locals remotes o (some (to_route r)) = o.route ≡ some r
IsBest locals remotes o (some (to_publication p)) =
    (o.route ≡ none)
    × (0 < count p o.locals)
    × NoneBelow locals (locals p) o.locals
    × NoneBelow remotes (locals p) o.remotes
IsBest locals remotes o (some (to_remote r)) =
    (o.route ≡ none)
    × (0 < count r o.remotes)
    × NoneBelow remotes (remotes r) o.remotes
    × NoneBelow locals (suc (remotes r)) o.locals
IsBest locals remotes o none = is_active_option o ≡ false

first-NoneBelow : (f : ℕ → ℕ) (xs : List ℕ) → Ordered f xs → NoneBelow f (first_priority f xs) xs
first-NoneBelow f [] h = tt
first-NoneBelow f (x ∷ xs) h = (omega arith, h.0)

leading-first : (f : ℕ → ℕ) (xs : List ℕ) → leading f (first_priority f xs) xs ≡ 0 → length xs ≡ 0
unfolding leading
leading-first f [] h = refl
leading-first f (x ∷ xs) h = ground arith

first_none : (f : ℕ → ℕ) (xs : List ℕ) → length xs ≡ 0 → first_priority f xs ≡ no_priority
first_none f [] z = refl
first_none f (x ∷ xs) z = absurd (omega arith)

module _ (locals remotes : ℕ → ℕ) (o : Choice) (v : IsValid locals remotes o)
    (e : o.route ≡ none) where
  remotes-NoneBelow : NoneBelow remotes o.remote_priority o.remotes
  remotes-NoneBelow =
      NoneBelow-le remotes o.remote_priority (first_priority remotes o.remotes) o.remotes
        (omega (arith, v.remote_first)) (first-NoneBelow remotes o.remotes v.remotes_ordered)

  chosen-IsBest :
      (found : Option ℕ)
      → Leads remotes o.remote_priority o.remotes found
      → NoneBelow locals (suc o.remote_priority) o.locals
      → IsBest locals remotes o (to_remote? found)
  chosen-IsBest none l b = absurd l
  chosen-IsBest (some r) (same, inside) b = (
    e,
    inside,
    NoneBelow-le remotes (remotes r) o.remote_priority o.remotes (omega (arith, same))
        remotes-NoneBelow,
    NoneBelow-le locals (suc (remotes r)) (suc o.remote_priority) o.locals (omega (arith, same)) b,
  )

  no_best : length o.remotes ≡ 0 → o.remote_priority ≡ no_priority
  no_best z = v.remote_first ∙ first_none remotes o.remotes z

  handle_remote-IsBest :
      (random : ℕ)
      → random < max 1 o.remote_count
      → NoneBelow locals (suc o.remote_priority) o.locals
      → 0 < o.remote_count
      → IsBest locals remotes o (handle_remote o random)
  unfolding handle_remote
  handle_remote-IsBest random h b c =
      let i = if ltb 1 o.remote_count then random else 0 in
      let l : Leads remotes o.remote_priority o.remotes (get_elem? o.remotes i) =
        get_elem?-leading remotes o.remote_priority o.remotes i (ground (arith, v.leaders)) in
      rw (lt→ltb 0 o.remote_count c) (chosen-IsBest (get_elem? o.remotes i) l b)

  no_leader : o.remote_count ≡ 0 → length o.remotes ≡ 0
  no_leader c =
      leading-first remotes o.remotes
        (ap (λ n. leading remotes n o.remotes) (sym v.remote_first) ∙ (sym v.leaders ∙ c))

  some_leader : (n : ℕ) → o.remote_priority < n → n < 2 ^ 32 → 0 < o.remote_count
  some_leader n below small = elim (Bool-cases (o.remote_count == 0)) [
    | inl z ↦ absurd (omega (arith, no_best (no_leader (ground (arith, z)))))
    | inr z ↦ ground (arith, z)
  ]

  handle_local-IsBest :
      (random : ℕ) (ps : List ℕ)
      → o.locals ≡ ps
      → random < max 1 o.remote_count
      → ((p : ℕ) → locals p < 2 ^ 32)
      → IsBest locals remotes o (handle_local o random ps)
  unfolding handle_local is_active_option count
  handle_local-IsBest random [] q h small = elim (Bool-cases (ltb 0 o.remote_count)) [
    | inl c ↦ handle_remote-IsBest random h (rw q tt) (ltb→lt 0 o.remote_count c)
    | inr c ↦ rw (handle_remote, c) (ground (arith, no_leader, ap length q))
  ]
  handle_local-IsBest random (p ∷ ps) q h small =
      let ordered : Ordered locals (p ∷ ps) = subst (Ordered locals) q v.locals_ordered in
      let first : o.local_priority ≡ locals p = v.local_first ∙ ap (first_priority locals) q in
      elim (Bool-cases (leb o.local_priority o.remote_priority)) [
        | inl c ↦ rw c (
          e,
          rw q (ground arith),
          rw q (omega arith, ordered.0),
          NoneBelow-le remotes (locals p) o.remote_priority o.remotes (ground (arith, first, c))
              remotes-NoneBelow,
        )
        | inr c ↦
            (let below : o.remote_priority < locals p = ground (arith, first, c) in
              rw c (
                handle_remote-IsBest random h
                  (rw q (
                    below,
                    NoneBelow-le locals (suc o.remote_priority) (locals p) ps below ordered.0,
                  ))
                  (some_leader (locals p) below (small p))))
      ]

-- A request is handed to the best that the option has: to the route if there is one; else to a
-- publication whose priority no other publication or remote is below; else to a remote that no other
-- is below and that is below every publication. Only an option that is not active refuses it.
pub handle_request-IsBest :
    (locals remotes : ℕ → ℕ) (o : Choice) (random : ℕ)
    → IsValid locals remotes o
    → random < max 1 o.remote_count
    → ((p : ℕ) → locals p < 2 ^ 32)
    → IsBest locals remotes o (handle_request o random)
unfolding handle_request
handle_request-IsBest locals remotes o random v h small = by_route o.route refl
  where
    by_route : (r : Option ℕ) → o.route ≡ r → IsBest locals remotes o (handle_option o random r)
    by_route (some r) q = q
    by_route none q = handle_local-IsBest locals remotes o v q random o.locals refl h small

-- An option with neither a route nor publications lists exactly the remotes that a request may be
-- handed to: the first `remote_count`, from which one is drawn.
pub endpoints_are_leaders :
    (locals remotes : ℕ → ℕ) (o : Choice)
    → IsValid locals remotes o
    → o.route ≡ none
    → o.locals ≡ []
    → get_endpoints remotes o ≡ all_remotes (take o.remote_count o.remotes)
unfolding get_endpoints
endpoints_are_leaders locals remotes o v e q =
    let all = remotes-NoneBelow locals remotes o v e in
    rw (e, q)
      (ap all_remotes (
        sym (
          ap (λ n. take n o.remotes) v.leaders
          ∙ take-leading remotes o.remote_priority o.remotes all v.remotes_ordered)))
