-- ===== src/Publication/Books.antt =====
-- The books of one endpoint: how many requests hold it, and whether it is ready for more.
use copper.Prelude.{
  ℕ, zero, suc, ◌+◌, ◌^◌, ◌≤◌, ◌<◌, ◌≡◌, ◌⊎◌, inl, inr, refl, arith, List, [], ◌∷◌, ◌++◌, true,
  false, ◌==◌, ◌&&◌, ltb, leb, if◌then◌else◌, Option, none, some, Bool-cases, Option-cases,
}
use copper.Prelude.Counts.{count, count-erase, count-include}
use copper.Publication.{
  Endpoint, Publication, best_ready, take_found, take_endpoint, release_to, release_endpoint,
  queue_waiter, wakeup_waiters,
}
use copper.Publication.Runs.{served}

-- Endpoint `e`, which was given out `given` times and given back `released` times: it is listed
-- exactly while it is published, it is ready exactly while it has room, and it counts the requests
-- that hold it, which are at most its concurrency. One that was never published has concurrency 0.
pub record Book (p : Publication) (e given released : ℕ) : Type 0 where
  pub listed : count e p.endpoints ≡ (if (p.table e).published then 1 else 0)
  pub ready : count e p.ready ≡ (
      if (p.table e).published && ltb (p.table e).active (p.table e).settings.concurrency
      then 1
      else 0)
  pub active : (if (p.table e).published then (p.table e).active + released else given) ≡ given
  pub owed : released ≤ given
  pub known : (ltb 0 given && (p.table e).settings.concurrency == 0) ≡ false
  pub room :
      (if (p.table e).published
        then leb (p.table e).active (p.table e).settings.concurrency
          && (ltb 0 (p.table e).settings.concurrency
              && ltb (p.table e).settings.concurrency (2 ^ 32))
        else true)
      ≡ true

-- The endpoint found stands in the list, or was the best before.
best_ready-some :
    (t : ℕ → Endpoint) (best : Option ℕ) (xs : List ℕ) (e : ℕ)
    → best_ready t best xs ≡ some e
    → (best ≡ some e) ⊎ (0 < count e xs)
unfolding best_ready count
best_ready-some t best [] e h = inl h
best_ready-some t none (x ∷ xs) e h = ground (arith, best_ready-some t (some x) xs e)
best_ready-some t (some b) (x ∷ xs) e h =
    ground (arith, best_ready-some t (some x) xs e, best_ready-some t (some b) xs e)

best_ready-ready :
    (t : ℕ → Endpoint) (xs : List ℕ) (e : ℕ) → best_ready t none xs ≡ some e → 0 < count e xs
best_ready-ready t xs e h = ground (arith, best_ready-some t none xs e h)

-- How often `e` is in what `takeEndpointLocked` returns.
abbrev pub one_for : ℕ → Option ℕ → ℕ
one_for e none = 0
one_for e (some x) = if e == x then 1 else 0

take_found-Book :
    (p : Publication) (found : Option ℕ) (e g r : ℕ)
    → best_ready p.table none p.ready ≡ found
    → Book p e g r
    → Book (take_found p found).1 e (g + one_for e (take_found p found).0) r
unfolding take_found
take_found-Book p none e g r h b = ground arith
take_found-Book p (some x) e g r h b =
    let m = best_ready-ready p.table p.ready x h in ground (arith, count-erase e x p.ready)

pub take_endpoint-Book :
    (p : Publication) (e g r : ℕ)
    → Book p e g r
    → Book (take_endpoint p).1 e (g + one_for e (take_endpoint p).0) r
unfolding take_endpoint
take_endpoint-Book p e g r b = take_found-Book p (best_ready p.table none p.ready) e g r refl b

pub served-append :
    (e : ℕ) (xs ys : List (ℕ × Option ℕ))
    → count e (served (xs ++ ys)) ≡ count e (served xs) + count e (served ys)
unfolding count
served-append e [] ys = omega arith
served-append e ((w, none) ∷ xs) ys = served-append e xs ys
served-append e ((w, some x) ∷ xs) ys = omega (arith, served-append e xs ys)

-- The endpoints handed to waiters since.
abbrev pub handed : ℕ → Publication → ℕ
handed e p = count e (served p.sent)

-- A release by a request that holds the endpoint `x`.
release_to-Book :
    (p : Publication) (x : ℕ) (queue : List ℕ) (e t r : ℕ)
    → (if e == x then ltb r (t + handed e p) else true) ≡ true
    → (p.table x).published ≡ true
    → Book p e (t + handed e p) r
    → Book
        (release_to p x queue)
        e
        (t + handed e (release_to p x queue))
        (r + (if e == x then 1 else 0))
unfolding release_to count
release_to-Book p x [] e t r h u b = ground (arith, count-include e x p.ready)
release_to-Book p x (w ∷ rest) e t r h u b =
    ground (arith, served-append e p.sent ((w, some x) ∷ []))

pub release_endpoint-Book :
    (p : Publication) (x e t r : ℕ)
    → (if e == x then ltb r (t + handed e p) else true) ≡ true
    → Book p e (t + handed e p) r
    → Book
        (release_endpoint p x)
        e
        (t + handed e (release_endpoint p x))
        (r + (if e == x then 1 else 0))
unfolding release_endpoint
release_endpoint-Book p x e t r h b = elim (Bool-cases (p.table x).published) [
  | inl u ↦ rw u (release_to-Book p x p.queue e t r h u b)
  | inr u ↦ rw u (ground arith)
]

pub queue_waiter-Book :
    (p : Publication) (w e t r : ℕ)
    → Book p e (t + handed e p) r
    → Book (queue_waiter p w).1 e (t + handed e (queue_waiter p w).1) r
unfolding queue_waiter
queue_waiter-Book p w e t r b = ground arith

pub take_endpoint-sent : (p : Publication) → (take_endpoint p).1.sent ≡ p.sent
unfolding take_endpoint take_found
take_endpoint-sent p = ground arith

-- A taken endpoint that is handed to a waiter.
handed_on :
    (p q : Publication) (w x e t r : ℕ)
    → q.sent ≡ p.sent
    → Book q e (t + handed e p + (if e == x then 1 else 0)) r
    → let q' = record q { sent = q.sent ++ ((w, some x) ∷ []) } in Book q' e (t + handed e q') r
unfolding count
handed_on p q w x e t r s b = ground (arith, served-append e q.sent ((w, some x) ∷ []))

pub wakeup_waiters-Book :
    (n : ℕ) (queue : List ℕ) (p : Publication) (e t r : ℕ)
    → Book p e (t + handed e p) r
    → Book (wakeup_waiters n queue p).1 e (t + handed e (wakeup_waiters n queue p).1) r
unfolding wakeup_waiters
wakeup_waiters-Book zero queue p e t r b = ground arith
wakeup_waiters-Book (suc n) [] p e t r b = ground arith
wakeup_waiters-Book (suc n) (w ∷ rest) p e t r b =
    let q = (take_endpoint p).1 in
    let c = take_endpoint-Book p e (t + handed e p) r b in
    elim (Option-cases (take_endpoint p).0) [
      | inl h ↦ rw (h, wakeup_waiters) (ground arith)
      | inr (x, h) ↦
          rw (h, wakeup_waiters)
            (wakeup_waiters-Book n rest (record q { sent = q.sent ++ ((w, some x) ∷ []) }) e t r
              (handed_on p q w x e t r (take_endpoint-sent p) (ground (arith, h))))
    ]
