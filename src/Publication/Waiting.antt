-- ===== src/Publication/Waiting.antt =====
-- Who waits, and for what: waiters are served in the order in which they came, but
-- `takeEndpointRLocked` and `queueWaiterRLocked` are two steps of a request.
use copper.Prelude.{
  ℕ, zero, suc, ◌<◌, ◌≡◌, refl, ap, sym, ◌∙◌, arith, List, [], ◌∷◌, ◌++◌, append_assoc, append-nil,
  length, take_self, Bool-cases, take, drop, map, Bool, true, false, if◌then◌else◌, leb, Option,
  none, some, Option-cases, inl, inr, ◌==◌,
}
use copper.Prelude.Counts.{count, count-include}
use copper.Publication.{
  PublishSettings, EndpointKey, Publication, take_endpoint, take_found, release_endpoint,
  release_to, queue_waiter, wakeup_waiters,
}
use copper.Publication.Endpoints.{admit, withdraw, shrink, unpublish, dropped}
use copper.Publication.Books.{take_endpoint-sent}

-- The waiters that were served or sent away, and those that still wait, in order.
abbrev pub line : Publication → List ℕ
line p = map (λ s. s.0) p.sent ++ p.queue

map-append_last :
    (xs : List (ℕ × Option ℕ)) (w : ℕ) (e : Option ℕ) (ws : List ℕ)
    → map (λ s. s.0) (xs ++ ((w, e) ∷ [])) ++ ws ≡ map (λ s. s.0) xs ++ (w ∷ ws)
map-append_last [] w e ws = refl
map-append_last (x ∷ xs) w e ws = ap (λ l. x.0 ∷ l) (map-append_last xs w e ws)

map-append_dropped :
    (xs : List (ℕ × Option ℕ)) (ws : List ℕ)
    → map (λ s. s.0) (xs ++ map dropped ws) ≡ map (λ s. s.0) xs ++ ws
map-append_dropped [] [] = refl
map-append_dropped [] (w ∷ ws) = ap (λ l. w ∷ l) (map-append_dropped [] ws)
map-append_dropped (x ∷ xs) ws = ap (λ l. x.0 ∷ l) (map-append_dropped xs ws)

line-wakeup_waiters :
    (n : ℕ) (queue : List ℕ) (p : Publication)
    → line (wakeup_waiters n queue p).1 ≡ map (λ s. s.0) p.sent ++ queue
unfolding wakeup_waiters
line-wakeup_waiters zero queue p = refl
line-wakeup_waiters (suc n) [] p = refl
line-wakeup_waiters (suc n) (w ∷ rest) p =
    let q = (take_endpoint p).1 in
    elim (Option-cases (take_endpoint p).0) [
      | inl h ↦ rw (h, wakeup_waiters) refl
      | inr (x, h) ↦
          rw (h, wakeup_waiters)
            (line-wakeup_waiters n rest (record q { sent = q.sent ++ ((w, some x) ∷ []) })
              ∙ map-append_last q.sent w (some x) rest
              ∙ ap (λ s. map (λ t. t.0) s ++ (w ∷ rest)) (take_endpoint-sent p))
    ]

line-release_queue :
    (p : Publication) (x : ℕ) (queue : List ℕ)
    → p.queue ≡ queue
    → (b : Bool) → line (if b then release_to p x queue else p) ≡ line p
unfolding release_to
line-release_queue p x queue e false = refl
line-release_queue p x [] e true = refl
line-release_queue p x (w ∷ rest) e true =
    map-append_last p.sent w (some x) rest ∙ ap (λ l. map (λ s. s.0) p.sent ++ l) (sym e)

-- The waiters behind the first `k` were sent away.
abbrev pub SentAway : Publication → Publication → ℕ → Type 0
SentAway p q k = (q.queue ≡ take k p.queue) × (q.sent ≡ p.sent ++ map dropped (drop k p.queue))

all_kept :
    (queue : List ℕ) (sent : List (ℕ × Option ℕ))
    → sent ≡ sent ++ map dropped (drop (length queue) queue)
all_kept [] sent = sym (append-nil sent)
all_kept (w ∷ ws) sent = all_kept ws sent

unpublish-SentAway : (p : Publication) (x : ℕ) → (k : ℕ) × SentAway p (unpublish p x).1 k
unfolding unpublish shrink withdraw
unpublish-SentAway p x = elim (Bool-cases (p.table x).published) [
  | inl u ↦
      (let q = withdraw p x in
        rw u (if length q.endpoints == 0 then 0 else q.settings.queue_size, (refl, refl)))
  | inr u ↦ rw u (
    length p.queue,
    (sym (take_self p.queue (length p.queue) (omega arith)), all_kept p.queue p.sent),
  )
]

line-take_endpoint : (p : Publication) → line (take_endpoint p).1 ≡ line p
unfolding take_endpoint take_found
line-take_endpoint p = ground arith

line-queue_waiter :
    (p : Publication) (w : ℕ)
    → line (queue_waiter p w).1
      ≡ (if leb p.settings.queue_size (length p.queue) then line p else line p ++ (w ∷ []))
unfolding queue_waiter
line-queue_waiter p w = ground (arith, append_assoc (map (λ s. s.0) p.sent) p.queue (w ∷ []))

-- Waiters are served in the order in which they came, by a release and by a new endpoint alike: what
-- was handled and what still waits form one line, at whose end a new waiter stands if there is room.
-- An endpoint that is withdrawn sends away those that came last.
pub waiters_in_order :
    (p : Publication) (x w : ℕ) (key : EndpointKey) (s : PublishSettings)
    → (line (release_endpoint p x) ≡ line p)
      × (line (admit p x key s) ≡ line p)
      × (line (take_endpoint p).1 ≡ line p)
      × (line (queue_waiter p w).1
          ≡ (if leb p.settings.queue_size (length p.queue) then line p else line p ++ (w ∷ [])))
      × ((k : ℕ) × SentAway p (unpublish p x).1 k)
unfolding release_endpoint admit
waiters_in_order p x w key s = (
  line-release_queue p x p.queue refl (p.table x).published,
  line-wakeup_waiters s.concurrency p.queue _,
  line-take_endpoint p,
  line-queue_waiter p w,
  unpublish-SentAway p x,
)

-- A request that finds no endpoint ready and is overtaken by a release, before it stands in the
-- queue, waits though the endpoint released is ready and nobody else waits: the release saw no
-- waiter, and the request does not look again.
pub stranded_waiter :
    (p : Publication) (x w : ℕ)
    → (take_endpoint p).0 ≡ none
    → (p.table x).published ≡ true
    → p.queue ≡ []
    → 0 < p.settings.queue_size
    → let q = (queue_waiter (release_endpoint p x) w).1 in
      (q.queue ≡ w ∷ []) × (q.sent ≡ p.sent) × (0 < count x q.ready)
unfolding release_endpoint release_to queue_waiter
stranded_waiter p x w idle u e room = rw (u, e) (ground (arith, count-include x x p.ready))
