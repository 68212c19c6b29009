-- ===== src/Publication/Capacity.antt =====
-- Whatever requests and endpoints do, the books of every endpoint are right.
use copper.Prelude.{
  ℕ, zero, suc, ◌+◌, ◌≡◌, refl, ◌∙◌, arith, List, [], ◌∷◌, ◌++◌, length, drop, map, max, Bool, true,
  false, ◌==◌, ◌&&◌, ltb, leb, if◌then◌else◌, Option, none, some, Bool-cases, Option-cases, inl,
  inr,
}
use copper.Prelude.Counts.{count, include, count-last, count-erase, count-include}
use copper.Publication.{
  PublishSettings, EndpointKey, Publication, take_found, take_endpoint, release_to,
  release_endpoint, queue_waiter, cancel_waiter, give_back, received, wakeup_waiters, put,
  add_count,
}
use copper.Publication.Endpoints.{
  Joined, admit, capacity_overflow, conflict, dropped, has_key, join, joined, new_publication,
  queue_overflow, refused, shrink, sum_uint32, unpublish, withdraw,
}
use copper.Publication.Runs.{
  Run, Event, take_call, release_call, unpublish_call, wait_call, cancel_call, publish_call, served,
  given, is_held, is_allowed, step, run, started, add_taken, add_endpoint, cancel_served,
}
use copper.Publication.Books.{
  Book, handed, one_for, served-append, take_endpoint-Book, take_endpoint-sent,
  release_endpoint-Book, wakeup_waiters-Book,
}

-- No operation on requests changes the settings of an endpoint.
take_settings :
    (p : Publication) (e : ℕ) → ((take_endpoint p).1.table e).settings ≡ (p.table e).settings
unfolding take_endpoint take_found
take_settings p e = ground arith

wakeup_settings :
    (n : ℕ) (queue : List ℕ) (p : Publication) (e : ℕ)
    → ((wakeup_waiters n queue p).1.table e).settings ≡ (p.table e).settings
unfolding wakeup_waiters
wakeup_settings zero queue p e = refl
wakeup_settings (suc n) [] p e = refl
wakeup_settings (suc n) (w ∷ rest) p e =
    let q = (take_endpoint p).1 in
    elim (Option-cases (take_endpoint p).0) [
      | inl h ↦ rw (h, wakeup_waiters) refl
      | inr (x, h) ↦
          rw (h, wakeup_waiters)
            (wakeup_settings n rest (record q { sent = q.sent ++ ((w, some x) ∷ []) }) e
              ∙ take_settings p e)
    ]

release_settings :
    (p : Publication) (x e : ℕ) → ((release_endpoint p x).table e).settings ≡ (p.table e).settings
unfolding release_endpoint release_to
release_settings p x e = ground arith

-- Endpoints from `fresh` on were never published.
pub record Kept (r : Run) (e : ℕ) : Type 0 where
  pub book : Book r.now e (given r e) (count e r.released)
  pub unused : (leb r.fresh e && ltb 0 (r.now.table e).settings.concurrency) ≡ false

add_taken-Kept :
    (r : Run) (e : ℕ) (found : Option ℕ × Publication)
    → found.1.sent ≡ r.now.sent
    → (found.1.table e).settings ≡ (r.now.table e).settings
    → Book found.1 e (given r e + one_for e found.0) (count e r.released)
    → Kept r e
    → Kept (add_taken r found) e
unfolding count
add_taken-Kept r e (none, p) s c b k = ground arith
add_taken-Kept r e (some x, p) s c b k = ground arith

held_by :
    (r : Run) (x e : ℕ)
    → is_held r x ≡ true
    → (if e == x then ltb (count e r.released) (count e r.taken + handed e r.now) else true) ≡ true
held_by r x e h = ground (arith, h)

-- A request that holds `x` gives it back.
release-Kept :
    (r : Run) (x e : ℕ)
    → is_held r x ≡ true
    → Kept r e
    → Kept (record r { now = release_endpoint r.now x; released = x ∷ r.released }) e
unfolding count
release-Kept r x e h k =
    let b =
      release_endpoint-Book r.now x e (count e r.taken) (count e r.released) (held_by r x e h)
        k.book in
    ground (arith, release_settings r.now x e)

cancel_served-Kept :
    (r : Run) (w e : ℕ) (found : Option ℕ)
    → received r.now.sent w ≡ found
    → ltb 0 (count w r.now.queue) ≡ false
    → Kept r e
    → Kept (cancel_served r w found) e
unfolding cancel_waiter give_back
cancel_served-Kept r w e none f q k = rw (q, f) k
cancel_served-Kept r w e (some x) f q k = elim (Bool-cases (is_held r x)) [
  | inl h ↦ rw (h, q, f) (release-Kept r x e h k)
  | inr h ↦ rw h k
]

wait-Kept : (r : Run) (w e : ℕ) → Kept r e → Kept (record r { now = (queue_waiter r.now w).1 }) e
unfolding queue_waiter
wait-Kept r w e k = ground arith

-- The publication with the new endpoint in it, before the waiters are woken.
abbrev inserted : Publication → ℕ → EndpointKey → PublishSettings → Publication
inserted p x key s = record p {
  max_distance_counts = add_count p.max_distance_counts s.max_distance;
  table = put p.table x (record { key = key; active = 0; settings = s; published = true });
  endpoints = p.endpoints ++ (x ∷ []);
  ready = include x p.ready;
}

inserted-Book :
    (p : Publication) (x : ℕ) (key : EndpointKey) (s : PublishSettings) (e g r : ℕ)
    → is_allowed s ≡ true
    → (e == x && ltb 0 (p.table e).settings.concurrency) ≡ false
    → Book p e g r
    → Book (inserted p x key s) e g r
inserted-Book p x key s e g r a u b =
    ground (arith, count-last e p.endpoints x, count-include e x p.ready)

admit-Kept :
    (r : Run) (settings : PublishSettings) (key : EndpointKey) (s : PublishSettings) (e : ℕ)
    → is_allowed s ≡ true
    → Kept r e
    → Kept (add_endpoint r key s (joined (record (r.now) { settings = settings }))) e
unfolding admit
admit-Kept r settings key s e a k =
    let p = record (r.now) { settings = settings } in
    let q = inserted p r.fresh key s in
    let b : Book p e (given r e) (count e r.released) = ground (arith, k.book) in
    let c =
      inserted-Book p r.fresh key s e (given r e) (count e r.released) a (ground (arith, k.unused))
        b in
    let w =
      wakeup_waiters-Book s.concurrency q.queue q e (count e r.taken) (count e r.released) c in
    ground (arith, wakeup_settings s.concurrency q.queue q e)

choice :
    (r : Run) (key : EndpointKey) (s : PublishSettings) (e : ℕ) (b : Bool) (x y : Joined)
    → Kept (add_endpoint r key s x) e
    → Kept (add_endpoint r key s y) e
    → Kept (add_endpoint r key s (if b then x else y)) e
choice r key s e true x y p q = p
choice r key s e false x y p q = q

add_endpoint-Kept :
    (r : Run) (key : EndpointKey) (s : PublishSettings) (e : ℕ)
    → is_allowed s ≡ true
    → Kept r e
    → Kept (add_endpoint r key s (join r.now key s)) e
unfolding join
add_endpoint-Kept r key s e a k =
    let p = r.now in
    let sums = record (p.settings) {
      max_distance = max p.settings.max_distance s.max_distance;
      concurrency = sum_uint32 p.settings.concurrency s.concurrency;
      queue_size = sum_uint32 p.settings.queue_size s.queue_size;
    } in
    let in_room = joined (record p { settings = sums }) in
    let queue_test = ltb sums.queue_size p.settings.queue_size in
    let capacity_test = ltb sums.concurrency p.settings.concurrency in
    let queued = if queue_test then refused queue_overflow else in_room in
    choice r key s e (has_key p.table p.endpoints key) (refused conflict)
      (if capacity_test then refused capacity_overflow else queued) k
      (choice r key s e capacity_test (refused capacity_overflow) queued k (
        choice r key s e queue_test (refused queue_overflow) in_room k
          (admit-Kept r sums key s e a k)))

served-dropped : (e : ℕ) (ws : List ℕ) → count e (served (map dropped ws)) ≡ 0
unfolding count
served-dropped e [] = refl
served-dropped e (w ∷ ws) = served-dropped e ws

handed-shrink : (e : ℕ) (p : Publication) → handed e (shrink p) ≡ handed e p
unfolding shrink
handed-shrink e p =
    let room = if length p.endpoints == 0 then 0 else p.settings.queue_size in
    ground (
      arith,
      served-append e p.sent (map dropped (drop room p.queue)),
      served-dropped e (drop room p.queue),
    )

only_if :
    (e : ℕ) (b : Bool) (r x : Run) → (b ≡ true → Kept x e) → Kept r e → Kept (if b then x else r) e
only_if e true r x p q = p refl
only_if e false r x p q = q

unpublish-Kept : (r : Run) (x e : ℕ) → Kept r e → Kept (record r { now = (unpublish r.now x).1 }) e
unfolding unpublish withdraw shrink
unpublish-Kept r x e k = ground (
  arith,
  k.book,
  count-erase e x r.now.endpoints,
  count-erase e x r.now.ready,
  handed-shrink e (withdraw r.now x),
)

step-Kept : (r : Run) (c : Event) (e : ℕ) → Kept r e → Kept (step r c) e
unfolding step cancel_waiter
step-Kept r take_call e k =
    add_taken-Kept r e (take_endpoint r.now) (take_endpoint-sent r.now) (take_settings r.now e)
      (take_endpoint-Book r.now e (given r e) (count e r.released) k.book) k
step-Kept r (release_call x) e k = only_if e (is_held r x) r _ (λ h. release-Kept r x e h k) k
step-Kept r (unpublish_call x) e k = unpublish-Kept r x e k
step-Kept r (wait_call w) e k = wait-Kept r w e k
step-Kept r (cancel_call w) e k = elim (Bool-cases (ltb 0 (count w r.now.queue))) [
  | inl h ↦ rw (h, cancel_waiter) (ground (arith, k.book))
  | inr h ↦ rw h (cancel_served-Kept r w e (received r.now.sent w) refl h k)
]
step-Kept r (publish_call key s) e k =
    only_if e (is_allowed s && ltb 0 (length r.now.endpoints)) r _
      (λ h. add_endpoint-Kept r key s e (ground (arith, h)) k) k

started-Kept :
    (name : List ℕ) (target_id : ℕ) (key : EndpointKey) (s : PublishSettings) (e : ℕ)
    → is_allowed s ≡ true
    → Kept (started name target_id key s) e
unfolding started new_publication count
started-Kept name target_id key s e a =
    let r : Run = record {
      now = new_publication name target_id s;
      taken = [];
      released = [];
      fresh = 0;
    } in
    let k : Kept r e = ground arith in ground (arith, admit-Kept r s key s e a k)

run_from-Kept : (events : List Event) (r : Run) (e : ℕ) → Kept r e → Kept (run r events) e
unfolding run
run_from-Kept [] r e k = k
run_from-Kept (c ∷ rest) r e k = run_from-Kept rest (step r c) e (step-Kept r c e k)

-- From the first endpoint of a publication on, whatever requests take, wait, cancel and release, and
-- whatever endpoints come and go, in any order: an endpoint is listed exactly while it is published,
-- counts exactly the requests that hold it, which are never more than its concurrency, and is ready
-- exactly while there is room for one more.
pub run-Kept :
    (name : List ℕ) (target_id : ℕ) (key : EndpointKey) (s : PublishSettings) (events : List Event)
    (e : ℕ)
    → is_allowed s ≡ true
    → Kept (run (started name target_id key s) events) e
run-Kept name target_id key s events e a =
    run_from-Kept events (started name target_id key s) e (started-Kept name target_id key s e a)
