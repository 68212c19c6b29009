-- ===== src/Publication.antt =====
-- A local publication: endpoints of one name and priority, and the requests that wait for one of
-- them (server_pubs.go). An endpoint and a waiter are numbers, the identities of their pointers.
-- The mutexes make each method one step.
pub mod Endpoints
pub mod Runs
pub mod Books
pub mod Capacity
pub mod Waiting
use copper.Prelude.{
  ℕ, zero, suc, ◌+◌, ◌-◌, ◌%◌, ◌^◌, List, [], ◌∷◌, ◌++◌, length, take, drop, map, min, max, Bool,
  true, false, ◌==◌, ltb, leb, if◌then◌else◌, Option, none, some,
}
use copper.Prelude.Counts.{count, erase, include, remove}

-- `PublishSettings` of interface.go. The numbers are uint32.
pub record PublishSettings : Type 0 where
  pub priority : ℕ
  pub max_distance : ℕ
  pub concurrency : ℕ
  pub queue_size : ℕ

-- `localEndpointKey`
pub record EndpointKey : Type 0 where
  pub client : ℕ
  pub target_id : ℕ

-- `localEndpoint`; `published` says that its field `pub` is not nil.
pub record Endpoint : Type 0 where
  pub key : EndpointKey
  pub active : ℕ
  pub settings : PublishSettings
  pub published : Bool

-- `serverPublication`. The maps with endpoints for keys or values are lists, whose order is the one
-- that Go's iteration takes. `sent` lists what was sent to the waiters' channels, `none` for a
-- channel that was closed with nothing sent.
pub record Publication : Type 0 where
  pub name : List ℕ
  pub target_id : ℕ
  pub endpoints : List ℕ
  pub settings : PublishSettings
  pub max_distance_counts : List (ℕ × ℕ)
  pub ready : List ℕ
  pub queue : List ℕ
  pub sent : List (ℕ × Option ℕ)
  pub table : ℕ → Endpoint

-- `endpoint.field = …`
abbrev pub put : (ℕ → Endpoint) → ℕ → Endpoint → ℕ → Endpoint
put t e v x = if x == e then v else t x

-- The loop of `takeEndpointLocked`, which stops at an endpoint with no request.
unfoldable pub best_ready : (ℕ → Endpoint) → Option ℕ → List ℕ → Option ℕ
best_ready t best [] = best
best_ready t none (e ∷ rest) = elim ((t e).active == 0) [
  | true ↦ some e
  | false ↦ best_ready t (some e) rest
]
best_ready t (some b) (e ∷ rest) = elim (ltb (t e).active (t b).active) [
  | true ↦ elim ((t e).active == 0) [ true ↦ some e | false ↦ best_ready t (some e) rest ]
  | false ↦ best_ready t (some b) rest
]

-- `active++` and `active--` on a uint32.
abbrev pub more_active : Endpoint → Endpoint
more_active v = record v { active = (v.active + 1) % 2 ^ 32 }

abbrev pub less_active : Endpoint → Endpoint
less_active v = record v { active = (v.active + (2 ^ 32 - 1)) % 2 ^ 32 }

-- `takeEndpointLocked`, by the endpoint that the loop found.
unfoldable pub take_found : Publication → Option ℕ → Option ℕ × Publication
take_found p none = (none, p)
take_found p (some e) =
    let v = more_active (p.table e) in
    (
      some e,
      record p {
        table = put p.table e v;
        ready = if v.active == v.settings.concurrency then erase e p.ready else p.ready;
      },
    )

unfoldable pub take_endpoint : Publication → Option ℕ × Publication
unfolding take_found
take_endpoint p = take_found p (best_ready p.table none p.ready)

-- `releaseEndpointRLocked`, by the queue of an endpoint that is still published.
unfoldable pub release_to : Publication → ℕ → List ℕ → Publication
release_to p e [] = record p {
  table = put p.table e (less_active (p.table e));
  ready = include e p.ready;
}
release_to p e (w ∷ rest) = record p { queue = rest; sent = p.sent ++ ((w, some e) ∷ []) }

unfoldable pub release_endpoint : Publication → ℕ → Publication
unfolding release_to
release_endpoint p e = if (p.table e).published then release_to p e p.queue else p

-- `queueWaiterRLocked`, with the channel that it makes.
unfoldable pub queue_waiter : Publication → ℕ → Bool × Publication
queue_waiter p w =
    if leb p.settings.queue_size (length p.queue)
    then (false, p)
    else (true, record p { queue = p.queue ++ (w ∷ []) })

-- What a waiter receives: the endpoint sent to it, or nil from a closed channel.
unfoldable pub received : List (ℕ × Option ℕ) → ℕ → Option ℕ
received [] w = none
received ((v, e) ∷ rest) w = if v == w then e else received rest w

-- `cancelWaiterRLocked`
unfoldable pub give_back : Publication → Option ℕ → Publication
unfolding release_endpoint
give_back p none = p
give_back p (some e) = release_endpoint p e

unfoldable pub cancel_waiter : Publication → ℕ → Publication
unfolding give_back
cancel_waiter p w =
    if ltb 0 (count w p.queue)
    then record p { queue = remove w p.queue }
    else give_back p (received p.sent w)

-- The loop of `wakeupWaitersLocked` over the first `n` waiters, and how many it served. The source
-- takes those out of the queue when the loop is done.
unfoldable pub wakeup_waiters : ℕ → List ℕ → Publication → ℕ × Publication
unfolding take_endpoint
wakeup_waiters zero queue p = (0, record p { queue = queue })
wakeup_waiters (suc n) [] p = (0, record p { queue = [] })
wakeup_waiters (suc n) (w ∷ rest) p = elim (take_endpoint p).0 [
  | none ↦ (0, record p { queue = w ∷ rest })
  | some e ↦
      let q = (take_endpoint p).1 in
      let r = wakeup_waiters n rest (record q { sent = q.sent ++ ((w, some e) ∷ []) }) in
      (suc r.0, r.1)
]

-- The map `maxDistanceCounts`, and `counts[d]++`.
unfoldable pub count_of : List (ℕ × ℕ) → ℕ → ℕ
count_of [] d = 0
count_of ((k, n) ∷ rest) d = if k == d then n else count_of rest d

unfoldable pub add_count : List (ℕ × ℕ) → ℕ → List (ℕ × ℕ)
add_count [] d = (d, 1) ∷ []
add_count ((k, n) ∷ rest) d =
    let later = add_count rest d in if k == d then (k, n + 1) ∷ rest else (k, n) ∷ later

-- `decrementCounterUint32` (util.go), which says whether the key is gone. A missing key, for which the
-- source stores -1, is left out.
unfoldable pub sub_count : List (ℕ × ℕ) → ℕ → Bool × List (ℕ × ℕ)
sub_count [] d = (false, [])
sub_count ((k, n) ∷ rest) d =
    let later = sub_count rest d in
    if k == d
    then (if n == 1 then (true, rest) else (false, (k, n - 1) ∷ rest))
    else (later.0, (k, n) ∷ later.1)

-- The largest key.
unfoldable pub max_key : List (ℕ × ℕ) → ℕ
max_key [] = 0
max_key ((k, n) ∷ rest) = max k (max_key rest)
