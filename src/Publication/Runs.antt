-- ===== src/Publication/Runs.antt =====
-- What happens to a publication: requests take, wait for and release endpoints, and endpoints come
-- and go, in any order.
use copper.Prelude.{
  ℕ, ◌+◌, ◌^◌, List, [], ◌∷◌, Bool, ltb, ◌&&◌, if◌then◌else◌, Option, none, some, length,
}
use copper.Prelude.Counts.{count}
use copper.Publication.{
  PublishSettings, EndpointKey, Publication, take_endpoint, release_endpoint, queue_waiter,
  cancel_waiter, received,
}
use copper.Publication.Endpoints.{new_publication, Joined, joined, refused, join, admit, unpublish}

pub data Event : Type 0 where
  take_call : Event
  -- an endpoint
  release_call unpublish_call : ℕ → Event
  -- a waiter
  wait_call cancel_call : ℕ → Event
  publish_call : EndpointKey → PublishSettings → Event

-- `taken` lists the endpoints that requests took, `released` those that requests gave back; `fresh`
-- is the number of the next endpoint.
pub record Run : Type 0 where
  pub now : Publication
  pub taken : List ℕ
  pub released : List ℕ
  pub fresh : ℕ

-- The endpoints that waiters were handed.
abbrev pub served : List (ℕ × Option ℕ) → List ℕ
served [] = []
served ((w, none) ∷ rest) = served rest
served ((w, some e) ∷ rest) = e ∷ served rest

-- How often an endpoint was taken or handed out.
abbrev pub given : Run → ℕ → ℕ
given r e = count e r.taken + count e (served r.now.sent)

-- A request holds the endpoint.
abbrev pub is_held : Run → ℕ → Bool
is_held r e = ltb (count e r.released) (given r e)

-- `publish` of server_client.go lets no endpoint with concurrency 0 through; the numbers are uint32.
abbrev pub is_allowed : PublishSettings → Bool
is_allowed s = ltb 0 s.concurrency && (ltb s.concurrency (2 ^ 32) && ltb s.queue_size (2 ^ 32))

abbrev pub add_taken : Run → Option ℕ × Publication → Run
add_taken r (none, p) = record r { now = p }
add_taken r (some e, p) = record r { now = p; taken = e ∷ r.taken }

-- An endpoint joins a publication that has one already. One without is no longer in the server's maps.
abbrev pub add_endpoint : Run → EndpointKey → PublishSettings → Joined → Run
add_endpoint r key s (refused x) = r
add_endpoint r key s (joined p) = record r { now = admit p r.fresh key s; fresh = r.fresh + 1 }

-- A request gives back only an endpoint that one holds.
abbrev pub cancel_served : Run → ℕ → Option ℕ → Run
cancel_served r w none = record r { now = cancel_waiter r.now w }
cancel_served r w (some e) =
    if is_held r e then record r { now = cancel_waiter r.now w; released = e ∷ r.released } else r

unfoldable pub step : Run → Event → Run
step r take_call = add_taken r (take_endpoint r.now)
step r (release_call e) =
    if is_held r e
    then record r { now = release_endpoint r.now e; released = e ∷ r.released }
    else r
step r (wait_call w) = record r { now = (queue_waiter r.now w).1 }
step r (cancel_call w) =
    if ltb 0 (count w r.now.queue)
    then record r { now = cancel_waiter r.now w }
    else cancel_served r w (received r.now.sent w)
step r (publish_call key s) =
    if is_allowed s && ltb 0 (length r.now.endpoints)
    then add_endpoint r key s (join r.now key s)
    else r
step r (unpublish_call e) = record r { now = (unpublish r.now e).1 }

unfoldable pub run : Run → List Event → Run
unfolding step
run r [] = r
run r (e ∷ rest) = run (step r e) rest

-- The publication that a first endpoint makes.
unfoldable pub started : List ℕ → ℕ → EndpointKey → PublishSettings → Run
started name target_id key s = record {
  now = admit (new_publication name target_id s) 0 key s;
  taken = [];
  released = [];
  fresh = 1;
}
