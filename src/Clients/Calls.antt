-- ===== src/Clients/Calls.antt =====
-- Runs of the calls of a client, and what the server makes for them, with the requests to its
-- endpoints that fail.
use copper.Prelude.{ℕ, List, [], ◌∷◌, Bool, true, ◌==◌, ◌&&◌, ltb, if◌then◌else◌, Option}
use copper.Prelude.Counts.{count}
use copper.Errors.{GoError}
use copper.Publication.{PublishSettings}
use copper.Subscription.{SubscribeOption}
use copper.Clients.{
  Client, Outcome, done, subscribe, unsubscribe, publish, unpublish, stream_services, stop_stream,
  fail_endpoint, close_with_error,
}

-- The calls of a client, with the target id, endpoint or stream that the server makes for it.
pub data Call : Type 0 where
  subscribe_call : List SubscribeOption → ℕ → Call
  unsubscribe_call unpublish_call watch_call stop_call : ℕ → Call
  publish_call : ℕ → PublishSettings → Option GoError → ℕ → Call
  close_call : GoError → Call
  -- a request to an endpoint of the client fails, by whichever client it was made
  request_failed : ℕ → Call

-- A client and what it was given.
pub record Run : Type 0 where
  pub client : Client
  pub subscriptions : List ℕ
  pub endpoints : List ℕ
  pub watchers : List ℕ

abbrev pub if_done : Outcome → ℕ → List ℕ → List ℕ
if_done done x xs = x ∷ xs
if_done _ x xs = xs

unfoldable pub step : Run → Call → Run
unfolding subscribe unsubscribe publish unpublish stream_services stop_stream close_with_error
    fail_endpoint count
step r (subscribe_call options s) =
    let (o, c) = subscribe r.client options s in
    record r { client = c; subscriptions = if_done o s r.subscriptions }
step r (unsubscribe_call t) = record r { client = (unsubscribe r.client t).1 }
step r (publish_call t settings error e) =
    let (o, c) = publish r.client t settings error e in
    record r { client = c; endpoints = if_done o e r.endpoints }
step r (unpublish_call t) = record r { client = (unpublish r.client t).1 }
step r (watch_call w) =
    let (o, c) = stream_services r.client w in
    record r { client = c; watchers = if_done o w r.watchers }
step r (stop_call w) = record r { client = stop_stream r.client w }
step r (request_failed e) =
    if ltb 0 (count e r.endpoints) then record r { client = fail_endpoint r.client e } else r
step r (close_call e) = record r { client = close_with_error r.client e }

unfoldable pub run : Run → List Call → Run
unfolding step
run r [] = r
run r (e ∷ rest) = run (step r e) rest

-- What is made for a call is new.
abbrev pub is_new : Run → Call → Bool
is_new r (subscribe_call options s) = count s r.subscriptions == 0
is_new r (publish_call t settings error e) = count e r.endpoints == 0
is_new r (watch_call w) = count w r.watchers == 0
is_new r _ = true

unfoldable pub all_new : Run → List Call → Bool
unfolding step count
all_new r [] = true
all_new r (e ∷ rest) = let later = all_new (step r e) rest in is_new r e && later
