-- ===== src/Clients.antt =====
-- A client of the server, on its connection (server_client.go): what it subscribed to and published.
-- A subscription is its target id; endpoints and streams of changes are the identities of pointers.
pub mod Calls
pub mod Balance
pub mod Release
use copper.Prelude.{
  ℕ, ◌+◌, List, [], ◌∷◌, ◌++◌, Bool, true, false, not, ◌==◌, ◌&&◌, ltb, if◌then◌else◌, Option, none,
  some,
}
use copper.Prelude.Assoc.{lookup, insert, delete, values}
use copper.Prelude.Counts.{count, erase, include}
use copper.Errors.{GoError}
use copper.Publication.{PublishSettings}
use copper.Subscription.{SubscribeOption, is_set}

-- `serverClient`. `unsubscribed` and `stopped` list what `unsubscribeLocked` and `stopLocked` were
-- called for, in that order; `unpublished` lists the client's endpoints whose `pub` was set to nil by
-- `unpublishLocked`, from here or from a request; `connected` says that the connection was not closed
-- from here.
pub record Client : Type 0 where
  pub failure : Option GoError
  pub allow_changes : Bool
  pub connected : Bool
  pub subscriptions : List ℕ
  pub published : List (ℕ × ℕ)
  pub watchers : List ℕ
  pub unsubscribed : List ℕ
  pub unpublished : List ℕ
  pub stopped : List ℕ

abbrev pub new_client : Bool → Client
new_client allow_changes = record {
  failure = none;
  allow_changes = allow_changes;
  connected = true;
  subscriptions = [];
  published = [];
  watchers = [];
  unsubscribed = [];
  unpublished = [];
  stopped = [];
}

-- What an operation ends with: the errors by their message.
pub data Outcome : Type 0 where
  done no_options not_subscribed not_allowed already_published no_concurrency : Outcome
  not_published cannot_unpublish : Outcome
  failed refused : GoError → Outcome

-- An operation that a client with a failure refuses.
abbrev pub unless_failed : Client → Option GoError → Outcome × Client → Outcome × Client
unless_failed c none r = r
unless_failed c (some e) r = (failed e, c)

-- `subscribe`; `s` is the target id that `subscribeLocked` allocates.
unfoldable pub subscribe : Client → List SubscribeOption → ℕ → Outcome × Client
unfolding include
subscribe c options s = unless_failed c c.failure (elim options [
  | [] ↦ (no_options, c)
  | o ∷ os ↦ (done, record c { subscriptions = include s c.subscriptions })
])

unfoldable pub unsubscribe : Client → ℕ → Outcome × Client
unfolding erase count
unsubscribe c t = unless_failed c c.failure (
    if ltb 0 (count t c.subscriptions)
    then (
      done,
      record c {
        subscriptions = erase t c.subscriptions;
        unsubscribed = c.unsubscribed ++ (t ∷ []);
      },
    )
    else (not_subscribed, c))

-- `unpublishLocked` of an endpoint, as far as the client can tell: an error, and nothing done, if its
-- `pub` is nil already; otherwise `pub` is set to nil.
unfoldable pub unpublish_endpoint : List ℕ → ℕ → List ℕ
unfolding count
unpublish_endpoint gone e = if count e gone == 0 then gone ++ (e ∷ []) else gone

-- The loop over the endpoints in `closeWithErrorLocked`.
unfoldable pub unpublish_all : List ℕ → List ℕ → List ℕ
unfolding unpublish_endpoint
unpublish_all gone [] = gone
unpublish_all gone (e ∷ rest) = unpublish_all (unpublish_endpoint gone e) rest

-- The end of `handleRequestRLocked` of a publication where `rpcNewStream` on the endpoint's
-- connection, the client's, fails.
unfoldable pub fail_endpoint : Client → ℕ → Client
unfolding unpublish_endpoint
fail_endpoint c e = record c { unpublished = unpublish_endpoint c.unpublished e }

-- `old != nil && old.pub != nil`
abbrev pub is_published : Client → Option ℕ → Bool
is_published c none = false
is_published c (some e) = count e c.unpublished == 0

-- What `publishLocked` returned: an error or an endpoint.
abbrev pub keep_endpoint : Client → ℕ → Option GoError → ℕ → Outcome × Client
keep_endpoint c t (some e) endpoint = (refused e, c)
keep_endpoint c t none endpoint = (done, record c { published = insert c.published t endpoint })

unfoldable pub publish : Client → ℕ → PublishSettings → Option GoError → ℕ → Outcome × Client
unfolding insert lookup count
publish c t settings error endpoint = unless_failed c c.failure (
    if not c.allow_changes
    then (not_allowed, c)
    else if is_published c (lookup c.published t)
    then (already_published, c)
    else if settings.concurrency == 0
    then (no_concurrency, c)
    else keep_endpoint c t error endpoint)

-- The entry is deleted also where `unpublishLocked` is an error.
abbrev pub drop_endpoint : Client → ℕ → Option ℕ → Outcome × Client
drop_endpoint c t none = (not_published, c)
drop_endpoint c t (some e) =
    let gone = delete c.published t in
    let left = record c { published = gone; unpublished = unpublish_endpoint c.unpublished e } in
    (if count e c.unpublished == 0 then done else cannot_unpublish, left)

unfoldable pub unpublish : Client → ℕ → Outcome × Client
unfolding delete lookup count unpublish_endpoint
unpublish c t = unless_failed c c.failure (drop_endpoint c t (lookup c.published t))

-- `streamServices`, and `Stop` of the stream that it returned.
unfoldable pub stream_services : Client → ℕ → Outcome × Client
unfolding include
stream_services c w = unless_failed c c.failure (done, record c { watchers = include w c.watchers })

unfoldable pub stop_stream : Client → ℕ → Client
unfolding erase count
stop_stream c w =
    if ltb 0 (count w c.watchers)
    then record c { watchers = erase w c.watchers; stopped = c.stopped ++ (w ∷ []) }
    else c

-- `closeWithErrorLocked`
abbrev pub close_unless : Client → GoError → Option GoError → Client
close_unless c e (some f) = c
close_unless c e none = record c {
  failure = some e;
  connected = false;
  subscriptions = [];
  published = [];
  watchers = [];
  unsubscribed = c.unsubscribed ++ c.subscriptions;
  unpublished = unpublish_all c.unpublished (values c.published);
  stopped = c.stopped ++ c.watchers;
}

unfoldable pub close_with_error : Client → GoError → Client
unfolding unpublish_all
close_with_error c e = close_unless c e c.failure

-- Where `handleNewStream` sends a stream: `is_pub` says that the server has a publication with that
-- target id.
pub data Destination : Type 0 where
  refuses : GoError → Destination
  subscription publication : ℕ → Destination
  no_target : Destination

abbrev pub destination : Client → (ℕ → Bool) → ℕ → Option GoError → Destination
destination c is_pub t (some e) = refuses e
destination c is_pub t none =
    if ltb 0 (count t c.subscriptions)
    then subscription t
    else if is_pub t
    then publication t
    else no_target

unfoldable pub handle_new_stream : Client → (ℕ → Bool) → ℕ → Destination
unfolding count
handle_new_stream c is_pub t = destination c is_pub t c.failure
