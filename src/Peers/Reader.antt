-- ===== src/Peers/Reader.antt =====
-- What happens to a peer, and a plain reader of the same changes.
use copper.Prelude.{
  ℕ, List, [], ◌∷◌, map, Bool, true, false, not, ◌&&◌, ◌==◌, ◌||◌, ltb, if◌then◌else◌, Option, none,
  some,
}
use copper.Watch.{Service}
use copper.Watch.Batch.{forget_all, learn_all}
use copper.Peers.{
  Remote, Peer, fail_request, same_client, process_changes, attach_client, detach_client,
  close_with_error,
}

-- The target id that a failed request takes from the peer: that of a remote that the peer still has.
abbrev pub lost_target : Peer → ℕ → Option ℕ
lost_target p r = if ltb r p.fresh && (p.table r).attached then some (p.table r).target_id else none

abbrev pub forget : (ℕ → Option Service) → Option ℕ → ℕ → Option Service
forget view none s = view s
forget view (some t) s = if s == t then none else view s

-- A request that fails for a remote that was made.
abbrev pub fail_made : Peer → ℕ → Peer
fail_made p r = if ltb r p.fresh then fail_request p r else p

-- What happens to a peer: a client connects or goes, a batch of changes comes from a client, a request
-- to a remote fails, or the server closes.
pub data Event : Type 0 where
  attached detached : ℕ → Event
  changes : ℕ → List ℕ → List (ℕ × Service) → Event
  request_failed : ℕ → Event
  closed : Event

unfoldable pub step : Peer → Event → Peer
unfolding detach_client process_changes attach_client close_with_error fail_request
step p (attached c) = attach_client p c
step p (detached c) = detach_client p c
step p (changes c removed changed) = (process_changes p c removed changed).1
step p (request_failed q) = fail_made p q
step p closed = close_with_error p

unfoldable pub run : Peer → List Event → Peer
unfolding step
run p [] = p
run p (e ∷ rest) = run (step p e) rest

-- A plain reader: who is read from, whether it was closed, and the services, by target id.
pub record Reader : Type 0 where
  pub client : Option ℕ
  pub failed : Bool
  pub view : ℕ → Option Service

abbrev pub offered : ℕ × Service → ℕ × Option Service
offered c = (c.0, some c.1)

-- After a failed request the reader no longer counts on the service that the remote was for, if the
-- peer still has that remote then.
unfoldable pub follow : Peer → Reader → Event → Reader
follow p r (attached c) = record r { client = some c }
follow p r (detached c) =
    if same_client r.client (some c) then record r { client = none; view = λ t. none } else r
follow p r (changes c removed changed) =
    if not (same_client r.client (some c)) || r.failed
    then r
    else record r { view = learn_all (forget_all r.view removed) (map offered changed) }
follow p r (request_failed q) = record r { view = forget r.view (lost_target p q) }
follow p r closed = record r { failed = true }

-- The reader beside the peer.
unfoldable pub follow_all : Peer → Reader → List Event → Reader
unfolding follow step
follow_all p r [] = r
follow_all p r (e ∷ rest) = follow_all (step p e) (follow p r e) rest

-- A service that may be reached from this distance.
abbrev pub reachable : ℕ → Option Service → Option Service
reachable d none = none
reachable d (some v) = if ltb v.settings.max_distance d then none else some v

-- A new client is attached only when the one before it was detached.
unfoldable pub is_allowed : Peer → List Event → Bool
unfolding step
is_allowed p [] = true
is_allowed p (attached c ∷ rest) =
    let later = is_allowed (step p (attached c)) rest in
    if same_client p.client none then later else false
is_allowed p (detached c ∷ rest) = is_allowed (step p (detached c)) rest
is_allowed p (changes c removed changed ∷ rest) =
    is_allowed (step p (changes c removed changed)) rest
is_allowed p (request_failed q ∷ rest) = is_allowed (step p (request_failed q)) rest
is_allowed p (closed ∷ rest) = is_allowed (step p closed) rest

-- A peer as `addPeerLocked` makes it, and a reader that has read nothing.
abbrev pub new_peer : ℕ → (ℕ → Remote) → Peer
new_peer d table = record {
  distance = d;
  failed = false;
  client = none;
  by_target = [];
  by_name = λ n. [];
  table = table;
  fresh = 0;
  notices = [];
}

abbrev pub new_reader : Reader
new_reader = record { client = none; failed = false; view = λ t. none }
