-- ===== src/Peers.antt =====
-- A peer: another server, whose services are followed and offered to the subscriptions
-- (server_peers.go). Clients and remotes are numbers, the identities of their pointers.
pub mod Reader
pub mod Index
pub mod Knowledge
pub mod Mirror
pub mod Pair
pub mod Across
use copper.Prelude.{
  ℕ, suc, ◌+◌, ◌<◌, List, [], ◌∷◌, ◌++◌, Bool, true, false, not, ◌==◌, ◌&&◌, ◌||◌, ltb,
  if◌then◌else◌, Option, none, some,
}
use copper.Prelude.Assoc.{lookup, insert, delete, keys}
use copper.Pings.{same}
use copper.Publication.{PublishSettings}
use copper.Watch.{Service}

-- `serverPeerRemote`; `attached` says that its field `peer` is not nil.
pub record Remote : Type 0 where
  pub attached : Bool
  pub client : Option ℕ
  pub target_id : ℕ
  pub name : List ℕ
  pub distance : ℕ
  pub settings : PublishSettings

-- What the subscriptions are told: those of its name of a remote that appeared, and those that have
-- it of one that vanished.
pub data Notice : Type 0 where
  appeared vanished : ℕ → Notice

-- `serverPeer`. `table` holds the remotes; `by_name` gives no entries where the source's map has none.
pub record Peer : Type 0 where
  pub distance : ℕ
  pub failed : Bool
  pub client : Option ℕ
  pub by_target : List (ℕ × ℕ)
  pub by_name : List ℕ → List (ℕ × ℕ)
  pub table : ℕ → Remote
  pub fresh : ℕ
  pub notices : List Notice

abbrev pub same_client : Option ℕ → Option ℕ → Bool
same_client none none = true
same_client none (some d) = false
same_client (some c) none = false
same_client (some c) (some d) = c == d

abbrev pub put_remote : (ℕ → Remote) → ℕ → Remote → ℕ → Remote
put_remote table r x s = if s == r then x else table s

abbrev pub put_name : (List ℕ → List (ℕ × ℕ)) → List ℕ → List (ℕ × ℕ) → List ℕ → List (ℕ × ℕ)
put_name by_name name m n = if same name n then m else by_name n

-- `removeLocked` of a remote
unfoldable pub remove : Peer → ℕ → Peer
unfolding delete same
remove p r =
    let x = p.table r in
    if not x.attached || not (same_client p.client x.client) then p else record p {
      table = put_remote p.table r (record x { attached = false });
      notices = p.notices ++ (vanished r ∷ []);
      by_name = put_name p.by_name x.name (delete (p.by_name x.name) x.target_id);
      by_target = delete p.by_target x.target_id;
    }

-- The end of `handleRequestRLocked` where `rpcNewStream` fails: the remote is removed, whichever
-- client the peer has by then.
unfoldable pub fail_request : Peer → ℕ → Peer
unfolding remove
fail_request p r = remove p r

-- `if remote := peer.remotesByTarget[targetID]; remote != nil`
abbrev pub remove_found : Peer → Option ℕ → Peer
remove_found p none = p
remove_found p (some r) = remove p r

-- Loops over target ids, which also serve for a loop over the map itself: Go gives each key that is
-- still there when its turn comes.
unfoldable pub remove_targets : Peer → List ℕ → Peer
unfolding remove lookup
remove_targets p [] = p
remove_targets p (t ∷ ts) = remove_targets (remove_found p (lookup p.by_target t)) ts

-- `addRemoteLocked`, from the end: the new remote; then what was there; then the distance.
unfoldable pub register : Peer → ℕ → Service → Peer
unfolding insert same
register p t v = record p {
  table = put_remote p.table p.fresh (record {
    attached = true;
    client = p.client;
    target_id = t;
    name = v.name;
    distance = p.distance;
    settings = v.settings;
  });
  fresh = suc p.fresh;
  by_name = put_name p.by_name v.name (insert (p.by_name v.name) t p.fresh);
  by_target = insert p.by_target t p.fresh;
  notices = p.notices ++ (appeared p.fresh ∷ []);
}

unfoldable pub add_allowed : Peer → ℕ → Service → Option ℕ → Peer
unfolding register remove same
add_allowed p t v none = register p t v
add_allowed p t v (some r) =
    if same (p.table r).name v.name && v.settings.priority == (p.table r).settings.priority
    then record p { table = put_remote p.table r (record (p.table r) { settings = v.settings }) }
    else register (remove p r) t v

unfoldable pub add_remote : Peer → ℕ → Service → Peer
unfolding add_allowed lookup remove
add_remote p t v =
    if ltb v.settings.max_distance p.distance
    then remove_found p (lookup p.by_target t)
    else add_allowed p t v (lookup p.by_target t)

unfoldable pub add_remotes : Peer → List (ℕ × Service) → Peer
unfolding add_remote
add_remotes p [] = p
add_remotes p (c ∷ rest) = add_remotes (add_remote p c.0 c.1) rest

-- `processChanges`
unfoldable pub process_changes : Peer → ℕ → List ℕ → List (ℕ × Service) → Bool × Peer
unfolding add_remotes remove_targets
process_changes p c removed changed =
    if not (same_client p.client (some c)) || p.failed
    then (false, p)
    else (true, add_remotes (remove_targets p removed) changed)

-- `attachClient`, `detachClient` and `closeWithErrorLocked`
unfoldable pub attach_client : Peer → ℕ → Peer
attach_client p c = record p { client = some c }

unfoldable pub detach_client : Peer → ℕ → Peer
unfolding remove_targets
detach_client p c =
    if same_client p.client (some c)
    then record (remove_targets p (keys p.by_target)) { client = none }
    else p

unfoldable pub close_with_error : Peer → Peer
close_with_error p = record p { failed = true }
