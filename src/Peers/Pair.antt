-- ===== src/Peers/Pair.antt =====
-- Two servers: one publishes and keeps a stream of changes for a connection, and a peer of the other
-- server reads the stream (server_peers.go, server_changes.go), while requests to its remotes may fail.
use copper.Prelude.{ℕ, List, [], ◌∷◌, Bool, true, false, ◌==◌, if◌then◌else◌, Option, none, some}
use copper.Watch.{Service, Services, Reading, finished, batch, waiting, read}
use copper.Watch.View
use copper.Watch.View.{
  Link, Event, published, unpublished, reads, after_read, Knows, step-Knows, opened, opened-Knows,
  Lists,
}
use copper.Peers.{Remote, Peer, process_changes, attach_client, fail_request}
use copper.Peers.Reader.{new_peer, lost_target, fail_made}

-- The server that publishes, with the stream that it keeps for a connection and what a plain reader
-- of it knows; the peer of the other server that reads the stream; and `lost`, the target ids of
-- services for which a request to the peer's remote has failed since the last change that told of them.
pub record Pair : Type 0 where
  pub link : Link
  pub peer : Peer
  pub lost : ℕ → Bool

-- What the publishing server and the reading of its stream do, and the failures of requests to the
-- peer's remotes.
pub data Happening : Type 0 where
  served : Event → Happening
  request_failed : ℕ → Happening

-- A batch as it arrives: each change has a service.
abbrev pub told : List (ℕ × Option Service) → List (ℕ × Service)
told [] = []
told ((t, none) ∷ rest) = told rest
told ((t, some v) ∷ rest) = (t, v) ∷ told rest

-- A round of `listenChanges` with the client `c`.
abbrev pub peer_reads : Peer → ℕ → Reading → Peer
peer_reads p c finished = p
peer_reads p c waiting = p
peer_reads p c (batch ch w) = (process_changes p c ch.removed (told ch.changed)).1

abbrev pub peer_after : ℕ → Pair → Event → Peer
peer_after c r (published t v) = r.peer
peer_after c r (unpublished t) = r.peer
peer_after c r reads = peer_reads r.peer c (read r.link.services r.link.watch)

abbrev pub told_again : (ℕ → Bool) → List (ℕ × Service) → ℕ → Bool
told_again lost [] t = lost t
told_again lost (v ∷ rest) t = told_again (λ s. if s == v.0 then false else lost s) rest t

abbrev pub lost_after_batch : (ℕ → Bool) → Reading → ℕ → Bool
lost_after_batch lost finished t = lost t
lost_after_batch lost waiting t = lost t
lost_after_batch lost (batch ch w) t = told_again lost (told ch.changed) t

abbrev pub lost_after : Pair → Event → ℕ → Bool
lost_after r (published s v) t = r.lost t
lost_after r (unpublished s) t = r.lost t
lost_after r reads t = lost_after_batch r.lost (read r.link.services r.link.watch) t

abbrev pub lose : (ℕ → Bool) → Option ℕ → ℕ → Bool
lose lost none t = lost t
lose lost (some s) t = if t == s then true else lost t

unfoldable pub step : ℕ → Pair → Happening → Pair
unfolding View.step process_changes read fail_request
step c r (served e) = record {
  link = View.step r.link e;
  peer = peer_after c r e;
  lost = lost_after r e;
}
step c r (request_failed q) = record r {
  peer = fail_made r.peer q;
  lost = lose r.lost (lost_target r.peer q);
}

unfoldable pub run : ℕ → Pair → List Happening → Pair
unfolding step
run c r [] = r
run c r (e ∷ rest) = run c (step c r e) rest

-- What the peer may know of a view.
abbrev pub hide : (ℕ → Bool) → Services → Services
hide lost view t = if lost t then none else view t

-- A peer whose client `c` has just connected, and has opened a stream of changes.
abbrev pub connected : ℕ → (ℕ → Remote) → ℕ → Services → List ℕ → Pair
connected d table c services targets = record {
  link = opened services targets;
  peer = attach_client (new_peer d table) c;
  lost = λ t. false;
}
