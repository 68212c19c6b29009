-- ===== src/Search.antt =====
-- How the server chooses who answers to a name (server.go: `findEndpointRLocked`).
pub mod Candidates
pub mod Least
use copper.Prelude.{
  ℕ, ◌<◌, List, [], ◌∷◌, Bool, true, false, ◌==◌, ◌||◌, not, ltb, if◌then◌else◌, Option, none, some,
}
use copper.Publication.{PublishSettings}
use copper.Subscription.{Target, to_route, to_publication, to_remote}

-- A peer: its distance, and its remotes of a name with their settings.
pub record Peer : Type 0 where
  pub distance : ℕ
  pub remotes_by_name : List ℕ → List (ℕ × PublishSettings)

-- The maps of the server that are looked at. A map's list is in the order that Go's iteration takes.
pub record Directory : Type 0 where
  pub route_by_name : List ℕ → Option ℕ
  pub pubs_by_name : List ℕ → List (ℕ × PublishSettings)
  pub peers : List Peer

-- What is found so far: `endpoint`, `minFoundPriority` and `minFoundDistance`.
pub record Candidate : Type 0 where
  pub endpoint : Target
  pub priority : ℕ
  pub distance : ℕ

unfoldable pub is_better_endpoint : ℕ → ℕ → ℕ → ℕ → Bool
is_better_endpoint priority min_found_priority distance min_found_distance =
    if ltb priority min_found_priority
    then true
    else if not (priority == min_found_priority)
    then false
    else if ltb min_found_distance 2
    then false
    else ltb distance min_found_distance

-- The loop over the publications, which may return at once.
pub data Pubs : Type 0 where
  returned : Target → Pubs
  searched : Option Candidate → Pubs

abbrev pub is_better_pub : Option Candidate → ℕ → Bool
is_better_pub none priority = true
is_better_pub (some f) priority = ltb priority f.priority

abbrev pub of_pub : ℕ × PublishSettings → Candidate
of_pub p = record { endpoint = to_publication p.0; priority = p.1.priority; distance = 0 }

unfoldable pub search_pubs : Option Candidate → List (ℕ × PublishSettings) → Pubs
search_pubs found [] = searched found
search_pubs found (p ∷ rest) =
    let later =
      search_pubs (if is_better_pub found p.1.priority then some (of_pub p) else found) rest in
    if is_better_pub found p.1.priority
    then (if p.1.priority == 0 then returned (to_publication p.0) else later)
    else later

-- The loops over the peers and their remotes.
unfoldable pub consider : Option Candidate → Candidate → Option Candidate
unfolding is_better_endpoint
consider none c = some c
consider (some f) c =
    if is_better_endpoint c.priority f.priority c.distance f.distance then some c else some f

abbrev pub of_remote : ℕ → ℕ × PublishSettings → Candidate
of_remote distance r = record {
  endpoint = to_remote r.0;
  priority = r.1.priority;
  distance = distance;
}

unfoldable pub search_remotes : ℕ → Option Candidate → List (ℕ × PublishSettings) → Option Candidate
unfolding consider
search_remotes distance found [] = found
search_remotes distance found (r ∷ rest) =
    search_remotes distance (consider found (of_remote distance r)) rest

unfoldable pub search_peers : ℕ → ℕ → List ℕ → Option Candidate → List Peer → Option Candidate
unfolding search_remotes
search_peers min_distance max_distance name found [] = found
search_peers min_distance max_distance name found (p ∷ rest) =
    search_peers min_distance max_distance name
      (if ltb p.distance min_distance || ltb max_distance p.distance
        then found
        else search_remotes p.distance found (p.remotes_by_name name))
      rest

abbrev pub endpoint_of : Option Candidate → Option Target
endpoint_of none = none
endpoint_of (some c) = some c.endpoint

abbrev pub after_pubs : Directory → List ℕ → ℕ → ℕ → Pubs → Option Target
after_pubs d name min_distance max_distance (returned t) = some t
after_pubs d name min_distance max_distance (searched found) =
    endpoint_of (search_peers min_distance max_distance name found d.peers)

abbrev pub search_published : Directory → List ℕ → ℕ → ℕ → Option ℕ → Option Target
search_published d name min_distance max_distance (some r) = some (to_route r)
search_published d name min_distance max_distance none =
    after_pubs d name min_distance max_distance
      (if min_distance == 0 then search_pubs none (d.pubs_by_name name) else searched none)

-- `findEndpointRLocked`
unfoldable pub find_endpoint : Directory → List ℕ → ℕ → ℕ → Option Target
unfolding search_peers search_pubs
find_endpoint d name min_distance max_distance =
    search_published d name min_distance max_distance (d.route_by_name name)
