-- ===== src/Search/Least.antt =====
-- The endpoint found for a name is the best that there is.
use copper.Prelude.{
  ℕ, ◌≡◌, inl, inr, refl, ap, sym, ◌∙◌, arith, List, [], ◌∷◌, ◌++◌, true, false, ◌==◌, ◌||◌, ◌&&◌,
  ltb, leb, if◌then◌else◌, Option, none, some, Bool-cases, map,
}
use copper.Publication.{PublishSettings}
use copper.Subscription.{to_publication}
use copper.Search.{
  Peer, Directory, Candidate, Pubs, returned, searched, is_better_endpoint, is_better_pub, of_pub,
  of_remote, search_pubs, consider, search_remotes, search_peers, after_pubs, find_endpoint,
}
use copper.Search.Candidates.{
  NoneBetter, Among, peer_candidates, candidates, IsLeast, consider_all, consider_all-none,
  Kept-IsLeast, consider_all-append,
}

search_remotes-eq-consider_all :
    (distance : ℕ) (found : Option Candidate) (rs : List (ℕ × PublishSettings))
    → search_remotes distance found rs ≡ consider_all found (map (of_remote distance) rs)
unfolding search_remotes consider_all
search_remotes-eq-consider_all distance found [] = refl
search_remotes-eq-consider_all distance found (r ∷ rest) =
    search_remotes-eq-consider_all distance (consider found (of_remote distance r)) rest

search_peers-eq-consider_all :
    (min_distance max_distance : ℕ) (name : List ℕ) (found : Option Candidate) (ps : List Peer)
    → search_peers min_distance max_distance name found ps
      ≡ consider_all found (peer_candidates min_distance max_distance name ps)
unfolding search_peers peer_candidates consider_all
search_peers-eq-consider_all lo hi name found [] = refl
search_peers-eq-consider_all lo hi name found (p ∷ rest) =
    let out = search_peers-eq-consider_all lo hi name found rest in
    let in_range =
      search_peers-eq-consider_all lo hi name
        (search_remotes p.distance found (p.remotes_by_name name)) rest in
    elim (Bool-cases (ltb p.distance lo || ltb hi p.distance)) [
      | inl b ↦
          (let c : (leb lo p.distance && leb p.distance hi) ≡ false = ground arith in rw (b, c) out)
      | inr b ↦
          (let c : (leb lo p.distance && leb p.distance hi) ≡ true = ground arith in
            rw (b, c)
              (in_range
                ∙ ap (λ f. consider_all f (peer_candidates lo hi name rest))
                    (search_remotes-eq-consider_all p.distance found (p.remotes_by_name name))
                ∙ sym (
                    consider_all-append found (map (of_remote p.distance) (p.remotes_by_name name))
                      (peer_candidates lo hi name rest))))
    ]

-- What the loop over the publications ends with: one of priority 0, at once, or what a loop that
-- considers each of them ends with.
PubsKept : Option Candidate → List (ℕ × PublishSettings) → Pubs → Type 0
PubsKept found ps (returned t) =
    (p : ℕ × PublishSettings) × (to_publication p.0 ≡ t)
    × (p.1.priority ≡ 0)
    × Among (of_pub p) (map of_pub ps)
PubsKept found ps (searched r) = r ≡ consider_all found (map of_pub ps)

abbrev AtHome : Option Candidate → Type 0
AtHome none = Unit
AtHome (some f) = f.distance ≡ 0

consider-of_pub :
    (found : Option Candidate) (p : ℕ × PublishSettings)
    → AtHome found
    → (if is_better_pub found p.1.priority then some (of_pub p) else found)
      ≡ consider found (of_pub p)
unfolding consider is_better_endpoint
consider-of_pub none p h = refl
consider-of_pub (some f) p h = ground (arith, h)

consider-AtHome :
    (found : Option Candidate) (p : ℕ × PublishSettings)
    → AtHome found
    → AtHome (consider found (of_pub p))
unfolding consider
consider-AtHome none p h = refl
consider-AtHome (some f) p h =
    elim (Bool-cases (is_better_endpoint p.1.priority f.priority 0 f.distance)) [
      | inl b ↦ rw b refl
      | inr b ↦ rw b h
    ]

PubsKept-later :
    (found : Option Candidate) (p : ℕ × PublishSettings) (rest : List (ℕ × PublishSettings))
    (r : Pubs)
    → PubsKept (consider found (of_pub p)) rest r
    → PubsKept found (p ∷ rest) r
unfolding PubsKept consider_all
PubsKept-later found p rest (returned t) (q, e, z, m) = (q, e, z, inr m)
PubsKept-later found p rest (searched r) e = e

search_pubs-PubsKept :
    (found : Option Candidate) (ps : List (ℕ × PublishSettings))
    → AtHome found
    → PubsKept found ps (search_pubs found ps)
unfolding search_pubs PubsKept consider_all
search_pubs-PubsKept found [] h = refl
search_pubs-PubsKept found (p ∷ rest) h =
    let later =
      PubsKept-later found p rest (search_pubs (consider found (of_pub p)) rest)
        (search_pubs-PubsKept (consider found (of_pub p)) rest (consider-AtHome found p h)) in
    rw (consider-of_pub found p h) (elim (Bool-cases (is_better_pub found p.1.priority)) [
      | inl b ↦ elim (Bool-cases (p.1.priority == 0)) [
        | inl z ↦ rw (b, z) (p, refl, ground arith, inl refl)
        | inr z ↦ rw (b, z) later
      ]
      | inr b ↦ rw b later
    ])

NoneBetter-zero :
    (a : Candidate) (cs : List Candidate) → a.priority ≡ 0 → a.distance ≡ 0 → NoneBetter a cs
NoneBetter-zero a [] p d = tt
NoneBetter-zero a (c ∷ cs) p d = (ground arith, NoneBetter-zero a cs p d)

Among-append : (a : Candidate) (cs ds : List Candidate) → Among a cs → Among a (cs ++ ds)
Among-append a [] ds m = elim m [ ]
Among-append a (c ∷ cs) ds (inl e) = inl e
Among-append a (c ∷ cs) ds (inr m) = inr (Among-append a cs ds m)

after_pubs-IsLeast :
    (d : Directory) (name : List ℕ) (lo hi : ℕ) (ps : List (ℕ × PublishSettings)) (r : Pubs)
    → PubsKept none ps r
    → IsLeast (map of_pub ps ++ peer_candidates lo hi name d.peers) (after_pubs d name lo hi r)
unfolding PubsKept
after_pubs-IsLeast d name lo hi ps (returned t) (p, e, z, m) =
    let all = map of_pub ps ++ peer_candidates lo hi name d.peers in
    (
      of_pub p,
      e,
      Among-append (of_pub p) (map of_pub ps) (peer_candidates lo hi name d.peers) m,
      NoneBetter-zero (of_pub p) all z refl,
    )
after_pubs-IsLeast d name lo hi ps (searched r) e =
    let away = peer_candidates lo hi name d.peers in
    rw (search_peers-eq-consider_all lo hi name r d.peers, e)
      (rw (sym (consider_all-append none (map of_pub ps) away)) (
        Kept-IsLeast (map of_pub ps ++ away) (consider_all none (map of_pub ps ++ away))
          (consider_all-none (map of_pub ps ++ away))))

nothing : PubsKept none [] (searched none)
unfolding PubsKept consider_all
nothing = refl

-- With no route under the name, the endpoint found is one of those that answer to the name from
-- within the distances (the server's own publications have distance 0) such that none of them has a
-- lower priority, nor the same priority and a lower distance, where 0 and 1 count as the same; and
-- none is found only if none answers.
pub find_endpoint-IsLeast :
    (d : Directory) (name : List ℕ) (min_distance max_distance : ℕ)
    → d.route_by_name name ≡ none
    → IsLeast
        (candidates d name min_distance max_distance)
        (find_endpoint d name min_distance max_distance)
unfolding find_endpoint candidates
find_endpoint-IsLeast d name lo hi e =
    let home = d.pubs_by_name name in
    elim (Bool-cases (lo == 0)) [
      | inl z ↦
          rw (e, z)
            (after_pubs-IsLeast d name lo hi home (search_pubs none home)
              (search_pubs-PubsKept none home tt))
      | inr z ↦ rw (e, z) (after_pubs-IsLeast d name lo hi [] (searched none) nothing)
    ]
