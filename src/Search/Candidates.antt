-- ===== src/Search/Candidates.antt =====
-- The candidates for a name, and a loop that considers one after the other.
use copper.Prelude.{
  ℕ, max, ◌≡◌, ◌⊎◌, inl, inr, refl, ◌∙◌, arith, List, [], ◌∷◌, ◌++◌, Bool, true, ◌==◌, ◌||◌, ◌&&◌,
  ltb, leb, if◌then◌else◌, Option, none, some, Bool-cases, map,
}
use copper.Subscription.{Target}
use copper.Search.{
  Peer, Directory, Candidate, is_better_endpoint, of_pub, of_remote, consider, endpoint_of,
}

-- Lower priorities come first; among equals distances 0 and 1, and then the lowest distance.
abbrev pub not_worse : Candidate → Candidate → Bool
not_worse a b =
    ltb a.priority b.priority
    || (a.priority == b.priority && leb (max 1 a.distance) (max 1 b.distance))

abbrev pub NoneBetter : Candidate → List Candidate → Type 0
NoneBetter a [] = Unit
NoneBetter a (b ∷ bs) = (not_worse a b ≡ true) × NoneBetter a bs

abbrev pub Among : Candidate → List Candidate → Type 0
Among a [] = ⊥
Among a (b ∷ bs) = (a ≡ b) ⊎ Among a bs

-- All that answer to the name from within the distances.
unfoldable pub peer_candidates : ℕ → ℕ → List ℕ → List Peer → List Candidate
peer_candidates min_distance max_distance name [] = []
peer_candidates min_distance max_distance name (p ∷ rest) =
    let later = peer_candidates min_distance max_distance name rest in
    if leb min_distance p.distance && leb p.distance max_distance
    then map (of_remote p.distance) (p.remotes_by_name name) ++ later
    else later

unfoldable pub candidates : Directory → List ℕ → ℕ → ℕ → List Candidate
unfolding peer_candidates
candidates d name min_distance max_distance =
    (if min_distance == 0 then map of_pub (d.pubs_by_name name) else [])
    ++ peer_candidates min_distance max_distance name d.peers

-- Nothing for no candidates, and else one of them that no other is better than.
abbrev pub IsLeast : List Candidate → Option Target → Type 0
IsLeast cs none = cs ≡ []
IsLeast cs (some t) = (a : Candidate) × (a.endpoint ≡ t) × Among a cs × NoneBetter a cs

-- A loop that considers one candidate after the other.
unfoldable pub consider_all : Option Candidate → List Candidate → Option Candidate
consider_all found [] = found
consider_all found (c ∷ rest) = consider_all (consider found c) rest

abbrev pub Kept : Option Candidate → List Candidate → Option Candidate → Type 0
Kept none cs none = cs ≡ []
Kept none cs (some a) = Among a cs × NoneBetter a cs
Kept (some f) cs none = ⊥
Kept (some f) cs (some a) = ((a ≡ f) ⊎ Among a cs) × (not_worse a f ≡ true) × NoneBetter a cs

NoneBetter-trans :
    (a b : Candidate) (cs : List Candidate)
    → not_worse a b ≡ true
    → NoneBetter b cs
    → NoneBetter a cs
NoneBetter-trans a b [] h n = tt
NoneBetter-trans a b (c ∷ cs) h n = (ground arith, NoneBetter-trans a b cs h n.1)

-- What a step leaves is one of the two, and neither is better.
Kept-step :
    (f g c : Candidate) (cs : List Candidate) (r : Option Candidate)
    → (g ≡ f) ⊎ (g ≡ c)
    → not_worse g f ≡ true
    → not_worse g c ≡ true
    → Kept (some g) cs r
    → Kept (some f) (c ∷ cs) r
Kept-step f g c cs none which hf hc k = elim k [ ]
Kept-step f g c cs (some a) which hf hc (m, w, n) = (from which m, ground arith, (ground arith, n))
  where
    from : (g ≡ f) ⊎ (g ≡ c) → (a ≡ g) ⊎ Among a cs → (a ≡ f) ⊎ Among a (c ∷ cs)
    from which (inr x) = inr (inr x)
    from (inl p) (inl q) = inl (q ∙ p)
    from (inr p) (inl q) = inr (inl (q ∙ p))

consider_all-some :
    (f : Candidate) (cs : List Candidate) → Kept (some f) cs (consider_all (some f) cs)
unfolding consider_all consider is_better_endpoint
consider_all-some f [] = (inl refl, ground arith, tt)
consider_all-some f (c ∷ cs) =
    let if_better = consider_all-some c cs in
    let if_not = consider_all-some f cs in
    elim (Bool-cases (is_better_endpoint c.priority f.priority c.distance f.distance)) [
      | inl b ↦ rw b (
          Kept-step f c c cs (consider_all (some c) cs) (inr refl) (ground arith) (ground arith)
            if_better)
      | inr b ↦ rw b (
          Kept-step f f c cs (consider_all (some f) cs) (inl refl) (ground arith) (ground arith)
            if_not)
    ]

Kept-first :
    (c : Candidate) (cs : List Candidate) (r : Option Candidate)
    → Kept (some c) cs r
    → Kept none (c ∷ cs) r
Kept-first c cs none k = elim k [ ]
Kept-first c cs (some a) (m, w, n) = (m, (w, n))

pub consider_all-none : (cs : List Candidate) → Kept none cs (consider_all none cs)
unfolding consider_all consider
consider_all-none [] = refl
consider_all-none (c ∷ cs) = Kept-first c cs (consider_all (some c) cs) (consider_all-some c cs)

pub Kept-IsLeast :
    (cs : List Candidate) (r : Option Candidate) → Kept none cs r → IsLeast cs (endpoint_of r)
Kept-IsLeast cs none k = k
Kept-IsLeast cs (some a) (m, n) = (a, refl, m, n)

pub consider_all-append :
    (found : Option Candidate) (cs ds : List Candidate)
    → consider_all found (cs ++ ds) ≡ consider_all (consider_all found cs) ds
unfolding consider_all
consider_all-append found [] ds = refl
consider_all-append found (c ∷ cs) ds = consider_all-append (consider found c) cs ds
