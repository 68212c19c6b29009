-- ===== src/Routes.antt =====
-- Routes (server_routes.go): a request to a name goes to one of several subscriptions, by weight.
pub mod Shares
pub mod Panics
use copper.Prelude.{
  ℕ, zero, suc, ◌+◌, ◌-◌, List, [], ◌∷◌, ◌++◌, length, map, Bool, true, false, ◌==◌, ◌&&◌, ltb,
  if◌then◌else◌, Option, none, some,
}
use copper.Subscription.{SubscribeOption, Target, no_priority}
use copper.Pings.{same}

-- `serverRouteCase`; a subscription is a number, the identity of its pointer.
pub record Case : Type 0 where
  pub sub : ℕ
  pub weight : ℕ

-- What a request to a route ends with, before its subscription: none is active, or one was drawn.
-- `unmatched` is where the source panics.
pub data Draw : Type 0 where
  no_route unmatched : Draw
  drawn : ℕ → Draw

-- `is_active` is `isActiveRLocked` of the subscriptions.
module _ (is_active : ℕ → Bool) where
  unfoldable pub is_open : Case → Bool
  is_open c = ltb 0 c.weight && is_active c.sub

  -- The sum of the weights, and the loop that counts `bin` down.
  unfoldable pub sum_weights : List Case → ℕ
  sum_weights [] = 0
  sum_weights (c ∷ rest) = (if is_open c then c.weight else 0) + sum_weights rest

  unfoldable pub find_bin : List Case → ℕ → Draw
  find_bin [] bin = unmatched
  find_bin (c ∷ rest) bin =
      let here = ltb bin c.weight in
      let later = find_bin rest (if is_open c then bin - c.weight else bin) in
      if is_open c && here then drawn c.sub else later

  -- `handleRequestRLocked`; `random` is what `globalRandom.Int63n(sum)` returns.
  unfoldable pub draw : List Case → ℕ → Draw
  unfolding sum_weights find_bin
  draw cases random = if sum_weights cases == 0 then no_route else find_bin cases random

  -- The loop of `getEndpointsRLocked`, with the endpoints of each subscription.
  unfoldable pub route_endpoints : (ℕ → List Target) → List Case → List Target
  route_endpoints endpoints [] = []
  route_endpoints endpoints (c ∷ rest) =
      let later = route_endpoints endpoints rest in
      if is_open c then endpoints c.sub ++ later else later

-- `Route` of interface.go
pub record Route : Type 0 where
  pub options : List SubscribeOption
  pub weight : ℕ

-- `reflect.DeepEqual` on routes.
unfoldable pub same_options : List SubscribeOption → List SubscribeOption → Bool
same_options [] [] = true
same_options [] (y ∷ ys) = false
same_options (x ∷ xs) [] = false
same_options (x ∷ xs) (y ∷ ys) =
    (same x.service y.service
      && (x.min_distance == y.min_distance && x.max_distance == y.max_distance))
    && same_options xs ys

unfoldable pub same_routes : List Route → List Route → Bool
unfolding same_options
same_routes [] [] = true
same_routes [] (y ∷ ys) = false
same_routes (x ∷ xs) [] = false
same_routes (x ∷ xs) (y ∷ ys) =
    (same_options x.options y.options && x.weight == y.weight) && same_routes xs ys

-- `serverRoute`, without the map of the subscriptions that name it.
pub record ServerRoute : Type 0 where
  pub name : List ℕ
  pub routes : List Route
  pub cases : List Case

-- What `setRouteLocked` does: nothing; a route is dropped, with the subscriptions to unsubscribe; or
-- a route stands with its new cases, those to unsubscribe, and whether the name had none before; or
-- it panics, since a route has no options to subscribe to.
pub data Setting : Type 0 where
  unchanged panicked : Setting
  dropped : List ℕ → Setting
  set : ServerRoute → List ℕ → Bool → Setting

abbrev pub subs : List Case → List ℕ
subs [] = []
subs (c ∷ rest) = c.sub ∷ subs rest

-- The loop that builds the cases, with the next subscription's number: `subscribeLocked` is an error
-- for no options.
unfoldable pub build_cases : ℕ → List Route → Option (List Case)
build_cases n [] = some []
build_cases n (r ∷ rest) = elim r.options [
  | [] ↦ none
  | o ∷ os ↦ elim (build_cases (suc n) rest) [
    | none ↦ none
    | some cs ↦ some (record { sub = n; weight = r.weight } ∷ cs)
  ]
]

abbrev pub with_cases : List ℕ → List Route → List ℕ → Bool → Option (List Case) → Setting
with_cases name routes old fresh none = panicked
with_cases name routes old fresh (some cs) =
    set (record { name = name; routes = routes; cases = cs }) old fresh

unfoldable pub set_route : ℕ → List ℕ → Option ServerRoute → List Route → Setting
unfolding build_cases same_routes
set_route n name none [] = unchanged
set_route n name none (x ∷ xs) = with_cases name (x ∷ xs) [] true (build_cases n (x ∷ xs))
set_route n name (some r) [] = dropped (subs r.cases)
set_route n name (some r) (x ∷ xs) =
    if same_routes r.routes (x ∷ xs)
    then unchanged
    else with_cases name (x ∷ xs) (subs r.cases) false (build_cases n (x ∷ xs))
