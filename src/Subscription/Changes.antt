-- ===== src/Subscription/Changes.antt =====
-- The methods that change a subscription (server_subs.go): routes, publications and remotes come and
-- go. Each also says whether an option changed, by which the caller registers the subscription.
use copper.Prelude.{
  ℕ, List, [], ◌∷◌, length, Bool, true, false, ◌||◌, if◌then◌else◌, Option, none, some,
}
use copper.Pings.{same}
use copper.Subscription.{
  SubscribeOption, Choice, Subscription, update_local_priority, update_remote_priority,
  add_route_option, remove_route_option, add_publication_option, remove_publication_option,
  add_remote_option, remove_remote_option, update_active_index,
}

-- The loop over `indexByName[name]`, which holds the indexes of the options for that service.
unfoldable pub change_named : List ℕ → (Choice → Bool × Choice) → List Choice → Bool × List Choice
change_named name f [] = (false, [])
change_named name f (o ∷ rest) =
    let later = change_named name f rest in
    if same o.option.service name
    then (let (changed, o') = f o in (changed || later.0, o' ∷ later.1))
    else (later.0, o ∷ later.1)

-- The loop over all the options.
unfoldable pub change_all : (Choice → Bool × Choice) → List Choice → Bool × List Choice
change_all f [] = (false, [])
change_all f (o ∷ rest) =
    let later = change_all f rest in let (changed, o') = f o in (changed || later.0, o' ∷ later.1)

-- `if changed { sub.updateActiveIndexLocked() }`
unfoldable pub settle : Subscription → Bool × List Choice → Bool × Subscription
unfolding update_active_index
settle s (true, options) = (true, update_active_index (record s { options = options }))
settle s (false, options) = (false, record s { options = options })

-- Goes on with `g` where the option changed.
abbrev pub and_update : (Choice → Choice) → Bool × Choice → Bool × Choice
and_update g (true, o) = (true, g o)
and_update g (false, o) = (false, o)

unfoldable pub add_route : Subscription → List ℕ → ℕ → Bool × Subscription
unfolding settle
add_route s name r =
    if s.disable_routes
    then (false, s)
    else settle s (change_named name (add_route_option r) s.options)

unfoldable pub remove_route : Subscription → ℕ → Bool × Subscription
unfolding settle
remove_route s r =
    if s.disable_routes then (false, s) else settle s (change_all (remove_route_option r) s.options)

-- The priorities of the publications and of the remotes, and Go's `sort.Sort` by a priority.
module _ (locals remotes : ℕ → ℕ) (sort : (ℕ → ℕ) → List ℕ → List ℕ) where
  abbrev pub sort_locals : Choice → Choice
  sort_locals o = record o { locals = sort locals o.locals }

  abbrev pub sort_remotes : Choice → Choice
  sort_remotes o = record o { remotes = sort remotes o.remotes }

  unfoldable pub add_publication : Subscription → List ℕ → ℕ → Bool × Subscription
  unfolding settle
  add_publication s name p = settle s (
      change_named name
        (λ o.
          and_update (λ q. update_local_priority locals (sort_locals q))
            (add_publication_option p o))
        s.options)

  unfoldable pub remove_publication : Subscription → List ℕ → ℕ → Bool × Subscription
  unfolding settle
  remove_publication s name p = settle s (
      change_named name
        (λ o. and_update (update_local_priority locals) (remove_publication_option p o)) s.options)

  unfoldable pub add_remote : Subscription → List ℕ → ℕ → ℕ → Bool × Subscription
  unfolding settle
  add_remote s name distance r = settle s (
      change_named name
        (λ o.
          and_update (λ q. update_remote_priority remotes (sort_remotes q))
            (add_remote_option distance r o))
        s.options)

  unfoldable pub remove_remote : Subscription → List ℕ → ℕ → ℕ → Bool × Subscription
  unfolding settle
  remove_remote s name distance r = settle s (
      change_named name
        (λ o. and_update (update_remote_priority remotes) (remove_remote_option distance r o))
        s.options)

  -- `subscribeLocked`, with the route, the publications and the remotes that the server has for each
  -- service. The loops over these put them into the options; then each option is sorted.
  abbrev pub put_locals : List ℕ → Choice → Choice
  put_locals [] o = o
  put_locals (p ∷ rest) o = put_locals rest (add_publication_option p o).1

  abbrev pub put_remotes : List (ℕ × ℕ) → Choice → Choice
  put_remotes [] o = o
  put_remotes ((distance, r) ∷ rest) o = put_remotes rest (add_remote_option distance r o).1

  abbrev pub put_route : Bool → Option ℕ → Choice → Choice
  put_route disabled none o = o
  put_route disabled (some r) o = if disabled then o else (add_route_option r o).1

  abbrev pub start_option : SubscribeOption → Choice
  start_option x = record {
    option = x;
    route = none;
    locals = [];
    remotes = [];
    local_priority = 0;
    remote_count = 0;
    remote_priority = 0;
  }

  -- What the server has for a service: a route, the publications, and the remotes by distance.
  abbrev pub Supply : Type 0
  Supply = List ℕ → Option ℕ × List ℕ × List (ℕ × ℕ)

  unfoldable pub fill : Supply → Bool → SubscribeOption → Choice
  unfolding add_route_option add_publication_option add_remote_option update_local_priority
      update_remote_priority
  fill supply disabled x =
      let (route, ps, rs) = supply x.service in
      update_remote_priority remotes (
        sort_remotes (
          update_local_priority locals (
            sort_locals
              (put_remotes rs (put_locals ps (put_route disabled route (start_option x)))))))

  abbrev pub fill_all : Supply → Bool → List SubscribeOption → List Choice
  fill_all supply disabled [] = []
  fill_all supply disabled (x ∷ rest) = fill supply disabled x ∷ fill_all supply disabled rest

  -- With no options it is an error.
  unfoldable pub subscribe : Supply → ℕ → Bool → List SubscribeOption → Option Subscription
  unfolding update_active_index fill
  subscribe supply target_id disabled [] = none
  subscribe supply target_id disabled (x ∷ rest) = some (
      update_active_index (record {
        target_id = target_id;
        disable_routes = disabled;
        options = fill_all supply disabled (x ∷ rest);
        active = length (x ∷ rest);
      }))

-- `unsubscribeLocked`, without the maps of others that it leaves.
unfoldable pub unsubscribe : Subscription → Subscription
unsubscribe s = record s { options = []; active = 0 }
