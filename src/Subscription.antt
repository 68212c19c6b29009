-- ===== src/Subscription.antt =====
-- A subscription and its options (server_subs.go). Routes, publications and remotes are numbers, the
-- identities of their pointers.
pub mod Order
pub mod Best
pub mod Changes
pub mod Runs
use copper.Prelude.{
  ℕ, zero, suc, ◌+◌, ◌-◌, ◌^◌, List, [], ◌∷◌, ◌++◌, length, get_elem?, Bool, true, false, not, ◌==◌,
  ◌&&◌, ◌||◌, ltb, leb, if◌then◌else◌, Option, none, some,
}
use copper.Prelude.Counts.{count, remove}
use copper.Pings.{same}

-- `SubscribeOption` of interface.go
pub record SubscribeOption : Type 0 where
  pub service : List ℕ
  pub min_distance : ℕ
  pub max_distance : ℕ

-- `serverSubscriptionOption`; the fields `local` and `remote`.
pub record Choice : Type 0 where
  pub option : SubscribeOption
  pub route : Option ℕ
  pub locals : List ℕ
  pub remotes : List ℕ
  pub local_priority : ℕ
  pub remote_count : ℕ
  pub remote_priority : ℕ

-- What a request is handed to.
pub data Target : Type 0 where
  to_route to_publication to_remote : ℕ → Target

abbrev pub no_priority : ℕ
no_priority = 0xffffffff

abbrev pub is_set {ℓ} : {A : Type ℓ} → Option A → Bool
is_set none = false
is_set (some a) = true

unfoldable pub is_active_option : Choice → Bool
is_active_option o = is_set o.route || (ltb 0 (length o.locals) || ltb 0 (length o.remotes))

-- The priority of the first one.
abbrev pub first_priority : (ℕ → ℕ) → List ℕ → ℕ
first_priority priority [] = no_priority
first_priority priority (x ∷ xs) = priority x

-- How many there are, from the front, with the priority `first`.
unfoldable pub leading : (ℕ → ℕ) → ℕ → List ℕ → ℕ
leading priority first [] = 0
leading priority first (x ∷ xs) =
    let rest = leading priority first xs in if priority x == first then suc rest else 0

unfoldable pub update_local_priority : (ℕ → ℕ) → Choice → Choice
update_local_priority priority o = record o { local_priority = first_priority priority o.locals }

unfoldable pub update_remote_priority : (ℕ → ℕ) → Choice → Choice
unfolding leading
update_remote_priority priority o =
    let first = first_priority priority o.remotes in
    record o { remote_count = leading priority first o.remotes; remote_priority = first }

-- `handleRequestRLocked`; `random` is what `globalRandom.Intn` returns.
abbrev pub to_remote? : Option ℕ → Option Target
to_remote? none = none
to_remote? (some r) = some (to_remote r)

unfoldable pub handle_remote : Choice → ℕ → Option Target
handle_remote o random =
    if ltb 0 o.remote_count
    then to_remote? (get_elem? o.remotes (if ltb 1 o.remote_count then random else 0))
    else none

unfoldable pub handle_local : Choice → ℕ → List ℕ → Option Target
unfolding handle_remote
handle_local o random [] = handle_remote o random
handle_local o random (p ∷ rest) =
    if leb o.local_priority o.remote_priority
    then some (to_publication p)
    else handle_remote o random

unfoldable pub handle_option : Choice → ℕ → Option ℕ → Option Target
unfolding handle_local
handle_option o random (some r) = some (to_route r)
handle_option o random none = handle_local o random o.locals

unfoldable pub handle_request : Choice → ℕ → Option Target
unfolding handle_option
handle_request o random = handle_option o random o.route

-- `getEndpointsRLocked`: the loop over the remotes, and what it comes to.
unfoldable pub best_remotes : (ℕ → ℕ) → ℕ → List ℕ → List ℕ
best_remotes priority best [] = []
best_remotes priority best (r ∷ rest) =
    let later = best_remotes priority best rest in if priority r == best then r ∷ later else later

abbrev pub all_remotes : List ℕ → List Target
all_remotes [] = []
all_remotes (r ∷ rest) = to_remote r ∷ all_remotes rest

unfoldable pub local_endpoints : (ℕ → ℕ) → Choice → List ℕ → List Target
unfolding best_remotes
local_endpoints priority o [] = all_remotes (best_remotes priority o.remote_priority o.remotes)
local_endpoints priority o (p ∷ rest) =
    if leb o.local_priority o.remote_priority
    then to_publication p ∷ []
    else all_remotes (best_remotes priority o.remote_priority o.remotes)

unfoldable pub option_endpoints : (ℕ → ℕ) → Choice → Option ℕ → List Target
unfolding local_endpoints
option_endpoints priority o (some r) = to_route r ∷ []
option_endpoints priority o none = local_endpoints priority o o.locals

unfoldable pub get_endpoints : (ℕ → ℕ) → Choice → List Target
unfolding option_endpoints
get_endpoints priority o = option_endpoints priority o o.route

-- The methods of an option that change it, each with whether it did.
unfoldable pub add_route_option : ℕ → Choice → Bool × Choice
add_route_option r o = (true, record o { route = some r })

abbrev pub is_route : Option ℕ → ℕ → Bool
is_route none r = false
is_route (some q) r = q == r

unfoldable pub remove_route_option : ℕ → Choice → Bool × Choice
remove_route_option r o =
    if is_route o.route r then (true, record o { route = none }) else (false, o)

unfoldable pub add_publication_option : ℕ → Choice → Bool × Choice
add_publication_option p o =
    if o.option.min_distance == 0
    then (true, record o { locals = o.locals ++ (p ∷ []) })
    else (false, o)

unfoldable pub remove_publication_option : ℕ → Choice → Bool × Choice
remove_publication_option p o =
    if o.option.min_distance == 0 && ltb 0 (count p o.locals)
    then (true, record o { locals = remove p o.locals })
    else (false, o)

-- The filter on a remote's distance.
abbrev pub is_within : Choice → ℕ → Bool
is_within o distance = leb o.option.min_distance distance && leb distance o.option.max_distance

unfoldable pub add_remote_option : ℕ → ℕ → Choice → Bool × Choice
add_remote_option distance r o =
    if is_within o distance
    then (true, record o { remotes = o.remotes ++ (r ∷ []) })
    else (false, o)

unfoldable pub remove_remote_option : ℕ → ℕ → Choice → Bool × Choice
remove_remote_option distance r o =
    if is_within o distance && ltb 0 (count r o.remotes)
    then (true, record o { remotes = remove r o.remotes })
    else (false, o)

-- `serverSubscription`
pub record Subscription : Type 0 where
  pub target_id : ℕ
  pub disable_routes : Bool
  pub options : List Choice
  pub active : ℕ

-- `updateActiveIndexLocked`: the first active option, or the number of options.
unfoldable pub first_active : List Choice → ℕ
unfolding is_active_option
first_active [] = 0
first_active (o ∷ rest) =
    let later = first_active rest in if is_active_option o then 0 else suc later

unfoldable pub update_active_index : Subscription → Subscription
update_active_index s = record s { active = first_active s.options }

unfoldable pub is_active : Subscription → Bool
is_active s = ltb s.active (length s.options)

-- `handleRequestRLocked` and `getEndpointsRLocked` go to the active option.
unfoldable pub active_option : Subscription → Option Choice
active_option s = get_elem? s.options s.active
