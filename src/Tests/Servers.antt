-- ===== src/Tests/Servers.antt =====
-- Publications, subscriptions, changes, routes and the search for an endpoint.
use copper.Prelude.{
  ℕ, ◌*◌, ◌<◌, ◌≤◌, ◌≡◌, ◌↔◌, ◌≢◌, max, refl, arith, List, [], ◌∷◌, leb, length, Bool, true, false,
  ◌==◌, if◌then◌else◌, Option, none, some, ◌++◌,
}
use copper.Prelude.Counts.{count, include, erase}
use copper.Publication.{
  PublishSettings, EndpointKey, Publication, take_endpoint, take_found, best_ready,
  release_endpoint, queue_waiter,
}
use copper.Publication.Endpoints.{admit, unpublish}
use copper.Publication.Runs
use copper.Publication.Runs.{started, take_call, wait_call, release_call}
use copper.Publication.Capacity.{Kept, run-Kept}
use copper.Publication.Waiting.{line, SentAway, waiters_in_order, stranded_waiter}
use copper.Subscription.{SubscribeOption, Choice, handle_request, leading}
use copper.Subscription.{
  Subscription, update_active_index, first_active, is_active_option, add_route_option,
  add_publication_option, add_remote_option, update_local_priority, update_remote_priority,
}
use copper.Subscription.Best.{IsValid, IsBest, handle_request-IsBest}
use copper.Subscription.Changes.{subscribe, fill}
use copper.Subscription.Runs.{
  IsCurrent, remote_added, publication_removed, apply_all, apply_all-subscribe-IsCurrent,
}
use copper.Watch.{
  Service, Services, add_changed, add_removed, read, new_watch, erase_all, include_all,
}
use copper.Watch.View
use copper.Watch.View.{Lists, opened, reads_only, view-eq-services, reads_drain}
use copper.Routes.{
  Case, Route, is_open, sum_weights, draw, set_route, build_cases, panicked, unchanged,
}
use copper.Routes.Shares.{Place, Share, draw-Share}
use copper.Routes.Panics.{Bare, panics_iff_Bare}
use copper.Search.{Directory, find_endpoint}
use copper.Search.Candidates.{IsLeast, candidates}
use copper.Search.Least.{find_endpoint-IsLeast}
use copper.Tests.Sorting.{sort_by, insert_by, sort_by-IsSort}

abbrev one_at_a_time : PublishSettings
one_at_a_time = record { priority = 0; max_distance = 2; concurrency = 1; queue_size = 1 }

abbrev first_key : EndpointKey
first_key = record { client = 1; target_id = 5 }

abbrev events : List Runs.Event
events = take_call ∷ wait_call 7 ∷ release_call 0 ∷ []

run-Kept_example : Kept (Runs.run (started [] 1 first_key one_at_a_time) events) 0
run-Kept_example = run-Kept [] 1 first_key one_at_a_time events 0 refl

-- One endpoint, whose only request is under way, and nobody waits.
abbrev busy : Publication
busy = record {
  name = [];
  target_id = 1;
  endpoints = 0 ∷ [];
  settings = one_at_a_time;
  max_distance_counts = (2, 1) ∷ [];
  ready = [];
  queue = [];
  sent = [];
  table = λ e. record { key = first_key; active = 1; settings = one_at_a_time; published = true };
}

waiters_in_order_example :
    (line (release_endpoint busy 0) ≡ line busy)
    × (line (admit busy 0 first_key one_at_a_time) ≡ line busy)
    × (line (take_endpoint busy).1 ≡ line busy)
    × (line (queue_waiter busy 7).1 ≡ (
        if leb busy.settings.queue_size (length busy.queue)
        then line busy
        else line busy ++ (7 ∷ [])))
    × ((k : ℕ) × SentAway busy (unpublish busy 0).1 k)
waiters_in_order_example = waiters_in_order busy 0 7 first_key one_at_a_time

busy_taken : (take_endpoint busy).0 ≡ none
unfolding take_endpoint take_found best_ready
busy_taken = refl

stranded_waiter_example :
    let q = (queue_waiter (release_endpoint busy 0) 7).1 in
    (q.queue ≡ 7 ∷ []) × (q.sent ≡ busy.sent) × (0 < count 0 q.ready)
stranded_waiter_example = stranded_waiter busy 0 7 busy_taken refl refl (omega arith)

abbrev identity : ℕ → ℕ
identity n = n

-- Two remotes of the same priority.
abbrev equal : ℕ → ℕ
equal n = 3

abbrev two_remotes : Choice
two_remotes = record {
  option = record { service = []; min_distance = 0; max_distance = 2 };
  route = none;
  locals = [];
  remotes = 8 ∷ 9 ∷ [];
  local_priority = 0xffffffff;
  remote_count = 2;
  remote_priority = 3;
}

two_remotes-IsValid : IsValid equal equal two_remotes
unfolding leading
two_remotes-IsValid = record {
  locals_ordered = tt;
  remotes_ordered = ((omega arith, tt), (tt, tt));
  local_first = refl;
  remote_first = refl;
  leaders = refl;
}

handle_request-IsBest_example : IsBest equal equal two_remotes (handle_request two_remotes 1)
handle_request-IsBest_example =
    handle_request-IsBest equal equal two_remotes 1 two_remotes-IsValid (omega arith)
      (λ p. omega arith)

abbrev wish : SubscribeOption
wish = record { service = 97 ∷ []; min_distance = 0; max_distance = 2 }

-- A server with publication 4 for every service, and no routes or remotes.
abbrev supply : List ℕ → Option ℕ × List ℕ × List (ℕ × ℕ)
supply name = (none, 4 ∷ [], [])

abbrev wished : Subscription
wished = record {
  target_id = 1;
  disable_routes = false;
  options = fill identity equal sort_by supply false wish ∷ [];
  active = 0;
}

wished_first : subscribe identity equal sort_by supply 1 false (wish ∷ []) ≡ some wished
unfolding subscribe fill sort_by insert_by update_active_index first_active is_active_option
    add_route_option add_publication_option add_remote_option update_local_priority
    update_remote_priority
wished_first = refl

apply_all-subscribe-IsCurrent_example : IsCurrent (IsValid identity equal) (
    apply_all identity equal sort_by sort_by-IsSort wished
      (remote_added (97 ∷ []) 8 1 ∷ publication_removed (97 ∷ []) 4 ∷ []))
apply_all-subscribe-IsCurrent_example =
    apply_all-subscribe-IsCurrent identity equal sort_by sort_by-IsSort supply 1 false (wish ∷ [])
      (remote_added (97 ∷ []) 8 1 ∷ publication_removed (97 ∷ []) 4 ∷ []) wished wished_first

abbrev web : Service
web = record { name = 97 ∷ []; settings = one_at_a_time }

abbrev only_one : Services
only_one t = if t == 1 then some web else none

only_one-Lists : Lists only_one (1 ∷ [])
unfolding count
only_one-Lists t = ground arith

abbrev changes : List View.Event
changes = View.published 2 web ∷ (View.reads ∷ (View.unpublished 1 ∷ (View.reads ∷ [])))

nothing_pending :
    ((View.run (opened only_one (1 ∷ [])) changes).watch.changed ≡ [])
    × ((View.run (opened only_one (1 ∷ [])) changes).watch.removed ≡ [])
unfolding View.run View.step read add_changed add_removed new_watch erase_all include_all erase
    include count
nothing_pending = (refl, refl)

view-eq-services_example :
    (View.run (opened only_one (1 ∷ [])) changes).view 1
    ≡ (View.run (opened only_one (1 ∷ [])) changes).services 1
view-eq-services_example =
    view-eq-services only_one (1 ∷ []) changes 1 only_one-Lists nothing_pending.0 nothing_pending.1

opened_is_open : (opened only_one (1 ∷ [])).watch.closed ≡ false
unfolding new_watch
opened_is_open = refl

opened_changes : length (opened only_one (1 ∷ [])).watch.changed ≤ 256 * 1
unfolding new_watch
opened_changes = omega arith

reads_drain_example :
    ((View.run (opened only_one (1 ∷ [])) (reads_only 1)).watch.changed ≡ [])
    × ((View.run (opened only_one (1 ∷ [])) (reads_only 1)).watch.removed ≡ [])
reads_drain_example = reads_drain 0 (opened only_one (1 ∷ [])) opened_is_open opened_changes

abbrev all_active : ℕ → Bool
all_active s = true

abbrev two_thirds : List Case
two_thirds = record { sub = 10; weight = 1 } ∷ (record { sub = 11; weight = 2 } ∷ [])

number_two : Place all_active two_thirds 2
unfolding is_open sum_weights
number_two = record {
  before = record { sub = 10; weight = 1 } ∷ [];
  after = [];
  it = record { sub = 11; weight = 2 };
  offset = 1;
  divided = refl;
  opened = refl;
  inside = omega arith;
  placed = refl;
}

below_sum : 2 < max 1 (sum_weights all_active two_thirds)
unfolding sum_weights is_open
below_sum = omega arith

draw-Share_example : Share all_active two_thirds 2 (draw all_active two_thirds 2)
draw-Share_example = draw-Share all_active two_thirds 2 below_sum

abbrev bare : Route
bare = record { options = []; weight = 1 }

bare_changes : set_route 1 (97 ∷ []) none (bare ∷ []) ≢ unchanged
unfolding set_route build_cases
bare_changes e = grind (arith, e)

panics_iff_Bare_example : (set_route 1 (97 ∷ []) none (bare ∷ []) ≡ panicked) ↔ Bare (bare ∷ [])
panics_iff_Bare_example = panics_iff_Bare 1 (97 ∷ []) none bare [] bare_changes

abbrev directory : Directory
directory = record {
  route_by_name = λ n. none;
  pubs_by_name = λ n. (1, record one_at_a_time { priority = 1 }) ∷ [];
  peers = record { distance = 1; remotes_by_name = λ n. (7, one_at_a_time) ∷ [] } ∷ [];
}

find_endpoint-IsLeast_example :
    IsLeast (candidates directory (97 ∷ []) 0 2) (find_endpoint directory (97 ∷ []) 0 2)
find_endpoint-IsLeast_example = find_endpoint-IsLeast directory (97 ∷ []) 0 2 refl
