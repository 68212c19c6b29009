-- ===== src/Publication/Endpoints.antt =====
-- How endpoints come to a publication and leave it: the parts of `publishLocked` and
-- `unpublishLocked` that change the publication (server_pubs.go).
use copper.Prelude.{
  ℕ, ◌+◌, ◌%◌, ◌^◌, ◌-◌, List, [], ◌∷◌, ◌++◌, length, take, drop, map, max, Bool, true, false, ◌==◌,
  ◌&&◌, ltb, if◌then◌else◌, Option, none,
}
use copper.Prelude.Counts.{erase, include}
use copper.Publication.{
  PublishSettings, EndpointKey, Endpoint, Publication, put, wakeup_waiters, add_count, sub_count,
  max_key,
}

abbrev pub same_key : EndpointKey → EndpointKey → Bool
same_key a b = a.client == b.client && a.target_id == b.target_id

-- `pub.endpoints[key] != nil`
unfoldable pub has_key : (ℕ → Endpoint) → List ℕ → EndpointKey → Bool
has_key t [] key = false
has_key t (e ∷ rest) key =
    let later = has_key t rest key in if same_key (t e).key key then true else later

abbrev pub no_endpoint : Endpoint
no_endpoint = record {
  key = record { client = 0; target_id = 0 };
  active = 0;
  settings = record { priority = 0; max_distance = 0; concurrency = 0; queue_size = 0 };
  published = false;
}

-- The publication that `publishLocked` makes where there is none of the name and priority.
unfoldable pub new_publication : List ℕ → ℕ → PublishSettings → Publication
new_publication name target_id settings = record {
  name = name;
  target_id = target_id;
  endpoints = [];
  settings = settings;
  max_distance_counts = [];
  ready = [];
  queue = [];
  sent = [];
  table = λ e. no_endpoint;
}

-- Why an endpoint cannot join a publication that is there.
pub data Refusal : Type 0 where
  conflict capacity_overflow queue_overflow : Refusal

pub data Joined : Type 0 where
  refused : Refusal → Joined
  joined : Publication → Joined

abbrev pub sum_uint32 : ℕ → ℕ → ℕ
sum_uint32 a b = (a + b) % 2 ^ 32

-- The checks and the sums of `publishLocked` for a publication that is there.
unfoldable pub join : Publication → EndpointKey → PublishSettings → Joined
join p key s =
    if has_key p.table p.endpoints key
    then refused conflict
    else if ltb (sum_uint32 p.settings.concurrency s.concurrency) p.settings.concurrency
    then refused capacity_overflow
    else if ltb (sum_uint32 p.settings.queue_size s.queue_size) p.settings.queue_size
    then refused queue_overflow
    else joined (record p {
      settings = record (p.settings) {
        max_distance = max p.settings.max_distance s.max_distance;
        concurrency = sum_uint32 p.settings.concurrency s.concurrency;
        queue_size = sum_uint32 p.settings.queue_size s.queue_size;
      };
    })

-- The rest of `publishLocked`: endpoint `e` is put in, and waiters are woken.
unfoldable pub admit : Publication → ℕ → EndpointKey → PublishSettings → Publication
unfolding wakeup_waiters
admit p e key s =
    let q = record p {
      max_distance_counts = add_count p.max_distance_counts s.max_distance;
      table = put p.table e (record { key = key; active = 0; settings = s; published = true });
      endpoints = p.endpoints ++ (e ∷ []);
      ready = include e p.ready;
    } in
    (wakeup_waiters s.concurrency q.queue q).1

-- `a -= b` on uint32.
abbrev pub difference_uint32 : ℕ → ℕ → ℕ
difference_uint32 a b = (a + (2 ^ 32 - b)) % 2 ^ 32

-- A waiter whose channel is closed with nothing sent.
abbrev pub dropped : ℕ → ℕ × Option ℕ
dropped w = (w, none)

-- The endpoint leaves the maps and the sums.
unfoldable pub withdraw : Publication → ℕ → Publication
withdraw p e =
    let v = p.table e in
    let (gone, counts) = sub_count p.max_distance_counts v.settings.max_distance in
    record p {
      table = put p.table e (record v { published = false });
      ready = erase e p.ready;
      max_distance_counts = counts;
      settings = record (p.settings) {
        max_distance = if gone then max_key counts else p.settings.max_distance;
        concurrency = difference_uint32 p.settings.concurrency v.settings.concurrency;
        queue_size = difference_uint32 p.settings.queue_size v.settings.queue_size;
      };
      endpoints = erase e p.endpoints;
    }

-- The waiters that the publication has no room for are sent away: all, without endpoints.
unfoldable pub shrink : Publication → Publication
shrink p =
    let room = if length p.endpoints == 0 then 0 else p.settings.queue_size in
    record p { queue = take room p.queue; sent = p.sent ++ map dropped (drop room p.queue) }

-- `unpublishLocked`, which is an error for an endpoint that is not published.
unfoldable pub unpublish : Publication → ℕ → Bool × Publication
unfolding withdraw shrink
unpublish p e = if (p.table e).published then (true, shrink (withdraw p e)) else (false, p)
