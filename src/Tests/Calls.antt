-- ===== src/Tests/Calls.antt =====
-- Peers, remote calls and clients.
use copper.Prelude.{
  ℕ, ◌%◌, ◌≡◌, refl, ap, sym, arith, List, [], ◌∷◌, ◌++◌, true, false, none, some, ◌==◌,
  if◌then◌else◌,
}
use copper.Watch.{
  Service, Services, read, add_changed, add_removed, new_watch, erase_all, include_all,
}
use copper.Watch.View
use copper.Watch.View.{Lists}
use copper.Prelude.Counts.{count, erase, include}
use copper.Peers.Pair
use copper.Peers.Across.{peer_catches_up}
use copper.Peers.Knowledge.{known}
use copper.Peers.Reader.{reachable}
use copper.Errors.{eof, unexpected_eof, Result, ok, err, ◌>>=◌}
use copper.Publication.{PublishSettings}
use copper.Subscription.{SubscribeOption}
use copper.Routes.{Route}
use copper.Peers.{Remote}
use copper.Peers.Reader
use copper.Peers.Reader.{follow_all, is_allowed, new_peer, new_reader}
use copper.Peers.Mirror.{Mirrors, peer_follows}
use copper.Rpc.{Incoming, read_message, write_message, read_target}
use copper.Rpc.Messages.{joined, read_message-write_message, read_message-cut}
use copper.Rpc.Targets.{short_read_misses}
use copper.Rpc.Conversions
use copper.Rpc.Conversions.{conversions_back}
use copper.Clients.Calls
use copper.Clients.Calls.{Call, all_new}
use copper.Clients.Release.{Accounted, new_run, run-Accounted}

abbrev settings : PublishSettings
settings = record { priority = 0; max_distance = 2; concurrency = 1; queue_size = 1 }

abbrev no_remotes : ℕ → Remote
no_remotes r = record {
  attached = false;
  client = none;
  target_id = 0;
  name = [];
  distance = 0;
  settings = settings;
}

abbrev peer_events : List Reader.Event
peer_events =
    Reader.attached 4
    ∷ (Reader.changes 4 [] ((9, record { name = 97 ∷ []; settings = settings }) ∷ [])
        ∷ (Reader.request_failed 0 ∷ []))

peer_events_allowed : is_allowed (new_peer 1 no_remotes) peer_events ≡ true
unfolding is_allowed
peer_events_allowed = refl

peer_follows_example :
    Mirrors 1
      (Reader.run (new_peer 1 no_remotes) peer_events)
      (follow_all (new_peer 1 no_remotes) new_reader peer_events)
peer_follows_example = peer_follows 1 no_remotes peer_events peer_events_allowed

abbrev web : Service
web = record { name = 97 ∷ []; settings = settings }

abbrev only_one : Services
only_one t = if t == 1 then some web else none

only_one-Lists : Lists only_one (1 ∷ [])
unfolding count
only_one-Lists t = ground arith

-- One service is published, a request to the first fails, the first is withdrawn, and the peer reads
-- twice.
abbrev across : Pair.Pair
across = Pair.connected 1 no_remotes 4 only_one (1 ∷ [])

abbrev news : List Pair.Happening
news =
    Pair.served (View.published 2 web)
    ∷ (Pair.served View.reads
        ∷ (Pair.request_failed 0
            ∷ (Pair.served (View.unpublished 1) ∷ (Pair.served View.reads ∷ []))))

nothing_pending :
    ((Pair.run 4 across news).link.watch.changed ≡ [])
    × ((Pair.run 4 across news).link.watch.removed ≡ [])
unfolding Pair.run Pair.step View.step read add_changed add_removed new_watch erase_all include_all
    erase include count
nothing_pending = (refl, refl)

peer_catches_up_example :
    let r = Pair.run 4 across news in
    known r.peer 2 ≡ (if r.lost 2 then none else reachable 1 (r.link.services 2))
peer_catches_up_example =
    peer_catches_up 1 no_remotes 4 only_one (1 ∷ []) news 2 only_one-Lists nothing_pending.0
      nothing_pending.1

-- Messages that are one byte.
abbrev marshal : ℕ → Result (List ℕ)
marshal m = ok (m ∷ [])

abbrev unmarshal : List ℕ → Result ℕ
unmarshal [] = err unexpected_eof
unmarshal (b ∷ bs) = ok b

decodes : (m : ℕ) (b : List ℕ) → marshal m ≡ ok b → unmarshal b ≡ ok m
decodes m b h = ap (λ r. r >>= unmarshal) (sym h)

-- A message of the byte 42, in two pieces, with one byte behind it; and cut short.
abbrev arriving : Incoming
arriving = record { pieces = (0 ∷ 0 ∷ []) ∷ ((0 ∷ 1 ∷ 42 ∷ 5 ∷ []) ∷ []); fin = eof; ended = true }

abbrev cut : Incoming
cut = record { pieces = (0 ∷ 0 ∷ []) ∷ ((0 ∷ 1 ∷ []) ∷ []); fin = eof; ended = true }

written : write_message marshal unmarshal 42 ≡ ok (0 ∷ 0 ∷ 0 ∷ 1 ∷ 42 ∷ [])
unfolding write_message
written = refl

arriving_bytes : joined arriving.pieces ≡ (0 ∷ 0 ∷ 0 ∷ 1 ∷ 42 ∷ []) ++ (5 ∷ [])
unfolding joined
arriving_bytes = refl

cut_bytes : 0 ∷ (0 ∷ (0 ∷ (1 ∷ (42 ∷ [])))) ≡ joined cut.pieces ++ (42 ∷ [])
unfolding joined
cut_bytes = refl

read_message-write_message_example :
    (t : Incoming) × (read_message marshal unmarshal arriving ≡ (ok 42, t))
    × (joined t.pieces ≡ 5 ∷ [])
read_message-write_message_example =
    read_message-write_message marshal unmarshal decodes 42 (42 ∷ []) (0 ∷ 0 ∷ 0 ∷ 1 ∷ 42 ∷ [])
      (5 ∷ []) arriving refl (omega arith) written arriving_bytes

read_message-cut_example : (read_message marshal unmarshal cut).0 ≡ err unexpected_eof
read_message-cut_example =
    read_message-cut marshal unmarshal decodes 42 (42 ∷ []) (0 ∷ 0 ∷ 0 ∷ 1 ∷ 42 ∷ []) (42 ∷ []) cut
      refl (omega arith) written cut_bytes (omega arith) refl

short_read_misses_example :
    (n : ℕ) × (read_target (record {
      pieces = (0 ∷ 0 ∷ []) ∷ ((0 ∷ 0 ∷ 0 ∷ 0 ∷ 0 ∷ 7 ∷ []) ∷ []);
      fin = eof;
      ended = true;
    })
      ≡ (ok n, record { pieces = (0 ∷ 0 ∷ 0 ∷ 0 ∷ 0 ∷ 7 ∷ []) ∷ []; fin = eof; ended = true }))
    × (n % 256 ≡ 0)
short_read_misses_example =
    short_read_misses (0 ∷ 0 ∷ []) ((0 ∷ 0 ∷ 0 ∷ 0 ∷ 0 ∷ 7 ∷ []) ∷ []) eof true (omega arith)

abbrev option : SubscribeOption
option = record { service = 97 ∷ []; min_distance = 0; max_distance = 2 }

abbrev route : Route
route = record { options = option ∷ []; weight = 3 }

conversions_back_example :
    (Conversions.proto_to_subscribe_options (Conversions.subscribe_options_to_proto (option ∷ []))
      ≡ option ∷ [])
    × (Conversions.proto_to_endpoints (Conversions.endpoints_to_proto []) ≡ [])
    × (Conversions.proto_to_publish_settings (Conversions.publish_settings_to_proto settings)
        ≡ settings)
    × (Conversions.proto_to_routes (Conversions.routes_to_proto (route ∷ [])) ≡ route ∷ [])
    × (Conversions.proto_to_service_changes (Conversions.service_changes_to_proto []) ≡ [])
conversions_back_example = conversions_back (option ∷ []) [] settings (route ∷ []) []

abbrev client_calls : List Call
client_calls =
    Calls.subscribe_call (option ∷ []) 3
    ∷ (Calls.publish_call 1 settings none 8
        ∷ (Calls.request_failed 8
            ∷ (Calls.publish_call 1 settings none 9
                ∷ (Calls.watch_call 2 ∷ (Calls.unpublish_call 1 ∷ (Calls.close_call eof ∷ []))))))

client_calls_new : all_new (new_run true) client_calls ≡ true
unfolding all_new Calls.step
client_calls_new = refl

run-Accounted_example : Accounted (Calls.run (new_run true) client_calls)
run-Accounted_example = run-Accounted true client_calls client_calls_new
