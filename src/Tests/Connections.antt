-- ===== src/Tests/Connections.antt =====
-- Runs of a connection's parts: stream ids, the outgoing side, pings, streams and the dispatch.
use copper.Prelude.{
  ℕ, ◌+◌, ◌≡◌, refl, arith, List, [], ◌∷◌, ◌++◌, length, Bool, false, ◌==◌, ◌&&◌, not, Option, none,
  some, if◌then◌else◌,
}
use copper.Errors.{GoError, error_code}
use copper.Errors.Code
use copper.Frame.{Frame, data_frame, Setting}
use copper.Frame.Writer.{Writer}
use copper.StreamIds.{Streams, find, remove, allocate}
use copper.StreamIds.Registry.{find-remove}
use copper.StreamIds.Allocate
use copper.StreamIds.Allocate.{allocate-Outcome}
use copper.Outgoing.{start, choose}
use copper.Outgoing.Wakeup.{Event, call, round, ctrl_call, settings_ack, Quiet, run, no_lost_wakeup}
use copper.Outgoing.Queues.{Scheduled, queues_match_flags}
use copper.Pings
use copper.Pings.Once
use copper.Pings.Once.{pings_called_once}
use copper.Prelude.Counts.{count}
use copper.Pings.Replies
use copper.Pings.Replies.{handle_ack_lem}
use copper.Settings
use copper.Stream.{new_stream, new_outgoing_stream, is_none, one_if}
use copper.Stream.Output.{write_ctrl, never_opened}
use copper.StreamLaws.Credit.{Within, receive_window-Within}
use copper.StreamLaws.Events
use copper.StreamLaws.Lifecycle.{Alive, stream_lifecycle}
use copper.StreamLaws.Sending
use copper.StreamLaws.Sending.{write_ctrl_ends}
use copper.Conn.{Conn}
use copper.Conn.Dispatch.{process_frame, handle_settings, process_data_frame, dispatch, conclude}
use copper.Conn.Failure.{process_frame_outcome, settings_are_ignored}
use copper.Conn.Violations.{Tells, violations_are_internal}
use copper.Outgoing

-- A client with two live streams.
abbrev client : Streams
client = record { err = none; flag = 1; next = 5; live = (1, 10) ∷ (3, 11) ∷ [] }

client-IsValid : Allocate.IsValid client
client-IsValid = record {
  side = omega arith;
  positive = omega arith;
  within = omega arith;
  owned = omega arith;
}

find-remove_example : find (remove client 3 11).live 1 ≡ (elim (find client.live 3) [
  | none ↦ find client.live 1
  | some t ↦ if (t == 11) && (3 == 1) then none else find client.live 1
])
find-remove_example = find-remove client 3 11 1

allocate-Outcome_example : Allocate.Outcome client (allocate client)
allocate-Outcome_example = allocate-Outcome client client-IsValid refl

abbrev events : List Event
events = call (ctrl_call 4) ∷ call settings_ack ∷ round ∷ round ∷ round ∷ []

-- An acknowledgement that a round sends, with which nothing is left to do.
abbrev served : List Event
served = call settings_ack ∷ round ∷ []

no_lost_wakeup_example : Quiet (run start (served ++ (round ∷ [])))
unfolding run choose Outgoing.add_settings_ack
no_lost_wakeup_example = no_lost_wakeup (served ++ (round ∷ [])) refl

queues_match_flags_example : Scheduled (length events) (run start events)
queues_match_flags_example = queues_match_flags events (omega arith)

abbrev ping : List ℕ
ping = 1 ∷ 2 ∷ 3 ∷ 4 ∷ 5 ∷ 6 ∷ 7 ∷ 8 ∷ []

abbrev pings : Pings.Pings
pings = record { err = none; pings = (ping, 20 ∷ 21 ∷ []) ∷ [] }

handle_ack_lem_example : Replies.Answered pings ping (Pings.handle_ack pings ping)
handle_ack_lem_example = handle_ack_lem pings ping

-- The callback 20 is accepted twice, 21 once, a reply comes, and 22 is refused after the failure.
abbrev pinged : List Once.Event
pinged =
    Once.ping ping 20
    ∷ Once.ping ping 21
    ∷ Once.ack ping
    ∷ Once.ping [] 20
    ∷ Once.failed (error_code Code.econnclosed)
    ∷ Once.ping ping 22
    ∷ []

pings_called_once_example :
    let r = Once.run Once.new_run pinged in
    Once.called 20 r.calls + (if is_none r.pings.err then Once.waiting 20 r.pings.pings else 0)
    ≡ count 20 r.accepted
pings_called_once_example = pings_called_once pinged 20

-- No two errors are the same object.
abbrev distinct : Option GoError → Option GoError → Bool
distinct a b = false

abbrev life : List Events.Event
life =
    Events.data_in (1 ∷ 2 ∷ []) 1
    ∷ Events.read_call 4
    ∷ Events.write_call (3 ∷ [])
    ∷ Events.close_call none
    ∷ Events.ctrl_turn
    ∷ Events.data_turn
    ∷ Events.data_written
    ∷ []

stream_lifecycle_example :
    Alive (Events.run distinct (new_stream 2 100 100) life)
    × Alive (Events.run distinct (new_outgoing_stream 2 100 100) life)
stream_lifecycle_example = stream_lifecycle distinct 2 100 100 life

receive_window-Within_example : Within 100 (Events.run distinct (new_stream 2 100 100) life)
receive_window-Within_example = receive_window-Within 100 (omega arith) distinct 2 100 life

abbrev writer : Writer
writer = record { out = []; outcomes = [] }

write_ctrl_ends_example :
    Sending.Finished
      (not (never_opened (new_outgoing_stream 2 100 100)))
      (write_ctrl distinct (new_outgoing_stream 2 100 100) writer)
write_ctrl_ends_example = write_ctrl_ends distinct (new_outgoing_stream 2 100 100) writer

abbrev conn : Conn
conn = record {
  failure = none;
  closed = 0;
  shutdown = false;
  pings = Pings.init;
  streams = client;
  settings = Settings.init;
  outgoing = start;
  table = λ n. new_stream n 100 100;
  fresh = 12;
  handled = [];
  calls = [];
}

abbrev no_timeout : GoError → Bool
no_timeout e = false

-- Data for a stream that is not there.
abbrev stray : Frame
stray = data_frame 8 0 (1 ∷ [])

process_frame_outcome_example :
    (is_none (process_frame no_timeout conn stray).1.failure
      ≡ (is_none conn.failure && (process_frame no_timeout conn stray).0))
    × ((process_frame no_timeout conn stray).1.failure ≡ elim conn.failure [
      | none ↦ (process_frame no_timeout conn stray).1.failure
      | some e ↦ some e
    ])
    × ((process_frame no_timeout conn stray).1.closed
        ≡ conn.closed
          + one_if (is_none conn.failure && not (process_frame no_timeout conn stray).0))
process_frame_outcome_example = process_frame_outcome no_timeout conn stray

abbrev window_setting : List Setting
window_setting = record { id = 1; value = 4096 } ∷ []

settings_are_ignored_example :
    handle_settings conn window_setting
    ≡ (none, record conn { outgoing = Outgoing.add_settings_ack conn.outgoing })
settings_are_ignored_example = settings_are_ignored conn window_setting

violations_are_internal_example :
    Tells (process_frame no_timeout conn stray).1.outgoing Code.einternal
unfolding process_frame dispatch process_data_frame conclude find
violations_are_internal_example =
    violations_are_internal no_timeout (λ code m. refl) conn 8 0 (1 ∷ []) refl refl refl
