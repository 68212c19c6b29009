-- ===== src/Outgoing.antt =====
-- What a connection has to send (rawconn_outgoing.go). The mutex makes each method one step, so a
-- method is a function on the state; `writeFrames` gives the mutex up while it writes.
pub mod Queues
pub mod Wakeup
use copper.Prelude.{
  ℕ, zero, suc, ◌+◌, ◌-◌, List, [], ◌∷◌, ◌++◌, length, Bool, true, false, ◌==◌, ltb, if◌then◌else◌,
  Option, none, some,
}
use copper.Errors.{GoError, error_code, is_code}
use copper.Errors.Code
use copper.StreamQueue
use copper.StreamQueue.{StreamQueue}
use copper.Frame.Flag
use copper.Frame.Writer.{Writer, write_ping, write_reset, write_settings_ack}

-- The flags `inctrl` and `indata` of the streams are guarded by this component's mutex, and are kept
-- here, by the stream's number. `blocked`, which only tests set, is left out: it is 0.
pub record Outgoing : Type 0 where
  pub err : Option GoError
  pub writeready : Bool
  pub ping_acks : List (List ℕ)
  pub ping_queue : List (List ℕ)
  pub settings_acks : ℕ
  pub ctrl : StreamQueue
  pub bulk : StreamQueue
  pub inctrl : ℕ → Bool
  pub indata : ℕ → Bool

abbrev pub start : Outgoing
start = record {
  err = none;
  writeready = false;
  ping_acks = [];
  ping_queue = [];
  settings_acks = 0;
  ctrl = StreamQueue.empty;
  bulk = StreamQueue.empty;
  inctrl = λ s. false;
  indata = λ s. false;
}

-- `stream.flag = v`
abbrev pub put : (ℕ → Bool) → ℕ → Bool → ℕ → Bool
put f s v t = if t == s then v else f t

-- `wakeup` and `wakeupLocked`
unfoldable pub wakeup : Outgoing → Outgoing
wakeup o = record o { writeready = true }

-- A normal close of the connection goes out as ECONNSHUTDOWN.
abbrev pub shutdown_error : GoError → GoError
shutdown_error e = if is_code Code.econnclosed e then error_code Code.econnshutdown else e

-- `fail`, by the error that is pending.
unfoldable pub fail_with : Outgoing → GoError → Option GoError → Outgoing
unfolding wakeup
fail_with o e (some pending) = o
fail_with o e none = wakeup (record o { err = some (shutdown_error e) })

unfoldable pub fail : Outgoing → GoError → Outgoing
unfolding fail_with
fail o e = fail_with o e o.err

unfoldable pub add_ping_ack : Outgoing → List ℕ → Outgoing
unfolding wakeup
add_ping_ack o value = wakeup (record o { ping_acks = o.ping_acks ++ (value ∷ []) })

unfoldable pub add_ping_queue_with : Outgoing → List ℕ → Option GoError → Outgoing
unfolding wakeup
add_ping_queue_with o value (some e) = o
add_ping_queue_with o value none = wakeup (record o { ping_queue = o.ping_queue ++ (value ∷ []) })

unfoldable pub add_ping_queue : Outgoing → List ℕ → Outgoing
unfolding add_ping_queue_with
add_ping_queue o value = add_ping_queue_with o value o.err

unfoldable pub clear_ping_queue : Outgoing → Outgoing
clear_ping_queue o = record o { ping_queue = [] }

unfoldable pub add_settings_ack : Outgoing → Outgoing
unfolding wakeup
add_settings_ack o = wakeup (record o { settings_acks = o.settings_acks + 1 })

unfoldable pub add_ctrl : Outgoing → ℕ → Outgoing
unfolding wakeup
add_ctrl o stream =
    if o.inctrl stream
    then o
    else wakeup
        (record o { ctrl = StreamQueue.push o.ctrl stream; inctrl = put o.inctrl stream true })

unfoldable pub add_data : Outgoing → ℕ → Outgoing
unfolding wakeup
add_data o stream =
    if o.indata stream
    then o
    else wakeup
        (record o { bulk = StreamQueue.push o.bulk stream; indata = put o.indata stream true })

-- What one round of the loop of `writeFrames` finds to do.
pub data Work : Type 0 where
  send_error : GoError → Work
  send_ping_acks : List (List ℕ) → Work
  send_pings : List (List ℕ) → Work
  send_settings_ack : Work
  run_ctrl : Option ℕ → Work
  run_data : Option ℕ → Work
  idle : Work

abbrev pub unmark : (ℕ → Bool) → Option ℕ → ℕ → Bool
unmark f none = f
unmark f (some s) = put f s false

-- The part of a round that holds the mutex: the choice, in the order of the source, and the state
-- when the mutex is given up.
unfoldable pub choose_with :
    Outgoing → Option GoError → List (List ℕ) → List (List ℕ) → Work × Outgoing
choose_with o (some e) acks pings = (send_error e, o)
choose_with o none (a ∷ acks) pings = (send_ping_acks (a ∷ acks), record o { ping_acks = [] })
choose_with o none [] (p ∷ pings) = (send_pings (p ∷ pings), record o { ping_queue = [] })
choose_with o none [] [] =
    if ltb 0 o.settings_acks
    then (send_settings_ack, record o { settings_acks = o.settings_acks - 1 })
    else if ltb 0 o.ctrl.size
    then (let (s, q) = StreamQueue.take o.ctrl in
        (run_ctrl s, record o { ctrl = q; inctrl = unmark o.inctrl s }))
    else if ltb 0 o.bulk.size
    then (let (s, q) = StreamQueue.take o.bulk in
        (run_data s, record o { bulk = q; indata = unmark o.indata s }))
    else (idle, record o { writeready = false })

unfoldable pub choose : Outgoing → Work × Outgoing
unfolding choose_with
choose o = choose_with o o.err o.ping_acks o.ping_queue

-- The loop over the pings to write, up to the first error.
unfoldable pub write_pings : ℕ → List (List ℕ) → Writer → Option GoError × Writer
write_pings flags [] w = (none, w)
write_pings flags (p ∷ rest) w =
    let (e, w') = write_ping flags p w in
    let later = write_pings flags rest w' in elim e [ none ↦ later | some x ↦ (some x, w') ]
