-- ===== src/Outgoing/Wakeup.antt =====
-- No lost wakeup: `writeready` is set whenever there is something to send.
use copper.Prelude.{
  ℕ, ◌≡◌, refl, arith, List, [], ◌∷◌, false, ltb, Option, none, some, ltb→lt, Bool-cases, inl, inr,
}
use copper.Errors.{GoError}
use copper.Outgoing.{
  Outgoing, start, wakeup, fail, fail_with, add_ping_ack, add_ping_queue, add_ping_queue_with,
  clear_ping_queue, add_settings_ack, add_ctrl, add_data, choose, choose_with,
}

-- There is nothing to send.
pub record Quiet (o : Outgoing) : Type 0 where
  pub healthy : o.err ≡ none
  pub no_acks : o.ping_acks ≡ []
  pub no_pings : o.ping_queue ≡ []
  pub no_settings : o.settings_acks ≡ 0
  pub no_ctrl : o.ctrl.size ≡ 0
  pub no_data : o.bulk.size ≡ 0

abbrev pub IsAwake : Outgoing → Type 0
IsAwake o = o.writeready ≡ false → Quiet o

-- The calls of the other components.
pub data Call : Type 0 where
  fail_call : GoError → Call
  ping_ack ping : List ℕ → Call
  clear_pings settings_ack wake : Call
  ctrl_call data_call : ℕ → Call

abbrev pub apply : Outgoing → Call → Outgoing
apply o (fail_call e) = fail o e
apply o (ping_ack v) = add_ping_ack o v
apply o (ping v) = add_ping_queue o v
apply o clear_pings = clear_ping_queue o
apply o settings_ack = add_settings_ack o
apply o wake = wakeup o
apply o (ctrl_call s) = add_ctrl o s
apply o (data_call s) = add_data o s

add_ctrl-IsAwake : (o : Outgoing) (s : ℕ) → IsAwake o → IsAwake (add_ctrl o s)
unfolding add_ctrl
add_ctrl-IsAwake o s h = elim (Bool-cases (o.inctrl s)) [ inl e ↦ rw e h | inr e ↦ rw e (λ q. cc) ]

add_data-IsAwake : (o : Outgoing) (s : ℕ) → IsAwake o → IsAwake (add_data o s)
unfolding add_data
add_data-IsAwake o s h = elim (Bool-cases (o.indata s)) [ inl e ↦ rw e h | inr e ↦ rw e (λ q. cc) ]

fail_with-IsAwake :
    (o : Outgoing) (e : GoError) (p : Option GoError) → IsAwake o → IsAwake (fail_with o e p)
unfolding fail_with
fail_with-IsAwake o e (some x) h = h
fail_with-IsAwake o e none h = λ q. cc

ping_with-IsAwake :
    (o : Outgoing) (v : List ℕ) (p : Option GoError)
    → IsAwake o
    → IsAwake (add_ping_queue_with o v p)
unfolding add_ping_queue_with
ping_with-IsAwake o v (some x) h = h
ping_with-IsAwake o v none h = λ q. cc

-- Every call of another component keeps the writer awake as long as something is to be sent.
pub apply-IsAwake : (o : Outgoing) (c : Call) → IsAwake o → IsAwake (apply o c)
unfolding fail add_ping_ack add_ping_queue clear_ping_queue add_settings_ack wakeup
apply-IsAwake o (fail_call e) h = fail_with-IsAwake o e o.err h
apply-IsAwake o (ping_ack v) h = λ q. cc
apply-IsAwake o (ping v) h = ping_with-IsAwake o v o.err h
apply-IsAwake o clear_pings h = λ q.
    let r = h q in
    record {
      healthy = r.healthy;
      no_acks = r.no_acks;
      no_pings = refl;
      no_settings = r.no_settings;
      no_ctrl = r.no_ctrl;
      no_data = r.no_data;
    }
apply-IsAwake o settings_ack h = λ q. cc
apply-IsAwake o wake h = λ q. cc
apply-IsAwake o (ctrl_call s) h = add_ctrl-IsAwake o s h
apply-IsAwake o (data_call s) h = add_data-IsAwake o s h

choose_with-IsAwake :
    (o : Outgoing) (e : Option GoError) (acks pings : List (List ℕ))
    → o.err ≡ e
    → o.ping_acks ≡ acks
    → o.ping_queue ≡ pings
    → IsAwake o
    → IsAwake (choose_with o e acks pings).1
unfolding choose_with
choose_with-IsAwake o (some e) acks pings he ha hp h = h
choose_with-IsAwake o none (a ∷ acks) pings he ha hp h = λ q.
    let r = h q in
    record {
      healthy = r.healthy;
      no_acks = refl;
      no_pings = r.no_pings;
      no_settings = r.no_settings;
      no_ctrl = r.no_ctrl;
      no_data = r.no_data;
    }
choose_with-IsAwake o none [] (p ∷ pings) he ha hp h = λ q.
    let r = h q in
    record {
      healthy = r.healthy;
      no_acks = r.no_acks;
      no_pings = refl;
      no_settings = r.no_settings;
      no_ctrl = r.no_ctrl;
      no_data = r.no_data;
    }
choose_with-IsAwake o none [] [] he ha hp h = elim (Bool-cases (ltb 0 o.settings_acks)) [
  | inl s ↦ rw s (λ q. absurd (omega (arith, ltb→lt _ _ s, (h q).no_settings)))
  | inr s ↦ rw s (elim (Bool-cases (ltb 0 o.ctrl.size)) [
    | inl c ↦ rw c (λ q. absurd (omega (arith, ltb→lt _ _ c, (h q).no_ctrl)))
    | inr c ↦ rw c (elim (Bool-cases (ltb 0 o.bulk.size)) [
      | inl d ↦ rw d (λ q. absurd (omega (arith, ltb→lt _ _ d, (h q).no_data)))
      | inr d ↦ rw d (quiet_end (ground arith) (ground arith) (ground arith))
    ])
  ])
]
  where
    quiet_end :
        o.settings_acks ≡ 0
        → o.ctrl.size ≡ 0
        → o.bulk.size ≡ 0
        → IsAwake (record o { writeready = false })
    quiet_end s c d =
        let q : Quiet (record o { writeready = false }) = record {
          healthy = he;
          no_acks = ha;
          no_pings = hp;
          no_settings = s;
          no_ctrl = c;
          no_data = d;
        } in
        λ _. q

-- A run of the writer: calls of other components and rounds of `writeFrames`, in any order.
pub data Event : Type 0 where
  call : Call → Event
  round : Event

abbrev pub step : Outgoing → Event → Outgoing
step o (call c) = apply o c
step o round = (choose o).1

unfoldable pub run : Outgoing → List Event → Outgoing
run o [] = o
run o (e ∷ rest) = run (step o e) rest

choose-IsAwake : (o : Outgoing) → IsAwake o → IsAwake (choose o).1
unfolding choose
choose-IsAwake o h = choose_with-IsAwake o o.err o.ping_acks o.ping_queue refl refl refl h

step-IsAwake : (o : Outgoing) (e : Event) → IsAwake o → IsAwake (step o e)
step-IsAwake o (call c) h = apply-IsAwake o c h
step-IsAwake o round h = choose-IsAwake o h

run-IsAwake : (events : List Event) (o : Outgoing) → IsAwake o → IsAwake (run o events)
unfolding run
run-IsAwake [] o h = h
run-IsAwake (e ∷ rest) o h = run-IsAwake rest (step o e) (step-IsAwake o e h)

start-IsAwake : IsAwake start
start-IsAwake q = record {
  healthy = refl;
  no_acks = refl;
  no_pings = refl;
  no_settings = refl;
  no_ctrl = refl;
  no_data = refl;
}

-- After any interleaving of calls and rounds from a new connection on, a writer that is not ready
-- has nothing to send: no error, no ping, no acknowledgement of a ping or of settings, and no stream
-- to serve.
pub no_lost_wakeup :
    (events : List Event) → (run start events).writeready ≡ false → Quiet (run start events)
no_lost_wakeup events = run-IsAwake events start start-IsAwake
