-- ===== src/Outgoing/Queues.antt =====
-- The two queues of streams and the flags `inctrl` and `indata`: a stream waits once at most, and
-- its flag says whether it waits.
use copper.Prelude.{
  ℕ, ◌+◌, ◌*◌, ◌^◌, ◌≤◌, ◌<◌, ◌≡◌, refl, sym, ap, arith, List, [], ◌∷◌, ◌++◌, length, Bool, true,
  false, ltb, ltb→lt, if◌then◌else◌, Option, none, some, Bool-cases, inl, inr,
}
use mathlib.Core.Path.{subst, subst₂}
use native.Mathlib.Nat.{add-zero}
use copper.Ring.{window}
use copper.Prelude.Counts.{count, count-append}
use copper.Prelude.Arrays.{tabulate}
use copper.Errors.{GoError}
use copper.StreamQueue
use copper.StreamQueue.{StreamQueue}
use copper.StreamQueue.Fifo.{
  Holds, Holds-push, Holds-take, size-push, size-take, length-push, length-take_buf,
  length-pointers,
}
use copper.Outgoing.{
  Outgoing, start, put, unmark, fail, fail_with, add_ping_ack, add_ping_queue, add_ping_queue_with,
  clear_ping_queue, add_settings_ack, wakeup, add_ctrl, add_data, choose, choose_with,
}
use copper.Outgoing.Wakeup.{
  Call, fail_call, ping_ack, ping, clear_pings, settings_ack, wake, ctrl_call, data_call, apply,
  Event, call, round, step, run,
}

-- The queue holds the streams whose flag is set, each once, after `n` calls at most.
pub record Marked (q : StreamQueue) (flag : ℕ → Bool) (n : ℕ) : Type 0 where
  pub streams : List ℕ
  pub holds : Holds q streams
  pub once : (s : ℕ) → count s streams ≡ (if flag s then 1 else 0)
  pub room : length q.buf ≤ 2 * n
  pub fill : q.size ≤ n

Marked-push :
    (q : StreamQueue) (flag : ℕ → Bool) (n s : ℕ)
    → flag s ≡ false
    → n < 2 ^ 60
    → Marked q flag n
    → Marked (StreamQueue.push q s) (put flag s true) (n + 1)
unfolding count
Marked-push q flag n s f h m = record {
  streams = m.streams ++ (s ∷ []);
  holds = Holds-push q m.streams s m.holds (omega (arith, m.room));
  once = λ t. ground (arith, count-append t m.streams (s ∷ []), m.once t, f);
  room =
      length-push q s (n + 1) m.holds.0 (omega (arith, m.fill)) (omega arith)
        (omega (arith, m.room));
  fill = omega (arith, size-push q s, m.fill);
}

Marked-later : (q : StreamQueue) (flag : ℕ → Bool) (n : ℕ) → Marked q flag n → Marked q flag (n + 1)
Marked-later q flag n m = record {
  streams = m.streams;
  holds = m.holds;
  once = m.once;
  room = omega (arith, m.room);
  fill = omega (arith, m.fill);
}

Marked-take :
    (q : StreamQueue) (flag : ℕ → Bool) (n : ℕ)
    → 0 < q.size
    → Marked q flag n
    → Marked (StreamQueue.take q).1 (unmark flag (StreamQueue.take q).0) n
unfolding count
Marked-take q flag n h m = go m.streams m.holds m.once
  where
    go :
        (xs : List ℕ)
        → Holds q xs
        → ((s : ℕ) → count s xs ≡ (if flag s then 1 else 0))
        → Marked (StreamQueue.take q).1 (unmark flag (StreamQueue.take q).0) n
    go [] (v, e) once = absurd (omega (arith, ap length e, length-pointers q))
    go (x ∷ xs) hold once =
        let (head, rest) = Holds-take q x xs hold in
        rw head (record {
          streams = xs;
          holds = rest;
          once = λ t. ground (arith, once t);
          room = omega (arith, length-take_buf q, m.room);
          fill = omega (arith, size-take q, m.fill);
        })

pub record Scheduled (n : ℕ) (o : Outgoing) : Type 0 where
  pub ctrl : Marked o.ctrl o.inctrl n
  pub bulk : Marked o.bulk o.indata n

Scheduled-later : (n : ℕ) (o : Outgoing) → Scheduled n o → Scheduled (n + 1) o
Scheduled-later n o s = record {
  ctrl = Marked-later o.ctrl o.inctrl n s.ctrl;
  bulk = Marked-later o.bulk o.indata n s.bulk;
}

add_ctrl-Scheduled :
    (n : ℕ) (o : Outgoing) (s : ℕ) → n < 2 ^ 60 → Scheduled n o → Scheduled (n + 1) (add_ctrl o s)
unfolding add_ctrl
add_ctrl-Scheduled n o s h m = elim (Bool-cases (o.inctrl s)) [
  | inl e ↦ rw e (Scheduled-later n o m)
  | inr e ↦ rw e (record {
    ctrl = Marked-push o.ctrl o.inctrl n s e h m.ctrl;
    bulk = Marked-later o.bulk o.indata n m.bulk;
  })
]

add_data-Scheduled :
    (n : ℕ) (o : Outgoing) (s : ℕ) → n < 2 ^ 60 → Scheduled n o → Scheduled (n + 1) (add_data o s)
unfolding add_data
add_data-Scheduled n o s h m = elim (Bool-cases (o.indata s)) [
  | inl e ↦ rw e (Scheduled-later n o m)
  | inr e ↦ rw e (record {
    ctrl = Marked-later o.ctrl o.inctrl n m.ctrl;
    bulk = Marked-push o.bulk o.indata n s e h m.bulk;
  })
]

-- Only the queues and the flags matter.
Scheduled-same :
    (n : ℕ) (o p : Outgoing)
    → p.ctrl ≡ o.ctrl
    → p.bulk ≡ o.bulk
    → p.inctrl ≡ o.inctrl
    → p.indata ≡ o.indata
    → Scheduled n o
    → Scheduled n p
Scheduled-same n o p a b c d m = record {
  ctrl = subst₂ (λ q f. Marked q f n) (sym a) (sym c) m.ctrl;
  bulk = subst₂ (λ q f. Marked q f n) (sym b) (sym d) m.bulk;
}

fail_with-same :
    (o : Outgoing) (e : GoError) (p : Option GoError) (n : ℕ)
    → Scheduled n o
    → Scheduled n (fail_with o e p)
unfolding fail_with
fail_with-same o e (some x) n m = m
fail_with-same o e none n m = record { ctrl = m.ctrl; bulk = m.bulk }

ping_with-same :
    (o : Outgoing) (v : List ℕ) (p : Option GoError) (n : ℕ)
    → Scheduled n o
    → Scheduled n (add_ping_queue_with o v p)
unfolding add_ping_queue_with
ping_with-same o v (some x) n m = m
ping_with-same o v none n m = record { ctrl = m.ctrl; bulk = m.bulk }

apply-Scheduled :
    (n : ℕ) (o : Outgoing) (c : Call) → n < 2 ^ 60 → Scheduled n o → Scheduled (n + 1) (apply o c)
unfolding fail add_ping_ack add_ping_queue clear_ping_queue add_settings_ack wakeup
apply-Scheduled n o (fail_call e) h m = Scheduled-later n (fail o e) (fail_with-same o e o.err n m)
apply-Scheduled n o (ping_ack v) h m =
    let l = Scheduled-later n o m in record { ctrl = l.ctrl; bulk = l.bulk }
apply-Scheduled n o (ping v) h m =
    Scheduled-later n (add_ping_queue o v) (ping_with-same o v o.err n m)
apply-Scheduled n o clear_pings h m =
    let l = Scheduled-later n o m in record { ctrl = l.ctrl; bulk = l.bulk }
apply-Scheduled n o settings_ack h m =
    let l = Scheduled-later n o m in record { ctrl = l.ctrl; bulk = l.bulk }
apply-Scheduled n o wake h m =
    let l = Scheduled-later n o m in record { ctrl = l.ctrl; bulk = l.bulk }
apply-Scheduled n o (ctrl_call s) h m = add_ctrl-Scheduled n o s h m
apply-Scheduled n o (data_call s) h m = add_data-Scheduled n o s h m

choose_with-Scheduled :
    (n : ℕ) (o : Outgoing) (e : Option GoError) (acks pings : List (List ℕ))
    → Scheduled n o
    → Scheduled n (choose_with o e acks pings).1
unfolding choose_with
choose_with-Scheduled n o (some e) acks pings m = m
choose_with-Scheduled n o none (a ∷ acks) pings m = record { ctrl = m.ctrl; bulk = m.bulk }
choose_with-Scheduled n o none [] (p ∷ pings) m = record { ctrl = m.ctrl; bulk = m.bulk }
choose_with-Scheduled n o none [] [] m = elim (Bool-cases (ltb 0 o.settings_acks)) [
  | inl s ↦ rw s (record { ctrl = m.ctrl; bulk = m.bulk })
  | inr s ↦ rw s (elim (Bool-cases (ltb 0 o.ctrl.size)) [
    | inl c ↦
        rw c (record { ctrl = Marked-take o.ctrl o.inctrl n (ltb→lt _ _ c) m.ctrl; bulk = m.bulk })
    | inr c ↦ rw c (elim (Bool-cases (ltb 0 o.bulk.size)) [
      | inl d ↦
          rw d
            (record { ctrl = m.ctrl; bulk = Marked-take o.bulk o.indata n (ltb→lt _ _ d) m.bulk })
      | inr d ↦ rw d (record { ctrl = m.ctrl; bulk = m.bulk })
    ])
  ])
]

step-Scheduled :
    (n : ℕ) (o : Outgoing) (e : Event) → n < 2 ^ 60 → Scheduled n o → Scheduled (n + 1) (step o e)
unfolding choose
step-Scheduled n o (call c) h m = apply-Scheduled n o c h m
step-Scheduled n o round h m =
    Scheduled-later n (choose o).1 (choose_with-Scheduled n o o.err o.ping_acks o.ping_queue m)

run-Scheduled :
    (events : List Event) (n : ℕ) (o : Outgoing)
    → n + length events ≤ 2 ^ 60
    → Scheduled n o
    → Scheduled (n + length events) (run o events)
unfolding run
run-Scheduled [] n o h m = rw add-zero m
run-Scheduled (e ∷ rest) n o h m =
    let shift : n + 1 + length rest ≡ n + length (e ∷ rest) = omega arith in
    subst (λ k. Scheduled k (run (step o e) rest)) shift
      (run-Scheduled rest (n + 1) (step o e) (omega arith) (step-Scheduled n o e (omega arith) m))

-- After any interleaving of at most 2^60 calls and rounds from a new connection on, each of the two
-- queues holds exactly the streams whose flag is set, and each of them once.
pub queues_match_flags :
    (events : List Event) → length events ≤ 2 ^ 60 → Scheduled (length events) (run start events)
unfolding count
queues_match_flags events h =
    subst (λ k. Scheduled k (run start events)) (omega arith)
      (run-Scheduled events 0 start (omega arith) (record { ctrl = nothing; bulk = nothing }))
  where
    nothing : Marked StreamQueue.empty (λ s. false) 0
    nothing = record {
      streams = [];
      holds = (omega arith, unfold window tabulate in refl);
      once = λ s. refl;
      room = omega arith;
      fill = omega arith;
    }
