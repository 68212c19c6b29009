-- ===== src/Pings/Once.antt =====
-- How often the callbacks of rawconn_pings.go are called, over any sequence of `addPing`, `handleAck`
-- and `fail`.
use copper.Prelude.{
  ℕ, ◌+◌, ◌≡◌, refl, ap, arith, List, [], ◌∷◌, ◌++◌, Bool, true, false, ◌==◌, if◌then◌else◌, Option,
  none, some, Bool-cases, inl, inr,
}
use copper.Prelude.Counts.{count, count-last}
use copper.Errors.{GoError}
use copper.Outgoing.{Outgoing, start}
use copper.Stream.{is_none}
use copper.Pings
use copper.Pings.{
  Pings, Waiting, Called, same, callbacks, store, delete, call_all, call_map, add_ping,
  add_ping_with, handle_ack, handle_ack_with,
}
use copper.Pings.Replies.{same_refl, same→eq}

-- How often a callback waits, and how often it was called.
unfoldable pub waiting : ℕ → Waiting → ℕ
unfolding count
waiting c [] = 0
waiting c ((k, cs) ∷ rest) = count c cs + waiting c rest

unfoldable pub called : ℕ → List Called → ℕ
called c [] = 0
called c ((d, e) ∷ rest) = (if c == d then 1 else 0) + called c rest

-- A key stands in a map once at most.
has : Waiting → List ℕ → Bool
has [] key = false
has ((k, cs) ∷ rest) key = if same k key then true else has rest key

distinct : Waiting → Bool
unfolding has
distinct [] = true
distinct ((k, cs) ∷ rest) = if has rest k then false else distinct rest

same_sym : (xs ys : List ℕ) → same xs ys ≡ false → same ys xs ≡ false
same_sym xs ys h = ground (arith, same→eq ys xs, same_refl xs)

waiting-store :
    (c : ℕ) (m : Waiting) (key value : List ℕ)
    → count c (callbacks m key) + waiting c (store m key value) ≡ count c value + waiting c m
unfolding waiting callbacks store count
waiting-store c [] key value = omega arith
waiting-store c ((k, cs) ∷ rest) key value = ground (arith, waiting-store c rest key value)

has-store :
    (m : Waiting) (key value other : List ℕ)
    → same key other ≡ false
    → has (store m key value) other ≡ has m other
unfolding has store
has-store [] key value other h = ground arith
has-store ((k, cs) ∷ rest) key value other h =
    ground (arith, has-store rest key value other h, same→eq k key)

distinct-store :
    (m : Waiting) (key value : List ℕ) → distinct m ≡ true → distinct (store m key value) ≡ true
unfolding distinct store has
distinct-store [] key value h = refl
distinct-store ((k, cs) ∷ rest) key value h =
    ground (arith, distinct-store rest key value, has-store rest key value k, same_sym k key)

delete_missing : (m : Waiting) (key : List ℕ) → has m key ≡ false → delete m key ≡ m
unfolding has delete
delete_missing [] key h = refl
delete_missing ((k, cs) ∷ rest) key h = ground (arith, delete_missing rest key)

has-delete :
    (m : Waiting) (key other : List ℕ) → has m other ≡ false → has (delete m key) other ≡ false
unfolding has delete
has-delete [] key other h = refl
has-delete ((k, cs) ∷ rest) key other h = ground (arith, has-delete rest key other)

distinct-delete : (m : Waiting) (key : List ℕ) → distinct m ≡ true → distinct (delete m key) ≡ true
unfolding distinct delete has
distinct-delete [] key h = refl
distinct-delete ((k, cs) ∷ rest) key h =
    ground (arith, distinct-delete rest key, has-delete rest key k)

waiting-delete :
    (c : ℕ) (m : Waiting) (key : List ℕ)
    → distinct m ≡ true
    → count c (callbacks m key) + waiting c (delete m key) ≡ waiting c m
unfolding waiting callbacks delete count distinct
waiting-delete c [] key h = refl
waiting-delete c ((k, cs) ∷ rest) key h =
    ground (arith, waiting-delete c rest key, same→eq k key, delete_missing rest key)

called-append : (c : ℕ) (xs ys : List Called) → called c (xs ++ ys) ≡ called c xs + called c ys
unfolding called
called-append c [] ys = omega arith
called-append c (x ∷ xs) ys = omega (arith, called-append c xs ys)

called-call_all : (c : ℕ) (cs : List ℕ) (e : GoError) → called c (call_all cs e) ≡ count c cs
unfolding called call_all count
called-call_all c [] e = refl
called-call_all c (d ∷ cs) e = omega (arith, called-call_all c cs e)

called-call_map : (c : ℕ) (m : Waiting) (e : GoError) → called c (call_map m e) ≡ waiting c m
unfolding called call_map waiting
called-call_map c [] e = refl
called-call_map c ((k, cs) ∷ rest) e = omega (
  arith,
  called-append c (call_all cs e) (call_map rest e),
  called-call_all c cs e,
  called-call_map c rest e,
)

-- A run from a new connection on: `accepted` are the callbacks for which `addPing` returned nil.
pub data Event : Type 0 where
  ping : List ℕ → ℕ → Event
  ack : List ℕ → Event
  failed : GoError → Event

pub record Run : Type 0 where
  pub pings : Pings
  pub outgoing : Outgoing
  pub accepted : List ℕ
  pub calls : List Called

abbrev pub new_run : Run
new_run = record { pings = Pings.init; outgoing = start; accepted = []; calls = [] }

abbrev after_ping : Run → ℕ → Option GoError × Pings × Outgoing → Run
after_ping r c (e, p, o) = record r {
  pings = p;
  outgoing = o;
  accepted = if is_none e then r.accepted ++ (c ∷ []) else r.accepted;
}

abbrev after_ack : Run → List Called × Pings → Run
after_ack r (calls, p) = record r { pings = p; calls = r.calls ++ calls }

abbrev after_fail : Run → List Called × Pings × Outgoing → Run
after_fail r (calls, p, o) = record r { pings = p; outgoing = o; calls = r.calls ++ calls }

unfoldable pub step : Run → Event → Run
unfolding add_ping handle_ack Pings.fail
step r (ping key c) = after_ping r c (add_ping r.pings r.outgoing key c)
step r (ack key) = after_ack r (handle_ack r.pings key)
step r (failed e) = after_fail r (Pings.fail r.pings r.outgoing e)

unfoldable pub run : Run → List Event → Run
unfolding step
run r [] = r
run r (e ∷ rest) = run (step r e) rest

-- The books of the callbacks, and what a failure leaves.
pub record Settled (r : Run) : Type 0 where
  pub balance : (c : ℕ) → called c r.calls + waiting c r.pings.pings ≡ count c r.accepted
  pub ended : is_none r.pings.err ≡ false → r.pings.pings ≡ []
  distinct_keys : distinct r.pings.pings ≡ true

ping-Settled : (r : Run) (key : List ℕ) (c : ℕ) → Settled r → Settled (step r (ping key c))
unfolding step add_ping add_ping_with
ping-Settled r key c s = by_error r.pings.err refl
  where
    by_error :
        (e : Option GoError)
        → r.pings.err ≡ e
        → Settled (after_ping r c (add_ping_with r.pings r.outgoing key c e))
    by_error (some e) h = record {
      balance = s.balance;
      ended = s.ended;
      distinct_keys = s.distinct_keys;
    }
    by_error none h =
        let old = callbacks r.pings.pings key in
        record {
          balance = λ d. omega (
            arith,
            s.balance d,
            waiting-store d r.pings.pings key (old ++ (c ∷ [])),
            count-last d old c,
            count-last d r.accepted c,
          );
          ended = λ f. absurd (ground (arith, f, h));
          distinct_keys = distinct-store r.pings.pings key (old ++ (c ∷ [])) s.distinct_keys;
        }

no_callbacks : (m : Waiting) (key : List ℕ) → m ≡ [] → callbacks m key ≡ []
unfolding callbacks
no_callbacks m key h = rw h refl

ack-Settled : (r : Run) (key : List ℕ) → Settled r → Settled (step r (ack key))
unfolding step handle_ack handle_ack_with called count callbacks waiting
ack-Settled r key s = by_callbacks (callbacks r.pings.pings key) refl
  where
    by_callbacks :
        (cs : List ℕ)
        → callbacks r.pings.pings key ≡ cs
        → Settled (after_ack r (handle_ack_with r.pings key cs))
    by_callbacks [] h = record {
      balance = λ d. omega (arith, s.balance d, called-append d r.calls []);
      ended = s.ended;
      distinct_keys = s.distinct_keys;
    }
    by_callbacks (c ∷ []) h = record {
      balance = λ d. omega (
        arith,
        s.balance d,
        called-append d r.calls ((c, none) ∷ []),
        waiting-delete d r.pings.pings key s.distinct_keys,
        ap (count d) h,
      );
      ended = λ f. absurd (let n = no_callbacks r.pings.pings key (s.ended f) in cc (h, n));
      distinct_keys = distinct-delete r.pings.pings key s.distinct_keys;
    }
    by_callbacks (c ∷ b ∷ cs) h = record {
      balance = λ d. omega (
        arith,
        s.balance d,
        called-append d r.calls ((c, none) ∷ []),
        waiting-store d r.pings.pings key (b ∷ cs),
        ap (count d) h,
      );
      ended = λ f. absurd (let n = no_callbacks r.pings.pings key (s.ended f) in cc (h, n));
      distinct_keys = distinct-store r.pings.pings key (b ∷ cs) s.distinct_keys;
    }

fail-Settled : (r : Run) (e : GoError) → Settled r → Settled (step r (failed e))
unfolding step Pings.fail waiting distinct
fail-Settled r e s = record {
  balance = λ d. omega (
    arith,
    s.balance d,
    called-append d r.calls (call_map r.pings.pings e),
    called-call_map d r.pings.pings e,
  );
  ended = λ f. refl;
  distinct_keys = refl;
}

step-Settled : (r : Run) (e : Event) → Settled r → Settled (step r e)
step-Settled r (ping key c) s = ping-Settled r key c s
step-Settled r (ack key) s = ack-Settled r key s
step-Settled r (failed e) s = fail-Settled r e s

run_steps : (events : List Event) (r : Run) → Settled r → Settled (run r events)
unfolding run
run_steps [] r s = s
run_steps (e ∷ rest) r s = run_steps rest (step r e) (step-Settled r e s)

start-Settled : Settled new_run
unfolding waiting distinct called count
start-Settled = record { balance = λ c. refl; ended = λ f. refl; distinct_keys = refl }

-- Over any sequence of pings, replies and failures from a new connection on, a callback was called
-- once for each time that `addPing` accepted it, less the times that it still waits for its reply; once
-- the pings have failed, none waits, so what was accepted was called.
pub pings_called_once :
    (events : List Event) (c : ℕ)
    → let r = run new_run events in
      called c r.calls + (if is_none r.pings.err then waiting c r.pings.pings else 0)
      ≡ count c r.accepted
unfolding waiting
pings_called_once events c =
    let r = run new_run events in
    let s = run_steps events new_run start-Settled in
    elim (Bool-cases (is_none r.pings.err)) [
      | inl h ↦ rw h (s.balance c)
      | inr h ↦ rw h (omega (arith, s.balance c, ap (waiting c) (s.ended h)))
    ]
