-- ===== src/Clients/Release.antt =====
-- What a client was given is given back: nothing is lost and nothing is released twice.
use copper.Prelude.{
  ℕ, ◌≤◌, ◌<◌, ◌+◌, ◌≡◌, sym, refl, arith, List, [], ◌∷◌, ◌++◌, Bool, true, false, ◌==◌, ltb,
  Option, none, some, Bool-cases, inl, inr,
}
use mathlib.Core.Path.{subst}
use copper.Prelude.Assoc.{
  lookup, insert, delete, values, keys, found_is, count-keys-delete, count-values-delete,
}
use copper.Prelude.Counts.{count, erase}
use copper.Errors.{GoError}
use copper.Publication.{PublishSettings}
use copper.Subscription.{SubscribeOption}
use copper.Clients.{
  Client, new_client, subscribe, unsubscribe, publish, unpublish, stream_services, stop_stream,
  close_with_error, fail_endpoint, is_published, unpublish_endpoint,
}
use copper.Clients.Calls.{
  Call, subscribe_call, unsubscribe_call, unpublish_call, watch_call, stop_call, publish_call,
  close_call, request_failed, Run, step, run, is_new, all_new,
}
use copper.Clients.Balance.{
  Balanced, included, erased, released_all, none_given, Tracked, none-Tracked, Tracked-new,
  Tracked-gone, Tracked-dropped, Tracked-all,
}

abbrev pub Emptied : Client → Option GoError → Type 0
Emptied c none = Unit
Emptied c (some e) =
    (c.connected ≡ false) × (c.subscriptions ≡ []) × (c.published ≡ []) × (c.watchers ≡ [])

-- What a client keeps is accounted for, and a client with a failure keeps nothing.
pub record Accounted (r : Run) : Type 0 where
  pub subscriptions : Balanced r.subscriptions r.client.subscriptions r.client.unsubscribed
  pub endpoints : Tracked r.endpoints (values r.client.published) r.client.unpublished
  pub watchers : Balanced r.watchers r.client.watchers r.client.stopped
  pub targets : (t : ℕ) → count t (keys r.client.published) ≤ 1
  pub emptied : Emptied r.client r.client.failure

no_target : (t : ℕ) → count t [] ≤ 1
unfolding count
no_target t = omega arith

-- Without a failure nothing has to be empty.
open-Emptied : (c : Client) → c.failure ≡ none → Emptied c c.failure
open-Emptied c g = subst (Emptied c) (sym g) tt

module _ (r : Run) (a : Accounted r) where
  subscribed :
      (os : List SubscribeOption) (s : ℕ)
      → count s r.subscriptions ≡ 0
      → (f : Option GoError) → r.client.failure ≡ f
      → Accounted (step r (subscribe_call os s))
  unfolding step
  subscribed os s h (some e) g = simp (subscribe, g) a
  subscribed [] s h none g = simp (subscribe, g) a
  subscribed (o ∷ os) s h none g =
      simp (subscribe, g)
        (record {
          subscriptions =
              included s r.subscriptions r.client.subscriptions r.client.unsubscribed
                a.subscriptions h;
          endpoints = a.endpoints;
          watchers = a.watchers;
          targets = a.targets;
          emptied = tt;
        })

  unsubscribed :
      (t : ℕ) (f : Option GoError) → r.client.failure ≡ f → Accounted (step r (unsubscribe_call t))
  unfolding step
  unsubscribed t (some e) g = simp (unsubscribe, g) a
  unsubscribed t none g = elim (Bool-cases (ltb 0 (count t r.client.subscriptions))) [
    | inl b ↦
        simp (unsubscribe, g, b)
          (record {
            subscriptions =
                erased t r.subscriptions r.client.subscriptions r.client.unsubscribed
                  a.subscriptions b;
            endpoints = a.endpoints;
            watchers = a.watchers;
            targets = a.targets;
            emptied = tt;
          })
    | inr b ↦ simp (unsubscribe, g, b) a
  ]

  watched :
      (w : ℕ)
      → count w r.watchers ≡ 0
      → (f : Option GoError) → r.client.failure ≡ f
      → Accounted (step r (watch_call w))
  unfolding step
  watched w h (some e) g = simp (stream_services, g) a
  watched w h none g =
      simp (stream_services, g)
        (record {
          subscriptions = a.subscriptions;
          endpoints = a.endpoints;
          watchers = included w r.watchers r.client.watchers r.client.stopped a.watchers h;
          targets = a.targets;
          emptied = tt;
        })

  stopped : (w : ℕ) (f : Option GoError) → r.client.failure ≡ f → Accounted (step r (stop_call w))
  unfolding step count
  stopped w (some f) g =
      let em : Emptied r.client (some f) = subst (Emptied r.client) g a.emptied in
      let b : ltb 0 (count w r.client.watchers) ≡ false = rw em.3 refl in simp (stop_stream, b) a
  stopped w none g = elim (Bool-cases (ltb 0 (count w r.client.watchers))) [
    | inl b ↦
        simp (stop_stream, b)
          (record {
            subscriptions = a.subscriptions;
            endpoints = a.endpoints;
            watchers = erased w r.watchers r.client.watchers r.client.stopped a.watchers b;
            targets = a.targets;
            emptied =
                open-Emptied
                  (record r.client {
                    watchers = erase w r.client.watchers;
                    stopped = r.client.stopped ++ (w ∷ []);
                  })
                  g;
          })
    | inr b ↦ simp (stop_stream, b) a
  ]

  closed :
      (e : GoError) (f : Option GoError) → r.client.failure ≡ f → Accounted (step r (close_call e))
  unfolding step
  closed e (some f) g = simp (close_with_error, g) a
  closed e none g =
      simp (close_with_error, g)
        (record {
          subscriptions =
              released_all r.subscriptions r.client.subscriptions r.client.unsubscribed
                a.subscriptions;
          endpoints =
              Tracked-all r.endpoints (values r.client.published) r.client.unpublished a.endpoints;
          watchers = released_all r.watchers r.client.watchers r.client.stopped a.watchers;
          targets = λ t. omega arith;
          emptied = (refl, refl, refl, refl);
        })

  failed-Emptied :
      (gone : List ℕ) (f : Option GoError)
      → Emptied r.client f
      → Emptied (record r.client { unpublished = gone }) f
  failed-Emptied gone none h = tt
  failed-Emptied gone (some e) h = h

  endpoint_failed : (e : ℕ) → Accounted (step r (request_failed e))
  unfolding step
  endpoint_failed e = elim (Bool-cases (ltb 0 (count e r.endpoints))) [
    | inr b ↦ rw b a
    | inl b ↦
        simp (b, fail_endpoint)
          (record {
            subscriptions = a.subscriptions;
            endpoints =
                Tracked-gone e r.endpoints (values r.client.published) r.client.unpublished
                  a.endpoints (ground (arith, b));
            watchers = a.watchers;
            targets = a.targets;
            emptied =
                failed-Emptied (unpublish_endpoint r.client.unpublished e) r.client.failure
                  a.emptied;
          })
  ]

  unpublished :
      (t : ℕ) (f : Option GoError)
      → r.client.failure ≡ f
      → (o : Option ℕ) → lookup r.client.published t ≡ o
      → Accounted (step r (unpublish_call t))
  unfolding step
  unpublished t (some e) g o h = simp (unpublish, g) a
  unpublished t none g none h = simp (unpublish, g, h) a
  unpublished t none g (some e) h =
      simp (unpublish, g, h)
        (record {
          subscriptions = a.subscriptions;
          endpoints =
              Tracked-dropped e r.endpoints (values r.client.published) r.client.unpublished
                (values (delete r.client.published t)) a.endpoints
                (λ y. ground (arith, count-values-delete r.client.published t y (a.targets t), h));
          watchers = a.watchers;
          targets = λ s. ground (arith, count-keys-delete r.client.published t s, a.targets s);
          emptied = tt;
        })

  granted :
      (t : ℕ) (v : PublishSettings) (err : Option GoError) (x : ℕ) (o : Option ℕ)
      → count x r.endpoints ≡ 0
      → r.client.failure ≡ none
      → lookup r.client.published t ≡ o
      → is_published r.client o ≡ false
      → r.client.allow_changes ≡ true
      → (v.concurrency == 0) ≡ false
      → Accounted (step r (publish_call t v err x))
  unfolding step
  granted t v (some e) x o n g h q b z = simp (publish, g, b, h, q, z) a
  granted t v none x o n g h q b z =
      simp (publish, g, b, h, q, z)
        (record {
          subscriptions = a.subscriptions;
          endpoints =
              Tracked-new x r.endpoints (values r.client.published) r.client.unpublished
                (values (insert r.client.published t x)) o a.endpoints n (old_gone o q)
                (λ y.
                  (let w =
                      subst
                        (λ q.
                          count y (values (delete r.client.published t)) + found_is q y
                          ≡ count y (values r.client.published))
                        h (count-values-delete r.client.published t y (a.targets t)) in
                    omega (arith, w)));
          watchers = a.watchers;
          targets = λ s. ground (arith, count-keys-delete r.client.published t s, a.targets s);
          emptied = tt;
        })
    where
      old_gone :
          (o : Option ℕ)
          → is_published r.client o ≡ false
          → (e : ℕ) → o ≡ some e
          → 0 < count e r.client.unpublished
      old_gone none q e h = absurd (grind (arith, h))
      old_gone (some d) q e h =
          let m : 0 < count d r.client.unpublished = ground (arith, q) in grind (arith, m, h)

  published :
      (t : ℕ) (v : PublishSettings) (error : Option GoError) (x : ℕ)
      → count x r.endpoints ≡ 0
      → (f : Option GoError) → r.client.failure ≡ f
      → (o : Option ℕ) → lookup r.client.published t ≡ o
      → Accounted (step r (publish_call t v error x))
  unfolding step
  published t v error x n (some e) g o h = simp (publish, g) a
  published t v error x n none g o h = elim (Bool-cases r.client.allow_changes) [
    | inr b ↦ simp (publish, g, b) a
    | inl b ↦ elim (Bool-cases (is_published r.client o)) [
      | inl q ↦ simp (publish, g, b, h, q) a
      | inr q ↦ elim (Bool-cases (v.concurrency == 0)) [
        | inl z ↦ simp (publish, g, b, h, q, z) a
        | inr z ↦ granted t v error x o n g h q b z
      ]
    ]
  ]

step-Accounted : (r : Run) (e : Call) → Accounted r → is_new r e ≡ true → Accounted (step r e)
step-Accounted r (subscribe_call os s) a h =
    subscribed r a os s (ground (arith, h)) r.client.failure refl
step-Accounted r (unsubscribe_call t) a h = unsubscribed r a t r.client.failure refl
step-Accounted r (publish_call t v error x) a h =
    published r a t v error x (ground (arith, h)) r.client.failure refl
      (lookup r.client.published t) refl
step-Accounted r (unpublish_call t) a h =
    unpublished r a t r.client.failure refl (lookup r.client.published t) refl
step-Accounted r (watch_call w) a h = watched r a w (ground (arith, h)) r.client.failure refl
step-Accounted r (stop_call w) a h = stopped r a w r.client.failure refl
step-Accounted r (request_failed e) a h = endpoint_failed r a e
step-Accounted r (close_call e) a h = closed r a e r.client.failure refl

run_from : (es : List Call) (r : Run) → Accounted r → all_new r es ≡ true → Accounted (run r es)
unfolding run all_new
run_from [] r a h = a
run_from (e ∷ rest) r a h =
    run_from rest (step r e) (step-Accounted r e a (ground (arith, h))) (ground (arith, h))

abbrev pub new_run : Bool → Run
new_run allow_changes = record {
  client = new_client allow_changes;
  subscriptions = [];
  endpoints = [];
  watchers = [];
}

-- After any calls of a client and any failures of requests to its endpoints, where the server makes
-- for each call a target id, endpoint or stream that it did not make for this client before: every
-- subscription and stream that a call returned is either kept or was released, once and not both;
-- every endpoint was unpublished at most once, by the client or for a failed request, and is kept if
-- it was not, so that a publication that replaces another never loses a published endpoint; no target
-- id is kept twice; and if the client has failed then its connection was closed and it keeps nothing,
-- so that all of them were released or unpublished.
pub run-Accounted :
    (allow_changes : Bool) (es : List Call)
    → all_new (new_run allow_changes) es ≡ true
    → Accounted (run (new_run allow_changes) es)
run-Accounted allow_changes es h = run_from es (new_run allow_changes) start h
  where
    start : Accounted (new_run allow_changes)
    start = record {
      subscriptions = none_given;
      endpoints = none-Tracked;
      watchers = none_given;
      targets = λ t. no_target t;
      emptied = tt;
    }
