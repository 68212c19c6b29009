-- ===== src/Watch/View.antt =====
-- A reader that applies the changes it reads comes to know exactly the services of the server.
use copper.Prelude.{
  ℕ, zero, suc, ◌+◌, ◌-◌, ◌*◌, ◌≤◌, ◌≡◌, refl, ap, sym, ◌∙◌, arith, List, [], ◌∷◌, length, take,
  drop, length-drop, length-take, Bool, true, false, ◌==◌, ltb, leb, if◌then◌else◌, none, some,
}
use copper.Prelude.Counts.{count, count-erase, count-include}
use copper.Watch.{
  Service, Services, Watch, new_watch, add_removed, add_changed, erase_all, include_all, describe,
  Reading, finished, batch, waiting, read, max_changed_services_batch,
}
use copper.Watch.Batch.{
  count-split, none_removed, forget_all, learn_all, is_some, count-erase_all, count-include_all,
  forget_all_lem, learn_all-describe, still_changed, sent_known, all_known,
}

-- The server, the stream and the reader.
pub record Link : Type 0 where
  pub services : Services
  pub watch : Watch
  pub view : Services

pub data Event : Type 0 where
  -- a publication is new or changed, or is gone
  published : ℕ → Service → Event
  unpublished : ℕ → Event
  reads : Event

abbrev pub after_read : Link → Reading → Link
after_read l finished = l
after_read l waiting = l
after_read l (batch c w) = record l {
  watch = w;
  view = learn_all (forget_all l.view c.removed) c.changed;
}

unfoldable pub step : Link → Event → Link
step l (published t v) = record l {
  services = λ u. if u == t then some v else l.services u;
  watch = add_changed l.watch t;
}
step l (unpublished t) = record l {
  services = λ u. if u == t then none else l.services u;
  watch = add_removed l.watch t;
}
step l reads = after_read l (read l.services l.watch)

unfoldable pub run : Link → List Event → Link
unfolding step
run l [] = l
run l (e ∷ rest) = run (step l e) rest

-- What holds for target `t`: it is pending once at most, as changed only if it is published, as
-- removed only if it is not; what was sent is what the reader knows; and what is not pending is
-- known as it is.
pub record Knows (l : Link) (t : ℕ) : Type 0 where
  pub is_open : l.watch.closed ≡ false
  pub changed : leb (count t l.watch.changed) (if is_some (l.services t) then 1 else 0) ≡ true
  pub removed : leb (count t l.watch.removed) (if is_some (l.services t) then 0 else 1) ≡ true
  pub sent : ltb 0 (count t l.watch.sent) ≡ is_some (l.view t)
  pub known :
      (if ltb 0 (count t l.watch.changed + count t l.watch.removed) then l.services t else l.view t)
      ≡ l.services t

published-Knows :
    (l : Link) (u : ℕ) (v : Service) (t : ℕ) → Knows l t → Knows (step l (published u v)) t
unfolding step add_changed
published-Knows l u v t k =
    ground (arith, count-erase t u l.watch.removed, count-include t u l.watch.changed)

unpublished-Knows : (l : Link) (u t : ℕ) → Knows l t → Knows (step l (unpublished u)) t
unfolding step add_removed
unpublished-Knows l u t k =
    ground (arith, count-erase t u l.watch.changed, count-include t u l.watch.removed)

-- The batch that a read returns, and the link after it.
abbrev next_batch : Link → Reading
next_batch l =
    let w = l.watch in
    let now = take max_changed_services_batch w.changed in
    batch (record { removed = w.removed; changed = describe l.services now })
      (record w {
        sent = include_all now (erase_all w.removed w.sent);
        removed = [];
        changed = drop max_changed_services_batch w.changed;
      })

abbrev delivered : Link → Link
delivered l = after_read l (next_batch l)

module _ (l : Link) (t : ℕ) (k : Knows l t) where
  now_count : ℕ
  now_count = count t (take max_changed_services_batch l.watch.changed)

  delivered_view : (delivered l).view t ≡ (
      if ltb 0 now_count
      then l.services t
      else if ltb 0 (count t l.watch.removed)
      then none
      else l.view t)
  unfolding now_count
  delivered_view =
      let now = take max_changed_services_batch l.watch.changed in
      learn_all-describe l.services (forget_all l.view l.watch.removed) now t
      ∙ ap (λ v. if ltb 0 (count t now) then l.services t else v)
          (forget_all_lem l.view l.watch.removed t)

  delivered_sent :
      ltb 0 (count t (delivered l).watch.sent)
      ≡ ltb 0 (now_count + (if ltb 0 (count t l.watch.removed) then 0 else count t l.watch.sent))
  unfolding now_count
  delivered_sent =
      let now = take max_changed_services_batch l.watch.changed in
      count-include_all t now (erase_all l.watch.removed l.watch.sent)
      ∙ ap (λ n. ltb 0 (count t now + n)) (count-erase_all t l.watch.removed l.watch.sent)

  split : now_count + count t (delivered l).watch.changed ≡ count t l.watch.changed
  unfolding now_count
  split = count-split t max_changed_services_batch l.watch.changed

  delivered-Knows : Knows (delivered l) t
  unfolding count
  delivered-Knows = record {
    is_open = k.is_open;
    changed = still_changed (l.services t) _ _ _ split k.changed;
    removed = none_removed (l.services t);
    sent =
        delivered_sent
        ∙ sent_known (l.services t) (l.view t) _ _ _ _ _ split k.changed k.removed k.sent k.known
        ∙ ap is_some (sym delivered_view);
    known =
        ap (λ v. if ltb 0 (count t (delivered l).watch.changed + 0) then l.services t else v)
          delivered_view
        ∙ all_known (l.services t) (l.view t) _ _ _ _ split k.changed k.removed k.known;
  }

-- A read of an open stream is a batch or waits for one.
read_cases :
    (P : Link → Type 0) (l : Link)
    → l.watch.closed ≡ false
    → P (delivered l)
    → (length l.watch.removed + length (take max_changed_services_batch l.watch.changed) ≡ 0 → P l)
    → P (step l reads)
unfolding step read
read_cases P l o d w =
    by_tests l.watch.closed
      (ltb 0 (length l.watch.removed + length (take max_changed_services_batch l.watch.changed))) o
      refl
  where
    by_tests :
        (b c : Bool)
        → b ≡ false
        → ltb 0 (length l.watch.removed + length (take max_changed_services_batch l.watch.changed))
          ≡ c
        → P (after_read l (if b then finished else (if c then next_batch l else waiting)))
    by_tests true c e h = absurd (cc)
    by_tests false true e h = d
    by_tests false false e h = w (ground (arith, h))

reads-Knows : (l : Link) (t : ℕ) → Knows l t → Knows (step l reads) t
reads-Knows l t k = read_cases (λ m. Knows m t) l k.is_open (delivered-Knows l t k) (λ e. k)

pub step-Knows : (l : Link) (e : Event) (t : ℕ) → Knows l t → Knows (step l e) t
step-Knows l (published u v) t k = published-Knows l u v t k
step-Knows l (unpublished u) t k = unpublished-Knows l u t k
step-Knows l reads t k = reads-Knows l t k

run-Knows : (events : List Event) (l : Link) (t : ℕ) → Knows l t → Knows (run l events) t
unfolding run
run-Knows [] l t k = k
run-Knows (e ∷ rest) l t k = run-Knows rest (step l e) t (step-Knows l e t k)

-- A stream that is opened while the server has the services of `targets`.
abbrev pub opened : Services → List ℕ → Link
opened services targets = record {
  services = services;
  watch = new_watch targets;
  view = λ t. none;
}

-- `targets` lists the services, each once.
abbrev pub Lists : Services → List ℕ → Type 0
Lists services targets = (t : ℕ) → count t targets ≡ (if is_some (services t) then 1 else 0)

pub opened-Knows :
    (services : Services) (targets : List ℕ) (t : ℕ)
    → Lists services targets
    → Knows (opened services targets) t
unfolding new_watch count
opened-Knows services targets t h = ground (arith, h t)

-- From the opening of a stream on, which lists each service once, whatever is published, changed and
-- withdrawn, and whenever the reader reads: once nothing is pending, what the reader knows of each
-- target is what the server has, so that a withdrawn service is forgotten.
pub view-eq-services :
    (services : Services) (targets : List ℕ) (events : List Event) (t : ℕ)
    → Lists services targets
    → (run (opened services targets) events).watch.changed ≡ []
    → (run (opened services targets) events).watch.removed ≡ []
    → (run (opened services targets) events).view t
      ≡ (run (opened services targets) events).services t
unfolding count
view-eq-services services targets events t h c r =
    let k = run-Knows events (opened services targets) t (opened-Knows services targets t h) in
    ground (arith, k.known, c, r)

abbrev pub reads_only : ℕ → List Event
reads_only zero = []
reads_only (suc n) = reads ∷ reads_only n

-- A read leaves an open stream with nothing to remove, and 256 changes fewer.
abbrev Shorter : Link → Link → Type 0
Shorter l m =
    (m.watch.closed ≡ false)
    × (m.watch.removed ≡ [])
    × (length m.watch.changed ≡ length l.watch.changed - 256)

length_zero : (xs : List ℕ) → length xs ≡ 0 → xs ≡ []
length_zero [] h = refl
length_zero (x ∷ xs) h = absurd (omega arith)

reads-Shorter : (l : Link) → l.watch.closed ≡ false → Shorter l (step l reads)
reads-Shorter l o =
    read_cases (Shorter l) l o (o, refl, length-drop 256 l.watch.changed)
      (λ e. (
        o,
        length_zero l.watch.removed (omega (arith, e)),
        omega (arith, e, length-take 256 l.watch.changed),
      ))

-- A reader that keeps reading comes to the end of what is pending: `n` reads, at least one, return
-- all the removals and up to 256 changes each.
pub reads_drain :
    (n : ℕ) (l : Link)
    → l.watch.closed ≡ false
    → length l.watch.changed ≤ 256 * suc n
    → ((run l (reads_only (suc n))).watch.changed ≡ [])
      × ((run l (reads_only (suc n))).watch.removed ≡ [])
unfolding run
reads_drain zero l o h =
    let s = reads-Shorter l o in
    (length_zero (step l reads).watch.changed (omega (arith, s.2)), s.1)
reads_drain (suc n) l o h =
    let s = reads-Shorter l o in reads_drain n (step l reads) s.0 (omega (arith, s.2))
