-- ===== src/Peers/Across.antt =====
-- What a server publishes, the peer of another server comes to know through the stream of changes.
use copper.Prelude.{
  ℕ, ◌+◌, ◌<◌, leb, ◌≡◌, refl, ap, ◌∙◌, arith, List, [], ◌∷◌, Bool, map, length, take, true, false,
  ◌==◌, ltb, if◌then◌else◌, Option, none, some, Bool-cases, inl, inr,
}
use mathlib.Core.Path.{subst}
use copper.Prelude.Counts.{count}
use copper.Watch.{
  Service, Services, describe, Reading, finished, batch, waiting, read, max_changed_services_batch,
}
use copper.Watch.Batch.{forget_all, learn_all, forget_all_lem, is_some, count-split}
use copper.Watch.View
use copper.Watch.View.{
  Link, Event, published, unpublished, reads, after_read, Knows, step-Knows, opened, opened-Knows,
  Lists,
}
use copper.Peers.{Remote, Peer, process_changes}
use copper.Peers.Knowledge.{known}
use copper.Peers.Reader
use copper.Peers.Pair.{
  Pair, Happening, served, request_failed, told, peer_reads, told_again, lost_after_batch, lose,
  step, run, hide, connected,
}
use copper.Peers.Reader.{
  Reader, offered, follow, reachable, new_peer, new_reader, lost_target, forget, fail_made,
}
use copper.Peers.Mirror.{Mirrors, Idle, step-Mirrors, start}

told-describe :
    (services : Services) (ts : List ℕ)
    → ((t : ℕ) → 0 < count t ts → is_some (services t) ≡ true)
    → map offered (told (describe services ts)) ≡ describe services ts
unfolding count
told-describe services [] h = refl
told-describe services (t ∷ ts) h =
    by_service (services t) refl (told-describe services ts (λ s c. h s (ground (arith, c))))
  where
    by_service :
        (o : Option Service)
        → services t ≡ o
        → map offered (told (describe services ts)) ≡ describe services ts
        → map offered (told ((t, services t) ∷ describe services ts))
          ≡ (t, services t) ∷ describe services ts
    by_service (some v) e ih = rw e (ap ((t, some v) ∷◌) ih)
    by_service none e ih = absurd (let q = h t (ground arith) in grind (arith, q, e))

abbrev Told : Reading → Type 0
Told finished = Unit
Told waiting = Unit
Told (batch ch w) = map offered (told ch.changed) ≡ ch.changed

listed_some :
    (v : Option Service) (now later total : ℕ)
    → leb total (if is_some v then 1 else 0) ≡ true
    → now + later ≡ total
    → 0 < now
    → is_some v ≡ true
listed_some (some v) now later total a b c = refl
listed_some none now later total a b c = absurd (ground (arith, a, b, c))

-- What is read is told in full, since nothing that was withdrawn is among the changes.
read-Told : (l : Link) → ((t : ℕ) → Knows l t) → Told (read l.services l.watch)
unfolding read
read-Told l k =
    let now = take max_changed_services_batch l.watch.changed in
    let all = told-describe l.services now (λ t c.
      listed_some (l.services t) (count t now) _ _ (k t).changed
        (count-split t max_changed_services_batch l.watch.changed) c) in
    elim (Bool-cases l.watch.closed) [
      | inl o ↦ rw o tt
      | inr o ↦ elim (Bool-cases (ltb 0 (length l.watch.removed + length now))) [
        | inl b ↦ rw (o, b) all
        | inr b ↦ rw (o, b) tt
      ]
    ]

abbrev reading : ℕ → Services → Reader
reading c view = record { client = some c; failed = false; view = view }

follow-reading :
    (p : Peer) (c : ℕ) (view : Services) (removed : List ℕ) (changed : List (ℕ × Service))
    → follow p (reading c view) (Reader.changes c removed changed)
      ≡ reading c (learn_all (forget_all view removed) (map offered changed))
unfolding follow
follow-reading p c view removed changed = let e : (c == c) ≡ true = ground arith in rw e refl

hide-forget_all :
    (lost : ℕ → Bool) (view : Services) (ts : List ℕ) (t : ℕ)
    → forget_all (hide lost view) ts t ≡ hide lost (forget_all view ts) t
hide-forget_all lost view ts t =
    ground (arith, forget_all_lem (hide lost view) ts t, forget_all_lem view ts t)

hide-learn_all :
    (lost : ℕ → Bool) (view seen : Services) (cs : List (ℕ × Service)) (t : ℕ)
    → ((s : ℕ) → seen s ≡ hide lost view s)
    → learn_all seen (map offered cs) t
      ≡ hide (told_again lost cs) (learn_all view (map offered cs)) t
hide-learn_all lost view seen [] t h = h t
hide-learn_all lost view seen (v ∷ cs) t h =
    hide-learn_all (λ s. if s == v.0 then false else lost s)
      (λ s. if s == v.0 then some v.1 else view s) (λ s. if s == v.0 then some v.1 else seen s) cs t
      (λ s. elim (Bool-cases (s == v.0)) [ inl b ↦ rw b refl | inr b ↦ rw b (h s) ])

-- Only what the reader knows is looked at.
Mirrors-view :
    (d c : ℕ) (p : Peer) (view seen : Services)
    → ((t : ℕ) → view t ≡ seen t)
    → Mirrors d p (reading c view)
    → Mirrors d p (reading c seen)
Mirrors-view d c p view seen h m = record {
  valid = m.valid;
  knows = λ t. m.knows t ∙ ap (reachable d) (h t);
  distance = m.distance;
  client = m.client;
  failed = m.failed;
}

never-Idle : (c : ℕ) (view : Services) → Idle (reading c view)
never-Idle c view n t = absurd (grind (arith, n))

peer_reads-Mirrors :
    (d c : ℕ) (p : Peer) (lost : ℕ → Bool) (l : Link) (x : Reading)
    → Mirrors d p (reading c (hide lost l.view))
    → Told x
    → Mirrors d
        (peer_reads p c x)
        (reading c (hide (lost_after_batch lost x) (after_read l x).view))
unfolding Reader.is_allowed
peer_reads-Mirrors d c p lost l finished m h = m
peer_reads-Mirrors d c p lost l waiting m h = m
peer_reads-Mirrors d c p lost l (batch ch w) m h =
    let e = Reader.changes c ch.removed (told ch.changed) in
    let q = (process_changes p c ch.removed (told ch.changed)).1 in
    let all = map offered (told ch.changed) in
    Mirrors-view d c q (learn_all (forget_all (hide lost l.view) ch.removed) all)
      (hide (told_again lost (told ch.changed))
        (learn_all (forget_all l.view ch.removed) ch.changed))
      (λ t.
        hide-learn_all lost (forget_all l.view ch.removed)
          (forget_all (hide lost l.view) ch.removed) (told ch.changed) t
          (hide-forget_all lost l.view ch.removed)
        ∙ ap
            (λ z.
              hide (told_again lost (told ch.changed)) (learn_all (forget_all l.view ch.removed) z)
                t)
            h)
      (subst (Mirrors d q) (follow-reading p c (hide lost l.view) ch.removed (told ch.changed)) (
        step-Mirrors d p (reading c (hide lost l.view)) m e (never-Idle c (hide lost l.view)) refl))

-- The peer stands as the reader of the stream does, less what it lost, and that reader knows what was
-- read.
record Agrees (d c : ℕ) (r : Pair) : Type 0 where
  mirrors : Mirrors d r.peer (reading c (hide r.lost r.link.view))
  knows : (t : ℕ) → Knows r.link t

hide-lose :
    (lost : ℕ → Bool) (view : Services) (o : Option ℕ) (t : ℕ)
    → forget (hide lost view) o t ≡ hide (lose lost o) view t
hide-lose lost view none t = refl
hide-lose lost view (some s) t = elim (Bool-cases (t == s)) [
  | inl b ↦ rw b refl
  | inr b ↦ rw b refl
]

served-Agrees : (d c : ℕ) (r : Pair) (e : Event) → Agrees d c r → Agrees d c (step c r (served e))
unfolding step View.step
served-Agrees d c r (published t v) a = record {
  mirrors = a.mirrors;
  knows = λ s. step-Knows r.link (published t v) s (a.knows s);
}
served-Agrees d c r (unpublished t) a = record {
  mirrors = a.mirrors;
  knows = λ s. step-Knows r.link (unpublished t) s (a.knows s);
}
served-Agrees d c r reads a = record {
  mirrors =
      peer_reads-Mirrors d c r.peer r.lost r.link (read r.link.services r.link.watch) a.mirrors
        (read-Told r.link a.knows);
  knows = λ s. step-Knows r.link reads s (a.knows s);
}

step-Agrees : (d c : ℕ) (r : Pair) (e : Happening) → Agrees d c r → Agrees d c (step c r e)
unfolding step Reader.step follow Reader.is_allowed
step-Agrees d c r (served e) a = served-Agrees d c r e a
step-Agrees d c r (request_failed q) a =
    let view = hide r.lost r.link.view in
    let o = lost_target r.peer q in
    record {
      mirrors =
          Mirrors-view d c (fail_made r.peer q) (forget view o) (hide (lose r.lost o) r.link.view)
            (hide-lose r.lost r.link.view o)
            (step-Mirrors d r.peer (reading c view) a.mirrors (Reader.request_failed q)
              (never-Idle c view) refl);
      knows = a.knows;
    }

run-Agrees : (d c : ℕ) (es : List Happening) (r : Pair) → Agrees d c r → Agrees d c (run c r es)
unfolding run
run-Agrees d c [] r a = a
run-Agrees d c (e ∷ rest) r a = run-Agrees d c rest (step c r e) (step-Agrees d c r e a)

connected-Agrees :
    (d : ℕ) (table : ℕ → Remote) (c : ℕ) (services : Services) (targets : List ℕ)
    → Lists services targets
    → Agrees d c (connected d table c services targets)
unfolding Reader.step follow Reader.is_allowed
connected-Agrees d table c services targets h = record {
  mirrors =
      step-Mirrors d (new_peer d table) new_reader (start d table) (Reader.attached c) (λ n t. refl)
        refl;
  knows = λ t. opened-Knows services targets t h;
}

-- From the connection of a peer's client on, as long as it stays connected, whatever the other server
-- publishes, changes and withdraws, whenever the peer reads a batch, and whatever requests to its
-- remotes fail: once nothing is pending on the stream, the peer has a remote for a service of the other
-- server, with its name and settings, exactly if the service may be reached from the peer's distance
-- and no request to the peer's remote for it has failed since the last change that told of it.
pub peer_catches_up :
    (d : ℕ) (table : ℕ → Remote) (c : ℕ) (services : Services) (targets : List ℕ)
    (events : List Happening) (t : ℕ)
    → Lists services targets
    → (run c (connected d table c services targets) events).link.watch.changed ≡ []
    → (run c (connected d table c services targets) events).link.watch.removed ≡ []
    → let r = run c (connected d table c services targets) events in
      known r.peer t ≡ (if r.lost t then none else reachable d (r.link.services t))
unfolding count
peer_catches_up d table c services targets events t h e f =
    let r = run c (connected d table c services targets) events in
    let a =
      run-Agrees d c events (connected d table c services targets)
        (connected-Agrees d table c services targets h) in
    let k = (a.knows t).known in
    let v : r.link.view t ≡ r.link.services t = ground (arith, k, e, f) in
    a.mirrors.knows t
    ∙ elim (Bool-cases (r.lost t)) [ inl b ↦ rw b refl | inr b ↦ rw b (ap (reachable d) v) ]
