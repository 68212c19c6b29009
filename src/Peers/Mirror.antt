-- ===== src/Peers/Mirror.antt =====
-- A peer follows the other server: it knows what a plain reader of the changes would, less the
-- services that may not be reached from its distance.
use copper.Prelude.{
  ℕ, ◌≡◌, refl, ap, sym, ◌∙◌, arith, List, [], ◌∷◌, map, Bool, true, false, not, ◌==◌, ◌||◌, ltb,
  if◌then◌else◌, Option, none, some, Bool-cases, Option-cases, inl, inr,
}
use mathlib.Core.Path.{subst}
use copper.Prelude.Assoc.{lookup, keys, lookup-keys}
use copper.Prelude.Counts.{count}
use copper.Watch.{Service}
use copper.Watch.Batch.{forget_all, learn_all, forget_all_lem}
use copper.Peers.{
  Remote, Peer, same_client, remove_found, remove_targets, add_remote, add_remotes, process_changes,
  attach_client, detach_client, close_with_error,
}
use copper.Peers.Index.{IsValid}
use copper.Peers.Knowledge.{
  known, known_at, learn, Turns, remove_found-Turns, add_remote-Turns, fail_made-Turns,
}
use copper.Peers.Reader.{
  Event, attached, detached, changes, request_failed, closed, lost_target, forget, fail_made, step,
  run, Reader, offered, follow, follow_all, reachable, is_allowed, new_peer, new_reader,
}

-- The peer stands as the reader does.
pub record Mirrors (d : ℕ) (p : Peer) (r : Reader) : Type 0 where
  pub valid : IsValid p
  pub knows : (t : ℕ) → known p t ≡ reachable d (r.view t)
  pub distance : p.distance ≡ d
  pub client : p.client ≡ r.client
  pub failed : p.failed ≡ r.failed

module _ (d : ℕ) where
  Mirrors-Turns :
      (p q : Peer) (r : Reader) (t : ℕ) (o w : Option Service)
      → Mirrors d p r
      → Turns p q (learn (known p) t o)
      → o ≡ reachable d w
      → Mirrors d q (record r { view = λ s. if s == t then w else r.view s })
  Mirrors-Turns p q r t o w m a e = record {
    valid = a.valid;
    knows =
        λ s. a.knows s ∙ elim (Bool-cases (s == t)) [ inl b ↦ rw b e | inr b ↦ rw b (m.knows s) ];
    distance = a.distance ∙ m.distance;
    client = a.client ∙ m.client;
    failed = a.failed ∙ m.failed;
  }

  remove_targets-Mirrors :
      (ts : List ℕ) (p : Peer) (r : Reader)
      → Mirrors d p r
      → Mirrors d (remove_targets p ts) (record r { view = forget_all r.view ts })
  unfolding remove_targets
  remove_targets-Mirrors [] p r m = m
  remove_targets-Mirrors (t ∷ ts) p r m =
      remove_targets-Mirrors ts (remove_found p (lookup p.by_target t))
        (record r { view = λ s. if s == t then none else r.view s })
        (Mirrors-Turns p (remove_found p (lookup p.by_target t)) r t none none m
          (remove_found-Turns p m.valid t (lookup p.by_target t) refl) refl)

  add_remotes-Mirrors :
      (cs : List (ℕ × Service)) (p : Peer) (r : Reader)
      → Mirrors d p r
      → Mirrors d (add_remotes p cs) (record r { view = learn_all r.view (map offered cs) })
  unfolding add_remotes
  add_remotes-Mirrors [] p r m = m
  add_remotes-Mirrors (c ∷ cs) p r m =
      add_remotes-Mirrors cs (add_remote p c.0 c.1)
        (record r { view = λ s. if s == c.0 then some c.1 else r.view s })
        (Mirrors-Turns p (add_remote p c.0 c.1) r c.0
          (if ltb c.1.settings.max_distance p.distance then none else some c.1) (some c.1) m
          (add_remote-Turns p m.valid c.0 c.1)
          (ap (λ n. if ltb c.1.settings.max_distance n then none else some c.1) m.distance))

-- Nothing is known without a client.
abbrev pub Idle : Reader → Type 0
Idle r = same_client r.client none ≡ true → (t : ℕ) → r.view t ≡ none

known-none : (p : Peer) (t : ℕ) → known p t ≡ none → lookup p.by_target t ≡ none
known-none p t h = elim (Option-cases (lookup p.by_target t)) [
  | inl e ↦ e
  | inr (r, e) ↦ absurd (grind (arith, subst (λ o. known_at p.table o ≡ none) e h))
]

pub forget-none :
    (view : ℕ → Option Service) (o : Option ℕ) (t : ℕ) → view t ≡ none → forget view o t ≡ none
forget-none view none t h = h
forget-none view (some s) t h = elim (Bool-cases (t == s)) [ inl b ↦ rw b refl | inr b ↦ rw b h ]

-- While nothing is known, the client may be another.
new_client-IsValid :
    (p : Peer) (c : Option ℕ)
    → IsValid p
    → ((t : ℕ) → lookup p.by_target t ≡ none)
    → IsValid (record p { client = c })
new_client-IsValid p c v h = record { live = λ t. rw (h t) refl; index = v.index; owned = v.owned }

module _ (p : Peer) (c : ℕ) (removed : List ℕ) (changed : List (ℕ × Service)) where
  refused :
      (not (same_client p.client (some c)) || p.failed) ≡ true
      → step p (changes c removed changed) ≡ p
  unfolding step process_changes
  refused h = rw (step, h) refl

  taken :
      (not (same_client p.client (some c)) || p.failed) ≡ false
      → step p (changes c removed changed) ≡ add_remotes (remove_targets p removed) changed
  unfolding step process_changes
  taken h = rw (step, h) refl

forget-reachable :
    (d : ℕ) (seen view : ℕ → Option Service) (o : Option ℕ) (t : ℕ)
    → seen t ≡ reachable d (view t)
    → forget seen o t ≡ reachable d (forget view o t)
forget-reachable d seen view none t h = h
forget-reachable d seen view (some s) t h = elim (Bool-cases (t == s)) [
  | inl b ↦ rw b refl
  | inr b ↦ rw b h
]

module _ (d : ℕ) (p : Peer) (r : Reader) (m : Mirrors d p r) where
  attached-Mirrors :
      (c : ℕ)
      → Idle r
      → same_client p.client none ≡ true
      → Mirrors d (attach_client p c) (record r { client = some c })
  unfolding attach_client
  attached-Mirrors c idle a =
      let nothing = λ (t : ℕ). known-none p t (
        m.knows t
        ∙ ap (reachable d) (idle (subst (λ o. same_client o none ≡ true) m.client a) t)) in
      record {
        valid = new_client-IsValid p (some c) m.valid nothing;
        knows = m.knows;
        distance = m.distance;
        client = refl;
        failed = m.failed;
      }

  forgotten : (t : ℕ) → known (remove_targets p (keys p.by_target)) t ≡ none
  forgotten t =
      let k = (remove_targets-Mirrors d (keys p.by_target) p r m).knows t in
      k
      ∙ rw (forget_all_lem r.view (keys p.by_target) t)
          (elim (Bool-cases (ltb 0 (count t (keys p.by_target)))) [
            | inl b ↦ rw b refl
            | inr b ↦
                (let l : lookup p.by_target t ≡ none =
                    sym (rw b refl) ∙ lookup-keys p.by_target t in
                  rw b (sym (m.knows t) ∙ ap (known_at p.table) l))
          ])

  detached-Mirrors :
      Mirrors d
        (record (remove_targets p (keys p.by_target)) { client = none })
        (record r { client = none; view = λ t. none })
  detached-Mirrors =
      let q = remove_targets p (keys p.by_target) in
      let k = remove_targets-Mirrors d (keys p.by_target) p r m in
      record {
        valid = new_client-IsValid q none k.valid (λ t. known-none q t (forgotten t));
        knows = forgotten;
        distance = k.distance;
        client = refl;
        failed = k.failed;
      }

  failed-Mirrors :
      (q : ℕ) → Mirrors d (fail_made p q) (record r { view = forget r.view (lost_target p q) })
  failed-Mirrors q =
      let a = fail_made-Turns p m.valid q in
      record {
        valid = a.valid;
        knows =
            λ t. a.knows t ∙ forget-reachable d (known p) r.view (lost_target p q) t (m.knows t);
        distance = a.distance ∙ m.distance;
        client = a.client ∙ m.client;
        failed = a.failed ∙ m.failed;
      }

  closed-Mirrors : Mirrors d (close_with_error p) (record r { failed = true })
  unfolding close_with_error
  closed-Mirrors = record {
    valid = record { live = m.valid.live; index = m.valid.index; owned = m.valid.owned };
    knows = m.knows;
    distance = m.distance;
    client = m.client;
    failed = refl;
  }

  pub step-Mirrors :
      (e : Event) → Idle r → is_allowed p (e ∷ []) ≡ true → Mirrors d (step p e) (follow p r e)
  unfolding step follow is_allowed process_changes detach_client
  step-Mirrors (attached c) idle a = attached-Mirrors c idle (ground (arith, a))
  step-Mirrors (detached c) idle a =
      let mine = λ (b : Bool) (e : same_client r.client (some c) ≡ b).
        subst (λ o. same_client o (some c) ≡ b) (sym m.client) e in
      elim (Bool-cases (same_client r.client (some c))) [
        | inl b ↦ rw (mine true b, b) detached-Mirrors
        | inr b ↦ rw (mine false b, b) m
      ]
  step-Mirrors (changes c removed changed) idle a =
      let here =
        add_remotes-Mirrors d changed (remove_targets p removed)
          (record r { view = forget_all r.view removed })
          (remove_targets-Mirrors d removed p r m) in
      let mine = λ (b : Bool) (e : (not (same_client r.client (some c)) || r.failed) ≡ b).
        ap (λ o. not (same_client o (some c)) || p.failed) m.client
        ∙ ap (λ f. not (same_client r.client (some c)) || f) m.failed
        ∙ e in
      elim (Bool-cases (not (same_client r.client (some c)) || r.failed)) [
        | inl b ↦
            subst (λ q. Mirrors d q (follow p r (changes c removed changed)))
              (sym (refused p c removed changed (mine true b))) (rw b m)
        | inr b ↦
            subst (λ q. Mirrors d q (follow p r (changes c removed changed)))
              (sym (taken p c removed changed (mine false b))) (rw b here)
      ]
  step-Mirrors (request_failed q) idle a = failed-Mirrors q
  step-Mirrors closed idle a = closed-Mirrors

not_both : (o : Option ℕ) (c : ℕ) → same_client o (some c) ≡ true → same_client o none ≡ false
not_both none c h = absurd (grind (arith, h))
not_both (some b) c h = refl

follow-Idle : (p : Peer) (r : Reader) (e : Event) → Idle r → Idle (follow p r e)
unfolding follow
follow-Idle p r (attached c) idle = λ n t. absurd (grind (arith, n))
follow-Idle p r (detached c) idle = elim (Bool-cases (same_client r.client (some c))) [
  | inl b ↦ rw b (λ n t. refl)
  | inr b ↦ rw b idle
]
follow-Idle p r (changes c removed changed) idle =
    elim (Bool-cases (not (same_client r.client (some c)) || r.failed)) [
      | inl b ↦ rw b idle
      | inr b ↦
          rw b
            (λ n t. absurd (let k = not_both r.client c (ground (arith, b)) in grind (arith, k, n)))
    ]
follow-Idle p r (request_failed q) idle = λ n t. forget-none r.view (lost_target p q) t (idle n t)
follow-Idle p r closed idle = idle

allowed-first :
    (p : Peer) (e : Event) (rest : List Event)
    → is_allowed p (e ∷ rest) ≡ true
    → (is_allowed p (e ∷ []) ≡ true) × (is_allowed (step p e) rest ≡ true)
unfolding is_allowed
allowed-first p (attached c) rest h = (ground (arith, h), ground (arith, h))
allowed-first p (detached c) rest h = (refl, h)
allowed-first p (changes c removed changed) rest h = (refl, h)
allowed-first p (request_failed q) rest h = (refl, h)
allowed-first p closed rest h = (refl, h)

run-Mirrors :
    (d : ℕ) (es : List Event) (p : Peer) (r : Reader)
    → Mirrors d p r
    → Idle r
    → is_allowed p es ≡ true
    → Mirrors d (run p es) (follow_all p r es)
unfolding run follow_all
run-Mirrors d [] p r m idle a = m
run-Mirrors d (e ∷ rest) p r m idle a =
    let b = allowed-first p e rest a in
    run-Mirrors d rest (step p e) (follow p r e) (step-Mirrors d p r m e idle b.0)
      (follow-Idle p r e idle) b.1

pub start : (d : ℕ) (table : ℕ → Remote) → Mirrors d (new_peer d table) new_reader
unfolding lookup
start d table = record {
  valid = record {
    live = λ t. refl;
    index = λ n t. refl;
    owned = λ r n a. absurd (ground (arith, n));
  };
  knows = λ t. refl;
  distance = refl;
  client = refl;
  failed = refl;
}

-- Whatever clients come and go, one at a time, whatever batches of changes come from whatever
-- clients, and whatever requests to remotes fail: the peer knows, under each target id, the service
-- that a plain reader of the changes of its present client would, where it may be reached from the
-- peer's distance and no request to the remote that stood for it has failed since the last change that
-- told of it, and nothing else; and the remotes that it finds by name are exactly those that it finds
-- by target id, each under its own name.
pub peer_follows :
    (d : ℕ) (table : ℕ → Remote) (es : List Event)
    → is_allowed (new_peer d table) es ≡ true
    → Mirrors d (run (new_peer d table) es) (follow_all (new_peer d table) new_reader es)
peer_follows d table es a =
    run-Mirrors d es (new_peer d table) new_reader (start d table) (λ n t. refl) a
