-- ===== src/Peers/Knowledge.antt =====
-- What a peer knows of the services of the other server, after each of its operations.
use copper.Prelude.{
  ℕ, ◌≡◌, refl, sym, ◌∙◌, arith, true, false, ◌==◌, ◌&&◌, ltb, if◌then◌else◌, Option, none, some,
  Bool-cases, Option-cases, inl, inr,
}
use mathlib.Core.Path.{subst}
use copper.Prelude.Assoc.{lookup, delete, lookup-delete, lookup-insert}
use copper.Pings.{same}
use copper.Watch.{Service}
use copper.Peers.{
  fail_request, Remote, Peer, put_remote, remove, remove_found, register, add_allowed, add_remote,
}
use copper.Peers.Reader.{lost_target, forget, fail_made}
use copper.Peers.Index.{
  IsValid, is_live, same_sound, remove-found, others, remove-IsValid, register-IsValid, updated,
  updated-IsValid,
}

-- What is known under a target id: the remote that is found there.
abbrev pub known_at : (ℕ → Remote) → Option ℕ → Option Service
known_at table none = none
known_at table (some r) = some (record { name = (table r).name; settings = (table r).settings })

abbrev pub known : Peer → ℕ → Option Service
known p t = known_at p.table (lookup p.by_target t)

-- `q` comes of `p` by an operation that leaves `view` known.
pub record Turns (p q : Peer) (view : ℕ → Option Service) : Type 0 where
  pub valid : IsValid q
  pub knows : (s : ℕ) → known q s ≡ view s
  pub distance : q.distance ≡ p.distance
  pub client : q.client ≡ p.client
  pub failed : q.failed ≡ p.failed

abbrev pub learn : (ℕ → Option Service) → ℕ → Option Service → ℕ → Option Service
learn view t v s = if s == t then v else view s

known_at-put_remote :
    (table : ℕ → Remote) (r : ℕ) (x : Remote) (o : Option ℕ)
    → x.name ≡ (table r).name
    → x.settings ≡ (table r).settings
    → known_at (put_remote table r x) o ≡ known_at table o
known_at-put_remote table r x none e f = refl
known_at-put_remote table r x (some q) e f = elim (Bool-cases (q == r)) [
  | inl b ↦
      (let same_id : q ≡ r = ground (arith, b) in
        let c : (r == r) ≡ true = ground arith in
        subst (λ n. known_at (put_remote table r x) (some n) ≡ known_at table (some n))
          (sym same_id) (rw (c, e, f) refl))
  | inr b ↦ rw b refl
]

module _ (p : Peer) (i : IsValid p) (t : ℕ) where
  remove-Turns :
      (r : ℕ) → lookup p.by_target t ≡ some r → Turns p (remove p r) (learn (known p) t none)
  remove-Turns r h =
      subst (λ q. Turns p q (learn (known p) t none)) (sym (remove-found p i t r h))
        (record {
          valid = subst IsValid (remove-found p i t r h) (remove-IsValid p i t r h);
          knows = λ s.
              rw
                (
                  known_at-put_remote p.table r (record (p.table r) { attached = false })
                      (lookup (delete p.by_target t) s) refl refl,
                  lookup-delete p.by_target t s,
                )
                (elim (Bool-cases (s == t)) [ inl d ↦ rw d refl | inr d ↦ rw d refl ]);
          distance = refl;
          client = refl;
          failed = refl;
        })

  pub remove_found-Turns :
      (o : Option ℕ)
      → lookup p.by_target t ≡ o
      → Turns p (remove_found p o) (learn (known p) t none)
  remove_found-Turns none h = record {
    valid = i;
    knows = λ s. elim (Bool-cases (s == t)) [
      | inl d ↦ (let same_id : s ≡ t = ground (arith, d) in rw (d, same_id, h) refl)
      | inr d ↦ rw d refl
    ];
    distance = refl;
    client = refl;
    failed = refl;
  }
  remove_found-Turns (some r) h = remove-Turns r h

  module _ (v : Service) (near : ltb v.settings.max_distance p.distance ≡ false) where
    register-Turns :
        lookup p.by_target t ≡ none → Turns p (register p t v) (learn (known p) t (some v))
    unfolding register
    register-Turns h = record {
      valid = register-IsValid p i t v h near;
      knows = λ s. rw (lookup-insert p.by_target t p.fresh s) (elim (Bool-cases (s == t)) [
        | inl d ↦ (let f : (p.fresh == p.fresh) ≡ true = ground arith in rw (d, f) refl)
        | inr d ↦ rw d (elim (Option-cases (lookup p.by_target s)) [
          | inl e ↦ rw e refl
          | inr (q, e) ↦
              (let l : is_live p s (some q) ≡ true =
                  subst (λ o. is_live p s o ≡ true) e (i.live s) in
                let f : (q == p.fresh) ≡ false = ground (arith, l) in rw (e, f) refl)
        ])
      ]);
      distance = refl;
      client = refl;
      failed = refl;
    }

    updated-Turns :
        (r : ℕ)
        → lookup p.by_target t ≡ some r
        → same (p.table r).name v.name ≡ true
        → Turns p (updated p r v) (learn (known p) t (some v))
    updated-Turns r h e = record {
      valid = updated-IsValid p i r v near;
      knows = λ s. (elim (Bool-cases (s == t)) [
        | inl d ↦
            (let same_id : s ≡ t = ground (arith, d) in
              let f : (r == r) ≡ true = ground arith in
              let n = same_sound (p.table r).name v.name e in rw (d, same_id, h, f, n) refl)
        | inr d ↦ rw d (elim (Option-cases (lookup p.by_target s)) [
          | inl g ↦ rw g refl
          | inr (q, g) ↦ rw (g, others p i t r h s q g d) refl
        ])
      ]);
      distance = refl;
      client = refl;
      failed = refl;
    }

-- One operation after another.
Turns-trans :
    (p q r : Peer) (t : ℕ) (o : Option Service)
    → Turns p q (learn (known p) t none)
    → Turns q r (learn (known q) t o)
    → Turns p r (learn (known p) t o)
Turns-trans p q r t o a b = record {
  valid = b.valid;
  knows = λ s. b.knows s ∙ elim (Bool-cases (s == t)) [
    | inl d ↦ rw d refl
    | inr d ↦ (let k = a.knows s in rw d (k ∙ rw d refl))
  ];
  distance = b.distance ∙ a.distance;
  client = b.client ∙ a.client;
  failed = b.failed ∙ a.failed;
}

removed-lookup :
    (p : Peer) (i : IsValid p) (t r : ℕ)
    → lookup p.by_target t ≡ some r
    → lookup (remove p r).by_target t ≡ none
removed-lookup p i t r h =
    let c : (t == t) ≡ true = ground arith in
    rw (remove-found p i t r h, lookup-delete p.by_target t t, c) refl

add_allowed-Turns :
    (p : Peer) (i : IsValid p) (t : ℕ) (v : Service)
    → ltb v.settings.max_distance p.distance ≡ false
    → (o : Option ℕ) → lookup p.by_target t ≡ o
    → Turns p (add_allowed p t v o) (learn (known p) t (some v))
unfolding add_allowed
add_allowed-Turns p i t v near none h = register-Turns p i t v near h
add_allowed-Turns p i t v near (some r) h =
    let a = remove-Turns p i t r h in
    let far : ltb v.settings.max_distance (remove p r).distance ≡ false =
      subst (λ n. ltb v.settings.max_distance n ≡ false) (sym a.distance) near in
    let b = register-Turns (remove p r) a.valid t v far (removed-lookup p i t r h) in
    elim (Bool-cases
      (same (p.table r).name v.name && v.settings.priority == (p.table r).settings.priority)) [
        | inl e ↦ rw e (updated-Turns p i t v near r h (ground (arith, e)))
        | inr e ↦ rw e (Turns-trans p (remove p r) (register (remove p r) t v) t (some v) a b)
      ]

-- What a change tells is known if the service may be reached from here.
pub add_remote-Turns :
    (p : Peer) (i : IsValid p) (t : ℕ) (v : Service)
    → Turns p
        (add_remote p t v)
        (learn (known p) t (if ltb v.settings.max_distance p.distance then none else some v))
unfolding add_remote
add_remote-Turns p i t v = elim (Bool-cases (ltb v.settings.max_distance p.distance)) [
  | inl b ↦ rw b (remove_found-Turns p i t (lookup p.by_target t) refl)
  | inr b ↦ rw b (add_allowed-Turns p i t v b (lookup p.by_target t) refl)
]

remove-detached : (p : Peer) (r : ℕ) → (p.table r).attached ≡ false → remove p r ≡ p
unfolding remove
remove-detached p r a = rw a refl

module _ (p : Peer) (r : ℕ) (n : ltb r p.fresh ≡ true) where
  fail_made-remove : fail_made p r ≡ remove p r
  unfolding fail_request
  fail_made-remove = rw n refl

  lost_target-attached : (p.table r).attached ≡ true → lost_target p r ≡ some (p.table r).target_id
  lost_target-attached a = rw (n, a) refl

  lost_target-detached : (p.table r).attached ≡ false → lost_target p r ≡ none
  lost_target-detached a = rw (n, a) refl

unchanged : (p : Peer) → IsValid p → Turns p p (known p)
unchanged p i = record {
  valid = i;
  knows = λ s. refl;
  distance = refl;
  client = refl;
  failed = refl;
}

pub fail_made-Turns :
    (p : Peer) (i : IsValid p) (r : ℕ)
    → Turns p (fail_made p r) (forget (known p) (lost_target p r))
fail_made-Turns p i r = elim (Bool-cases (ltb r p.fresh)) [
  | inr n ↦ rw n (unchanged p i)
  | inl n ↦
      subst (λ q. Turns p q (forget (known p) (lost_target p r))) (sym (fail_made-remove p r n))
        (elim (Bool-cases (p.table r).attached) [
          | inr a ↦
              subst (λ o. Turns p (remove p r) (forget (known p) o))
                (sym (lost_target-detached p r n a))
                (subst (λ q. Turns p q (known p)) (sym (remove-detached p r a)) (unchanged p i))
          | inl a ↦
              subst (λ o. Turns p (remove p r) (forget (known p) o))
                (sym (lost_target-attached p r n a))
                (remove-Turns p i (p.table r).target_id r (i.owned r n a))
        ])
]
