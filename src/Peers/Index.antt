-- ===== src/Peers/Index.antt =====
-- A peer's remotes by name are exactly its remotes by target id, each under its own name.
use copper.Prelude.{
  ℕ, suc, ◌≡◌, refl, ap, sym, ◌∙◌, arith, List, [], ◌∷◌, ◌++◌, Bool, true, false, not, ◌==◌, ◌&&◌,
  ltb, if◌then◌else◌, Option, none, some, Bool-cases, Option-cases, inl, inr,
}
use mathlib.Core.Path.{subst}
use copper.Prelude.Assoc.{lookup, insert, delete, lookup-delete, lookup-insert}
use copper.Pings.{same}
use copper.Watch.{Service}
use copper.Peers.{Remote, Peer, vanished, same_client, put_remote, put_name, remove, register}

pub same_sound : (xs ys : List ℕ) → same xs ys ≡ true → xs ≡ ys
unfolding same
same_sound [] [] h = refl
same_sound [] (y ∷ ys) h = absurd (grind (arith, h))
same_sound (x ∷ xs) [] h = absurd (grind (arith, h))
same_sound (x ∷ xs) (y ∷ ys) h =
    let e : x ≡ y = ground (arith, h) in
    let es : same xs ys ≡ true = ground (arith, h) in rw e (ap (y ∷◌) (same_sound xs ys es))

pub same_refl : (xs : List ℕ) → same xs xs ≡ true
unfolding same
same_refl [] = refl
same_refl (x ∷ xs) = ground (arith, same_refl xs)

-- What a remote under target id `t` must be.
abbrev pub is_live : Peer → ℕ → Option ℕ → Bool
is_live p t none = true
is_live p t (some r) =
    ((p.table r).attached && (p.table r).target_id == t)
    && (same_client p.client (p.table r).client
        && (not (ltb (p.table r).settings.max_distance p.distance) && ltb r p.fresh))

-- The remote found, if it has the name.
abbrev pub restrict : (ℕ → Remote) → List ℕ → Option ℕ → Option ℕ
restrict table name none = none
restrict table name (some r) = if same (table r).name name then some r else none

pub record IsValid (p : Peer) : Type 0 where
  pub live : (t : ℕ) → is_live p t (lookup p.by_target t) ≡ true
  pub index :
      (name : List ℕ) (t : ℕ)
      → lookup (p.by_name name) t ≡ restrict p.table name (lookup p.by_target t)
  -- a remote that was made and is attached is found under its target id
  pub owned :
      (r : ℕ)
      → ltb r p.fresh ≡ true
      → (p.table r).attached ≡ true
      → lookup p.by_target (p.table r).target_id ≡ some r

-- Only the name of a remote is looked at.
restrict-put_remote :
    (table : ℕ → Remote) (r : ℕ) (x : Remote) (name : List ℕ) (o : Option ℕ)
    → x.name ≡ (table r).name
    → restrict (put_remote table r x) name o ≡ restrict table name o
restrict-put_remote table r x name none e = refl
restrict-put_remote table r x name (some q) e = elim (Bool-cases (q == r)) [
  | inl b ↦
      (let same_id : q ≡ r = ground (arith, b) in
        subst
          (λ n.
            (if same (if n == r then x else table n).name name then some n else none)
            ≡ (if same (table n).name name then some n else none))
          (sym same_id) (let c : (r == r) ≡ true = ground arith in rw (c, e) refl))
  | inr b ↦ rw b refl
]

-- What `remove` does to a remote that is found.
abbrev pub dropped : Peer → ℕ → ℕ → Peer
dropped p t r = record p {
  table = put_remote p.table r (record (p.table r) { attached = false });
  notices = p.notices ++ (vanished r ∷ []);
  by_name = put_name p.by_name (p.table r).name (delete (p.by_name (p.table r).name) t);
  by_target = delete p.by_target t;
}

module _ (p : Peer) (v : IsValid p) (t : ℕ) (r : ℕ) (h : lookup p.by_target t ≡ some r) where
  live_lem : is_live p t (some r) ≡ true
  live_lem = subst (λ o. is_live p t o ≡ true) h (v.live t)

  pub remove-found : remove p r ≡ dropped p t r
  unfolding remove
  remove-found =
      let l = live_lem in
      let a : (p.table r).attached ≡ true = ground arith in
      let e : (p.table r).target_id ≡ t = ground arith in
      let c : same_client p.client (p.table r).client ≡ true = ground arith in rw (a, e, c) refl

  -- Another target's remote is another one.
  pub others : (s q : ℕ) → lookup p.by_target s ≡ some q → (s == t) ≡ false → (q == r) ≡ false
  others s q e d =
      let l = live_lem in
      let ls : is_live p s (some q) ≡ true = subst (λ o. is_live p s o ≡ true) e (v.live s) in
      elim (Bool-cases (q == r)) [
        | inl b ↦
            (let same_id : q ≡ r = ground (arith, b) in
              let m : is_live p s (some r) ≡ true =
                subst (λ n. is_live p s (some n) ≡ true) same_id ls in
              absurd (ground (arith, l, m, d)))
        | inr b ↦ b
      ]

  dropped-live : (s : ℕ) → is_live (dropped p t r) s (lookup (delete p.by_target t) s) ≡ true
  dropped-live s = rw (lookup-delete p.by_target t s) (elim (Bool-cases (s == t)) [
    | inl d ↦ rw d refl
    | inr d ↦ rw d (elim (Option-cases (lookup p.by_target s)) [
      | inl e ↦ rw e refl
      | inr (q, e) ↦ rw (e, others s q e d) (subst (λ o. is_live p s o ≡ true) e (v.live s))
    ])
  ])

  dropped-index :
      (name : List ℕ) (s : ℕ)
      → lookup ((dropped p t r).by_name name) s
        ≡ restrict (dropped p t r).table name (lookup (delete p.by_target t) s)
  dropped-index name s =
      rw
        (
          restrict-put_remote p.table r (record (p.table r) { attached = false }) name
              (lookup (delete p.by_target t) s) refl,
          lookup-delete p.by_target t s,
        )
        (elim (Bool-cases (same (p.table r).name name)) [
          | inl b ↦
              (let n = same_sound (p.table r).name name b in
                rw (b, lookup-delete (p.by_name (p.table r).name) t s, n, v.index name s)
                  (elim (Bool-cases (s == t)) [ inl d ↦ rw d refl | inr d ↦ rw d refl ]))
          | inr b ↦
              rw (b, v.index name s)
                (elim (Bool-cases (s == t)) [
                  | inl d ↦ (let same_id : s ≡ t = ground (arith, d) in rw (d, same_id, h, b) refl)
                  | inr d ↦ rw d refl
                ])
        ])

  dropped-owned :
      (q : ℕ)
      → ltb q p.fresh ≡ true
      → ((dropped p t r).table q).attached ≡ true
      → lookup (delete p.by_target t) ((dropped p t r).table q).target_id ≡ some q
  dropped-owned q n a = elim (Bool-cases (q == r)) [
    | inl b ↦ absurd (grind (arith, a, b))
    | inr b ↦
        (let same_table : put_remote p.table r (record (p.table r) { attached = false }) q
              ≡ p.table q =
            rw b refl in
          let o = v.owned q n (sym (ap (λ x. x.attached) same_table) ∙ a) in
          rw (b, lookup-delete p.by_target t (p.table q).target_id)
            (elim (Bool-cases ((p.table q).target_id == t)) [
              | inl d ↦
                  (let same_id : (p.table q).target_id ≡ t = ground (arith, d) in
                    let twice : some q ≡ some r = sym o ∙ ap (lookup p.by_target) same_id ∙ h in
                    absurd (grind (arith, twice, b)))
              | inr d ↦ rw d o
            ]))
  ]

  pub remove-IsValid : IsValid (remove p r)
  remove-IsValid =
      subst IsValid (sym remove-found)
        (record { live = dropped-live; index = dropped-index; owned = dropped-owned })

same_client_refl : (c : Option ℕ) → same_client c c ≡ true
same_client_refl none = refl
same_client_refl (some c) = ground arith

-- A remote found is not the next one to be made.
restrict-fresh :
    (p : Peer) (s : ℕ) (x : Remote) (name : List ℕ) (o : Option ℕ)
    → is_live p s o ≡ true
    → restrict (put_remote p.table p.fresh x) name o ≡ restrict p.table name o
restrict-fresh p s x name none l = refl
restrict-fresh p s x name (some q) l =
    let d : (q == p.fresh) ≡ false = ground (arith, l) in rw d refl

abbrev made : Peer → ℕ → Service → Remote
made p t v = record {
  attached = true;
  client = p.client;
  target_id = t;
  name = v.name;
  distance = p.distance;
  settings = v.settings;
}

module _ (p : Peer) (i : IsValid p) (t : ℕ) (v : Service) (h : lookup p.by_target t ≡ none)
    (near : ltb v.settings.max_distance p.distance ≡ false) where
  registered-live :
      (s : ℕ) → is_live (register p t v) s (lookup (insert p.by_target t p.fresh) s) ≡ true
  unfolding register
  registered-live s = rw (lookup-insert p.by_target t p.fresh s) (elim (Bool-cases (s == t)) [
    | inl d ↦
        (let f : (p.fresh == p.fresh) ≡ true = ground arith in
          let e : (t == s) ≡ true = ground (arith, d) in
          let n : ltb p.fresh (suc p.fresh) ≡ true = ground arith in
          rw (d, f, e, same_client_refl p.client, near, n) refl)
    | inr d ↦ rw d (elim (Option-cases (lookup p.by_target s)) [
      | inl e ↦ rw e refl
      | inr (q, e) ↦
          (let l : is_live p s (some q) ≡ true = subst (λ o. is_live p s o ≡ true) e (i.live s) in
            let f : (q == p.fresh) ≡ false = ground (arith, l) in rw (e, f) (ground (arith, l)))
    ])
  ])

  registered-index :
      (name : List ℕ) (s : ℕ)
      → lookup ((register p t v).by_name name) s
        ≡ restrict (register p t v).table name (lookup (insert p.by_target t p.fresh) s)
  unfolding register
  registered-index name s = rw (lookup-insert p.by_target t p.fresh s) (elim (Bool-cases (s == t)) [
    | inl d ↦
        (let f : (p.fresh == p.fresh) ≡ true = ground arith in
          let same_id : s ≡ t = ground (arith, d) in
          rw (d, f)
            (elim (Bool-cases (same v.name name)) [
              | inl b ↦ rw (b, lookup-insert (p.by_name v.name) t p.fresh s, d) refl
              | inr b ↦ rw (b, i.index name s, same_id, h) refl
            ]))
    | inr d ↦
        rw (d, restrict-fresh p s (made p t v) name (lookup p.by_target s) (i.live s))
          (elim (Bool-cases (same v.name name)) [
            | inl b ↦
                (let n = same_sound v.name name b in
                  rw (b, lookup-insert (p.by_name v.name) t p.fresh s, d, n) (i.index name s))
            | inr b ↦ rw b (i.index name s)
          ])
  ])

  registered-owned :
      (q : ℕ)
      → ltb q (suc p.fresh) ≡ true
      → (put_remote p.table p.fresh (made p t v) q).attached ≡ true
      → lookup (insert p.by_target t p.fresh) (put_remote p.table p.fresh (made p t v) q).target_id
        ≡ some q
  registered-owned q n a = elim (Bool-cases (q == p.fresh)) [
    | inl b ↦
        (let same_id : q ≡ p.fresh = ground (arith, b) in
          let c : (t == t) ≡ true = ground arith in
          rw (b, lookup-insert p.by_target t p.fresh t, c) (ap some (sym same_id)))
    | inr b ↦
        (let same_table : put_remote p.table p.fresh (made p t v) q ≡ p.table q = rw b refl in
          let o = i.owned q (ground (arith, n, b)) (sym (ap (λ x. x.attached) same_table) ∙ a) in
          rw (b, lookup-insert p.by_target t p.fresh (p.table q).target_id)
            (elim (Bool-cases ((p.table q).target_id == t)) [
              | inl d ↦
                  (let same_id : (p.table q).target_id ≡ t = ground (arith, d) in
                    let both : some q ≡ none = sym o ∙ ap (lookup p.by_target) same_id ∙ h in
                    absurd (grind (arith, both)))
              | inr d ↦ rw d o
            ]))
  ]

  pub register-IsValid : IsValid (register p t v)
  unfolding register
  register-IsValid = record {
    live = registered-live;
    index = registered-index;
    owned = registered-owned;
  }

-- New settings of the same remote.
abbrev pub updated : Peer → ℕ → Service → Peer
updated p r v = record p {
  table = put_remote p.table r (record (p.table r) { settings = v.settings });
}

module _ (p : Peer) (i : IsValid p) (r : ℕ) (v : Service)
    (near : ltb v.settings.max_distance p.distance ≡ false) where
  updated-live_at :
      (s : ℕ) (o : Option ℕ) → is_live p s o ≡ true → is_live (updated p r v) s o ≡ true
  updated-live_at s none l = refl
  updated-live_at s (some q) l = elim (Bool-cases (q == r)) [
    | inl b ↦
        (let same_id : r ≡ q = ground (arith, b) in rw b (rw same_id (ground (arith, l, near))))
    | inr b ↦ rw b l
  ]

  updated-owned :
      (q : ℕ)
      → ltb q p.fresh ≡ true
      → ((updated p r v).table q).attached ≡ true
      → lookup p.by_target ((updated p r v).table q).target_id ≡ some q
  updated-owned q n a =
      let attached : ((updated p r v).table q).attached ≡ (p.table q).attached =
        elim (Bool-cases (q == r)) [
          | inl b ↦
              (let same_id : r ≡ q = ground (arith, b) in
                rw b (ap (λ x. (p.table x).attached) same_id))
          | inr b ↦ rw b refl
        ] in
      let target : ((updated p r v).table q).target_id ≡ (p.table q).target_id =
        elim (Bool-cases (q == r)) [
          | inl b ↦
              (let same_id : r ≡ q = ground (arith, b) in
                rw b (ap (λ x. (p.table x).target_id) same_id))
          | inr b ↦ rw b refl
        ] in
      ap (lookup p.by_target) target ∙ i.owned q n (sym attached ∙ a)

  pub updated-IsValid : IsValid (updated p r v)
  updated-IsValid = record {
    live = λ s. updated-live_at s (lookup p.by_target s) (i.live s);
    index = λ name s.
        i.index name s
        ∙ sym (
            restrict-put_remote p.table r (record (p.table r) { settings = v.settings }) name
              (lookup p.by_target s) refl);
    owned = updated-owned;
  }
