-- ===== src/Subscription/Runs.antt =====
-- Whatever routes, publications and remotes come and go, a subscription's options are in order and
-- its active option is the first that has anything.
use copper.Prelude.{
  ℕ, ◌≡◌, refl, ap, sym, ◌∙◌, arith, List, [], ◌∷◌, ◌++◌, Bool, true, false, if◌then◌else◌, some,
}
use mathlib.Core.Path.{subst}
use copper.Subscription.Order.{IsSort, Ordered-remove}
use copper.Subscription.Best.{IsValid}
use copper.Subscription.Changes.{
  change_named, change_all, settle, and_update, add_route, remove_route, add_publication,
  remove_publication, add_remote, remove_remote, sort_locals, sort_remotes, subscribe, fill,
  fill_all, Supply,
}
use copper.Subscription.{
  SubscribeOption, Choice, Subscription, update_local_priority, update_remote_priority,
  add_route_option, remove_route_option, add_publication_option, remove_publication_option,
  add_remote_option, remove_remote_option, first_active,
}

pub data Change : Type 0 where
  -- a service and a route, publication, or remote with its distance
  route_set publication_added publication_removed : List ℕ → ℕ → Change
  remote_added remote_removed : List ℕ → ℕ → ℕ → Change
  route_dropped : ℕ → Change

abbrev pub All : (Choice → Type 0) → List Choice → Type 0
All P [] = Unit
All P (o ∷ rest) = P o × All P rest

-- A method of an option that keeps `P`, and tells when it did nothing.
pub record Keeps (P : Choice → Type 0) (f : Choice → Bool × Choice) : Type 0 where
  pub keeps : (o : Choice) → P o → P (f o).1
  pub honest : (o : Choice) → (if (f o).0 then o else (f o).1) ≡ o

module _ (P : Choice → Type 0) (f : Choice → Bool × Choice) (k : Keeps P f) where
  change_named-All :
      (name : List ℕ) (os : List Choice) → All P os → All P (change_named name f os).1
  unfolding change_named
  change_named-All name [] a = tt
  change_named-All name (o ∷ os) a = ground (arith, k.keeps o a.0, change_named-All name os a.1)

  change_named-honest :
      (name : List ℕ) (os : List Choice)
      → (change_named name f os).0 ≡ false
      → (change_named name f os).1 ≡ os
  unfolding change_named
  change_named-honest name [] h = refl
  change_named-honest name (o ∷ os) h = ground (arith, k.honest o, change_named-honest name os)

  change_all-All : (os : List Choice) → All P os → All P (change_all f os).1
  unfolding change_all
  change_all-All [] a = tt
  change_all-All (o ∷ os) a = (k.keeps o a.0, change_all-All os a.1)

  change_all-honest : (os : List Choice) → (change_all f os).0 ≡ false → (change_all f os).1 ≡ os
  unfolding change_all
  change_all-honest [] h = refl
  change_all-honest (o ∷ os) h = ground (arith, k.honest o, change_all-honest os)

-- Every option has `P`, and the active index is current.
pub record IsCurrent (P : Choice → Type 0) (s : Subscription) : Type 0 where
  pub options : All P s.options
  pub active : s.active ≡ first_active s.options

settle-IsCurrent :
    (P : Choice → Type 0) (s : Subscription) (r : Bool × List Choice)
    → IsCurrent P s
    → All P r.1
    → (r.0 ≡ false → r.1 ≡ s.options)
    → IsCurrent P (settle s r).1
unfolding settle
settle-IsCurrent P s (true, os) c a h = record { options = a; active = refl }
settle-IsCurrent P s (false, os) c a h = record {
  options = a;
  active = c.active ∙ ap first_active (sym (h refl));
}

named-IsCurrent :
    (P : Choice → Type 0) (f : Choice → Bool × Choice) (s : Subscription) (name : List ℕ)
    → Keeps P f
    → IsCurrent P s
    → IsCurrent P (settle s (change_named name f s.options)).1
named-IsCurrent P f s name k c =
    settle-IsCurrent P s (change_named name f s.options) c
      (change_named-All P f k name s.options c.options) (change_named-honest P f k name s.options)

some-IsCurrent :
    (P : Choice → Type 0) (a s : Subscription) → some a ≡ some s → IsCurrent P a → IsCurrent P s
some-IsCurrent P a s e c = let q : a ≡ s = cc in subst (IsCurrent P) q c

unless :
    (P : Choice → Type 0) (b : Bool) (s : Subscription) (x : Bool × Subscription)
    → IsCurrent P s
    → IsCurrent P x.1
    → IsCurrent P (if b then (false, s) else x).1
unless P true s x c d = c
unless P false s x c d = d

module _ (locals remotes : ℕ → ℕ) (sort : (ℕ → ℕ) → List ℕ → List ℕ) (sorts : IsSort sort) where
  add_route-Keeps : (r : ℕ) → Keeps (IsValid locals remotes) (add_route_option r)
  unfolding add_route_option
  add_route-Keeps r = record { keeps = λ o v. ground arith; honest = λ o. refl }

  remove_route-Keeps : (r : ℕ) → Keeps (IsValid locals remotes) (remove_route_option r)
  unfolding remove_route_option
  remove_route-Keeps r = record { keeps = λ o v. ground arith; honest = λ o. ground arith }

  add_publication-Keeps :
      (p : ℕ)
      → Keeps (IsValid locals remotes) (λ o.
        and_update
          (λ q. update_local_priority locals (sort_locals locals remotes sort q))
          (add_publication_option p o))
  unfolding add_publication_option update_local_priority
  add_publication-Keeps p = record {
    keeps = λ o v. ground (arith, sorts.ordered locals (o.locals ++ (p ∷ [])));
    honest = λ o. ground arith;
  }

  remove_publication-Keeps :
      (p : ℕ)
      → Keeps
          (IsValid locals remotes)
          (λ o. and_update (update_local_priority locals) (remove_publication_option p o))
  unfolding remove_publication_option update_local_priority
  remove_publication-Keeps p = record {
    keeps = λ o v. ground (arith, Ordered-remove locals p o.locals);
    honest = λ o. ground arith;
  }

  add_remote-Keeps :
      (distance r : ℕ)
      → Keeps (IsValid locals remotes) (λ o.
        and_update
          (λ q. update_remote_priority remotes (sort_remotes locals remotes sort q))
          (add_remote_option distance r o))
  unfolding add_remote_option update_remote_priority
  add_remote-Keeps distance r = record {
    keeps = λ o v. ground (arith, sorts.ordered remotes (o.remotes ++ (r ∷ [])));
    honest = λ o. ground arith;
  }

  remove_remote-Keeps :
      (distance r : ℕ)
      → Keeps
          (IsValid locals remotes)
          (λ o. and_update (update_remote_priority remotes) (remove_remote_option distance r o))
  unfolding remove_remote_option update_remote_priority
  remove_remote-Keeps distance r = record {
    keeps = λ o v. ground (arith, Ordered-remove remotes r o.remotes);
    honest = λ o. ground arith;
  }

  unfoldable pub apply : Subscription → Change → Subscription
  apply s (route_set name r) = (add_route s name r).1
  apply s (route_dropped r) = (remove_route s r).1
  apply s (publication_added name p) = (add_publication locals remotes sort s name p).1
  apply s (publication_removed name p) = (remove_publication locals remotes sort s name p).1
  apply s (remote_added name distance r) = (add_remote locals remotes sort s name distance r).1
  apply s (remote_removed name distance r) = (remove_remote locals remotes sort s name distance r).1

  apply-IsCurrent :
      (s : Subscription) (c : Change)
      → IsCurrent (IsValid locals remotes) s
      → IsCurrent (IsValid locals remotes) (apply s c)
  unfolding apply add_route remove_route add_publication remove_publication add_remote remove_remote
  apply-IsCurrent s (route_set name r) c =
      unless _ s.disable_routes s (settle s (change_named name (add_route_option r) s.options)) c
        (named-IsCurrent _ _ s name (add_route-Keeps r) c)
  apply-IsCurrent s (route_dropped r) c =
      unless _ s.disable_routes s (settle s (change_all (remove_route_option r) s.options)) c (
        settle-IsCurrent _ s (change_all (remove_route_option r) s.options) c
          (change_all-All _ _ (remove_route-Keeps r) s.options c.options)
          (change_all-honest _ _ (remove_route-Keeps r) s.options))
  apply-IsCurrent s (publication_added name p) c =
      named-IsCurrent _ _ s name (add_publication-Keeps p) c
  apply-IsCurrent s (publication_removed name p) c =
      named-IsCurrent _ _ s name (remove_publication-Keeps p) c
  apply-IsCurrent s (remote_added name distance r) c =
      named-IsCurrent _ _ s name (add_remote-Keeps distance r) c
  apply-IsCurrent s (remote_removed name distance r) c =
      named-IsCurrent _ _ s name (remove_remote-Keeps distance r) c

  unfoldable pub apply_all : Subscription → List Change → Subscription
  unfolding apply
  apply_all s [] = s
  apply_all s (c ∷ rest) = apply_all (apply s c) rest

  apply_all-IsCurrent :
      (changes : List Change) (s : Subscription)
      → IsCurrent (IsValid locals remotes) s
      → IsCurrent (IsValid locals remotes) (apply_all s changes)
  unfolding apply_all
  apply_all-IsCurrent [] s c = c
  apply_all-IsCurrent (x ∷ rest) s c = apply_all-IsCurrent rest (apply s x) (apply-IsCurrent s x c)

  fill-IsValid :
      (supply : Supply locals remotes sort) (disabled : Bool) (x : SubscribeOption)
      → IsValid locals remotes (fill locals remotes sort supply disabled x)
  unfolding fill update_local_priority update_remote_priority
  fill-IsValid supply disabled x = record {
    locals_ordered = sorts.ordered locals _;
    remotes_ordered = sorts.ordered remotes _;
    local_first = refl;
    remote_first = refl;
    leaders = refl;
  }

  fill_all-IsValid :
      (supply : Supply locals remotes sort) (disabled : Bool) (xs : List SubscribeOption)
      → All (IsValid locals remotes) (fill_all locals remotes sort supply disabled xs)
  fill_all-IsValid supply disabled [] = tt
  fill_all-IsValid supply disabled (x ∷ xs) =
      (fill-IsValid supply disabled x, fill_all-IsValid supply disabled xs)

  -- From `subscribeLocked` on, whatever routes, publications and remotes come and go in any order:
  -- the publications and the remotes of each option stand in the order of their priorities, the
  -- priorities and the count that it keeps are theirs, and the subscription's active option is the
  -- first that has anything, or none.
  pub apply_all-subscribe-IsCurrent :
      (supply : Supply locals remotes sort) (target_id : ℕ) (disabled : Bool)
      (xs : List SubscribeOption) (changes : List Change) (s : Subscription)
      → subscribe locals remotes sort supply target_id disabled xs ≡ some s
      → IsCurrent (IsValid locals remotes) (apply_all s changes)
  unfolding subscribe
  apply_all-subscribe-IsCurrent supply target_id disabled [] changes s e = cc
  apply_all-subscribe-IsCurrent supply target_id disabled (x ∷ xs) changes s e =
      apply_all-IsCurrent changes s (
        some-IsCurrent _ _ s e
          (record { options = fill_all-IsValid supply disabled (x ∷ xs); active = refl }))
