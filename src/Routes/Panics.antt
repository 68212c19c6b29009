-- ===== src/Routes/Panics.antt =====
-- When `setRoute` panics.
use copper.Prelude.{
  ℕ, suc, ◌≡◌, ◌≢◌, ◌↔◌, ◌∙◌, ap, refl, arith, List, [], ◌∷◌, ◌++◌, Bool, true, false, Option, none,
  some, Bool-cases, inl, inr,
}
use copper.Subscription.{SubscribeOption}
use copper.Routes.{
  Route, ServerRoute, Case, unchanged, panicked, build_cases, same_routes, set_route, with_cases,
  subs,
}

-- One of the routes has no options.
pub record Bare (routes : List Route) : Type 0 where
  pub before : List Route
  pub after : List Route
  pub it : Route
  pub divided : routes ≡ before ++ (it ∷ after)
  pub no_options : it.options ≡ []

further-Bare : (r : Route) {rest : List Route} (b : Bare rest) → Bare (r ∷ rest)
further-Bare r b = record {
  before = r ∷ b.before;
  after = b.after;
  it = b.it;
  divided = ap (r ∷◌) b.divided;
  no_options = b.no_options;
}

build_cases-Bare : (n : ℕ) (routes : List Route) → build_cases n routes ≡ none → Bare routes
unfolding build_cases
build_cases-Bare n [] h = absurd (grind (arith, h))
build_cases-Bare n (r ∷ rest) h =
    split r.options refl (build_cases (suc n) rest) refl (build_cases-Bare (suc n) rest)
  where
    split :
        (os : List SubscribeOption)
        → r.options ≡ os
        → (later : Option (List Case)) → build_cases (suc n) rest ≡ later
        → (build_cases (suc n) rest ≡ none → Bare rest)
        → Bare (r ∷ rest)
    split [] e later f ih = record {
      before = [];
      after = rest;
      it = r;
      divided = refl;
      no_options = e;
    }
    split (o ∷ os) e none f ih = further-Bare r (ih f)
    split (o ∷ os) e (some cs) f ih = absurd (grind (arith, e, f, h))

bare-build_cases :
    (n : ℕ) (before after : List Route) (r : Route)
    → r.options ≡ []
    → build_cases n (before ++ (r ∷ after)) ≡ none
unfolding build_cases
bare-build_cases n [] after r h = rw h refl
bare-build_cases n (b ∷ before) after r h =
    let ih = bare-build_cases (suc n) before after r h in split b.options refl ih
  where
    split :
        (os : List SubscribeOption)
        → b.options ≡ os
        → build_cases (suc n) (before ++ (r ∷ after)) ≡ none
        → build_cases n (b ∷ (before ++ (r ∷ after))) ≡ none
    split [] e f = rw e refl
    split (o ∷ os) e f = rw (e, f) refl

with_cases-panicked :
    (name old : List ℕ) (routes : List Route) (fresh : Bool) (cs : Option (List Case))
    → with_cases name routes old fresh cs ≡ panicked
    → cs ≡ none
with_cases-panicked name old routes fresh none h = refl
with_cases-panicked name old routes fresh (some cs) h = absurd (grind (arith, h))

with_cases-Bare :
    (n : ℕ) (name old : List ℕ) (routes : List Route) (fresh : Bool)
    → (with_cases name routes old fresh (build_cases n routes) ≡ panicked) ↔ Bare routes
with_cases-Bare n name old routes fresh = (
  λ h.
      build_cases-Bare n routes
        (with_cases-panicked name old routes fresh (build_cases n routes) h),
  λ b.
      ap (with_cases name routes old fresh)
        (ap (build_cases n) b.divided ∙ bare-build_cases n b.before b.after b.it b.no_options),
)

-- A call that names at least one route and is not found to change nothing panics, with the server's
-- lock held, exactly when one of its routes has no options.
pub panics_iff_Bare :
    (n : ℕ) (name : List ℕ) (old : Option ServerRoute) (r : Route) (rest : List Route)
    → set_route n name old (r ∷ rest) ≢ unchanged
    → (set_route n name old (r ∷ rest) ≡ panicked) ↔ Bare (r ∷ rest)
unfolding set_route
panics_iff_Bare n name none r rest h = with_cases-Bare n name [] (r ∷ rest) true
panics_iff_Bare n name (some s) r rest h = elim (Bool-cases (same_routes s.routes (r ∷ rest))) [
  | inl p ↦ absurd (h (rw p refl))
  | inr p ↦ rw p (with_cases-Bare n name (subs s.cases) (r ∷ rest) false)
]
