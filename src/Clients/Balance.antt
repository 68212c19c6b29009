-- ===== src/Clients/Balance.antt =====
-- What was given of a kind, against what is held and what was released.
use copper.Prelude.{
  ℕ, ◌+◌, ◌≤◌, ◌≡◌, arith, List, [], ◌∷◌, ◌++◌, true, ◌==◌, ltb, if◌then◌else◌, refl, ◌<◌, Option,
  none, some,
}
use copper.Prelude.Counts.{
  count, erase, include, count-append, count-last, count-erase, count-include,
}
use copper.Prelude.Assoc.{found_is}
use copper.Clients.{unpublish_endpoint, unpublish_all}

-- Of a kind: each that was given is held or was released, once.
pub record Balanced (given held released : List ℕ) : Type 0 where
  pub sum : (x : ℕ) → count x given ≡ count x held + count x released
  pub once : (x : ℕ) → count x given ≤ 1

pub given_one :
    (x : ℕ) (given held released held' : List ℕ)
    → Balanced given held released
    → count x given ≡ 0
    → ((y : ℕ) → count y held' ≡ count y held + (if y == x then 1 else 0))
    → Balanced (x ∷ given) held' released
unfolding count
given_one x given held released held' b h k = record {
  sum = λ y. ground (arith, b.sum y, k y);
  once = λ y. ground (arith, b.once y, h);
}

-- A set that gets a new element, and one that loses an element it has.
pub included :
    (x : ℕ) (given held released : List ℕ)
    → Balanced given held released
    → count x given ≡ 0
    → Balanced (x ∷ given) (include x held) released
included x given held released b h =
    given_one x given held released (include x held) b h
      (λ y. ground (arith, b.sum x, h, count-include y x held))

-- One that is held is released.
pub released_one :
    (x : ℕ) (given held released held' : List ℕ)
    → Balanced given held released
    → ((y : ℕ) → count y held' + (if y == x then 1 else 0) ≡ count y held)
    → Balanced given held' (released ++ (x ∷ []))
released_one x given held released held' b h = record {
  sum = λ y. ground (arith, b.sum y, h y, count-last y released x);
  once = b.once;
}

pub erased :
    (x : ℕ) (given held released : List ℕ)
    → Balanced given held released
    → ltb 0 (count x held) ≡ true
    → Balanced given (erase x held) (released ++ (x ∷ []))
erased x given held released b h =
    released_one x given held released (erase x held) b
      (λ y. ground (arith, b.sum x, b.once x, h, count-erase y x held))

pub released_all :
    (given held released : List ℕ)
    → Balanced given held released
    → Balanced given [] (released ++ held)
unfolding count
released_all given held released b = record {
  sum = λ y. ground (arith, b.sum y, count-append y released held);
  once = b.once;
}

pub none_given : Balanced [] [] []
unfolding count
none_given = record { sum = λ x. omega arith; once = λ x. omega arith }

pub count-unpublish_endpoint :
    (gone : List ℕ) (e y : ℕ)
    → count y (unpublish_endpoint gone e)
      ≡ (if y == e then (if count y gone == 0 then 1 else count y gone) else count y gone)
unfolding unpublish_endpoint
count-unpublish_endpoint gone e y = ground (arith, count-last y gone e)

pub count-unpublish_all :
    (gone es : List ℕ) (y : ℕ)
    → count y (unpublish_all gone es)
      ≡ (if ltb 0 (count y gone) then count y gone else if ltb 0 (count y es) then 1 else 0)
unfolding unpublish_all count
count-unpublish_all gone [] y = ground arith
count-unpublish_all gone (e ∷ es) y =
    ground (
      arith,
      count-unpublish_all (unpublish_endpoint gone e) es y,
      count-unpublish_endpoint gone e y,
    )

-- Of the endpoints: each that was given was given once and unpublished at most once, and is kept if
-- it was not unpublished; nothing else is kept or unpublished.
pub record Tracked (given held gone : List ℕ) : Type 0 where
  pub once : (x : ℕ) → count x given ≤ 1
  pub held_given : (x : ℕ) → count x held ≤ count x given
  pub gone_given : (x : ℕ) → count x gone ≤ count x given
  pub found : (x : ℕ) → count x given ≤ count x held + count x gone

pub none-Tracked : Tracked [] [] []
unfolding count
none-Tracked = record {
  once = λ x. omega arith;
  held_given = λ x. omega arith;
  gone_given = λ x. omega arith;
  found = λ x. omega arith;
}

-- A new endpoint is kept, in the place of one that was unpublished, if of any.
pub Tracked-new :
    (x : ℕ) (given held gone held' : List ℕ) (old : Option ℕ)
    → Tracked given held gone
    → count x given ≡ 0
    → ((e : ℕ) → old ≡ some e → 0 < count e gone)
    → ((y : ℕ) → count y held' + found_is old y ≡ count y held + (if y == x then 1 else 0))
    → Tracked (x ∷ given) held' gone
unfolding count
Tracked-new x given held gone held' none k n o h = record {
  once = λ y. ground (arith, k.once y, n);
  held_given = λ y. ground (arith, k.held_given y, h y);
  gone_given = λ y. ground (arith, k.gone_given y);
  found = λ y. ground (arith, k.found y, h y);
}
Tracked-new x given held gone held' (some e) k n o h = record {
  once = λ y. ground (arith, k.once y, n);
  held_given = λ y. ground (arith, k.held_given y, h y);
  gone_given = λ y. ground (arith, k.gone_given y);
  found = λ y. ground (arith, k.found y, k.once y, h y, o e refl);
}

-- An endpoint is unpublished, which is kept or not.
pub Tracked-gone :
    (e : ℕ) (given held gone : List ℕ)
    → Tracked given held gone
    → 0 < count e given
    → Tracked given held (unpublish_endpoint gone e)
Tracked-gone e given held gone k n = record {
  once = k.once;
  held_given = k.held_given;
  gone_given = λ y. ground (arith, k.gone_given y, count-unpublish_endpoint gone e y, n);
  found = λ y. ground (arith, k.found y, count-unpublish_endpoint gone e y);
}

pub Tracked-dropped :
    (e : ℕ) (given held gone held' : List ℕ)
    → Tracked given held gone
    → ((y : ℕ) → count y held' + (if y == e then 1 else 0) ≡ count y held)
    → Tracked given held' (unpublish_endpoint gone e)
Tracked-dropped e given held gone held' k h = record {
  once = k.once;
  held_given = λ y. ground (arith, k.held_given y, h y);
  gone_given =
      λ y. ground (arith, k.gone_given y, k.held_given y, h y, count-unpublish_endpoint gone e y);
  found = λ y. ground (arith, k.found y, k.once y, h y, count-unpublish_endpoint gone e y);
}

pub Tracked-all :
    (given held gone : List ℕ)
    → Tracked given held gone
    → Tracked given [] (unpublish_all gone held)
unfolding count
Tracked-all given held gone k = record {
  once = k.once;
  held_given = λ y. omega arith;
  gone_given = λ y. ground (arith, k.gone_given y, k.held_given y, count-unpublish_all gone held y);
  found = λ y. ground (arith, k.found y, k.once y, count-unpublish_all gone held y);
}
