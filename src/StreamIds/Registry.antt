-- ===== src/StreamIds/Registry.antt =====
-- The map of live streams: `addLocked`, `find` and `remove`.
use copper.Prelude.{
  ℕ, ◌≡◌, refl, arith, [], ◌∷◌, ◌==◌, ◌&&◌, if◌then◌else◌, none, some, Option-cases, inl, inr,
}
use copper.StreamIds.{Live, Streams, find, delete, add, remove}

find-delete :
    (live : Live) (id k : ℕ) → find (delete live id) k ≡ (if id == k then none else find live k)
unfolding find delete
find-delete [] id k = ground arith
find-delete ((j, s) ∷ rest) id k = ground (arith, find-delete rest id k)

-- After `addLocked` the id stands for the stream added, and every other id for what it stood for.
pub find-add :
    (s : Streams) (id stream k : ℕ)
    → find (add s id stream).live k ≡ (if id == k then some stream else find s.live k)
unfolding add find
find-add s id stream k = ground (arith, find-delete s.live id k)

-- `remove` frees the id when it still stands for this stream, and changes nothing when the id has
-- passed to another stream or to none. Other ids are left alone.
pub find-remove :
    (s : Streams) (id stream k : ℕ)
    → find (remove s id stream).live k ≡ (elim (find s.live id) [
      | none ↦ find s.live k
      | some t ↦ if (t == stream) && (id == k) then none else find s.live k
    ])
unfolding remove
find-remove s id stream k = elim (Option-cases (find s.live id)) [
  | inl e ↦ rw (e, remove) refl
  | inr (t, e) ↦ rw (e, remove) (ground (arith, find-delete s.live id k))
]
