-- ===== src/Watch.antt =====
-- A stream of changes to the published services (server_changes.go), and what a reader makes of it.
-- A publication is known by its target id.
pub mod Batch
pub mod View
use copper.Prelude.{
  ℕ, zero, suc, ◌+◌, ◌-◌, List, [], ◌∷◌, ◌++◌, length, take, drop, Bool, true, false, ◌==◌, ltb,
  if◌then◌else◌, Option, none, some, min,
}
use copper.Prelude.Counts.{count, erase, include}
use copper.Publication.{PublishSettings}

-- What a change tells of a publication: its name and settings.
pub record Service : Type 0 where
  pub name : List ℕ
  pub settings : PublishSettings

-- `serverServiceChangesStream`; `wakeups` counts the broadcasts.
pub record Watch : Type 0 where
  pub closed : Bool
  pub wakeups : ℕ
  pub sent : List ℕ
  pub removed : List ℕ
  pub changed : List ℕ

-- The publications of the server, by target id.
abbrev pub Services : Type 0
Services = ℕ → Option Service

-- `newServerServiceChangesStream`, with the targets that have endpoints.
unfoldable pub new_watch : List ℕ → Watch
new_watch targets = record {
  closed = false;
  wakeups = 0;
  sent = [];
  removed = [];
  changed = targets;
}

-- `addRemovedLocked` and `addChangedLocked`
unfoldable pub add_removed : Watch → ℕ → Watch
add_removed w t =
    if w.closed
    then w
    else if ltb 0 (count t w.sent)
    then record w {
      changed = erase t w.changed;
      removed = include t w.removed;
      wakeups = w.wakeups + 1;
    }
    else record w { changed = erase t w.changed }

unfoldable pub add_changed : Watch → ℕ → Watch
add_changed w t = if w.closed then w else record w {
  removed = erase t w.removed;
  changed = include t w.changed;
  wakeups = w.wakeups + 1;
}

-- `ServiceChanges`
pub record Changes : Type 0 where
  pub removed : List ℕ
  pub changed : List (ℕ × Option Service)

abbrev pub max_changed_services_batch : ℕ
max_changed_services_batch = 256

-- The loops of `Read` over `removed` and, up to the batch's size, over `changed`.
unfoldable pub erase_all : List ℕ → List ℕ → List ℕ
erase_all [] xs = xs
erase_all (t ∷ ts) xs = erase_all ts (erase t xs)

unfoldable pub include_all : List ℕ → List ℕ → List ℕ
include_all [] xs = xs
include_all (t ∷ ts) xs = include_all ts (include t xs)

abbrev pub describe : Services → List ℕ → List (ℕ × Option Service)
describe services [] = []
describe services (t ∷ ts) = (t, services t) ∷ describe services ts

-- One pass of the loop of `Read`: the end of the stream, a batch, or nothing to return yet.
pub data Reading : Type 0 where
  finished : Reading
  batch : Changes → Watch → Reading
  waiting : Reading

unfoldable pub read : Services → Watch → Reading
read services w =
    if w.closed
    then finished
    else (let now = take max_changed_services_batch w.changed in
        if ltb 0 (length w.removed + length now)
        then batch (record { removed = w.removed; changed = describe services now })
            (record w {
              sent = include_all now (erase_all w.removed w.sent);
              removed = [];
              changed = drop max_changed_services_batch w.changed;
            })
        else waiting)

unfoldable pub stop : Watch → Watch
stop w = if w.closed then w else record w { closed = true; wakeups = w.wakeups + 1 }
