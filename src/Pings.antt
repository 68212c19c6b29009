-- ===== src/Pings.antt =====
-- The pings of a connection that wait for their reply (rawconn_pings.go). A callback is a number;
-- the calls made are returned, each with its argument.
pub mod Replies
pub mod Once
use copper.Prelude.{
  ℕ, List, [], ◌∷◌, ◌++◌, Bool, true, false, ◌==◌, ◌&&◌, if◌then◌else◌, Option, none, some,
}
use copper.Errors.{GoError}
use copper.Outgoing.{Outgoing, add_ping_queue, clear_ping_queue, add_ping_ack}

-- Equality of two arrays of ping data.
unfoldable pub same : List ℕ → List ℕ → Bool
same [] [] = true
same [] (y ∷ ys) = false
same (x ∷ xs) [] = false
same (x ∷ xs) (y ∷ ys) = x == y && same xs ys

-- The map from ping data to callbacks, by its pairs.
abbrev pub Waiting : Type 0
Waiting = List (List ℕ × List ℕ)

-- The value at a missing key is nil.
unfoldable pub callbacks : Waiting → List ℕ → List ℕ
callbacks [] key = []
callbacks ((k, cs) ∷ rest) key = if same k key then cs else callbacks rest key

unfoldable pub store : Waiting → List ℕ → List ℕ → Waiting
store [] key value = (key, value) ∷ []
store ((k, cs) ∷ rest) key value =
    if same k key then (k, value) ∷ rest else (k, cs) ∷ store rest key value

unfoldable pub delete : Waiting → List ℕ → Waiting
delete [] key = []
delete ((k, cs) ∷ rest) key = if same k key then delete rest key else (k, cs) ∷ delete rest key

pub record Pings : Type 0 where
  pub err : Option GoError
  pub pings : Waiting

abbrev pub init : Pings
init = record { err = none; pings = [] }

-- A call of a callback with nil or an error.
abbrev pub Called : Type 0
Called = ℕ × Option GoError

abbrev pub first_error : Option GoError → GoError → GoError
first_error (some old) e = old
first_error none e = e

-- The calls of a list of callbacks with one error, and those of the whole map.
unfoldable pub call_all : List ℕ → GoError → List Called
call_all [] e = []
call_all (c ∷ cs) e = (c, some e) ∷ call_all cs e

unfoldable pub call_map : Waiting → GoError → List Called
unfolding call_all
call_map [] e = []
call_map ((k, cs) ∷ rest) e = call_all cs e ++ call_map rest e

-- The callbacks are called with the error handed in, also where an older one is kept.
unfoldable pub fail : Pings → Outgoing → GoError → List Called × Pings × Outgoing
unfolding call_map
fail p o e = (
  call_map p.pings e,
  record { err = some (first_error p.err e); pings = [] },
  clear_ping_queue o,
)

-- `addPing`, by the error that is kept.
unfoldable pub add_ping_with :
    Pings → Outgoing → List ℕ → ℕ → Option GoError → Option GoError × Pings × Outgoing
add_ping_with p o key callback (some e) = (some e, p, o)
add_ping_with p o key callback none = (
  none,
  record p { pings = store p.pings key (callbacks p.pings key ++ (callback ∷ [])) },
  add_ping_queue o key,
)

unfoldable pub add_ping : Pings → Outgoing → List ℕ → ℕ → Option GoError × Pings × Outgoing
unfolding add_ping_with
add_ping p o key callback = add_ping_with p o key callback p.err

unfoldable pub handle_ping : Outgoing → List ℕ → Outgoing
handle_ping o key = add_ping_ack o key

-- `handleAck`, by the callbacks that wait for the data.
unfoldable pub handle_ack_with : Pings → List ℕ → List ℕ → List Called × Pings
handle_ack_with p key [] = ([], p)
handle_ack_with p key (c ∷ []) = ((c, none) ∷ [], record p { pings = delete p.pings key })
handle_ack_with p key (c ∷ d ∷ cs) =
    ((c, none) ∷ [], record p { pings = store p.pings key (d ∷ cs) })

unfoldable pub handle_ack : Pings → List ℕ → List Called × Pings
unfolding handle_ack_with
handle_ack p key = handle_ack_with p key (callbacks p.pings key)
