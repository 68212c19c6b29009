-- ===== src/StreamIds.antt =====
-- The live streams of a connection and the allocation of stream ids (rawconn_streams.go).
-- A stream is a number, the identity of the `*rawStream`.
pub mod Allocate
pub mod Registry
use copper.Prelude.{
  ℕ, zero, suc, ◌+◌, ◌%◌, ◌^◌, List, [], ◌∷◌, Bool, true, false, not, ◌==◌, ltb, if◌then◌else◌,
  Option, none, some, bit_and,
}
use copper.Errors.{GoError, Result, ok, err, other_error}
use copper.Frame.{max_stream_id}

-- The map `live`, by its pairs. A key stands once at most where the operations built the list.
abbrev pub Live : Type 0
Live = List (ℕ × ℕ)

unfoldable pub find : Live → ℕ → Option ℕ
find [] id = none
find ((k, s) ∷ rest) id = if k == id then some s else find rest id

-- `delete(m, id)`
unfoldable pub delete : Live → ℕ → Live
delete [] id = []
delete ((k, s) ∷ rest) id = if k == id then delete rest id else (k, s) ∷ delete rest id

pub record Streams : Type 0 where
  pub err : Option GoError
  pub flag : ℕ
  pub next : ℕ
  pub live : Live

unfoldable pub init : Bool → Streams
init server =
    if server
    then record { err = none; flag = 0; next = 2; live = [] }
    else record { err = none; flag = 1; next = 1; live = [] }

unfoldable pub is_client : Streams → Bool
is_client s = not (s.flag == 0)

unfoldable pub is_owned_id : Streams → ℕ → Bool
is_owned_id s id = bit_and id 1 == s.flag

-- `ErrNoFreeStreamID`: "there are no free stream ids available"
abbrev pub no_free_stream_id : GoError
no_free_stream_id = other_error (110 ∷ 111 ∷ 32 ∷ 102 ∷ 114 ∷ 101 ∷ 101 ∷ [])

-- What the loop of `allocateLocked` ends with: an id or an error, and the next id to try. `stuck` is
-- no Go value: the fuel ran out.
pub data Allocated : Type 0 where
  got : ℕ → ℕ → Allocated
  full : ℕ → Allocated
  stuck : Allocated

-- `s.next += 2` on uint32.
abbrev pub after : ℕ → ℕ
after next = (next + 2) % 2 ^ 32

-- `s.next &= MaxStreamID; if s.next == 0 { s.next = 2 }`
unfoldable pub wrap : ℕ → ℕ
wrap next = let n = bit_and next max_stream_id in if n == 0 then 2 else n

-- The loop body, with the rounds left. `wrapped` is the local variable of that name.
unfoldable pub search : ℕ → Live → Bool → ℕ → Allocated
search zero live wrapped id = stuck
search (suc fuel) live wrapped id =
    let n = after id in
    elim (ltb max_stream_id n) [
      | false ↦ elim (find live id) [ none ↦ got id n | some s ↦ search fuel live wrapped n ]
      | true ↦ elim wrapped [
        | true ↦ full n
        | false ↦ elim (find live id) [
          | none ↦ got id (wrap n)
          | some s ↦ search fuel live true (wrap n)
        ]
      ]
    ]

-- Both passes over the 2^30 ids of one parity.
abbrev pub rounds : ℕ
rounds = 2 ^ 31 + 2

-- `allocateLocked` by what the loop ended with, and by the connection's error.
unfoldable pub settle : Streams → Allocated → Result ℕ × Streams
settle s (got id n) = (ok id, record s { next = n })
settle s (full n) = (err no_free_stream_id, record s { next = n })
settle s stuck = (err no_free_stream_id, s)

unfoldable pub allocate_with : Streams → Option GoError → Result ℕ × Streams
allocate_with s (some e) = (err e, s)
allocate_with s none = settle s (search rounds s.live false s.next)

unfoldable pub allocate : Streams → Result ℕ × Streams
allocate s = allocate_with s s.err

-- `addLocked`: the key is bound anew.
unfoldable pub add : Streams → ℕ → ℕ → Streams
add s id stream = record s { live = (id, stream) ∷ delete s.live id }

-- `remove`: only if the id still stands for this very stream.
unfoldable pub remove : Streams → ℕ → ℕ → Streams
remove s id stream = elim (find s.live id) [
  | none ↦ s
  | some t ↦ if t == stream then record s { live = delete s.live id } else s
]
