-- ===== src/Tests/Buffers.antt =====
-- Runs of the buffer (buffer.go) and of the queue of streams (rawstream_queue.go).
use copper.Prelude.{
  ℕ, ◌≡◌, ◌≤◌, ◌<◌, ◌^◌, ◌*◌, refl, arith, [], ◌∷◌, ◌++◌, min, take, drop, none, some,
}
use copper.Pow2.{minpow2}
use copper.Prelude.Arrays.{tabulate}
use copper.Ring.{window}
use copper.Pow2.Bounds.{minpow2_bounds}
use copper.Buffer.{Buffer, write, writebyte, read, discard, readbyte, peek}
use copper.Buffer.Valid
use copper.Buffer.Valid.{contents}
use copper.Buffer.Write.{contents-write, contents-writebyte}
use copper.Buffer.Read.{contents-read, contents-discard, contents-readbyte}
use copper.Buffer.Peek.{contents-peek}
use copper.StreamQueue.{StreamQueue, push}
use copper.StreamQueue
use copper.StreamQueue.Fifo.{Holds, Holds-push, Holds-take, take-empty}

minpow2_bounds_example : ((k : ℕ) × (minpow2 5 ≡ 2 ^ k)) × (5 ≤ minpow2 5) × (minpow2 5 < 2 * 5)
minpow2_bounds_example = minpow2_bounds 5 (omega arith) (omega arith)

-- Four bytes of room, of which the last and the first hold 7 and 8.
abbrev wrapped : Buffer
wrapped = record { buf = 8 ∷ 0 ∷ 0 ∷ 7 ∷ []; off = 3; size = 2 }

wrapped-IsValid : Valid.IsValid wrapped
wrapped-IsValid = record { fits = omega arith; start = omega arith }

contents-write_example :
    (contents (write wrapped (1 ∷ 2 ∷ 3 ∷ [])) ≡ contents wrapped ++ (1 ∷ 2 ∷ 3 ∷ []))
    × Valid.IsValid (write wrapped (1 ∷ 2 ∷ 3 ∷ []))
contents-write_example = contents-write wrapped (1 ∷ 2 ∷ 3 ∷ []) wrapped-IsValid (omega arith)

contents-writebyte_example :
    (contents (writebyte wrapped 9) ≡ contents wrapped ++ (9 ∷ []))
    × Valid.IsValid (writebyte wrapped 9)
contents-writebyte_example = contents-writebyte wrapped 9 wrapped-IsValid (omega arith)

contents-read_example :
    ((read wrapped 1).0 ≡ take 1 (contents wrapped))
    × (contents (read wrapped 1).1 ≡ drop 1 (contents wrapped))
    × Valid.IsValid (read wrapped 1).1
contents-read_example = contents-read wrapped 1 wrapped-IsValid

contents-discard_example :
    ((discard wrapped 5).0 ≡ min 5 2)
    × (contents (discard wrapped 5).1 ≡ drop 5 (contents wrapped))
    × Valid.IsValid (discard wrapped 5).1
contents-discard_example = contents-discard wrapped 5 wrapped-IsValid

contents-readbyte_example :
    (c : ℕ) × (b' : Buffer) × (readbyte wrapped ≡ some (c, b'))
    × (contents wrapped ≡ c ∷ contents b')
    × Valid.IsValid b'
contents-readbyte_example = contents-readbyte wrapped wrapped-IsValid (omega arith)

contents-peek_example :
    ((peek wrapped).0 ≡ contents wrapped)
    × (contents (peek wrapped).1 ≡ contents wrapped)
    × Valid.IsValid (peek wrapped).1
contents-peek_example = contents-peek wrapped wrapped-IsValid

-- A full queue whose oldest stream stands last.
abbrev full_queue : StreamQueue
full_queue = record { buf = some 2 ∷ some 3 ∷ some 4 ∷ some 1 ∷ []; off = 3; size = 4 }

full_queue-Holds : Holds full_queue (1 ∷ 2 ∷ 3 ∷ 4 ∷ [])
unfolding window tabulate
full_queue-Holds = (record { fits = omega arith; start = omega arith }, refl)

Holds-push_example : Holds (push full_queue 5) ((1 ∷ 2 ∷ 3 ∷ 4 ∷ []) ++ (5 ∷ []))
Holds-push_example = Holds-push full_queue (1 ∷ 2 ∷ 3 ∷ 4 ∷ []) 5 full_queue-Holds (omega arith)

Holds-take_example :
    ((StreamQueue.take full_queue).0 ≡ some 1)
    × Holds (StreamQueue.take full_queue).1 (2 ∷ 3 ∷ 4 ∷ [])
Holds-take_example = Holds-take full_queue 1 (2 ∷ 3 ∷ 4 ∷ []) full_queue-Holds

empty-Holds : Holds StreamQueue.empty []
unfolding window tabulate
empty-Holds = (record { fits = omega arith; start = omega arith }, refl)

take-empty_example : StreamQueue.take StreamQueue.empty ≡ (none, StreamQueue.empty)
take-empty_example = take-empty StreamQueue.empty empty-Holds
