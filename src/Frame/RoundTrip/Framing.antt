-- ===== src/Frame/RoundTrip/Framing.antt =====
-- A header and its payload, read back from the front of the input.
use copper.Prelude.{
  ℕ, ◌^◌, ◌<◌, ◌≡◌, refl, ap, sym, arith, List, [], ◌∷◌, ◌++◌, ltb, if◌then◌else◌, length, take,
  drop, length-append, take-append_self, drop-append_self,
}
use copper.Pow2.{minpow2}
use copper.Errors.{GoError, ok}
use copper.Frame.{FrameHeader}
use copper.Frame.Wire.{header_bytes, length-header_bytes, decode_header-header_bytes}
use copper.Frame.Reader.{Reader, read_full, read_header, read_payload, read_body, read_frame, parse}

read_full-append :
    (r : Reader) (xs rest : List ℕ) (n : ℕ)
    → r.input ≡ xs ++ rest
    → n ≡ length xs
    → read_full r n ≡ (ok xs, record r { input = rest })
unfolding read_full
read_full-append r xs rest n e h = ground (
  arith,
  ap length e,
  length-append xs rest,
  ap (take n) e,
  ap (drop n) e,
  take-append_self xs rest n h,
  drop-append_self xs rest n h,
)

-- The size of the payload buffer after a payload of `n` bytes.
abbrev pub grow : ℕ → ℕ → ℕ
grow scratch n = if ltb 0 n then (if ltb scratch n then minpow2 n else scratch) else scratch

read_payload-append :
    (r : Reader) (xs rest : List ℕ)
    → r.input ≡ xs ++ rest
    → read_payload r (length xs)
      ≡ (ok xs, record r { input = rest; scratch = grow r.scratch (length xs) })
unfolding read_payload
read_payload-append r [] rest e = ground (arith, e)
read_payload-append r (x ∷ xs) rest e =
    let n = length (x ∷ xs) in
    ground
      (arith, read_full-append (record r { scratch = grow r.scratch n }) (x ∷ xs) rest n e refl)

pub read_frame-packet :
    (type flags id : ℕ) (payload rest : List ℕ) (fin : GoError) (scratch : ℕ)
    → type < 256
    → flags < 256
    → length payload < 2 ^ 24
    → id < 2 ^ 32
    → read_frame (record {
      input = header_bytes type flags (length payload) id ++ (payload ++ rest);
      fin = fin;
      scratch = scratch;
    })
      ≡ (
        parse
            (record { type = type; flags = flags; length = length payload; stream_id = id })
            payload,
        record { input = rest; fin = fin; scratch = grow scratch (length payload) },
      )
unfolding read_frame read_header read_body
read_frame-packet type flags id payload rest fin scratch ht hf hl hi =
    let h : FrameHeader = record {
      type = type;
      flags = flags;
      length = length payload;
      stream_id = id;
    } in
    let head = header_bytes type flags (length payload) id in
    let r : Reader = record { input = head ++ (payload ++ rest); fin = fin; scratch = scratch } in
    let r' : Reader = record { input = payload ++ rest; fin = fin; scratch = scratch } in
    ground (
      arith,
      read_full-append r head (payload ++ rest) 9 refl
          (sym (length-header_bytes type flags (length payload) id)),
      decode_header-header_bytes type flags (length payload) id ht hf hl hi,
      read_payload-append r' payload rest refl,
    )
