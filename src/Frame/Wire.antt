-- ===== src/Frame/Wire.antt =====
-- Big-endian numbers and the frame header as bytes.
use copper.Prelude.{
  ℕ, ◌+◌, ◌*◌, ◌/◌, ◌%◌, ◌^◌, ◌<◌, ◌≡◌, refl, arith, List, [], ◌∷◌, bit_or, get_or, length,
}
use copper.Prelude.Bits.{bit_or-disjoint}
use copper.Frame.{FrameHeader}

-- `binary.BigEndian.PutUint16` and `PutUint32`: the bytes of a number, cut to the width.
abbrev pub put_uint16 : ℕ → List ℕ
put_uint16 x = x / 2 ^ 8 % 256 ∷ x % 256 ∷ []

abbrev pub put_uint32 : ℕ → List ℕ
put_uint32 x = x / 2 ^ 24 % 256 ∷ x / 2 ^ 16 % 256 ∷ x / 2 ^ 8 % 256 ∷ x % 256 ∷ []

-- `binary.BigEndian.Uint16` and `Uint32` of the bytes from index `at` on.
abbrev pub uint16 : List ℕ → ℕ → ℕ
uint16 bs at = get_or bs at 0 * 2 ^ 8 + get_or bs (at + 1) 0

abbrev pub uint32 : List ℕ → ℕ → ℕ
uint32 bs at =
    get_or bs at 0 * 2 ^ 24
    + get_or bs (at + 1) 0 * 2 ^ 16
    + get_or bs (at + 2) 0 * 2 ^ 8
    + get_or bs (at + 3) 0

-- The buffer that `WriteHeader` fills.
pub header_bytes : ℕ → ℕ → ℕ → ℕ → List ℕ
header_bytes type flags length stream_id =
    stream_id / 2 ^ 24 % 256
    ∷ stream_id / 2 ^ 16 % 256
    ∷ stream_id / 2 ^ 8 % 256
    ∷ stream_id % 256
    ∷ length / 2 ^ 16 % 256
    ∷ length / 2 ^ 8 % 256
    ∷ length % 256
    ∷ flags % 256
    ∷ type % 256
    ∷ []

-- The header that `ReadHeader` takes out of its buffer.
pub decode_header : List ℕ → FrameHeader
decode_header buf = record {
  type = get_or buf 8 0;
  flags = get_or buf 7 0;
  length = bit_or (bit_or (get_or buf 4 0 * 2 ^ 16) (get_or buf 5 0 * 2 ^ 8)) (get_or buf 6 0);
  stream_id =
      bit_or
        (bit_or (bit_or (get_or buf 0 0 * 2 ^ 24) (get_or buf 1 0 * 2 ^ 16))
          (get_or buf 2 0 * 2 ^ 8))
        (get_or buf 3 0);
}

or_3 :
    (a b c : ℕ)
    → b < 256
    → c < 256
    → bit_or (bit_or (a * 2 ^ 16) (b * 2 ^ 8)) c ≡ a * 2 ^ 16 + b * 2 ^ 8 + c
or_3 a b c hb hc =
    ground (
      arith,
      bit_or-disjoint 16 a (b * 2 ^ 8) (omega arith),
      bit_or-disjoint 8 (a * 2 ^ 8 + b) c hc,
    )

or_4 :
    (a b c d : ℕ)
    → b < 256
    → c < 256
    → d < 256
    → bit_or (bit_or (bit_or (a * 2 ^ 24) (b * 2 ^ 16)) (c * 2 ^ 8)) d
      ≡ a * 2 ^ 24 + b * 2 ^ 16 + c * 2 ^ 8 + d
or_4 a b c d hb hc hd = ground (
  arith,
  bit_or-disjoint 24 a (b * 2 ^ 16) (omega arith),
  bit_or-disjoint 16 (a * 2 ^ 8 + b) (c * 2 ^ 8) (omega arith),
  bit_or-disjoint 8 (a * 2 ^ 16 + b * 2 ^ 8 + c) d hd,
)

pub length-header_bytes : (type flags size id : ℕ) → length (header_bytes type flags size id) ≡ 9
unfolding header_bytes
length-header_bytes type flags size id = refl

-- A header whose fields fit their widths comes back from its nine bytes.
pub decode_header-header_bytes :
    (type flags size id : ℕ)
    → type < 256
    → flags < 256
    → size < 2 ^ 24
    → id < 2 ^ 32
    → decode_header (header_bytes type flags size id)
      ≡ record { type = type; flags = flags; length = size; stream_id = id }
unfolding decode_header header_bytes
decode_header-header_bytes type flags size id ht hf hs hi = ground (
  arith,
  or_3 (size / 2 ^ 16 % 256) (size / 2 ^ 8 % 256) (size % 256) (omega arith) (omega arith),
  or_4 (id / 2 ^ 24 % 256) (id / 2 ^ 16 % 256) (id / 2 ^ 8 % 256) (id % 256) (omega arith)
      (omega arith) (omega arith),
)

pub uint32-put_uint32 : (x : ℕ) → x < 2 ^ 32 → uint32 (put_uint32 x) 0 ≡ x
uint32-put_uint32 x h = omega arith
