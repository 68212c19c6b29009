-- ===== src/Frame/FrameType.antt =====
-- The frame type codes of frame.go.
use Prim.Native.Nat.{ℕ}

abbrev pub ping : ℕ
ping = 0

abbrev pub data_type : ℕ
data_type = 1

abbrev pub reset : ℕ
reset = 2

abbrev pub window : ℕ
window = 3

abbrev pub settings : ℕ
settings = 4
