-- ===== src/Frame/Flag.antt =====
-- The frame flags of frame.go.
use Prim.Native.Nat.{ℕ}

abbrev pub ping_ack : ℕ
ping_ack = 1

abbrev pub data_eof : ℕ
data_eof = 1

abbrev pub data_open : ℕ
data_open = 2

abbrev pub data_ack : ℕ
data_ack = 4

abbrev pub reset_read : ℕ
reset_read = 1

abbrev pub reset_write : ℕ
reset_write = 2

abbrev pub settings_ack : ℕ
settings_ack = 1
