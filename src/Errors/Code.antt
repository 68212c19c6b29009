-- ===== src/Errors/Code.antt =====
-- The error codes of errors.go.
use Prim.Native.Nat.{ℕ}

abbrev pub einternal : ℕ
einternal = 1

abbrev pub eclosed : ℕ
eclosed = 100

abbrev pub einvalid : ℕ
einvalid = 101

abbrev pub etimeout : ℕ
etimeout = 102

abbrev pub enotarget : ℕ
enotarget = 104

abbrev pub econnclosed : ℕ
econnclosed = 200

abbrev pub econnshutdown : ℕ
econnshutdown = 201

abbrev pub eunknownframe : ℕ
eunknownframe = 202

abbrev pub einvalidframe : ℕ
einvalidframe = 203

abbrev pub ewindowoverflow : ℕ
ewindowoverflow = 204

abbrev pub einvalidstream : ℕ
einvalidstream = 205

abbrev pub econntimeout : ℕ
econntimeout = 207
