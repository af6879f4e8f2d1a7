-- ===== src/Base/Errno.antt =====
-- The error numbers of the platform (Linux), where EWOULDBLOCK is EAGAIN.
use Prim.Native.Nat.{ℕ}

abbrev pub eintr : ℕ
eintr = 4

abbrev pub eagain : ℕ
eagain = 11

abbrev pub enomem : ℕ
enomem = 12

abbrev pub enospc : ℕ
enospc = 28

abbrev pub etime : ℕ
etime = 62

abbrev pub enobufs : ℕ
enobufs = 105
