-- ===== src/Worker/Cqe.antt =====
-- src/worker.cpp: what the handlers read of a completion. The flags are those of the kernel headers.
use uring_perf.Base.{ℕ, ◌/◌, ◌^◌, Bool, if◌then◌else◌, max, u16, to_unsigned, is_errno}
use uring_perf.Base.Errno
use uring_perf.Config.Settings.{Config, is_udp}
use uring_perf.Engine.Reap.{Cqe}

-- IORING_CQE_F_BUFFER
abbrev pub cqe_f_buffer : ℕ
cqe_f_buffer = 1

-- IORING_CQE_F_MORE
abbrev pub cqe_f_more : ℕ
cqe_f_more = 2

-- IORING_CQE_F_NOTIF
abbrev pub cqe_f_notif : ℕ
cqe_f_notif = 8

-- The number of the provided buffer: the flags above IORING_CQE_BUFFER_SHIFT.
abbrev pub buffer_id : Cqe → ℕ
buffer_id c = u16 (c.flags / 2 ^ 16)

-- res == -EAGAIN || res == -EWOULDBLOCK
abbrev pub is_again : Cqe → Bool
is_again c = is_errno c.res Errno.eagain

-- The packets that a positive result stands for.
abbrev pub packets : Config → Cqe → ℕ
packets cfg c = if is_udp cfg.protocol then max 1 (to_unsigned c.res / cfg.udp_gso_size) else 1
