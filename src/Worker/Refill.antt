-- ===== src/Worker/Refill.antt =====
-- src/worker.cpp: the queue by which zero-copy receive gives buffers back to the kernel. The queue is
-- shared: `khead`, how far the kernel has read, is an input of each call.
pub mod Pending
pub mod Values
pub mod Queue
pub mod Fifo
mod Tests
use uring_perf.Base.{
  ℕ, ◌+◌, ◌-◌, ◌%◌, ◌^◌, bit_and, bit_or, ◌==◌, if◌then◌else◌, ℤ, to_unsigned, u32,
}

pub record Rqe : Type 0 where
  pub off : ℕ
  pub len : ℕ

-- `io_uring_zcrx_rq` and the token of the area. `ktail` is what the kernel is shown of `rq_tail`.
pub record RefillQueue : Type 0 where
  pub rq_tail : ℕ
  pub ktail : ℕ
  pub ring_entries : ℕ
  pub rqes : ℕ → Rqe
  pub area_token : ℕ

-- The words wrap.
unfoldable pub zcrx_rq_nr_queued : RefillQueue → ℕ → ℕ
zcrx_rq_nr_queued rq khead = u32 (rq.rq_tail + (2 ^ 32 - khead))

abbrev pub write : (ℕ → Rqe) → ℕ → Rqe → ℕ → Rqe
write rqes i rqe j = if i == j then rqe else rqes j

-- The entry for a buffer: `& ~IORING_ZCRX_AREA_MASK` leaves the 48 bits below the area.
unfoldable pub refill : RefillQueue → ℕ → ℤ → Rqe
refill rq off res = record {
  off = bit_or (off % 2 ^ 48) rq.area_token;
  len = u32 (to_unsigned res);
}

-- `off` and `res` are those of the completion.
unfoldable pub zcrx_return_buffer : RefillQueue → ℕ → ℕ → ℤ → RefillQueue
zcrx_return_buffer rq khead off res =
    if zcrx_rq_nr_queued rq khead == rq.ring_entries then rq else record rq {
      rqes = write rq.rqes (bit_and rq.rq_tail (rq.ring_entries - 1)) (refill rq off res);
      rq_tail = u32 (rq.rq_tail + 1);
      ktail = u32 (rq.rq_tail + 1);
    }

-- The i-th entry that the kernel has still to read.
unfoldable pub pending : RefillQueue → ℕ → ℕ → Rqe
pending rq khead i = rq.rqes (bit_and (u32 (khead + i)) (rq.ring_entries - 1))
