-- ===== src/Worker/Refill/Tests.antt =====
-- A queue of four entries whose tail has wrapped around, with one entry free.
use uring_perf.Base.{ℕ, ◌-◌, ◌*◌, ◌^◌, ◌≤◌, ◌≡◌, refl, arith, List, [], ◌∷◌, pos}
use uring_perf.Worker.Refill.{RefillQueue, zcrx_rq_nr_queued}
use uring_perf.Worker.Refill.Queue.{use_all-refines}
use uring_perf.Worker.Refill.Fifo.{Shared, Use, gives, reads, use_all, fifo_of, use_fifo_all}

abbrev wrapped : RefillQueue
wrapped = record {
  rq_tail = 1;
  ktail = 1;
  ring_entries = 4;
  rqes = λ i. record { off = 4096 * i; len = 100 };
  area_token = 2 ^ 48;
}

abbrev reader : ℕ
reader = 2 ^ 32 - 2

wrapped_fits : zcrx_rq_nr_queued wrapped reader ≤ 2 ^ 2
unfolding zcrx_rq_nr_queued
wrapped_fits = omega arith

abbrev shared : Shared
shared = record { rq = wrapped; khead = reader; read = [] }

-- The second buffer finds the queue full.
abbrev uses : List Use
uses = gives 8192 (pos 1500) ∷ gives 12288 (pos 700) ∷ reads 2 ∷ gives 16384 (pos 9) ∷ reads 7 ∷ []

use_all-refines_example :
    fifo_of (use_all shared uses) ≡ use_fifo_all (2 ^ 2) (2 ^ 48) (fifo_of shared) uses
use_all-refines_example = use_all-refines 2 (2 ^ 48) shared uses (record {
  small = omega arith;
  entries = refl;
  tail = omega arith;
  head = omega arith;
  fits = wrapped_fits;
  published = refl;
  has_token = refl;
})
