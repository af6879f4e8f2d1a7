-- ===== src/Worker/Refill/Fifo.antt =====
-- src/worker.cpp: the refill queue with the kernel's end of it, and a bounded queue to compare it with.
use uring_perf.Base.{
  ℕ, ◌+◌, ◌-◌, ◌%◌, ◌^◌, ◌≤◌, ◌<◌, ◌≡◌, bit_or, min, List, [], ◌∷◌, ◌++◌, ◌==◌, if◌then◌else◌, ℤ,
  to_unsigned, u32, length, take, drop,
}
use uring_perf.Worker.Refill.{RefillQueue, Rqe, zcrx_rq_nr_queued, zcrx_return_buffer, pending}
use uring_perf.Worker.Refill.Values.{values}

-- The queue with both its ends: what the worker shows, and how far the kernel has read, with what it
-- has read.
pub record Shared : Type 0 where
  pub rq : RefillQueue
  pub khead : ℕ
  pub read : List Rqe

-- The worker gives back a buffer, or the kernel reads up to so many entries.
pub data Use : Type 0 where
  gives : ℕ → ℤ → Use
  reads : ℕ → Use

-- How many entries the kernel is shown: up to the tail that was published, in 32 bits.
abbrev pub shown : RefillQueue → ℕ → ℕ
shown rq khead = u32 (rq.ktail + (2 ^ 32 - khead))

-- What the kernel finds in the queue.
abbrev pub contents : RefillQueue → ℕ → List Rqe
contents rq khead = values (pending rq khead) 0 (shown rq khead)

abbrev pub use_queue : Shared → Use → Shared
use_queue s (gives off res) = record s { rq = zcrx_return_buffer s.rq s.khead off res }
use_queue s (reads n) =
    let m = min n (shown s.rq s.khead) in
    record s { khead = u32 (s.khead + m); read = s.read ++ values (pending s.rq s.khead) 0 m }

abbrev pub use_all : Shared → List Use → Shared
use_all s [] = s
use_all s (u ∷ us) = use_all (use_queue s u) us

-- The specification: what is in a queue with room for `size`, and what has come out.
pub record Fifo : Type 0 where
  pub inside : List Rqe
  pub out : List Rqe

-- The entry for a buffer, with the token of the area.
abbrev pub entry : ℕ → ℕ → ℤ → Rqe
entry token off res = record { off = bit_or (off % 2 ^ 48) token; len = u32 (to_unsigned res) }

abbrev pub use_fifo : ℕ → ℕ → Fifo → Use → Fifo
use_fifo size token q (gives off res) =
    if length q.inside == size
    then q
    else record q { inside = q.inside ++ (entry token off res ∷ []) }
use_fifo size token q (reads n) = record {
  inside = drop n q.inside;
  out = q.out ++ take n q.inside;
}

abbrev pub use_fifo_all : ℕ → ℕ → Fifo → List Use → Fifo
use_fifo_all size token q [] = q
use_fifo_all size token q (u ∷ us) = use_fifo_all size token (use_fifo size token q u) us

abbrev pub fifo_of : Shared → Fifo
fifo_of s = record { inside = contents s.rq s.khead; out = s.read }

-- The ring has 2 ^ k entries, the tail is published, and the kernel is at most that many behind.
pub record IsRing (k token : ℕ) (s : Shared) : Type 0 where
  pub small : k ≤ 31
  pub entries : s.rq.ring_entries ≡ 2 ^ k
  pub tail : s.rq.rq_tail < 2 ^ 32
  pub head : s.khead < 2 ^ 32
  pub fits : zcrx_rq_nr_queued s.rq s.khead ≤ 2 ^ k
  pub published : s.rq.ktail ≡ s.rq.rq_tail
  pub has_token : s.rq.area_token ≡ token
