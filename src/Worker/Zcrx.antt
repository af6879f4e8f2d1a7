-- ===== src/Worker/Zcrx.antt =====
-- src/worker.cpp: the means of zero-copy receive, from `kZcrxReqTypeMask` to `zcrx_submit_recv`, but
-- for the refill queue. What the kernel answers is an input.
pub mod Server
pub mod Client
pub mod Run
pub mod Tags
pub mod Flight
pub mod Ownership
pub mod Handlers
pub mod Serving
pub mod Closing
pub mod Holdings
pub mod Release
pub mod Counting
pub mod Summary
mod Tests
use uring_perf.Base.{
  ℕ, zero, suc, ◌+◌, ◌-◌, ◌*◌, ◌^◌, bit_and, bit_or, Bool, true, false, ◌||◌, List, [], ◌∷◌, ◌++◌,
  Option, none, some, ◌==◌, if◌then◌else◌, ℤ, pos, negsuc, to_unsigned, is_positive, is_errno,
  has_flag, u64,
}
use uring_perf.Base.Errno
use uring_perf.Engine.Reap.{Cqe}
use uring_perf.Stats.Counters.{StatsCollector, add_bytes, add_zc_notification}
use uring_perf.Worker.Cqe.{cqe_f_more}
use uring_perf.Worker.Refill.{RefillQueue, Rqe, zcrx_return_buffer}

-- What is taken and given back.
pub data Holding : Type 0 where
  mmap munmap : ℕ → ℕ → Holding  -- address, size
  queue_init queue_exit : Holding
  open_fd close_fd : ℕ → Holding

pub record ZcrxState : Type 0 where
  pub area_ptr : Option ℕ
  pub ring_ptr : Option ℕ
  pub ring_size : ℕ
  pub rq : RefillQueue
  pub zcrx_id : ℕ

-- What `zcrx_setup` is answered: the size of a page, the number of the interface or 0, the two
-- mappings where they succeed, and the registration with what it fills in. `rqes` is what the ring's
-- memory holds.
pub record ZcrxAnswers : Type 0 where
  pub page_size : ℕ
  pub ifindex : ℕ
  pub ring_map : Option ℕ
  pub area_map : Option ℕ
  pub register : ℤ
  pub rq_entries : ℕ
  pub zcrx_id : ℕ
  pub rq_area_token : ℕ
  pub rqes : ℕ → Rqe

abbrev no_queue : RefillQueue
no_queue = record {
  rq_tail = 0;
  ktail = 0;
  ring_entries = 0;
  rqes = λ i. record { off = 0; len = 0 };
  area_token = 0;
}

abbrev pub no_zcrx : ZcrxState
no_zcrx = record { area_ptr = none; ring_ptr = none; ring_size = 0; rq = no_queue; zcrx_id = 0 }

-- The words are of 64 bits.
unfoldable pub zcrx_align_up : ℕ → ℕ → ℕ
zcrx_align_up v a = bit_and (u64 (v + a - 1)) (2 ^ 64 - a)

-- The size of `struct io_uring_zcrx_rqe`
abbrev sizeof_rqe : ℕ
sizeof_rqe = 16

abbrev pub refill_ring_size : ZcrxAnswers → ℕ → ℕ
refill_ring_size a rq_entries = zcrx_align_up (rq_entries * sizeof_rqe + a.page_size) a.page_size

-- The registration, with both mappings there.
unfoldable pub register_ifq : ℤ → ZcrxAnswers → ℕ → ℕ → ℕ → ℕ → Bool × ZcrxState × List Holding
register_ifq (pos zero) a ring size area area_size = (
  true,
  record {
    area_ptr = some area;
    ring_ptr = some ring;
    ring_size = size;
    rq = record {
      rq_tail = 0;
      ktail = 0;
      ring_entries = a.rq_entries;
      rqes = a.rqes;
      area_token = a.rq_area_token;
    };
    zcrx_id = a.zcrx_id;
  },
  mmap ring size ∷ mmap area area_size ∷ [],
)
register_ifq (pos (suc n)) a ring size area area_size = (
  false,
  record no_zcrx { ring_size = size },
  mmap ring size ∷ mmap area area_size ∷ munmap area area_size ∷ munmap ring size ∷ [],
)
register_ifq (negsuc n) a ring size area area_size = (
  false,
  record no_zcrx { ring_size = size },
  mmap ring size ∷ mmap area area_size ∷ munmap area area_size ∷ munmap ring size ∷ [],
)

-- From the mapping of the area on.
unfoldable pub map_area : Option ℕ → ZcrxAnswers → ℕ → ℕ → ℕ → Bool × ZcrxState × List Holding
map_area none a ring size area_size =
    (false, record no_zcrx { ring_size = size }, mmap ring size ∷ munmap ring size ∷ [])
map_area (some area) a ring size area_size = register_ifq a.register a ring size area area_size

-- From the mapping of the refill ring on.
unfoldable pub map_ring : Option ℕ → ZcrxAnswers → ℕ → ℕ → Bool × ZcrxState × List Holding
map_ring none a size area_size = (false, record no_zcrx { ring_size = size }, [])
map_ring (some ring) a size area_size = map_area a.area_map a ring size area_size

unfoldable pub zcrx_setup : ZcrxAnswers → ℕ → ℕ → Bool × ZcrxState × List Holding
zcrx_setup a area_size rq_entries =
    if a.ifindex == 0
    then (false, no_zcrx, [])
    else map_ring a.ring_map a (refill_ring_size a rq_entries) area_size

abbrev unmap : Option ℕ → ℕ → List Holding
unmap none size = []
unmap (some p) size = munmap p size ∷ []

unfoldable pub zcrx_teardown : ZcrxState → ℕ → List Holding
zcrx_teardown st area_size = unmap st.area_ptr area_size ++ unmap st.ring_ptr st.ring_size

pub record ZcrxConn : Type 0 where
  pub fd : ℕ

pub data ZcrxSqe : Type 0 where
  accept : ℕ → ZcrxSqe
  recv_zc : ℕ → ℕ → ZcrxSqe  -- descriptor, zcrx_id

-- The ring of a zero-copy worker: whether `io_uring_get_sqe` has an entry at its n-th call, the calls
-- so far, what was queued, newest first, and the user data of the operations that the kernel has not
-- yet completed for good.
pub record ZcrxRing : Type 0 where
  pub slots : ℕ → Bool
  pub gets : ℕ
  pub sqes : List ZcrxSqe
  pub flight : List ℕ

-- `sqe` is used without a test: where there is none, that is a fault.
unfoldable pub queue_sqe : ZcrxRing → ZcrxSqe → ℕ → Option ZcrxRing
queue_sqe r sqe user_data =
    if r.slots r.gets
    then some (record r { gets = r.gets + 1; sqes = sqe ∷ r.sqes; flight = user_data ∷ r.flight })
    else none

-- kZcrxReqAccept and kZcrxReqRx
abbrev pub req_accept : ℕ
req_accept = 1

abbrev pub req_rx : ℕ
req_rx = 2

-- user_data & kZcrxReqTypeMask
abbrev pub tag_of : ℕ → ℕ
tag_of user_data = bit_and user_data 7

-- user_data & ~kZcrxReqTypeMask
abbrev pub pointer_of : ℕ → ℕ
pointer_of user_data = bit_and user_data (2 ^ 64 - 8)

abbrev pub rx_data : ℕ → ℕ
rx_data conn = bit_or conn req_rx

unfoldable pub zcrx_submit_accept : ZcrxRing → ℕ → Option ZcrxRing
zcrx_submit_accept r listen_fd = queue_sqe r (accept listen_fd) req_accept

-- The connection is at the address `conn`.
unfoldable pub zcrx_submit_recv : ZcrxRing → ℕ → ZcrxConn → ℕ → Option ZcrxRing
zcrx_submit_recv r conn c zcrx_id = queue_sqe r (recv_zc c.fd zcrx_id) (rx_data conn)

-- A completion with its `io_uring_zcrx_cqe`, and what the handler reads and is answered while it
-- deals with it: how far the kernel has read the refill queue, the stop signal, the flags of a new
-- descriptor, and the address of a new connection.
pub record ZcrxEvent : Type 0 where
  pub cqe : Cqe
  pub off : ℕ
  pub khead : ℕ
  pub stop : Bool
  pub flags : ℤ
  pub ptr : ℕ

abbrev pub has_more : ZcrxEvent → Bool
has_more ev = has_flag ev.cqe.flags cqe_f_more

-- res == -ENOSPC || res == -ENOMEM
abbrev pub is_recoverable : ZcrxEvent → Bool
is_recoverable ev = is_errno ev.cqe.res Errno.enospc || is_errno ev.cqe.res Errno.enomem

abbrev pub remove_one : ℕ → List ℕ → List ℕ
remove_one x [] = []
remove_one x (y ∷ ys) = let rest = remove_one x ys in if x == y then ys else y ∷ rest

-- The kernel is done with an operation unless it announces more.
unfoldable pub completed : ZcrxRing → ZcrxEvent → ZcrxRing
completed r ev =
    if has_more ev then r else record r { flight = remove_one ev.cqe.user_data r.flight }

-- What data does: it is counted, and its buffer given back.
unfoldable pub take_zcrx :
    StatsCollector → ℕ → RefillQueue → ZcrxEvent → StatsCollector × RefillQueue
take_zcrx stats thread_id rq ev =
    if is_positive ev.cqe.res
    then (
      add_zc_notification (add_bytes stats thread_id (to_unsigned ev.cqe.res) 1) thread_id,
      zcrx_return_buffer rq ev.khead ev.off ev.cqe.res,
    )
    else (stats, rq)
