-- ===== src/Worker/Server.antt =====
-- src/worker.cpp: `run_server` without zero-copy receive. The allocations, the answers of the kernel
-- and the readings of the clock and of the stop signal are inputs. This file has the sessions, its
-- children what is done with the completions.
pub mod Handlers
pub mod Filling
pub mod Loop
pub mod Lifetime
pub mod Sweep
pub mod Listening
pub mod Endurance
pub mod Run
pub mod Counting
pub mod Accounting
pub mod Summary
pub mod Multishot
pub mod Ending
pub mod Flight
pub mod Receiving
pub mod Joining
pub mod Safety
mod Tests
use uring_perf.Base.{
  ℕ, zero, suc, ◌+◌, ◌*◌, ◌^◌, Bool, true, false, ◌&&◌, List, [], ◌∷◌, ◌++◌, Option, none, some,
  ◌==◌, leb, if◌then◌else◌,
}
use uring_perf.Net.Transfer.{RecvRound}
use uring_perf.Net.Handshake.{Handshake}
use uring_perf.Config.Settings.{Config}
use uring_perf.Net.Buffers.{free_buffers}
use uring_perf.Engine.State.{Engine, IoContext, CtxType}
use uring_perf.Engine.Prep.{prep_recv, prep_recv_multishot}
use uring_perf.Engine.Reap.{Cqe}
use uring_perf.Stats.Counters.{StatsCollector}
use uring_perf.Worker.Sending.{send_buffer}
use uring_perf.Worker.Contexts.{Contexts, make, remove_all}

-- The times of the steady clock are in nanoseconds. The contexts are addresses.
pub record ClientSession : Type 0 where
  pub client_fd : ℕ
  pub is_reverse : Bool
  pub deadline : ℕ
  pub buffers : List ℕ
  pub contexts : List ℕ
  pub ms_ctx : Option ℕ

-- The variables of the function; the lists of closed descriptors and freed buffers grow at the head.
pub record Server : Type 0 where
  pub config : Config
  pub thread_id : ℕ
  pub stats : StatsCollector
  pub engine : Engine
  pub ctxs : Contexts
  pub listen_fd : ℕ
  pub accept_ctx : ℕ
  pub use_multishot : Bool
  pub udp_fixed_file : Bool
  pub sessions : List (ℕ × ClientSession)
  pub allocs : ℕ  -- calls of allocate_aligned_buffer
  pub closed : List ℕ
  pub freed : List ℕ

-- A completion, with what the handler reads while it deals with it.
pub record Event : Type 0 where
  pub cqe : Cqe
  pub stop : Bool
  pub now : ℕ
  pub handshake : List RecvRound

-- What comes of a step: a read of a context that is dead is a fault, and a peer that is silent in
-- `recv_handshake` keeps the thread waiting.
pub data Served : Type 0 where
  served : Server → Served
  faults hangs : Served

unfoldable pub lookup : ℕ → List (ℕ × ClientSession) → Option ClientSession
lookup fd [] = none
lookup fd ((k, x) ∷ rest) = if k == fd then some x else lookup fd rest

unfoldable pub erase : ℕ → List (ℕ × ClientSession) → List (ℕ × ClientSession)
erase fd [] = []
erase fd ((k, x) ∷ rest) = let tail = erase fd rest in if k == fd then tail else (k, x) ∷ tail

-- The contexts that die with a session.
abbrev pub owned : ClientSession → List ℕ
owned x = (elim x.ms_ctx [ none ↦ [] | some p ↦ p ∷ [] ]) ++ x.contexts

-- `sessions.erase(it)`, for the session x under fd.
unfoldable pub drop_session : ℕ → ClientSession → Server → Server
drop_session fd x s = record s {
  ctxs = record { alive = remove_all (owned x) s.ctxs.alive; next = s.ctxs.next };
  sessions = erase fd s.sessions;
}

-- `close`, the loop that frees the buffers, and `erase`.
unfoldable pub end_session : ℕ → ClientSession → Server → Server
end_session fd x s =
    drop_session fd x
      (record s { closed = fd ∷ s.closed; freed = free_buffers x.buffers ++ s.freed })

-- `sessions[fd] = std::move(session)`, where a session under fd dies.
unfoldable pub store_session : ℕ → ClientSession → Server → Server
store_session fd x s = elim (lookup fd s.sessions) [
  | none ↦ record s { sessions = (fd, x) ∷ s.sessions }
  | some old ↦ let t = drop_session fd old s in record t { sessions = (fd, x) ∷ t.sessions }
]

abbrev pub is_expired : ℕ → ClientSession → Bool
is_expired now x = x.is_reverse && leb x.deadline now

-- The sweep over the sessions that the iterator has still to pass.
unfoldable pub sweep_from : ℕ → List (ℕ × ClientSession) → Server → Server
sweep_from now [] s = s
sweep_from now ((fd, x) ∷ rest) s =
    if is_expired now x then sweep_from now rest (end_session fd x s) else sweep_from now rest s

unfoldable pub sweep : ℕ → Server → Server
sweep now s = sweep_from now s.sessions s

-- A context of a session's pool.
abbrev pub pool_context : Server → CtxType → ℕ → ℕ → ℕ → IoContext
pool_context s kind fd b buf = record {
  ctx_type = kind;
  fd = fd;
  buf_idx = b;
  buf_ptr = buf;
  length = s.config.buf_size;
  stream_id = s.thread_id;
}

abbrev pub multishot_context : Server → ℕ → IoContext
multishot_context s fd = record {
  ctx_type = CtxType.recv;
  fd = fd;
  buf_idx = 0;
  buf_ptr = 0;
  length = 0;
  stream_id = s.thread_id;
}

-- What a new context of a pool is queued for.
unfoldable pub queue : Server → ℕ → IoContext → Bool → Engine
queue s p ctx receives =
    if receives
    then (prep_recv s.engine ctx.fd ctx.buf_ptr ctx.length ctx.buf_idx p false).1
    else send_buffer s.config.zero_copy s.engine p ctx false

-- The loops over `num_buffers`, from buffer b, with the rounds left: in place of the two loops, which
-- differ in the type of the contexts and in what is queued. `alloc` gives the n-th buffer allocated.
unfoldable pub fill_session :
    (ℕ → ℕ) → Bool → ℕ → ℕ → ClientSession → Server → ClientSession × Server
fill_session alloc receives zero b x s = (x, s)
fill_session alloc receives (suc n) b x s =
    let buf = alloc s.allocs in
    let ctx = pool_context s (if receives then CtxType.recv else CtxType.send) x.client_fd b buf in
    let (p, ctxs) = make s.ctxs ctx in
    fill_session alloc receives n (b + 1)
      (record x { buffers = x.buffers ++ (buf ∷ []); contexts = x.contexts ++ (p ∷ []) })
      (record s { allocs = s.allocs + 1; ctxs = ctxs; engine = queue s p ctx receives })

abbrev pub new_session : ℕ → ClientSession
new_session fd = record {
  client_fd = fd;
  is_reverse = false;
  deadline = 0;
  buffers = [];
  contexts = [];
  ms_ctx = none;
}

-- The session of a connection, once its direction and duration are known.
unfoldable pub open_session : (ℕ → ℕ) → Handshake → ℕ → ℕ → Server → ClientSession × Server
open_session alloc h now fd s =
    if h.reverse
    then fill_session alloc false s.config.in_flight 0
        (record (new_session fd) { is_reverse = true; deadline = now + h.duration_sec * 10 ^ 9 }) s
    else if s.use_multishot
    then (let (p, ctxs) = make s.ctxs (multishot_context s fd) in
        (
          record (new_session fd) { ms_ctx = some p },
          record s { ctxs = ctxs; engine = (prep_recv_multishot s.engine fd p false).1 },
        ))
    else fill_session alloc true s.config.in_flight 0 (new_session fd) s
