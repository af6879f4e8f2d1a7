-- ===== src/Worker/Receiver.antt =====
-- src/worker.cpp: `run_client_reverse_recv`, a client that receives. The allocations, the answers of
-- the kernel and the readings of the stop signal are inputs.
pub mod Buffers
pub mod Run
pub mod Counting
pub mod Turns
pub mod Pool
pub mod Outcome
mod Tests
use uring_perf.Base.{
  ℕ, zero, suc, ◌+◌, Bool, true, false, ◌&&◌, ◌||◌, List, [], ◌∷◌, ◌++◌, Option, none, some, ◌==◌,
  if◌then◌else◌, is_positive, is_negative, is_errno, to_unsigned, has_flag,
}
use uring_perf.Base.Errno
use uring_perf.Config.Settings.{Config}
use uring_perf.Engine.State.{Engine, IoContext, CtxType}
use uring_perf.Engine.Prep.{prep_recv, prep_recv_multishot}
use uring_perf.Engine.BufRing.{setup_multishot_recv, return_recv_buffer}
use uring_perf.Engine.Reap.{Cqe, submit, submit_and_wait, cqe_seen, reap_completions}
use uring_perf.Stats.Counters.{StatsCollector, add_bytes, add_error}
use uring_perf.Worker.Cqe.{cqe_f_buffer, cqe_f_more, buffer_id, is_again}
use uring_perf.Worker.Contexts.{Contexts, no_contexts, find, make}
use uring_perf.Worker.Client.{Completion, Turn}

pub record Receiver : Type 0 where
  pub config : Config
  pub thread_id : ℕ
  pub stats : StatsCollector
  pub engine : Engine
  pub sockfd : ℕ
  pub use_multishot : Bool
  pub ctxs : Contexts
  pub recv_buffers : List ℕ
  pub peer_closed : Bool

abbrev pub receive_context : Receiver → ℕ → ℕ → ℕ → IoContext
receive_context c i buf len = record {
  ctx_type = CtxType.recv;
  fd = c.sockfd;
  buf_idx = i;
  buf_ptr = buf;
  length = len;
  stream_id = c.thread_id;
}

-- The loop over `num_buffers`, from index i, with the rounds left; `alloc i` is buffer i.
unfoldable pub fill_pool : (ℕ → ℕ) → ℕ → ℕ → Receiver → Receiver
fill_pool alloc zero i c = c
fill_pool alloc (suc n) i c =
    let (p, ctxs) = make c.ctxs (receive_context c i (alloc i) c.config.buf_size) in
    fill_pool alloc n (i + 1) (record c {
      ctxs = ctxs;
      recv_buffers = c.recv_buffers ++ (alloc i ∷ []);
      engine = (prep_recv c.engine c.sockfd (alloc i) c.config.buf_size i p false).1;
    })

unfoldable pub arm_multishot : Receiver → Receiver
arm_multishot c =
    let (p, ctxs) = make c.ctxs (receive_context c 0 0 0) in
    record c { ctxs = ctxs; engine = (prep_recv_multishot c.engine c.sockfd p false).1 }

-- `config_.multishot_recv && engine.setup_multishot_recv(...)`, with the answers that it gets.
abbrev pub ready_ring : Config → Engine → Bool → Option ℕ → Bool × Engine
ready_ring cfg e ring mem =
    if cfg.multishot_recv
    then (let (done, e', freed) = setup_multishot_recv e cfg.in_flight cfg.buf_size 0 ring mem in
        (done, e'))
    else (false, e)

-- From the constructor of the engine to the first `submit`.
unfoldable pub start_receiver :
    Config → ℕ → StatsCollector → Engine → ℕ → (ℕ → ℕ) → Bool → Option ℕ → Receiver
start_receiver cfg thread_id stats engine sockfd alloc ring mem =
    let r = ready_ring cfg engine ring mem in
    let c : Receiver = record {
      config = cfg;
      thread_id = thread_id;
      stats = stats;
      engine = r.1;
      sockfd = sockfd;
      use_multishot = r.0;
      ctxs = no_contexts;
      recv_buffers = [];
      peer_closed = false;
    } in
    let armed = if r.0 then arm_multishot c else fill_pool alloc cfg.in_flight 0 c in
    record armed { engine = submit armed.engine }

-- The end of the peer's stream, or an error.
unfoldable pub peer_closes : Receiver → Cqe → Receiver
peer_closes c cqe = record c {
  stats = if is_negative cqe.res then add_error c.stats c.thread_id else c.stats;
  peer_closed = true;
}

abbrev pub carries_buffer : Cqe → Bool
carries_buffer cqe = is_positive cqe.res && has_flag cqe.flags cqe_f_buffer

unfoldable pub take_buffer : Receiver → Cqe → Receiver
take_buffer c cqe =
    if carries_buffer cqe
    then record c {
      stats = add_bytes c.stats c.thread_id (to_unsigned cqe.res) 1;
      engine = return_recv_buffer c.engine (buffer_id cqe);
    }
    else c

unfoldable pub multishot_ended : Receiver → Cqe → Receiver
multishot_ended c cqe =
    if is_errno cqe.res Errno.enobufs
    then record c { engine = (prep_recv_multishot c.engine c.sockfd cqe.user_data false).1 }
    else peer_closes c cqe

unfoldable pub receive_multishot : Receiver → Cqe → Receiver
receive_multishot c cqe =
    let t = take_buffer c cqe in if has_flag cqe.flags cqe_f_more then t else multishot_ended t cqe

-- The next receive into the buffer of a context, which is read here.
unfoldable pub receive_next : Receiver → ℕ → Bool → Option Receiver
receive_next c p stop = if stop then some c else (elim (find p c.ctxs.alive) [
  | none ↦ none
  | some ctx ↦ some (record c {
    engine = (prep_recv c.engine c.sockfd ctx.buf_ptr ctx.length ctx.buf_idx p false).1;
  })
])

unfoldable pub receive_single : Receiver → Cqe → Bool → Option Receiver
receive_single c cqe stop =
    if is_positive cqe.res
    then receive_next (record c { stats = add_bytes c.stats c.thread_id (to_unsigned cqe.res) 1 })
        cqe.user_data stop
    else if is_again cqe
    then receive_next c cqe.user_data stop
    else some (peer_closes c cqe)

-- The body of the loop over the harvest.
unfoldable pub receive : Receiver → Completion → Option Receiver
receive c d =
    if d.cqe.user_data == 0
    then some (record c { engine = cqe_seen c.engine })
    else (elim (if c.use_multishot
        then some (receive_multishot c d.cqe)
        else receive_single c d.cqe d.stop) [
          | none ↦ none
          | some c' ↦ some (record c' { engine = cqe_seen c'.engine })
        ])

unfoldable pub receive_all : Receiver → List Completion → Option Receiver
receive_all c [] = some c
receive_all c (d ∷ ds) = elim (receive c d) [ none ↦ none | some c' ↦ receive_all c' ds ]

unfoldable pub receive_harvest : Receiver → List Completion → Option Receiver
receive_harvest c [] = some (record c { engine = submit_and_wait c.engine })
receive_harvest c (d ∷ ds) = elim (receive_all c (d ∷ ds)) [
  | none ↦ none
  | some c' ↦ some (record c' { engine = submit c'.engine })
]

unfoldable pub receive_loop : Receiver → List Turn → Option Receiver
receive_loop c [] = some c
receive_loop c (t ∷ ts) =
    if t.stop || c.peer_closed
    then some c
    else (elim (receive_harvest c (reap_completions t.ready c.config.in_flight)) [
      | none ↦ none
      | some c' ↦ receive_loop c' ts
    ])
