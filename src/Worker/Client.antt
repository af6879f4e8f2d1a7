-- ===== src/Worker/Client.antt =====
-- src/worker.cpp: `run_client`, a client that sends. The allocations, the answers of the kernel and
-- the readings of the stop signal are inputs.
pub mod Accounting
pub mod Totals
pub mod Pipeline
pub mod Filling
pub mod Start
pub mod Run
pub mod Turns
pub mod Pool
pub mod Outcome
mod Tests
use uring_perf.Base.{
  ℕ, zero, suc, ◌+◌, ◌≡◌, Bool, true, false, not, ◌&&◌, List, [], ◌∷◌, ◌++◌, Option, none, some,
  ◌==◌, if◌then◌else◌, ℤ, is_positive, is_negative, to_unsigned, has_flag,
}
use uring_perf.Config.Settings.{Config}
use uring_perf.Engine.State.{Engine, IoContext, CtxType}
use uring_perf.Engine.Setup.{register_buffers, register_files}
use uring_perf.Engine.Reap.{Cqe, submit, submit_and_wait, cqe_seen, reap_completions}
use uring_perf.Stats.Counters.{StatsCollector, add_bytes, add_zc_notification, add_error}
use uring_perf.Worker.Cqe.{cqe_f_notif, is_again, packets}
use uring_perf.Worker.Sending.{send_buffer}
use uring_perf.Worker.Contexts.{Contexts, no_contexts, find, make}

pub record Client : Type 0 where
  pub config : Config
  pub thread_id : ℕ
  pub stats : StatsCollector
  pub engine : Engine
  pub use_fixed_file : Bool
  pub ctxs : Contexts
  pub buffer_pool : List ℕ
  pub context_pool : List ℕ  -- addresses

-- A completion, with what the stop signal is when the handler reads it.
pub record Completion : Type 0 where
  pub cqe : Cqe
  pub stop : Bool

abbrev pub send_fd : Bool → ℕ → ℕ
send_fd use_fixed_file sockfd = if use_fixed_file then 0 else sockfd

-- Context i of the pool.
abbrev pub send_context : Config → ℕ → ℕ → ℕ → ℕ → IoContext
send_context cfg thread_id fd i buf = record {
  ctx_type = CtxType.send;
  fd = fd;
  buf_idx = i;
  buf_ptr = buf;
  length = cfg.buf_size;
  stream_id = thread_id;
}

-- The first loop, from index i, with the rounds left; `alloc i` is the address of buffer i.
unfoldable pub make_pool : (ℕ → ℕ) → ℕ → ℕ → ℕ → Client → Client
make_pool alloc fd zero i c = c
make_pool alloc fd (suc n) i c =
    let (p, ctxs) = make c.ctxs (send_context c.config c.thread_id fd i (alloc i)) in
    make_pool alloc fd n (i + 1) (record c {
      ctxs = ctxs;
      buffer_pool = c.buffer_pool ++ (alloc i ∷ []);
      context_pool = c.context_pool ++ (p ∷ []);
    })

unfoldable pub resend : Client → ℕ → IoContext → Client
resend c p ctx = record c {
  engine = send_buffer c.config.zero_copy c.engine p ctx c.use_fixed_file;
}

-- The second loop, over the contexts of the pool. (It passes the very fields of the context.)
unfoldable pub send_pool : List ℕ → Client → Option Client
send_pool [] c = some c
send_pool (p ∷ ps) c = elim (find p c.ctxs.alive) [
  | none ↦ none
  | some ctx ↦ send_pool ps (resend c p ctx)
]

-- `fixed_files && engine.register_files({fd})`; `ret` is the kernel's answer.
unfoldable pub register_socket : Config → Engine → ℕ → ℤ → Bool × Engine
register_socket cfg e fd ret =
    if cfg.fixed_files then register_files e (fd ∷ []) ret else (false, e)

-- The client before it has a pool.
abbrev pub empty_client : Config → ℕ → StatsCollector → Bool × Engine → Client
empty_client cfg thread_id stats r = record {
  config = cfg;
  thread_id = thread_id;
  stats = stats;
  engine = r.1;
  use_fixed_file = r.0;
  ctxs = no_contexts;
  buffer_pool = [];
  context_pool = [];
}

-- `if (fixed_buffers) engine.register_buffers(...)`; `ret` is the kernel's answer.
unfoldable pub register_pool : Client → ℤ → Client
register_pool c ret = record c {
  engine =
      if c.config.fixed_buffers
      then (register_buffers c.engine c.buffer_pool c.config.buf_size ret).1
      else c.engine;
}

-- From the constructor of the engine to the first `submit`; `files` and `buffers` are the answers to
-- the registrations.
unfoldable pub start_client :
    Config → ℕ → StatsCollector → Engine → ℕ → (ℕ → ℕ) → ℤ → ℤ → Option Client
start_client cfg thread_id stats engine sockfd alloc files buffers =
    let r = register_socket cfg engine sockfd files in
    let made =
      make_pool alloc (send_fd r.0 sockfd) cfg.in_flight 0 (empty_client cfg thread_id stats r) in
    let c = register_pool made buffers in
    elim (send_pool c.context_pool c) [
      | none ↦ none
      | some c' ↦ some (record c' { engine = submit c'.engine })
    ]

unfoldable pub rearm : Client → ℕ → Bool → Option Client
rearm c p stop =
    if stop
    then some c
    else (elim (find p c.ctxs.alive) [ none ↦ none | some ctx ↦ some (resend c p ctx) ])

-- What a completion that is no notification does before it is marked seen.
unfoldable pub on_sent : Client → Cqe → Bool → Option Client
on_sent c cqe stop =
    if is_positive cqe.res
    then rearm
        (record c {
          stats = add_bytes c.stats c.thread_id (to_unsigned cqe.res) (packets c.config cqe);
        })
        cqe.user_data stop
    else if is_again cqe
    then rearm c cqe.user_data stop
    else if is_negative cqe.res
    then some (record c { stats = add_error c.stats c.thread_id })
    else some c

-- The body of the loop over the harvest.
unfoldable pub handle : Client → Completion → Option Client
handle c done =
    if done.cqe.user_data == 0
    then some (record c { engine = cqe_seen c.engine })
    else if has_flag done.cqe.flags cqe_f_notif
    then some
        (record c { stats = add_zc_notification c.stats c.thread_id; engine = cqe_seen c.engine })
    else (elim (on_sent c done.cqe done.stop) [
      | none ↦ none
      | some c' ↦ some (record c' { engine = cqe_seen c'.engine })
    ])

unfoldable pub handle_all : Client → List Completion → Option Client
handle_all c [] = some c
handle_all c (d ∷ ds) = elim (handle c d) [ none ↦ none | some c' ↦ handle_all c' ds ]

-- A turn of the outer loop: the stop signal at its head, and the completions that are ready.
pub record Turn : Type 0 where
  pub stop : Bool
  pub ready : List Completion

-- The work of a turn once the harvest is known.
unfoldable pub work : Client → List Completion → Option Client
work c [] = some (record c { engine = submit_and_wait c.engine })
work c (d ∷ ds) = elim (handle_all c (d ∷ ds)) [
  | none ↦ none
  | some c' ↦ some (record c' { engine = submit c'.engine })
]

-- The outer loop over the turns that the run takes.
unfoldable pub send_loop : Client → List Turn → Option Client
send_loop c [] = some c
send_loop c (t ∷ ts) =
    if t.stop then some c else (elim (work c (reap_completions t.ready c.config.in_flight)) [
      | none ↦ none
      | some c' ↦ send_loop c' ts
    ])
