-- ===== src/Worker/Server/Loop.antt =====
-- src/worker.cpp: how `run_server` starts, its outer loop, and how it ends.
use uring_perf.Base.{ℕ, zero, suc, ◌+◌, Bool, false, List, [], ◌∷◌, ◌++◌, Option, if◌then◌else◌, ℤ}
use uring_perf.Config.Settings.{Config, is_udp}
use uring_perf.Net.Buffers.{free_buffers}
use uring_perf.Engine.State.{Engine, IoContext, CtxType}
use uring_perf.Engine.Setup.{register_files}
use uring_perf.Engine.Prep.{prep_accept, prep_recv, prep_recv_multishot}
use uring_perf.Engine.BufRing.{setup_multishot_recv}
use uring_perf.Engine.Reap.{submit, submit_and_wait, reap_completions}
use uring_perf.Stats.Counters.{StatsCollector}
use uring_perf.Worker.Contexts.{no_contexts, make}
use uring_perf.Worker.Server.{
  ClientSession, Server, Event, Served, served, faults, hangs, sweep, pool_context,
  multishot_context,
}
use uring_perf.Worker.Server.Handlers.{serve_all}

abbrev pub accept_context : ℕ → IoContext
accept_context listen_fd = record {
  ctx_type = CtxType.accept;
  fd = listen_fd;
  buf_idx = 0;
  buf_ptr = 0;
  length = 0;
  stream_id = 0;
}

-- The server with its ring and the context for accepting.
unfoldable pub fresh_server : Config → ℕ → StatsCollector → ℕ → Bool × Engine → Server
fresh_server cfg thread_id stats listen_fd r =
    let (p, ctxs) = make no_contexts (accept_context listen_fd) in
    record {
      config = cfg;
      thread_id = thread_id;
      stats = stats;
      engine = r.1;
      ctxs = ctxs;
      listen_fd = listen_fd;
      accept_ctx = p;
      use_multishot = r.0;
      udp_fixed_file = false;
      sessions = [];
      allocs = 0;
      closed = [];
      freed = [];
    }

-- `config_.multishot_recv && engine.setup_multishot_recv(...)`, with the answers that it gets.
unfoldable pub try_multishot : Config → Engine → Bool → Option ℕ → Bool × Engine
try_multishot cfg e ring mem =
    if cfg.multishot_recv
    then (let (done, e', freed) = setup_multishot_recv e cfg.in_flight cfg.buf_size 0 ring mem in
        (done, e'))
    else (false, e)

-- `config_.fixed_files && engine.register_files({listen_fd})`; `ret` is the kernel's answer.
unfoldable pub register_listener : Server → ℤ → Server
register_listener s ret =
    if s.config.fixed_files
    then (let (done, e) = register_files s.engine (s.listen_fd ∷ []) ret in
        record s { engine = e; udp_fixed_file = done })
    else s

-- The receiver pool, from index i, with the rounds left.
unfoldable pub fill_receivers : (ℕ → ℕ) → ℕ → ℕ → ℕ → Server → Server
fill_receivers alloc fd zero i s = s
fill_receivers alloc fd (suc n) i s =
    let buf = alloc s.allocs in
    let (p, ctxs) = make s.ctxs (pool_context s CtxType.recv fd i buf) in
    fill_receivers alloc fd n (i + 1) (record s {
      allocs = s.allocs + 1;
      ctxs = ctxs;
      engine = (prep_recv s.engine fd buf s.config.buf_size i p s.udp_fixed_file).1;
    })

unfoldable pub receive_datagrams : (ℕ → ℕ) → Server → Server
receive_datagrams alloc s =
    let fd = if s.udp_fixed_file then 0 else s.listen_fd in
    if s.use_multishot
    then (let (p, ctxs) = make s.ctxs (multishot_context s fd) in
        record s { ctxs = ctxs; engine = (prep_recv_multishot s.engine fd p s.udp_fixed_file).1 })
    else fill_receivers alloc fd s.config.in_flight 0 s

-- From the constructor of the engine to the first `submit`. `ring` and `mem` are the answers to the
-- set-up of the buffer ring, `files` the one to the registration.
unfoldable pub start_server :
    Config → ℕ → StatsCollector → Engine → ℕ → (ℕ → ℕ) → Bool → Option ℕ → ℤ → Server
start_server cfg thread_id stats engine listen_fd alloc ring mem files =
    let s = fresh_server cfg thread_id stats listen_fd (try_multishot cfg engine ring mem) in
    let t =
      if is_udp cfg.protocol
      then receive_datagrams alloc (register_listener s files)
      else record s { engine = (prep_accept s.engine listen_fd s.accept_ctx).1 } in
    record t { engine = submit t.engine }

-- A turn of the outer loop: the stop signal and the clock at its head, and what is ready.
pub record Pass : Type 0 where
  pub stop : Bool
  pub now : ℕ
  pub ready : List Event

-- The work of a turn once the harvest is known.
unfoldable pub serve_harvest : (ℕ → ℕ) → Server → List Event → Served
serve_harvest alloc s [] = served (record s { engine = submit_and_wait s.engine })
serve_harvest alloc s (ev ∷ evs) = elim (serve_all alloc s (ev ∷ evs)) [
  | faults ↦ faults
  | hangs ↦ hangs
  | served s' ↦ served (record s' { engine = submit s'.engine })
]

unfoldable pub server_loop : (ℕ → ℕ) → Server → List Pass → Served
server_loop alloc s [] = served s
server_loop alloc s (t ∷ ts) =
    if t.stop
    then served s
    else (let s' = sweep t.now s in
        elim (serve_harvest alloc s' (reap_completions t.ready s'.config.in_flight)) [
          | faults ↦ faults
          | hangs ↦ hangs
          | served s'' ↦ server_loop alloc s'' ts
        ])

-- The last loop, over the sessions that are left.
unfoldable pub close_sessions : List (ℕ × ClientSession) → Server → Server
close_sessions [] s = s
close_sessions ((fd, x) ∷ rest) s =
    close_sessions rest
      (record s { closed = fd ∷ s.closed; freed = free_buffers x.buffers ++ s.freed })

unfoldable pub stop_server : Server → Server
stop_server s = close_sessions s.sessions (record s { closed = s.listen_fd ∷ s.closed })
