-- ===== src/Worker/Receiver/Pool.antt =====
-- src/worker.cpp: what a reverse client starts with.
use uring_perf.Base.{
  ℕ, zero, suc, ◌+◌, ◌≡◌, refl, sym, ap, subst, ◌∙◌, Bool, true, false, ◌&&◌, List, [], ◌∷◌, ◌++◌,
  Option, none, some, if◌then◌else◌, arith, append_assoc, append-nil,
}
use uring_perf.Config.Settings.{Config}
use uring_perf.Net.Buffers.{allocate_aligned_buffer, pointers}
use uring_perf.Engine.State.{Engine}
use uring_perf.Engine.Memory.{
  ring_mem, prep_recv-ring_mem, prep_recv_multishot-ring_mem, submit-ring_mem,
}
use uring_perf.Engine.BufRing.{setup_multishot_recv}
use uring_perf.Stats.Counters.{StatsCollector}
use uring_perf.Worker.Contexts.{make, no_contexts}
use uring_perf.Worker.Client.Pool.{IsFull, IsFull-make}
use uring_perf.Worker.Client.Run.{given}
use uring_perf.Worker.Receiver.{
  Receiver, receive_context, fill_pool, arm_multishot, ready_ring, start_receiver,
}
use uring_perf.Worker.Receiver.Run.{ReceiveAnswers}

abbrev pub is_given : Option ℕ → Bool
is_given none = false
is_given (some p) = true

-- Whether the client comes to receive in multishot mode.
abbrev pub gets_ring : Config → ReceiveAnswers → Bool
gets_ring cfg a = cfg.multishot_recv && (a.ring && is_given a.ring_mem)

-- How many contexts there are, and which blocks belong to the client.
abbrev pub pool_size : Config → Bool → ℕ
pool_size cfg m = if m then 1 else cfg.in_flight

abbrev pub pool_blocks : Config → ReceiveAnswers → Bool → List (Option ℕ)
pool_blocks cfg a m = if m then [] else given a.common.mem 0 cfg.in_flight

-- The memory of the ring, where there is one.
abbrev pub ring_block : ReceiveAnswers → Bool → Option ℕ
ring_block a m = if m then a.ring_mem else none

ready_ring-ring_mem :
    (cfg : Config) (e : Engine) (a : ReceiveAnswers)
    → ring_mem e ≡ none
    → ring_mem (ready_ring cfg e a.ring a.ring_mem).1 ≡ ring_block a (gets_ring cfg a)
unfolding setup_multishot_recv
ready_ring-ring_mem cfg e a h = by_case cfg.multishot_recv a.ring a.ring_mem
  where
    by_case :
        (b ring : Bool) (mem : Option ℕ)
        → let tried : Bool × Engine =
            if b
            then (let (done, e', freed) =
                  setup_multishot_recv e cfg.in_flight cfg.buf_size 0 ring mem in
                (done, e'))
            else (false, e) in
          ring_mem tried.1 ≡ (if b && (ring && is_given mem) then mem else none)
    by_case true true none = refl
    by_case true true (some p) = refl
    by_case true false mem = refl
    by_case false ring mem = h

ready_ring_lem :
    (cfg : Config) (e : Engine) (a : ReceiveAnswers)
    → (ready_ring cfg e a.ring a.ring_mem).0 ≡ gets_ring cfg a
unfolding setup_multishot_recv
ready_ring_lem cfg e a = by_case cfg.multishot_recv a.ring a.ring_mem
  where
    by_case :
        (b ring : Bool) (mem : Option ℕ)
        → let tried : Bool × Engine =
            if b
            then (let (done, e', freed) =
                  setup_multishot_recv e cfg.in_flight cfg.buf_size 0 ring mem in
                (done, e'))
            else (false, e) in
          tried.0 ≡ (b && (ring && is_given mem))
    by_case true true none = refl
    by_case true true (some p) = refl
    by_case true false mem = refl
    by_case false ring mem = refl

-- What a client has when it comes to its loop.
pub record IsStarted (cfg : Config) (thread_id : ℕ) (stats : StatsCollector) (sockfd : ℕ) (m : Bool)
    (c : Receiver) : Type 0 where
  pub config : c.config ≡ cfg
  pub thread : c.thread_id ≡ thread_id
  pub counters : c.stats ≡ stats
  pub socket : c.sockfd ≡ sockfd
  pub mode : c.use_multishot ≡ m
  pub peer : c.peer_closed ≡ false

-- The pool after n more buffers from index i.
record IsFilled (mem : ℕ → Option ℕ) (i n : ℕ) (c d : Receiver) : Type 0 where
  buffers : d.recv_buffers ≡ c.recv_buffers ++ pointers (given mem i n)
  next : d.ctxs.next ≡ c.ctxs.next + n
  full : IsFull d.ctxs
  memory : ring_mem d.engine ≡ ring_mem c.engine

module _ (cfg : Config) (thread_id : ℕ) (stats : StatsCollector) (sockfd : ℕ) (m : Bool) where
  fill_pool-IsStarted :
      (alloc : ℕ → ℕ) (n i : ℕ) (c : Receiver)
      → IsStarted cfg thread_id stats sockfd m c
      → IsStarted cfg thread_id stats sockfd m (fill_pool alloc n i c)
  unfolding fill_pool
  fill_pool-IsStarted alloc zero i c v = v
  fill_pool-IsStarted alloc (suc n) i c v = fill_pool-IsStarted alloc n (i + 1) _ (record {
    config = v.config;
    thread = v.thread;
    counters = v.counters;
    socket = v.socket;
    mode = v.mode;
    peer = v.peer;
  })

fill_pool-IsFilled :
    (mem : ℕ → Option ℕ) (n i : ℕ) (c : Receiver)
    → IsFull c.ctxs
    → IsFilled mem i n c (fill_pool (λ k. allocate_aligned_buffer (mem k)) n i c)
unfolding fill_pool
fill_pool-IsFilled mem zero i c h = record {
  buffers = sym (append-nil c.recv_buffers);
  next = omega arith;
  full = h;
  memory = refl;
}
fill_pool-IsFilled mem (suc n) i c h =
    let ctx = receive_context c i (allocate_aligned_buffer (mem i)) c.config.buf_size in
    let v = fill_pool-IsFilled mem n (i + 1) _ (IsFull-make c.ctxs ctx h) in
    record {
      buffers =
          v.buffers
          ∙ append_assoc c.recv_buffers (allocate_aligned_buffer (mem i) ∷ [])
              (pointers (given mem (i + 1) n));
      next = v.next ∙ unfold make in omega arith;
      full = v.full;
      memory =
          v.memory
          ∙ prep_recv-ring_mem c.engine c.sockfd (allocate_aligned_buffer (mem i)) c.config.buf_size
              i (make c.ctxs ctx).0 false;
    }

-- A client that starts, with its pool.
pub record IsReady (cfg : Config) (thread_id : ℕ) (stats : StatsCollector) (sockfd : ℕ)
    (a : ReceiveAnswers) (m : Bool) (c : Receiver) : Type 0 where
  pub started : IsStarted cfg thread_id stats sockfd m c
  pub buffers : c.recv_buffers ≡ pointers (pool_blocks cfg a m)
  pub next : c.ctxs.next ≡ 1 + pool_size cfg m
  pub full : IsFull c.ctxs
  pub memory : ring_mem c.engine ≡ ring_block a m

nothing_yet : (c : Receiver) → c.ctxs ≡ no_contexts → IsFull c.ctxs
nothing_yet c e = subst IsFull (sym e) (λ p low high. absurd (omega (arith, low, high)))

module _ (cfg : Config) (thread_id : ℕ) (stats : StatsCollector) (sockfd : ℕ)
    (a : ReceiveAnswers) where
  armed-IsReady :
      (m : Bool) (c : Receiver)
      → IsStarted cfg thread_id stats sockfd m c
      → c.recv_buffers ≡ []
      → c.ctxs ≡ no_contexts
      → ring_mem c.engine ≡ ring_block a m
      → IsReady cfg thread_id stats sockfd a m (
          if m
          then arm_multishot c
          else fill_pool (λ k. allocate_aligned_buffer (a.common.mem k)) cfg.in_flight 0 c)
  unfolding arm_multishot
  armed-IsReady true c v none_yet empty h = record {
    started = record {
      config = v.config;
      thread = v.thread;
      counters = v.counters;
      socket = v.socket;
      mode = v.mode;
      peer = v.peer;
    };
    buffers = none_yet;
    next = unfold make in ap (λ x. x.next + 1) empty;
    full = IsFull-make c.ctxs (receive_context c 0 0 0) (nothing_yet c empty);
    memory = prep_recv_multishot-ring_mem c.engine c.sockfd _ false ∙ h;
  }
  armed-IsReady false c v none_yet empty h =
      let w = fill_pool-IsFilled a.common.mem cfg.in_flight 0 c (nothing_yet c empty) in
      record {
        started = fill_pool-IsStarted cfg thread_id stats sockfd false _ cfg.in_flight 0 c v;
        buffers = w.buffers ∙ ap (λ l. l ++ pointers (given a.common.mem 0 cfg.in_flight)) none_yet;
        next = w.next ∙ ap (λ x. x.next + cfg.in_flight) empty;
        full = w.full;
        memory = w.memory ∙ h;
      }

  pub start_receiver-IsReady :
      (e : Engine)
      → ring_mem e ≡ none
      → IsReady cfg thread_id stats sockfd a (gets_ring cfg a) (
          start_receiver cfg thread_id stats e sockfd
            (λ k. allocate_aligned_buffer (a.common.mem k))
            a.ring
            a.ring_mem)
  unfolding start_receiver
  start_receiver-IsReady e h =
      subst
        (λ m. IsReady cfg thread_id stats sockfd a m (
          start_receiver cfg thread_id stats e sockfd
            (λ k. allocate_aligned_buffer (a.common.mem k)) a.ring a.ring_mem))
        (ready_ring_lem cfg e a)
        (let v =
            armed-IsReady (ready_ring cfg e a.ring a.ring_mem).0 _
              (record {
                config = refl;
                thread = refl;
                counters = refl;
                socket = refl;
                mode = refl;
                peer = refl;
              })
              refl refl
              (ready_ring-ring_mem cfg e a h ∙ ap (ring_block a) (sym (ready_ring_lem cfg e a))) in
          record {
            started = record {
              config = v.started.config;
              thread = v.started.thread;
              counters = v.started.counters;
              socket = v.started.socket;
              mode = v.started.mode;
              peer = v.started.peer;
            };
            buffers = v.buffers;
            next = v.next;
            full = v.full;
            memory = submit-ring_mem _ ∙ v.memory;
          })
