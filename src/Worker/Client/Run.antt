-- ===== src/Worker/Client/Run.antt =====
-- src/worker.cpp: `run_client` from the constructor of the engine to its end, for a client that sends.
-- The answers of the kernel and of the allocator are inputs.
use uring_perf.Base.{ℕ, ◌+◌, zero, suc, List, [], ◌∷◌, ◌++◌, Option, none, some, if◌then◌else◌, ℤ}
use uring_perf.Config.Settings.{Config}
use uring_perf.Net.Buffers.{allocate_aligned_buffer, free_buffers}
use uring_perf.Engine.State.{Engine, Liburing}
use uring_perf.Engine.Setup.{SetupParams, Release, create, destroy}
use uring_perf.Engine.Reap.{reap_completions}
use uring_perf.Stats.Counters.{StatsCollector}
use uring_perf.Worker.Client.{Client, Completion, Turn, start_client, send_loop}

-- The counters, the descriptors closed, the blocks freed, and the calls of the engine's destructor.
pub record Ending : Type 0 where
  pub stats : StatsCollector
  pub closed : List ℕ
  pub freed : List ℕ
  pub destroyed : List Release

-- An engine that throws ends the process; a read of a context that is dead is a fault.
pub data SendRun : Type 0 where
  throws faults : SendRun
  ends : Ending → SendRun

-- What the kernel answers, and the blocks that the allocator gives.
pub record SendAnswers : Type 0 where
  pub lib : Liburing
  pub init_params : SetupParams → ℤ
  pub init : ℤ
  pub mem : ℕ → Option ℕ
  pub files : ℤ
  pub buffers : ℤ

-- What follows the loop.
unfoldable pub stop_client : ℕ → Client → Ending
stop_client sockfd c = record {
  stats = c.stats;
  closed = sockfd ∷ [];
  freed = free_buffers c.buffer_pool;
  destroyed = destroy c.engine;
}

unfoldable pub after_loop : ℕ → Option Client → SendRun
after_loop sockfd none = faults
after_loop sockfd (some c) = ends (stop_client sockfd c)

unfoldable pub after_start : ℕ → List Turn → Option Client → SendRun
after_start sockfd ts none = faults
after_start sockfd ts (some c) = after_loop sockfd (send_loop c ts)

unfoldable pub after_create :
    Config → ℕ → StatsCollector → ℕ → SendAnswers → List Turn → Option Engine → SendRun
after_create cfg thread_id stats sockfd a ts none = throws
after_create cfg thread_id stats sockfd a ts (some e) = after_start sockfd ts (
    start_client cfg thread_id stats e sockfd (λ i. allocate_aligned_buffer (a.mem i)) a.files
      a.buffers)

-- `ts` are the turns of the loop before the stop signal is seen.
unfoldable pub run_sends : Config → ℕ → StatsCollector → ℕ → SendAnswers → List Turn → SendRun
run_sends cfg thread_id stats sockfd a ts =
    after_create cfg thread_id stats sockfd a ts
      (create a.lib a.init_params a.init cfg.queue_depth cfg.sqpoll)

-- The completions that the loop deals with.
abbrev pub harvested : ℕ → List Turn → List Completion
harvested in_flight [] = []
harvested in_flight (t ∷ ts) =
    if t.stop then [] else reap_completions t.ready in_flight ++ harvested in_flight ts

-- What the allocator gives for n buffers from i on.
abbrev pub given : (ℕ → Option ℕ) → ℕ → ℕ → List (Option ℕ)
given mem i zero = []
given mem i (suc n) = mem i ∷ given mem (i + 1) n
