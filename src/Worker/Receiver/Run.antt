-- ===== src/Worker/Receiver/Run.antt =====
-- src/worker.cpp: `run_client_reverse_recv` from the constructor of the engine to its end, with the
-- closing of the socket that follows in `run_client`. The answers of the kernel and of the allocator
-- are inputs.
use uring_perf.Base.{ℕ, Bool, List, [], ◌∷◌, Option, none, some}
use uring_perf.Config.Settings.{Config}
use uring_perf.Net.Buffers.{allocate_aligned_buffer, free_buffers}
use uring_perf.Engine.State.{Engine}
use uring_perf.Engine.Setup.{create, destroy}
use uring_perf.Stats.Counters.{StatsCollector}
use uring_perf.Worker.Client.{Turn}
use uring_perf.Worker.Client.Run.{Ending, SendRun, throws, faults, ends, SendAnswers}
use uring_perf.Worker.Receiver.{Receiver, start_receiver, receive_loop}

-- The answers that a sender gets too (of which the registrations are not used), and those to the set-up
-- of the buffer ring: whether there is one, and the memory.
pub record ReceiveAnswers : Type 0 where
  pub common : SendAnswers
  pub ring : Bool
  pub ring_mem : Option ℕ

-- What follows the loop.
unfoldable pub stop_receiver : Receiver → Ending
stop_receiver c = record {
  stats = c.stats;
  closed = c.sockfd ∷ [];
  freed = free_buffers c.recv_buffers;
  destroyed = destroy c.engine;
}

unfoldable pub after_receiving : Option Receiver → SendRun
after_receiving none = faults
after_receiving (some c) = ends (stop_receiver c)

unfoldable pub receive_on :
    Config → ℕ → StatsCollector → ℕ → ReceiveAnswers → List Turn → Option Engine → SendRun
receive_on cfg thread_id stats sockfd a ts none = throws
receive_on cfg thread_id stats sockfd a ts (some e) = after_receiving (
    receive_loop
      (start_receiver cfg thread_id stats e sockfd (λ i. allocate_aligned_buffer (a.common.mem i))
        a.ring a.ring_mem)
      ts)

-- `ts` are the turns of the loop before the stop signal is seen.
unfoldable pub run_receives : Config → ℕ → StatsCollector → ℕ → ReceiveAnswers → List Turn → SendRun
run_receives cfg thread_id stats sockfd a ts =
    receive_on cfg thread_id stats sockfd a ts
      (create a.common.lib a.common.init_params a.common.init cfg.queue_depth cfg.sqpoll)
