-- ===== src/Worker/Launch/Service.antt =====
-- src/worker.cpp: `run_server` from its first line to its last.
use uring_perf.Base.{ℕ, Bool, List, Option, none, some, if◌then◌else◌, ℤ, pos, negsuc}
use uring_perf.Config.Settings.{Config}
use uring_perf.Engine.State.{Engine}
use uring_perf.Engine.Setup.{create}
use uring_perf.Stats.Counters.{StatsCollector}
use uring_perf.Net.Buffers.{allocate_aligned_buffer}
use uring_perf.Net.Sockets.{Call, Answers}
use uring_perf.Worker.Server.{Server, Served, served, faults, hangs}
use uring_perf.Worker.Server.Loop.{Pass, start_server, server_loop, stop_server}
use uring_perf.Worker.Receiver.Run.{ReceiveAnswers}
use uring_perf.Worker.Launch.{listen_socket}
use uring_perf.Worker.Zcrx.{ZcrxAnswers}
use uring_perf.Worker.Zcrx.Server.{ZcrxTurn}
use uring_perf.Worker.Zcrx.Run.{ZcrxExit, run_server_zcrx}

-- A return with the calls for the socket, and the server as it stops; a return without a socket; what
-- `run_server_zcrx` comes to; an exception for want of a ring, which ends the process; the read of a
-- dead context; or a handshake that nobody sends.
pub data ServerExit : Type 0 where
  finished : List Call → Server → ServerExit
  unbound : List Call → ServerExit
  hands_over : ZcrxExit → ServerExit
  no_ring dead_context held_up : ServerExit

pub record ServerInputs : Type 0 where
  pub sock : ℤ
  pub socket : Answers
  pub kernel : ReceiveAnswers
  pub passes : List Pass
  pub queue : ℤ
  pub zcrx : ZcrxAnswers
  pub slots : ℕ → Bool
  pub zcrx_turns : List ZcrxTurn

unfoldable pub buffer_memory : ServerInputs → ℕ → ℕ
buffer_memory a i = allocate_aligned_buffer (a.kernel.common.mem i)

-- The server as its outer loop finds it.
unfoldable pub started_server : Config → ℕ → StatsCollector → ServerInputs → ℕ → Engine → Server
started_server cfg thread_id stats a fd e =
    start_server cfg thread_id stats e fd (buffer_memory a) a.kernel.ring a.kernel.ring_mem
      a.kernel.common.files

unfoldable pub after_served : List Call → Served → ServerExit
after_served calls faults = dead_context
after_served calls hangs = held_up
after_served calls (served s) = finished calls (stop_server s)

-- Behind the constructor of the engine.
unfoldable pub serve_with :
    Config → ℕ → StatsCollector → ServerInputs → List Call → ℕ → Option Engine → ServerExit
serve_with cfg thread_id stats a calls fd none = no_ring
serve_with cfg thread_id stats a calls fd (some e) =
    after_served calls
      (server_loop (buffer_memory a) (started_server cfg thread_id stats a fd e) a.passes)

unfoldable pub make_ring : Config → ServerInputs → Option Engine
make_ring cfg a =
    create a.kernel.common.lib a.kernel.common.init_params a.kernel.common.init cfg.queue_depth
      cfg.sqpoll

-- Behind `create_listen_socket`.
unfoldable pub serve_at : Config → ℕ → StatsCollector → ServerInputs → ℤ × List Call → ServerExit
serve_at cfg thread_id stats a (negsuc n, calls) = unbound calls
serve_at cfg thread_id stats a (pos fd, calls) =
    serve_with cfg thread_id stats a calls fd (make_ring cfg a)

unfoldable pub run_server : Config → ℕ → StatsCollector → ServerInputs → ServerExit
run_server cfg thread_id stats a =
    if cfg.use_zcrx
    then hands_over
        (run_server_zcrx cfg thread_id stats a.sock a.socket a.queue a.zcrx a.slots a.zcrx_turns)
    else serve_at cfg thread_id stats a (listen_socket cfg thread_id a.sock a.socket)
