-- ===== src/Worker/Zcrx/Run.antt =====
-- src/worker.cpp: `run_server_zcrx` and `run_client_reverse_recv_zcrx` from their first line to their
-- last, with what they take and give back.
use uring_perf.Base.{ℕ, Bool, true, false, List, [], ◌∷◌, ◌++◌, ℤ, pos, negsuc}
use uring_perf.Config.Settings.{Config}
use uring_perf.Stats.Counters.{StatsCollector}
use uring_perf.Net.Sockets.{Answers}
use uring_perf.Worker.Launch.{zcrx_listen_socket}
use uring_perf.Worker.Zcrx.{
  Holding, queue_init, queue_exit, open_fd, close_fd, ZcrxState, ZcrxAnswers, zcrx_setup,
  zcrx_teardown,
}
use uring_perf.Worker.Zcrx.Server.{
  ZcrxTurn, ZcrxRun, stops, runs, faults, zcrx_loop, zcrx_server, close_conns,
}
use uring_perf.Worker.Zcrx.Client.{ClientRun, zcrx_client_loop, zcrx_client}

-- A return, with the counters as they stand, the holdings in order and the connections closed; or the
-- turns are over, or a fault.
pub data ZcrxExit : Type 0 where
  exits : StatsCollector → List Holding → List ℕ → ZcrxExit
  waits crashes : ZcrxExit

-- Behind the loop.
unfoldable pub server_exit : Config → ℕ → ZcrxState → List Holding → ZcrxRun → ZcrxExit
server_exit cfg listen_fd zst hs (stops s) =
    exits s.stats
      (hs ++ (zcrx_teardown zst cfg.zcrx_area_size ++ (queue_exit ∷ close_fd listen_fd ∷ [])))
      (close_conns s.conns ++ s.closed)
server_exit cfg listen_fd zst hs (runs s) = waits
server_exit cfg listen_fd zst hs faults = crashes

-- Behind `zcrx_setup`.
unfoldable pub server_with :
    Config
    → ℕ
    → StatsCollector
    → ℕ
    → (ℕ → Bool)
    → List ZcrxTurn
    → Bool × ZcrxState × List Holding
    → ZcrxExit
server_with cfg thread_id stats listen_fd slots ts (false, zst, hs) =
    exits stats (open_fd listen_fd ∷ queue_init ∷ (hs ++ (queue_exit ∷ close_fd listen_fd ∷ []))) []
server_with cfg thread_id stats listen_fd slots ts (true, zst, hs) =
    server_exit cfg listen_fd zst (open_fd listen_fd ∷ queue_init ∷ hs)
      (zcrx_loop (zcrx_server thread_id stats listen_fd zst slots) ts)

-- Behind `io_uring_queue_init_params`.
unfoldable pub server_ring :
    Config → ℕ → StatsCollector → ZcrxAnswers → (ℕ → Bool) → List ZcrxTurn → ℕ → ℤ → ZcrxExit
server_ring cfg thread_id stats a slots ts listen_fd (negsuc n) =
    exits stats (open_fd listen_fd ∷ close_fd listen_fd ∷ []) []
server_ring cfg thread_id stats a slots ts listen_fd (pos n) =
    server_with cfg thread_id stats listen_fd slots ts
      (zcrx_setup a cfg.zcrx_area_size cfg.zcrx_rq_entries)

-- Behind `create_listen_socket`, which leaves no descriptor but the one that it returns.
unfoldable pub server_socket :
    Config → ℕ → StatsCollector → ℤ → ZcrxAnswers → (ℕ → Bool) → List ZcrxTurn → ℤ → ZcrxExit
server_socket cfg thread_id stats ret a slots ts (negsuc n) = exits stats [] []
server_socket cfg thread_id stats ret a slots ts (pos listen_fd) =
    server_ring cfg thread_id stats a slots ts listen_fd ret

-- `sock` and `sa` are the answers to the socket calls, `ret` that of the ring's initialisation, `a`
-- those of the set-up, and `slots` the ring's.
unfoldable pub run_server_zcrx :
    Config
    → ℕ
    → StatsCollector
    → ℤ
    → Answers
    → ℤ
    → ZcrxAnswers
    → (ℕ → Bool)
    → List ZcrxTurn
    → ZcrxExit
run_server_zcrx cfg thread_id stats sock sa ret a slots ts =
    server_socket cfg thread_id stats ret a slots ts (zcrx_listen_socket cfg thread_id sock sa).0

unfoldable pub client_exit : Config → ZcrxState → List Holding → ClientRun → ZcrxExit
client_exit cfg zst hs (ClientRun.stops c) =
    exits c.stats (hs ++ (zcrx_teardown zst cfg.zcrx_area_size ++ (queue_exit ∷ []))) []
client_exit cfg zst hs (ClientRun.runs c) = waits
client_exit cfg zst hs ClientRun.faults = crashes

unfoldable pub client_with :
    Config
    → ℕ
    → StatsCollector
    → ℕ
    → ℕ
    → (ℕ → Bool)
    → List ZcrxTurn
    → Bool × ZcrxState × List Holding
    → ZcrxExit
client_with cfg thread_id stats sockfd conn_ptr slots ts (false, zst, hs) =
    exits stats (queue_init ∷ (hs ++ (queue_exit ∷ []))) []
client_with cfg thread_id stats sockfd conn_ptr slots ts (true, zst, hs) =
    client_exit cfg zst (queue_init ∷ hs)
      (zcrx_client_loop (zcrx_client thread_id stats sockfd conn_ptr zst slots) ts)

unfoldable pub run_client_reverse_recv_zcrx :
    Config → ℕ → StatsCollector → ℕ → ℕ → ℤ → ZcrxAnswers → (ℕ → Bool) → List ZcrxTurn → ZcrxExit
run_client_reverse_recv_zcrx cfg thread_id stats sockfd conn_ptr (negsuc n) a slots ts =
    exits stats [] []
run_client_reverse_recv_zcrx cfg thread_id stats sockfd conn_ptr (pos n) a slots ts =
    client_with cfg thread_id stats sockfd conn_ptr slots ts
      (zcrx_setup a cfg.zcrx_area_size cfg.zcrx_rq_entries)
