-- ===== src/Worker/Zcrx/Release.antt =====
-- src/worker.cpp: the zero-copy workers give back all that they take.
use uring_perf.Base.{
  ℕ, refl, subst, Bool, true, false, List, [], ◌∷◌, ◌++◌, arith, ℤ, pos, negsuc, append_assoc,
}
use uring_perf.Config.Settings.{Config}
use uring_perf.Stats.Counters.{StatsCollector}
use uring_perf.Net.Sockets.{Answers}
use uring_perf.Worker.Zcrx.{
  Holding, queue_init, queue_exit, open_fd, close_fd, ZcrxState, ZcrxAnswers, zcrx_teardown,
}
use uring_perf.Worker.Zcrx.Server.{ZcrxTurn, ZcrxRun, stops, runs, faults}
use uring_perf.Worker.Zcrx.Client.{ClientRun}
use uring_perf.Worker.Zcrx.Holdings.{IsEven, IsEven-between, KeepsNothing, zcrx_setup-KeepsNothing}
use uring_perf.Worker.Zcrx.Run.{
  ZcrxExit, exits, waits, crashes, server_exit, server_with, server_ring, server_socket,
  run_server_zcrx, client_exit, client_with, run_client_reverse_recv_zcrx,
}

abbrev pub IsSettled : ℕ → ℕ → ℕ → ZcrxExit → Type 0
IsSettled p n fd (exits stats hs closed) = IsEven p n fd hs
IsSettled p n fd waits = Unit
IsSettled p n fd crashes = Unit

means : (p n fd x : ℕ) → IsEven p n fd (open_fd x ∷ queue_init ∷ queue_exit ∷ close_fd x ∷ [])
means p n fd x = (refl, refl, omega arith)

around :
    (p n fd x : ℕ) (hs teardown : List Holding)
    → IsEven p n fd (hs ++ teardown)
    → IsEven p n fd ((open_fd x ∷ queue_init ∷ hs) ++ (teardown ++ (queue_exit ∷ close_fd x ∷ [])))
around p n fd x hs teardown h =
    subst (λ l. IsEven p n fd (open_fd x ∷ queue_init ∷ l))
      (append_assoc hs teardown (queue_exit ∷ close_fd x ∷ []))
      (IsEven-between p n fd (open_fd x ∷ queue_init ∷ []) (queue_exit ∷ close_fd x ∷ [])
        (hs ++ teardown) (means p n fd x) h)

server_exit-IsSettled :
    (p n fd : ℕ) (cfg : Config) (x : ℕ) (zst : ZcrxState) (hs : List Holding) (r : ZcrxRun)
    → IsEven p n fd (hs ++ zcrx_teardown zst cfg.zcrx_area_size)
    → IsSettled p n fd (server_exit cfg x zst (open_fd x ∷ queue_init ∷ hs) r)
unfolding server_exit
server_exit-IsSettled p n fd cfg x zst hs (stops s) h =
    around p n fd x hs (zcrx_teardown zst cfg.zcrx_area_size) h
server_exit-IsSettled p n fd cfg x zst hs (runs s) h = tt
server_exit-IsSettled p n fd cfg x zst hs faults h = tt

server_with-IsSettled :
    (p n fd : ℕ) (cfg : Config) (thread_id : ℕ) (stats : StatsCollector) (x : ℕ) (slots : ℕ → Bool)
    (ts : List ZcrxTurn) (r : Bool × ZcrxState × List Holding)
    → KeepsNothing p n fd cfg.zcrx_area_size r
    → IsSettled p n fd (server_with cfg thread_id stats x slots ts r)
unfolding server_with
server_with-IsSettled p n fd cfg thread_id stats x slots ts (false, zst, hs) h =
    IsEven-between p n fd (open_fd x ∷ queue_init ∷ []) (queue_exit ∷ close_fd x ∷ []) hs
      (means p n fd x) h
server_with-IsSettled p n fd cfg thread_id stats x slots ts (true, zst, hs) h =
    server_exit-IsSettled p n fd cfg x zst hs _ h

server_socket-IsSettled :
    (p n fd : ℕ) (cfg : Config) (thread_id : ℕ) (stats : StatsCollector) (ret : ℤ) (a : ZcrxAnswers)
    (slots : ℕ → Bool) (ts : List ZcrxTurn) (r : ℤ)
    → IsSettled p n fd (server_socket cfg thread_id stats ret a slots ts r)
unfolding server_socket server_ring
server_socket-IsSettled p n fd cfg thread_id stats ret a slots ts (negsuc e) = (refl, refl, refl)
server_socket-IsSettled p n fd cfg thread_id stats (negsuc e) a slots ts (pos x) =
    (refl, refl, omega arith)
server_socket-IsSettled p n fd cfg thread_id stats (pos z) a slots ts (pos x) =
    server_with-IsSettled p n fd cfg thread_id stats x slots ts _
      (zcrx_setup-KeepsNothing p n fd a cfg.zcrx_area_size cfg.zcrx_rq_entries)

client_exit-IsSettled :
    (p n fd : ℕ) (cfg : Config) (zst : ZcrxState) (hs : List Holding) (r : ClientRun)
    → IsEven p n fd (hs ++ zcrx_teardown zst cfg.zcrx_area_size)
    → IsSettled p n fd (client_exit cfg zst (queue_init ∷ hs) r)
unfolding client_exit
client_exit-IsSettled p n fd cfg zst hs (ClientRun.stops s) h =
    subst (λ l. IsEven p n fd (queue_init ∷ l))
      (append_assoc hs (zcrx_teardown zst cfg.zcrx_area_size) (queue_exit ∷ []))
      (IsEven-between p n fd (queue_init ∷ []) (queue_exit ∷ []) _ (refl, refl, refl) h)
client_exit-IsSettled p n fd cfg zst hs (ClientRun.runs s) h = tt
client_exit-IsSettled p n fd cfg zst hs ClientRun.faults h = tt

client_with-IsSettled :
    (p n fd : ℕ) (cfg : Config) (thread_id : ℕ) (stats : StatsCollector) (x q : ℕ)
    (slots : ℕ → Bool) (ts : List ZcrxTurn) (r : Bool × ZcrxState × List Holding)
    → KeepsNothing p n fd cfg.zcrx_area_size r
    → IsSettled p n fd (client_with cfg thread_id stats x q slots ts r)
unfolding client_with
client_with-IsSettled p n fd cfg thread_id stats x q slots ts (false, zst, hs) h =
    IsEven-between p n fd (queue_init ∷ []) (queue_exit ∷ []) hs (refl, refl, refl) h
client_with-IsSettled p n fd cfg thread_id stats x q slots ts (true, zst, hs) h =
    client_exit-IsSettled p n fd cfg zst hs _ h

-- Whatever step fails, and also at the end of the loop: when `run_server_zcrx` or
-- `run_client_reverse_recv_zcrx` returns, each mapping made has been undone once with its size, a
-- ring that was initialised has been exited, and the listening socket has been closed.
pub run_zcrx-IsSettled :
    (p n fd : ℕ) (cfg : Config) (thread_id : ℕ) (stats : StatsCollector) (sock ret : ℤ)
    (sa : Answers) (a : ZcrxAnswers) (slots : ℕ → Bool) (ts : List ZcrxTurn) (sockfd conn_ptr : ℕ)
    → IsSettled p n fd (run_server_zcrx cfg thread_id stats sock sa ret a slots ts)
      × IsSettled p n fd
          (run_client_reverse_recv_zcrx cfg thread_id stats sockfd conn_ptr ret a slots ts)
unfolding run_server_zcrx run_client_reverse_recv_zcrx
run_zcrx-IsSettled p n fd cfg thread_id stats sock (negsuc e) sa a slots ts sockfd conn_ptr =
    (server_socket-IsSettled p n fd cfg thread_id stats (negsuc e) a slots ts _, (refl, refl, refl))
run_zcrx-IsSettled p n fd cfg thread_id stats sock (pos z) sa a slots ts sockfd conn_ptr = (
  server_socket-IsSettled p n fd cfg thread_id stats (pos z) a slots ts _,
  client_with-IsSettled p n fd cfg thread_id stats sockfd conn_ptr slots ts _
      (zcrx_setup-KeepsNothing p n fd a cfg.zcrx_area_size cfg.zcrx_rq_entries),
)
