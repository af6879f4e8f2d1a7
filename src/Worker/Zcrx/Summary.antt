-- ===== src/Worker/Zcrx/Summary.antt =====
-- src/worker.cpp: the counters that `run_server_zcrx` leaves.
use uring_perf.Base.{
  ℕ, ◌<◌, ◌≡◌, refl, ap, ◌∙◌, Bool, true, false, List, [], Option, none, some, ℤ, pos, negsuc,
  Bool-cases, inl, inr,
}
use uring_perf.Config.Settings.{Config}
use uring_perf.Stats.Counters.{StatsCollector, new_collector}
use uring_perf.Stats.Interleaving.{count_calls}
use uring_perf.Stats.Totals.{totals}
use uring_perf.Net.Sockets.{Answers}
use uring_perf.Worker.Client.Accounting.{Outcome}
use uring_perf.Worker.Server.Accounting.{report_all, summary_of, totals-report_all}
use uring_perf.Worker.Launch.{zcrx_listen_socket}
use uring_perf.Worker.Zcrx.{
  Holding, ZcrxState, ZcrxAnswers, zcrx_submit_accept, queue_sqe, zcrx_setup,
}
use uring_perf.Worker.Zcrx.Server.{
  ZcrxServer, ZcrxTurn, ZcrxRun, stops, runs, faults, zcrx_loop, zcrx_server,
}
use uring_perf.Worker.Zcrx.Counting.{turns_as, Ran, zcrx_loop-Ran}
use uring_perf.Worker.Zcrx.Run.{
  ZcrxExit, exits, waits, crashes, server_exit, server_with, server_ring, server_socket,
  run_server_zcrx,
}

-- What is dealt with: nothing before the socket, the ring and the set-up are there.
abbrev pub served_turns : ℤ → ℤ → Bool → List ZcrxTurn → List Outcome
served_turns (pos fd) (pos n) true ts = turns_as ts
served_turns (pos fd) (pos n) false ts = []
served_turns (pos fd) (negsuc e) ready ts = []
served_turns (negsuc k) ret ready ts = []

-- The counters sum up to what was dealt with, where there is a return.
abbrev pub SumsUp : List Outcome → ZcrxExit → Type 0
SumsUp os (exits stats hs closed) = totals stats ≡ summary_of os
SumsUp os waits = Unit
SumsUp os crashes = Unit

abbrev Starts : ℕ → StatsCollector → Option ZcrxServer → Type 0
Starts thread_id stats none = Unit
Starts thread_id stats (some s) = (s.thread_id ≡ thread_id) × (s.stats ≡ stats)

zcrx_server-Starts :
    (thread_id : ℕ) (stats : StatsCollector) (fd : ℕ) (zst : ZcrxState) (slots : ℕ → Bool)
    → Starts thread_id stats (zcrx_server thread_id stats fd zst slots)
unfolding zcrx_server zcrx_submit_accept queue_sqe
zcrx_server-Starts thread_id stats fd zst slots = elim (Bool-cases (slots 0)) [
  | inl there ↦ rw there (refl, refl)
  | inr full ↦ rw full tt
]

module _ (cfg : Config) (thread_id n interval : ℕ) where
  server_exit-SumsUp :
      (fd : ℕ) (zst : ZcrxState) (hs : List Holding) (o : Option ZcrxServer) (ts : List ZcrxTurn)
      → thread_id < n
      → Starts thread_id (new_collector n interval) o
      → SumsUp (turns_as ts) (server_exit cfg fd zst hs (zcrx_loop o ts))
  unfolding server_exit zcrx_loop
  server_exit-SumsUp fd zst hs none ts small h = tt
  server_exit-SumsUp fd zst hs (some s) ts small (same, new) =
      sums (zcrx_loop (some s) ts) (zcrx_loop-Ran s ts)
    where
      sums :
          (r : ZcrxRun) → Ran s (turns_as ts) r → SumsUp (turns_as ts) (server_exit cfg fd zst hs r)
      sums (stops t) (kept, counted) =
          ap totals counted
          ∙ (λ i. totals (count_calls (new i) (report_all (same i) (turns_as ts))))
          ∙ totals-report_all n interval thread_id (turns_as ts) small
      sums (runs t) h = tt
      sums faults h = tt

  server_with-SumsUp :
      (fd : ℕ) (slots : ℕ → Bool) (ts : List ZcrxTurn) (r : Bool × ZcrxState × List Holding)
      → thread_id < n
      → SumsUp
          (served_turns (pos fd) (pos 0) r.0 ts)
          (server_with cfg thread_id (new_collector n interval) fd slots ts r)
  unfolding server_with count_calls
  server_with-SumsUp fd slots ts (false, zst, hs) small =
      totals-report_all n interval thread_id [] small
  server_with-SumsUp fd slots ts (true, zst, hs) small =
      server_exit-SumsUp fd zst _ _ ts small (zcrx_server-Starts thread_id _ fd zst slots)

  server_socket-SumsUp :
      (ret : ℤ) (a : ZcrxAnswers) (slots : ℕ → Bool) (ts : List ZcrxTurn) (r : ℤ)
      → thread_id < n
      → SumsUp
          (served_turns r ret (zcrx_setup a cfg.zcrx_area_size cfg.zcrx_rq_entries).0 ts)
          (server_socket cfg thread_id (new_collector n interval) ret a slots ts r)
  unfolding server_socket server_ring count_calls
  server_socket-SumsUp ret a slots ts (negsuc k) small =
      totals-report_all n interval thread_id [] small
  server_socket-SumsUp (negsuc e) a slots ts (pos fd) small =
      totals-report_all n interval thread_id [] small
  server_socket-SumsUp (pos z) a slots ts (pos fd) small = server_with-SumsUp fd slots ts _ small

  -- What `run_server_zcrx` has counted at a return is what it dealt with, each completion once.
  pub run_server_zcrx-SumsUp :
      (sock : ℤ) (sa : Answers) (ret : ℤ) (a : ZcrxAnswers) (slots : ℕ → Bool) (ts : List ZcrxTurn)
      → thread_id < n
      → SumsUp
          (served_turns
            (zcrx_listen_socket cfg thread_id sock sa).0
            ret
            (zcrx_setup a cfg.zcrx_area_size cfg.zcrx_rq_entries).0
            ts)
          (run_server_zcrx cfg thread_id (new_collector n interval) sock sa ret a slots ts)
  unfolding run_server_zcrx
  run_server_zcrx-SumsUp sock sa ret a slots ts small =
      server_socket-SumsUp ret a slots ts (zcrx_listen_socket cfg thread_id sock sa).0 small
