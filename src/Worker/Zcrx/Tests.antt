-- ===== src/Worker/Zcrx/Tests.antt =====
-- A zero-copy server that takes a connection, data and its end, and the theorems at it.
use uring_perf.Base.{refl, true, false, List, [], ◌∷◌, none, some, inl, inr, arith, pos, negsuc}
use uring_perf.Config.Settings.{default_config}
use uring_perf.Stats.Counters.{new_collector}
use uring_perf.Net.Sockets.{Answers}
use uring_perf.Worker.Zcrx.{
  ZcrxAnswers, ZcrxEvent, no_zcrx, queue_sqe, zcrx_submit_accept, zcrx_submit_recv, completed,
  take_zcrx,
}
use uring_perf.Worker.Zcrx.Server.{
  ZcrxTurn, zcrx_server, zcrx_serve, zcrx_serve_all, zcrx_dispatch, accept_again, accept_conn,
  keep_conn, with_ring, on_rx, conn_ended, drop_conn, note_end, take_server, object_at, has_key,
  erase_key, zcrx_loop,
}
use uring_perf.Worker.Zcrx.Closing.{TurnsPosted, Outcome, zcrx_loop_outcome}
use uring_perf.Worker.Zcrx.Run.{run_server_zcrx, run_client_reverse_recv_zcrx}
use uring_perf.Worker.Zcrx.Release.{IsSettled, run_zcrx-IsSettled}

-- A connection with descriptor 9, whose object is at 4096.
abbrev taken_conn : ZcrxEvent
taken_conn = record {
  cqe = record { user_data = 1; res = pos 9; flags = 0 };
  off = 0;
  khead = 0;
  stop = false;
  flags = pos 2;
  ptr = 4096;
}

-- Its data, with more to come, and its end.
abbrev data_of_conn : ZcrxEvent
data_of_conn = record taken_conn { cqe = record { user_data = 4098; res = pos 700; flags = 2 } }

abbrev end_of_conn : ZcrxEvent
end_of_conn = record taken_conn { cqe = record { user_data = 4098; res = pos 0; flags = 0 } }

abbrev turns : List ZcrxTurn
turns =
    record { stop = false; wret = pos 1; ready = taken_conn ∷ [] }
    ∷ record { stop = false; wret = negsuc 61; ready = data_of_conn ∷ end_of_conn ∷ [] }
    ∷ record { stop = true; wret = pos 0; ready = [] }
    ∷ []

turns-TurnsPosted : TurnsPosted (zcrx_server 0 (new_collector 1 1) 3 no_zcrx (λ n. true)) turns
unfolding zcrx_server queue_sqe zcrx_submit_accept zcrx_submit_recv completed take_zcrx zcrx_serve
    zcrx_serve_all zcrx_dispatch accept_again accept_conn keep_conn with_ring on_rx conn_ended
    drop_conn note_end take_server object_at has_key erase_key
turns-TurnsPosted = (
  ((omega arith, inr (refl, refl, (refl, omega arith))), tt),
  (
    ((omega arith, inl (λ e. omega (arith, e))), ((omega arith, inl (λ e. omega (arith, e))), tt)),
    (tt, tt),
  ),
)

zcrx_loop_outcome_example :
    Outcome 9 4098 turns (zcrx_loop (zcrx_server 0 (new_collector 1 1) 3 no_zcrx (λ n. true)) turns)
zcrx_loop_outcome_example =
    zcrx_loop_outcome 0 (new_collector 1 1) 3 no_zcrx (λ n. true) turns 9 4098 (λ n. refl)
      turns-TurnsPosted

abbrev sure : ZcrxAnswers
sure = record {
  page_size = 4096;
  ifindex = 2;
  ring_map = some 8192;
  area_map = some 65536;
  register = pos 0;
  rq_entries = 256;
  zcrx_id = 0;
  rq_area_token = 0;
  rqes = λ i. record { off = 0; len = 0 };
}

abbrev answers : Answers
answers = record {
  flags = pos 2;
  bind = pos 0;
  listen = pos 0;
  resolved = none;
  host = none;
  connect = pos 0;
}

run_zcrx-IsSettled_example :
    IsSettled 8192 8192 3 (
      run_server_zcrx default_config 0
        (new_collector 1 1)
        (pos 3)
        answers
        (pos 0)
        sure
        (λ n. true)
        turns)
    × IsSettled 8192 8192 3 (
        run_client_reverse_recv_zcrx default_config 0
          (new_collector 1 1)
          5
          4096
          (pos 0)
          sure
          (λ n. true)
          turns)
run_zcrx-IsSettled_example =
    run_zcrx-IsSettled 8192 8192 3 default_config 0 (new_collector 1 1) (pos 3) (pos 0) answers sure
      (λ n. true) turns 5 4096
