-- ===== src/Worker/Server/Tests.antt =====
-- A server with a connection in single-shot mode and a reverse session, and the theorems at inputs
-- that meet their hypotheses.
use uring_perf.Base.{
  ℕ, ◌+◌, ◌*◌, ◌≡◌, ◌≢◌, refl, true, false, List, [], ◌∷◌, none, inl, inr, arith, pos,
}
use uring_perf.Config.Settings.{Config, default_config}
use uring_perf.Engine.State.{Engine, IoContext, CtxType}
use uring_perf.Stats.Counters.{add_bytes, new_collector}
use uring_perf.Worker.Contexts.{find, make}
use uring_perf.Engine.Reap.{submit, cqe_seen, reap_completions}
use uring_perf.Worker.Server.{
  ClientSession, Server, Event, served, faults, lookup, sweep, sweep_from, open_session,
  fill_session, queue, store_session,
}
use uring_perf.Worker.Server.Handlers.{
  greet, rearm_accept, admit, on_accept, dispatch, serve, serve_all, on_recv, receive_again,
}
use uring_perf.Worker.Server.Loop.{
  Pass, accept_context, fresh_server, try_multishot, start_server, serve_harvest, server_loop,
}
use uring_perf.Worker.Server.Listening.{IsListening}
use uring_perf.Worker.Server.Run.{server_loop-IsListening}
use uring_perf.Net.Transfer.{RecvResult, recv_turn, recv_all}
use uring_perf.Net.Handshake.{recv_handshake, read_handshake, decode_handshake}
use uring_perf.Engine.Prep.{fill_sqe, accept_sqe, recv_sqe, prep_accept, prep_recv}
use uring_perf.Engine.BufRing.{setup_multishot_recv}
use uring_perf.Worker.Server.Lifetime.{end_of_stream_faults, sweep_faults}
use uring_perf.Worker.Server.Sweep.{sweep-spared}

abbrev idle_ring : Engine
idle_ring = record {
  lib = record { slots = λ n. true; buf_ring_mask = λ n. n };
  gets = 0;
  sqes = [];
  submits = 0;
  waits = 0;
  seen = 0;
  queue_depth = 256;
  sqpoll_enabled = false;
  buffers_registered = false;
  files_registered = false;
  zc_supported = true;
  iovecs = [];
  recv_buf_ring = none;
  recv_buf_mem = 0;
  recv_buf_asked = 0;
  recv_buf_count = 0;
  recv_buf_size = 0;
  recv_bgid = 0;
}

-- A context of a pool of two, with buffers of 100 bytes.
abbrev member : CtxType → ℕ → ℕ → IoContext
member kind fd b = record {
  ctx_type = kind;
  fd = fd;
  buf_idx = b;
  buf_ptr = 1000 * fd + 100 * b;
  length = 100;
  stream_id = 0;
}

abbrev receiving : ClientSession
receiving = record {
  client_fd = 7;
  is_reverse = false;
  deadline = 0;
  buffers = 7000 ∷ 7100 ∷ [];
  contexts = 2 ∷ 3 ∷ [];
  ms_ctx = none;
}

abbrev sending : ClientSession
sending = record {
  client_fd = 8;
  is_reverse = true;
  deadline = 500;
  buffers = 8000 ∷ 8100 ∷ [];
  contexts = 4 ∷ 5 ∷ [];
  ms_ctx = none;
}

abbrev busy : Server
busy = record {
  config = record default_config { in_flight = 2; buf_size = 100 };
  thread_id = 0;
  stats = new_collector 1 1;
  engine = idle_ring;
  ctxs = record {
    alive =
        (5, member CtxType.send 8 1)
        ∷ (4, member CtxType.send 8 0)
        ∷ (3, member CtxType.recv 7 1)
        ∷ (2, member CtxType.recv 7 0)
        ∷ (1, accept_context 3)
        ∷ [];
    next = 6;
  };
  listen_fd = 3;
  accept_ctx = 1;
  use_multishot = false;
  udp_fixed_file = false;
  sessions = (7, receiving) ∷ (8, sending) ∷ [];
  allocs = 4;
  closed = [];
  freed = [];
}

-- A completion with result 0, the end of the stream.
abbrev end_of : ℕ → Event
end_of p = record {
  cqe = record { user_data = p; res = pos 0; flags = 0 };
  stop = false;
  now = 100;
  handshake = [];
}

buffer_of : ℕ → ℕ
buffer_of n = 9000 + 100 * n

end_of_stream_faults_example :
    (s' : Server) × (serve buffer_of busy (end_of 2) ≡ served s')
    × (serve buffer_of s' (end_of 3) ≡ faults)
unfolding find lookup
end_of_stream_faults_example =
    end_of_stream_faults buffer_of busy (member CtxType.recv 7 0) receiving (end_of 2) (end_of 3)
      refl (λ e. omega (arith, e)) refl refl refl refl refl (λ e. omega (arith, e)) (inr (inl refl))

sweep_faults_example : serve buffer_of (sweep 500 busy) (end_of 4) ≡ faults
sweep_faults_example =
    sweep_faults buffer_of busy 500 8 sending (end_of 4) (inr (inl (refl, refl))) refl (omega arith)
      (λ e. omega (arith, e)) (inl refl)

sweep-spared_example :
    ((sweep 500 busy).sessions ≡ (7, receiving) ∷ [])
    × ((sweep 500 busy).closed ≡ 8 ∷ [])
    × ((sweep 500 busy).freed ≡ 8000 ∷ 8100 ∷ [])
sweep-spared_example = sweep-spared 500 busy (((λ e. omega (arith, e)), tt), (tt, tt))

-- A server that starts without a buffer ring, with one buffer a connection.
abbrev single : Config
single = record default_config { in_flight = 1; buf_size = 100 }

-- A connection with descriptor 9 whose handshake comes in one piece.
abbrev connection : Event
connection = record {
  cqe = record { user_data = 1; res = pos 9; flags = 0 };
  stop = false;
  now = 100;
  handshake = record { result = RecvResult.got (0 ∷ 0 ∷ 0 ∷ 0 ∷ 10 ∷ []); poll = pos 0 } ∷ [];
}

abbrev connected : Server
connected = record {
  config = single;
  thread_id = 0;
  stats = new_collector 1 1;
  engine = record idle_ring {
    gets = 3;
    sqes = accept_sqe 3 1 ∷ recv_sqe idle_ring 9 9000 100 0 2 false ∷ accept_sqe 3 1 ∷ [];
    submits = 2;
    seen = 1;
  };
  ctxs = record { alive = (2, member CtxType.recv 9 0) ∷ (1, accept_context 3) ∷ []; next = 3 };
  listen_fd = 3;
  accept_ctx = 1;
  use_multishot = false;
  udp_fixed_file = false;
  sessions = (9, record receiving { client_fd = 9; buffers = 9000 ∷ []; contexts = 2 ∷ [] }) ∷ [];
  allocs = 1;
  closed = [];
  freed = [];
}

abbrev one_pass : List Pass
one_pass = record { stop = false; now = 100; ready = connection ∷ [] } ∷ []

one_pass_runs :
    server_loop buffer_of
      (start_server single 0 (new_collector 1 1) idle_ring 3 buffer_of false none (pos 0))
      one_pass
    ≡ served connected
unfolding server_loop start_server fresh_server try_multishot setup_multishot_recv make prep_accept
    fill_sqe accept_sqe submit sweep sweep_from reap_completions serve_harvest serve_all serve find
    dispatch on_accept greet recv_handshake read_handshake recv_all recv_turn decode_handshake admit
    open_session fill_session queue prep_recv recv_sqe store_session lookup rearm_accept cqe_seen
    buffer_of
one_pass_runs = refl

server_loop-IsListening_example :
    IsListening connected × (serve buffer_of connected connection ≢ faults)
server_loop-IsListening_example =
    server_loop-IsListening single 0 (new_collector 1 1) idle_ring 3 buffer_of false none (pos 0)
      one_pass one_pass_runs connection refl

-- Then 60 bytes come.
abbrev two_passes : List Pass
two_passes =
    record { stop = false; now = 100; ready = connection ∷ [] }
    ∷ record {
      stop = false;
      now = 200;
      ready =
          record {
            cqe = record { user_data = 2; res = pos 60; flags = 0 };
            stop = false;
            now = 200;
            handshake = [];
          }
          ∷ [];
    }
    ∷ []

abbrev with_data : Server
with_data = record connected {
  stats = add_bytes (new_collector 1 1) 0 60 1;
  engine = record idle_ring {
    gets = 4;
    sqes =
        recv_sqe idle_ring 9 9000 100 0 2 false
        ∷ accept_sqe 3 1
        ∷ recv_sqe idle_ring 9 9000 100 0 2 false
        ∷ accept_sqe 3 1
        ∷ [];
    submits = 3;
    seen = 2;
  };
}

two_passes_run :
    server_loop buffer_of
      (start_server single 0 (new_collector 1 1) idle_ring 3 buffer_of false none (pos 0))
      two_passes
    ≡ served with_data
unfolding server_loop start_server fresh_server try_multishot setup_multishot_recv make prep_accept
    fill_sqe accept_sqe submit sweep sweep_from reap_completions serve_harvest serve_all serve find
    dispatch on_accept greet recv_handshake read_handshake recv_all recv_turn decode_handshake admit
    open_session fill_session queue prep_recv recv_sqe store_session lookup rearm_accept cqe_seen
    buffer_of on_recv receive_again
two_passes_run = refl
