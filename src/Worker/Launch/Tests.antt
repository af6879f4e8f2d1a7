-- ===== src/Worker/Launch/Tests.antt =====
-- A client that receives and a server on other settings, and the theorems at them.
use uring_perf.Base.{
  ◌+◌, ◌*◌, ◌^◌, ◌<◌, ◌≡◌, ◌≢◌, refl, ◌⊎◌, true, false, ◌&&◌, List, [], ◌∷◌, none, some, inr, arith,
  pos,
}
use uring_perf.Config.Settings.{Config, default_config}
use uring_perf.Stats.Counters.{new_collector}
use uring_perf.Net.Transfer.{SendRound, SendResult, got, send_turn, recv_turn, send_all}
use uring_perf.Net.Handshake.{handshake_bytes, send_handshake}
use uring_perf.Net.Delivery.{Carries, Delivers}
use uring_perf.Net.Sockets.{Answers, create_client_socket, connect_to}
use uring_perf.Worker.Contexts.{no_contexts}
use uring_perf.Worker.Server.{ClientSession, Server, Event, served, lookup}
use uring_perf.Worker.Server.Handlers.{on_accept}
use uring_perf.Worker.Launch.{connect_port, local_bind_port, listen_port, begin_client}
use uring_perf.Worker.Launch.Ports.{connect_port-listen_port}
use uring_perf.Engine.Reap.{reap_completions}
use uring_perf.Worker.Client.{Completion}
use uring_perf.Worker.Client.Run.{SendAnswers}
use uring_perf.Worker.Launch.Way.{ClientInputs, run_client}
use uring_perf.Worker.Launch.Service.{ServerInputs, run_server}
use uring_perf.Worker.Launch.Serving.{IsServed, run_server-IsServed}
use uring_perf.Worker.Launch.Closing.{IsClosed, run_client-IsClosed}
use uring_perf.Worker.Launch.Agreement.{end_of, HasRole, Performs, roles_agree}

abbrev receiver : Config
receiver = record default_config { reverse = true; duration_sec = 260; use_zcrx = true }

connect_port-listen_port_example :
    (connect_port receiver 2 ≡ listen_port default_config 2)
    × ((default_config.use_zcrx ≡ false)
        ⊎ ((listen_port default_config 2 ≡ 5203)
            × (listen_port default_config 2 ≢ listen_port default_config 3)))
    × (((receiver.use_zcrx && receiver.reverse) ≡ false)
        ⊎ ((local_bind_port receiver 2 ≡ 5203)
            × (0 < local_bind_port receiver 2)
            × (local_bind_port receiver 2 ≢ local_bind_port receiver 3)))
connect_port-listen_port_example =
    connect_port-listen_port receiver default_config 2 3 refl (omega arith) refl (omega arith)
      (omega arith) (λ e. omega (arith, e))

-- The addresses are in digits, and every call succeeds.
abbrev friendly : Answers
friendly = record {
  flags = pos 2;
  bind = pos 0;
  listen = pos 0;
  resolved = some 77;
  host = some 77;
  connect = pos 0;
}

abbrev two_pieces : List SendRound
two_pieces =
    record { result = SendResult.accepted 2; poll = pos 0 }
    ∷ record { result = SendResult.accepted 3; poll = pos 0 }
    ∷ []

two_pieces-Carries : Carries two_pieces 5
unfolding send_turn
two_pieces-Carries = inr (2, refl, inr (3, refl, refl))

abbrev accepted : Event
accepted = record {
  cqe = record { user_data = 1; res = pos 9; flags = 0 };
  stop = false;
  now = 700;
  handshake = record { result = got (1 ∷ 0 ∷ 0 ∷ 1 ∷ 4 ∷ []); poll = pos 0 } ∷ [];
}

accepted-Delivers : Delivers accepted.handshake 5 (1 ∷ 0 ∷ 0 ∷ 1 ∷ 4 ∷ [])
unfolding recv_turn
accepted-Delivers = inr (1 ∷ 0 ∷ 0 ∷ 1 ∷ 4 ∷ [], [], refl, refl, omega arith, refl)

-- A server with one context, that of its accept, and two buffers a connection.
abbrev idle : Server
idle = record {
  config = record default_config { in_flight = 2 };
  thread_id = 0;
  stats = new_collector 1 1;
  engine = record {
    lib = record { slots = λ n. true; buf_ring_mask = λ n. n };
    gets = 0;
    sqes = [];
    submits = 0;
    waits = 0;
    seen = 0;
    queue_depth = 256;
    sqpoll_enabled = false;
    buffers_registered = false;
    files_registered = false;
    zc_supported = true;
    iovecs = [];
    recv_buf_ring = none;
    recv_buf_mem = 0;
    recv_buf_asked = 0;
    recv_buf_count = 0;
    recv_buf_size = 0;
    recv_bgid = 0;
  };
  ctxs = no_contexts;
  listen_fd = 3;
  accept_ctx = 1;
  use_multishot = false;
  udp_fixed_file = false;
  sessions = [];
  allocs = 0;
  closed = [];
  freed = [];
}

roles_agree_example :
    (end_of (begin_client receiver 2 (pos 5) friendly two_pieces).0 ≡ some (true, 5))
    × (s' : Server) × (x : ClientSession) × (on_accept (λ n. 4096 * n) idle accepted ≡ served s')
    × (lookup 9 s'.sessions ≡ some x)
    × HasRole true (700 + 260 * 10 ^ 9) x
    × Performs true 9 idle x s'
unfolding create_client_socket send_handshake send_all send_turn handshake_bytes local_bind_port
    connect_to
roles_agree_example =
    roles_agree receiver 2 5 9 (pos 5) friendly two_pieces _ [] (λ n. 4096 * n) idle accepted refl
      refl (omega arith) refl two_pieces-Carries accepted-Delivers refl

-- A client that receives into a ring of two buffers: data, and then the end of the stream.
abbrev plain_receiver : Config
plain_receiver = record default_config { reverse = true; in_flight = 4; multishot_recv = true }

abbrev harvest : List Completion
harvest =
    record { cqe = record { user_data = 1; res = pos 60; flags = 3 }; stop = false }
    ∷ record { cqe = record { user_data = 1; res = pos 0; flags = 0 }; stop = false }
    ∷ []

abbrev kernel : SendAnswers
kernel = record {
  lib = record { slots = λ n. true; buf_ring_mask = λ n. 1 };
  init_params = λ p. pos 0;
  init = pos 0;
  mem = λ i. none;
  files = pos 0;
  buffers = pos 0;
}

abbrev inputs : ClientInputs
inputs = record {
  sock = pos 5;
  socket = friendly;
  script = two_pieces;
  sending = kernel;
  send_turns = [];
  receiving = record { common = kernel; ring = true; ring_mem = some 65536 };
  receive_turns =
      record { stop = false; ready = harvest } ∷ record { stop = true; ready = [] } ∷ [];
  conn_ptr = 0;
  queue = pos 0;
  zcrx = record {
    page_size = 4096;
    ifindex = 2;
    ring_map = none;
    area_map = none;
    register = pos 0;
    rq_entries = 256;
    zcrx_id = 0;
    rq_area_token = 0;
    rqes = λ i. record { off = 0; len = 0 };
  };
  slots = λ n. true;
  zcrx_turns = [];
}

run_client-IsClosed_example :
    IsClosed plain_receiver inputs (run_client plain_receiver 0 (new_collector 1 1) inputs)
unfolding reap_completions
run_client-IsClosed_example =
    run_client-IsClosed plain_receiver 0 1 1 inputs (omega arith) tt
      (omega arith, (omega arith, tt))

-- A server that accepts a connection, gets data on it, and is stopped.
abbrev service : ServerInputs
service = record {
  sock = pos 3;
  socket = friendly;
  kernel = inputs.receiving;
  passes =
      record {
        stop = false;
        now = 700;
        ready =
            record accepted {
              handshake = record { result = got (0 ∷ 0 ∷ 0 ∷ 0 ∷ 9 ∷ []); poll = pos 0 } ∷ [];
            }
            ∷ [];
      }
      ∷ record {
        stop = false;
        now = 800;
        ready = record accepted { cqe = record { user_data = 2; res = pos 60; flags = 3 } } ∷ [];
      }
      ∷ record { stop = true; now = 900; ready = [] }
      ∷ [];
  queue = pos 0;
  zcrx = inputs.zcrx;
  slots = λ n. true;
  zcrx_turns = [];
}

run_server-IsServed_example :
    IsServed default_config 0 1 1 service 0 0 0
      (run_server default_config 0 (new_collector 1 1) service)
run_server-IsServed_example = run_server-IsServed default_config 0 1 1 service 0 0 0 (omega arith)
