-- ===== src/Worker/Server/Safety/Tests.antt =====
-- A run of a server in multishot mode that takes a connection, which sends data and ends.
use uring_perf.Base.{ℕ, ◌+◌, refl, true, false, List, [], ◌∷◌, none, some, inl, inr, arith, pos}
use uring_perf.Config.Settings.{Config, default_config}
use uring_perf.Engine.State.{Engine}
use uring_perf.Engine.Prep.{accept_sqe, multishot_sqe, fill_sqe, prep_accept, prep_recv_multishot}
use uring_perf.Engine.BufRing.{setup_multishot_recv, return_recv_buffer}
use uring_perf.Engine.Reap.{cqe_seen, submit, reap_completions}
use uring_perf.Stats.Counters.{new_collector}
use uring_perf.Net.Transfer.{got, recv_turn, recv_all}
use uring_perf.Net.Handshake.{recv_handshake, read_handshake, decode_handshake}
use uring_perf.Worker.Contexts.{find, make, remove, remove_all}
use uring_perf.Worker.Server.{
  Server, served, lookup, erase, drop_session, open_session, store_session,
}
use uring_perf.Worker.Server.Handlers.{
  greet, rearm_accept, admit, on_accept, take_data, on_multishot, dispatch, serve, serve_all,
  on_terminated, note_error, hang_up,
}
use uring_perf.Worker.Server.Loop.{
  Pass, fresh_server, try_multishot, start_server, serve_harvest, server_loop,
}
use uring_perf.Worker.Server.Safety.Harvests.{RunPosted}
use uring_perf.Worker.Server.Safety.Running.{Outcome, server_loop_outcome}

abbrev buffer_of : ℕ → ℕ
buffer_of n = 4096 + n

-- The ring of a new engine.
abbrev empty_ring : Engine
empty_ring = record {
  lib = record { slots = λ n. true; buf_ring_mask = λ n. n };
  gets = 0;
  sqes = [];
  submits = 0;
  waits = 0;
  seen = 0;
  queue_depth = 256;
  sqpoll_enabled = false;
  buffers_registered = false;
  files_registered = false;
  zc_supported = true;
  iovecs = [];
  recv_buf_ring = none;
  recv_buf_mem = 0;
  recv_buf_asked = 0;
  recv_buf_count = 0;
  recv_buf_size = 0;
  recv_bgid = 0;
}

abbrev small : Config
small = record default_config { multishot_recv = true; in_flight = 2; buf_size = 16 }

-- A connection, then its data and its end, then the stop signal.
abbrev passes : List Pass
passes =
    record {
      stop = false;
      now = 0;
      ready =
          record {
            cqe = record { user_data = 1; res = pos 8; flags = 0 };
            stop = false;
            now = 0;
            handshake = record { result = got (0 ∷ 0 ∷ 0 ∷ 0 ∷ 9 ∷ []); poll = pos 0 } ∷ [];
          }
          ∷ [];
    }
    ∷ record {
      stop = false;
      now = 1;
      ready =
          record {
            cqe = record { user_data = 2; res = pos 100; flags = 3 };
            stop = false;
            now = 0;
            handshake = [];
          }
          ∷ record {
            cqe = record { user_data = 2; res = pos 0; flags = 0 };
            stop = false;
            now = 0;
            handshake = [];
          }
          ∷ [];
    }
    ∷ record { stop = true; now = 2; ready = [] }
    ∷ []

abbrev started : Server
started = start_server small 0 (new_collector 1 1) empty_ring 3 buffer_of true (some 65536) (pos 0)

passes-RunPosted : RunPosted buffer_of [] (served started) passes
unfolding find lookup serve serve_all serve_harvest greet recv_handshake read_handshake recv_all
    recv_turn decode_handshake dispatch on_accept cqe_seen rearm_accept prep_accept accept_sqe
    fill_sqe admit store_session open_session make prep_recv_multishot multishot_sqe on_multishot
    take_data return_recv_buffer start_server fresh_server try_multishot setup_multishot_recv submit
    on_terminated note_error hang_up drop_session erase remove_all remove reap_completions
passes-RunPosted = inr (
  ((omega arith, inr (refl, refl)), tt),
  inr (
    ((omega arith, inl (λ e. omega (arith, e))), ((omega arith, inl (λ e. omega (arith, e))), tt)),
    inl refl,
  ),
)

server_loop_outcome_example : Outcome 3 8 1 (
    server_loop buffer_of
      (start_server small 0 (new_collector 1 1) empty_ring 3 buffer_of true (some 65536) (pos 0))
      passes)
unfolding try_multishot setup_multishot_recv start_server fresh_server make reap_completions
server_loop_outcome_example =
    server_loop_outcome small 0 (new_collector 1 1) empty_ring 3 buffer_of true (some 65536) (pos 0)
      passes 8 refl refl refl passes-RunPosted
