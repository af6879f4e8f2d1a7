-- ===== src/Worker/Receiver/Tests.antt =====
-- A client that receives into a ring of two buffers.
use uring_perf.Base.{
  ◌+◌, ◌^◌, ◌≡◌, refl, true, false, ◌||◌, List, [], ◌∷◌, some, none, ◌⊎◌, is_negative, arith, pos,
  negsuc,
}
use uring_perf.Config.Settings.{Config, default_config}
use uring_perf.Engine.Memory.{freed_by}
use uring_perf.Engine.State.{BufRing}
use uring_perf.Stats.Counters.{new_collector}
use uring_perf.Worker.Contexts.{no_contexts}
use uring_perf.Worker.Client.{Completion, Turn}
use uring_perf.Worker.Receiver.{Receiver, receive_all}
use uring_perf.Engine.Reap.{reap_completions}
use uring_perf.Stats.Totals.{totals}
use uring_perf.Worker.Client.Totals.{summary}
use uring_perf.Worker.Client.Run.{throws, ends, Ending}
use uring_perf.Worker.Receiver.Run.{ReceiveAnswers, run_receives}
use uring_perf.Worker.Receiver.Counting.{received}
use uring_perf.Worker.Receiver.Outcome.{dealt_with, run_receives_outcome}
use uring_perf.Worker.Receiver.Buffers.{all_brought, some_end, receive_all-returns}

abbrev two_published : BufRing
two_published = record { adds = []; published = 2 }

abbrev receiver : Receiver
receiver = record {
  config = default_config;
  thread_id = 0;
  stats = new_collector 1 1;
  engine = record {
    lib = record { slots = λ n. true; buf_ring_mask = λ n. 1 };
    gets = 1;
    sqes = [];
    submits = 1;
    waits = 0;
    seen = 0;
    queue_depth = 256;
    sqpoll_enabled = false;
    buffers_registered = false;
    files_registered = false;
    zc_supported = true;
    iovecs = [];
    recv_buf_ring = some two_published;
    recv_buf_mem = 4096;
    recv_buf_asked = 0;
    recv_buf_count = 2;
    recv_buf_size = 100;
    recv_bgid = 0;
  };
  sockfd = 7;
  use_multishot = true;
  ctxs = no_contexts;
  recv_buffers = [];
  peer_closed = false;
}

-- Buffer 1 with data, no buffers left, and the end of the stream.
abbrev arrivals : List Completion
arrivals =
    record { cqe = record { user_data = 1; res = pos 60; flags = 2 ^ 16 + 3 }; stop = false }
    ∷ record { cqe = record { user_data = 1; res = negsuc 104; flags = 0 }; stop = false }
    ∷ record { cqe = record { user_data = 1; res = pos 0; flags = 0 }; stop = false }
    ∷ []

receive_all-returns_example :
    (c' : Receiver) × (r' : BufRing) × (receive_all receiver arrivals ≡ some c')
    × (c'.engine.recv_buf_ring ≡ some r')
    × (r'.published ≡ 2 + all_brought arrivals)
    × (c'.peer_closed ≡ (false || some_end arrivals))
receive_all-returns_example = receive_all-returns receiver arrivals two_published refl refl

arrivals_end : (all_brought arrivals ≡ 1) × (some_end arrivals ≡ true)
arrivals_end = (refl, refl)

-- A ring of two buffers, for a client that gets data and then the end of the stream.
abbrev answers : ReceiveAnswers
answers = record {
  common = record {
    lib = record { slots = λ n. true; buf_ring_mask = λ n. 1 };
    init_params = λ p. pos 0;
    init = pos 0;
    mem = λ i. none;
    files = pos 0;
    buffers = pos 0;
  };
  ring = true;
  ring_mem = some 65536;
}

abbrev small : Config
small = record default_config { multishot_recv = true; in_flight = 4 }

abbrev turns : List Turn
turns = record { stop = false; ready = arrivals } ∷ record { stop = false; ready = arrivals } ∷ []

run_receives_outcome_example :
    let run = run_receives small 0 (new_collector 1 1) 7 answers turns in
    ((run ≡ throws) × (is_negative (pos 0) ≡ true) × (is_negative (pos 0) ≡ true))
    ⊎ ((r : Ending) × (run ≡ ends r)
        × (r.closed ≡ 7 ∷ [])
        × (r.freed ≡ [])
        × (freed_by r.destroyed ≡ 65536 ∷ [])
        × (totals r.stats ≡ summary (received true) (dealt_with small answers turns)))
unfolding reap_completions
run_receives_outcome_example =
    run_receives_outcome small 0 1 1 7 answers turns (omega arith)
      (omega arith, (omega arith, (omega arith, tt)))
