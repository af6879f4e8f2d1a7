-- ===== src/Worker/Client/Tests.antt =====
-- A client with two buffers, and the theorems at inputs that meet their hypotheses.
use uring_perf.Base.{
  ◌≡◌, refl, true, false, List, [], ◌∷◌, none, some, inr, ◌⊎◌, ◌==◌, if◌then◌else◌, arith, pos,
  negsuc, is_negative,
}
use uring_perf.Config.Settings.{Config, default_config}
use uring_perf.Engine.State.{Engine, IoContext, CtxType}
use uring_perf.Stats.Counters.{Counter, new_collector}
use uring_perf.Stats.Totals.{totals}
use uring_perf.Worker.Contexts.{find}
use uring_perf.Worker.Client.{Client, Completion, Turn, handle_all}
use uring_perf.Worker.Client.Accounting.{outcome, measure}
use uring_perf.Worker.Client.Totals.{summary}
use uring_perf.Worker.Client.Pipeline.{IsPipeline, handle_all-IsPipeline}
use uring_perf.Engine.Reap.{reap_completions}
use uring_perf.Worker.Client.Run.{throws, ends, Ending, SendAnswers, run_sends, harvested}
use uring_perf.Worker.Client.Outcome.{run_sends-outcome}

abbrev two_buffers : Config
two_buffers = record default_config { in_flight = 2; buf_size = 100 }

abbrev new_ring : Engine
new_ring = record {
  lib = record { slots = λ n. true; buf_ring_mask = λ n. n };
  gets = 0;
  sqes = [];
  submits = 0;
  waits = 0;
  seen = 0;
  queue_depth = 256;
  sqpoll_enabled = false;
  buffers_registered = false;
  files_registered = false;
  zc_supported = true;
  iovecs = [];
  recv_buf_ring = none;
  recv_buf_mem = 0;
  recv_buf_asked = 0;
  recv_buf_count = 0;
  recv_buf_size = 0;
  recv_bgid = 0;
}

abbrev one_context : IoContext
one_context = record {
  ctx_type = CtxType.send;
  fd = 7;
  buf_idx = 0;
  buf_ptr = 4096;
  length = 100;
  stream_id = 0;
}

abbrev one_client : Client
one_client = record {
  config = two_buffers;
  thread_id = 0;
  stats = new_collector 1 1;
  engine = new_ring;
  use_fixed_file = false;
  ctxs = record { alive = (1, one_context) ∷ []; next = 2 };
  buffer_pool = 4096 ∷ [];
  context_pool = 1 ∷ [];
}

-- A part of the buffer, EAGAIN, a notification, and an error.
abbrev harvest : List Completion
harvest =
    record { cqe = record { user_data = 1; res = pos 60; flags = 0 }; stop = false }
    ∷ record { cqe = record { user_data = 1; res = negsuc 10; flags = 0 }; stop = false }
    ∷ record { cqe = record { user_data = 1; res = pos 0; flags = 8 }; stop = false }
    ∷ record { cqe = record { user_data = 1; res = negsuc 103; flags = 0 }; stop = true }
    ∷ []

one_client-IsPipeline : IsPipeline 7 one_client
unfolding find
one_client-IsPipeline = record {
  zc = refl;
  files = refl;
  pool = λ p ctx h. ground arith;
  queued = tt;
}

handle_all-IsPipeline_example :
    (c' : Client) × (handle_all one_client harvest ≡ some c') × IsPipeline 7 c'
unfolding find
handle_all-IsPipeline_example = handle_all-IsPipeline 7 one_client harvest one_client-IsPipeline (
  inr (one_context, refl),
  (inr (one_context, refl), (inr (one_context, refl), (inr (one_context, refl), tt))),
)

measure_lem :
    (measure Counter.bytes_transferred (outcome two_buffers) harvest ≡ 60)
    × (measure Counter.errors (outcome two_buffers) harvest ≡ 1)
unfolding measure outcome
measure_lem = (refl, refl)

-- A machine on which the second buffer cannot be had.
abbrev answers : SendAnswers
answers = record {
  lib = record { slots = λ n. true; buf_ring_mask = λ n. n };
  init_params = λ p. pos 0;
  init = pos 0;
  mem = λ i. if i == 0 then some 4096 else none;
  files = pos 0;
  buffers = pos 0;
}

abbrev turns : List Turn
turns = record { stop = false; ready = harvest } ∷ record { stop = true; ready = harvest } ∷ []

run_sends-outcome_example :
    let run = run_sends two_buffers 0 (new_collector 1 1) 7 answers turns in
    ((run ≡ throws) × (is_negative (pos 0) ≡ true) × (is_negative (pos 0) ≡ true))
    ⊎ ((r : Ending) × (run ≡ ends r)
        × (r.closed ≡ 7 ∷ [])
        × (r.freed ≡ 4096 ∷ [])
        × (totals r.stats ≡ summary (outcome two_buffers) (harvested 2 turns)))
unfolding reap_completions
run_sends-outcome_example =
    run_sends-outcome two_buffers 0 1 1 7 answers turns (omega arith)
      (omega arith, (omega arith, tt))
