-- ===== src/Engine/Tests.antt =====
-- Engines at work, and the theorems at inputs that meet their hypotheses.
use uring_perf.Base.{
  ℕ, suc, ◌+◌, ◌^◌, ◌≤◌, ◌≡◌, refl, true, false, ◌&&◌, [], ◌∷◌, none, some, arith, ℤ, pos, negsuc,
  is_negative, ◌⊎◌, ◌==◌, not,
}
use uring_perf.Engine.State.{Engine, Liburing, IoContext, CtxType, Sqe}
use uring_perf.Engine.Setup.{SetupParams, setup_params, create, destroy, queue_exit, create_outcome}
use uring_perf.Engine.Prep.{fill_sqe}
use uring_perf.Engine.Pow2.{next_pow2, next_pow2_least}
use uring_perf.Engine.BufRing.{setup_multishot_recv}
use uring_perf.Engine.Provided.{buffers_below, setup_provides}
use uring_perf.Engine.Slots.{
  send_zc, accept, registers_files, sees, perform, asked, calls, perform_one_slot, calls-fixed_file,
}

-- Entries are free but for the fourth call.
abbrev sample_lib : Liburing
sample_lib = record { slots = λ n. not (n == 3); buf_ring_mask = λ n. n }

abbrev sample : Engine
sample = record {
  lib = sample_lib;
  gets = 3;
  sqes = [];
  submits = 0;
  waits = 0;
  seen = 0;
  queue_depth = 256;
  sqpoll_enabled = false;
  buffers_registered = true;
  files_registered = true;
  zc_supported = true;
  iovecs = [];
  recv_buf_ring = some (record { adds = []; published = 0 });
  recv_buf_mem = 4096;
  recv_buf_asked = 0;
  recv_buf_count = 32;
  recv_buf_size = 100;
  recv_bgid = 0;
}

abbrev sample_ctx : IoContext
sample_ctx = record {
  ctx_type = CtxType.send;
  fd = 0;
  buf_idx = 2;
  buf_ptr = 4096;
  length = 100;
  stream_id = 0;
}

-- The kernel refuses the flags of SQPOLL.
abbrev refuse_sqpoll : SetupParams → ℤ
refuse_sqpoll p = elim p.sqpoll [ true ↦ negsuc 21 | false ↦ pos 0 ]

create_outcome_example :
    let first = is_negative (refuse_sqpoll (setup_params true)) in
    ((create sample_lib refuse_sqpoll (pos 0) 256 true ≡ none)
        × (first ≡ true)
        × (is_negative (pos 0) ≡ true)
      ⊎ ((e : Engine) × (create sample_lib refuse_sqpoll (pos 0) 256 true ≡ some e)
          × ((first && is_negative (pos 0)) ≡ false)
          × (e.sqpoll_enabled ≡ (true && not first))
          × (destroy e ≡ queue_exit ∷ [])))
    × ((setup_params true).sqpoll && (setup_params true).coop_taskrun ≡ false)
create_outcome_example = create_outcome sample_lib refuse_sqpoll (pos 0) 256 true

next_pow2_least_example :
    (n : ℕ) × (n ≤ 31) × (next_pow2 33 ≡ 2 ^ n) × (33 ≤ 2 ^ n) × (suc (2 ^ n) ≤ 66)
next_pow2_least_example = next_pow2_least 33 (omega arith) (omega arith)

setup_provides_example :
    let (done, e', freed) = setup_multishot_recv sample 20 100 0 true (some 8192) in
    (n : ℕ) × (done ≡ true)
    × (e'.recv_buf_count ≡ 2 ^ n)
    × (20 ≤ 2 ^ n)
    × (e'.recv_buf_ring ≡ some (record { adds = buffers_below e' (2 ^ n); published = 2 ^ n }))
setup_provides_example = setup_provides sample 20 100 0 8192 (omega arith) (omega arith)

perform_one_slot_example :
    let r = accept 5 8 in
    ((sample.lib.slots sample.gets ≡ true)
      × ((sqe : Sqe) × (perform sample r
            ≡ (true, record sample { gets = sample.gets + 1; sqes = sqe ∷ sample.sqes }))
          × (sqe.user_data ≡ 8)
          × (sqe.fd ≡ 5)))
    ⊎ ((sample.lib.slots sample.gets ≡ false)
        × (perform sample r ≡ (false, record sample { gets = sample.gets + 1 })))
perform_one_slot_example = perform_one_slot sample (accept 5 8)

abbrev made_sample : Engine
made_sample = record sample {
  gets = 0;
  buffers_registered = false;
  files_registered = false;
  recv_buf_ring = none;
  recv_buf_mem = 0;
  recv_buf_asked = 0;
  recv_buf_count = 0;
  recv_buf_size = 0;
}

calls-fixed_file_example :
    let e = calls made_sample (registers_files (7 ∷ []) (pos 0) ∷ sees ∷ []) in
    let r = send_zc 0 4096 100 2 9 sample_ctx true in
    (sqe : Sqe) × (perform e r ≡ fill_sqe e sqe)
    × (sqe.fixed_file ≡ ((asked r).2 && e.files_registered))
unfolding create setup_params
calls-fixed_file_example =
    calls-fixed_file sample_lib refuse_sqpoll (pos 0) 256 false {made = made_sample} refl
      (registers_files (7 ∷ []) (pos 0) ∷ sees ∷ []) (send_zc 0 4096 100 2 9 sample_ctx true)

abbrev without_zc : Engine
without_zc = record sample { gets = 0; zc_supported = false }
