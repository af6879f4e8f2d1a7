-- ===== src/Worker/Client/Outcome.antt =====
-- src/worker.cpp: what a client that sends has counted and given back when it ends.
use uring_perf.Base.{
  ℕ, ◌+◌, ◌≤◌, ◌<◌, ◌==◌, Bool-cases, ◌≡◌, refl, sym, ap, subst, ◌∙◌, true, false, List, [], ◌∷◌,
  some, ◌⊎◌, inl, inr, arith, All, is_negative,
}
use uring_perf.Config.Settings.{Config}
use uring_perf.Net.Buffers.{allocate_aligned_buffer, free_buffers, blocks, free_buffers-pointers}
use uring_perf.Engine.State.{Engine}
use uring_perf.Engine.Setup.{create, setup_params, create_outcome, create-fresh}
use uring_perf.Stats.Counters.{new_collector}
use uring_perf.Stats.Interleaving.{count_calls}
use uring_perf.Stats.Totals.{totals}
use uring_perf.Worker.Client.{Client, Completion, Turn}
use uring_perf.Worker.Client.Pipeline.{IsKnown}
use uring_perf.Worker.Client.Accounting.{outcome, reports}
use uring_perf.Worker.Client.Totals.{summary, totals-reports}
use uring_perf.Worker.Client.Turns.{send_loop-Deals}
use uring_perf.Worker.Client.Start.{start_client-IsPipeline}
use uring_perf.Worker.Client.Pool.{IsFull, start_client-IsStarted}
use uring_perf.Worker.Client.Run.{
  Ending, SendRun, throws, ends, SendAnswers, stop_client, after_loop, after_start, after_create,
  run_sends, harvested, given,
}

-- The kernel gives back the address of a context of the pool, or none.
abbrev pub IsOwn : Config → Completion → Type 0
IsOwn cfg d = d.cqe.user_data ≤ cfg.in_flight

All-IsOwn :
    (cfg : Config) (c : Client) (ds : List Completion)
    → IsFull c.ctxs
    → c.ctxs.next ≡ 1 + cfg.in_flight
    → All (IsOwn cfg) ds
    → All (IsKnown c) ds
All-IsOwn cfg c [] full e h = tt
All-IsOwn cfg c (d ∷ ds) full e (own, h) = (known, All-IsOwn cfg c ds full e h)
  where
    known : IsKnown c d
    known = elim (Bool-cases (d.cqe.user_data == 0)) [
      | inl null ↦ inl (ground arith)
      | inr other ↦ inr (full d.cqe.user_data (ground arith) (omega (arith, own, e)))
    ]

-- The end of a client that starts on a new engine.
abbrev Ended : Config → ℕ → SendAnswers → List Completion → SendRun → Type 0
Ended cfg sockfd a ds run =
    (r : Ending) × (run ≡ ends r)
    × (r.closed ≡ sockfd ∷ [])
    × (r.freed ≡ blocks (given a.mem 0 cfg.in_flight))
    × (totals r.stats ≡ summary (outcome cfg) ds)

module _ (cfg : Config) (thread_id n interval sockfd : ℕ) (a : SendAnswers) (ts : List Turn)
    (t : thread_id < n) (own : All (IsOwn cfg) (harvested cfg.in_flight ts)) where
  after_create-Ended :
      (e : Engine)
      → e.zc_supported ≡ true
      → e.files_registered ≡ false
      → e.sqes ≡ []
      → Ended cfg sockfd a
          (harvested cfg.in_flight ts)
          (after_create cfg thread_id (new_collector n interval) sockfd a ts (some e))
  unfolding after_create after_start after_loop stop_client
  after_create-Ended e z f s =
      let (c, started, v, fixed, queued) =
        start_client-IsPipeline cfg thread_id (new_collector n interval) e sockfd
          (λ i. allocate_aligned_buffer (a.mem i)) a.files a.buffers z f s in
      let u =
        start_client-IsStarted cfg thread_id (new_collector n interval) e sockfd a.mem a.files
          a.buffers started in
      let same = ap (λ (x : Config). harvested x.in_flight ts) u.config in
      let (c', looped, w, kept, counted) =
        send_loop-Deals _ c ts v
          (subst (All (IsKnown c)) (sym same) (All-IsOwn cfg c _ u.full u.next own)) in
      (
        stop_client sockfd c',
        ap (after_start sockfd ts) started ∙ ap (after_loop sockfd) looped,
        refl,
        ap free_buffers (kept.buffer_pool ∙ u.buffers)
            ∙ free_buffers-pointers (given a.mem 0 cfg.in_flight),
        ap totals counted
            ∙ ap
                (λ x. totals (
                  count_calls x
                    (reports (outcome c.config) c.thread_id (harvested c.config.in_flight ts))))
                u.counters
            ∙ ap
                (λ (x : Config). totals (
                  count_calls (new_collector n interval)
                    (reports (outcome x) c.thread_id (harvested x.in_flight ts))))
                u.config
            ∙ ap
                (λ i. totals (
                  count_calls (new_collector n interval)
                    (reports (outcome cfg) i (harvested cfg.in_flight ts))))
                u.thread
            ∙ totals-reports n interval thread_id (outcome cfg) (harvested cfg.in_flight ts) t,
      )

-- Let the thread number be in range and the counters new, and let the kernel give back addresses of the
-- client's own contexts. However the kernel and the allocator answer, and whenever the stop signal
-- comes, a client that sends either throws, which it does only if both attempts to set up the ring
-- fail, or it ends. Then it has closed its socket once and freed each block that it was given once,
-- and its summary is what the completions that it harvested come to.
pub run_sends-outcome :
    (cfg : Config) (thread_id n interval sockfd : ℕ) (a : SendAnswers) (ts : List Turn)
    → thread_id < n
    → All (IsOwn cfg) (harvested cfg.in_flight ts)
    → let run = run_sends cfg thread_id (new_collector n interval) sockfd a ts in
      ((run ≡ throws)
        × (is_negative (a.init_params (setup_params cfg.sqpoll)) ≡ true)
        × (is_negative a.init ≡ true))
      ⊎ ((r : Ending) × (run ≡ ends r)
          × (r.closed ≡ sockfd ∷ [])
          × (r.freed ≡ blocks (given a.mem 0 cfg.in_flight))
          × (totals r.stats ≡ summary (outcome cfg) (harvested cfg.in_flight ts)))
unfolding run_sends after_create
run_sends-outcome cfg thread_id n interval sockfd a ts t own =
    let made = create a.lib a.init_params a.init cfg.queue_depth cfg.sqpoll in
    elim (create_outcome a.lib a.init_params a.init cfg.queue_depth cfg.sqpoll).0 [
      | inl (e, first, second) ↦
          inl (
            ap (after_create cfg thread_id (new_collector n interval) sockfd a ts) e,
            first,
            second,
          )
      | inr (e, h, ok, polls, quits) ↦
          let (z, f, s) = create-fresh a.lib a.init_params a.init cfg.queue_depth cfg.sqpoll h in
          let (r, ended, closed, freed, counted) =
            after_create-Ended cfg thread_id n interval sockfd a ts t own e z f s in
          inr (
            r,
            ap (after_create cfg thread_id (new_collector n interval) sockfd a ts) h ∙ ended,
            closed,
            freed,
            counted,
          )
    ]
