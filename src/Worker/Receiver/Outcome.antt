-- ===== src/Worker/Receiver/Outcome.antt =====
-- src/worker.cpp: what a reverse client has counted and given back when it ends.
use uring_perf.Base.{
  ℕ, ◌+◌, ◌≤◌, ◌<◌, ◌≡◌, sym, ap, subst, ◌∙◌, Bool, true, false, List, [], ◌∷◌, Option, none, refl,
  some, ◌==◌, ◌⊎◌, inl, inr, arith, Bool-cases, All, is_negative,
}
use uring_perf.Config.Settings.{Config}
use uring_perf.Net.Buffers.{allocate_aligned_buffer, free_buffers, blocks, free_buffers-pointers}
use uring_perf.Engine.State.{Engine}
use uring_perf.Engine.Setup.{setup_params, create_outcome, queue_exit, destroy}
use uring_perf.Engine.Memory.{ring_mem, freed_by, one_block, freed_by-destroy}
use uring_perf.Stats.Counters.{new_collector}
use uring_perf.Stats.Interleaving.{count_calls}
use uring_perf.Stats.Totals.{totals}
use uring_perf.Worker.Client.{Completion, Turn}
use uring_perf.Worker.Client.Accounting.{reports}
use uring_perf.Worker.Client.Totals.{summary, totals-reports}
use uring_perf.Worker.Client.Pool.{IsFull}
use uring_perf.Worker.Client.Run.{Ending, SendRun, throws, ends}
use uring_perf.Worker.Receiver.{Receiver, start_receiver}
use uring_perf.Worker.Receiver.Run.{
  ReceiveAnswers, stop_receiver, after_receiving, receive_on, run_receives,
}
use uring_perf.Worker.Receiver.Counting.{received, IsKnown}
use uring_perf.Worker.Receiver.Pool.{
  gets_ring, pool_size, pool_blocks, ring_block, start_receiver-IsReady,
}
use uring_perf.Worker.Receiver.Turns.{harvest_of, harvested, receive_loop-Deals}

-- The kernel gives back the address of a context of the client, or none.
abbrev pub IsOwn : Config → Bool → Completion → Type 0
IsOwn cfg m d = d.cqe.user_data ≤ pool_size cfg m

All-IsOwn :
    (cfg : Config) (m : Bool) (c : Receiver) (ds : List Completion)
    → IsFull c.ctxs
    → c.ctxs.next ≡ 1 + pool_size cfg m
    → All (IsOwn cfg m) ds
    → All (IsKnown c) ds
All-IsOwn cfg m c [] full e h = tt
All-IsOwn cfg m c (d ∷ ds) full e (own, h) = (known, All-IsOwn cfg m c ds full e h)
  where
    known : IsKnown c d
    known = elim (Bool-cases (d.cqe.user_data == 0)) [
      | inl null ↦ inl (ground arith)
      | inr other ↦ inr (full d.cqe.user_data (ground arith) (omega (arith, own, e)))
    ]

-- The end of a client that starts on a new engine.
abbrev Ended : Config → ℕ → ReceiveAnswers → List Completion → SendRun → Type 0
Ended cfg sockfd a ds run =
    (r : Ending) × (run ≡ ends r)
    × (r.closed ≡ sockfd ∷ [])
    × (r.freed ≡ blocks (pool_blocks cfg a (gets_ring cfg a)))
    × (freed_by r.destroyed ≡ one_block (ring_block a (gets_ring cfg a)))
    × (totals r.stats ≡ summary (received (gets_ring cfg a)) ds)

no_block : (o : Option ℕ) → [] ≡ one_block o → o ≡ none
no_block none h = refl
no_block (some p) h = cc

-- A ring that has only itself to give back holds no memory.
holds_none : (e : Engine) → destroy e ≡ queue_exit ∷ [] → ring_mem e ≡ none
holds_none e h = no_block (ring_mem e) (ap freed_by (sym h) ∙ freed_by-destroy e)

-- The completions that the client deals with, if it comes to its loop.
abbrev pub dealt_with : Config → ReceiveAnswers → List Turn → List Completion
dealt_with cfg a ts = harvested (gets_ring cfg a) cfg.in_flight false ts

module _ (cfg : Config) (thread_id n interval sockfd : ℕ) (a : ReceiveAnswers) (ts : List Turn)
    (t : thread_id < n) (own : All (IsOwn cfg (gets_ring cfg a)) (dealt_with cfg a ts)) where
  receive_on-Ended :
      (e : Engine)
      → ring_mem e ≡ none
      → Ended cfg sockfd a
          (dealt_with cfg a ts)
          (receive_on cfg thread_id (new_collector n interval) sockfd a ts (some e))
  unfolding receive_on after_receiving stop_receiver
  receive_on-Ended e new =
      let c =
        start_receiver cfg thread_id (new_collector n interval) e sockfd
          (λ k. allocate_aligned_buffer (a.common.mem k)) a.ring a.ring_mem in
      let m = gets_ring cfg a in
      let u = start_receiver-IsReady cfg thread_id (new_collector n interval) sockfd a e new in
      let v = u.started in
      let same : harvest_of c ts ≡ dealt_with cfg a ts =
        ap (λ b. harvested b c.config.in_flight c.peer_closed ts) v.mode
        ∙ ap (λ (x : Config). harvested m x.in_flight c.peer_closed ts) v.config
        ∙ ap (λ b. harvested m cfg.in_flight b ts) v.peer in
      let (c', looped, kept, counted) = receive_loop-Deals c ts (
        subst (All (IsKnown c)) (sym same)
          (All-IsOwn cfg m c (dealt_with cfg a ts) u.full u.next own)) in
      (
        stop_receiver c',
        ap after_receiving looped,
        ap (λ fd. fd ∷ []) (kept.sockfd ∙ v.socket),
        ap free_buffers (kept.recv_buffers ∙ u.buffers)
            ∙ free_buffers-pointers (pool_blocks cfg a m),
        freed_by-destroy c'.engine ∙ ap one_block (kept.memory ∙ u.memory),
        ap totals counted
            ∙ ap
                (λ x. totals (
                  count_calls x (reports (received c.use_multishot) c.thread_id (harvest_of c ts))))
                v.counters
            ∙ ap
                (λ l. totals (
                  count_calls (new_collector n interval)
                    (reports (received c.use_multishot) c.thread_id l)))
                same
            ∙ ap
                (λ b. totals (
                  count_calls (new_collector n interval)
                    (reports (received b) c.thread_id (dealt_with cfg a ts))))
                v.mode
            ∙ ap
                (λ i. totals (
                  count_calls (new_collector n interval)
                    (reports (received m) i (dealt_with cfg a ts))))
                v.thread
            ∙ totals-reports n interval thread_id (received m) (dealt_with cfg a ts) t,
      )

-- Let the thread number be in range and the counters new, and let the kernel give back addresses of the
-- client's own contexts. However the kernel and the allocator answer, and whenever the stop signal
-- comes, a reverse client either throws, which it does only if both attempts to set up the ring fail,
-- or it ends, with multishot receives or without. Then its socket is closed once, each block that it
-- was given is freed once (the pool by itself, and the memory of the ring by the destructor of the
-- engine), and its summary is what the completions that it
-- harvested until the end of the stream come to.
pub run_receives_outcome :
    (cfg : Config) (thread_id n interval sockfd : ℕ) (a : ReceiveAnswers) (ts : List Turn)
    → thread_id < n
    → All (IsOwn cfg (gets_ring cfg a)) (dealt_with cfg a ts)
    → let run = run_receives cfg thread_id (new_collector n interval) sockfd a ts in
      ((run ≡ throws)
        × (is_negative (a.common.init_params (setup_params cfg.sqpoll)) ≡ true)
        × (is_negative a.common.init ≡ true))
      ⊎ ((r : Ending) × (run ≡ ends r)
          × (r.closed ≡ sockfd ∷ [])
          × (r.freed ≡ blocks (pool_blocks cfg a (gets_ring cfg a)))
          × (freed_by r.destroyed ≡ one_block (ring_block a (gets_ring cfg a)))
          × (totals r.stats ≡ summary (received (gets_ring cfg a)) (dealt_with cfg a ts)))
unfolding run_receives receive_on
run_receives_outcome cfg thread_id n interval sockfd a ts t own =
    elim (create_outcome a.common.lib a.common.init_params a.common.init cfg.queue_depth
      cfg.sqpoll).0 [
        | inl (e, first, second) ↦
            inl (
              ap (receive_on cfg thread_id (new_collector n interval) sockfd a ts) e,
              first,
              second,
            )
        | inr (e, h, ok, polls, quits) ↦
            let (r, ended, closed, freed, ring, counted) =
              receive_on-Ended cfg thread_id n interval sockfd a ts t own e (holds_none e quits) in
            inr (
              r,
              ap (receive_on cfg thread_id (new_collector n interval) sockfd a ts) h ∙ ended,
              closed,
              freed,
              ring,
              counted,
            )
      ]
