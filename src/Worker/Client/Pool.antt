-- ===== src/Worker/Client/Pool.antt =====
-- src/worker.cpp: the pool that a client that sends starts with.
use uring_perf.Base.{
  ℕ, zero, suc, ◌+◌, ◌≤◌, ◌<◌, ◌==◌, Bool-cases, ◌≡◌, refl, sym, ap, subst, ◌∙◌, List, [], ◌∷◌,
  ◌++◌, Option, none, some, inl, inr, arith, ℤ, append_assoc, append-nil, Option-cases,
}
use uring_perf.Config.Settings.{Config}
use uring_perf.Net.Buffers.{allocate_aligned_buffer, pointers}
use uring_perf.Engine.State.{Engine, IoContext}
use uring_perf.Engine.Reap.{submit}
use uring_perf.Stats.Counters.{StatsCollector}
use uring_perf.Worker.Contexts.{Contexts, find, make}
use uring_perf.Worker.Client.{
  Client, send_fd, send_context, make_pool, resend, send_pool, register_pool, register_socket,
  empty_client, start_client,
}
use uring_perf.Worker.Client.Accounting.{Keeps, with_both-Keeps, Keeps-trans}
use uring_perf.Worker.Client.Run.{given}

send_pool-Keeps :
    (ps : List ℕ) (c : Client) {c' : Client}
    → send_pool ps c ≡ some c'
    → Keeps c c' × (c'.stats ≡ c.stats)
unfolding send_pool resend
send_pool-Keeps [] c {c'} h =
    let e : c ≡ c' = cc in
    subst (λ x. Keeps c x × (x.stats ≡ c.stats)) e (with_both-Keeps c c.stats c.engine, refl)
send_pool-Keeps (p ∷ ps) c {c'} h = elim (Option-cases (find p c.ctxs.alive)) [
  | inl e ↦ ground arith
  | inr (ctx, e) ↦
      let (k, s) = send_pool-Keeps ps (resend c p ctx) {c' = c'} (rw (e, send_pool) at h) in
      (Keeps-trans c (resend c p ctx) c' (with_both-Keeps c c.stats (resend c p ctx).engine) k, s)
]

-- The contexts at the addresses from 1 on are alive.
abbrev pub IsFull : Contexts → Type 0
IsFull cs = (p : ℕ) → 1 ≤ p → p < cs.next → (ctx : IoContext) × (find p cs.alive ≡ some ctx)

pub IsFull-make : (cs : Contexts) (ctx : IoContext) → IsFull cs → IsFull (make cs ctx).1
unfolding make find
IsFull-make cs ctx h p low high = elim (Bool-cases (cs.next == p)) [
  | inl e ↦ (ctx, rw e refl)
  | inr e ↦ let (old, f) = h p low (ground (arith, e)) in (old, rw e f)
]

-- A client with a pool of n more buffers, from index i.
record IsMade (mem : ℕ → Option ℕ) (i n : ℕ) (c m : Client) : Type 0 where
  config : m.config ≡ c.config
  thread_id : m.thread_id ≡ c.thread_id
  stats : m.stats ≡ c.stats
  buffers : m.buffer_pool ≡ c.buffer_pool ++ pointers (given mem i n)
  next : m.ctxs.next ≡ c.ctxs.next + n
  full : IsFull m.ctxs

make_pool-IsMade :
    (mem : ℕ → Option ℕ) (fd n i : ℕ) (c : Client)
    → IsFull c.ctxs
    → IsMade mem i n c (make_pool (λ k. allocate_aligned_buffer (mem k)) fd n i c)
unfolding make_pool
make_pool-IsMade mem fd zero i c h = record {
  config = refl;
  thread_id = refl;
  stats = refl;
  buffers = sym (append-nil c.buffer_pool);
  next = omega arith;
  full = h;
}
make_pool-IsMade mem fd (suc n) i c h =
    let v = make_pool-IsMade mem fd n (i + 1) _ (
      IsFull-make c.ctxs (send_context c.config c.thread_id fd i (allocate_aligned_buffer (mem i)))
        h) in
    record {
      config = v.config;
      thread_id = v.thread_id;
      stats = v.stats;
      buffers =
          v.buffers
          ∙ append_assoc c.buffer_pool (allocate_aligned_buffer (mem i) ∷ [])
              (pointers (given mem (i + 1) n));
      next = v.next ∙ unfold make in omega arith;
      full = v.full;
    }

-- What a client has when it comes to its loop.
pub record IsStarted (cfg : Config) (thread_id : ℕ) (stats : StatsCollector) (mem : ℕ → Option ℕ)
    (c : Client) : Type 0 where
  pub config : c.config ≡ cfg
  pub thread : c.thread_id ≡ thread_id
  pub counters : c.stats ≡ stats
  pub buffers : c.buffer_pool ≡ pointers (given mem 0 cfg.in_flight)
  pub next : c.ctxs.next ≡ 1 + cfg.in_flight
  pub full : IsFull c.ctxs

pub start_client-IsStarted :
    (cfg : Config) (thread_id : ℕ) (stats : StatsCollector) (e : Engine) (sockfd : ℕ)
    (mem : ℕ → Option ℕ) (files buffers : ℤ) {c : Client}
    → start_client cfg thread_id stats e sockfd (λ k. allocate_aligned_buffer (mem k)) files buffers
      ≡ some c
    → IsStarted cfg thread_id stats mem c
unfolding start_client register_pool
start_client-IsStarted cfg thread_id stats e sockfd mem files buffers {c} h =
    let r = register_socket cfg e sockfd files in
    let empty = empty_client cfg thread_id stats r in
    let made =
      make_pool (λ k. allocate_aligned_buffer (mem k)) (send_fd r.0 sockfd) cfg.in_flight 0 empty in
    let v =
      make_pool-IsMade mem (send_fd r.0 sockfd) cfg.in_flight 0 empty
        (λ p low high. absurd (omega (arith, low, high))) in
    let reg = register_pool made buffers in
    elim (Option-cases (send_pool made.context_pool reg)) [
      | inl e ↦ absurd (clash (rw (e, start_client) at h))
      | inr (m, e) ↦
          let f : some (record m { engine = submit m.engine }) ≡ some c =
            rw (e, start_client) at h in
          let same : record m { engine = submit m.engine } ≡ c = cc in
          let (k, s) = send_pool-Keeps made.context_pool reg e in
          subst (IsStarted cfg thread_id stats mem) same (record {
            config = k.config ∙ v.config;
            thread = k.thread_id ∙ v.thread_id;
            counters = s ∙ v.stats;
            buffers = k.buffer_pool ∙ v.buffers;
            next = ap (λ x. x.next) k.ctxs ∙ v.next;
            full = subst IsFull (sym k.ctxs) v.full;
          })
    ]
  where
    clash : {m : Client} → none ≡ some m → ⊥
    clash q = cc
