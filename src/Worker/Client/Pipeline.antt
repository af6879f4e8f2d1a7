-- ===== src/Worker/Client/Pipeline.antt =====
-- src/worker.cpp: the operations that `run_client` keeps in the ring.
use uring_perf.Base.{
  ℕ, ◌≡◌, refl, sym, ap, subst, ◌∙◌, Bool, true, false, ◌&&◌, List, [], ◌∷◌, Option, some, ◌==◌,
  if◌then◌else◌, ◌⊎◌, inl, inr, arith, has_flag, is_positive, is_negative, All,
}
use uring_perf.Engine.State.{IoContext, Sqe}
use uring_perf.Engine.Reap.{Cqe, cqe_seen}
use uring_perf.Worker.Cqe.{cqe_f_notif, is_again}
use uring_perf.Worker.Contexts.{Contexts, find}
use uring_perf.Worker.Sending.{entry, entry-IsFor, send_buffer_cases}
use uring_perf.Stats.Counters.{StatsCollector}
use uring_perf.Worker.Client.{Client, Completion, resend, rearm, on_sent, handle, handle_all}

-- A send of a whole buffer of the pool on the client's socket, under the context of that buffer.
abbrev pub IsSend : List (ℕ × IoContext) → ℕ → ℕ → Bool → Sqe → Type 0
IsSend alive size fd fixed sqe =
    (ctx : IoContext) × (find sqe.user_data alive ≡ some ctx)
    × (sqe.addr ≡ ctx.buf_ptr)
    × (sqe.len ≡ size)
    × (sqe.fd ≡ fd)
    × (sqe.fixed_file ≡ fixed)

-- The contexts are those of the pool, and all that was ever queued are sends of their buffers; the
-- socket is named by its index exactly in the entries with the flag for that.
pub record IsPipeline (fd : ℕ) (c : Client) : Type 0 where
  pub zc : c.engine.zc_supported ≡ true
  pub files : (c.use_fixed_file && c.engine.files_registered) ≡ c.use_fixed_file
  pub pool :
      (p : ℕ) (ctx : IoContext)
      → find p c.ctxs.alive ≡ some ctx
      → (ctx.fd ≡ fd) × (ctx.length ≡ c.config.buf_size)
  pub queued : All (IsSend c.ctxs.alive c.config.buf_size fd c.use_fixed_file) c.engine.sqes

-- The kernel gives back the address of a context of the pool, or none.
abbrev pub IsKnown : Client → Completion → Type 0
IsKnown c d =
    (d.cqe.user_data ≡ 0) ⊎ ((ctx : IoContext) × (find d.cqe.user_data c.ctxs.alive ≡ some ctx))

pub All-IsKnown :
    (c m : Client) (ds : List Completion)
    → All (IsKnown c) ds
    → c.ctxs ≡ m.ctxs
    → All (IsKnown m) ds
All-IsKnown c m ds k e =
    subst
      (λ (x : Contexts).
        All
          (λ (d : Completion).
            (d.cqe.user_data ≡ 0) ⊎ ((ctx : IoContext) × (find d.cqe.user_data x.alive ≡ some ctx)))
          ds)
      e k

entry-IsSend :
    (fd : ℕ) (c : Client) (p : ℕ) (ctx : IoContext)
    → IsPipeline fd c
    → find p c.ctxs.alive ≡ some ctx
    → IsSend c.ctxs.alive c.config.buf_size fd c.use_fixed_file
        (entry c.config.zero_copy c.engine p ctx c.use_fixed_file)
entry-IsSend fd c p ctx v f =
    let i = entry-IsFor c.config.zero_copy c.engine p ctx c.use_fixed_file v.zc in
    let (on_fd, whole) = v.pool p ctx f in
    (
      ctx,
      ap (λ q. find q c.ctxs.alive) i.user_data ∙ f,
      i.addr,
      i.len ∙ whole,
      i.fd ∙ on_fd,
      i.fixed_file ∙ v.files,
    )

pub resend-IsPipeline :
    (fd : ℕ) (c : Client) (p : ℕ) (ctx : IoContext)
    → IsPipeline fd c
    → find p c.ctxs.alive ≡ some ctx
    → IsPipeline fd (resend c p ctx)
unfolding resend
resend-IsPipeline fd c p ctx v f =
    elim (send_buffer_cases c.config.zero_copy c.engine p ctx c.use_fixed_file) [
      | inl e ↦ rw e (record { zc = v.zc; files = v.files; pool = v.pool; queued = v.queued })
      | inr e ↦ rw e (record {
        zc = v.zc;
        files = v.files;
        pool = v.pool;
        queued = (entry-IsSend fd c p ctx v f, v.queued);
      })
    ]

-- What a handler leads to: it succeeds, and the pipeline and the contexts are kept.
abbrev Continues : ℕ → Client → Option Client → Type 0
Continues fd c r = (c' : Client) × (r ≡ some c') × IsPipeline fd c' × (c'.ctxs ≡ c.ctxs)

if-Continues :
    (fd : ℕ) (c : Client) (b : Bool) {r s : Option Client}
    → Continues fd c r
    → Continues fd c s
    → Continues fd c (if b then r else s)
if-Continues fd c true p q = p
if-Continues fd c false p q = q

rearm-Continues :
    (fd : ℕ) (c : Client) (p : ℕ) (stop : Bool) {ctx : IoContext}
    → IsPipeline fd c
    → find p c.ctxs.alive ≡ some ctx
    → Continues fd c (rearm c p stop)
unfolding rearm
rearm-Continues fd c p true v f = (c, refl, v, refl)
rearm-Continues fd c p false {ctx} v f =
    (resend c p ctx, rw (f, rearm) refl, resend-IsPipeline fd c p ctx v f, unfold resend in refl)

-- Counting does not touch the pipeline.
abbrev with_stats : Client → StatsCollector → Client
with_stats c s = record c { stats = s }

abbrev with_seen : Client → Client
with_seen c = record c { engine = cqe_seen c.engine }

with_stats-IsPipeline :
    (fd : ℕ) (c : Client) (s : StatsCollector) → IsPipeline fd c → IsPipeline fd (with_stats c s)
with_stats-IsPipeline fd c s v = record {
  zc = v.zc;
  files = v.files;
  pool = v.pool;
  queued = v.queued;
}

with_seen-IsPipeline : (fd : ℕ) (c : Client) → IsPipeline fd c → IsPipeline fd (with_seen c)
unfolding cqe_seen
with_seen-IsPipeline fd c v = record {
  zc = v.zc;
  files = v.files;
  pool = v.pool;
  queued = v.queued;
}

on_sent-Continues :
    (fd : ℕ) (c : Client) (cqe : Cqe) (stop : Bool) {ctx : IoContext}
    → IsPipeline fd c
    → find cqe.user_data c.ctxs.alive ≡ some ctx
    → Continues fd c (on_sent c cqe stop)
unfolding on_sent
on_sent-Continues fd c cqe stop v f =
    if-Continues fd c (is_positive cqe.res)
      (rearm-Continues fd _ cqe.user_data stop (with_stats-IsPipeline fd c _ v) f)
      (if-Continues fd c (is_again cqe) (rearm-Continues fd c cqe.user_data stop v f) (
        if-Continues fd c (is_negative cqe.res)
          (with_stats c _, refl, with_stats-IsPipeline fd c _ v, refl) (c, refl, v, refl)))

handle-Continues :
    (fd : ℕ) (c : Client) (d : Completion)
    → IsPipeline fd c
    → IsKnown c d
    → Continues fd c (handle c d)
unfolding handle
handle-Continues fd c d v (inl e) = (with_seen c, ground arith, with_seen-IsPipeline fd c v, refl)
handle-Continues fd c d v (inr (ctx, f)) =
    if-Continues fd c (d.cqe.user_data == 0) (with_seen c, refl, with_seen-IsPipeline fd c v, refl)
      (if-Continues fd c (has_flag d.cqe.flags cqe_f_notif)
        (
          with_seen (with_stats c _),
          refl,
          with_seen-IsPipeline fd _ (with_stats-IsPipeline fd c _ v),
          refl,
        )
        (let (m, e, w, k) = on_sent-Continues fd c d.cqe d.stop v f in
          (with_seen m, rw e refl, with_seen-IsPipeline fd m w, k)))

-- From a state that has nothing in the ring but sends of its pool, and as long as the kernel gives
-- back addresses of the pool, no completion makes a sending client read a context that is not
-- alive, whatever the results and the readings of the stop signal are; and all that the client
-- queues are sends of whole buffers of its pool, each under the context of its buffer, on its own
-- socket.
pub handle_all-IsPipeline :
    (fd : ℕ) (c : Client) (ds : List Completion)
    → IsPipeline fd c
    → All (IsKnown c) ds
    → (c' : Client) × (handle_all c ds ≡ some c') × IsPipeline fd c'
unfolding handle_all
handle_all-IsPipeline fd c [] v k = (c, refl, v)
handle_all-IsPipeline fd c (d ∷ ds) v k =
    let (m, e, w, same) = handle-Continues fd c d v k.0 in
    let (c', e', w') = handle_all-IsPipeline fd m ds w (All-IsKnown c m ds k.1 (sym same)) in
    (c', rw (e, handle_all) e', w')
