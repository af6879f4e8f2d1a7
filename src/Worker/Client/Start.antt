-- ===== src/Worker/Client/Start.antt =====
-- src/worker.cpp: how `run_client` sets up its pool and fills the ring.
use uring_perf.Base.{
  ℕ, zero, suc, ◌+◌, ◌<◌, ◌≡◌, refl, sym, ap, subst, ◌∙◌, Bool, true, false, not, ◌&&◌, List, [],
  ◌∷◌, ◌++◌, Option, none, some, if◌then◌else◌, ◌⊎◌, inl, inr, arith, All, ℤ, is_negative,
}
use uring_perf.Config.Settings.{Config}
use uring_perf.Engine.State.{Engine, IoContext}
use uring_perf.Engine.Setup.{register_files, register_buffers}
use uring_perf.Engine.Reap.{submit}
use uring_perf.Stats.Counters.{StatsCollector}
use uring_perf.Engine.Operations.{Queues, Queues-same}
use uring_perf.Worker.Contexts.{Contexts, find, make, addresses}
use uring_perf.Worker.Client.Filling.{
  sends_for, send_pool-Queues, make_pool-context_pool, register_pool-SameQueue,
  register_socket-SameQueue,
}
use uring_perf.Worker.Client.{
  register_socket, register_pool, empty_client, Client, send_fd, send_context, make_pool, resend,
  send_pool, start_client,
}
use uring_perf.Worker.Client.Pipeline.{IsPipeline, IsSend, resend-IsPipeline}

-- Addresses that are alive, and below the next one to be given.
abbrev IsPool : Contexts → List ℕ → Type 0
IsPool cs = All (λ p. (p < cs.next) × ((ctx : IoContext) × (find p cs.alive ≡ some ctx)))

IsPool-make :
    (cs : Contexts) (ctx : IoContext) (ps : List ℕ) → IsPool cs ps → IsPool (make cs ctx).1 ps
unfolding make find
IsPool-make cs ctx [] h = tt
IsPool-make cs ctx (p ∷ ps) ((l, (found, e)), h) =
    ((omega arith, (found, ground arith)), IsPool-make cs ctx ps h)

IsPool-append :
    (cs : Contexts) (ps : List ℕ) (p : ℕ) {ctx : IoContext}
    → IsPool cs ps
    → p < cs.next
    → find p cs.alive ≡ some ctx
    → IsPool cs (ps ++ (p ∷ []))
IsPool-append cs [] p {ctx} h l f = ((l, (ctx, f)), tt)
IsPool-append cs (q ∷ ps) p h l f = (h.0, IsPool-append cs ps p h.1 l f)

-- A client whose pool is being made.
record IsReady (fd : ℕ) (e : Engine) (cfg : Config) (fixed : Bool) (c : Client) : Type 0 where
  engine : c.engine ≡ e
  config : c.config ≡ cfg
  use_fixed_file : c.use_fixed_file ≡ fixed
  made : IsPool c.ctxs c.context_pool
  pool :
      (p : ℕ) (ctx : IoContext)
      → find p c.ctxs.alive ≡ some ctx
      → (ctx.fd ≡ fd) × (ctx.length ≡ cfg.buf_size)

make-found :
    (cs : Contexts) (ctx : IoContext)
    → ((make cs ctx).0 < (make cs ctx).1.next)
      × (find (make cs ctx).0 (make cs ctx).1.alive ≡ some ctx)
unfolding make find
make-found cs ctx = ground arith

find-make :
    (cs : Contexts) (new : IoContext) (p : ℕ) {ctx : IoContext}
    → find p (make cs new).1.alive ≡ some ctx
    → (ctx ≡ new) ⊎ (find p cs.alive ≡ some ctx)
unfolding make find
find-make cs new p h = ground arith

make_pool-IsReady :
    (alloc : ℕ → ℕ) (fd : ℕ) (e : Engine) (cfg : Config) (fixed : Bool) (n i : ℕ) (c : Client)
    → IsReady fd e cfg fixed c
    → IsReady fd e cfg fixed (make_pool alloc fd n i c)
unfolding make_pool
make_pool-IsReady alloc fd e cfg fixed zero i c v = v
make_pool-IsReady alloc fd e cfg fixed (suc n) i c v =
    make_pool-IsReady alloc fd e cfg fixed n (i + 1) _ (record {
      engine = v.engine;
      config = v.config;
      use_fixed_file = v.use_fixed_file;
      made =
          IsPool-append _ c.context_pool _ (IsPool-make c.ctxs new c.context_pool v.made)
            (make-found c.ctxs new).0 (make-found c.ctxs new).1;
      pool = λ p ctx f. elim (find-make c.ctxs new p f) [
        | inl same ↦ (ap (λ x. x.fd) same, ap (λ x. x.length) same ∙ ap (λ x. x.buf_size) v.config)
        | inr old ↦ v.pool p ctx old
      ];
    })
  where
    new : IoContext
    new = send_context c.config c.thread_id fd i (alloc i)

send_pool-IsPipeline :
    (fd : ℕ) (ps : List ℕ) (c : Client)
    → IsPipeline fd c
    → IsPool c.ctxs ps
    → (c' : Client) × (send_pool ps c ≡ some c')
      × IsPipeline fd c'
      × (c'.use_fixed_file ≡ c.use_fixed_file)
unfolding send_pool resend
send_pool-IsPipeline fd [] c v h = (c, refl, v, refl)
send_pool-IsPipeline fd (p ∷ ps) c v ((l, (ctx, f)), h) =
    let (c', e, w, k) =
      send_pool-IsPipeline fd ps (resend c p ctx) (resend-IsPipeline fd c p ctx v f) h in
    (c', rw (f, send_pool) e, w, k)

register_socket_lem :
    (cfg : Config) (e : Engine) (fd : ℕ) (ret : ℤ)
    → e.files_registered ≡ false
    → let r = register_socket cfg e fd ret in
      (r.0 ≡ (cfg.fixed_files && not (is_negative ret)))
      × ((r.0 && r.1.files_registered) ≡ r.0)
      × (r.1.zc_supported ≡ e.zc_supported)
      × (r.1.sqes ≡ e.sqes)
unfolding register_socket register_files
register_socket_lem cfg e fd ret f = ground arith

register_buffers_keeps :
    (e : Engine) (bs : List ℕ) (size : ℕ) (ret : ℤ)
    → let e' = (register_buffers e bs size ret).1 in
      (e'.files_registered ≡ e.files_registered)
      × (e'.zc_supported ≡ e.zc_supported)
      × (e'.sqes ≡ e.sqes)
unfolding register_buffers
register_buffers_keeps e [] size ret = (refl, refl, refl)
register_buffers_keeps e (b ∷ bs) size ret = ground arith

register_if_keeps :
    (b : Bool) (e : Engine) (bs : List ℕ) (size : ℕ) (ret : ℤ)
    → let e' = if b then (register_buffers e bs size ret).1 else e in
      (e'.files_registered ≡ e.files_registered)
      × (e'.zc_supported ≡ e.zc_supported)
      × (e'.sqes ≡ e.sqes)
register_if_keeps true e bs size ret = register_buffers_keeps e bs size ret
register_if_keeps false e bs size ret = (refl, refl, refl)

empty_client-IsReady :
    (cfg : Config) (thread_id : ℕ) (stats : StatsCollector) (r : Bool × Engine) (fd : ℕ)
    → IsReady fd r.1 cfg r.0 (empty_client cfg thread_id stats r)
unfolding find
empty_client-IsReady cfg thread_id stats r fd = record {
  engine = refl;
  config = refl;
  use_fixed_file = refl;
  made = tt;
  pool = λ p ctx f. cc;
}

-- The pool is made and registered, and nothing is queued yet.
register_pool-IsPipeline :
    (fd : ℕ) (e : Engine) (cfg : Config) (fixed : Bool) (c : Client) (ret : ℤ)
    → IsReady fd e cfg fixed c
    → e.zc_supported ≡ true
    → (fixed && e.files_registered) ≡ fixed
    → e.sqes ≡ []
    → IsPipeline fd (register_pool c ret)
unfolding register_pool
register_pool-IsPipeline fd e cfg fixed c ret v z f s =
    let (files, zc, sqes) =
      register_if_keeps c.config.fixed_buffers c.engine c.buffer_pool c.config.buf_size ret in
    record {
      zc = zc ∙ ap (λ x. x.zc_supported) v.engine ∙ z;
      files =
          ap (λ x. c.use_fixed_file && x) (files ∙ ap (λ x. x.files_registered) v.engine)
          ∙ ap (λ x. x && e.files_registered) v.use_fixed_file
          ∙ f
          ∙ sym v.use_fixed_file;
      pool = λ p ctx h.
          let (on, whole) = v.pool p ctx h in (on, whole ∙ sym (ap (λ x. x.buf_size) v.config));
      queued =
          subst (All (IsSend c.ctxs.alive c.config.buf_size fd c.use_fixed_file))
            (sym (sqes ∙ ap (λ x. x.sqes) v.engine ∙ s)) tt;
    }

submit-IsPipeline :
    (fd : ℕ) (c : Client) → IsPipeline fd c → IsPipeline fd (record c { engine = submit c.engine })
unfolding submit
submit-IsPipeline fd c v = record { zc = v.zc; files = v.files; pool = v.pool; queued = v.queued }

submitted : Option Client → Option Client
submitted none = none
submitted (some c) = some (record c { engine = submit c.engine })

pub start_client-IsPipeline :
    (cfg : Config) (thread_id : ℕ) (stats : StatsCollector) (e : Engine) (sockfd : ℕ)
    (alloc : ℕ → ℕ) (files buffers : ℤ)
    → e.zc_supported ≡ true
    → e.files_registered ≡ false
    → e.sqes ≡ []
    → (c : Client) × (start_client cfg thread_id stats e sockfd alloc files buffers ≡ some c)
      × IsPipeline (send_fd c.use_fixed_file sockfd) c
      × (c.use_fixed_file ≡ (cfg.fixed_files && not (is_negative files)))
      × Queues e (sends_for (send_fd c.use_fixed_file sockfd) (addresses 1 cfg.in_flight)) c.engine
unfolding start_client register_pool submitted submit make
start_client-IsPipeline cfg thread_id stats e sockfd alloc files buffers z f s =
    let r = register_socket cfg e sockfd files in
    let (fixed, agree, zc, sqes) = register_socket_lem cfg e sockfd files f in
    let ready =
      make_pool-IsReady alloc (send_fd r.0 sockfd) r.1 cfg r.0 cfg.in_flight 0
        (empty_client cfg thread_id stats r) (empty_client-IsReady cfg thread_id stats r _) in
    let v = register_pool-IsPipeline _ r.1 cfg r.0 _ buffers ready (zc ∙ z) agree (sqes ∙ s) in
    let (c, e', w, k) = send_pool-IsPipeline _ _ _ v ready.made in
    let same = k ∙ ready.use_fixed_file in
    let made =
      make_pool alloc (send_fd r.0 sockfd) cfg.in_flight 0 (empty_client cfg thread_id stats r) in
    let reg = register_pool made buffers in
    let (l, g, q) = register_pool-SameQueue made buffers in
    let (l2, g2, q2) = register_socket-SameQueue cfg e sockfd files in
    let on_pool : Queues reg.engine (sends_for (send_fd r.0 sockfd) made.context_pool) c.engine =
      send_pool-Queues (send_fd r.0 sockfd) made.context_pool reg (λ p ctx h. (v.pool p ctx h).0)
        e' in
    let filled =
      subst (λ ps. Queues reg.engine (sends_for (send_fd r.0 sockfd) ps) c.engine)
        (make_pool-context_pool alloc (send_fd r.0 sockfd) cfg.in_flight 0
          (empty_client cfg thread_id stats r))
        on_pool in
    let all =
      Queues-same e reg.engine c.engine (sends_for (send_fd r.0 sockfd) (addresses 1 cfg.in_flight))
        (l ∙ ap (λ x. x.lib) ready.engine ∙ l2) (g ∙ ap (λ x. x.gets) ready.engine ∙ g2)
        (q ∙ ap (λ x. x.sqes) ready.engine ∙ q2) filled in
    let all_named =
      subst (λ b. Queues e (sends_for (send_fd b sockfd) (addresses 1 cfg.in_flight)) c.engine)
        (sym same) all in
    (
      record c { engine = submit c.engine },
      ap submitted e',
      submit-IsPipeline _ c (subst (λ b. IsPipeline (send_fd b sockfd) c) (sym same) w),
      same ∙ fixed,
      record { lib = all_named.lib; gets = all_named.gets; queued = all_named.queued },
    )
