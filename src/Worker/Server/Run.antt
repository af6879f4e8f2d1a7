-- ===== src/Worker/Server/Run.antt =====
-- src/worker.cpp: every run of `run_server` keeps the context for accepting.
use uring_perf.Base.{
  ℕ, zero, suc, ◌+◌, ◌≡◌, refl, ◌≢◌, ap, subst, ◌∙◌, Bool, true, false, List, [], ◌∷◌, Option, ◌==◌,
  if◌then◌else◌, inl, inr, arith, Bool-cases, Option-cases, ℤ,
}
use uring_perf.Config.Settings.{Config, is_udp}
use uring_perf.Engine.State.{Engine, IoContext, CtxType, accept, send, recv, timer}
use uring_perf.Engine.Reap.{cqe_seen, submit, reap_completions}
use uring_perf.Stats.Counters.{StatsCollector}
use uring_perf.Worker.Contexts.{find, make}
use uring_perf.Worker.Server.{
  Server, Event, Served, served, faults, hangs, sweep, multishot_context, pool_context,
}
use uring_perf.Worker.Server.Handlers.{dispatch, serve, serve_all}
use uring_perf.Worker.Server.Loop.{
  Pass, fresh_server, try_multishot, register_listener, fill_receivers, receive_datagrams,
  start_server, serve_harvest, server_loop,
}
use uring_perf.Worker.Server.Listening.{IsListening, find-make_above, make_above, sweep-IsListening}
use uring_perf.Worker.Server.Endurance.{
  Listens, if-IsListening, with_both-IsListening, on_accept-Listens, on_send-IsListening,
  on_recv-IsListening, on_multishot-IsListening,
}

dispatch-Listens :
    (k : CtxType) (alloc : ℕ → ℕ) (s : Server) (p : ℕ) (ctx : IoContext) (ev : Event)
    → IsListening s
    → Listens (dispatch k alloc s p ctx ev)
unfolding dispatch
dispatch-Listens accept alloc s p ctx ev v = (on_accept-Listens alloc s ev v).0
dispatch-Listens send alloc s p ctx ev v = on_send-IsListening s p ctx ev v
dispatch-Listens recv alloc s p ctx ev v =
    if-IsListening s.use_multishot _ _ (on_multishot-IsListening s p ctx ev v)
      (on_recv-IsListening s p ctx ev v)
dispatch-Listens timer alloc s p ctx ev v = v

mark_seen : Served → Served
mark_seen faults = faults
mark_seen hangs = hangs
mark_seen (served s) = served (record s { engine = cqe_seen s.engine })

mark_seen-Listens : (r : Served) → Listens r → Listens (mark_seen r)
unfolding mark_seen
mark_seen-Listens (served s) v = with_both-IsListening s s.stats _ v
mark_seen-Listens faults v = tt
mark_seen-Listens hangs v = tt

mark_seen-faults : (r : Served) → r ≢ faults → mark_seen r ≢ faults
unfolding mark_seen
mark_seen-faults (served s) n = λ q. cc
mark_seen-faults faults n = λ q. n refl
mark_seen-faults hangs n = λ q. cc

serve-Listens :
    (alloc : ℕ → ℕ) (s : Server) (ev : Event) → IsListening s → Listens (serve alloc s ev)
unfolding serve mark_seen
serve-Listens alloc s ev v = elim (Bool-cases (ev.cqe.user_data == 0)) [
  | inl null ↦ rw null (with_both-IsListening s s.stats _ v)
  | inr n ↦ elim (Option-cases (find ev.cqe.user_data s.ctxs.alive)) [
    | inl dead ↦ rw (n, dead) tt
    | inr (ctx, e) ↦
        rw (n, e)
          (mark_seen-Listens _ (dispatch-Listens ctx.ctx_type alloc s ev.cqe.user_data ctx ev v))
  ]
]

if-Listens :
    (b : Bool) (s : Server) (r : Served)
    → IsListening s
    → Listens r
    → Listens (if b then served s else r)
if-Listens true s r v w = v
if-Listens false s r v w = w

-- A completion of the accept does not fault.
serve-accept :
    (alloc : ℕ → ℕ) (s : Server) (ev : Event)
    → IsListening s
    → ev.cqe.user_data ≡ s.accept_ctx
    → serve alloc s ev ≢ faults
unfolding serve dispatch mark_seen
serve-accept alloc s ev v same = elim (Bool-cases (ev.cqe.user_data == 0)) [
  | inl null ↦ rw null (λ q. cc)
  | inr n ↦
      let alive = ap (λ p. find p s.ctxs.alive) same ∙ v.alive in
      rw (n, alive) (mark_seen-faults _ (on_accept-Listens alloc s ev v).1)
]

-- What follows a step, where the step comes to a state.
then-Listens :
    (r : Served) (k : Server → Served)
    → Listens r
    → ((s : Server) → IsListening s → Listens (k s))
    → Listens (elim r [ faults ↦ faults | hangs ↦ hangs | served s ↦ k s ])
then-Listens (served s) k v w = w s v
then-Listens faults k v w = tt
then-Listens hangs k v w = tt

serve_all-Listens :
    (alloc : ℕ → ℕ) (s : Server) (evs : List Event)
    → IsListening s
    → Listens (serve_all alloc s evs)
unfolding serve_all
serve_all-Listens alloc s [] v = v
serve_all-Listens alloc s (ev ∷ evs) v =
    then-Listens (serve alloc s ev) (λ t. serve_all alloc t evs) (serve-Listens alloc s ev v)
      (λ t. serve_all-Listens alloc t evs)

serve_harvest-Listens :
    (alloc : ℕ → ℕ) (s : Server) (evs : List Event)
    → IsListening s
    → Listens (serve_harvest alloc s evs)
unfolding serve_harvest
serve_harvest-Listens alloc s [] v = with_both-IsListening s s.stats _ v
serve_harvest-Listens alloc s (ev ∷ evs) v =
    then-Listens (serve_all alloc s (ev ∷ evs))
      (λ t. served (record t { engine = submit t.engine })) (serve_all-Listens alloc s (ev ∷ evs) v)
      (λ t w. with_both-IsListening t t.stats _ w)

server_loop-Listens :
    (alloc : ℕ → ℕ) (s : Server) (ts : List Pass) → IsListening s → Listens (server_loop alloc s ts)
unfolding server_loop
server_loop-Listens alloc s [] v = v
server_loop-Listens alloc s (t ∷ ts) v =
    let swept = sweep t.now s in
    if-Listens t.stop _ _ v (
      then-Listens (serve_harvest alloc swept (reap_completions t.ready swept.config.in_flight))
        (λ u. server_loop alloc u ts)
        (serve_harvest-Listens alloc swept _ (sweep-IsListening t.now s v))
        (λ u. server_loop-Listens alloc u ts))

fresh_server-IsListening :
    (cfg : Config) (thread_id : ℕ) (stats : StatsCollector) (listen_fd : ℕ) (r : Bool × Engine)
    → IsListening (fresh_server cfg thread_id stats listen_fd r)
unfolding fresh_server make find
fresh_server-IsListening cfg thread_id stats listen_fd r = record {
  alive = refl;
  fresh = omega arith;
  apart = tt;
}

register_listener-IsListening :
    (s : Server) (ret : ℤ) → IsListening s → IsListening (register_listener s ret)
unfolding register_listener
register_listener-IsListening s ret v =
    if-IsListening s.config.fixed_files _ _
      (record { alive = v.alive; fresh = v.fresh; apart = v.apart }) v

fill_receivers-IsListening :
    (alloc : ℕ → ℕ) (fd n i : ℕ) (s : Server)
    → IsListening s
    → IsListening (fill_receivers alloc fd n i s)
unfolding fill_receivers
fill_receivers-IsListening alloc fd zero i s v = v
fill_receivers-IsListening alloc fd (suc n) i s v =
    fill_receivers-IsListening alloc fd n (i + 1) _ (record {
      alive = find-make_above s.accept_ctx s.ctxs _ v.fresh ∙ v.alive;
      fresh =
          (make_above s.accept_ctx s.ctxs (pool_context s CtxType.recv fd i (alloc s.allocs))
            v.fresh).0;
      apart = v.apart;
    })

receive_datagrams-IsListening :
    (alloc : ℕ → ℕ) (s : Server) → IsListening s → IsListening (receive_datagrams alloc s)
unfolding receive_datagrams
receive_datagrams-IsListening alloc s v =
    let fd = if s.udp_fixed_file then 0 else s.listen_fd in
    if-IsListening s.use_multishot _ _
      (record {
        alive = find-make_above s.accept_ctx s.ctxs (multishot_context s fd) v.fresh ∙ v.alive;
        fresh = (make_above s.accept_ctx s.ctxs (multishot_context s fd) v.fresh).0;
        apart = v.apart;
      })
      (fill_receivers-IsListening alloc fd s.config.in_flight 0 s v)

start_server-IsListening :
    (cfg : Config) (thread_id : ℕ) (stats : StatsCollector) (e : Engine) (listen_fd : ℕ)
    (alloc : ℕ → ℕ) (ring : Bool) (mem : Option ℕ) (files : ℤ)
    → IsListening (start_server cfg thread_id stats e listen_fd alloc ring mem files)
unfolding start_server
start_server-IsListening cfg thread_id stats e listen_fd alloc ring mem files =
    let made =
      fresh_server-IsListening cfg thread_id stats listen_fd (try_multishot cfg e ring mem) in
    with_both-IsListening _ _ _ (
      if-IsListening (is_udp cfg.protocol) _ _
        (receive_datagrams-IsListening alloc _ (register_listener-IsListening _ files made))
        (with_both-IsListening _ _ _ made))

-- However a server starts, and whatever completions and times it meets, as long as the run goes on the
-- context for accepting is alive and has the listening socket, and every session owns only contexts
-- made after it. So no completion of the accept reads a context that is dead.
pub server_loop-IsListening :
    (cfg : Config) (thread_id : ℕ) (stats : StatsCollector) (e : Engine) (listen_fd : ℕ)
    (alloc : ℕ → ℕ) (ring : Bool) (mem : Option ℕ) (files : ℤ) (ts : List Pass) {s : Server}
    → server_loop alloc (start_server cfg thread_id stats e listen_fd alloc ring mem files) ts
      ≡ served s
    → (ev : Event) → ev.cqe.user_data ≡ s.accept_ctx
    → IsListening s × (serve alloc s ev ≢ faults)
server_loop-IsListening cfg thread_id stats e listen_fd alloc ring mem files ts {s} run ev same =
    let started = start_server-IsListening cfg thread_id stats e listen_fd alloc ring mem files in
    let v : IsListening s = subst Listens run (server_loop-Listens alloc _ ts started) in
    (v, serve-accept alloc s ev v same)
