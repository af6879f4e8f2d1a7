-- ===== src/Worker/Server/Summary.antt =====
-- src/worker.cpp: the summary of a run of `run_server`.
use uring_perf.Base.{
  ℕ, zero, suc, ◌+◌, ◌<◌, ◌≡◌, refl, ap, subst, sym, ◌∙◌, Bool, true, false, List, [], ◌∷◌, ◌++◌,
  Option, if◌then◌else◌, ℤ, append_assoc, append-nil, Bool-cases, inl, inr,
}
use uring_perf.Config.Settings.{Config, is_udp}
use uring_perf.Engine.State.{Engine, CtxType}
use uring_perf.Engine.Prep.{prep_recv, prep_accept}
use uring_perf.Engine.Reap.{submit, reap_completions}
use uring_perf.Stats.Counters.{StatsCollector, new_collector}
use uring_perf.Stats.Interleaving.{count_calls}
use uring_perf.Stats.Totals.{totals}
use uring_perf.Worker.Contexts.{make}
use uring_perf.Worker.Client.Accounting.{Outcome}
use uring_perf.Worker.Server.{
  ClientSession, Server, Event, Served, served, faults, hangs, is_expired, drop_session,
  end_session, sweep_from, sweep, pool_context,
}
use uring_perf.Worker.Server.Handlers.{serve, serve_all}
use uring_perf.Worker.Server.Loop.{
  Pass, fresh_server, try_multishot, register_listener, fill_receivers, receive_datagrams,
  start_server, serve_harvest, server_loop,
}
use uring_perf.Worker.Server.Counting.{counted_in}
use uring_perf.Worker.Server.Counting.Serving.{Unchanged, Unchanged-trans, serve-Counts}
use uring_perf.Worker.Server.Accounting.{
  report_all, summary_of, totals-report_all, outcomes, run_outcomes, CountsAll, CountsAll-append,
  serve_on, serve_on-CountsAll,
}

sweep_from-Unchanged :
    (now : ℕ) (todo : List (ℕ × ClientSession)) (s : Server) → Unchanged s (sweep_from now todo s)
unfolding sweep_from end_session drop_session
sweep_from-Unchanged now [] s = ((refl, refl, refl, refl), refl)
sweep_from-Unchanged now ((fd, x) ∷ rest) s = elim (Bool-cases (is_expired now x)) [
  | inl e ↦ rw e (sweep_from-Unchanged now rest (end_session fd x s))
  | inr e ↦ rw e (sweep_from-Unchanged now rest s)
]

-- After a step that counts nothing.
CountsAll-after :
    (s t : Server) (os : List Outcome) (o : Served)
    → Unchanged s t
    → CountsAll t os o
    → CountsAll s os o
unfolding count_calls
CountsAll-after s t os o (same, e) h = CountsAll-append s t [] os o (same, e) h

submit_after : Served → Served
submit_after faults = faults
submit_after hangs = hangs
submit_after (served s) = served (record s { engine = submit s.engine })

submit_after-CountsAll :
    (s : Server) (os : List Outcome) (o : Served)
    → CountsAll s os o
    → CountsAll s os (submit_after o)
unfolding submit_after
submit_after-CountsAll s os faults h = tt
submit_after-CountsAll s os hangs h = tt
submit_after-CountsAll s os (served t) h = h

serve_harvest-CountsAll :
    (alloc : ℕ → ℕ) (s : Server) (evs : List Event)
    → CountsAll s (outcomes alloc (served s) evs) (serve_harvest alloc s evs)
unfolding serve_harvest submit_after serve_on count_calls serve_all
serve_harvest-CountsAll alloc s [] = ((refl, refl, refl, refl), refl)
serve_harvest-CountsAll alloc s (ev ∷ evs) =
    submit_after-CountsAll s (outcomes alloc (served s) (ev ∷ evs))
      (serve_on alloc evs (serve alloc s ev))
      (serve_on-CountsAll alloc s (counted_in s ev) (serve alloc s ev) evs
        (serve-Counts alloc s ev))

loop_on : (ℕ → ℕ) → List Pass → Served → Served
loop_on alloc ts faults = faults
loop_on alloc ts hangs = hangs
loop_on alloc ts (served s) = server_loop alloc s ts

if-CountsAll :
    (b : Bool) (s : Server) (os ps qs : List Outcome) (o r : Served)
    → CountsAll s (os ++ ps) o
    → CountsAll s (os ++ qs) r
    → CountsAll s (os ++ (if b then ps else qs)) (if b then o else r)
if-CountsAll true s os ps qs o r h k = h
if-CountsAll false s os ps qs o r h k = k

loop_on-CountsAll :
    (alloc : ℕ → ℕ) (s : Server) (os : List Outcome) (o : Served) (ts : List Pass)
    → CountsAll s os o
    → CountsAll s (os ++ run_outcomes alloc o ts) (loop_on alloc ts o)
unfolding loop_on server_loop
loop_on-CountsAll alloc s os faults ts h = tt
loop_on-CountsAll alloc s os hangs ts h = tt
loop_on-CountsAll alloc s os (served t) [] h =
    subst (λ l. CountsAll s l (served t)) (sym (append-nil os)) h
loop_on-CountsAll alloc s os (served t) (p ∷ ts) h =
    let swept = sweep p.now t in
    let now = reap_completions p.ready swept.config.in_flight in
    let next = serve_harvest alloc swept now in
    let here = outcomes alloc (served swept) now in
    if-CountsAll p.stop s os [] _ (served t) (loop_on alloc ts next)
      (subst (λ l. CountsAll s l (served t)) (sym (append-nil os)) h)
      (subst (λ l. CountsAll s l (loop_on alloc ts next))
        (append_assoc os here (run_outcomes alloc next ts))
        (loop_on-CountsAll alloc s (os ++ here) next ts (
          CountsAll-append s t os here next h (
            CountsAll-after t swept here next
              (unfold sweep in sweep_from-Unchanged p.now t.sessions t)
              (serve_harvest-CountsAll alloc swept now)))))

either-Unchanged :
    (b : Bool) (s t u : Server) → Unchanged s t → Unchanged s u → Unchanged s (if b then t else u)
either-Unchanged true s t u h k = h
either-Unchanged false s t u h k = k

register_listener-Unchanged : (s : Server) (ret : ℤ) → Unchanged s (register_listener s ret)
unfolding register_listener
register_listener-Unchanged s ret =
    either-Unchanged s.config.fixed_files s _ s ((refl, refl, refl, refl), refl)
      ((refl, refl, refl, refl), refl)

fill_receivers-Unchanged :
    (alloc : ℕ → ℕ) (fd n i : ℕ) (s : Server) → Unchanged s (fill_receivers alloc fd n i s)
unfolding fill_receivers
fill_receivers-Unchanged alloc fd zero i s = ((refl, refl, refl, refl), refl)
fill_receivers-Unchanged alloc fd (suc n) i s =
    let buf = alloc s.allocs in
    let (p, ctxs) = make s.ctxs (pool_context s CtxType.recv fd i buf) in
    fill_receivers-Unchanged alloc fd n (i + 1) (record s {
      allocs = s.allocs + 1;
      ctxs = ctxs;
      engine = (prep_recv s.engine fd buf s.config.buf_size i p s.udp_fixed_file).1;
    })

receive_datagrams-Unchanged : (alloc : ℕ → ℕ) (s : Server) → Unchanged s (receive_datagrams alloc s)
unfolding receive_datagrams
receive_datagrams-Unchanged alloc s =
    either-Unchanged s.use_multishot s _ _ ((refl, refl, refl, refl), refl)
      (fill_receivers-Unchanged alloc (if s.udp_fixed_file then 0 else s.listen_fd)
        s.config.in_flight 0 s)

start_server-Unchanged :
    (cfg : Config) (thread_id : ℕ) (stats : StatsCollector) (e : Engine) (listen_fd : ℕ)
    (alloc : ℕ → ℕ) (ring : Bool) (mem : Option ℕ) (files : ℤ)
    → Unchanged
        (fresh_server cfg thread_id stats listen_fd (try_multishot cfg e ring mem))
        (start_server cfg thread_id stats e listen_fd alloc ring mem files)
unfolding start_server
start_server-Unchanged cfg thread_id stats e listen_fd alloc ring mem files =
    let s = fresh_server cfg thread_id stats listen_fd (try_multishot cfg e ring mem) in
    let t = register_listener s files in
    let armed =
      if is_udp cfg.protocol
      then receive_datagrams alloc t
      else record s { engine = (prep_accept s.engine listen_fd s.accept_ctx).1 } in
    let (same, stats) =
      either-Unchanged (is_udp cfg.protocol) s (receive_datagrams alloc t) _
        (Unchanged-trans s t (receive_datagrams alloc t) (register_listener-Unchanged s files)
          (receive_datagrams-Unchanged alloc t))
        ((refl, refl, refl, refl), refl) in
    (same, stats)

-- A run keeps the listening socket that it started with.
pub server_loop-listen_fd :
    (cfg : Config) (thread_id : ℕ) (stats : StatsCollector) (e : Engine) (listen_fd : ℕ)
    (alloc : ℕ → ℕ) (ring : Bool) (mem : Option ℕ) (files : ℤ) (ts : List Pass) {t : Server}
    → server_loop alloc (start_server cfg thread_id stats e listen_fd alloc ring mem files) ts
      ≡ served t
    → t.listen_fd ≡ listen_fd
unfolding loop_on fresh_server count_calls
server_loop-listen_fd cfg thread_id stats e listen_fd alloc ring mem files ts {t} run =
    let s = start_server cfg thread_id stats e listen_fd alloc ring mem files in
    let ((c, i, m, l), same) =
      start_server-Unchanged cfg thread_id stats e listen_fd alloc ring mem files in
    let ((d, j, o, k), counted) : CountsAll s (run_outcomes alloc (served s) ts) (served t) =
      subst (CountsAll s (run_outcomes alloc (served s) ts)) run
        (loop_on-CountsAll alloc s [] (served s) ts ((refl, refl, refl, refl), refl)) in
    k ∙ l

-- However a server with new counters and a thread number in range starts, over TCP or UDP, with
-- multishot receives or without, and whatever completions, times and answers it meets: when its run
-- has come to a state, the summary is what the completions dealt with come to, each counted once by the
-- type of its context. Data count with their bytes and packets, in both directions; a notification
-- counts as one; an error is a negative result, but for EAGAIN and a lack of buffers; and connections
-- and the ends of streams count as nothing (modulo 2 ^ 64).
pub server_loop-totals :
    (cfg : Config) (thread_id n interval : ℕ) (e : Engine) (listen_fd : ℕ) (alloc : ℕ → ℕ)
    (ring : Bool) (mem : Option ℕ) (files : ℤ) (ts : List Pass) {t : Server}
    → thread_id < n
    → let s =
        start_server cfg thread_id (new_collector n interval) e listen_fd alloc ring mem files in
      server_loop alloc s ts ≡ served t
      → totals t.stats ≡ summary_of (run_outcomes alloc (served s) ts)
unfolding loop_on fresh_server count_calls
server_loop-totals cfg thread_id n interval e listen_fd alloc ring mem files ts {t} small run =
    let s =
      start_server cfg thread_id (new_collector n interval) e listen_fd alloc ring mem files in
    let os = run_outcomes alloc (served s) ts in
    let ((c, i, m, l), stats) =
      start_server-Unchanged cfg thread_id (new_collector n interval) e listen_fd alloc ring mem
        files in
    let (same, counted) : CountsAll s os (served t) =
      subst (CountsAll s os) run
        (loop_on-CountsAll alloc s [] (served s) ts ((refl, refl, refl, refl), refl)) in
    ap totals counted
    ∙ ap (λ x. totals (count_calls x (report_all s.thread_id os))) stats
    ∙ ap (λ k. totals (count_calls (new_collector n interval) (report_all k os))) i
    ∙ totals-report_all n interval thread_id os small
