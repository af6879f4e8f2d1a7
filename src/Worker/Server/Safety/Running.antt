-- ===== src/Worker/Server/Safety/Running.antt =====
-- src/worker.cpp: whole runs of `run_server` with multishot receives, from the engine on.
use uring_perf.Base.{
  ℕ, ◌+◌, ◌≡◌, refl, sym, ap, subst, ◌∙◌, Bool, true, false, List, [], ◌∷◌, ◌++◌, Option, ◌==◌,
  if◌then◌else◌, inl, inr, arith, ℤ,
}
use uring_perf.Config.Settings.{Config, is_udp}
use uring_perf.Net.Buffers.{free_buffers}
use uring_perf.Engine.State.{Engine}
use uring_perf.Engine.Reap.{reap_completions}
use uring_perf.Stats.Counters.{StatsCollector}
use uring_perf.Worker.Server.{
  ClientSession, Server, Event, Served, served, faults, hangs, sweep_from, sweep,
}
use uring_perf.Worker.Server.Loop.{
  close_sessions, stop_server, try_multishot, start_server, Pass, serve_harvest, server_loop,
}
use uring_perf.Worker.Server.Flight.{count, IsForwardOnly}
use uring_perf.Worker.Server.Joining.{IsSafe}
use uring_perf.Worker.Server.Safety.{finals_of}
use uring_perf.Worker.Server.Safety.Starting.{start_server-IsMultishot, start_server-is_new}
use uring_perf.Worker.Server.Safety.Harvests.{
  harvest, RunPosted, serve_harvest-IsSafe, serve_harvest-Keeps, taken_all, taken_all-append,
  KeepsOn-trans,
}
use uring_perf.Worker.Server.Safety.Descriptors.{keys, held, Keeps, Keeps-map, KeepsOn}

sweep_from-idle :
    (now : ℕ) (todo : List (ℕ × ClientSession)) (s : Server)
    → IsForwardOnly todo
    → sweep_from now todo s ≡ s
unfolding sweep_from
sweep_from-idle now [] s h = refl
sweep_from-idle now ((fd, x) ∷ rest) s (forward, h) = rw forward (sweep_from-idle now rest s h)

-- The rest of the loop, from the outcome of a turn.
loop_on : (ℕ → ℕ) → List Pass → Served → Served
loop_on alloc ts faults = faults
loop_on alloc ts hangs = hangs
loop_on alloc ts (served s) = server_loop alloc s ts

-- The completions that the loop deals with, up to the stop signal.
abbrev pub harvested : ℕ → List Pass → List Event
harvested in_flight [] = []
harvested in_flight (t ∷ ts) =
    if t.stop then [] else reap_completions t.ready in_flight ++ harvested in_flight ts

-- No fault, and n fd descriptors fd taken since the server r.
abbrev Ends : (ℕ → ℕ) → Server → Served → Type 0
Ends n r faults = ⊥
Ends n r hangs = Unit
Ends n r (served s) = Keeps n r s

Ends-map :
    (m n : ℕ → ℕ) (r : Server) (o : Served) → ((fd : ℕ) → m fd ≡ n fd) → Ends m r o → Ends n r o
Ends-map m n r faults e h = h
Ends-map m n r hangs e h = tt
Ends-map m n r (served s) e h = Keeps-map m n r s e h

if-Ends :
    (b : Bool) (m : ℕ → ℕ) (a : ℕ) (us : List Event) (r : Server) (o x : Served)
    → Ends m r o
    → (b ≡ false → Ends (λ fd. m fd + taken_all a fd us) r x)
    → Ends (λ fd. m fd + taken_all a fd (if b then [] else us)) r (if b then o else x)
if-Ends true m a us r o x h k = Ends-map m _ r o (λ fd. omega arith) h
if-Ends false m a us r o x h k = k refl

loop_on-Ends :
    (alloc : ℕ → ℕ) (r : Server) (m : ℕ → ℕ) (finals : List ℕ) (o : Served) (ts : List Pass)
    → IsSafe finals o
    → KeepsOn m r o
    → RunPosted alloc finals o ts
    → Ends
        (λ fd. m fd + taken_all r.accept_ctx fd (harvested r.config.in_flight ts))
        r
        (loop_on alloc ts o)
unfolding loop_on server_loop sweep
loop_on-Ends alloc r m finals faults ts h k p = absurd h
loop_on-Ends alloc r m finals hangs ts h k p = tt
loop_on-Ends alloc r m finals (served s) [] v k p = Keeps-map m _ r s (λ fd. omega arith) k
loop_on-Ends alloc r m finals (served s) (t ∷ ts) v k p =
    if-Ends t.stop m r.accept_ctx _ r (served s) _ k λ goes. elim p [
      | inl stop ↦ absurd (clash (sym goes ∙ stop))
      | inr (posted, later) ↦
          subst
            (Ends
              (λ fd.
                m fd
                + taken_all r.accept_ctx fd (
                    reap_completions t.ready r.config.in_flight ++ harvested r.config.in_flight ts))
              r)
            (ap (λ x. loop_on alloc ts (serve_harvest alloc x (harvest x t)))
              (sym (sweep_from-idle t.now s.sessions s v.forward)))
            (Ends-map
              (λ fd.
                m fd
                + taken_all s.accept_ctx fd (harvest s t)
                + taken_all r.accept_ctx fd (harvested r.config.in_flight ts))
              _ r (loop_on alloc ts (serve_harvest alloc s (harvest s t)))
              (λ fd. omega (
                arith,
                taken_all-append r.accept_ctx fd (reap_completions t.ready r.config.in_flight)
                    (harvested r.config.in_flight ts),
                ap (λ i. taken_all i fd (harvest s t)) k.0.1,
                ap
                    (λ (c : Config).
                      taken_all r.accept_ctx fd (reap_completions t.ready c.in_flight))
                    k.0.0,
              ))
              (loop_on-Ends alloc r (λ fd. m fd + taken_all s.accept_ctx fd (harvest s t))
                (finals_of finals (harvest s t)) (serve_harvest alloc s (harvest s t)) ts
                (serve_harvest-IsSafe alloc finals s (harvest s t) v posted)
                (KeepsOn-trans m (λ fd. taken_all s.accept_ctx fd (harvest s t)) _ r s
                  (serve_harvest alloc s (harvest s t)) (λ fd. refl) k
                  (serve_harvest-Keeps alloc finals s (harvest s t) v posted))
                later))
    ]
  where
    clash : false ≡ true → ⊥
    clash q = cc

-- How a run has come out, for the descriptor fd: no fault; and where the run has come to its end (no
-- peer in the handshake keeps it), n connections with descriptor fd are closed, and the socket.
abbrev pub Outcome : ℕ → ℕ → ℕ → Served → Type 0
Outcome listen_fd fd n faults = ⊥
Outcome listen_fd fd n hangs = Unit
Outcome listen_fd fd n (served s) =
    count fd (stop_server s).closed ≡ (if fd == listen_fd then 1 else 0) + n

pub count-close_sessions :
    (fd : ℕ) (l : List (ℕ × ClientSession)) (s : Server)
    → count fd (close_sessions l s).closed ≡ count fd s.closed + keys fd l
unfolding close_sessions
count-close_sessions fd [] s = omega arith
count-close_sessions fd ((k, x) ∷ rest) s =
    count-close_sessions fd rest
      (record s { closed = k ∷ s.closed; freed = free_buffers x.buffers ++ s.freed })
    ∙ omega arith

Ends-Outcome :
    (n : ℕ → ℕ) (r : Server) (o : Served) (fd : ℕ)
    → held fd r ≡ 0
    → Ends n r o
    → Outcome r.listen_fd fd (n fd) o
unfolding stop_server
Ends-Outcome n r faults fd h e = e
Ends-Outcome n r hangs fd h e = tt
Ends-Outcome n r (served s) fd h ((c, a, l), e) =
    count-close_sessions fd s.sessions (record s { closed = s.listen_fd ∷ s.closed })
    ∙ rw l (omega (arith, e fd, h))

-- Let a TCP server get its multishot receives set up on a ring that is empty, and run for any number of
-- turns. Let every completion that it harvests before the stop signal be one that the kernel may post:
-- of an operation that was queued more often than it was completed for good, and of a new connection
-- under a descriptor not in use, whose peer does not ask for the reverse direction. Then the run never
-- dispatches a completion on a context that is dead. Unless a peer that is silent in the handshake
-- keeps it, every descriptor has in the end been closed exactly as often as a connection under it was
-- accepted, and the listening socket once.
pub server_loop_outcome :
    (cfg : Config) (thread_id : ℕ) (stats : StatsCollector) (e : Engine) (listen_fd : ℕ)
    (alloc : ℕ → ℕ) (ring : Bool) (mem : Option ℕ) (files : ℤ) (ts : List Pass) (fd : ℕ)
    → is_udp cfg.protocol ≡ false
    → (try_multishot cfg e ring mem).0 ≡ true
    → e.sqes ≡ []
    → let s = start_server cfg thread_id stats e listen_fd alloc ring mem files in
      RunPosted alloc [] (served s) ts
      → Outcome listen_fd fd
          (taken_all s.accept_ctx fd (harvested cfg.in_flight ts))
          (server_loop alloc s ts)
unfolding loop_on
server_loop_outcome cfg thread_id stats e listen_fd alloc ring mem files ts fd tcp on idle posted =
    let s = start_server cfg thread_id stats e listen_fd alloc ring mem files in
    let v =
      start_server-IsMultishot cfg thread_id stats listen_fd e alloc ring mem files tcp on idle in
    let (same, empty) =
      start_server-is_new cfg thread_id stats listen_fd e alloc ring mem files tcp in
    let done =
      Ends-Outcome (λ w. 0 + taken_all s.accept_ctx w (harvested s.config.in_flight ts)) s
        (server_loop alloc s ts) fd (empty fd)
        (loop_on-Ends alloc s (λ w. 0) [] (served s) ts v ((refl, refl, refl), λ w. omega arith)
          posted) in
    subst
      (λ i.
        Outcome i fd (taken_all s.accept_ctx fd (harvested cfg.in_flight ts))
          (server_loop alloc s ts))
      same.1
      (subst (λ n. Outcome s.listen_fd fd n (server_loop alloc s ts))
        (omega
          (arith, ap (λ (c : Config). taken_all s.accept_ctx fd (harvested c.in_flight ts)) same.0))
        done)
