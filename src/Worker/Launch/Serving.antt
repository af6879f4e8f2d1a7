-- ===== src/Worker/Launch/Serving.antt =====
-- src/worker.cpp: what a return of `run_server` comes to.
use uring_perf.Base.{
  ℕ, ◌≤◌, ◌<◌, ◌≡◌, refl, ap, subst, sym, ◌∙◌, Bool, true, false, List, [], ◌∷◌, none, some,
  if◌then◌else◌, inl, inr, arith, ℤ, pos, negsuc,
}
use uring_perf.Config.Settings.{Config, is_udp}
use uring_perf.Engine.State.{Engine}
use uring_perf.Engine.Setup.{create_outcome}
use uring_perf.Stats.Counters.{new_collector}
use uring_perf.Stats.Totals.{totals}
use uring_perf.Net.Sockets.{Call}
use uring_perf.Net.Sockets.Outcome.{Socket, after, Leaves}
use uring_perf.Net.Sockets.Listener.{create_listen_socket_outcome}
use uring_perf.Worker.Client.Accounting.{Outcome}
use uring_perf.Worker.Server.{ClientSession, Server, Served, served, faults, hangs}
use uring_perf.Worker.Server.Flight.{count}
use uring_perf.Worker.Server.Loop.{close_sessions, stop_server, server_loop}
use uring_perf.Worker.Server.Accounting.{summary_of, run_outcomes}
use uring_perf.Worker.Server.Summary.{server_loop-totals, server_loop-listen_fd}
use uring_perf.Worker.Server.Safety.Running.{count-close_sessions}
use uring_perf.Worker.Launch.{listen_socket, zcrx_listen_socket}
use uring_perf.Worker.Launch.Closing.{IsOpen, HasNoRing}
use uring_perf.Worker.Launch.Service.{
  ServerExit, finished, unbound, hands_over, no_ring, dead_context, held_up, ServerInputs,
  buffer_memory, started_server, after_served, serve_with, make_ring, serve_at, run_server,
}
use uring_perf.Worker.Zcrx.{zcrx_setup}
use uring_perf.Worker.Zcrx.Release.{IsSettled, run_zcrx-IsSettled}
use uring_perf.Worker.Zcrx.Summary.{SumsUp, served_turns, run_server_zcrx-SumsUp}

close_sessions-stats :
    (l : List (ℕ × ClientSession)) (s : Server) → (close_sessions l s).stats ≡ s.stats
unfolding close_sessions
close_sessions-stats [] s = refl
close_sessions-stats ((fd, x) ∷ rest) s = close_sessions-stats rest _

-- The end closes the listening socket, and counts nothing.
stop_server-closes :
    (s : Server) (fd : ℕ)
    → s.listen_fd ≡ fd
    → (1 ≤ count fd (stop_server s).closed) × ((stop_server s).stats ≡ s.stats)
unfolding stop_server
stop_server-closes s fd same =
    let n = count-close_sessions fd s.sessions (record s { closed = s.listen_fd ∷ s.closed }) in
    (grind (arith, n, same), close_sessions-stats s.sessions _)

module _ (cfg : Config) (thread_id n interval : ℕ) (a : ServerInputs) (p q w : ℕ) where
  -- What the completions that a server deals with come to, on the ring that it got.
  abbrev pub dealt : ℕ → Engine → List Outcome
  dealt fd e =
      run_outcomes (buffer_memory a)
        (served (started_server cfg thread_id (new_collector n interval) a fd e)) a.passes

  -- What a server with zero-copy receive deals with.
  abbrev pub zcrx_dealt : List Outcome
  zcrx_dealt =
      served_turns (zcrx_listen_socket cfg thread_id a.sock a.socket).0 a.queue
        (zcrx_setup a.zcrx cfg.zcrx_area_size cfg.zcrx_rq_entries).0 a.zcrx_turns

  -- A return has closed the listening socket, and the summary is what was dealt with.
  abbrev pub IsServed : ServerExit → Type 0
  IsServed (finished calls s) =
      (fd : ℕ) × (e : Engine) × (make_ring cfg a ≡ some e)
      × IsOpen calls fd
      × (1 ≤ count fd s.closed)
      × (totals s.stats ≡ summary_of (dealt fd e))
  IsServed (unbound calls) = after none calls ≡ none
  IsServed (hands_over x) = (cfg.use_zcrx ≡ true) × IsSettled p q w x × SumsUp zcrx_dealt x
  IsServed no_ring = HasNoRing cfg a.kernel.common
  IsServed dead_context = Unit
  IsServed held_up = Unit

  after_served-IsServed :
      (fd : ℕ) (e : Engine) (calls : List Call) (o : Served)
      → thread_id < n
      → make_ring cfg a ≡ some e
      → IsOpen calls fd
      → server_loop
          (buffer_memory a)
          (started_server cfg thread_id (new_collector n interval) a fd e)
          a.passes
        ≡ o
      → IsServed (after_served calls o)
  unfolding after_served started_server
  after_served-IsServed fd e calls faults small made held run = tt
  after_served-IsServed fd e calls hangs small made held run = tt
  after_served-IsServed fd e calls (served s) small made held run =
      let same =
        server_loop-listen_fd cfg thread_id (new_collector n interval) e fd (buffer_memory a)
          a.kernel.ring a.kernel.ring_mem a.kernel.common.files a.passes run in
      let (closed, stats) = stop_server-closes s fd same in
      (
        fd,
        e,
        made,
        held,
        closed,
        ap totals stats
            ∙ server_loop-totals cfg thread_id n interval e fd (buffer_memory a) a.kernel.ring
                a.kernel.ring_mem a.kernel.common.files a.passes small run,
      )

  serve_at-IsServed :
      (r : ℤ) (calls : List Call) {fine : Bool} {P : Socket → Type 0}
      → thread_id < n
      → Leaves (r, calls) fine P
      → IsServed (serve_at cfg thread_id (new_collector n interval) a (r, calls))
  unfolding serve_at serve_with make_ring
  serve_at-IsServed (negsuc k) calls small (inl (failed, gone, why)) = gone
  serve_at-IsServed (negsuc k) calls small (inr (s, e, held, fine, h)) = absurd (ground (arith, e))
  serve_at-IsServed (pos fd) calls small (inl (e, gone, why)) = absurd (ground (arith, e))
  serve_at-IsServed (pos fd) calls small (inr (s, same, held, fine, h)) =
      elim (create_outcome a.kernel.common.lib a.kernel.common.init_params a.kernel.common.init
        cfg.queue_depth cfg.sqpoll).0 [
          | inl (e, first, second) ↦
              subst
                (λ o. IsServed (serve_with cfg thread_id (new_collector n interval) a calls fd o))
                (sym e) (first, second)
          | inr (e, made, ok, polls, quits) ↦
              subst
                (λ o. IsServed (serve_with cfg thread_id (new_collector n interval) a calls fd o))
                (sym made)
                (after_served-IsServed fd e calls _ small made (s, ground (arith, same), held) refl)
        ]

  pick-IsServed :
      (zc : Bool) (x : ServerExit) (l m : ℤ × List Call)
      → (zc ≡ true → IsServed x)
      → IsServed (serve_at cfg thread_id (new_collector n interval) a m)
      → IsServed (
          if zc
          then x
          else serve_at cfg thread_id (new_collector n interval) a (if zc then l else m))
  pick-IsServed true x l m h k = h refl
  pick-IsServed false x l m h k = k

  -- Let the thread number be in range and the counters new, and let the kernel, the allocator and the
  -- peers answer whatever they do. Where `run_server` returns, it either got no listening socket and
  -- leaves none open, or it has closed the one that it got, and its summary is what the completions
  -- that it dealt with come to, each counted once. It throws only if both attempts to set up the ring
  -- fail. Only with zero-copy receive does `run_server_zcrx` run in its place, and where that returns
  -- it has undone each mapping made, exited the ring and closed the listening socket, and its summary
  -- is what the completions come to that it found before the stop signal or a failed wait: none
  -- without the socket, the ring and the set-up.
  pub run_server-IsServed :
      thread_id < n → IsServed (run_server cfg thread_id (new_collector n interval) a)
  unfolding run_server listen_socket
  run_server-IsServed small =
      pick-IsServed cfg.use_zcrx _ _ _
        (λ zc. (
          zc,
          (run_zcrx-IsSettled p q w cfg thread_id (new_collector n interval) a.sock a.queue a.socket
              a.zcrx a.slots a.zcrx_turns 0 0).0,
          run_server_zcrx-SumsUp cfg thread_id n interval a.sock a.socket a.queue a.zcrx a.slots
              a.zcrx_turns small,
        ))
        (serve_at-IsServed _ _ small (
          create_listen_socket_outcome a.sock a.socket cfg.port (is_udp cfg.protocol) cfg.zero_copy
            cfg.udp_gso_size))
