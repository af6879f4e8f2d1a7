-- ===== src/Worker/Server/Safety/Starting.antt =====
-- src/worker.cpp: how `run_server` starts with multishot receives.
use uring_perf.Base.{
  ℕ, ◌≡◌, refl, ◌∙◌, Bool, true, false, [], Option, none, some, inl, inr, arith, Bool-cases, ℤ,
}
use uring_perf.Config.Settings.{Config, is_udp}
use uring_perf.Engine.State.{Engine}
use uring_perf.Engine.BufRing.{setup_multishot_recv}
use uring_perf.Engine.Reap.{submit}
use uring_perf.Stats.Counters.{StatsCollector}
use uring_perf.Worker.Contexts.{find, make}
use uring_perf.Worker.Server.{Server}
use uring_perf.Worker.Server.Handlers.{rearm_accept}
use uring_perf.Worker.Server.Loop.{fresh_server, try_multishot, start_server}
use uring_perf.Worker.Server.Flight.{count, IsMultishot, with-IsMultishot, rearm_accept-IsMultishot}
use uring_perf.Worker.Server.Receiving.{pick-else}
use uring_perf.Worker.Server.Safety.Descriptors.{held}

setup_multishot_recv-sqes :
    (e : Engine) (count size bgid : ℕ) (ring : Bool) (mem : Option ℕ)
    → (setup_multishot_recv e count size bgid ring mem).1.sqes ≡ e.sqes
unfolding setup_multishot_recv
setup_multishot_recv-sqes e count size bgid true none = refl
setup_multishot_recv-sqes e count size bgid true (some base) = refl
setup_multishot_recv-sqes e count size bgid false mem = refl

try_multishot-sqes :
    (cfg : Config) (e : Engine) (ring : Bool) (mem : Option ℕ)
    → (try_multishot cfg e ring mem).1.sqes ≡ e.sqes
unfolding try_multishot
try_multishot-sqes cfg e ring mem = elim (Bool-cases cfg.multishot_recv) [
  | inl on ↦ rw on (setup_multishot_recv-sqes e cfg.in_flight cfg.buf_size 0 ring mem)
  | inr off ↦ rw off refl
]

module _ (cfg : Config) (thread_id : ℕ) (stats : StatsCollector) (listen_fd : ℕ) where
  fresh_server-IsMultishot :
      (r : Bool × Engine)
      → is_udp cfg.protocol ≡ false
      → r.0 ≡ true
      → r.1.sqes ≡ []
      → IsMultishot [] (fresh_server cfg thread_id stats listen_fd r)
  unfolding fresh_server make find
  fresh_server-IsMultishot r tcp on idle = record {
    multishot = on;
    tcp = tcp;
    listening = refl;
    below = omega arith;
    kept = tt;
    forward = tt;
    flights = λ u. inr (rw idle (omega arith));
    fresh = λ u. inr (inr (rw idle refl));
  }

  pub start_server-IsMultishot :
      (e : Engine) (alloc : ℕ → ℕ) (ring : Bool) (mem : Option ℕ) (files : ℤ)
      → is_udp cfg.protocol ≡ false
      → (try_multishot cfg e ring mem).0 ≡ true
      → e.sqes ≡ []
      → IsMultishot [] (start_server cfg thread_id stats e listen_fd alloc ring mem files)
  unfolding start_server submit rearm_accept fresh_server
  start_server-IsMultishot e alloc ring mem files tcp on idle =
      let f = fresh_server cfg thread_id stats listen_fd (try_multishot cfg e ring mem) in
      let armed : Server = rearm_accept f in
      pick-else (λ t. IsMultishot [] (record t { engine = submit t.engine })) (is_udp cfg.protocol)
        _ _ tcp
        (with-IsMultishot [] armed armed.stats (submit armed.engine) armed.closed refl (
          rearm_accept-IsMultishot [] f (
            fresh_server-IsMultishot (try_multishot cfg e ring mem) tcp on
              (try_multishot-sqes cfg e ring mem ∙ idle))))

  pub start_server-is_new :
      (e : Engine) (alloc : ℕ → ℕ) (ring : Bool) (mem : Option ℕ) (files : ℤ)
      → is_udp cfg.protocol ≡ false
      → let s = start_server cfg thread_id stats e listen_fd alloc ring mem files in
        ((s.config ≡ cfg) × (s.listen_fd ≡ listen_fd)) × ((fd : ℕ) → held fd s ≡ 0)
  unfolding start_server submit fresh_server make
  start_server-is_new e alloc ring mem files tcp =
      pick-else
        (λ (t : Server).
          ((t.config ≡ cfg) × (t.listen_fd ≡ listen_fd)) × ((fd : ℕ) → held fd t ≡ 0))
        (is_udp cfg.protocol) _ _ tcp ((refl, refl), λ fd. omega arith)
