-- ===== src/Worker/Launch/Ports.antt =====
-- src/worker.cpp: that client and server mean the same ports.
use uring_perf.Base.{
  ℕ, ◌+◌, ◌^◌, ◌<◌, ◌≡◌, ◌≢◌, false, not, ◌&&◌, arith, Bool-cases, ◌⊎◌, inl, inr, u16,
}
use uring_perf.Config.Settings.{Config}
use uring_perf.Worker.Launch.{connect_port, local_bind_port, zcrx_listen_port, listen_port}

-- The ports of two threads of a process that numbers them.
u16_apart :
    (p t u : ℕ) → p + t < 2 ^ 16 → p + u < 2 ^ 16 → t ≢ u → u16 (p + u16 t) ≢ u16 (p + u16 u)
u16_apart p t u h k n e = n (omega arith)

-- A port that does not wrap is one.
u16_whole : (p t : ℕ) → p + t < 2 ^ 16 → u16 (p + u16 t) ≡ p + t
u16_whole p t h = omega arith

-- Where a sending client and a server agree on the port and on zero-copy receive, and where a
-- client that receives meets a server without it, thread i of the client asks for the very port
-- that thread i of the server listens on. Let the port be no 0, and let the port and the number of the
-- thread together stay below 2 ^ 16. With zero-copy receive, the thread of the server then listens on
-- that sum, and different threads on different ports; and so do the threads of a client that receives
-- bind different local ports, each the sum, which is no 0 and so is bound.
pub connect_port-listen_port :
    (c s : Config) (i j : ℕ)
    → c.port ≡ s.port
    → 0 < c.port
    → s.use_zcrx ≡ (c.use_zcrx && not c.reverse)
    → c.port + i < 2 ^ 16
    → c.port + j < 2 ^ 16
    → i ≢ j
    → (connect_port c i ≡ listen_port s i)
      × ((s.use_zcrx ≡ false)
          ⊎ ((listen_port s i ≡ s.port + i) × (listen_port s i ≢ listen_port s j)))
      × (((c.use_zcrx && c.reverse) ≡ false)
          ⊎ ((local_bind_port c i ≡ c.port + i)
              × (0 < local_bind_port c i)
              × (local_bind_port c i ≢ local_bind_port c j)))
unfolding connect_port listen_port zcrx_listen_port local_bind_port
connect_port-listen_port c s i j same small zcrx hi hj n = (
  ground arith,
  elim (Bool-cases s.use_zcrx) [
    | inl with_it ↦ inr (
        ground (
          arith,
          same,
          u16_apart s.port i j (omega (arith, same, hi)) (omega (arith, same, hj)) n,
          u16_whole s.port i (omega (arith, same, hi)),
        ))
    | inr e ↦ inl e
  ],
  elim (Bool-cases (c.use_zcrx && c.reverse)) [
    | inl with_it ↦ inr (ground (arith, u16_apart c.port i j hi hj n, u16_whole c.port i hi))
    | inr e ↦ inl e
  ],
)
