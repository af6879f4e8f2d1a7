-- ===== src/Main/Waiting.antt =====
-- src/main.cpp: `run_until_stop` comes to an end.
use uring_perf.Base.{
  ℕ, zero, suc, ◌+◌, ◌-◌, ◌*◌, ◌/◌, ◌^◌, ◌≤◌, ◌<◌, ◌≡◌, sym, subst, true, false, leb, ◌⊎◌, inl, inr,
  arith, Bool-cases,
}
use uring_perf.Config.Settings.{Config, is_client}
use uring_perf.Main.{Turn, Wait, signalled, timed_out, wait_from, run_until_stop}

-- In none of the first n turns is the signal set or d nanoseconds over.
abbrev pub IsQuiet : (ℕ → Turn) → ℕ → ℕ → ℕ → Type 0
IsQuiet turns start d zero = Unit {0}
IsQuiet turns start d (suc n) =
    ((turns n).stop ≡ false) × ((turns n).now < start + d) × IsQuiet turns start d n

-- The turn i is the first with the signal set or the time over, and the result says which.
abbrev pub EndsAt : (ℕ → Turn) → ℕ → ℕ → Wait → ℕ → Type 0
EndsAt turns start d w i =
    IsQuiet turns start d i
    × (((w ≡ signalled i) × ((turns i).stop ≡ true))
        ⊎ ((w ≡ timed_out i) × ((turns i).stop ≡ false) × (start + d ≤ (turns i).now)))

keeps_on :
    (cfg : Config) (start : ℕ) (turns : ℕ → Turn) (i n : ℕ)
    → (turns i).stop ≡ false
    → leb cfg.duration_sec (((turns i).now - start) / 10 ^ 9) ≡ false
    → wait_from cfg start turns i (suc n) ≡ wait_from cfg start turns (suc i) n
unfolding wait_from
keeps_on cfg start turns i n s early = ground arith

times_out :
    (cfg : Config) (start : ℕ) (turns : ℕ → Turn) (i n : ℕ)
    → is_client cfg.mode ≡ true
    → (turns i).stop ≡ false
    → leb cfg.duration_sec (((turns i).now - start) / 10 ^ 9) ≡ true
    → wait_from cfg start turns i (suc n) ≡ timed_out i
unfolding wait_from
times_out cfg start turns i n client s late = ground arith

heeds :
    (cfg : Config) (start : ℕ) (turns : ℕ → Turn) (i n : ℕ)
    → (turns i).stop ≡ true
    → wait_from cfg start turns i (suc n) ≡ signalled i
unfolding wait_from
heeds cfg start turns i n s = ground arith

wait_from-ends :
    (cfg : Config) (start : ℕ) (turns : ℕ → Turn) (i n : ℕ)
    → is_client cfg.mode ≡ true
    → ((k : ℕ) → start + (k + 1) * 10 ^ 8 ≤ (turns k).now)
    → i + n ≡ 10 * cfg.duration_sec + 1
    → IsQuiet turns start (cfg.duration_sec * 10 ^ 9) i
    → (j : ℕ) × (j ≤ 10 * cfg.duration_sec)
      × EndsAt turns start (cfg.duration_sec * 10 ^ 9) (wait_from cfg start turns i n) j
wait_from-ends cfg start turns zero zero client tick e q = absurd (omega (arith, e))
wait_from-ends cfg start turns (suc i) zero client tick e (s, early, q) =
    absurd (omega (arith, e, tick i, early))
wait_from-ends cfg start turns i (suc n) client tick e q = elim (Bool-cases (turns i).stop) [
  | inl s ↦ (i, omega (arith, e), (q, inl (heeds cfg start turns i n s, s)))
  | inr s ↦ elim (Bool-cases (leb cfg.duration_sec (((turns i).now - start) / 10 ^ 9))) [
    | inl late ↦ (
      i,
      omega (arith, e),
      (q, inr (times_out cfg start turns i n client s late, s, ground (arith, tick i))),
    )
    | inr early ↦
        let (j, most, ends) =
          wait_from-ends cfg start turns (suc i) n client tick (omega (arith, e))
            (s, ground (arith, tick i), q) in
        (
          j,
          most,
          subst (λ w. EndsAt turns start (cfg.duration_sec * 10 ^ 9) w j)
              (sym (keeps_on cfg start turns i n s early)) ends,
        )
  ]
]

-- On a client, where every turn's sleep and the ones before it last 100 ms each at least, ten turns
-- a second of the duration and one more are enough: `run_until_stop` returns, at the first turn
-- that finds the signal set or the duration over, and not before; in the second case it has set
-- the signal.
pub run_until_stop-ends :
    (cfg : Config) (start : ℕ) (turns : ℕ → Turn)
    → is_client cfg.mode ≡ true
    → ((k : ℕ) → start + (k + 1) * 10 ^ 8 ≤ (turns k).now)
    → (j : ℕ) × (j ≤ 10 * cfg.duration_sec)
      × EndsAt turns start
          (cfg.duration_sec * 10 ^ 9)
          (run_until_stop cfg start turns (10 * cfg.duration_sec + 1))
          j
unfolding run_until_stop
run_until_stop-ends cfg start turns client tick =
    wait_from-ends cfg start turns 0 (10 * cfg.duration_sec + 1) client tick (omega arith) tt
