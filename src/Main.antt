-- ===== src/Main.antt =====
-- src/main.cpp: the program from the settings on. The readings of the clock and of the stop signal,
-- and the answers of `fork`, `getrlimit` and `setrlimit`, are inputs; the calls it makes on its
-- workers, its collector and its children come out as a list.
pub mod Forking
pub mod Waiting
pub mod Workers
pub mod Threads
pub mod Joining
pub mod Leaving
mod Tests
use uring_perf.Base.{
  ℕ, zero, suc, ◌+◌, ◌-◌, ◌/◌, ◌^◌, Bool, true, false, ◌&&◌, List, [], ◌∷◌, ◌++◌, map, Option, none,
  some, ltb, leb, if◌then◌else◌, ℤ, pos, negsuc, is_positive,
}
use uring_perf.Config.Settings.{Config, is_client, is_udp}
use uring_perf.Stats.Counters.{StatsCollector, new_collector}

-- What a turn of `run_until_stop` reads: the signal at its head, and the clock, in nanoseconds, after
-- the sleep.
pub record Turn : Type 0 where
  pub stop : Bool
  pub now : ℕ

-- The turn at whose reading the function returns, with whether the function set the signal itself.
pub data Wait : Type 0 where
  signalled timed_out : ℕ → Wait
  sleeping : Wait

-- From turn i, for as many turns as are given.
unfoldable pub wait_from : Config → ℕ → (ℕ → Turn) → ℕ → ℕ → Wait
wait_from cfg start turns i zero = sleeping
wait_from cfg start turns i (suc n) =
    let rest = wait_from cfg start turns (suc i) n in
    if (turns i).stop
    then signalled i
    else if is_client cfg.mode && leb cfg.duration_sec (((turns i).now - start) / 10 ^ 9)
    then timed_out i
    else rest

unfoldable pub run_until_stop : Config → ℕ → (ℕ → Turn) → ℕ → Wait
run_until_stop cfg start turns n = wait_from cfg start turns 0 n

pub data Label : Type 0 where
  receiver_client sender_client receiver_server : Label

unfoldable pub summary_role_label : Config → Label
summary_role_label cfg =
    if is_client cfg.mode
    then (if cfg.reverse then receiver_client else sender_client)
    else receiver_server

-- `RLIM_INFINITY`
abbrev rlim_infinity : ℕ
rlim_infinity = 2 ^ 64 - 1

-- The limits, soft and hard, that `setrlimit` is given, after the limits that `getrlimit` gave if it
-- succeeded, and by whether the first `setrlimit` succeeds.
unfoldable pub raise_memlock_limit : Option (ℕ × ℕ) → Bool → List (ℕ × ℕ)
raise_memlock_limit none done = []
raise_memlock_limit (some (soft, hard)) true = (hard, hard) ∷ []
raise_memlock_limit (some (soft, hard)) false = (hard, hard) ∷ (rlim_infinity, rlim_infinity) ∷ []

-- The condition of the warning about -Z.
unfoldable pub warns_of_zero_copy : Config → Bool
warns_of_zero_copy cfg = cfg.zero_copy && is_udp cfg.protocol && ltb cfg.buf_size 16384

-- A call of `main`: a worker begins or ends under its thread_id, with its settings.
pub data Step : Type 0 where
  raise_limit warn_of_zero_copy print_banner start_reporting stop_reporting : Step
  start : ℕ → Config → Step
  wait_until_stop : Config → Step
  join : ℕ → Step
  waitpid : ℤ → Step
  print_summary : Label → Step

-- Where the loop over `fork` leaves a process.
pub data Forked : Type 0 where
  child : ℕ → Forked
  parent : List ℤ → Forked

-- The first branch behind `fork`.
abbrev pub in_child : ℤ → Bool
in_child (pos zero) = true
in_child (pos (suc pid)) = false
in_child (negsuc e) = false

-- From worker i, with the workers left and the children so far; the i-th `fork` answers `forks i`.
unfoldable pub fork_workers : (ℕ → ℤ) → ℕ → ℕ → List ℤ → Forked
fork_workers forks i zero pids = parent pids
fork_workers forks i (suc n) pids =
    let rest =
      fork_workers forks (i + 1) n
        (if is_positive (forks i) then pids ++ (forks i ∷ []) else pids) in
    if in_child (forks i) then child i else rest

abbrev child_cfg : Config → Config
child_cfg cfg = record cfg { threads = 1 }

unfoldable pub process_steps : Config → Forked → List Step
process_steps cfg (child i) =
    raise_limit ∷ start i (child_cfg cfg) ∷ wait_until_stop (child_cfg cfg) ∷ join i ∷ []
process_steps cfg (parent pids) =
    print_banner
    ∷ start_reporting
    ∷ wait_until_stop cfg
    ∷ (map waitpid pids ++ (stop_reporting ∷ print_summary (summary_role_label cfg) ∷ []))

-- A loop over the workers, from worker i, with the workers left.
unfoldable pub each_worker : (ℕ → Step) → ℕ → ℕ → List Step
each_worker act i zero = []
each_worker act i (suc n) = act i ∷ each_worker act (i + 1) n

unfoldable pub threaded_steps : Config → List Step
threaded_steps cfg =
    print_banner
    ∷ start_reporting
    ∷ (each_worker (λ i. start i cfg) 0 cfg.threads
        ++ (wait_until_stop cfg
            ∷ (each_worker join 0 cfg.threads
                ++ (stop_reporting ∷ print_summary (summary_role_label cfg) ∷ []))))

-- What comes before the choice of the mode.
unfoldable pub opening : Config → List Step
opening cfg = raise_limit ∷ (if warns_of_zero_copy cfg then warn_of_zero_copy ∷ [] else [])

abbrev pub uses_processes : Config → Bool
uses_processes cfg = cfg.multi_process && ltb 1 cfg.threads

-- `main` with the settings that `parse_args` returns, in the process that the answers of `fork` are
-- those of, with the collector that its workers count in.
unfoldable pub main : Config → (ℕ → ℤ) → StatsCollector × List Step
main cfg forks = (
  new_collector cfg.threads cfg.interval_sec,
  opening cfg
      ++ (if uses_processes cfg
          then process_steps cfg (fork_workers forks 0 cfg.threads [])
          else threaded_steps cfg),
)
