-- ===== src/Main/Threads.antt =====
-- src/main.cpp and src/worker.cpp: the threads that a process has, and how it ends. A worker's thread is
-- joinable from when it begins until it is joined; `none` is the end by `std::terminate`.
use uring_perf.Base.{
  ℕ, zero, suc, ◌+◌, Bool, true, false, List, [], ◌∷◌, Option, none, some, ◌==◌, if◌then◌else◌, ℤ,
}
use uring_perf.Config.Settings.{Config}
use uring_perf.Stats.Lifetime.{
  Collector, construct_collector, start_reporting, stop_reporting, destroy_collector,
}
use uring_perf.Main.{Step, Forked, child, parent, fork_workers, uses_processes, main}

-- The collector, and the workers whose `thread_` is joinable, with the threads begun and joined so far.
pub record Process : Type 0 where
  pub collector : Collector
  pub joinable : ℕ → Bool
  pub begun : List ℕ
  pub joined : List ℕ

abbrev pub set : (ℕ → Bool) → ℕ → Bool → ℕ → Bool
set f i b k = if k == i then b else f k

-- `Worker::start`: it assigns a new thread.
unfoldable pub start_worker : ℕ → Process → Option Process
start_worker i p =
    if p.joinable i
    then none
    else some (record p { joinable = set p.joinable i true; begun = i ∷ p.begun })

-- `Worker::join`
unfoldable pub join_worker : ℕ → Process → Process
join_worker i p =
    if p.joinable i
    then record p { joinable = set p.joinable i false; joined = i ∷ p.joined }
    else p

-- The time is that of `start_reporting`.
unfoldable pub take_step : ℕ → Step → Process → Option Process
take_step now Step.start_reporting p = elim (start_reporting now p.collector) [
  | none ↦ none
  | some c ↦ some (record p { collector = c })
]
take_step now Step.stop_reporting p = some (record p { collector = stop_reporting p.collector })
take_step now (Step.start i cfg) p = start_worker i p
take_step now (Step.join i) p = some (join_worker i p)
take_step now step p = some p

unfoldable pub take_steps : ℕ → List Step → Process → Option Process
take_steps now [] p = some p
take_steps now (s ∷ ss) p = elim (take_step now s p) [ none ↦ none | some q ↦ take_steps now ss q ]

-- The destructors of the workers from i on, with those left.
unfoldable pub destroy_workers : ℕ → ℕ → Process → Process
destroy_workers i zero p = p
destroy_workers i (suc n) p = destroy_workers (i + 1) n (join_worker i p)

-- The process that runs `main`: a child, or the one that returns from it.
unfoldable pub who : Config → (ℕ → ℤ) → Forked
who cfg forks = if uses_processes cfg then fork_workers forks 0 cfg.threads [] else parent []

-- `std::exit` runs none of the destructors; `return` runs them all, of the workers first.
unfoldable pub leave : Config → Forked → Process → Process
leave cfg (child i) p = p
leave cfg (parent pids) p =
    let q = if uses_processes cfg then p else destroy_workers 0 cfg.threads p in
    record q { collector = destroy_collector q.collector }

abbrev pub new_process : Collector → Process
new_process c = record { collector = c; joinable = λ k. false; begun = []; joined = [] }

unfoldable pub finished : Config → Forked → Option Process → Option Process
finished cfg f none = none
finished cfg f (some p) = some (leave cfg f p)

unfoldable pub with_collector : Config → (ℕ → ℤ) → ℕ → Option Collector → Option Process
with_collector cfg forks now none = none
with_collector cfg forks now (some c) =
    finished cfg (who cfg forks) (take_steps now (main cfg forks).1 (new_process c))

-- The process from the constructor of the collector to its end.
unfoldable pub run_process : Config → (ℕ → ℤ) → Bool → ℕ → Option Process
run_process cfg forks mapped now =
    with_collector cfg forks now (construct_collector cfg.threads cfg.interval_sec mapped)
