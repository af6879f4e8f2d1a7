-- ===== src/Stats/Lifetime.antt =====
-- include/stats.hpp and src/stats.cpp: the shared mapping and the reporter's thread of a
-- `StatsCollector`. A `std::thread` is joinable from when it begins until it is joined; beginning one
-- in its place, or destroying it, before it is joined ends the program.
use uring_perf.Base.{ℕ, ◌*◌, Bool, true, false, List, [], ◌∷◌, Option, none, some, if◌then◌else◌}

-- The calls that take something or give it back. A reporter begins with its start time.
pub data ThreadCall : Type 0 where
  map_shared unmap_shared : ℕ → ThreadCall
  begin_reporter : ℕ → ThreadCall
  join_reporter : ThreadCall

-- The members, with whether `shared_stats_` points to the mapping and `reporter_thread_` is joinable;
-- the calls stand newest first.
pub record Collector : Type 0 where
  pub num_threads : ℕ
  pub interval_sec : ℕ
  pub shared_stats : Bool
  pub running : Bool
  pub reporter : Bool
  pub start_time : ℕ
  pub calls : List ThreadCall

-- `alignas(64)` four times.
abbrev pub sizeof_thread_stats : ℕ
sizeof_thread_stats = 256

-- The constructor; `mapped` says whether `mmap` gives a mapping, and `none` is the exception.
unfoldable pub construct_collector : ℕ → ℕ → Bool → Option Collector
construct_collector num_threads interval_sec mapped =
    if mapped
    then some (record {
      num_threads = num_threads;
      interval_sec = interval_sec;
      shared_stats = true;
      running = false;
      reporter = false;
      start_time = 0;
      calls = map_shared (sizeof_thread_stats * num_threads) ∷ [];
    })
    else none

-- `none` is the end of the program, by an assignment to a thread that is joinable.
unfoldable pub start_reporting : ℕ → Collector → Option Collector
start_reporting now c =
    if c.reporter
    then none
    else some (record c {
      start_time = now;
      running = true;
      reporter = true;
      calls = begin_reporter now ∷ c.calls;
    })

unfoldable pub stop_reporting : Collector → Collector
stop_reporting c =
    if c.running
    then (if c.reporter
        then record c { running = false; reporter = false; calls = join_reporter ∷ c.calls }
        else record c { running = false })
    else c

-- The destructor, up to that of the thread.
unfoldable pub destroy_collector : Collector → Collector
destroy_collector c =
    let d = stop_reporting c in
    if d.shared_stats
    then record d { calls = unmap_shared (sizeof_thread_stats * d.num_threads) ∷ d.calls }
    else d
