-- ===== src/Stats/Counters.antt =====
-- src/stats.cpp: the counters, shared by all threads, and the calls that count.
-- An atomic `fetch_add` is one step; the counters are `uint64_t` and wrap.
use uring_perf.Base.{ℕ, zero, suc, ◌+◌, List, [], ◌∷◌, ltb, if◌then◌else◌, u64}

pub record ThreadStats : Type 0 where
  pub bytes_transferred : ℕ
  pub packets_count : ℕ
  pub zc_notifications : ℕ
  pub errors : ℕ

-- `num_threads` blocks of counters lie in the shared mapping.
pub record StatsCollector : Type 0 where
  pub num_threads : ℕ
  pub interval_sec : ℕ
  pub shared_stats : List ThreadStats

abbrev pub no_stats : ThreadStats
no_stats = record { bytes_transferred = 0; packets_count = 0; zc_notifications = 0; errors = 0 }

abbrev pub zeros : ℕ → List ThreadStats
zeros zero = []
zeros (suc n) = no_stats ∷ zeros n

-- The constructor, where the mapping succeeds (else it throws).
unfoldable pub new_collector : ℕ → ℕ → StatsCollector
new_collector num_threads interval_sec = record {
  num_threads = num_threads;
  interval_sec = interval_sec;
  shared_stats = zeros num_threads;
}

pub data Counter : Type 0 where
  bytes_transferred packets_count zc_notifications errors : Counter

-- One atomic addition to a counter of a thread.
pub record Addition : Type 0 where
  pub thread_id : ℕ
  pub counter : Counter
  pub amount : ℕ

unfoldable pub bump : Counter → ℕ → ThreadStats → ThreadStats
bump bytes_transferred n s = record s { bytes_transferred = u64 (s.bytes_transferred + n) }
bump packets_count n s = record s { packets_count = u64 (s.packets_count + n) }
bump zc_notifications n s = record s { zc_notifications = u64 (s.zc_notifications + n) }
bump errors n s = record s { errors = u64 (s.errors + n) }

unfoldable pub bump_at : List ThreadStats → ℕ → Counter → ℕ → List ThreadStats
bump_at [] i c n = []
bump_at (s ∷ ss) zero c n = bump c n s ∷ ss
bump_at (s ∷ ss) (suc i) c n = s ∷ bump_at ss i c n

unfoldable pub fetch_add : StatsCollector → Addition → StatsCollector
fetch_add s a = record s { shared_stats = bump_at s.shared_stats a.thread_id a.counter a.amount }

unfoldable pub add_bytes : StatsCollector → ℕ → ℕ → ℕ → StatsCollector
unfolding fetch_add
add_bytes s thread_id bytes packets =
    if ltb thread_id s.num_threads
    then fetch_add
        (fetch_add s
          (record { thread_id = thread_id; counter = Counter.bytes_transferred; amount = bytes }))
        (record { thread_id = thread_id; counter = Counter.packets_count; amount = packets })
    else s

unfoldable pub add_zc_notification : StatsCollector → ℕ → StatsCollector
unfolding fetch_add
add_zc_notification s thread_id =
    if ltb thread_id s.num_threads
    then fetch_add s
        (record { thread_id = thread_id; counter = Counter.zc_notifications; amount = 1 })
    else s

unfoldable pub add_error : StatsCollector → ℕ → StatsCollector
unfolding fetch_add
add_error s thread_id =
    if ltb thread_id s.num_threads
    then fetch_add s (record { thread_id = thread_id; counter = Counter.errors; amount = 1 })
    else s
