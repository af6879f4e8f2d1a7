-- ===== src/Stats/Tests.antt =====
-- Counters at work, and the theorems at inputs that meet their hypotheses.
use mathlib.Core.List.Perm
use uring_perf.Base.{◌≡◌, true, false, List, [], ◌∷◌, u64}
use uring_perf.Stats.Counters.{Counter, Addition, new_collector}
use uring_perf.Stats.Interleaving.{
  Count, counts_bytes, counts_error, count_calls, addition, additions_of, all_additions, fetch_adds,
  count_calls-perm,
}
use uring_perf.Stats.Totals.{totals, totals-count_calls}
use uring_perf.Stats.Report.{
  Tick, last_read, reporter_loop, sum_bytes, sum_packets, sum_zc, reporter_loop-sums,
}

-- Two threads, and a call that names a third.
abbrev two_threads : List Count
two_threads = counts_bytes 0 100 1 ∷ counts_error 1 ∷ counts_bytes 7 50 1 ∷ counts_bytes 1 30 2 ∷ []

totals-count_calls_example :
    totals (count_calls (new_collector 2 1) two_threads)
    ≡ record { total_bytes = 130; total_packets = 3; total_zc = 0; total_errors = 1 }
totals-count_calls_example = totals-count_calls 2 1 two_threads

-- The second addition of the first call comes after the call of the other thread.
abbrev interleaved : List Addition
interleaved =
    addition 0 Counter.bytes_transferred 100
    ∷ addition 1 Counter.errors 1
    ∷ addition 0 Counter.packets_count 1
    ∷ []

count_calls-perm_example :
    fetch_adds (new_collector 2 1) interleaved
    ≡ count_calls (new_collector 2 1) (counts_bytes 0 100 1 ∷ counts_error 1 ∷ [])
unfolding all_additions additions_of new_collector
count_calls-perm_example =
    count_calls-perm (new_collector 2 1) (counts_bytes 0 100 1 ∷ counts_error 1 ∷ []) interleaved (
      Perm.cons (addition 0 Counter.bytes_transferred 100)
        (Perm.swap (addition 0 Counter.packets_count 1) (addition 1 Counter.errors 1) []))

abbrev ticks : List Tick
ticks =
    record { running = true; counters = new_collector 2 1 }
    ∷ record { running = true; counters = count_calls (new_collector 2 1) two_threads }
    ∷ record { running = false; counters = new_collector 2 1 }
    ∷ []

reporter_loop-sums_example :
    let last = last_read (record { prev_bytes = 0; prev_packets = 0; prev_zc = 0 }) ticks in
    (u64 (sum_bytes (reporter_loop ticks)) ≡ last.prev_bytes)
    × (u64 (sum_packets (reporter_loop ticks)) ≡ last.prev_packets)
    × (u64 (sum_zc (reporter_loop ticks)) ≡ last.prev_zc)
reporter_loop-sums_example = reporter_loop-sums ticks
