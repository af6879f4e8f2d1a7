-- ===== src/Stats/Report.antt =====
-- src/stats.cpp: the reporter thread. Rates, which are floating-point numbers, are left out.
use uring_perf.Base.{
  ℕ, ◌+◌, ◌-◌, ◌%◌, ◌^◌, ◌<◌, ◌≡◌, Bool, List, [], ◌∷◌, arith, if◌then◌else◌, u64, Bool-cases, inl,
  inr,
}
use uring_perf.Stats.Counters.{StatsCollector, Counter}
use uring_perf.Stats.Totals.{sum_from, sum_from-lt}

-- What a line of the report says of an interval.
pub record Interval : Type 0 where
  pub interval_bytes : ℕ
  pub interval_packets : ℕ
  pub interval_zc : ℕ

-- A turn of the loop: whether `running_` still holds after the sleep, and the counters that are read.
pub record Tick : Type 0 where
  pub running : Bool
  pub counters : StatsCollector

-- a - b on uint64_t
abbrev pub sub64 : ℕ → ℕ → ℕ
sub64 a b = (a + 2 ^ 64 - b) % 2 ^ 64

-- `prev_bytes`, `prev_packets` and `prev_zc`.
pub record Previous : Type 0 where
  pub prev_bytes : ℕ
  pub prev_packets : ℕ
  pub prev_zc : ℕ

unfoldable pub current : StatsCollector → Previous
current s = record {
  prev_bytes = sum_from Counter.bytes_transferred 0 s.shared_stats;
  prev_packets = sum_from Counter.packets_count 0 s.shared_stats;
  prev_zc = sum_from Counter.zc_notifications 0 s.shared_stats;
}

unfoldable pub interval : Previous → Previous → Interval
interval now prev = record {
  interval_bytes = sub64 now.prev_bytes prev.prev_bytes;
  interval_packets = sub64 now.prev_packets prev.prev_packets;
  interval_zc = sub64 now.prev_zc prev.prev_zc;
}

-- The loop over the turns, with the lines that it prints.
unfoldable pub report_from : Previous → List Tick → List Interval
report_from prev [] = []
report_from prev (t ∷ ts) =
    let rest = report_from (current t.counters) ts in
    if t.running then interval (current t.counters) prev ∷ rest else []

unfoldable pub reporter_loop : List Tick → List Interval
reporter_loop = report_from (record { prev_bytes = 0; prev_packets = 0; prev_zc = 0 })

-- The counters at the last turn before the loop was told to stop.
unfoldable pub last_read : Previous → List Tick → Previous
last_read prev [] = prev
last_read prev (t ∷ ts) =
    let rest = last_read (current t.counters) ts in if t.running then rest else prev

abbrev pub sum_bytes : List Interval → ℕ
sum_bytes [] = 0
sum_bytes (i ∷ is) = i.interval_bytes + sum_bytes is

abbrev pub sum_packets : List Interval → ℕ
sum_packets [] = 0
sum_packets (i ∷ is) = i.interval_packets + sum_packets is

abbrev pub sum_zc : List Interval → ℕ
sum_zc [] = 0
sum_zc (i ∷ is) = i.interval_zc + sum_zc is

current-lt :
    (s : StatsCollector)
    → ((current s).prev_bytes < 2 ^ 64)
      × ((current s).prev_packets < 2 ^ 64)
      × ((current s).prev_zc < 2 ^ 64)
unfolding current
current-lt s = (
  sum_from-lt Counter.bytes_transferred 0 s.shared_stats (omega arith),
  sum_from-lt Counter.packets_count 0 s.shared_stats (omega arith),
  sum_from-lt Counter.zc_notifications 0 s.shared_stats (omega arith),
)

report_from-sums :
    (prev : Previous) (ts : List Tick)
    → prev.prev_bytes < 2 ^ 64
    → prev.prev_packets < 2 ^ 64
    → prev.prev_zc < 2 ^ 64
    → (u64 (prev.prev_bytes + sum_bytes (report_from prev ts)) ≡ (last_read prev ts).prev_bytes)
      × (u64 (prev.prev_packets + sum_packets (report_from prev ts))
          ≡ (last_read prev ts).prev_packets)
      × (u64 (prev.prev_zc + sum_zc (report_from prev ts)) ≡ (last_read prev ts).prev_zc)
unfolding report_from last_read interval
report_from-sums prev [] h k l = (omega arith, omega arith, omega arith)
report_from-sums prev (t ∷ ts) h k l =
    let (b, p, z) = current-lt t.counters in
    let (ih, ih', jh) = report_from-sums (current t.counters) ts b p z in
    elim (Bool-cases t.running) [
      | inl e ↦ (simp e (omega arith), simp e (omega arith), simp e (omega arith))
      | inr e ↦ (simp e (omega arith), simp e (omega arith), simp e (omega arith))
    ]

-- The lines of the report add up: modulo 2 ^ 64, the bytes, the packets and the zero-copy
-- notifications of all the intervals printed are the sums of the counters at the last turn that printed one.
pub reporter_loop-sums :
    (ts : List Tick)
    → let last = last_read (record { prev_bytes = 0; prev_packets = 0; prev_zc = 0 }) ts in
      (u64 (sum_bytes (reporter_loop ts)) ≡ last.prev_bytes)
      × (u64 (sum_packets (reporter_loop ts)) ≡ last.prev_packets)
      × (u64 (sum_zc (reporter_loop ts)) ≡ last.prev_zc)
unfolding reporter_loop
reporter_loop-sums ts =
    let (b, p, z) =
      report_from-sums (record { prev_bytes = 0; prev_packets = 0; prev_zc = 0 }) ts (omega arith)
        (omega arith) (omega arith) in
    (omega (arith, b), omega (arith, p), omega (arith, z))
