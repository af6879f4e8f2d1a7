-- ===== src/Stats/Totals.antt =====
-- src/stats.cpp: the sums that the reporter and the summary print, against what was counted.
use uring_perf.Base.{
  ℕ, zero, suc, ◌+◌, ◌^◌, ◌<◌, ◌≡◌, refl, ap, List, [], ◌∷◌, ◌++◌, arith, ltb, if◌then◌else◌, u64,
  length, All,
}
use uring_perf.Stats.Counters.{
  ThreadStats, StatsCollector, Counter, Addition, zeros, new_collector, bump, bump_at, fetch_add,
}
use uring_perf.Stats.Interleaving.{
  Count, counts_bytes, counts_notification, counts_error, count_calls, additions_of, all_additions,
  fetch_adds, count_calls-fetch_adds,
}

abbrev pub read : Counter → ThreadStats → ℕ
read Counter.bytes_transferred s = s.bytes_transferred
read Counter.packets_count s = s.packets_count
read Counter.zc_notifications s = s.zc_notifications
read Counter.errors s = s.errors

-- The loop over the threads, for one of its sums.
unfoldable pub sum_from : Counter → ℕ → List ThreadStats → ℕ
sum_from c total [] = total
sum_from c total (s ∷ ss) = sum_from c (u64 (total + read c s)) ss

pub record Totals : Type 0 where
  pub total_bytes : ℕ
  pub total_packets : ℕ
  pub total_zc : ℕ
  pub total_errors : ℕ

-- The sums of `print_summary`; `reporter_loop` takes the first three in the same way.
unfoldable pub totals : StatsCollector → Totals
totals s = record {
  total_bytes = sum_from Counter.bytes_transferred 0 s.shared_stats;
  total_packets = sum_from Counter.packets_count 0 s.shared_stats;
  total_zc = sum_from Counter.zc_notifications 0 s.shared_stats;
  total_errors = sum_from Counter.errors 0 s.shared_stats;
}

-- The sum of a counter without wrapping.
abbrev plain : Counter → List ThreadStats → ℕ
plain c [] = 0
plain c (s ∷ ss) = read c s + plain c ss

sum_from-plain :
    (c : Counter) (total : ℕ) (ss : List ThreadStats)
    → total < 2 ^ 64
    → sum_from c total ss ≡ u64 (total + plain c ss)
unfolding sum_from
sum_from-plain c total [] h = omega arith
sum_from-plain c total (s ∷ ss) h = omega (arith, sum_from-plain c (u64 (total + read c s)) ss)

pub sum_from-lt :
    (c : Counter) (total : ℕ) (ss : List ThreadStats)
    → total < 2 ^ 64
    → sum_from c total ss < 2 ^ 64
sum_from-lt c total ss h = omega (arith, sum_from-plain c total ss h)

-- What an addition of n to the counter d adds to the sum of the counter c.
abbrev pub share : Counter → Counter → ℕ → ℕ
share Counter.bytes_transferred Counter.bytes_transferred n = n
share Counter.packets_count Counter.packets_count n = n
share Counter.zc_notifications Counter.zc_notifications n = n
share Counter.errors Counter.errors n = n
share _ _ n = 0

read-bump :
    (c d : Counter) (n : ℕ) (s : ThreadStats)
    → u64 (read c (bump d n s)) ≡ u64 (read c s + share c d n)
unfolding bump
read-bump Counter.bytes_transferred Counter.bytes_transferred n s = omega arith
read-bump c d n s = ground arith

plain-bump_at :
    (c d : Counter) (ss : List ThreadStats) (i n : ℕ)
    → i < length ss
    → u64 (plain c (bump_at ss i d n)) ≡ u64 (plain c ss + share c d n)
unfolding bump_at
plain-bump_at c d [] i n h = absurd (omega arith)
plain-bump_at c d (s ∷ ss) zero n h = omega (arith, read-bump c d n s)
plain-bump_at c d (s ∷ ss) (suc i) n h = omega (arith, plain-bump_at c d ss i n (omega arith))

length-bump_at :
    (ss : List ThreadStats) (i : ℕ) (d : Counter) (n : ℕ) → length (bump_at ss i d n) ≡ length ss
unfolding bump_at
length-bump_at [] i d n = refl
length-bump_at (s ∷ ss) zero d n = refl
length-bump_at (s ∷ ss) (suc i) d n = ap suc (length-bump_at ss i d n)

-- What the additions add to the sum of the counter c.
abbrev gain : Counter → List Addition → ℕ
gain c [] = 0
gain c (a ∷ xs) = share c a.counter a.amount + gain c xs

plain-fetch_adds :
    (c : Counter) (s : StatsCollector) (xs : List Addition)
    → All (λ a. a.thread_id < length s.shared_stats) xs
    → u64 (plain c (fetch_adds s xs).shared_stats) ≡ u64 (plain c s.shared_stats + gain c xs)
unfolding fetch_adds fetch_add
plain-fetch_adds c s [] h = omega arith
plain-fetch_adds c s (a ∷ xs) h = omega (
  arith,
  plain-fetch_adds c (fetch_add s a) xs (rw (same_length, fetch_add) h.1),
  plain-bump_at c a.counter s.shared_stats a.thread_id a.amount h.0,
)
  where
    same_length :
        length (bump_at s.shared_stats a.thread_id a.counter a.amount) ≡ length s.shared_stats
    same_length = length-bump_at s.shared_stats a.thread_id a.counter a.amount

-- The thread that a call names, and what it reports of a counter.
abbrev pub thread_of : Count → ℕ
thread_of (counts_bytes t bytes packets) = t
thread_of (counts_notification t) = t
thread_of (counts_error t) = t

abbrev pub worth : Counter → Count → ℕ
worth Counter.bytes_transferred (counts_bytes t bytes packets) = bytes
worth Counter.packets_count (counts_bytes t bytes packets) = packets
worth Counter.zc_notifications (counts_notification t) = 1
worth Counter.errors (counts_error t) = 1
worth _ _ = 0

-- What the calls report of a counter in all, where there are n threads.
abbrev pub tally : Counter → ℕ → List Count → ℕ
tally c n [] = 0
tally c n (x ∷ xs) = (if ltb (thread_of x) n then worth c x else 0) + tally c n xs

gain-append : (c : Counter) (xs ys : List Addition) → gain c (xs ++ ys) ≡ gain c xs + gain c ys
gain-append c [] ys = omega arith
gain-append c (x ∷ xs) ys = omega (arith, gain-append c xs ys)

gain-additions_of :
    (c : Counter) (n : ℕ) (x : Count)
    → gain c (additions_of n x) ≡ (if ltb (thread_of x) n then worth c x else 0)
unfolding additions_of
gain-additions_of Counter.bytes_transferred n (counts_bytes t bytes packets) = ground arith
gain-additions_of c n x = ground arith

gain-all_additions :
    (c : Counter) (n : ℕ) (xs : List Count) → gain c (all_additions n xs) ≡ tally c n xs
unfolding all_additions
gain-all_additions c n [] = refl
gain-all_additions c n (x ∷ xs) = omega (
  arith,
  gain-append c (additions_of n x) (all_additions n xs),
  gain-additions_of c n x,
  gain-all_additions c n xs,
)

InRange : ℕ → List Addition → Type 0
InRange n = All (λ a. a.thread_id < n)

InRange-append :
    (n : ℕ) (xs ys : List Addition) → InRange n xs → InRange n ys → InRange n (xs ++ ys)
unfolding InRange
InRange-append n [] ys p q = q
InRange-append n (x ∷ xs) ys p q = (p.0, InRange-append n xs ys p.1 q)

additions_of-InRange : (n : ℕ) (x : Count) → InRange n (additions_of n x)
unfolding InRange additions_of
additions_of-InRange n (counts_bytes t bytes packets) = ground arith
additions_of-InRange n (counts_notification t) = ground arith
additions_of-InRange n (counts_error t) = ground arith

all_additions-InRange : (n : ℕ) (xs : List Count) → InRange n (all_additions n xs)
unfolding all_additions
all_additions-InRange n [] = unfold InRange in tt
all_additions-InRange n (x ∷ xs) =
    InRange-append n (additions_of n x) (all_additions n xs) (additions_of-InRange n x)
      (all_additions-InRange n xs)

pub length-zeros : (n : ℕ) → length (zeros n) ≡ n
length-zeros zero = refl
length-zeros (suc n) = ap suc (length-zeros n)

plain-zeros : (c : Counter) (n : ℕ) → plain c (zeros n) ≡ 0
plain-zeros c zero = refl
plain-zeros c (suc n) = ground (arith, plain-zeros c n)

sum-count_calls :
    (c : Counter) (n interval : ℕ) (cs : List Count)
    → sum_from c 0 (count_calls (new_collector n interval) cs).shared_stats ≡ u64 (tally c n cs)
unfolding new_collector InRange
sum-count_calls c n interval cs =
    let s : StatsCollector = new_collector n interval in
    let xs = all_additions n cs in
    let fits : All (λ a. a.thread_id < length (zeros n)) xs =
      rw length-zeros (all_additions-InRange n cs) in
    omega (
      arith,
      ap (λ t. sum_from c 0 t.shared_stats) (count_calls-fetch_adds s cs),
      sum_from-plain c 0 (fetch_adds s xs).shared_stats (omega arith),
      plain-fetch_adds c s xs fits,
      plain-zeros c n,
      gain-all_additions c n cs,
    )

-- The summary shows what the workers have reported: each sum is the sum of all that the calls with a
-- thread number in range gave for that counter, modulo 2 ^ 64, and calls out of range count nothing.
pub totals-count_calls :
    (n interval : ℕ) (cs : List Count)
    → totals (count_calls (new_collector n interval) cs) ≡ record {
      total_bytes = u64 (tally Counter.bytes_transferred n cs);
      total_packets = u64 (tally Counter.packets_count n cs);
      total_zc = u64 (tally Counter.zc_notifications n cs);
      total_errors = u64 (tally Counter.errors n cs);
    }
unfolding totals
totals-count_calls n interval cs = λ i. record {
  total_bytes = sum-count_calls Counter.bytes_transferred n interval cs i;
  total_packets = sum-count_calls Counter.packets_count n interval cs i;
  total_zc = sum-count_calls Counter.zc_notifications n interval cs i;
  total_errors = sum-count_calls Counter.errors n interval cs i;
}
