-- ===== src/Worker/Client/Totals.antt =====
-- src/worker.cpp and src/stats.cpp: what the summary shows of the completions of a client.
use uring_perf.Base.{ℕ, ◌+◌, ◌<◌, ◌≡◌, refl, ap, ◌∙◌, List, [], ◌∷◌, ◌++◌, some, arith, length, u64}
use uring_perf.Engine.Reap.{Cqe}
use uring_perf.Stats.Counters.{Counter, new_collector}
use uring_perf.Stats.Interleaving.{Count, count_calls}
use uring_perf.Stats.Totals.{Totals, tally, totals, totals-count_calls}
use uring_perf.Worker.Client.{Client, Completion, handle_all}
use uring_perf.Worker.Client.Accounting.{
  Outcome, outcome, report, reports, measure_one, measure, handle_all-reports, ignored,
}

pub tally-append :
    (c : Counter) (n : ℕ) (xs ys : List Count) → tally c n (xs ++ ys) ≡ tally c n xs + tally c n ys
tally-append c n [] ys = omega arith
tally-append c n (x ∷ xs) ys = omega (arith, tally-append c n xs ys)

pub tally-report :
    (c : Counter) (n t : ℕ) (o : Outcome) → t < n → tally c n (report t o) ≡ measure_one c o
tally-report Counter.errors n t ignored h = refl
tally-report c n t o h = ground arith

tally-reports :
    (c : Counter) (n t : ℕ) (f : Cqe → Outcome) (ds : List Completion)
    → t < n
    → tally c n (reports f t ds) ≡ measure c f ds
unfolding reports measure
tally-reports c n t f [] h = refl
tally-reports c n t f (d ∷ ds) h = omega (
  arith,
  tally-append c n (report t (f d.cqe)) (reports f t ds),
  tally-report c n t (f d.cqe) h,
  tally-reports c n t f ds h,
)

-- The summary that a list of completions is to come to.
abbrev pub summary : (Cqe → Outcome) → List Completion → Totals
summary f ds = record {
  total_bytes = u64 (measure Counter.bytes_transferred f ds);
  total_packets = u64 (measure Counter.packets_count f ds);
  total_zc = u64 (measure Counter.zc_notifications f ds);
  total_errors = u64 (measure Counter.errors f ds);
}

pub totals-reports :
    (n interval t : ℕ) (f : Cqe → Outcome) (ds : List Completion)
    → t < n
    → totals (count_calls (new_collector n interval) (reports f t ds)) ≡ summary f ds
totals-reports n interval t f ds h = totals-count_calls n interval (reports f t ds) ∙ (λ i. record {
  total_bytes = u64 (tally-reports Counter.bytes_transferred n t f ds h i);
  total_packets = u64 (tally-reports Counter.packets_count n t f ds h i);
  total_zc = u64 (tally-reports Counter.zc_notifications n t f ds h i);
  total_errors = u64 (tally-reports Counter.errors n t f ds h i);
})

-- For a client with a thread number in range and new counters, however the completions come that it
-- handles without a fault, the summary shows exactly what the kernel has
-- answered: the bytes of the positive results with their packets, a notification for each one that
-- came, and an error for each negative result but EAGAIN (modulo 2 ^ 64). Each completion is marked
-- seen once.
handle_all-totals :
    (c : Client) (ds : List Completion) (n interval : ℕ) {c' : Client}
    → c.stats ≡ new_collector n interval
    → c.thread_id < n
    → handle_all c ds ≡ some c'
    → (totals c'.stats ≡ record {
      total_bytes = u64 (measure Counter.bytes_transferred (outcome c.config) ds);
      total_packets = u64 (measure Counter.packets_count (outcome c.config) ds);
      total_zc = u64 (measure Counter.zc_notifications (outcome c.config) ds);
      total_errors = u64 (measure Counter.errors (outcome c.config) ds);
    })
      × (c'.engine.seen ≡ c.engine.seen + length ds)
handle_all-totals c ds n interval {c'} fresh t h =
    let (s, seen) = handle_all-reports c ds h in
    (
      ap totals (s ∙ ap (λ x. count_calls x (reports (outcome c.config) c.thread_id ds)) fresh)
          ∙ totals-reports n interval c.thread_id (outcome c.config) ds t,
      seen,
    )
