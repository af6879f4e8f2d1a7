-- ===== src/Worker/Server/Accounting.antt =====
-- src/worker.cpp: what a run of `run_server` counts.
use uring_perf.Base.{
  ℕ, ◌+◌, ◌<◌, ◌≡◌, refl, ap, sym, ◌∙◌, List, [], ◌∷◌, ◌++◌, if◌then◌else◌, arith, u64,
  append_assoc, append-nil,
}
use uring_perf.Engine.Reap.{reap_completions}
use uring_perf.Stats.Counters.{Counter, new_collector}
use uring_perf.Stats.Interleaving.{Count, count_calls}
use uring_perf.Stats.Totals.{Totals, tally, totals, totals-count_calls}
use uring_perf.Worker.Client.Accounting.{Outcome, report, measure_one, count_calls-append}
use uring_perf.Worker.Client.Totals.{tally-append, tally-report}
use uring_perf.Worker.Server.{Server, Event, Served, served, faults, hangs, sweep}
use uring_perf.Worker.Server.Handlers.{serve, serve_all}
use uring_perf.Worker.Server.Loop.{Pass, serve_harvest}
use uring_perf.Worker.Server.Counting.{counted_in, Same, Counts}
use uring_perf.Worker.Server.Counting.Serving.{CountsOn, serve-Counts}

abbrev pub report_all : ℕ → List Outcome → List Count
report_all t [] = []
report_all t (o ∷ os) = report t o ++ report_all t os

abbrev pub measure_all : Counter → List Outcome → ℕ
measure_all c [] = 0
measure_all c (o ∷ os) = measure_one c o + measure_all c os

-- The summary that a list of outcomes is to come to.
abbrev pub summary_of : List Outcome → Totals
summary_of os = record {
  total_bytes = u64 (measure_all Counter.bytes_transferred os);
  total_packets = u64 (measure_all Counter.packets_count os);
  total_zc = u64 (measure_all Counter.zc_notifications os);
  total_errors = u64 (measure_all Counter.errors os);
}

tally-report_all :
    (c : Counter) (n t : ℕ) (os : List Outcome)
    → t < n
    → tally c n (report_all t os) ≡ measure_all c os
tally-report_all c n t [] h = refl
tally-report_all c n t (o ∷ os) h = omega (
  arith,
  tally-append c n (report t o) (report_all t os),
  tally-report c n t o h,
  tally-report_all c n t os h,
)

pub totals-report_all :
    (n interval t : ℕ) (os : List Outcome)
    → t < n
    → totals (count_calls (new_collector n interval) (report_all t os)) ≡ summary_of os
totals-report_all n interval t os h = totals-count_calls n interval (report_all t os) ∙ (λ i.
    record {
      total_bytes = u64 (tally-report_all Counter.bytes_transferred n t os h i);
      total_packets = u64 (tally-report_all Counter.packets_count n t os h i);
      total_zc = u64 (tally-report_all Counter.zc_notifications n t os h i);
      total_errors = u64 (tally-report_all Counter.errors n t os h i);
    })

pub report_all-append :
    (t : ℕ) (xs ys : List Outcome) → report_all t (xs ++ ys) ≡ report_all t xs ++ report_all t ys
report_all-append t [] ys = refl
report_all-append t (x ∷ xs) ys =
    ap (λ l. report t x ++ l) (report_all-append t xs ys)
    ∙ sym (append_assoc (report t x) (report_all t xs) (report_all t ys))

-- What the completions are to be counted as, each in the state that it is dealt with in.
abbrev pub outcomes : (ℕ → ℕ) → Served → List Event → List Outcome
outcomes alloc o [] = []
outcomes alloc faults (ev ∷ evs) = []
outcomes alloc hangs (ev ∷ evs) = []
outcomes alloc (served s) (ev ∷ evs) = counted_in s ev ∷ outcomes alloc (serve alloc s ev) evs

-- The same for the turns of a run.
abbrev pub run_outcomes : (ℕ → ℕ) → Served → List Pass → List Outcome
run_outcomes alloc o [] = []
run_outcomes alloc faults (t ∷ ts) = []
run_outcomes alloc hangs (t ∷ ts) = []
run_outcomes alloc (served s) (t ∷ ts) =
    let swept = sweep t.now s in
    let now = reap_completions t.ready swept.config.in_flight in
    let later = run_outcomes alloc (serve_harvest alloc swept now) ts in
    if t.stop then [] else outcomes alloc (served swept) now ++ later

-- A step that counts some outcomes, where it comes to a state.
abbrev pub CountsAll : Server → List Outcome → Served → Type 0
CountsAll s os (served t) = Same s t × (t.stats ≡ count_calls s.stats (report_all s.thread_id os))
CountsAll s os faults = Unit
CountsAll s os hangs = Unit

counted_both :
    (s t u : Server) (os ps : List Outcome)
    → CountsAll s os (served t)
    → CountsAll t ps (served u)
    → CountsAll s (os ++ ps) (served u)
counted_both s t u os ps ((a, b, c, x), h) ((d, e, f, y), g) = (
  (d ∙ a, e ∙ b, f ∙ c, y ∙ x),
  g
      ∙ ap (λ x. count_calls x (report_all t.thread_id ps)) h
      ∙ ap (λ i. count_calls (count_calls s.stats (report_all s.thread_id os)) (report_all i ps)) b
      ∙ sym (count_calls-append s.stats (report_all s.thread_id os) (report_all s.thread_id ps))
      ∙ ap (count_calls s.stats) (sym (report_all-append s.thread_id os ps)),
)

pub CountsAll-append :
    (s t : Server) (os ps : List Outcome) (o : Served)
    → CountsAll s os (served t)
    → CountsAll t ps o
    → CountsAll s (os ++ ps) o
CountsAll-append s t os ps (served u) h k = counted_both s t u os ps h k
CountsAll-append s t os ps faults h k = tt
CountsAll-append s t os ps hangs h k = tt

unfoldable pub serve_on : (ℕ → ℕ) → List Event → Served → Served
serve_on alloc evs (served s) = serve_all alloc s evs
serve_on alloc evs faults = faults
serve_on alloc evs hangs = hangs

CountsAll-one : (s t : Server) (x : Outcome) → Counts s x t → CountsAll s (x ∷ []) (served t)
CountsAll-one s t x (same, h) =
    (same, h ∙ ap (count_calls s.stats) (sym (append-nil (report s.thread_id x))))

pub serve_on-CountsAll :
    (alloc : ℕ → ℕ) (s : Server) (x : Outcome) (o : Served) (evs : List Event)
    → CountsOn s x o
    → CountsAll s (x ∷ outcomes alloc o evs) (serve_on alloc evs o)
unfolding serve_on serve_all
serve_on-CountsAll alloc s x faults [] h = tt
serve_on-CountsAll alloc s x hangs [] h = tt
serve_on-CountsAll alloc s x faults (ev ∷ evs) h = tt
serve_on-CountsAll alloc s x hangs (ev ∷ evs) h = tt
serve_on-CountsAll alloc s x (served t) [] h = CountsAll-one s t x h
serve_on-CountsAll alloc s x (served t) (ev ∷ evs) h =
    CountsAll-append s t (x ∷ []) (counted_in t ev ∷ outcomes alloc (serve alloc t ev) evs)
      (serve_on alloc evs (serve alloc t ev)) (CountsAll-one s t x h)
      (serve_on-CountsAll alloc t (counted_in t ev) (serve alloc t ev) evs
        (serve-Counts alloc t ev))
