-- ===== src/Main/Leaving.antt =====
-- src/main.cpp: a process of `main` joins its threads and gives back what it has mapped.
use uring_perf.Base.{
  ℕ, ◌*◌, ◌≡◌, refl, ap, sym, subst, ◌∙◌, Bool, true, false, List, [], ◌∷◌, map, some, ◌==◌,
  if◌then◌else◌, arith, inl, inr, Bool-cases, ℤ,
}
use uring_perf.Config.Settings.{Config}
use uring_perf.Stats.Lifetime.{
  Collector, ThreadCall, map_shared, unmap_shared, begin_reporter, join_reporter,
  sizeof_thread_stats, construct_collector, start_reporting, stop_reporting, destroy_collector,
}
use uring_perf.Main.{
  Step, Forked, child, parent, each_worker, uses_processes, process_steps, threaded_steps, main,
  fork_workers,
}
use uring_perf.Main.Threads.{
  Process, set, start_worker, join_worker, take_step, take_steps, destroy_workers, who, leave,
  new_process, finished, with_collector, run_process,
}
use uring_perf.Main.Joining.{
  count, IsBalanced, Comes, join_worker-IsBalanced, join_worker-joinable, take_steps-append,
  all_begin, all_join, take_steps-waits, take_steps-opening, destroy_workers-idle,
}

-- The calls on the collector's means, newest first, in a process that ends.
abbrev pub calls_of : Forked → ℕ → ℕ → List ThreadCall
calls_of (child i) threads now = map_shared (sizeof_thread_stats * threads) ∷ []
calls_of (parent pids) threads now =
    unmap_shared (sizeof_thread_stats * threads)
    ∷ join_reporter
    ∷ begin_reporter now
    ∷ map_shared (sizeof_thread_stats * threads)
    ∷ []

-- The collector before its destructor.
abbrev before_end : Forked → Config → ℕ → Collector
before_end (child i) cfg now = record {
  num_threads = cfg.threads;
  interval_sec = cfg.interval_sec;
  shared_stats = true;
  running = false;
  reporter = false;
  start_time = 0;
  calls = map_shared (sizeof_thread_stats * cfg.threads) ∷ [];
}
before_end (parent pids) cfg now = record {
  num_threads = cfg.threads;
  interval_sec = cfg.interval_sec;
  shared_stats = true;
  running = false;
  reporter = false;
  start_time = now;
  calls = join_reporter ∷ begin_reporter now ∷ map_shared (sizeof_thread_stats * cfg.threads) ∷ [];
}

abbrev with_reporter : Config → ℕ → Collector
with_reporter cfg now = record {
  num_threads = cfg.threads;
  interval_sec = cfg.interval_sec;
  shared_stats = true;
  running = true;
  reporter = true;
  start_time = now;
  calls = begin_reporter now ∷ map_shared (sizeof_thread_stats * cfg.threads) ∷ [];
}

-- All threads of the workers are joined.
abbrev IsJoined : Process → Type 0
IsJoined p = IsBalanced p × ((k : ℕ) → p.joinable k ≡ false)

module _ (cfg : Config) (now : ℕ) where
  abbrev at_start : Process
  at_start = new_process (before_end (child 0) cfg now)

  abbrev reporting : Process
  reporting = new_process (with_reporter cfg now)

  stops :
      (q : Process)
      → q.collector ≡ with_reporter cfg now
      → stop_reporting q.collector ≡ before_end (parent []) cfg now
  unfolding stop_reporting
  stops q e = ap stop_reporting e

  threaded-IsJoined :
      Comes now
        (threaded_steps cfg)
        at_start
        λ q. IsJoined q × (q.collector ≡ before_end (parent []) cfg now)
  unfolding threaded_steps take_steps take_step start_reporting
  threaded-IsJoined =
      let (q, e, (v, same, idle)) =
        all_begin now cfg cfg.threads 0 reporting (λ k h. refl) (λ k. refl) in
      let (r, e', (w, same', done)) =
        all_join now cfg.threads 0 q (λ k h. absurd (omega (arith, h))) idle v in
      (
        record r { collector = stop_reporting r.collector },
        take_steps-append now (each_worker (λ j. Step.start j cfg) 0 cfg.threads) _ reporting q e
            ∙ take_steps-append now (each_worker Step.join 0 cfg.threads) _ q r e',
        ((w, done), stops r (same' ∙ same)),
      )

  process-IsJoined :
      (f : Forked)
      → Comes now
          (process_steps cfg f)
          at_start
          λ q. IsJoined q × (q.collector ≡ before_end f cfg now)
  unfolding process_steps take_steps take_step start_reporting start_worker join_worker
      stop_reporting
  process-IsJoined (child i) =
      let m : Process = record at_start {
        joinable = set at_start.joinable i true;
        begun = i ∷ [];
      } in
      (
        join_worker i m,
        refl,
        (
          (
            join_worker-IsBalanced i m (λ k. ground arith),
            λ k. elim (Bool-cases (k == i)) [
              | inl e ↦
                  subst (λ j. (join_worker i m).joinable j ≡ false)
                    (let at : i ≡ k = ground arith in at) (join_worker-joinable i m).0
              | inr e ↦ (join_worker-joinable i m).1 k (ground arith) ∙ ground arith
            ],
          ),
          (join_worker-joinable i m).2,
        ),
      )
  process-IsJoined (parent pids) = (
    new_process (before_end (parent pids) cfg now),
    take_steps-append now (map Step.waitpid pids) _ reporting reporting
        (take_steps-waits now pids reporting),
    (((λ k. refl), (λ k. refl)), refl),
  )

  if-IsJoined :
      (b : Bool) (xs ys : List Step) (f g : Forked)
      → (Comes now xs at_start λ q. IsJoined q × (q.collector ≡ before_end f cfg now))
      → (Comes now ys at_start λ q. IsJoined q × (q.collector ≡ before_end g cfg now))
      → Comes now
          (if b then xs else ys)
          at_start
          λ q. IsJoined q × (q.collector ≡ before_end (if b then f else g) cfg now)
  if-IsJoined true xs ys f g h k = h
  if-IsJoined false xs ys f g h k = k

  main-IsJoined :
      (forks : ℕ → ℤ)
      → Comes now
          (main cfg forks).1
          at_start
          λ q. IsJoined q × (q.collector ≡ before_end (who cfg forks) cfg now)
  unfolding main who
  main-IsJoined forks =
      let f = fork_workers forks 0 cfg.threads [] in
      let ys = if uses_processes cfg then process_steps cfg f else threaded_steps cfg in
      let (q, e, v) =
        if-IsJoined (uses_processes cfg) (process_steps cfg f) (threaded_steps cfg) f (parent [])
          (process-IsJoined f) threaded-IsJoined in
      (q, take_steps-opening now cfg ys at_start ∙ e, v)

  -- How a process leaves.
  abbrev Leaves : Forked → Process → Type 0
  Leaves f p =
      ((k : ℕ) → (p.joinable k ≡ false) × (count k p.begun ≡ count k p.joined))
      × (p.collector.reporter ≡ false)
      × (p.collector.calls ≡ calls_of f cfg.threads now)

  all_counted :
      (p : Process)
      → IsJoined p
      → (k : ℕ) → (p.joinable k ≡ false) × (count k p.begun ≡ count k p.joined)
  all_counted p (v, idle) k = (idle k, ground (arith, v k, idle k))

  leave-Leaves :
      (f : Forked) (p : Process)
      → IsJoined p
      → p.collector ≡ before_end f cfg now
      → Leaves f (leave cfg f p)
  unfolding leave destroy_collector stop_reporting
  leave-Leaves (child i) p v e = (all_counted p v, ap (λ c. c.reporter) e, ap (λ c. c.calls) e)
  leave-Leaves (parent pids) p v e =
      let same =
        if-same (uses_processes cfg) p (destroy_workers 0 cfg.threads p)
          (destroy_workers-idle cfg.threads 0 p v.1) in
      subst (λ q. Leaves (parent pids) (record q { collector = destroy_collector q.collector }))
        (sym same)
        (
          all_counted p v,
          ap (λ c. (destroy_collector c).reporter) e,
          ap (λ c. (destroy_collector c).calls) e,
        )
    where
      if-same : (b : Bool) (p q : Process) → q ≡ p → (if b then p else q) ≡ p
      if-same true p q h = refl
      if-same false p q h = h

-- Where the shared mapping is to be had, and whatever the answers of `fork`: no process of `main` begins
-- a thread in place of one that was not joined. When it ends, no thread is joinable, so that no
-- destructor ends the program, and each worker's thread was joined as often as it was begun. The
-- process that returns from `main` has begun the reporter once, at the time given, joined it once and
-- then unmapped the counters once; a child, which exits, has done none of these.
pub run_process-leaves :
    (cfg : Config) (forks : ℕ → ℤ) (now : ℕ)
    → (p : Process) × (run_process cfg forks true now ≡ some p)
      × ((k : ℕ) → (p.joinable k ≡ false) × (count k p.begun ≡ count k p.joined))
      × (p.collector.reporter ≡ false)
      × (p.collector.calls ≡ calls_of (who cfg forks) cfg.threads now)
unfolding run_process with_collector construct_collector finished
run_process-leaves cfg forks now =
    let (q, e, (joined, at_end)) = main-IsJoined cfg now forks in
    let (counted, idle, calls) = leave-Leaves cfg now (who cfg forks) q joined at_end in
    (leave cfg (who cfg forks) q, ap (finished cfg (who cfg forks)) e, counted, idle, calls)
