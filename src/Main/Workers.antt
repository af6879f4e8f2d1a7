-- ===== src/Main/Workers.antt =====
-- src/main.cpp: which workers a process starts, and what they count in.
use uring_perf.Base.{
  ℕ, zero, suc, ◌+◌, ◌≤◌, ◌<◌, ◌≡◌, ◌≢◌, refl, sym, ap, ◌∙◌, Bool, true, false, List, [], ◌∷◌, ◌++◌,
  map, append_assoc, append-nil, subst, if◌then◌else◌, arith, ℤ, length, All,
}
use uring_perf.Config.Settings.{Config}
use uring_perf.Stats.Counters.{new_collector}
use uring_perf.Stats.Totals.{length-zeros}
use uring_perf.Main.{
  Step, stop_reporting, start, wait_until_stop, join, waitpid, print_summary, Forked, child, parent,
  in_child, fork_workers, process_steps, opening, warns_of_zero_copy, raise_limit,
  warn_of_zero_copy, each_worker, threaded_steps, uses_processes, main, summary_role_label,
}

-- What the steps add up to, each by `f`.
abbrev pub gather {ℓ} : {A : Type ℓ} → (Step → List A) → List Step → List A
gather f [] = []
gather f (s ∷ ss) = f s ++ gather f ss

-- The worker that a step starts.
abbrev pub starts : Step → List ℕ
starts (start i cfg) = i ∷ []
starts step = []

-- The worker that a step waits for.
abbrev pub joins : Step → List ℕ
joins (join i) = i ∷ []
joins step = []

-- The child that a step waits for.
abbrev pub waits_for : Step → List ℤ
waits_for (waitpid p) = p ∷ []
waits_for step = []

-- n numbers from i on.
abbrev pub numbers : ℕ → ℕ → List ℕ
numbers i zero = []
numbers i (suc n) = i ∷ numbers (i + 1) n

pub gather-append {ℓ} :
    {A : Type ℓ} (f : Step → List A) (xs ys : List Step)
    → gather f (xs ++ ys) ≡ gather f xs ++ gather f ys
gather-append f [] ys = refl
gather-append f (x ∷ xs) ys =
    ap (λ l. f x ++ l) (gather-append f xs ys)
    ∙ sym (append_assoc (f x) (gather f xs) (gather f ys))

gather-each_worker :
    (f : Step → List ℕ) (act : ℕ → Step) (i n : ℕ)
    → ((k : ℕ) → f (act k) ≡ k ∷ [])
    → gather f (each_worker act i n) ≡ numbers i n
unfolding each_worker
gather-each_worker f act i zero h = refl
gather-each_worker f act i (suc n) h =
    rw (h i) (ap (λ l. i ∷ l) (gather-each_worker f act (i + 1) n h))

gather-each_other {ℓ} :
    {A : Type ℓ} (f : Step → List A) (act : ℕ → Step) (i n : ℕ)
    → ((k : ℕ) → f (act k) ≡ [])
    → gather f (each_worker act i n) ≡ []
unfolding each_worker
gather-each_other f act i zero h = refl
gather-each_other f act i (suc n) h = rw (h i) (gather-each_other f act (i + 1) n h)

pub gather-pids : (pids : List ℤ) → gather waits_for (map waitpid pids) ≡ pids
gather-pids [] = refl
gather-pids (p ∷ pids) = ap (λ l. p ∷ l) (gather-pids pids)

gather-no_pids :
    (f : Step → List ℕ) (pids : List ℤ)
    → ((p : ℤ) → f (waitpid p) ≡ [])
    → gather f (map waitpid pids) ≡ []
gather-no_pids f [] h = refl
gather-no_pids f (p ∷ pids) h = rw (h p) (gather-no_pids f pids h)

-- No number stands twice.
abbrev pub IsDistinct : List ℕ → Type 0
IsDistinct [] = Unit
IsDistinct (k ∷ ks) = All (λ j. k ≢ j) ks × IsDistinct ks

-- Every worker that the process starts it joins, each is below n, and no two are the same.
abbrev pub IsTidy : ℕ → List Step → Type 0
IsTidy n steps =
    (gather starts steps ≡ gather joins steps)
    × All (λ i. i < n) (gather starts steps)
    × IsDistinct (gather starts steps)

threaded_steps-starts : (cfg : Config) → gather starts (threaded_steps cfg) ≡ numbers 0 cfg.threads
unfolding threaded_steps
threaded_steps-starts cfg =
    rw
      (
        gather-append starts (each_worker (λ i. start i cfg) 0 cfg.threads) (
            wait_until_stop cfg
            ∷ (each_worker join 0 cfg.threads
                ++ (stop_reporting ∷ print_summary (summary_role_label cfg) ∷ []))),
        gather-each_worker starts (λ i. start i cfg) 0 cfg.threads (λ k. refl),
        gather-append starts (each_worker join 0 cfg.threads)
            (stop_reporting ∷ print_summary (summary_role_label cfg) ∷ []),
        gather-each_other starts join 0 cfg.threads (λ k. refl),
      )
      (append-nil (numbers 0 cfg.threads))

threaded_steps-joins : (cfg : Config) → gather joins (threaded_steps cfg) ≡ numbers 0 cfg.threads
unfolding threaded_steps
threaded_steps-joins cfg =
    rw
      (
        gather-append joins (each_worker (λ i. start i cfg) 0 cfg.threads) (
            wait_until_stop cfg
            ∷ (each_worker join 0 cfg.threads
                ++ (stop_reporting ∷ print_summary (summary_role_label cfg) ∷ []))),
        gather-each_other joins (λ i. start i cfg) 0 cfg.threads (λ k. refl),
        gather-append joins (each_worker join 0 cfg.threads)
            (stop_reporting ∷ print_summary (summary_role_label cfg) ∷ []),
        gather-each_worker joins join 0 cfg.threads (λ k. refl),
      )
      (append-nil (numbers 0 cfg.threads))

numbers-below : (i n m : ℕ) → i + n ≤ m → All (λ k. k < m) (numbers i n)
numbers-below i zero m h = tt
numbers-below i (suc n) m h = (omega (arith, h), numbers-below (i + 1) n m (omega (arith, h)))

numbers-apart : (i n k : ℕ) → k < i → All (λ j. k ≢ j) (numbers i n)
numbers-apart i zero k h = tt
numbers-apart i (suc n) k h = (omega (arith, h), numbers-apart (i + 1) n k (omega (arith, h)))

numbers-IsDistinct : (i n : ℕ) → IsDistinct (numbers i n)
numbers-IsDistinct i zero = tt
numbers-IsDistinct i (suc n) =
    (numbers-apart (i + 1) n i (omega arith), numbers-IsDistinct (i + 1) n)

threaded_steps-IsTidy : (cfg : Config) → IsTidy cfg.threads (threaded_steps cfg)
threaded_steps-IsTidy cfg = (
  threaded_steps-starts cfg ∙ sym (threaded_steps-joins cfg),
  subst (All (λ k. k < cfg.threads)) (sym (threaded_steps-starts cfg))
      (numbers-below 0 cfg.threads cfg.threads (omega arith)),
  subst IsDistinct (sym (threaded_steps-starts cfg)) (numbers-IsDistinct 0 cfg.threads),
)

pub parent-gathers :
    (cfg : Config) (f : Step → List ℕ) (pids : List ℤ)
    → ((p : ℤ) → f (waitpid p) ≡ [])
    → gather f (stop_reporting ∷ print_summary (summary_role_label cfg) ∷ []) ≡ []
    → gather f (map waitpid pids ++ (stop_reporting ∷ print_summary (summary_role_label cfg) ∷ []))
      ≡ []
parent-gathers cfg f pids h e =
    gather-append f (map waitpid pids)
      (stop_reporting ∷ print_summary (summary_role_label cfg) ∷ [])
    ∙ rw (gather-no_pids f pids h) e

-- The worker of a child is below m.
abbrev pub IsBelow : ℕ → Forked → Type 0
IsBelow m (child k) = k < m
IsBelow m (parent pids) = Unit

if-IsBelow :
    (b : Bool) (m k : ℕ) (rest : Forked)
    → k < m
    → IsBelow m rest
    → IsBelow m (if b then child k else rest)
if-IsBelow true m k rest h r = h
if-IsBelow false m k rest h r = r

fork_workers-IsBelow :
    (forks : ℕ → ℤ) (i n m : ℕ) (pids : List ℤ)
    → i + n ≤ m
    → IsBelow m (fork_workers forks i n pids)
unfolding fork_workers
fork_workers-IsBelow forks i zero m pids h = tt
fork_workers-IsBelow forks i (suc n) m pids h =
    if-IsBelow (in_child (forks i)) m i _ (omega (arith, h))
      (fork_workers-IsBelow forks (i + 1) n m _ (omega (arith, h)))

process_steps-IsTidy :
    (cfg : Config) (m : ℕ) (p : Forked) → IsBelow m p → IsTidy m (process_steps cfg p)
unfolding process_steps
process_steps-IsTidy cfg m (child k) h = (refl, (h, tt), (tt, tt))
process_steps-IsTidy cfg m (parent pids) h =
    let none_started = parent-gathers cfg starts pids (λ p. refl) refl in
    (
      none_started ∙ sym (parent-gathers cfg joins pids (λ p. refl) refl),
      subst (All (λ k. k < m)) (sym none_started) tt,
      subst IsDistinct (sym none_started) tt,
    )

if-IsTidy :
    (b : Bool) (m : ℕ) (xs ys : List Step)
    → IsTidy m xs
    → IsTidy m ys
    → IsTidy m (if b then xs else ys)
if-IsTidy true m xs ys h k = h
if-IsTidy false m xs ys h k = k

pub gather-opening {ℓ} :
    {A : Type ℓ} (f : Step → List A) (cfg : Config) (ys : List Step)
    → f raise_limit ≡ []
    → f warn_of_zero_copy ≡ []
    → gather f (opening cfg ++ ys) ≡ gather f ys
unfolding opening
gather-opening f cfg ys raised warned = rw raised (warning (warns_of_zero_copy cfg))
  where
    warning : (b : Bool) → gather f ((if b then warn_of_zero_copy ∷ [] else []) ++ ys) ≡ gather f ys
    warning true = rw warned refl
    warning false = refl

opening-IsTidy :
    (cfg : Config) (m : ℕ) (ys : List Step) → IsTidy m ys → IsTidy m (opening cfg ++ ys)
opening-IsTidy cfg m ys (same, below, apart) = (
  gather-opening {0} starts cfg ys refl refl
      ∙ same
      ∙ sym (gather-opening {0} joins cfg ys refl refl),
  subst (All (λ k. k < m)) (sym (gather-opening {0} starts cfg ys refl refl)) below,
  subst IsDistinct (sym (gather-opening {0} starts cfg ys refl refl)) apart,
)

-- Whatever the answers of `fork`, a process joins each worker that it starts, in the same order, and
-- the workers that it starts have different numbers, each that of a block of counters in the
-- collector.
pub main-IsTidy :
    (cfg : Config) (forks : ℕ → ℤ)
    → IsTidy (length (main cfg forks).0.shared_stats) (main cfg forks).1
unfolding main new_collector
main-IsTidy cfg forks = rw (length-zeros cfg.threads) (
    opening-IsTidy cfg cfg.threads _ (
      if-IsTidy (uses_processes cfg) cfg.threads _ _
        (process_steps-IsTidy cfg cfg.threads (fork_workers forks 0 cfg.threads [])
          (fork_workers-IsBelow forks 0 cfg.threads cfg.threads [] (omega arith)))
        (threaded_steps-IsTidy cfg)))
