-- ===== src/Main/Forking.antt =====
-- src/main.cpp: the processes that `main` forks, seen together.
use uring_perf.Base.{
  ℕ, zero, suc, ◌+◌, ◌≤◌, ◌<◌, ◌≡◌, refl, sym, ap, ◌∙◌, Bool, true, false, List, [], ◌∷◌, ◌++◌, map,
  append_assoc, append-nil, ◌==◌, if◌then◌else◌, arith, Bool-cases, inl, inr, ℤ, pos, is_positive,
}
use uring_perf.Config.Settings.{Config}
use uring_perf.Main.{
  Step, stop_reporting, print_summary, waitpid, Forked, child, parent, in_child, fork_workers,
  process_steps, raise_limit, warn_of_zero_copy, uses_processes, main, summary_role_label,
}
use uring_perf.Main.Workers.{
  gather, starts, waits_for, gather-append, gather-opening, gather-pids, parent-gathers,
}

-- The children among n answers from the i-th on.
abbrev pub children : (ℕ → ℤ) → ℕ → ℕ → List ℤ
children answer i zero = []
children answer i (suc n) =
    let rest = children answer (i + 1) n in if is_positive (answer i) then answer i ∷ rest else rest

-- What the child of the k-th `fork` has seen, where its parent sees `answer`.
abbrev pub seen_by : (ℕ → ℤ) → ℕ → ℕ → ℤ
seen_by answer k i = if i == k then pos 0 else answer i

if-more :
    (b : Bool) (p : ℤ) (pids rest : List ℤ)
    → (if b then pids ++ (p ∷ []) else pids) ++ rest ≡ pids ++ (if b then p ∷ rest else rest)
if-more true p pids rest = append_assoc pids (p ∷ []) rest
if-more false p pids rest = refl

fork_workers-parent :
    (answer : ℕ → ℤ) (i n : ℕ) (pids : List ℤ)
    → ((k : ℕ) → in_child (answer k) ≡ false)
    → fork_workers answer i n pids ≡ parent (pids ++ children answer i n)
unfolding fork_workers
fork_workers-parent answer i zero pids h = ap parent (sym (append-nil pids))
fork_workers-parent answer i (suc n) pids h = rw (h i) (
    fork_workers-parent answer (i + 1) n
      (if is_positive (answer i) then pids ++ (answer i ∷ []) else pids) h
    ∙ ap parent (if-more (is_positive (answer i)) (answer i) pids (children answer (i + 1) n)))

in_child-if : (b : Bool) (a : ℤ) → in_child a ≡ false → in_child (if b then pos 0 else a) ≡ b
in_child-if true a h = refl
in_child-if false a h = h

fork_workers-child :
    (answer : ℕ → ℤ) (k i n : ℕ) (pids : List ℤ)
    → ((j : ℕ) → in_child (answer j) ≡ false)
    → i ≤ k
    → k < i + n
    → fork_workers (seen_by answer k) i n pids ≡ child k
unfolding fork_workers
fork_workers-child answer k i zero pids h low high = absurd (omega (arith, low, high))
fork_workers-child answer k i (suc n) pids h low high = elim (Bool-cases (i == k)) [
  | inl e ↦ rw (in_child-if (i == k) (answer i) (h i) ∙ e) (ap child (ground arith))
  | inr e ↦ rw (in_child-if (i == k) (answer i) (h i) ∙ e) (
      fork_workers-child answer k (i + 1) n
        (if is_positive (seen_by answer k i) then pids ++ (seen_by answer k i ∷ []) else pids) h
        (ground arith) (omega (arith, high)))
]

in_process {ℓ} :
    {A : Type ℓ} (f : Step → List A) (cfg : Config) (forks : ℕ → ℤ) (p : Forked)
    → f raise_limit ≡ []
    → f warn_of_zero_copy ≡ []
    → uses_processes cfg ≡ true
    → fork_workers forks 0 cfg.threads [] ≡ p
    → gather f (main cfg forks).1 ≡ gather f (process_steps cfg p)
unfolding main
in_process f cfg forks p raised warned many e = rw many (
    gather-opening f cfg (process_steps cfg (fork_workers forks 0 cfg.threads [])) raised warned
    ∙ ap (λ q. gather f (process_steps cfg q)) e)

process_steps-parent :
    (cfg : Config) (pids : List ℤ)
    → (gather starts (process_steps cfg (parent pids)) ≡ [])
      × (gather waits_for (process_steps cfg (parent pids)) ≡ pids)
unfolding process_steps
process_steps-parent cfg pids = (
  parent-gathers cfg starts pids (λ p. refl) refl,
  gather-append waits_for (map waitpid pids)
        (stop_reporting ∷ print_summary (summary_role_label cfg) ∷ [])
      ∙ rw (gather-pids pids) (append-nil pids),
)

process_steps-child : (cfg : Config) (k : ℕ) → gather starts (process_steps cfg (child k)) ≡ k ∷ []
unfolding process_steps
process_steps-child cfg k = refl

-- With processes, where no `fork` answers the parent with 0: the parent starts no worker and waits
-- for its children, each once and in order, also past a `fork` that failed; and the child of the
-- k-th `fork`, for every k below the number of workers, starts the worker k and no other.
pub main-shares_out :
    (cfg : Config) (answer : ℕ → ℤ) (k : ℕ)
    → uses_processes cfg ≡ true
    → ((j : ℕ) → in_child (answer j) ≡ false)
    → k < cfg.threads
    → (gather starts (main cfg answer).1 ≡ [])
      × (gather waits_for (main cfg answer).1 ≡ children answer 0 cfg.threads)
      × (gather starts (main cfg (seen_by answer k)).1 ≡ k ∷ [])
main-shares_out cfg answer k many h small =
    let (none_started, waited) = process_steps-parent cfg (children answer 0 cfg.threads) in
    let forked = fork_workers-parent answer 0 cfg.threads [] h in
    (
      in_process {0} starts cfg answer _ refl refl many forked ∙ none_started,
      in_process {0} waits_for cfg answer _ refl refl many forked ∙ waited,
      in_process {0} starts cfg (seen_by answer k) (child k) refl refl many
            (fork_workers-child answer k 0 cfg.threads [] h (omega arith) (omega (arith, small)))
          ∙ process_steps-child cfg k,
    )
