-- ===== src/Main/Tests.antt =====
-- A program of three workers, in threads and in processes, and the theorems at it.
use uring_perf.Base.{
  ℕ, zero, suc, ◌+◌, ◌*◌, ◌^◌, ◌≤◌, ◌≡◌, refl, some, true, false, [], ◌∷◌, arith, ℤ, pos, negsuc,
  length,
}
use uring_perf.Config.Settings.{Config, default_config}
use uring_perf.Main.{Turn, timed_out, wait_from, run_until_stop, in_child, fork_workers, main}
use uring_perf.Main.Waiting.{EndsAt, run_until_stop-ends}
use uring_perf.Main.Workers.{gather, starts, waits_for, IsTidy, main-IsTidy}
use uring_perf.Main.Threads.{Process, who, run_process}
use uring_perf.Main.Joining.{count}
use uring_perf.Main.Leaving.{run_process-leaves}
use uring_perf.Stats.Lifetime.{map_shared}
use uring_perf.Main.Forking.{seen_by, main-shares_out}

abbrev brief : Config
brief = record default_config { duration_sec = 1; threads = 3; multi_process = true }

-- The sleeps last 150 ms, and nothing sets the signal.
abbrev slow_turns : ℕ → Turn
slow_turns k = record { stop = false; now = 700 + (k + 1) * 150000000 }

times_out_at_six : run_until_stop brief 700 slow_turns 11 ≡ timed_out 6
unfolding run_until_stop wait_from
times_out_at_six = refl

run_until_stop-ends_example :
    (j : ℕ) × (j ≤ 10)
    × EndsAt slow_turns 700 (1 * 10 ^ 9) (run_until_stop brief 700 slow_turns 11) j
run_until_stop-ends_example = run_until_stop-ends brief 700 slow_turns refl (λ k. omega arith)

-- The second `fork` fails.
abbrev answers : ℕ → ℤ
answers zero = pos 41
answers (suc zero) = negsuc 10
answers (suc (suc n)) = pos 43

main-IsTidy_example : IsTidy (length (main brief answers).0.shared_stats) (main brief answers).1
main-IsTidy_example = main-IsTidy brief answers

main-shares_out_example :
    (gather starts (main brief answers).1 ≡ [])
    × (gather waits_for (main brief answers).1 ≡ pos 41 ∷ pos 43 ∷ [])
    × (gather starts (main brief (seen_by answers 2)).1 ≡ 2 ∷ [])
main-shares_out_example = main-shares_out brief answers 2 refl no_child (omega arith)
  where
    no_child : (j : ℕ) → in_child (answers j) ≡ false
    no_child zero = refl
    no_child (suc zero) = refl
    no_child (suc (suc n)) = refl

run_process-leaves_example :
    (p : Process) × (run_process brief (seen_by answers 2) true 700 ≡ some p)
    × ((k : ℕ) → (p.joinable k ≡ false) × (count k p.begun ≡ count k p.joined))
    × (p.collector.reporter ≡ false)
    × (p.collector.calls ≡ map_shared 768 ∷ [])
unfolding who fork_workers
run_process-leaves_example = run_process-leaves brief (seen_by answers 2) 700
